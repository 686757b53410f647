-- ===== src/Safety.antt =====
-- Fork isolation and the runner's rails (crates/runner-core/src/safety.rs).
use flexnetos_runner.Shared.{
  Bool, true, false, not, ◌&&◌, List, [], ◌∷◌, if◌then◌else◌, Text, codes,
}
use flexnetos_runner.Job.{JobSpec}

pub data Placement : Type 0 where
  self_hosted hosted_only : Placement

unfoldable pub placement : JobSpec → Placement
placement job = if job.from_fork then hosted_only else self_hosted

pub record Rails : Type 0 where
  pub non_root : Bool
  pub mount_docker_socket : Bool
  pub work_dir_on_tmpfs : Bool
  pub ephemeral_single_job : Bool
  pub labels : List Text

unfoldable pub default_rails : Rails
default_rails = record {
  non_root = true;
  mount_docker_socket = false;
  work_dir_on_tmpfs = true;
  ephemeral_single_job = true;
  labels = codes "self-hosted" ∷ codes "flexnetos" ∷ [];
}

unfoldable pub is_safe : Rails → Bool
is_safe r = r.non_root && not r.mount_docker_socket && r.work_dir_on_tmpfs && r.ephemeral_single_job
