-- ===== src/ForgeLoop/Fleet.antt =====
-- Who holds the runner's lanes: scan_proc_for_runner_jobs, dedupe_runner_fleet_jobs and
-- runner_fleet_audit_report of crates/runner-cli/src/forge_loop.rs.
pub mod Merge
pub mod Rows
use flexnetos_runner.Shared.{
  ℕ, ◌+◌, ◌-◌, Bool, true, false, not, Option, none, some, List, [], ◌∷◌, ◌++◌, ltb, leb, ◌==◌,
  if◌then◌else◌, is_empty, length, unwrap_or, Text, codes, text_eq, starts_with,
}
use mathlib.Core.List.{reverse}
use flexnetos_runner.Shared.Order.{list_order, ℕ_order}
use flexnetos_runner.Shared.Sorted
use flexnetos_runner.ForgeLoop.Processes.{
  ProcFiles, ProcInfo, parse_u32, proc_index, has_runner_worker_ancestor, parse_nul_env,
}

pub record RunnerFleetJob : Type 0 where
  pub repository : Text
  pub workflow : Text
  pub run_id : Text
  pub job : Text
  pub action : Text
  pub head_ref : Text
  pub ref_name : Text
  pub workspace : Text
  pub pids : List ℕ

variable : List (Text × Text) → Text → Text
variable env name = unwrap_or (Sorted.get name env) []

unfoldable pub fleet_job : ℕ → Text → List (Text × Text) → RunnerFleetJob
unfolding variable
fleet_job pid repository env = record {
  repository = repository;
  workflow = variable env (codes "GITHUB_WORKFLOW");
  run_id = variable env (codes "GITHUB_RUN_ID");
  job = variable env (codes "GITHUB_JOB");
  action = variable env (codes "GITHUB_ACTION");
  head_ref = variable env (codes "GITHUB_HEAD_REF");
  ref_name = variable env (codes "GITHUB_REF_NAME");
  workspace = variable env (codes "GITHUB_WORKSPACE");
  pids = pid ∷ [];
}

job_in_env : ℕ → List (Text × Text) → List RunnerFleetJob
job_in_env pid env = elim (Sorted.get (codes "GITHUB_REPOSITORY") env) [
  | none ↦ []
  | some repository ↦ if is_empty repository then [] else fleet_job pid repository env ∷ []
]

-- One entry of /proc.
job_of : List (ℕ × ProcInfo) → ProcFiles → List RunnerFleetJob
unfolding job_in_env
job_of index p = elim (parse_u32 p.file_name) [
  | none ↦ []
  | some pid ↦
      if not (has_runner_worker_ancestor pid index)
      then []
      else elim p.environ [ none ↦ [] | some environ ↦ job_in_env pid (parse_nul_env environ) ]
]

jobs_of : List (ℕ × ProcInfo) → List ProcFiles → List RunnerFleetJob
unfolding job_of
jobs_of index [] = []
jobs_of index (p ∷ rest) = job_of index p ++ jobs_of index rest

-- On the entries that the directory has, in the order in which it is read.
unfoldable pub scan_proc_for_runner_jobs : List ProcFiles → List RunnerFleetJob
unfolding jobs_of
scan_proc_for_runner_jobs entries = jobs_of (proc_index entries []) entries

-- The tuple by which jobs are told apart.
unfoldable pub key_of : RunnerFleetJob → List Text
key_of j = j.repository ∷ j.run_id ∷ j.job ∷ j.workspace ∷ []

unfoldable pub insert_pid : ℕ → List ℕ → List ℕ
insert_pid a [] = a ∷ []
insert_pid a (b ∷ pids) = if leb a b then a ∷ b ∷ pids else b ∷ insert_pid a pids

-- `pids.sort_unstable()`
unfoldable pub sort_pids : List ℕ → List ℕ
sort_pids [] = []
sort_pids (a ∷ pids) = insert_pid a (sort_pids pids)

-- `pids.dedup()`, of which `a` is the element before.
unfoldable pub dedup_after : ℕ → List ℕ → List ℕ
dedup_after a [] = []
dedup_after a (b ∷ pids) =
    let kept = b ∷ dedup_after b pids in
    let dropped = dedup_after a pids in if b == a then dropped else kept

unfoldable pub dedup_pids : List ℕ → List ℕ
dedup_pids [] = []
dedup_pids (a ∷ pids) = a ∷ dedup_after a pids

unfoldable pub absorb : RunnerFleetJob → RunnerFleetJob → RunnerFleetJob
absorb job existing = record existing { pids = dedup_pids (sort_pids (existing.pids ++ job.pids)) }

unfoldable pub collect :
    List RunnerFleetJob → List (List Text × RunnerFleetJob) → List (List Text × RunnerFleetJob)
collect [] by_key = by_key
collect (job ∷ jobs) by_key = collect jobs (Sorted.entry (key_of job) (absorb job) job by_key)

unfoldable pub dedupe_runner_fleet_jobs : List RunnerFleetJob → List RunnerFleetJob
dedupe_runner_fleet_jobs jobs = Sorted.values (collect jobs [])

ends_with_slash : Text → Bool
ends_with_slash s = starts_with (47 ∷ []) (reverse s)

unfoldable pub repository_matches_expected_scope : Text → Text → Bool
unfolding ends_with_slash
repository_matches_expected_scope repository expected_scope =
    if ends_with_slash expected_scope
    then starts_with expected_scope repository
    else text_eq repository expected_scope

in_scope : Text → List RunnerFleetJob → ℕ
in_scope scope [] = 0
in_scope scope (j ∷ jobs) =
    (if repository_matches_expected_scope j.repository scope then 1 else 0) + in_scope scope jobs

count_out_of_scope : Text → List RunnerFleetJob → List (Text × ℕ) → List (Text × ℕ)
count_out_of_scope scope [] counts = counts
count_out_of_scope scope (j ∷ jobs) counts = count_out_of_scope scope jobs (
    if repository_matches_expected_scope j.repository scope
    then counts
    else Sorted.entry j.repository (λ n. n + 1) 1 counts)

pub record RunnerFleetAuditReport : Type 0 where
  pub expected_scope : Text
  pub total_jobs : ℕ
  pub in_scope_repository_jobs : ℕ
  pub out_of_scope_repository_jobs : ℕ
  pub max_out_of_scope_jobs : ℕ
  pub out_of_scope_repositories : List (Text × ℕ)
  pub jobs : List RunnerFleetJob
  pub fleet_ready : Bool
  pub missing_evidence : List Text

-- On the jobs of the file, or those of the scan.
unfoldable pub runner_fleet_audit_report : Text → ℕ → List RunnerFleetJob → RunnerFleetAuditReport
unfolding in_scope count_out_of_scope
runner_fleet_audit_report scope max_out observed =
    let jobs = dedupe_runner_fleet_jobs observed in
    let inside = in_scope scope jobs in
    let outside = length jobs - inside in
    let missing =
      if ltb max_out outside then codes "out_of_scope_runner_lane_pressure" ∷ [] else [] in
    record {
      expected_scope = scope;
      total_jobs = length jobs;
      in_scope_repository_jobs = inside;
      out_of_scope_repository_jobs = outside;
      max_out_of_scope_jobs = max_out;
      out_of_scope_repositories = count_out_of_scope scope jobs [];
      jobs = jobs;
      fleet_ready = is_empty missing;
      missing_evidence = missing;
    }
