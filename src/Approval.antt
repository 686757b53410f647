-- ===== src/Approval.antt =====
-- Which classes of job a human must approve (crates/runner-core/src/approval.rs).
use flexnetos_runner.Shared.{
  Bool, true, false, ◌||◌, List, [], ◌∷◌, ◌++◌, if◌then◌else◌, Text, codes, text_eq, trim,
  to_ascii_lowercase, split, one_of,
}
use flexnetos_runner.Job.{JobKind, ci, review_gate, agent_task, loop_cycle, JobSpec}

pub record ApprovalPolicy : Type 0 where
  pub ci_jobs : Bool
  pub review_gates : Bool
  pub agent_tasks : Bool
  pub loop_cycles : Bool

-- `ApprovalPolicy::none`
unfoldable pub no_approval : ApprovalPolicy
no_approval = record {
  ci_jobs = false;
  review_gates = false;
  agent_tasks = false;
  loop_cycles = false;
}

unfoldable pub is_active : ApprovalPolicy → Bool
is_active p = p.ci_jobs || p.review_gates || p.agent_tasks || p.loop_cycles

-- One band of the list. An unknown one changes nothing.
set_band : ApprovalPolicy → Text → ApprovalPolicy
set_band p s =
    if text_eq s (codes "ci")
    then record p { ci_jobs = true }
    else if one_of s (codes "review" ∷ codes "review_gate" ∷ codes "review_gates" ∷ [])
    then record p { review_gates = true }
    else if one_of s (codes "agent" ∷ codes "agent_task" ∷ codes "agent_tasks" ∷ [])
    then record p { agent_tasks = true }
    else if one_of s (codes "cycle" ∷ codes "loop" ∷ codes "loop_cycle" ∷ codes "loop_cycles" ∷ [])
    then record p { loop_cycles = true }
    else p

unfoldable pub set_bands : ApprovalPolicy → List Text → ApprovalPolicy
unfolding set_band
set_bands p [] = p
set_bands p (raw ∷ rest) = set_bands (set_band p (to_ascii_lowercase (trim raw))) rest

unfoldable pub from_bands : Text → ApprovalPolicy
unfolding set_bands no_approval
from_bands spec = set_bands no_approval (split 44 spec)

band_of : JobKind → ApprovalPolicy → Bool
band_of (ci _ _) p = p.ci_jobs
band_of (review_gate _ _ _ _) p = p.review_gates
band_of (agent_task _ _ _) p = p.agent_tasks
band_of (loop_cycle _ _) p = p.loop_cycles

unfoldable pub requires : ApprovalPolicy → JobSpec → Bool
unfolding band_of
requires p job = band_of job.job p

band_name : Bool → Text → List Text
band_name b name = if b then name ∷ [] else []

unfoldable pub enabled_bands : ApprovalPolicy → List Text
unfolding band_name
enabled_bands p =
    band_name p.ci_jobs (codes "ci")
    ++ (band_name p.review_gates (codes "review")
        ++ (band_name p.agent_tasks (codes "agent") ++ band_name p.loop_cycles (codes "cycle")))
