-- ===== src/Job.antt =====
-- The job specification that the App dispatches (crates/runner-core/src/jobspec.rs).
use flexnetos_runner.Shared.{ℕ, Bool, Text, codes}
use flexnetos_runner.Agent.{Agent}

pub data JobKind : Type 0 where
  -- repo, head_sha
  ci : Text → Text → JobKind
  -- repo, pr_number, head_sha, agent
  review_gate : Text → ℕ → Text → Agent → JobKind
  -- repo, prompt_ref, agent
  agent_task : Text → Text → Agent → JobKind
  -- repo, task_id
  loop_cycle : Text → Text → JobKind

-- The route label of a kind of work.
unfoldable pub class : JobKind → Text
class (ci _ _) = codes "ci"
class (review_gate _ _ _ _) = codes "review"
class (agent_task _ _ _) = codes "agent"
class (loop_cycle _ _) = codes "cycle"

pub record JobSpec : Type 0 where
  pub id : Text
  pub correlation_id : Text
  pub from_fork : Bool
  pub job : JobKind
