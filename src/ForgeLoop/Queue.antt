-- ===== src/ForgeLoop/Queue.antt =====
-- Who waits for the local runner: the runs and jobs of the queue, and dedupe_runner_queue_runs of
-- crates/runner-cli/src/forge_loop.rs.
pub mod Report
pub mod Tally
pub mod Conserved
use flexnetos_runner.Shared.{
  ℕ, ◌+◌, Bool, true, false, not, ◌&&◌, List, [], ◌∷◌, ◌++◌, ltb, if◌then◌else◌, is_empty, length,
  map, all, any, unwrap_or, Text, codes, text_eq, to_ascii_lowercase, one_of,
}
use flexnetos_runner.Shared.Order.{list_order, ℕ_order}
use flexnetos_runner.Shared.Sorted
use flexnetos_runner.ForgeLoop.Runs.{eq_ignore_ascii_case}
use flexnetos_runner.ForgeLoop.Audits.{missing_if, count_where}

pub record RunnerQueueJobInput : Type 0 where
  pub name : Text
  pub status : Text
  pub conclusion : Text
  pub runner_name : Text
  pub runner_group_name : Text
  pub labels : List Text
  pub url : Text

pub record RunnerQueueRunInput : Type 0 where
  pub repository : Text
  pub run_id : Text
  pub workflow : Text
  pub run_status : Text
  pub event : Text
  pub display_title : Text
  pub head_branch : Text
  pub url : Text
  pub jobs : List RunnerQueueJobInput

-- The tuple by which the jobs of a run are told apart.
unfoldable pub job_key : RunnerQueueJobInput → List Text
job_key j = j.name ∷ j.status ∷ j.runner_name ∷ j.url ∷ []

unfoldable pub collect_jobs :
    List RunnerQueueJobInput
    → List (List Text × RunnerQueueJobInput)
    → List (List Text × RunnerQueueJobInput)
collect_jobs [] by_key = by_key
collect_jobs (job ∷ jobs) by_key =
    collect_jobs jobs (Sorted.entry (job_key job) (λ old. old) job by_key)

unfoldable pub dedupe_runner_queue_jobs : List RunnerQueueJobInput → List RunnerQueueJobInput
dedupe_runner_queue_jobs jobs = Sorted.values (collect_jobs jobs [])

-- `if existing.is_empty() { existing = new }`
unfoldable pub filled : Text → Text → Text
filled existing new = if is_empty existing then new else existing

unfoldable pub absorb_run : RunnerQueueRunInput → RunnerQueueRunInput → RunnerQueueRunInput
absorb_run run existing = record existing {
  workflow = filled existing.workflow run.workflow;
  run_status = filled existing.run_status run.run_status;
  event = filled existing.event run.event;
  display_title = filled existing.display_title run.display_title;
  head_branch = filled existing.head_branch run.head_branch;
  url = filled existing.url run.url;
  jobs = dedupe_runner_queue_jobs (existing.jobs ++ run.jobs);
}

unfoldable pub run_key : RunnerQueueRunInput → List Text
run_key r = r.repository ∷ r.run_id ∷ []

unfoldable pub collect_runs :
    List RunnerQueueRunInput
    → List (List Text × RunnerQueueRunInput)
    → List (List Text × RunnerQueueRunInput)
collect_runs [] by_key = by_key
collect_runs (run ∷ runs) by_key =
    collect_runs runs (Sorted.entry (run_key run) (absorb_run run) run by_key)

unfoldable pub dedupe_runner_queue_runs : List RunnerQueueRunInput → List RunnerQueueRunInput
dedupe_runner_queue_runs runs = Sorted.values (collect_runs runs [])
