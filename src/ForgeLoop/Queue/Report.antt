-- ===== src/ForgeLoop/Queue/Report.antt =====
-- The queue audit: runner_queue_audit_report of crates/runner-cli/src/forge_loop.rs. The texts that
-- name a target or a role are left out.
use flexnetos_runner.Shared.{
  ℕ, ◌+◌, Bool, not, ◌&&◌, List, [], ◌∷◌, ◌++◌, ltb, if◌then◌else◌, is_empty, length, map, all, any,
  unwrap_or, Text, codes, text_eq, to_ascii_lowercase, one_of,
}
use flexnetos_runner.Shared.Order.{list_order, ℕ_order}
use flexnetos_runner.Shared.Sorted
use flexnetos_runner.ForgeLoop.Runs.{eq_ignore_ascii_case}
use flexnetos_runner.ForgeLoop.Audits.{missing_if, count_where}
use flexnetos_runner.ForgeLoop.Queue.{
  RunnerQueueJobInput, RunnerQueueRunInput, dedupe_runner_queue_runs, filled,
}

pub record RunnerQueueJobSummary : Type 0 where
  pub repository : Text
  pub workflow : Text
  pub run_id : Text
  pub run_status : Text
  pub event : Text
  pub display_title : Text
  pub head_branch : Text
  pub job : Text
  pub status : Text
  pub conclusion : Text
  pub runner_name : Text
  pub runner_group_name : Text
  pub labels : List Text
  pub url : Text

unfoldable pub job_summary : RunnerQueueRunInput → RunnerQueueJobInput → RunnerQueueJobSummary
job_summary run job = record {
  repository = run.repository;
  workflow = run.workflow;
  run_id = run.run_id;
  run_status = run.run_status;
  event = run.event;
  display_title = run.display_title;
  head_branch = run.head_branch;
  job = job.name;
  status = job.status;
  conclusion = job.conclusion;
  runner_name = job.runner_name;
  runner_group_name = job.runner_group_name;
  labels = job.labels;
  url = filled job.url run.url;
}

unfoldable pub summaries_of :
    RunnerQueueRunInput → List RunnerQueueJobInput → List RunnerQueueJobSummary
summaries_of run [] = []
summaries_of run (job ∷ jobs) = job_summary run job ∷ summaries_of run jobs

unfoldable pub all_summaries : List RunnerQueueRunInput → List RunnerQueueJobSummary
all_summaries [] = []
all_summaries (run ∷ runs) = summaries_of run run.jobs ++ all_summaries runs

-- `*counts.entry(name).or_insert(0) += 1`
unfoldable pub count_at : Text → List (Text × ℕ) → List (Text × ℕ)
count_at name counts = Sorted.entry name (λ n. n + 1) 1 counts

unfoldable pub tally : List Text → List (Text × ℕ) → List (Text × ℕ)
tally [] counts = counts
tally (name ∷ names) counts = tally names (count_at name counts)

unfoldable pub drop_empty : List Text → List Text
drop_empty [] = []
drop_empty (name ∷ names) =
    let rest = drop_empty names in if is_empty name then rest else name ∷ rest

-- The counts of each repository's names, for the names that are not empty.
unfoldable pub tally_under :
    List (Text × Text) → List (Text × List (Text × ℕ)) → List (Text × List (Text × ℕ))
tally_under [] counts = counts
tally_under ((repository, name) ∷ rest) counts = tally_under rest (
    if is_empty name
    then counts
    else Sorted.entry repository (count_at name) (count_at name []) counts)

unfoldable pub job_has_local_flexnetos_labels : List Text → Bool
job_has_local_flexnetos_labels labels =
    all (λ required. any (λ label. eq_ignore_ascii_case label required) labels)
      (codes "self-hosted" ∷ codes "flexnetos" ∷ codes "nix" ∷ [])

unfoldable pub is_active_runner_job_status : Text → Bool
is_active_runner_job_status status =
    one_of (to_ascii_lowercase status) (codes "in_progress" ∷ codes "running" ∷ [])

unfoldable pub is_queued_runner_job_status : Text → Bool
is_queued_runner_job_status status =
    one_of (to_ascii_lowercase status)
      (codes "queued" ∷ codes "pending" ∷ codes "waiting" ∷ codes "requested" ∷ [])

unfoldable pub keep :
    (RunnerQueueJobSummary → Bool) → List RunnerQueueJobSummary → List RunnerQueueJobSummary
keep p [] = []
keep p (job ∷ jobs) = let rest = keep p jobs in if p job then job ∷ rest else rest

unfoldable pub repositories_of : List RunnerQueueJobSummary → List Text
repositories_of [] = []
repositories_of (job ∷ jobs) = job.repository ∷ repositories_of jobs

unfoldable pub count_jobs_by_repository : List RunnerQueueJobSummary → List (Text × ℕ)
count_jobs_by_repository jobs = tally (repositories_of jobs) []

pub record RunnerQueueRepositorySummary : Type 0 where
  pub repository : Text
  pub active_local_runner_jobs : ℕ
  pub queued_local_runner_jobs : ℕ
  pub nonlocal_queued_jobs : ℕ
  pub trigger_events : List (Text × ℕ)
  pub workflows : List (Text × ℕ)

pub record RunnerQueueAuditReport : Type 0 where
  pub scanned_repositories : ℕ
  pub scanned_runs : ℕ
  pub scanned_jobs : ℕ
  pub active_local_runner_jobs : List RunnerQueueJobSummary
  pub queued_local_runner_jobs : List RunnerQueueJobSummary
  pub nonlocal_queued_jobs : List RunnerQueueJobSummary
  pub repositories : List RunnerQueueRepositorySummary
  pub local_runner_busy_repositories : List (Text × ℕ)
  pub local_runner_waiting_repositories : List (Text × ℕ)
  pub trigger_events : List (Text × ℕ)
  pub max_queued_local_jobs : ℕ
  pub queue_ready : Bool
  pub missing_evidence : List Text

module _ (busy waiting : List (Text × ℕ)) (nonlocal : List RunnerQueueJobSummary)
    (events workflows : List (Text × List (Text × ℕ))) where
  unfoldable pub repository_summary : Text → RunnerQueueRepositorySummary
  repository_summary repository = record {
    repository = repository;
    active_local_runner_jobs = unwrap_or (Sorted.get repository busy) 0;
    queued_local_runner_jobs = unwrap_or (Sorted.get repository waiting) 0;
    nonlocal_queued_jobs =
        count_where (λ (job : RunnerQueueJobSummary). text_eq job.repository repository) nonlocal;
    trigger_events = unwrap_or (Sorted.get repository events) [];
    workflows = unwrap_or (Sorted.get repository workflows) [];
  }

-- The keys of a map ascend, so the sort after this one changes nothing.
unfoldable pub runner_queue_audit_report : ℕ → List RunnerQueueRunInput → RunnerQueueAuditReport
runner_queue_audit_report max_queued observed =
    let runs = dedupe_runner_queue_runs observed in
    let jobs = all_summaries runs in
    let events = map (λ (run : RunnerQueueRunInput). run.event) runs in
    let repository_runs = tally (map (λ (run : RunnerQueueRunInput). run.repository) runs) [] in
    let active =
      keep
        (λ job. job_has_local_flexnetos_labels job.labels && is_active_runner_job_status job.status)
        jobs in
    let queued =
      keep
        (λ job. job_has_local_flexnetos_labels job.labels && is_queued_runner_job_status job.status)
        jobs in
    let nonlocal =
      keep
        (λ job.
          not (job_has_local_flexnetos_labels job.labels) && is_queued_runner_job_status job.status)
        jobs in
    let busy = count_jobs_by_repository active in
    let waiting = count_jobs_by_repository queued in
    let summary =
      repository_summary busy waiting nonlocal
        (tally_under (map (λ (run : RunnerQueueRunInput). (run.repository, run.event)) runs) [])
        (tally_under (map (λ (run : RunnerQueueRunInput). (run.repository, run.workflow)) runs)
          []) in
    let missing =
      missing_if (is_empty runs) (codes "repo_job_snapshots")
      ++ missing_if (ltb max_queued (length queued)) (codes "local_runner_queue_pressure") in
    record {
      scanned_repositories = length repository_runs;
      scanned_runs = length runs;
      scanned_jobs = length jobs;
      active_local_runner_jobs = active;
      queued_local_runner_jobs = queued;
      nonlocal_queued_jobs = nonlocal;
      repositories = map summary (Sorted.keys repository_runs);
      local_runner_busy_repositories = busy;
      local_runner_waiting_repositories = waiting;
      trigger_events = tally (drop_empty events) [];
      max_queued_local_jobs = max_queued;
      queue_ready = is_empty missing;
      missing_evidence = missing;
    }
