-- ===== src/Tests/Queues.antt =====
-- The theorems on the queue and the output schema, applied to concrete data.
use flexnetos_runner.Shared.{◌≡◌, ◌↔◌, true, List, [], ◌∷◌, length, Text, codes}
use flexnetos_runner.ForgeLoop.Queue.{RunnerQueueJobInput, RunnerQueueRunInput}
use flexnetos_runner.ForgeLoop.Queue.Report.{runner_queue_audit_report}
use flexnetos_runner.ForgeLoop.Queue.Conserved.{total, audit_conserves}
use flexnetos_runner.ForgeLoop.Schema.{
  Json, integer, string, object, array, field, no_fields, item, no_items, search,
}
use flexnetos_runner.ForgeLoop.Schema.Keys.{min_items_leaf}
use flexnetos_runner.ForgeLoop.Schema.Walks.{Walk, search_exact}
use flexnetos_runner.Shared.Int.{pos}

abbrev job : Text → List Text → RunnerQueueJobInput
job status labels = record {
  name = codes "test";
  status = status;
  conclusion = [];
  runner_name = [];
  runner_group_name = [];
  labels = labels;
  url = [];
}

abbrev local_labels : List Text
local_labels = codes "self-hosted" ∷ codes "FlexNetOS" ∷ codes "nix" ∷ []

abbrev run_of : Text → Text → List RunnerQueueJobInput → RunnerQueueRunInput
run_of repository run_id jobs = record {
  repository = repository;
  run_id = run_id;
  workflow = codes "CI";
  run_status = codes "queued";
  event = codes "push";
  display_title = [];
  head_branch = codes "main";
  url = [];
  jobs = jobs;
}

abbrev queue : List RunnerQueueRunInput
queue =
    run_of (codes "o/b") (codes "2")
      (job (codes "queued") local_labels ∷ job (codes "in_progress") local_labels ∷ [])
    ∷ run_of (codes "o/a") (codes "1") (job (codes "waiting") (codes "ubuntu-latest" ∷ []) ∷ [])
    ∷ run_of (codes "o/b") (codes "2") (job (codes "queued") local_labels ∷ [])
    ∷ []

audit_conserves_example :
    let r = runner_queue_audit_report 0 queue in
    (total (λ row. row.active_local_runner_jobs) r.repositories ≡ length r.active_local_runner_jobs)
    × (total (λ row. row.queued_local_runner_jobs) r.repositories
        ≡ length r.queued_local_runner_jobs)
    × (total (λ row. row.nonlocal_queued_jobs) r.repositories ≡ length r.nonlocal_queued_jobs)
audit_conserves_example = audit_conserves 0 queue

-- An object with these properties.
abbrev with_properties : Text → Json → Json
with_properties name v =
    object (field (codes "properties") (object (field name v no_fields)) no_fields)

abbrev schema : Json
schema = object (
    field (codes "allOf")
      (array (
        item
          (with_properties (codes "phases")
            (object (field (codes "minItems") (integer (pos 6)) no_fields)))
          no_items))
      (field (codes "required") (array (item (string (codes "summary")) no_items)) no_fields))

search_exact_example :
    (search (min_items_leaf 6) (codes "phases" ∷ []) schema ≡ true)
    ↔ Walk (min_items_leaf 6) (codes "phases" ∷ []) schema
search_exact_example = search_exact (min_items_leaf 6) (codes "phases" ∷ []) schema
