-- ===== src/ForgeLoop/Flow.antt =====
-- Whether work flows: runner_flow_audit_report of crates/runner-cli/src/forge_loop.rs, on what its
-- files hold. The text that names a target is left out.
use flexnetos_runner.Shared.{
  ℕ, Bool, false, not, ◌&&◌, ◌||◌, Option, none, some, List, ◌++◌, ◌==◌, length, Text, codes,
  contains,
}
use flexnetos_runner.ForgeLoop.Entries.{WorkflowRunEntry, PrFlowEntry}
use flexnetos_runner.ForgeLoop.Runs.{eq_ignore_ascii_case}
use flexnetos_runner.ForgeLoop.Audits.{count_where, missing_if, count_checks, is_seamless}

pub record RunnerFlowAuditReport : Type 0 where
  pub sustain_workflow_present : Bool
  pub active_runs : ℕ
  pub queued_runs : ℕ
  pub open_prs : ℕ
  pub queued_required_checks : ℕ
  pub failed_required_checks : ℕ
  pub idle_without_work : Bool
  pub pr_flow_seamless : Bool
  pub missing_evidence : List Text

is_sustain_workflow : Option Text → Bool
is_sustain_workflow none = false
is_sustain_workflow (some workflow) =
    (contains (codes "*/10 * * * *") workflow || contains (codes "*/5 * * * *") workflow)
    && contains (codes "self-hosted") workflow
    && contains (codes "components-audit --strict") workflow
    && contains (codes "target-mining-audit --strict") workflow

-- On the workflow's file, the runs and the open pull requests.
unfoldable pub runner_flow_audit_report :
    Option Text → List WorkflowRunEntry → List PrFlowEntry → RunnerFlowAuditReport
unfolding is_sustain_workflow is_seamless
runner_flow_audit_report workflow runs prs =
    let present = is_sustain_workflow workflow in
    let active =
      count_where
        (λ (run : WorkflowRunEntry). eq_ignore_ascii_case run.status (codes "in_progress")) runs in
    let queued =
      count_where
        (λ (run : WorkflowRunEntry).
          eq_ignore_ascii_case run.status (codes "queued")
          || eq_ignore_ascii_case run.status (codes "pending"))
        runs in
    let checks = count_checks prs in
    let idle = active == 0 && queued == 0 && length prs == 0 in
    let seamless = is_seamless (length prs) checks in
    record {
      sustain_workflow_present = present;
      active_runs = active;
      queued_runs = queued;
      open_prs = length prs;
      queued_required_checks = checks.0;
      failed_required_checks = checks.1;
      idle_without_work = idle;
      pr_flow_seamless = seamless;
      missing_evidence =
          missing_if (not present) (codes "runner_sustain_workflow")
          ++ (missing_if idle (codes "active_or_queued_runner_work")
              ++ missing_if (not seamless) (codes "seamless_pr_flow"));
    }
