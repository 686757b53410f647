-- ===== src/ForgeLoop/Audits.antt =====
-- The reports of the runner's audits: runner_black_factor_audit_report and
-- runner_ops_slo_audit_report of crates/runner-cli/src/forge_loop.rs, on what their files hold. The
-- texts that name a target are left out.
pub mod Ready
use flexnetos_runner.Shared.{
  ℕ, ◌+◌, ◌-◌, ◌*◌, ◌/◌, Bool, true, false, not, ◌&&◌, ◌||◌, Option, none, some, List, [], ◌∷◌,
  ◌++◌, ltb, leb, ◌==◌, if◌then◌else◌, is_some, is_empty, length, any, unwrap_or, Text, codes,
  text_eq, contains, saturating_mul,
}
use flexnetos_runner.Shared.Int.{
  ℤ, pos, pos_part, leb_ℤ, min_ℤ, max_ℤ, ◌-ℤ◌, scale, wrap_i64, saturating_sub_i64,
}
use flexnetos_runner.ForgeLoop.Entries.{WorkflowRunEntry, PrHistoryEntry, PrFlowEntry}
use flexnetos_runner.ForgeLoop.Checks.{classify_runner_health}
use flexnetos_runner.ForgeLoop.Runs.{
  time_of, eq_ignore_ascii_case, is_successful_runner_sustain, runner_sustain_duration_minutes,
  is_clean_merged, is_codex_forge_loop_name, is_successful_runner_watch_rehydration,
  is_ops_workflow, is_failed_ops_run,
}
use flexnetos_runner.ForgeLoop.Idle.{IdleGapRecovery, local_runner_idle_gap_recovery}

-- `.filter(p).count()`
unfoldable pub count_where {ℓ} : {A : Type ℓ} → (A → Bool) → List A → ℕ
count_where p [] = 0
count_where p (x ∷ xs) = (if p x then 1 else 0) + count_where p xs

add_time : Option ℤ → List ℤ → List ℤ
add_time none times = times
add_time (some t) times = t ∷ times

unfoldable pub timestamps : List WorkflowRunEntry → List ℤ
unfolding add_time
timestamps [] = []
timestamps (run ∷ runs) = add_time (time_of run.created_at) (timestamps runs)

-- The first and the last of the times.
unfoldable pub window_of : List ℤ → Option (ℤ × ℤ)
window_of [] = none
window_of (t ∷ ts) = elim (window_of ts) [
  | none ↦ some (t, t)
  | some (first, last) ↦ some (min_ℤ t first, max_ℤ t last)
]

minutes_of : Option (ℤ × ℤ) → ℕ
minutes_of none = 0
minutes_of (some (first, last)) = pos_part (last -ℤ first) / 60

-- `last.saturating_sub((min_window_minutes as i64) * 60)`, with the wrap of a release build.
unfoldable pub proof_start : ℕ → ℤ → ℤ
proof_start minutes last = saturating_sub_i64 last (wrap_i64 (scale (wrap_i64 (pos minutes)) 60))

unfoldable pub missing_if : Bool → Text → List Text
missing_if b name = if b then name ∷ [] else []

pub record RunnerBlackFactorAuditArgs : Type 0 where
  pub min_window_hours : ℕ
  pub min_sustain_duration_minutes : ℕ
  pub min_sustain_runs : ℕ
  pub min_clean_merged_prs : ℕ

pub record RunnerBlackFactorAuditReport : Type 0 where
  pub observed_window_minutes : ℕ
  pub min_window_minutes : ℕ
  pub successful_sustain_runs : ℕ
  pub total_duration_proven_sustain_runs : ℕ
  pub min_sustain_runs : ℕ
  pub remaining_sustain_runs : ℕ
  pub min_minutes_to_sustain_target : ℕ
  pub min_sustain_duration_minutes : ℕ
  pub short_or_unproven_sustain_runs : ℕ
  pub clean_merged_prs : ℕ
  pub min_clean_merged_prs : ℕ
  pub exceeded : Bool
  pub missing_evidence : List Text

since : Option ℤ → Option ℤ → Bool
since none created = false
since (some start) none = false
since (some start) (some created) = leb_ℤ start created

start_after : ℕ → Option (ℤ × ℤ) → Option ℤ
start_after minutes none = none
start_after minutes (some (first, last)) = some (proof_start minutes last)

unfoldable pub runner_black_factor_audit_report :
    RunnerBlackFactorAuditArgs
    → List WorkflowRunEntry
    → List PrHistoryEntry
    → RunnerBlackFactorAuditReport
unfolding minutes_of since start_after
runner_black_factor_audit_report args runs prs =
    let window = window_of (timestamps runs) in
    let observed = minutes_of window in
    let minutes = saturating_mul args.min_window_hours 60 in
    let start = start_after minutes window in
    let shortest = args.min_sustain_duration_minutes in
    let proven : WorkflowRunEntry → Bool =
      λ run. is_some (runner_sustain_duration_minutes run shortest) in
    let recent = count_where (λ run. proven run && since start (time_of run.created_at)) runs in
    let remaining = args.min_sustain_runs - recent in
    let clean =
      count_where (λ (pr : PrHistoryEntry). is_clean_merged pr && is_some pr.merged_at) prs in
    let missing =
      missing_if (ltb observed minutes) (codes "observed_12h_window")
      ++ (missing_if (ltb recent args.min_sustain_runs) (codes "sustain_run_count")
          ++ missing_if (ltb clean args.min_clean_merged_prs) (codes "clean_merged_pr_flow")) in
    record {
      observed_window_minutes = observed;
      min_window_minutes = minutes;
      successful_sustain_runs = recent;
      total_duration_proven_sustain_runs = count_where proven runs;
      min_sustain_runs = args.min_sustain_runs;
      remaining_sustain_runs = remaining;
      min_minutes_to_sustain_target = saturating_mul remaining shortest;
      min_sustain_duration_minutes = shortest;
      short_or_unproven_sustain_runs =
          count_where (λ run. is_successful_runner_sustain run && not (proven run)) runs;
      clean_merged_prs = clean;
      min_clean_merged_prs = args.min_clean_merged_prs;
      exceeded = is_empty missing;
      missing_evidence = missing;
    }

pub record RunnerOpsSloAuditArgs : Type 0 where
  pub min_window_hours : ℕ
  pub min_sustain_duration_minutes : ℕ
  pub max_idle_gap_minutes : ℕ
  pub min_active_or_queued_sustain : ℕ
  pub min_event_watch_wakeups : ℕ
  pub max_failed_ops_runs : ℕ

pub record RunnerOpsSloAuditReport : Type 0 where
  pub observed_window_minutes : ℕ
  pub min_window_minutes : ℕ
  pub idle : IdleGapRecovery
  pub active_or_queued_sustain_runs : ℕ
  pub active_or_queued_codex_growth_runs : ℕ
  pub sustain_or_growth_backlog_ready : Bool
  pub event_watch_wakeups : ℕ
  pub failed_ops_runs : ℕ
  pub open_prs : ℕ
  pub queued_required_checks : ℕ
  pub failed_required_checks : ℕ
  pub pr_flow_seamless : Bool
  pub burn_in_ready : Bool
  pub missing_evidence : List Text

is_waiting : WorkflowRunEntry → Bool
is_waiting run =
    eq_ignore_ascii_case run.status (codes "queued")
    || eq_ignore_ascii_case run.status (codes "pending")
    || eq_ignore_ascii_case run.status (codes "in_progress")

-- The pending and the failed required checks of the open pull requests.
unfoldable pub count_checks : List PrFlowEntry → ℕ × ℕ
count_checks [] = (0, 0)
count_checks (pr ∷ prs) =
    let health = classify_runner_health pr.status_check_rollup in
    let rest = count_checks prs in
    (length health.pending_local_checks + rest.0, length health.failed_local_checks + rest.1)

unfoldable pub is_seamless : ℕ → ℕ × ℕ → Bool
is_seamless open_prs (queued, bad) = open_prs == 0 || queued == 0 && bad == 0

unfoldable pub runner_ops_slo_audit_report :
    RunnerOpsSloAuditArgs
    → List WorkflowRunEntry
    → List PrFlowEntry
    → List PrHistoryEntry
    → RunnerOpsSloAuditReport
unfolding minutes_of since is_waiting is_seamless
runner_ops_slo_audit_report args runs prs history =
    let (start, end) = unwrap_or (window_of (timestamps runs)) (pos 0, pos 0) in
    let observed = minutes_of (some (start, end)) in
    let minutes = saturating_mul args.min_window_hours 60 in
    let from = proof_start minutes end in
    let in_window : WorkflowRunEntry → Bool = λ run. since (some from) (time_of run.created_at) in
    let sustain =
      count_where (λ run. text_eq run.name (codes "Runner Sustain") && is_waiting run) runs in
    let growth = count_where (λ run. is_codex_forge_loop_name run.name && is_waiting run) runs in
    let backlog = leb args.min_active_or_queued_sustain sustain || ltb 0 growth in
    let wakeups =
      count_where (λ run. is_successful_runner_watch_rehydration run && in_window run) runs in
    let bad_runs =
      count_where
        (λ run.
          in_window run
          && is_ops_workflow run.name
          && eq_ignore_ascii_case run.status (codes "completed")
          && is_failed_ops_run run runs history)
        runs in
    let checks = count_checks prs in
    let seamless = is_seamless (length prs) checks in
    let idle =
      local_runner_idle_gap_recovery runs history from end args.min_sustain_duration_minutes in
    let missing =
      missing_if (ltb observed minutes) (codes "observed_slo_window")
      ++ (missing_if (ltb args.max_idle_gap_minutes idle.max_unrecovered_idle_gap_minutes)
            (codes "idle_gap_slo")
          ++ (missing_if (not backlog) (codes "active_or_queued_sustain_backlog")
              ++ (missing_if (ltb wakeups args.min_event_watch_wakeups)
                    (codes "event_watch_rehydration")
                  ++ (missing_if (ltb args.max_failed_ops_runs bad_runs) (codes "failed_ops_budget")
                      ++ missing_if (not seamless) (codes "seamless_pr_flow"))))) in
    record {
      observed_window_minutes = observed;
      min_window_minutes = minutes;
      idle = idle;
      active_or_queued_sustain_runs = sustain;
      active_or_queued_codex_growth_runs = growth;
      sustain_or_growth_backlog_ready = backlog;
      event_watch_wakeups = wakeups;
      failed_ops_runs = bad_runs;
      open_prs = length prs;
      queued_required_checks = checks.0;
      failed_required_checks = checks.1;
      pr_flow_seamless = seamless;
      burn_in_ready = is_empty missing;
      missing_evidence = missing;
    }
