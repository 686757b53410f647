-- ===== src/Tests/Audits.antt =====
-- The theorems on the Forge Loop's audits, applied to concrete data.
use flexnetos_runner.Shared.{
  ◌*◌, ◌≤◌, max, ◌≡◌, refl, text_eq, to_ascii_lowercase, as_bytes, starts_with, contains, one_of,
  ◌↔◌, inl, inr, true, Option, none, some, List, [], ◌∷◌, arith, Text, codes, Among,
}
use flexnetos_runner.Shared.Int.{ℤ, pos, ◌≤ℤ◌}
use flexnetos_runner.ForgeLoop.Entries.{CheckRollupEntry, WorkflowRunEntry}
use flexnetos_runner.ForgeLoop.Audits.{
  RunnerOpsSloAuditArgs, runner_ops_slo_audit_report, missing_if, window_of, timestamps,
  proof_start, count_checks, count_where,
}
use flexnetos_runner.ForgeLoop.Audits.Ready.{slo_window, ready_idle_bounded}
use flexnetos_runner.ForgeLoop.Calendar.{parse_rfc3339_utc_seconds, days_from_civil}
use flexnetos_runner.ForgeLoop.Calendar.RoundTrip.{print, parse-print}
use flexnetos_runner.ForgeLoop.Checks.{
  classify_runner_health, is_local_runner_check, pending, passed, failed,
}
use flexnetos_runner.ForgeLoop.Checks.Exact.{state_of_name, classify_exact}
use flexnetos_runner.ForgeLoop.Idle.{
  local_runner_idle_gap_recovery, sweep, sort_intervals, intervals_of, clip, gap_before, moved,
  record_idle_gap, gap_minutes, idle_gap_has_recovery,
}
use flexnetos_runner.ForgeLoop.Idle.Covered.{Apart, IsIdle, seconds_between, idle_bounded}
use flexnetos_runner.ForgeLoop.Runs.{
  local_runner_productive_interval, runner_sustain_interval, runner_sustain_duration_minutes,
  is_successful_runner_sustain, time_of, has_nearby_clean_merged_pr_recovery,
  has_nearby_successful_replacement, is_ops_workflow, is_failed_ops_run, is_failed_conclusion,
  is_codex_forge_loop_name, is_runner_black_factor_watch_name,
  is_successful_runner_watch_rehydration,
}
use flexnetos_runner.Shared.Int.{scale, ◌+ℤ◌}

abbrev linux_ci : Text
linux_ci = codes "Local Linux CI"

abbrev check : Text → Text → CheckRollupEntry
check status conclusion = record { name = linux_ci; status = status; conclusion = conclusion }

-- A run that failed, and one that is running again.
abbrev rerun : List CheckRollupEntry
rerun = check (codes "COMPLETED") (codes "FAILURE") ∷ check (codes "IN_PROGRESS") [] ∷ []

classify_exact_example :
    let r = classify_runner_health rerun in
    (Among linux_ci r.pending_local_checks
      ↔ ((is_local_runner_check linux_ci ≡ true) × (state_of_name linux_ci rerun ≡ some pending)))
    × (Among linux_ci r.passed_local_checks
        ↔ ((is_local_runner_check linux_ci ≡ true) × (state_of_name linux_ci rerun ≡ some passed)))
    × (Among linux_ci r.failed_local_checks
        ↔ ((is_local_runner_check linux_ci ≡ true) × (state_of_name linux_ci rerun ≡ some failed)))
    × (Among linux_ci r.missing_local_checks
        ↔ ((is_local_runner_check linux_ci ≡ true) × (state_of_name linux_ci rerun ≡ none)))
classify_exact_example = classify_exact rerun linux_ci

parse-print_example :
    parse_rfc3339_utc_seconds (print 2026 6 30 23 59 60)
    ≡ some (
        scale (days_from_civil (pos 2026) 6 30) 86400 +ℤ pos (23 * 3600) +ℤ pos (59 * 60) +ℤ pos 60)
parse-print_example =
    parse-print 2026 6 30 23 59 60 (omega arith) (omega arith, omega arith)
      (omega arith, omega arith) (omega arith, omega arith, omega arith)

-- A sustain run from ten to half past eleven, and one that is queued at noon.
abbrev sustained : WorkflowRunEntry
sustained = record {
  status = codes "completed";
  conclusion = codes "success";
  event = codes "schedule";
  display_title = codes "Runner Sustain";
  head_branch = codes "main";
  name = codes "Runner Sustain";
  created_at = some (codes "1970-01-01T10:00:00Z");
  updated_at = some (codes "1970-01-01T11:30:00Z");
}

abbrev waiting : WorkflowRunEntry
waiting = record sustained {
  status = codes "queued";
  conclusion = [];
  created_at = some (codes "1970-01-01T12:00:00Z");
  updated_at = none;
}

abbrev pub runs : List WorkflowRunEntry
runs = sustained ∷ waiting ∷ []

-- A run whose interval is known.
interval-Apart :
    (a b s t : ℤ) (o : Option (ℤ × ℤ))
    → o ≡ some (s, t)
    → Apart a b (s, t)
    → (u v : ℤ) → o ≡ some (u, v)
    → Apart a b (u, v)
interval-Apart a b s t o e apart u v h = ground arith

interval-sustained : local_runner_productive_interval sustained 30 ≡ some (pos 36000, pos 41400)
unfolding local_runner_productive_interval runner_sustain_interval runner_sustain_duration_minutes
    is_successful_runner_sustain time_of parse_rfc3339_utc_seconds text_eq codes to_ascii_lowercase
    as_bytes
interval-sustained = refl

interval-waiting : local_runner_productive_interval waiting 30 ≡ some (pos 43200, pos 43200)
unfolding local_runner_productive_interval runner_sustain_interval runner_sustain_duration_minutes
    is_successful_runner_sustain time_of parse_rfc3339_utc_seconds text_eq codes to_ascii_lowercase
    as_bytes
interval-waiting = refl

runs-IsIdle : IsIdle runs 30 (pos 41400) (pos 43200)
runs-IsIdle = (
  interval-Apart (pos 41400) (pos 43200) _ _ _ interval-sustained (inl (omega arith)),
  (interval-Apart (pos 41400) (pos 43200) _ _ _ interval-waiting (inr (omega arith)), tt),
)

idle_bounded_example :
    let r = local_runner_idle_gap_recovery runs [] (pos 36000) (pos 43200) 30 in
    (seconds_between (pos 41400) (pos 43200) ≤ r.max_idle_gap_minutes_observed * 60)
    × (r.max_idle_gap_minutes_observed
        ≡ max r.max_unrecovered_idle_gap_minutes r.recovered_idle_gap_minutes)
idle_bounded_example =
    idle_bounded runs [] (pos 36000) (pos 43200) 30 (pos 41400) (pos 43200) (omega arith)
      (omega arith) (omega arith) runs-IsIdle

abbrev pub slo : RunnerOpsSloAuditArgs
slo = record {
  min_window_hours = 1;
  min_sustain_duration_minutes = 30;
  max_idle_gap_minutes = 30;
  min_active_or_queued_sustain = 1;
  min_event_watch_wakeups = 0;
  max_failed_ops_runs = 0;
}

-- The last half hour lies in the window.
idle-in_window : ((slo_window slo runs).0 ≤ℤ pos 41400) × (pos 43200 ≤ℤ (slo_window slo runs).1)
unfolding proof_start window_of timestamps time_of parse_rfc3339_utc_seconds as_bytes codes
idle-in_window = (omega arith, omega arith)

slo-ready : (runner_ops_slo_audit_report slo runs [] []).burn_in_ready ≡ true
unfolding runner_ops_slo_audit_report missing_if window_of timestamps time_of
    parse_rfc3339_utc_seconds as_bytes codes local_runner_idle_gap_recovery proof_start sweep
    sort_intervals intervals_of clip local_runner_productive_interval text_eq
    runner_sustain_interval to_ascii_lowercase count_checks count_where gap_before moved
    record_idle_gap gap_minutes idle_gap_has_recovery has_nearby_clean_merged_pr_recovery
    has_nearby_successful_replacement is_ops_workflow is_failed_ops_run is_failed_conclusion
    is_codex_forge_loop_name is_runner_black_factor_watch_name
    is_successful_runner_watch_rehydration is_successful_runner_sustain
    runner_sustain_duration_minutes starts_with contains one_of
slo-ready = refl

ready_idle_bounded_example :
    seconds_between (pos 41400) (pos 43200)
    ≤ max 30 (runner_ops_slo_audit_report slo runs [] []).idle.recovered_idle_gap_minutes * 60
ready_idle_bounded_example =
    ready_idle_bounded slo runs [] [] (pos 41400) (pos 43200) slo-ready idle-in_window.0
      (omega arith) idle-in_window.1 runs-IsIdle
