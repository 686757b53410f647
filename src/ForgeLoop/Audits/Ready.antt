-- ===== src/ForgeLoop/Audits/Ready.antt =====
-- What a passed burn-in says of the runner's idle time (crates/runner-cli/src/forge_loop.rs).
use flexnetos_runner.Shared.{
  ◌*◌, ◌≤◌, max, ◌≡◌, Bool, true, false, List, arith, Text, unwrap_or, saturating_mul, is_empty,
  ◌++◌,
}
use flexnetos_runner.Shared.Int.{ℤ, pos, ◌≤ℤ◌, ◌<ℤ◌}
use flexnetos_runner.ForgeLoop.Entries.{WorkflowRunEntry, PrHistoryEntry, PrFlowEntry}
use flexnetos_runner.ForgeLoop.Idle.Covered.{seconds_between, IsIdle, idle_bounded}
use flexnetos_runner.ForgeLoop.Audits.{
  RunnerOpsSloAuditArgs, window_of, timestamps, proof_start, missing_if,
  runner_ops_slo_audit_report,
}

-- The window that the audit looks at: its minutes before the last run that is known.
abbrev pub slo_window : RunnerOpsSloAuditArgs → List WorkflowRunEntry → ℤ × ℤ
slo_window args runs =
    let (start, end) = unwrap_or (window_of (timestamps runs)) (pos 0, pos 0) in
    (proof_start (saturating_mul args.min_window_hours 60) end, end)

nothing_missing :
    (a b : Bool) (n m : Text) (rest : List Text)
    → is_empty (missing_if a n ++ (missing_if b m ++ rest)) ≡ true
    → b ≡ false
unfolding missing_if
nothing_missing a b n m rest h = ground arith

ready-unrecovered :
    (args : RunnerOpsSloAuditArgs) (runs : List WorkflowRunEntry) (prs : List PrFlowEntry)
    (history : List PrHistoryEntry)
    → let r = runner_ops_slo_audit_report args runs prs history in
      r.burn_in_ready ≡ true → r.idle.max_unrecovered_idle_gap_minutes ≤ args.max_idle_gap_minutes
unfolding runner_ops_slo_audit_report
ready-unrecovered args runs prs history h =
    let fine = nothing_missing _ _ _ _ _ h in ground (arith, fine)

-- When the burn-in is ready, a span of its window that no productive interval meets is no longer than
-- the gap that the audit allows, or than the largest gap that was recovered from.
pub ready_idle_bounded :
    (args : RunnerOpsSloAuditArgs) (runs : List WorkflowRunEntry) (prs : List PrFlowEntry)
    (history : List PrHistoryEntry) (a b : ℤ)
    → (runner_ops_slo_audit_report args runs prs history).burn_in_ready ≡ true
    → (slo_window args runs).0 ≤ℤ a
    → a <ℤ b
    → b ≤ℤ (slo_window args runs).1
    → IsIdle runs args.min_sustain_duration_minutes a b
    → seconds_between a b
      ≤ max args.max_idle_gap_minutes
          (runner_ops_slo_audit_report args runs prs history).idle.recovered_idle_gap_minutes
        * 60
unfolding runner_ops_slo_audit_report
ready_idle_bounded args runs prs history a b ready from lt to idle =
    let small = ready-unrecovered args runs prs history ready in
    let bound =
      idle_bounded runs history (slo_window args runs).0 (slo_window args runs).1
        args.min_sustain_duration_minutes a b from lt to idle in
    omega (arith, small, bound)
