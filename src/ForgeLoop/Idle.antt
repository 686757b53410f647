-- ===== src/ForgeLoop/Idle.antt =====
-- The idle gaps of the local runner: local_runner_idle_gap_recovery of
-- crates/runner-cli/src/forge_loop.rs, with a count of gaps that fits its usize.
pub mod Covered
use flexnetos_runner.Shared.{
  ℕ, ◌+◌, ◌-◌, ◌*◌, ◌/◌, max, Bool, true, false, not, ◌&&◌, ◌||◌, Option, none, some, List, [], ◌∷◌,
  ◌++◌, if◌then◌else◌, any, Text, codes, to_ascii_lowercase, contains,
}
use flexnetos_runner.Shared.Int.{ℤ, pos, pos_part, leb_ℤ, ltb_ℤ, eqb_ℤ, max_ℤ, min_ℤ, ◌-ℤ◌}
use flexnetos_runner.ForgeLoop.Entries.{WorkflowRunEntry, PrHistoryEntry}
use flexnetos_runner.ForgeLoop.Runs.{
  time_of, within_after, is_clean_merged, is_successful_runner_sustain,
  is_successful_runner_watch_rehydration, local_runner_productive_interval,
}

pub record IdleGapRecovery : Type 0 where
  pub max_idle_gap_minutes_observed : ℕ
  pub max_unrecovered_idle_gap_minutes : ℕ
  pub recovered_idle_gap_minutes : ℕ
  pub recovered_idle_gaps : ℕ

abbrev pub no_gaps : IdleGapRecovery
no_gaps = record {
  max_idle_gap_minutes_observed = 0;
  max_unrecovered_idle_gap_minutes = 0;
  recovered_idle_gap_minutes = 0;
  recovered_idle_gaps = 0;
}

unfoldable pub is_idle_recovery_pr_title : Text → Bool
is_idle_recovery_pr_title raw =
    let title = to_ascii_lowercase raw in
    (contains (codes "rehydrat") title
      || contains (codes "idle") title
      || contains (codes "sustain") title)
    && (contains (codes "runner") title
        || contains (codes "codex") title
        || contains (codes "completion") title)

unfoldable pub has_successful_runner_rehydration_after : ℤ → List WorkflowRunEntry → Bool
has_successful_runner_rehydration_after merged_at runs =
    any
      (λ run.
        within_after (60 * 60) merged_at (time_of run.created_at)
        && (is_successful_runner_watch_rehydration run || is_successful_runner_sustain run))
      runs

unfoldable pub clean_idle_recovery_pr_merged_at : PrHistoryEntry → Option ℤ
clean_idle_recovery_pr_merged_at pr =
    if is_clean_merged pr && is_idle_recovery_pr_title pr.title then time_of pr.merged_at else none

recovers : ℤ → List WorkflowRunEntry → PrHistoryEntry → Bool
recovers gap_end runs pr = elim (clean_idle_recovery_pr_merged_at pr) [
  | none ↦ false
  | some merged_at ↦
      within_after (90 * 60) gap_end (some merged_at)
      && has_successful_runner_rehydration_after merged_at runs
]

unfoldable pub idle_gap_has_recovery : ℤ → List WorkflowRunEntry → List PrHistoryEntry → Bool
unfolding recovers
idle_gap_has_recovery gap_end runs prs = any (recovers gap_end runs) prs

-- `((gap_end - gap_start).max(0) as u64).div_ceil(60)`
unfoldable pub gap_minutes : ℤ → ℤ → ℕ
gap_minutes gap_start gap_end = (pos_part (max_ℤ (gap_end -ℤ gap_start) (pos 0)) + 59) / 60

unfoldable pub record_idle_gap :
    List WorkflowRunEntry → List PrHistoryEntry → ℤ → ℤ → IdleGapRecovery → IdleGapRecovery
record_idle_gap runs prs gap_start gap_end r =
    let minutes = gap_minutes gap_start gap_end in
    let seen = record r {
      max_idle_gap_minutes_observed = max r.max_idle_gap_minutes_observed minutes;
    } in
    if idle_gap_has_recovery gap_end runs prs
    then record seen {
      recovered_idle_gap_minutes = max r.recovered_idle_gap_minutes minutes;
      recovered_idle_gaps = r.recovered_idle_gaps + 1;
    }
    else record seen {
      max_unrecovered_idle_gap_minutes = max r.max_unrecovered_idle_gap_minutes minutes;
    }

-- The order of the pairs (start, end).
pair_before : ℤ × ℤ → ℤ × ℤ → Bool
pair_before (a, b) (c, d) = ltb_ℤ a c || eqb_ℤ a c && leb_ℤ b d

insert_interval : ℤ × ℤ → List (ℤ × ℤ) → List (ℤ × ℤ)
insert_interval x [] = x ∷ []
insert_interval x (y ∷ ys) = if pair_before x y then x ∷ y ∷ ys else y ∷ insert_interval x ys

unfoldable pub sort_intervals : List (ℤ × ℤ) → List (ℤ × ℤ)
unfolding insert_interval pair_before
sort_intervals [] = []
sort_intervals (x ∷ xs) = insert_interval x (sort_intervals xs)

-- The part of an interval that lies in the window.
unfoldable pub clip : ℤ → ℤ → Option (ℤ × ℤ) → List (ℤ × ℤ)
clip window_start window_end none = []
clip window_start window_end (some (start, end)) =
    let clipped_start = max_ℤ start window_start in
    let clipped_end = min_ℤ end window_end in
    if leb_ℤ clipped_start clipped_end then (clipped_start, clipped_end) ∷ [] else []

unfoldable pub intervals_of : ℤ → ℤ → ℕ → List WorkflowRunEntry → List (ℤ × ℤ)
intervals_of window_start window_end min_minutes [] = []
intervals_of window_start window_end min_minutes (run ∷ runs) =
    clip window_start window_end (local_runner_productive_interval run min_minutes)
    ++ intervals_of window_start window_end min_minutes runs

module _ (runs : List WorkflowRunEntry) (prs : List PrHistoryEntry) where
  -- What lies between the cursor and `start`, if anything, is a gap.
  unfoldable pub gap_before : ℤ → ℤ → IdleGapRecovery → IdleGapRecovery
  gap_before cursor start r =
      if ltb_ℤ cursor start then record_idle_gap runs prs cursor start r else r

  unfoldable pub moved : ℤ → ℤ → ℤ
  moved cursor end = if ltb_ℤ cursor end then end else cursor

  -- The loop over the intervals, and the gap after the last one.
  unfoldable pub sweep : ℤ → List (ℤ × ℤ) → ℤ → IdleGapRecovery → IdleGapRecovery
  sweep window_end [] cursor r = gap_before cursor window_end r
  sweep window_end ((start, end) ∷ rest) cursor r =
      sweep window_end rest (moved cursor end) (gap_before cursor start r)

unfoldable pub local_runner_idle_gap_recovery :
    List WorkflowRunEntry → List PrHistoryEntry → ℤ → ℤ → ℕ → IdleGapRecovery
local_runner_idle_gap_recovery runs prs window_start window_end min_minutes =
    if leb_ℤ window_end window_start
    then no_gaps
    else sweep runs prs window_end
        (sort_intervals (intervals_of window_start window_end min_minutes runs)) window_start
        no_gaps
