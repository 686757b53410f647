-- ===== src/ForgeLoop/Runs.antt =====
-- What a workflow run counts as: the tests on names, states and times of
-- crates/runner-cli/src/forge_loop.rs.
use flexnetos_runner.Shared.{
  ℕ, ◌*◌, ◌/◌, Bool, false, not, ◌&&◌, ◌||◌, Option, none, some, List, [], ◌∷◌, leb, if◌then◌else◌,
  is_some, unwrap_or, or_else, any, is_empty, Text, codes, text_eq, to_ascii_lowercase, starts_with,
  contains, one_of,
}
use flexnetos_runner.Shared.Int.{
  ℤ, pos, pos_part, neg_part, leb_ℤ, ltb_ℤ, max_ℤ, ◌-ℤ◌, saturating_sub_i64,
}
use flexnetos_runner.ForgeLoop.Entries.{WorkflowRunEntry, PrHistoryEntry}
use flexnetos_runner.ForgeLoop.Calendar.{parse_rfc3339_utc_seconds}
use flexnetos_runner.ForgeLoop.Checks.{classify_runner_health}

abbrev pub eq_ignore_ascii_case : Text → Text → Bool
eq_ignore_ascii_case s t = text_eq (to_ascii_lowercase s) (to_ascii_lowercase t)

-- `value.as_deref().and_then(parse_rfc3339_utc_seconds)`
unfoldable pub time_of : Option Text → Option ℤ
time_of none = none
time_of (some value) = parse_rfc3339_utc_seconds value

unfoldable pub is_runner_black_factor_watch_name : Text → Bool
is_runner_black_factor_watch_name name =
    text_eq name (codes "Runner Black Factor Watch")
    || starts_with (codes "Runner Black Factor Watch (") name

unfoldable pub is_codex_forge_loop_name : Text → Bool
is_codex_forge_loop_name name =
    text_eq name (codes "Codex Forge Loop")
    || text_eq name (codes ".github/workflows/codex-forge-loop.yml")
    || starts_with (codes "Codex Forge Loop (") name

unfoldable pub is_agentic_system_watch_name : Text → Bool
is_agentic_system_watch_name name =
    text_eq name (codes "Agentic System Watch") || starts_with (codes "Agentic System Watch (") name

unfoldable pub is_ops_workflow : Text → Bool
unfolding is_runner_black_factor_watch_name is_codex_forge_loop_name
is_ops_workflow name =
    one_of name (codes "Runner Sustain" ∷ codes "CI" ∷ codes "Semantic PR Title" ∷ [])
    || is_runner_black_factor_watch_name name
    || is_codex_forge_loop_name name

is_completed_success : WorkflowRunEntry → Bool
is_completed_success run =
    eq_ignore_ascii_case run.status (codes "completed")
    && eq_ignore_ascii_case run.conclusion (codes "success")

unfoldable pub is_successful_runner_sustain : WorkflowRunEntry → Bool
unfolding is_completed_success
is_successful_runner_sustain run =
    text_eq run.name (codes "Runner Sustain") && is_completed_success run

long_enough : ℕ → ℤ → ℤ → Option ℕ
long_enough min_minutes created updated =
    if ltb_ℤ updated created
    then none
    else let minutes = pos_part (updated -ℤ created) / 60 in
      if leb min_minutes minutes then some minutes else none

duration_of : ℕ → Option ℤ → Option ℤ → Option ℕ
unfolding long_enough
duration_of min_minutes none updated = none
duration_of min_minutes (some created) none = none
duration_of min_minutes (some created) (some updated) = long_enough min_minutes created updated

unfoldable pub runner_sustain_duration_minutes : WorkflowRunEntry → ℕ → Option ℕ
unfolding duration_of
runner_sustain_duration_minutes run min_minutes =
    if not (is_successful_runner_sustain run)
    then none
    else duration_of min_minutes (time_of run.created_at) (time_of run.updated_at)

-- From the start to the end, which is not before it.
span_from : Option ℤ → Option ℤ → Option (ℤ × ℤ)
span_from none end = none
span_from (some start) end = some (start, max_ℤ (unwrap_or end start) start)

unfoldable pub runner_sustain_interval : WorkflowRunEntry → ℕ → Option (ℤ × ℤ)
unfolding span_from
runner_sustain_interval run min_minutes =
    if not (text_eq run.name (codes "Runner Sustain"))
    then none
    else if eq_ignore_ascii_case run.status (codes "queued")
        || eq_ignore_ascii_case run.status (codes "in_progress")
        || is_some (runner_sustain_duration_minutes run min_minutes)
    then span_from (time_of run.created_at) (time_of run.updated_at)
    else none

unfoldable pub local_runner_productive_interval : WorkflowRunEntry → ℕ → Option (ℤ × ℤ)
unfolding span_from
local_runner_productive_interval run min_minutes =
    if text_eq run.name (codes "Runner Sustain")
    then runner_sustain_interval run min_minutes
    else if not (one_of run.name (codes "CI" ∷ codes "Semantic PR Title" ∷ []))
        && not (is_codex_forge_loop_name run.name)
    then none
    else span_from (time_of run.created_at) (time_of run.updated_at)

unfoldable pub is_successful_runner_watch_rehydration : WorkflowRunEntry → Bool
unfolding is_completed_success
is_successful_runner_watch_rehydration run =
    is_runner_black_factor_watch_name run.name
    && is_completed_success run
    && (eq_ignore_ascii_case run.event (codes "workflow_run")
        || eq_ignore_ascii_case run.event (codes "workflow_dispatch")
          && (contains (codes "sustain_completion") run.display_title
              || contains (codes "codex_completion") run.display_title))

unfoldable pub is_failed_conclusion : Text → Bool
is_failed_conclusion conclusion =
    one_of (to_ascii_lowercase conclusion)
      (codes "failure" ∷ codes "timed_out" ∷ codes "cancelled" ∷ codes "action_required" ∷ [])

unfoldable pub same_ops_replacement_family : Text → Text → Bool
same_ops_replacement_family run candidate =
    text_eq run candidate
    || is_runner_black_factor_watch_name run && is_runner_black_factor_watch_name candidate
    || is_codex_forge_loop_name run && is_codex_forge_loop_name candidate
    || is_agentic_system_watch_name run && is_agentic_system_watch_name candidate

-- Is `later` a time from `from` on, at most so many seconds after it?
unfoldable pub within_after : ℕ → ℤ → Option ℤ → Bool
within_after seconds from none = false
within_after seconds from (some later) =
    leb_ℤ from later && leb_ℤ (saturating_sub_i64 later from) (pos seconds)

-- `(later - from).abs()` is at most so many seconds.
near : ℕ → ℤ → Option ℤ → Bool
near seconds from none = false
near seconds from (some later) =
    leb (pos_part (later -ℤ from)) seconds && leb (neg_part (later -ℤ from)) seconds

is_replacement : WorkflowRunEntry → ℤ → WorkflowRunEntry → Bool
unfolding near is_completed_success
is_replacement run cancelled_at candidate =
    same_ops_replacement_family run.name candidate.name
    && text_eq candidate.head_branch run.head_branch
    && is_completed_success candidate
    && near (10 * 60) cancelled_at (time_of candidate.created_at)

unfoldable pub has_nearby_successful_replacement : WorkflowRunEntry → List WorkflowRunEntry → Bool
unfolding is_replacement
has_nearby_successful_replacement run runs = elim (time_of run.created_at) [
  | none ↦ false
  | some cancelled_at ↦ any (is_replacement run cancelled_at) runs
]

unfoldable pub is_clean_merged : PrHistoryEntry → Bool
is_clean_merged pr =
    eq_ignore_ascii_case pr.state (codes "MERGED")
    && is_empty (classify_runner_health pr.status_check_rollup).failed_local_checks

unfoldable pub has_nearby_clean_merged_pr_recovery : WorkflowRunEntry → List PrHistoryEntry → Bool
has_nearby_clean_merged_pr_recovery run prs =
    elim (time_of (or_else run.updated_at run.created_at)) [
      | none ↦ false
      | some failed_at ↦
          any (λ pr. is_clean_merged pr && within_after (30 * 60) failed_at (time_of pr.merged_at))
            prs
    ]

unfoldable pub is_failed_ops_run :
    WorkflowRunEntry → List WorkflowRunEntry → List PrHistoryEntry → Bool
is_failed_ops_run run runs prs =
    is_failed_conclusion run.conclusion
    && not (has_nearby_successful_replacement run runs)
    && not (is_codex_forge_loop_name run.name && has_nearby_clean_merged_pr_recovery run prs)
