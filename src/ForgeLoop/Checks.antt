-- ===== src/ForgeLoop/Checks.antt =====
-- The health of the local runner by a pull request's checks: classify_runner_health and CheckState
-- of crates/runner-cli/src/forge_loop.rs.
pub mod Exact
use flexnetos_runner.Shared.{
  Bool, true, false, not, ◌||◌, List, [], ◌∷◌, if◌then◌else◌, is_empty, is_some, Text, codes,
  text_eq, to_ascii_lowercase, one_of,
}
use flexnetos_runner.Shared.Order.{list_order, ℕ_order}
use flexnetos_runner.Shared.Sorted
use flexnetos_runner.ForgeLoop.Entries.{CheckRollupEntry}

pub data CheckState : Type 0 where
  pending passed failed : CheckState

unfoldable pub merged_with : CheckState → CheckState → CheckState
merged_with pending other = pending
merged_with passed pending = pending
merged_with passed passed = passed
merged_with passed failed = passed
merged_with failed pending = pending
merged_with failed passed = passed
merged_with failed failed = failed

-- REQUIRED_LOCAL_CHECKS
abbrev pub required_local_checks : List Text
required_local_checks = codes "Local Linux CI" ∷ codes "Semantic PR Title" ∷ []

unfoldable pub is_local_runner_check : Text → Bool
is_local_runner_check name = one_of name required_local_checks

unfoldable pub check_state : CheckRollupEntry → CheckState
check_state check =
    let status = to_ascii_lowercase check.status in
    let conclusion = to_ascii_lowercase check.conclusion in
    if one_of status (codes "queued" ∷ codes "pending" ∷ codes "in_progress" ∷ [])
      || is_empty conclusion
    then pending
    else if text_eq conclusion (codes "success")
    then passed
    else failed

-- The first loop: one merged state for each local check's name.
unfoldable pub local_check_states :
    List CheckRollupEntry → List (Text × CheckState) → List (Text × CheckState)
local_check_states [] states = states
local_check_states (check ∷ checks) states = local_check_states checks (
    if is_local_runner_check check.name
    then Sorted.entry check.name (λ state. merged_with state (check_state check))
        (check_state check) states
    else states)

unfoldable pub missing_checks : List Text → List (Text × CheckState) → List Text
missing_checks [] states = []
missing_checks (required ∷ rest) states =
    let later = missing_checks rest states in
    if not (is_some (Sorted.get required states)) then required ∷ later else later

pub record NamesByState : Type 0 where
  pub pending_names : List Text
  pub passed_names : List Text
  pub failed_names : List Text

-- The last loop, one entry at a time.
unfoldable pub push_name : Text → CheckState → NamesByState → NamesByState
push_name name pending l = record l { pending_names = name ∷ l.pending_names }
push_name name passed l = record l { passed_names = name ∷ l.passed_names }
push_name name failed l = record l { failed_names = name ∷ l.failed_names }

unfoldable pub names_by_state : List (Text × CheckState) → NamesByState
names_by_state [] = record { pending_names = []; passed_names = []; failed_names = [] }
names_by_state ((name, state) ∷ rest) = push_name name state (names_by_state rest)

pub record RunnerHealthReport : Type 0 where
  pub required_local_checks : List Text
  pub pending_local_checks : List Text
  pub passed_local_checks : List Text
  pub failed_local_checks : List Text
  pub missing_local_checks : List Text
  pub runner_pressure : Bool
  pub recommendation : Text

recommend : Bool → Bool → Text
recommend pressure missing =
    if pressure
    then codes
        "inspect self-hosted runner services and queued external jobs before waiting indefinitely"
    else if missing
    then codes "verify required local checks were scheduled before trusting branch-protection state"
    else codes "local self-hosted required checks are not currently queued"

unfoldable pub classify_runner_health : List CheckRollupEntry → RunnerHealthReport
unfolding recommend
classify_runner_health checks =
    let states = local_check_states checks [] in
    let names = names_by_state states in
    let missing = missing_checks required_local_checks states in
    let pressure = not (is_empty names.pending_names) in
    record {
      required_local_checks = required_local_checks;
      pending_local_checks = names.pending_names;
      passed_local_checks = names.passed_names;
      failed_local_checks = names.failed_names;
      missing_local_checks = missing;
      runner_pressure = pressure;
      recommendation = recommend pressure (not (is_empty missing));
    }
