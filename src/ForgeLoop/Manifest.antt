-- ===== src/ForgeLoop/Manifest.antt =====
-- The manifest of a cycle and its checks: cycle_manifest, validate_cycle_manifest,
-- validate_eval_manifest_pair and what they are made of, of crates/runner-cli/src/forge_loop.rs.
-- `Auth` is what codex_auth_readiness gives for the environment.
pub mod Accepted
use flexnetos_runner.Shared.{
  ℕ, ◌+◌, ◌-◌, ◌*◌, ◌/◌, ◌%◌, Bool, true, false, not, ◌&&◌, ◌||◌, Option, none, some, List, [], ◌∷◌,
  ◌++◌, ltb, leb, ◌==◌, if◌then◌else◌, is_empty, Result, ok, err, Text, codes, text_eq,
  to_ascii_lowercase, starts_with, drop, as_bytes,
}
use flexnetos_runner.External.{External}
use flexnetos_runner.Constitution
use flexnetos_runner.ForgeLoop.Eval.{
  EvalInput, EvalError, other_goal, goal_required, other_prompt, prompt_required,
}

pub data CyclePhase : Type 0 where
  red implement gate evaluate research upgrade : CyclePhase

abbrev pub required_phases : List CyclePhase
required_phases = red ∷ implement ∷ gate ∷ evaluate ∷ research ∷ upgrade ∷ []

unfoldable pub phase_eq : CyclePhase → CyclePhase → Bool
phase_eq red red = true
phase_eq implement implement = true
phase_eq gate gate = true
phase_eq evaluate evaluate = true
phase_eq research research = true
phase_eq upgrade upgrade = true
phase_eq _ _ = false

unfoldable pub phases_eq : List CyclePhase → List CyclePhase → Bool
unfolding phase_eq
phases_eq [] [] = true
phases_eq (p ∷ ps) (q ∷ qs) = phase_eq p q && phases_eq ps qs
phases_eq _ _ = false

pub record Auth : Type 0 where
  pub auth_json : Text
  pub auth_mode : Text
  pub login_status_command : Text
  pub verification_commands : List Text

pub record CycleManifest : Type 0 where
  pub schema_version : ℕ
  pub goal : Text
  pub pr_title : Text
  pub prompt_sha256 : Text
  pub auth_mode : Text
  pub auth_status_command : Text
  pub auth_verification_commands : List Text
  pub once : Bool
  pub auto_merge : Bool
  pub strict_upgrade_only : Bool
  pub phases : List CyclePhase

pub record RunArgs : Type 0 where
  pub goal : Text
  pub auto_merge : Bool
  pub once : Bool

-- `char::is_ascii_whitespace`, a dash or a hash
is_lead : ℕ → Bool
is_lead c = c == 32 || c == 9 || c == 10 || c == 12 || c == 13 || c == 45 || c == 35

skip_lead : Text → Text
unfolding is_lead
skip_lead [] = []
skip_lead (c ∷ s) = if is_lead c then skip_lead s else c ∷ s

is_digit : ℕ → Bool
is_digit c = leb 48 c && leb c 57

leading_digits : Text → Text
unfolding is_digit
leading_digits [] = []
leading_digits (c ∷ s) = if is_digit c then c ∷ leading_digits s else []

value_from : ℕ → Text → ℕ
value_from n [] = n
value_from n (c ∷ s) = value_from (n * 10 + (c - 48)) s

-- `digits.parse::<u8>()` of digits only
unfoldable pub parse_u8 : Text → Option ℕ
unfolding value_from
parse_u8 digits =
    if not (is_empty digits) && leb (value_from 0 digits) 255
    then some (value_from 0 digits)
    else none

number_after : Text → Option ℕ
unfolding skip_lead leading_digits
number_after s = parse_u8 (leading_digits (skip_lead s))

-- The matches of "cycle", which cannot overlap, from the left.
find_number : Text → Option ℕ
unfolding number_after
find_number [] = none
find_number (c ∷ s) =
    let later = find_number s in
    if starts_with (codes "cycle") (to_ascii_lowercase (c ∷ s))
    then elim (number_after (drop 5 (c ∷ s))) [ none ↦ later | some n ↦ some n ]
    else later

unfoldable pub cycle_number_from_goal : Text → Option ℕ
unfolding find_number
cycle_number_from_goal goal = find_number goal

-- `{cycle:02}` of a number below 256
two_places : ℕ → Text
two_places n =
    if ltb n 100
    then (48 + n / 10) ∷ (48 + n % 10) ∷ []
    else (48 + n / 100) ∷ (48 + n / 10 % 10) ∷ (48 + n % 10) ∷ []

unfoldable pub cycle_pr_title : Text → Text
unfolding two_places
cycle_pr_title goal = elim (cycle_number_from_goal goal) [
  | none ↦ codes "chore: forge loop self-upgrade"
  | some cycle ↦ codes "chore: forge loop cycle " ++ two_places cycle
]

unfoldable pub cycle_prompt_with_auth : Text → Bool → Text → Text
cycle_prompt_with_auth goal auto_merge auth_json =
    codes "Run a Codex TDD forge-loop cycle for this Rust repo. Goal: "
    ++ (goal
        ++ (codes
              ". Do not start another cycle. Verify local ChatGPT subscription auth before implementation with `rtk codex login status` and `rtk proxy -- test -f "
            ++ (auth_json
                ++ (codes
                      "`. Keep auto-compaction enabled and preserve phase/source/validation/next-action continuity in compact summaries. Required phases: write/verify a red test first, implement the smallest passing change, run fmt/clippy/tests/audit, evaluate the run, and research one reliability/accuracy/speed improvement. If a self-upgrade is warranted, leave the intended repository changes in the working tree; do not run git commit, git push, or gh pr from inside Codex. The outer forge-loop engine will commit, push, open a PR with PR title '"
                    ++ (cycle_pr_title goal
                        ++ (codes "', and "
                            ++ ((if auto_merge
                                  then codes "auto-merge once green when repository settings allow"
                                  else codes "leave the PR ready for review")
                                ++ codes
                                    ". Strict upgrade only: no downgrades or removals without installed replacement and parity proof. Shell discipline: prefix every shell command with `rtk`; for Unix `find` with compound predicates or actions, use `rtk proxy -- find ...` instead of `rtk find ...` because `rtk find` rejects compound predicates.")))))))

pub data ManifestError : Type 0 where
  schema_version : ℕ → ManifestError
  pr_title : Text → Text → ManifestError
  prompt_hash : Text → Text → ManifestError
  not_once : ManifestError
  not_strict : ManifestError
  phase_order : ManifestError

module _ (ex : External) (auth : Auth) where
  -- `cycle_prompt`, hashed
  unfoldable pub prompt_hash_of : Text → Bool → Text
  prompt_hash_of goal auto_merge =
      Constitution.hash ex (as_bytes (cycle_prompt_with_auth goal auto_merge auth.auth_json))

  unfoldable pub cycle_manifest : RunArgs → CycleManifest
  cycle_manifest args = record {
    schema_version = 1;
    goal = args.goal;
    pr_title = cycle_pr_title args.goal;
    prompt_sha256 = prompt_hash_of args.goal args.auto_merge;
    auth_mode = auth.auth_mode;
    auth_status_command = auth.login_status_command;
    auth_verification_commands = auth.verification_commands;
    once = args.once;
    auto_merge = args.auto_merge;
    strict_upgrade_only = true;
    phases = required_phases;
  }

  unfoldable pub validate_cycle_manifest : CycleManifest → Result (Unit {0}) ManifestError
  validate_cycle_manifest m =
      if not (m.schema_version == 1)
      then err (schema_version m.schema_version)
      else if not (text_eq m.pr_title (cycle_pr_title m.goal))
      then err (pr_title m.pr_title (cycle_pr_title m.goal))
      else if not (text_eq m.prompt_sha256 (prompt_hash_of m.goal m.auto_merge))
      then err (prompt_hash m.prompt_sha256 (prompt_hash_of m.goal m.auto_merge))
      else if not m.once
      then err not_once
      else if not m.strict_upgrade_only
      then err not_strict
      else if not (phases_eq m.phases required_phases)
      then err phase_order
      else ok tt

hash_matches : Option Text → Text → Result (Unit {0}) EvalError
hash_matches none expected = err prompt_required
hash_matches (some hash) expected =
    if text_eq hash expected then ok tt else err (other_prompt hash expected)

goal_matches : Option Text → CycleManifest → Option Text → Result (Unit {0}) EvalError
unfolding hash_matches
goal_matches none m hash = err goal_required
goal_matches (some goal) m hash =
    if text_eq goal m.goal then hash_matches hash m.prompt_sha256 else err (other_goal goal m.goal)

unfoldable pub validate_eval_manifest_pair : EvalInput → CycleManifest → Result (Unit {0}) EvalError
unfolding goal_matches
validate_eval_manifest_pair i m = goal_matches i.cycle_goal m i.prompt_sha256
