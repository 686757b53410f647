-- ===== src/ForgeLoop/Eval.antt =====
-- The evaluation of a cycle: evaluate and validate_eval_input of
-- crates/runner-cli/src/forge_loop.rs. The score stays far inside an i16.
pub mod Promotion
use flexnetos_runner.Shared.{
  ℕ, ◌+◌, ◌-◌, ◌*◌, min, Bool, true, false, ◌&&◌, Option, none, some, List, [], ◌∷◌, ◌++◌, ltb, leb,
  if◌then◌else◌, Result, ok, err, Text, codes,
}
use flexnetos_runner.Shared.Int.{ℤ, pos, pos_part, leb_ℤ, max_ℤ, min_ℤ, ◌+ℤ◌, ◌-ℤ◌}

pub record EvalInput : Type 0 where
  pub cycle_goal : Option Text
  pub prompt_sha256 : Option Text
  pub red_test_first : Bool
  pub gates_passed : Bool
  pub retry_count : ℕ
  pub useful_research_items : ℕ
  pub runtime_secs : ℕ
  pub diff_files : ℕ

pub record EvalReport : Type 0 where
  pub score : ℕ
  pub verdict : Text
  pub upgrade_allowed : Bool
  pub reasons : List Text

unfoldable pub earn : Bool → ℕ → ℤ → ℤ
earn b points score = if b then score +ℤ pos points else score

unfoldable pub retry_points : ℕ → ℤ → ℤ
retry_points retries score =
    if leb retries 1 then score +ℤ pos 10 else score -ℤ pos ((retries - 1) * 5)

abbrev pub in_review_size : ℕ → Bool
in_review_size files = leb 1 files && leb files 12

-- The score before it is clamped.
unfoldable pub raw_score : EvalInput → ℤ
raw_score i =
    let s1 = earn i.red_test_first 25 (pos 0) in
    let s2 = earn i.gates_passed 35 s1 in
    let s3 = retry_points i.retry_count s2 in
    let s4 = earn (ltb 0 i.useful_research_items) (min i.useful_research_items 3 * 5) s3 in
    let s5 = earn (leb i.runtime_secs 900) 10 s4 in earn (in_review_size i.diff_files) 5 s5

because : Bool → Text → List Text
because b reason = if b then reason ∷ [] else []

reasons_of : EvalInput → List Text
unfolding because
reasons_of i =
    because i.red_test_first (codes "red test evidence present")
    ++ (because i.gates_passed (codes "repository gates passed")
        ++ (because (leb i.retry_count 1) (codes "low retry count")
            ++ (because (ltb 0 i.useful_research_items)
                  (codes "research produced actionable findings")
                ++ (because (leb i.runtime_secs 900) (codes "runtime within speed budget")
                    ++ because (in_review_size i.diff_files) (codes "diff size is reviewable")))))

-- `score.clamp(0, 100) as u8`
unfoldable pub clamp_score : ℤ → ℕ
clamp_score score = pos_part (min_ℤ (max_ℤ score (pos 0)) (pos 100))

abbrev pub promote : Text
promote = codes "promote"

unfoldable pub verdict_of : ℕ → Text
verdict_of score =
    if leb 85 score
    then promote
    else if leb 70 score
    then codes "upgrade-candidate"
    else if leb 50 score
    then codes "hold-and-repair"
    else codes "quarantine"

unfoldable pub evaluate : EvalInput → EvalReport
unfolding reasons_of
evaluate input =
    let score = clamp_score (raw_score input) in
    record {
      score = score;
      verdict = verdict_of score;
      upgrade_allowed =
          leb 70 score && (input.gates_passed && (input.red_test_first && ltb 0 input.diff_files));
      reasons = reasons_of input;
    }

pub data EvalError : Type 0 where
  too_many_retries : ℕ → EvalError
  other_goal : Text → Text → EvalError
  goal_required : EvalError
  other_prompt : Text → Text → EvalError
  prompt_required : EvalError

-- MAX_EVAL_RETRY_COUNT
abbrev pub max_eval_retry_count : ℕ
max_eval_retry_count = 10

unfoldable pub validate_eval_input : EvalInput → Result (Unit {0}) EvalError
validate_eval_input input =
    if ltb max_eval_retry_count input.retry_count
    then err (too_many_retries input.retry_count)
    else ok tt
