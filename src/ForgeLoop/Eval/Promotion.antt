-- ===== src/ForgeLoop/Eval/Promotion.antt =====
-- What a promotion takes, and that better evidence never scores less
-- (crates/runner-cli/src/forge_loop.rs).
use flexnetos_runner.Shared.{
  ℕ, ◌+◌, ◌-◌, ◌*◌, ◌≤◌, ◌<◌, min, ◌≡◌, refl, ap, ◌∙◌, Bool, true, false, arith, ltb, leb,
  if◌then◌else◌, ◌↔◌, codes, leb→le, Bool-cases, inl, inr,
}
use flexnetos_runner.Shared.Int.{sub_ℕ}
use flexnetos_runner.ForgeLoop.Eval.{
  EvalInput, evaluate, earn, retry_points, raw_score, clamp_score, verdict_of, promote,
  in_review_size,
}

abbrev worth : Bool → ℕ → ℕ
worth b points = if b then points else 0

earn_parts : (b : Bool) (n g p : ℕ) → earn b n (sub_ℕ g p) ≡ sub_ℕ (g + worth b n) p
unfolding earn
earn_parts b n g p = ground arith

retry_parts :
    (r g p : ℕ) → retry_points r (sub_ℕ g p) ≡ sub_ℕ (g + worth (leb r 1) 10) (p + (r - 1) * 5)
unfolding retry_points
retry_parts r g p = ground arith

clamp_parts : (g p : ℕ) → clamp_score (sub_ℕ g p) ≡ min (g - p) 100
unfolding clamp_score
clamp_parts g p = ground arith

abbrev gains : EvalInput → ℕ
gains i =
    0
    + worth i.red_test_first 25
    + worth i.gates_passed 35
    + worth (leb i.retry_count 1) 10
    + worth (ltb 0 i.useful_research_items) (min i.useful_research_items 3 * 5)
    + worth (leb i.runtime_secs 900) 10
    + worth (in_review_size i.diff_files) 5

raw_score-parts : (i : EvalInput) → raw_score i ≡ sub_ℕ (gains i) (0 + (i.retry_count - 1) * 5)
unfolding raw_score
raw_score-parts i =
    let red : ℕ = worth i.red_test_first 25 in
    let gates : ℕ = worth i.gates_passed 35 in
    let retry : ℕ = worth (leb i.retry_count 1) 10 in
    let lost : ℕ = (i.retry_count - 1) * 5 in
    let found : ℕ = min i.useful_research_items 3 * 5 in
    let research : ℕ = worth (ltb 0 i.useful_research_items) found in
    let fast : ℕ = worth (leb i.runtime_secs 900) 10 in
    ap
      (λ s. earn (in_review_size i.diff_files) 5 (
        earn (leb i.runtime_secs 900) 10 (
          earn (ltb 0 i.useful_research_items) found
            (retry_points i.retry_count (earn i.gates_passed 35 s)))))
      (earn_parts i.red_test_first 25 0 0)
    ∙ ap
        (λ s. earn (in_review_size i.diff_files) 5 (
          earn (leb i.runtime_secs 900) 10
            (earn (ltb 0 i.useful_research_items) found (retry_points i.retry_count s))))
        (earn_parts i.gates_passed 35 (0 + red) 0)
    ∙ ap
        (λ s.
          earn (in_review_size i.diff_files) 5
            (earn (leb i.runtime_secs 900) 10 (earn (ltb 0 i.useful_research_items) found s)))
        (retry_parts i.retry_count (0 + red + gates) 0)
    ∙ ap (λ s. earn (in_review_size i.diff_files) 5 (earn (leb i.runtime_secs 900) 10 s))
        (earn_parts (ltb 0 i.useful_research_items) found (0 + red + gates + retry) (0 + lost))
    ∙ ap (earn (in_review_size i.diff_files) 5)
        (earn_parts (leb i.runtime_secs 900) 10 (0 + red + gates + retry + research) (0 + lost))
    ∙ earn_parts (in_review_size i.diff_files) 5 (0 + red + gates + retry + research + fast)
        (0 + lost)

score-eq : (i : EvalInput) → (evaluate i).score ≡ min (gains i - (i.retry_count - 1) * 5) 100
unfolding evaluate
score-eq i =
    ap clamp_score (raw_score-parts i)
    ∙ clamp_parts (gains i) (0 + (i.retry_count - 1) * 5)
    ∙ ap (λ (p : ℕ). min (gains i - p) 100) (omega arith)

-- `b` has at least the evidence of `a`: what `a` has, no more retries, no fewer findings, no longer a
-- run, and the same size.
pub record Better (a b : EvalInput) : Type 0 where
  pub red : a.red_test_first ≡ true → b.red_test_first ≡ true
  pub gates : a.gates_passed ≡ true → b.gates_passed ≡ true
  pub retries : b.retry_count ≤ a.retry_count
  pub findings : a.useful_research_items ≤ b.useful_research_items
  pub runtime : b.runtime_secs ≤ a.runtime_secs
  pub size : b.diff_files ≡ a.diff_files

worth_mono : (a b : Bool) (n : ℕ) → (a ≡ true → b ≡ true) → worth a n ≤ worth b n
worth_mono true b n h = rw (h refl) (omega arith)
worth_mono false b n h = omega arith

gains_mono : (a b : EvalInput) → Better a b → gains a ≤ gains b
gains_mono a b w =
    let findings : worth (ltb 0 a.useful_research_items) (min a.useful_research_items 3 * 5)
        ≤ worth (ltb 0 b.useful_research_items) (min b.useful_research_items 3 * 5) =
      ground (arith, w.findings) in
    omega (
      arith,
      findings,
      worth_mono a.red_test_first b.red_test_first 25 w.red,
      worth_mono a.gates_passed b.gates_passed 35 w.gates,
      worth_mono (leb a.retry_count 1) (leb b.retry_count 1) 10 (λ h. ground (arith, w.retries)),
      worth_mono (leb a.runtime_secs 900) (leb b.runtime_secs 900) 10
          (λ h. ground (arith, w.runtime)),
      ap (λ n. worth (in_review_size n) 5) w.size,
    )

score_mono : (a b : EvalInput) → Better a b → (evaluate a).score ≤ (evaluate b).score
score_mono a b w = omega (arith, score-eq a, score-eq b, gains_mono a b w, w.retries)

allowed_iff :
    (i : EvalInput)
    → ((evaluate i).upgrade_allowed ≡ true) ↔ (
        (70 ≤ (evaluate i).score)
        × (i.gates_passed ≡ true)
        × (i.red_test_first ≡ true)
        × (0 < i.diff_files))
unfolding evaluate
allowed_iff i = ground arith

-- Better evidence never scores less, and never loses the upgrade.
pub evaluate_mono :
    (a b : EvalInput)
    → Better a b
    → ((evaluate a).score ≤ (evaluate b).score)
      × ((evaluate a).upgrade_allowed ≡ true → (evaluate b).upgrade_allowed ≡ true)
evaluate_mono a b w = (
  score_mono a b w,
  λ h.
      let (enough, gates, red, changed) = (allowed_iff a).0 h in
      (allowed_iff b).1
        (omega (arith, score_mono a b w), w.gates gates, w.red red, omega (arith, w.size)),
)

verdict_of-promote : (score : ℕ) → verdict_of score ≡ promote → 85 ≤ score
unfolding verdict_of codes
verdict_of-promote score h = elim (Bool-cases (leb 85 score)) [
  | inl e ↦ leb→le 85 score e
  | inr e ↦ elim (Bool-cases (leb 70 score)) [
    | inl f ↦ absurd (cc (rw (e, f) at h))
    | inr f ↦ elim (Bool-cases (leb 50 score)) [
      | inl g ↦ absurd (cc (rw (e, f, g) at h))
      | inr g ↦ absurd (cc (rw (e, f, g) at h))
    ]
  ]
]

-- A cycle is promoted only if its red test came first, the gates passed and it took at most two
-- retries; with a changed file its upgrade is then allowed.
promoted_only :
    (i : EvalInput)
    → (evaluate i).verdict ≡ promote
    → (i.red_test_first ≡ true)
      × (i.gates_passed ≡ true)
      × (i.retry_count ≤ 2)
      × (0 < i.diff_files → (evaluate i).upgrade_allowed ≡ true)
promoted_only i h =
    let high : 85 ≤ (evaluate i).score = unfold evaluate in verdict_of-promote _ h in
    let red : i.red_test_first ≡ true = ground (arith, score-eq i) in
    let gates : i.gates_passed ≡ true = ground (arith, score-eq i) in
    (
      red,
      gates,
      ground (arith, score-eq i),
      λ changed. (allowed_iff i).1 (omega arith, gates, red, changed),
    )
