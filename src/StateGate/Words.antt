-- ===== src/StateGate/Words.antt =====
-- The words of the state gate's rules: what a rule `class=tier` bounds and by which tier
-- (crates/runner-core/src/stategate.rs), as lists of words.
use flexnetos_runner.Shared.{
  Bool, true, false, not, Option, none, some, List, [], ◌∷◌, ◌≡◌, refl, inl, inr, all, arith,
  Bool-cases, Text, codes, text_eq, text_eq_iff, one_of, trim, to_ascii_lowercase, Result, ok, err,
  if◌then◌else◌, or_else, split_once,
}
use flexnetos_runner.Governor.{SurvivalTier, full, conserving, distress, halted}
use flexnetos_runner.Job.{JobKind, ci, review_gate, agent_task, loop_cycle, class}
use flexnetos_runner.Classes.{normalize_class}
use flexnetos_runner.StateGate.{parse_tier}

abbrev pub ci_words : List Text
ci_words = codes "ci" ∷ codes "build" ∷ codes "test" ∷ []

abbrev pub review_words : List Text
review_words = codes "review" ∷ codes "review_gate" ∷ codes "review-gate" ∷ []

abbrev pub agent_words : List Text
agent_words = codes "agent" ∷ codes "agent_task" ∷ codes "agent-task" ∷ []

abbrev pub cycle_words : List Text
cycle_words = codes "cycle" ∷ codes "loop" ∷ codes "loop_cycle" ∷ codes "loop-cycle" ∷ []

-- The words for the class of a job.
abbrev pub class_words : JobKind → List Text
class_words (ci _ _) = ci_words
class_words (review_gate _ _ _ _) = review_words
class_words (agent_task _ _ _) = agent_words
class_words (loop_cycle _ _) = cycle_words

abbrev pub tier_words : SurvivalTier → List Text
tier_words full = codes "full" ∷ []
tier_words conserving = codes "conserving" ∷ codes "conserve" ∷ []
tier_words distress = codes "distress" ∷ []
tier_words halted = codes "halted" ∷ codes "halt" ∷ []

unfoldable pub first_named : Text → List SurvivalTier → Option SurvivalTier
first_named s [] = none
first_named s (m ∷ tiers) =
    let later = first_named s tiers in if one_of s (tier_words m) then some m else later

abbrev pub word : Text → Text
word raw = to_ascii_lowercase (trim raw)

unfoldable pub bound_in : JobKind → Option (Text × Text) → Option SurvivalTier
unfolding first_named
bound_in k none = none
bound_in k (some (name, tier)) =
    if one_of (word name) (class_words k)
    then first_named (word tier) (full ∷ conserving ∷ distress ∷ halted ∷ [])
    else none

-- The bound of the last rule for the class of a job.
unfoldable pub last_bound : JobKind → List Text → Option SurvivalTier
last_bound k [] = none
last_bound k (rule ∷ rules) = or_else (last_bound k rules) (bound_in k (split_once 61 rule))

unfoldable pub tier_in : Result SurvivalTier Text → Option SurvivalTier
tier_in (ok m) = some m
tier_in (err e) = none

unfoldable pub is_class : Text → Option Text → Bool
is_class name none = false
is_class name (some other) = text_eq name other

-- A word of one list is no word of the other.
disjoint :
    (s : Text) (ws vs : List Text)
    → all (λ w. not (one_of w vs)) ws ≡ true
    → one_of s ws ≡ true
    → one_of s vs ≡ false
unfolding one_of
disjoint s [] vs h i = cc
disjoint s (w ∷ ws) vs h i = elim (Bool-cases (text_eq s w)) [
  | inl e ↦ rw ((text_eq_iff s w).0 e) (ground arith)
  | inr e ↦ disjoint s ws vs (ground arith) (rw e at i)
]

abbrev Apart : List Text → List Text → Type 0
Apart ws vs = (s : Text) → one_of s ws ≡ true → one_of s vs ≡ false

ci-review : Apart ci_words review_words
unfolding one_of text_eq codes
ci-review s h = disjoint s ci_words review_words refl h

ci-agent : Apart ci_words agent_words
unfolding one_of text_eq codes
ci-agent s h = disjoint s ci_words agent_words refl h

ci-cycle : Apart ci_words cycle_words
unfolding one_of text_eq codes
ci-cycle s h = disjoint s ci_words cycle_words refl h

review-agent : Apart review_words agent_words
unfolding one_of text_eq codes
review-agent s h = disjoint s review_words agent_words refl h

review-cycle : Apart review_words cycle_words
unfolding one_of text_eq codes
review-cycle s h = disjoint s review_words cycle_words refl h

agent-cycle : Apart agent_words cycle_words
unfolding one_of text_eq codes
agent-cycle s h = disjoint s agent_words cycle_words refl h

pub is_class-words :
    (k : JobKind) (raw : Text)
    → is_class (class k) (normalize_class raw) ≡ one_of (word raw) (class_words k)
unfolding normalize_class is_class class codes text_eq
is_class-words (ci _ _) raw = ground arith
is_class-words (review_gate _ _ _ _) raw = ground (arith, ci-review (word raw))
is_class-words (agent_task _ _ _) raw = ground (arith, ci-agent (word raw), review-agent (word raw))
is_class-words (loop_cycle _ _) raw =
    ground (arith, ci-cycle (word raw), review-cycle (word raw), agent-cycle (word raw))

pub tier_in-words :
    (raw : Text)
    → tier_in (parse_tier raw) ≡ first_named (word raw) (full ∷ conserving ∷ distress ∷ halted ∷ [])
unfolding parse_tier tier_in first_named one_of codes
tier_in-words raw = ground arith
