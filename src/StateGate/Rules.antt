-- ===== src/StateGate/Rules.antt =====
-- The bounds that the operator's rules make (crates/runner-core/src/stategate.rs).
use flexnetos_runner.Shared.{
  ◌++◌, ok≢err, one_of, trim, trim_start, is_whitespace, to_ascii_lowercase, lower, ◌≡◌, refl, sym,
  ap, ◌∙◌, inl, inr, false, Option, none, some, List, [], ◌∷◌, Bool-cases, Text, codes, text_eq,
  text_eq_iff, ok, err, >>=-ok, ok-injective, split_once, if◌then◌else◌, or_else,
}
use mathlib.Core.Path.{subst}
use flexnetos_runner.Governor.{SurvivalTier}
use flexnetos_runner.Job.{JobKind, ci, review_gate, agent_task, loop_cycle, class}
use flexnetos_runner.Classes.{normalize_class, rule_list}
use flexnetos_runner.StateGate.Words.{
  bound_in, last_bound, tier_in, is_class, is_class-words, tier_in-words,
}
use flexnetos_runner.StateGate.{
  StateGatePolicy, disabled, max_on, max_for_class, set_max, allow_on, allow_until, add_rule_on,
  add_rules, from_rules, parse_tier,
}

bound_on : Text → Option (Text × Text) → Option SurvivalTier
unfolding tier_in is_class
bound_on name none = none
bound_on name (some (k, t)) =
    if is_class name (normalize_class k) then tier_in (parse_tier t) else none

last_on : Text → List Text → Option SurvivalTier
last_on name [] = none
last_on name (rule ∷ rules) = or_else (last_on name rules) (bound_on name (split_once 61 rule))

data Name : Type 0 where
  ci_name review_name agent_name cycle_name : Name

text_of : Name → Text
text_of ci_name = codes "ci"
text_of review_name = codes "review"
text_of agent_name = codes "agent"
text_of cycle_name = codes "cycle"

class-text_of : (k : JobKind) → (n : Name) × (class k ≡ text_of n)
unfolding class text_of
class-text_of (ci _ _) = (ci_name, refl)
class-text_of (review_gate _ _ _ _) = (review_name, refl)
class-text_of (agent_task _ _ _) = (agent_name, refl)
class-text_of (loop_cycle _ _) = (cycle_name, refl)

normalize_class-text_of : (n : Name) → normalize_class (text_of n) ≡ some (text_of n)
unfolding normalize_class text_of codes one_of text_eq trim trim_start to_ascii_lowercase lower
    is_whitespace
normalize_class-text_of ci_name = refl
normalize_class-text_of review_name = refl
normalize_class-text_of agent_name = refl
normalize_class-text_of cycle_name = refl

max_on-set_max :
    (n o : Name) (p q : StateGatePolicy) (m : SurvivalTier) (raw : Text)
    → set_max p (text_of o) m raw ≡ ok q
    → max_on (some (text_of n)) q
      ≡ or_else
          (if text_eq (text_of n) (text_of o) then some m else none)
          (max_on (some (text_of n)) p)
unfolding set_max max_on text_of text_eq codes
max_on-set_max ci_name ci_name p q m raw h = ap (λ r. r.ci_max) (sym (ok-injective h))
max_on-set_max ci_name review_name p q m raw h = ap (λ r. r.ci_max) (sym (ok-injective h))
max_on-set_max ci_name agent_name p q m raw h = ap (λ r. r.ci_max) (sym (ok-injective h))
max_on-set_max ci_name cycle_name p q m raw h = ap (λ r. r.ci_max) (sym (ok-injective h))
max_on-set_max review_name ci_name p q m raw h = ap (λ r. r.review_max) (sym (ok-injective h))
max_on-set_max review_name review_name p q m raw h = ap (λ r. r.review_max) (sym (ok-injective h))
max_on-set_max review_name agent_name p q m raw h = ap (λ r. r.review_max) (sym (ok-injective h))
max_on-set_max review_name cycle_name p q m raw h = ap (λ r. r.review_max) (sym (ok-injective h))
max_on-set_max agent_name ci_name p q m raw h = ap (λ r. r.agent_max) (sym (ok-injective h))
max_on-set_max agent_name review_name p q m raw h = ap (λ r. r.agent_max) (sym (ok-injective h))
max_on-set_max agent_name agent_name p q m raw h = ap (λ r. r.agent_max) (sym (ok-injective h))
max_on-set_max agent_name cycle_name p q m raw h = ap (λ r. r.agent_max) (sym (ok-injective h))
max_on-set_max cycle_name ci_name p q m raw h = ap (λ r. r.cycle_max) (sym (ok-injective h))
max_on-set_max cycle_name review_name p q m raw h = ap (λ r. r.cycle_max) (sym (ok-injective h))
max_on-set_max cycle_name agent_name p q m raw h = ap (λ r. r.cycle_max) (sym (ok-injective h))
max_on-set_max cycle_name cycle_name p q m raw h = ap (λ r. r.cycle_max) (sym (ok-injective h))

set_max-unknown :
    (p : StateGatePolicy) (other raw : Text) (m : SurvivalTier)
    → text_eq other (codes "ci") ≡ false
    → text_eq other (codes "review") ≡ false
    → text_eq other (codes "agent") ≡ false
    → text_eq other (codes "cycle") ≡ false
    → set_max p other m raw ≡ err (codes "unknown route class `" ++ raw ++ codes "`")
unfolding set_max
set_max-unknown p other raw m a b c d = rw (a, b, c, d) refl

-- A class that a rule sets is one of the four.
set_max-text_of :
    (p q : StateGatePolicy) (other raw : Text) (m : SurvivalTier)
    → set_max p other m raw ≡ ok q
    → (o : Name) × (other ≡ text_of o)
unfolding set_max text_of
set_max-text_of p q other raw m h = elim (Bool-cases (text_eq other (codes "ci"))) [
  | inl a ↦ (ci_name, (text_eq_iff other (codes "ci")).0 a)
  | inr a ↦ elim (Bool-cases (text_eq other (codes "review"))) [
    | inl b ↦ (review_name, (text_eq_iff other (codes "review")).0 b)
    | inr b ↦ elim (Bool-cases (text_eq other (codes "agent"))) [
      | inl c ↦ (agent_name, (text_eq_iff other (codes "agent")).0 c)
      | inr c ↦ elim (Bool-cases (text_eq other (codes "cycle"))) [
        | inl d ↦ (cycle_name, (text_eq_iff other (codes "cycle")).0 d)
        | inr d ↦ absurd (ok≢err (sym h ∙ set_max-unknown p other raw m a b c d))
      ]
    ]
  ]
]

allow_on-max_on :
    (n : Name) (o : Option Text) (p q : StateGatePolicy) (raw : Text) (m : SurvivalTier)
    → allow_on o p raw m ≡ ok q
    → max_on (some (text_of n)) q
      ≡ or_else (if is_class (text_of n) o then some m else none) (max_on (some (text_of n)) p)
unfolding allow_on is_class
allow_on-max_on n none p q raw m h = cc
allow_on-max_on n (some other) p q raw m h =
    let (o, e) = set_max-text_of p q other raw m h in
    let set : set_max p (text_of o) m raw ≡ ok q = subst (λ t. set_max p t m raw ≡ ok q) e h in
    rw e (max_on-set_max n o p q m raw set)

or_else_assoc {ℓ} :
    {A : Type ℓ} (a b c : Option A) → or_else a (or_else b c) ≡ or_else (or_else a b) c
or_else_assoc none b c = refl
or_else_assoc (some a) b c = refl

or_else-none {ℓ} : {A : Type ℓ} (a : Option A) → or_else a none ≡ a
or_else-none none = refl
or_else-none (some a) = refl

max_on-disabled : (n : Name) → max_on (some (text_of n)) disabled ≡ none
unfolding max_on disabled text_of text_eq codes
max_on-disabled ci_name = refl
max_on-disabled review_name = refl
max_on-disabled agent_name = refl
max_on-disabled cycle_name = refl

-- One rule bounds its class, and leaves the bounds of the others.
add_rule-max_on :
    (n : Name) (o : Option (Text × Text)) (p q : StateGatePolicy) (rule : Text)
    → add_rule_on o p rule ≡ ok q
    → max_on (some (text_of n)) q ≡ or_else (bound_on (text_of n) o) (max_on (some (text_of n)) p)
unfolding add_rule_on allow_until bound_on tier_in
add_rule-max_on n none p q rule h = cc
add_rule-max_on n (some (k, t)) p q rule h =
    let (m, parsed, set) = >>=-ok (parse_tier t) (λ m. allow_on (normalize_class k) p k m) h in
    rw parsed (allow_on-max_on n (normalize_class k) p q k m set)

add_rules-max_on :
    (n : Name) (p q : StateGatePolicy) (rules : List Text)
    → add_rules p rules ≡ ok q
    → max_on (some (text_of n)) q
      ≡ or_else (last_on (text_of n) rules) (max_on (some (text_of n)) p)
unfolding add_rules last_on
add_rules-max_on n p q [] h = ap (max_on (some (text_of n))) (sym (ok-injective h))
add_rules-max_on n p q (rule ∷ rules) h =
    let (r, first, rest) =
      >>=-ok (add_rule_on (split_once 61 rule) p rule) (λ r. add_rules r rules) h in
    add_rules-max_on n r q rules rest
    ∙ ap (or_else (last_on (text_of n) rules))
        (add_rule-max_on n (split_once 61 rule) p r rule first)
    ∙ or_else_assoc (last_on (text_of n) rules) (bound_on (text_of n) (split_once 61 rule))
        (max_on (some (text_of n)) p)

bound_on-bound_in : (k : JobKind) (o : Option (Text × Text)) → bound_on (class k) o ≡ bound_in k o
unfolding bound_on bound_in
bound_on-bound_in k none = refl
bound_on-bound_in k (some (name, tier)) = rw (is_class-words k name, tier_in-words tier) refl

last_on-last_bound :
    (k : JobKind) (rules : List Text) → last_on (class k) rules ≡ last_bound k rules
unfolding last_on last_bound
last_on-last_bound k [] = refl
last_on-last_bound k (rule ∷ rules) =
    rw (last_on-last_bound k rules, bound_on-bound_in k (split_once 61 rule)) refl

-- The policy that a text of rules makes bounds a class as the last rule of the class does.
pub max_for_class-last_bound :
    (text : Text) (p : StateGatePolicy) (k : JobKind)
    → from_rules text ≡ ok p
    → max_for_class p (class k) ≡ last_bound k (rule_list text)
unfolding from_rules max_for_class
max_for_class-last_bound text p k h =
    let (n, e) = class-text_of k in
    let named : last_on (text_of n) (rule_list text) ≡ last_bound k (rule_list text) =
      ap (λ name. last_on name (rule_list text)) (sym e) ∙ last_on-last_bound k (rule_list text) in
    rw (e, normalize_class-text_of n)
      (add_rules-max_on n disabled p (rule_list text) h
        ∙ ap (or_else (last_on (text_of n) (rule_list text))) (max_on-disabled n)
        ∙ or_else-none (last_on (text_of n) (rule_list text))
        ∙ named)
