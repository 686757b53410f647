-- ===== src/Governor/Admit.antt =====
-- The gate of the budget governor: when it admits, and that a refusal stays
-- (crates/runner-core/src/governor.rs).
use flexnetos_runner.Shared.{
  ℕ, ◌≤◌, ◌≡◌, ◌↔◌, ◌⊎◌, inl, inr, true, Option, none, some, arith, Option-cases, Text, u64_max,
  Float,
}
use flexnetos_runner.Cost.{JobCost}
use flexnetos_runner.Governor.{Governor, is_denied, exhausted_reason, admit, charge}

-- A capped dimension is met.
abbrev pub Met : Option ℕ → ℕ → Type 0
Met none used = ⊥
Met (some cap) used = cap ≤ used

abbrev pub Exhausted : Governor → Type 0
Exhausted g =
    Met g.budget.jobs g.spent.jobs
    ⊎ (Met g.budget.tokens g.spent.cost.tokens ⊎ Met g.budget.usd_micros g.spent.cost.usd_micros)

pub exhausted_reason-none :
    (fl : Float) (g : Governor) → exhausted_reason fl g ≡ none → ¬ Exhausted g
unfolding exhausted_reason
exhausted_reason-none fl g h = ground arith

pub exhausted_reason-some :
    (fl : Float) (g : Governor) {t : Text} → exhausted_reason fl g ≡ some t → Exhausted g
unfolding exhausted_reason
exhausted_reason-some fl g h = ground arith

-- The gate refuses exactly when a cap is met and the grace is used up.
pub denied_iff :
    (fl : Float) (g : Governor)
    → (is_denied (admit fl g).1 ≡ true) ↔ (Exhausted g × (g.budget.grace ≤ g.spent.grace_used))
unfolding admit is_denied
denied_iff fl g = elim (Option-cases (exhausted_reason fl g)) [
  | inl e ↦ (rw e (λ h. cc), λ h. absurd (exhausted_reason-none fl g e h.0))
  | inr (t, e) ↦ rw e (let x = exhausted_reason-some fl g e in ground arith)
]

-- The values of a governor fit their machine types.
pub record InRange (g : Governor) : Type 0 where
  pub tokens : g.spent.cost.tokens ≤ u64_max
  pub usd_micros : g.spent.cost.usd_micros ≤ u64_max

pub charge-InRange : (g : Governor) (c : JobCost) → InRange g → InRange (charge g c)
unfolding charge
charge-InRange g c h = ground arith

pub admit-InRange : (fl : Float) (g : Governor) → InRange g → InRange (admit fl g).0
unfolding admit
admit-InRange fl g h = ground arith

-- Charging only adds, so a cap that is met stays met.
pub charge-Exhausted :
    (g : Governor) (c : JobCost) → InRange g → Exhausted g → Exhausted (charge g c)
unfolding charge
charge-Exhausted g c r h = ground arith
