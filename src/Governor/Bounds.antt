-- ===== src/Governor/Bounds.antt =====
-- What the budget governor grants over a run of admissions and charges
-- (crates/runner-core/src/governor.rs).
use flexnetos_runner.Shared.{
  ℕ, ◌+◌, ◌≤◌, ◌≡◌, refl, ap, true, some, List, [], ◌∷◌, arith, u64_max, Float,
}
use flexnetos_runner.Cost.{JobCost}
use flexnetos_runner.Governor.{
  Governor, Budget, Admission, admitted, denied, is_denied, with_budget, exhausted_reason, admit,
  charge,
}
use flexnetos_runner.Governor.Admit.{
  Exhausted, denied_iff, InRange, charge-InRange, charge-Exhausted,
}

-- What the dispatcher does with a governor.
pub data Op : Type 0 where
  ask : Op
  pay : JobCost → Op

abbrev pub granted_by : Admission → ℕ
granted_by admitted = 1
granted_by (denied _) = 0

-- The governor after some operations.
pub after : Float → Governor → List Op → Governor
after fl g [] = g
after fl g (ask ∷ ops) = after fl (admit fl g).0 ops
after fl g (pay c ∷ ops) = after fl (charge g c) ops

-- How many of the requests are admitted.
pub granted : Float → Governor → List Op → ℕ
granted fl g [] = 0
granted fl g (ask ∷ ops) = granted_by (admit fl g).1 + granted fl (admit fl g).0 ops
granted fl g (pay c ∷ ops) = granted fl (charge g c) ops

-- The jobs counted are within the cap and the grace that was used.
pub record Within (cap : ℕ) (g : Governor) : Type 0 where
  pub capped : g.budget.jobs ≡ some cap
  pub fits : cap + g.budget.grace ≤ u64_max
  pub jobs : g.spent.jobs ≤ cap + g.spent.grace_used
  pub grace : g.spent.grace_used ≤ g.budget.grace

pub admit-Within : (fl : Float) (cap : ℕ) (g : Governor) → Within cap g → Within cap (admit fl g).0
unfolding admit exhausted_reason
admit-Within fl cap g h = ground arith

pub admit-jobs :
    (fl : Float) (cap : ℕ) (g : Governor)
    → Within cap g
    → granted_by (admit fl g).1 + g.spent.jobs ≡ (admit fl g).0.spent.jobs
unfolding admit exhausted_reason
admit-jobs fl cap g h = ground arith

pub charge-Within : (cap : ℕ) (g : Governor) (c : JobCost) → Within cap g → Within cap (charge g c)
unfolding charge
charge-Within cap g c h = ground arith

pub charge-jobs : (g : Governor) (c : JobCost) → (charge g c).spent.jobs ≡ g.spent.jobs
unfolding charge
charge-jobs g c = refl

pub budget-admit : (fl : Float) (g : Governor) → (admit fl g).0.budget ≡ g.budget
unfolding admit
budget-admit fl g = ground arith

pub budget-charge : (g : Governor) (c : JobCost) → (charge g c).budget ≡ g.budget
unfolding charge
budget-charge g c = refl

granted-le :
    (fl : Float) (cap : ℕ) (g : Governor) (ops : List Op)
    → Within cap g
    → granted fl g ops + g.spent.jobs ≤ cap + g.budget.grace
unfolding granted
granted-le fl cap g [] h = omega arith
granted-le fl cap g (ask ∷ ops) h = omega (
  arith,
  granted-le fl cap (admit fl g).0 ops (admit-Within fl cap g h),
  admit-jobs fl cap g h,
  ap (λ (b : Budget). b.grace) (budget-admit fl g),
)
granted-le fl cap g (pay c ∷ ops) h = omega (
  arith,
  granted-le fl cap (charge g c) ops (charge-Within cap g c h),
  charge-jobs g c,
  ap (λ (b : Budget). b.grace) (budget-charge g c),
)

-- A fresh governor with a job cap, over any run of admission requests and charges, admits at most the
-- cap and the grace together, if their sum fits a machine word.
pub granted_bounded :
    (fl : Float) (b : Budget) (cap : ℕ) (ops : List Op)
    → b.jobs ≡ some cap
    → cap + b.grace ≤ u64_max
    → granted fl (with_budget b) ops ≤ cap + b.grace
unfolding with_budget
granted_bounded fl b cap ops h fits = omega (
  arith,
  granted-le fl cap (with_budget b) ops
      (record { capped = h; fits = fits; jobs = omega arith; grace = omega arith }),
)

-- A refusing governor: a cap is met and no grace is left.
record Shut (g : Governor) : Type 0 where
  range : InRange g
  met : Exhausted g
  spent : g.budget.grace ≤ g.spent.grace_used

admit-Shut :
    (fl : Float) (g : Governor) → Shut g → ((admit fl g).0 ≡ g) × (is_denied (admit fl g).1 ≡ true)
unfolding admit is_denied exhausted_reason
admit-Shut fl g h = ground arith

charge-Shut : (g : Governor) (c : JobCost) → Shut g → Shut (charge g c)
charge-Shut g c h = record {
  range = charge-InRange g c h.range;
  met = charge-Exhausted g c h.range h.met;
  spent = unfold charge in h.spent;
}

granted_by-denied : (a : Admission) → is_denied a ≡ true → granted_by a ≡ 0
unfolding is_denied
granted_by-denied a h = ground arith

granted-Shut : (fl : Float) (g : Governor) (ops : List Op) → Shut g → granted fl g ops ≡ 0
unfolding granted
granted-Shut fl g [] h = refl
granted-Shut fl g (ask ∷ ops) h =
    let (same, refused) = admit-Shut fl g h in
    rw same (omega (arith, granted_by-denied (admit fl g).1 refused, granted-Shut fl g ops h))
granted-Shut fl g (pay c ∷ ops) h = granted-Shut fl (charge g c) ops (charge-Shut g c h)

-- The kill-switch latches: once a request is refused, no later one is admitted, whatever is charged
-- in between. The spend must fit its machine words.
pub refusal_latches :
    (fl : Float) (g : Governor) (ops : List Op)
    → InRange g
    → is_denied (admit fl g).1 ≡ true
    → granted fl (admit fl g).0 ops ≡ 0
refusal_latches fl g ops range h =
    let (met, spent) = (denied_iff fl g).0 h in
    let shut : Shut g = record { range = range; met = met; spent = spent } in
    rw (admit-Shut fl g shut).0 (granted-Shut fl g ops shut)
