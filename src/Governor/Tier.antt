-- ===== src/Governor/Tier.antt =====
-- The survival tier against the gate (crates/runner-core/src/governor.rs).
use flexnetos_runner.Shared.{
  ℕ, zero, suc, ◌≤◌, ◌≡◌, refl, ◌⊎◌, inl, inr, true, Option, none, some, Float, IsIeee,
}
use flexnetos_runner.Governor.Admit.{denied_iff}
use flexnetos_runner.Shared.{arith}
use flexnetos_runner.Governor.{Governor, is_denied, admit, tier, halted, from_fraction, fraction}

-- Some capped dimension with a positive cap is met.
abbrev MetPositive : Option ℕ → ℕ → Type 0
MetPositive none used = ⊥
MetPositive (some zero) used = ⊥
MetPositive (some (suc cap)) used = suc cap ≤ used

abbrev pub AtWall : Governor → Type 0
AtWall g =
    MetPositive g.budget.jobs g.spent.jobs
    ⊎ (MetPositive g.budget.tokens g.spent.cost.tokens
        ⊎ MetPositive g.budget.usd_micros g.spent.cost.usd_micros)

module _ (fl : Float) (ieee : IsIeee fl) where
  fraction-ge-one :
      (used : ℕ) (cap : Option ℕ)
      → MetPositive cap used
      → fl.geb (fraction fl used cap) (fl.literal 10 1) ≡ true
  unfolding fraction
  fraction-ge-one used none h = absurd h
  fraction-ge-one used (some zero) h = absurd h
  fraction-ge-one used (some (suc c)) h =
      ieee.geb_trans _ _ _ (ieee.div_mono _ _ c (ieee.of_nat_mono (suc c) used h)) (ieee.div_self c)

  halted_of : (x : fl.F64) → fl.geb x (fl.literal 10 1) ≡ true → from_fraction fl x ≡ halted
  unfolding from_fraction
  halted_of x h = rw h

  -- If a dimension with a positive cap is met, the tier is `halted`, on numbers that follow IEEE 754.
  tier-halted : (g : Governor) → AtWall g → tier fl g ≡ halted
  unfolding tier
  tier-halted g (inl h) =
      halted_of _ (ieee.fmax_left _ _ _ (ieee.fmax_left _ _ _ (fraction-ge-one _ _ h)))
  tier-halted g (inr (inl h)) =
      halted_of _ (ieee.fmax_left _ _ _ (ieee.fmax_right _ _ _ (fraction-ge-one _ _ h)))
  tier-halted g (inr (inr h)) = halted_of _ (ieee.fmax_right _ _ _ (fraction-ge-one _ _ h))

-- A governor with a cap of no jobs refuses all work once its grace is used up, and yet its tier is the
-- one that it has without that cap.
pub zero_cap_tier :
    (fl : Float) (g : Governor)
    → g.budget.jobs ≡ some 0
    → g.budget.grace ≤ g.spent.grace_used
    → (is_denied (admit fl g).1 ≡ true)
      × (tier fl g ≡ tier fl (record g { budget = record g.budget { jobs = none } }))
unfolding tier fraction
zero_cap_tier fl g none_at_all used =
    ((denied_iff fl g).1 (rw none_at_all (inl (omega arith)), used), rw none_at_all refl)
