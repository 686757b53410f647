-- ===== src/StateGate/Degrades.antt =====
-- The state gate under the operator's rules (crates/runner-core/src/stategate.rs).
use flexnetos_runner.Shared.{
  ◌≤◌, ◌<◌, ◌≡◌, refl, sym, ◌∙◌, ◌↔◌, inl, inr, true, false, Option, none, some, arith, leb,
  Bool-cases, Text, leb→le, le→leb, ok,
}
use mathlib.Core.Path.{subst}
use flexnetos_runner.Governor.{SurvivalTier, rank}
use flexnetos_runner.Job.{JobSpec, class}
use flexnetos_runner.Classes.{rule_list}
use flexnetos_runner.StateGate.Rules.{max_for_class-last_bound}
use flexnetos_runner.StateGate.Words.{last_bound}
use flexnetos_runner.StateGate.{StateGatePolicy, allowed, deferred, check_max, check, from_rules}

check_max_iff :
    (o : Option SurvivalTier) (name : Text) (tier : SurvivalTier)
    → ((check_max o name tier ≡ allowed) ↔ ((m : SurvivalTier) → o ≡ some m → rank tier ≤ rank m))
      × ((m : SurvivalTier)
          → o ≡ some m
          → rank m < rank tier
          → check_max o name tier ≡ deferred name tier m)
unfolding check_max
check_max_iff none name tier = ((λ e m h. cc, λ h. refl), λ m h lt. cc)
check_max_iff (some b) name tier = elim (Bool-cases (leb (rank tier) (rank b))) [
  | inl l ↦
      let le = leb→le (rank tier) (rank b) l in
      rw l (
        (λ e k h. (let same : b ≡ k = cc in rw (← same) le), λ h. refl),
        λ k h lt.
            (let same : b ≡ k = cc in
              absurd (omega (arith, le, subst (λ x. rank x < rank tier) (sym same) lt))),
      )
  | inr l ↦ rw l (
    (
      λ e. cc,
      λ h. (let bad : true ≡ false = sym (le→leb (rank tier) (rank b) (h b refl)) ∙ l in cc),
    ),
    λ k h lt. (let same : b ≡ k = cc in rw same refl),
  )
]

-- Under the policy that a text of rules makes, a job passes exactly when the tier is no worse than the
-- bound of the last rule of its class, if there is one. Else it is put off, with this bound. What
-- passes in some tier passes in every better one.
pub check_exact :
    (text : Text) (p : StateGatePolicy) (job : JobSpec) (tier : SurvivalTier)
    → from_rules text ≡ ok p
    → ((check p job tier ≡ allowed)
        ↔ ((m : SurvivalTier) → last_bound job.job (rule_list text) ≡ some m → rank tier ≤ rank m))
      × ((m : SurvivalTier)
          → last_bound job.job (rule_list text) ≡ some m
          → rank m < rank tier
          → check p job tier ≡ deferred (class job.job) tier m)
      × ((better : SurvivalTier)
          → rank better ≤ rank tier
          → check p job tier ≡ allowed
          → check p job better ≡ allowed)
unfolding check
check_exact text p job tier h =
    let exact = check_max_iff (last_bound job.job (rule_list text)) (class job.job) in
    rw (max_for_class-last_bound text p job.job h) (
      (exact tier).0,
      (exact tier).1,
      λ better le e. (exact better).0.1 (λ m b. (let k = (exact tier).0.0 e m b in omega arith)),
    )
