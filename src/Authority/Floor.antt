-- ===== src/Authority/Floor.antt =====
-- The authority gate against the floor of a route (crates/runner-core/src/authority.rs).
use flexnetos_runner.Shared.{
  ◌≤◌, ◌≡◌, refl, sym, ◌∙◌, ◌↔◌, inl, inr, true, false, Option, none, some, arith, leb, Bool-cases,
  leb→le, le→leb,
}
use flexnetos_runner.Authority.{
  AuthorityTier, AuthorityPolicy, Submitter, allowed, rank, tier_or_guest, min_for, check_floor,
  check,
}
use flexnetos_runner.Job.{JobSpec}

check_floor_iff :
    (o : Option AuthorityTier) (job : JobSpec) (who : Option Submitter)
    → (check_floor o job who ≡ allowed)
      ↔ ((floor : AuthorityTier) → o ≡ some floor → rank floor ≤ rank (tier_or_guest who))
unfolding check_floor
check_floor_iff none job who = (λ e m h. cc, λ h. refl)
check_floor_iff (some floor) job who =
    elim (Bool-cases (leb (rank floor) (rank (tier_or_guest who)))) [
      | inl l ↦ rw l (
        λ e k h.
            (let same : floor ≡ k = cc in
              rw (← same) (leb→le (rank floor) (rank (tier_or_guest who)) l)),
        λ h. refl,
      )
      | inr l ↦ rw l (
        λ e. cc,
        λ h.
            (let bad : true ≡ false =
                sym (le→leb (rank floor) (rank (tier_or_guest who)) (h floor refl)) ∙ l in
              cc),
      )
    ]

-- The gate lets a job pass exactly when its submitter, a guest if there is none, has at least the tier
-- of the floor of its route, if there is one; so a submitter of a higher tier passes where a lower one
-- does.
authority_exact :
    (p : AuthorityPolicy) (job : JobSpec) (who : Option Submitter)
    → ((check p job who ≡ allowed) ↔ (
        (floor : AuthorityTier)
        → min_for p job ≡ some floor
        → rank floor ≤ rank (tier_or_guest who)))
      × ((higher : Submitter)
          → rank (tier_or_guest who) ≤ rank higher.tier
          → check p job who ≡ allowed
          → check p job (some higher) ≡ allowed)
unfolding check
authority_exact p job who =
    let both = check_floor_iff (min_for p job) job in
    (
      both who,
      λ higher le e. (both (some higher)).1 (λ m h. (let k = (both who).0 e m h in omega arith)),
    )
