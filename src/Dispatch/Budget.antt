-- ===== src/Dispatch/Budget.antt =====
-- The job budget over a run of requests (`handle_request` of crates/runner-dispatch/src/main.rs with
-- crates/runner-core/src/governor.rs).
use flexnetos_runner.Shared.{
  ℕ, ◌+◌, ◌≤◌, ◌≡◌, refl, ap, ◌∙◌, ◌⊎◌, inl, inr, false, some, List, [], ◌∷◌, arith, length,
  length-append, u64_max,
}
use flexnetos_runner.Constitution.{ConstitutionStatus}
use flexnetos_runner.Dispatch.{handle_request}
use flexnetos_runner.Dispatch.Delegate.{call_for}
use flexnetos_runner.Dispatch.Cleared.{concluded}
use flexnetos_runner.Dispatch.Ends.{process-Ends}
use flexnetos_runner.Dispatch.Steps.{Runner, State, emit}
use flexnetos_runner.Router
use flexnetos_runner.Governor.{Governor, Budget, admit, charge, with_budget, is_denied, Admission}
use flexnetos_runner.Governor.Bounds.{
  Within, admit-Within, charge-Within, admit-jobs, charge-jobs, granted_by,
}
use flexnetos_runner.Dispatch.Audit.{report}
use flexnetos_runner.Cost.{JobCost}
use flexnetos_runner.Governor.Bounds.{budget-admit, budget-charge}

-- One request: the state of the constitution when it comes, the time and the frame.
pub record Request : Type 0 where
  pub constitution : ConstitutionStatus
  pub now : ℕ
  pub frame : List ℕ

module _ (r : Runner) where
  -- The state after some requests.
  pub served : State r → List Request → State r
  served s [] = s
  served s (q ∷ qs) = served (handle_request r q.constitution q.now q.frame s).1 qs

  granted_by-admitted : (a : Admission) → is_denied a ≡ false → granted_by a ≡ 1
  unfolding is_denied
  granted_by-admitted a h = ground arith

  -- Each call of the kernel is a job that the governor counts.
  record Counted (cap : ℕ) (s t : State r) : Type 0 where
    within : Within cap t.governor
    counted : length t.calls + s.governor.spent.jobs ≤ length s.calls + t.governor.spent.jobs
    grace : t.governor.budget.grace ≡ s.governor.budget.grace

  admit-Counted :
      (cap : ℕ) (s t : State r)
      → Within cap s.governor
      → t.calls ≡ s.calls
      → (t.governor ≡ s.governor) ⊎ (t.governor ≡ (admit r.fl s.governor).0)
      → Counted cap s t
  admit-Counted cap s t h same (inl e) = record {
    within = rw e h;
    counted = rw (same, e) (omega arith);
    grace = rw e refl;
  }
  admit-Counted cap s t h same (inr e) = record {
    within = rw e (admit-Within r.fl cap s.governor h);
    counted = rw (same, e) (omega (arith, admit-jobs r.fl cap s.governor h));
    grace = rw e (ap (λ (b : Budget). b.grace) (budget-admit r.fl s.governor));
  }

  charged-Within :
      (cap : ℕ) (g g' : Governor)
      → Within cap g
      → (g' ≡ g) ⊎ ((cost : JobCost) × (g' ≡ charge g cost))
      → Within cap g' × (g'.spent.jobs ≡ g.spent.jobs) × (g'.budget.grace ≡ g.budget.grace)
  charged-Within cap g g' h (inl e) = rw e (h, refl, refl)
  charged-Within cap g g' h (inr (cost, e)) = rw e (
    charge-Within cap g cost h,
    charge-jobs g cost,
    ap (λ (b : Budget). b.grace) (budget-charge g cost),
  )

  handle_request-Counted :
      (c : ConstitutionStatus) (now : ℕ) (raw : List ℕ) (cap : ℕ) (s : State r)
      → Within cap s.governor
      → Counted cap s (handle_request r c now raw s).1
  unfolding handle_request emit
  handle_request-Counted c now raw cap s h = elim (process-Ends r c now raw s) [
    | inl (resp, e, t, eq, i, k) ↦ rw eq (
        let p = admit-Counted cap s t h k.calls k.governor in
        record { within = p.within; counted = p.counted; grace = p.grace })
    | inr (req, job, cleared, eq) ↦
        let rep = report r c now raw s req job in
        let (within, same, grace) =
          charged-Within cap (admit r.fl s.governor).0 (concluded r c now raw s req job).1.governor
            (admit-Within r.fl cap s.governor h) rep.governor in
        rw eq (record {
          within = within;
          counted = omega (
            arith,
            same,
            admit-jobs r.fl cap s.governor h,
            granted_by-admitted (admit r.fl s.governor).1 cleared.in_budget,
            ap length rep.calls,
            length-append s.calls (call_for r req job (Router.route job) ∷ []),
          );
          grace = grace ∙ ap (λ (b : Budget). b.grace) (budget-admit r.fl s.governor);
        })
  ]

  served-Counted :
      (cap : ℕ) (s : State r) (qs : List Request)
      → Within cap s.governor
      → Counted cap s (served s qs)
  unfolding served
  served-Counted cap s [] h = record { within = h; counted = omega arith; grace = refl }
  served-Counted cap s (q ∷ qs) h =
      let p = handle_request-Counted q.constitution q.now q.frame cap s h in
      let rest =
        served-Counted cap (handle_request r q.constitution q.now q.frame s).1 qs p.within in
      record {
        within = rest.within;
        counted = omega (arith, p.counted, rest.counted);
        grace = rest.grace ∙ p.grace;
      }

  -- A runner with a job cap that starts with a fresh governor and no calls, over any run of requests,
  -- calls the kernel at most as often as the cap and the grace allow together, if their sum fits a
  -- machine word.
  pub calls_bounded :
      (b : Budget) (cap : ℕ) (s : State r) (qs : List Request)
      → b.jobs ≡ some cap
      → cap + b.grace ≤ u64_max
      → s.governor ≡ with_budget b
      → s.calls ≡ []
      → length (served s qs).calls ≤ cap + b.grace
  unfolding with_budget
  calls_bounded b cap s qs capped fits fresh none_yet =
      let w : Within cap (with_budget b) = record {
        capped = capped;
        fits = fits;
        jobs = omega arith;
        grace = omega arith;
      } in
      let p = served-Counted cap s qs (rw fresh w) in
      omega (
        arith,
        p.counted,
        p.within.jobs,
        p.within.grace,
        ap length none_yet,
        ap (λ (g : Governor). g.spent.jobs) fresh,
        p.grace,
        ap (λ (g : Governor). g.budget.grace) fresh,
      )
