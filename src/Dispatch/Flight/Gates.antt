-- ===== src/Dispatch/Flight/Gates.antt =====
-- The single-flight gate and the gates that count a dispatch: what a job that passes them meets
-- (crates/runner-dispatch/src/main.rs).
use flexnetos_runner.Shared.{
  ◌⊎◌, none, some, sym, ◌∙◌, Option-cases, ok≢err, ℕ, ◌≡◌, refl, inl, inr, true, false,
  if◌then◌else◌, Result, ok, err, Bool-cases, Text,
}
use flexnetos_runner.Dispatch.Flight
use flexnetos_runner.Dispatch.Flight.{acquired, rated, looped, budgeted}
use flexnetos_runner.SingleFlight.{ActiveFlight, for_job}
use flexnetos_runner.SingleFlight.Exclusion.{holder, lease_for, denial, acquire_free, acquire_held}
use flexnetos_runner.Wire.Frame.{DispatchResponse}
use flexnetos_runner.Events.{DispatchEvent}
use flexnetos_runner.Dispatch.Turns.{IsRefusal}
use flexnetos_runner.Dispatch.Steps.{emit, Runner, State}
use flexnetos_runner.Dispatch.Turns.{
  Gate, refuse-Gate, refuse_for-Gate, put_off-Gate, for_job-IsBase,
}
use flexnetos_runner.Events.{Outcome, category}
use flexnetos_runner.Governor
use flexnetos_runner.Governor.{Governor, Admission}
use flexnetos_runner.Job.{JobSpec, class}
use flexnetos_runner.LoopGuard
use flexnetos_runner.LoopGuard.{LoopGuard, Verdict, pass, trip}
use flexnetos_runner.RateLimit
use flexnetos_runner.RateLimit.{RateLimiter, RateDecision}
use flexnetos_runner.Recovery.{FailureKind, is_retryable}
use flexnetos_runner.SingleFlight.{SingleFlight, FlightLease, SingleFlightDenied, try_acquire}

-- The limiter after the rate gate.
abbrev pub limiter_after : RateLimiter → Text → ℕ → RateLimiter
limiter_after l route now =
    if RateLimit.is_active l.policy then (RateLimit.check l route now).0 else l

module _ (r : Runner) (job : JobSpec) (s : State r) where
  acquired-Gate :
      (x : SingleFlight × Result FlightLease SingleFlightDenied)
      → Gate r (acquired r x job s) (record s { singleflight = x.0 }) (λ lease. x.1 ≡ ok lease)
  unfolding acquired category is_retryable
  acquired-Gate (flights, ok lease) = inl (lease, refl, refl)
  acquired-Gate (flights, err denied) =
      refuse_for-Gate r _ _ job FailureKind.single_flight_denied _
        (record s { singleflight = flights }) refl
        (for_job-IsBase r Outcome.single_flight_denied job refl) (λ a p. cc)

  rated-Gate :
      (x : RateLimiter × RateDecision)
      → Gate r
          (rated r x job s)
          (record s { rate_limiter = x.0 })
          (λ _. RateLimit.is_denied x.1 ≡ false)
  unfolding rated category RateLimit.is_denied
  rated-Gate (limiter, RateLimit.admitted) = inl (tt, refl, refl)
  rated-Gate (limiter, RateLimit.denied reason secs) =
      put_off-Gate r _ _ reason secs (record s { rate_limiter = limiter })
        (for_job-IsBase r Outcome.rate_limited job refl) (λ a p. cc)

  pub rate_gate_lem :
      (now : ℕ)
      → Gate r
          (Flight.rate_gate r job now s)
          (record s { rate_limiter = limiter_after s.rate_limiter (class job.job) now })
          (λ _.
            RateLimit.is_active s.rate_limiter.policy ≡ true
            → RateLimit.is_denied (RateLimit.check s.rate_limiter (class job.job) now).1 ≡ false)
  unfolding Flight.rate_gate
  rate_gate_lem now = elim (Bool-cases (RateLimit.is_active s.rate_limiter.policy)) [
    | inl h ↦ rw h (elim (rated-Gate (RateLimit.check s.rate_limiter (class job.job) now)) [
      | inl (u, e, p) ↦ inl (u, e, λ _. p)
      | inr (resp, e, q, i, unmet) ↦ inr (resp, e, q, i, λ a p. unmet a (p refl))
    ])
    | inr h ↦ rw h (inl (tt, refl, λ k. cc))
  ]

  looped-Gate :
      (x : LoopGuard × Verdict)
      → Gate r (looped r x job s) (record s { guard = x.0 }) (λ _. x.1 ≡ pass)
  unfolding looped category is_retryable
  looped-Gate (guard, pass) = inl (tt, refl, refl)
  looped-Gate (guard, trip count) =
      refuse_for-Gate r _ _ job FailureKind.loop_tripped _ (record s { guard = guard }) refl
        (for_job-IsBase r Outcome.loop_tripped job refl) (λ a p. cc)

  pub loop_gate_lem :
      Gate r
        (Flight.loop_gate r job s)
        (record s { guard = (LoopGuard.observe r.ex s.guard job).0 })
        (λ _. (LoopGuard.observe r.ex s.guard job).1 ≡ pass)
  unfolding Flight.loop_gate
  loop_gate_lem = looped-Gate (LoopGuard.observe r.ex s.guard job)

  budgeted-Gate :
      (x : Governor × Admission)
      → Gate r
          (budgeted r x job s)
          (record s { governor = x.0 })
          (λ _. Governor.is_denied x.1 ≡ false)
  unfolding budgeted category Governor.is_denied
  budgeted-Gate (governor, Governor.admitted) = inl (tt, refl, refl)
  budgeted-Gate (governor, Governor.denied reason) =
      refuse-Gate r _ _ _ (record s { governor = governor })
        (for_job-IsBase r Outcome.budget_denied job refl) (λ a p. cc)

  pub budget_gate_lem :
      Gate r
        (Flight.budget_gate r job s)
        (record s { governor = (Governor.admit r.fl s.governor).0 })
        (λ _. Governor.is_denied (Governor.admit r.fl s.governor).1 ≡ false)
  unfolding Flight.budget_gate
  budget_gate_lem = budgeted-Gate (Governor.admit r.fl s.governor)

  acquired-ok :
      (x : SingleFlight × Result FlightLease SingleFlightDenied) (lease : FlightLease)
      → x.1 ≡ ok lease
      → acquired r x job s ≡ (ok lease, record s { singleflight = x.0 })
  unfolding acquired
  acquired-ok (flights, x) lease h = rw h refl

  acquired-err :
      (x : SingleFlight × Result FlightLease SingleFlightDenied) (d : SingleFlightDenied)
      → x.1 ≡ err d
      → (resp : DispatchResponse) × (e : DispatchEvent r.fl) × (acquired r x job s
          ≡ (err resp, emit e (record s { singleflight = x.0 })))
        × IsRefusal r resp e
  acquired-err x d h = elim (acquired-Gate x) [
    | inl (lease, e, p) ↦ absurd (ok≢err (sym p ∙ h))
    | inr (resp, e, q, i, unmet) ↦ (resp, e, q, i)
  ]

  -- A free target is taken, and on a held one the job is refused.
  pub acquire_cases :
      ((holder s.singleflight (for_job job) ≡ none)
        × (Flight.acquire_gate r job s ≡ (
          ok (lease_for s.singleflight job),
          record s { singleflight = (try_acquire s.singleflight job).0 },
        )))
      ⊎ ((f : ActiveFlight) × (holder s.singleflight (for_job job) ≡ some f)
          × (resp : DispatchResponse) × (e : DispatchEvent r.fl) × (Flight.acquire_gate r job s
              ≡ (err resp, emit e (record s { singleflight = (try_acquire s.singleflight job).0 })))
          × IsRefusal r resp e)
  unfolding Flight.acquire_gate
  acquire_cases = elim (Option-cases (holder s.singleflight (for_job job))) [
    | inl free ↦ inl (
      free,
      acquired-ok (try_acquire s.singleflight job) (lease_for s.singleflight job)
          (acquire_free s.singleflight job free).0,
    )
    | inr (f, held) ↦
        (let (resp, e, p, q) =
            acquired-err (try_acquire s.singleflight job) (denial s.singleflight job f)
              (acquire_held s.singleflight job f held).0 in
          inr (f, held, resp, e, p, q))
  ]
