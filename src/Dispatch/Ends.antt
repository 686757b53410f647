-- ===== src/Dispatch/Ends.antt =====
-- The two ways a request ends: one refusal of a gate, or one delegation after every gate
-- (`handle_request` of crates/runner-dispatch/src/main.rs).
use flexnetos_runner.Shared.{ℕ, ◌≡◌, refl, ap, ◌⊎◌, inl, inr, none, List, Result, err}
use flexnetos_runner.Shared.Dict
use flexnetos_runner.Dispatch.{process}
use flexnetos_runner.Dispatch.Admission.Gates.{
  constitution_gate_lem, parse_gate_lem, verify_gate_lem, envelope_gate_lem, authority_gate_lem,
  lint_gate_lem, scan_gate_lem, fork_gate_lem, approval_gate_lem, quarantine_gate_lem,
  target_gate_lem, tier_gate_lem,
}
use flexnetos_runner.Dispatch.Flight
use flexnetos_runner.Dispatch.Flight.Gates.{
  limiter_after, acquire_cases, rate_gate_lem, loop_gate_lem, budget_gate_lem,
}
use flexnetos_runner.Dispatch.Delegate
use flexnetos_runner.Dispatch.Delegate.{call_for, conclude}
use flexnetos_runner.Dispatch.Steps.{Runner, State, ◌>>=◌, emit}
use flexnetos_runner.Dispatch.Turns.{Gate-bind, IsRefusal}
use flexnetos_runner.Events.{DispatchEvent}
use flexnetos_runner.Job.{JobSpec, class}
use flexnetos_runner.Constitution.{ConstitutionStatus}
use flexnetos_runner.Governor
use flexnetos_runner.LoopGuard
use flexnetos_runner.LoopGuard.{pass}
use flexnetos_runner.Router
use flexnetos_runner.Router.{KernelPlan}
use flexnetos_runner.Safety.{self_hosted}
use flexnetos_runner.SingleFlight
use flexnetos_runner.SingleFlight.{TargetKey, FlightLease, for_job, try_acquire, release}
use flexnetos_runner.SingleFlight.Exclusion.{holder, lease_for, acquire_held, release-acquire}
use flexnetos_runner.Wire.Frame.{DispatchRequest, DispatchResponse}
use flexnetos_runner.Dispatch.Cleared.{Admitted, Ends, give_back}

module _ (r : Runner) (c : ConstitutionStatus) (now : ℕ) (raw : List ℕ) (s : State r) where
  early :
      (resp : DispatchResponse) (e : DispatchEvent r.fl)
      → IsRefusal r resp e
      → Ends r c now raw s (err resp, emit e s)
  early resp e h = inl (
    resp,
    e,
    s,
    refl,
    h,
    record {
      log = refl;
      calls = refl;
      retry = refl;
      quarantine = refl;
      risk_ledger = refl;
      holders = λ k. refl;
      governor = inl refl;
    },
  )

  -- A refusal while the target is held, with the lease then given back.
  late :
      (job : JobSpec) (t : State r)
      → holder s.singleflight (for_job job) ≡ none
      → t.singleflight ≡ (try_acquire s.singleflight job).0
      → t.log ≡ s.log
      → t.calls ≡ s.calls
      → t.retry ≡ s.retry
      → t.quarantine ≡ s.quarantine
      → t.risk_ledger ≡ s.risk_ledger
      → (t.governor ≡ s.governor) ⊎ (t.governor ≡ (Governor.admit r.fl s.governor).0)
      → (resp : DispatchResponse) (e : DispatchEvent r.fl) → IsRefusal r resp e
      → Ends r c now raw s
          (give_back r c now raw s (lease_for s.singleflight job) (err resp, emit e t))
  unfolding emit
  late job t free flights log calls retry quarantine risk governor resp e h =
      let lease : FlightLease = lease_for s.singleflight job in
      inl (
        resp,
        e,
        record t { singleflight = (release t.singleflight lease).0 },
        refl,
        h,
        record {
          log = log;
          calls = calls;
          retry = retry;
          quarantine = quarantine;
          risk_ledger = risk;
          holders =
              (release-acquire s.singleflight t.singleflight job free
                (ap (λ (f : SingleFlight.SingleFlight). f.active) flights)).1;
          governor = governor;
        },
      )

  module _ (req : DispatchRequest) (job : JobSpec) (h : Admitted r c now raw s req job) where
    in_flight-Ends :
        (free : holder s.singleflight (for_job job) ≡ none)
        → Ends r c now raw s (
            give_back r c now raw s (lease_for s.singleflight job) (
              Delegate.in_flight r req job
                (Router.route job)
                self_hosted
                now
                (record s { singleflight = (try_acquire s.singleflight job).0 })))
    unfolding Delegate.in_flight Delegate.delegate
    in_flight-Ends free =
        let G : Result DispatchResponse DispatchResponse × State r → Type 0 =
          λ y. Ends r c now raw s (give_back r c now raw s (lease_for s.singleflight job) y) in
        let s1 : State r = record s { singleflight = (try_acquire s.singleflight job).0 } in
        let s2 : State r = record s1 {
          rate_limiter = limiter_after s.rate_limiter (class job.job) now;
        } in
        let s3 : State r = record s2 { guard = (LoopGuard.observe r.ex s.guard job).0 } in
        let s4 : State r = record s3 { governor = (Governor.admit r.fl s.governor).0 } in
        Gate-bind r G _ _ s1 s2 _ (rate_gate_lem r job s1 now)
          (λ _ rate.
            Gate-bind r G _ _ s2 s3 _ (loop_gate_lem r job s2)
              (λ _ loop.
                Gate-bind r G _ _ s3 s4 _ (budget_gate_lem r job s3)
                  (λ _ budget. inr (
                    req,
                    job,
                    record {
                      admitted = h;
                      free = free;
                      in_rate = rate;
                      not_looping = loop;
                      in_budget = budget;
                    },
                    refl,
                  ))
                  (late job s4 free refl refl refl refl refl refl (inr refl)))
              (late job s3 free refl refl refl refl refl refl (inl refl)))
          (late job s2 free refl refl refl refl refl refl (inl refl))

    acquire-Ends : Ends r c now raw s (
        (Flight.acquire_gate r job >>= λ lease.
        Delegate.with_permit r lease
          (Delegate.in_flight r req job (Router.route job) self_hosted now))
          s)
    unfolding ◌>>=◌ Delegate.with_permit
    acquire-Ends = elim (acquire_cases r job s) [
      | inl (free, e) ↦ rw e (in_flight-Ends free)
      | inr (f, held, resp, ev, e, p) ↦ rw e (
          inl (
            resp,
            ev,
            record s { singleflight = (try_acquire s.singleflight job).0 },
            refl,
            p,
            record {
              log = refl;
              calls = refl;
              retry = refl;
              quarantine = refl;
              risk_ledger = refl;
              holders = λ k. ap (λ a. Dict.get k.name a) (acquire_held s.singleflight job f held).1;
              governor = inl refl;
            },
          ))
    ]

  -- Every request ends in one of the two ways.
  pub process-Ends : Ends r c now raw s (process r c now raw s)
  unfolding process
  process-Ends =
      Gate-bind r (Ends r c now raw s) _ _ s s _ (constitution_gate_lem r c s)
        (λ _ armed.
          Gate-bind r (Ends r c now raw s) _ _ s s _ (parse_gate_lem r raw s)
            (λ req parsed.
              Gate-bind r (Ends r c now raw s) _ _ s s _ (verify_gate_lem r req s)
                (λ job signed.
                  Gate-bind r (Ends r c now raw s) _ _ s s _ (envelope_gate_lem r job s req)
                    (λ _ enveloped.
                      Gate-bind r (Ends r c now raw s) _ _ s s _ (authority_gate_lem r job s req)
                        (λ _ authorized.
                          Gate-bind r (Ends r c now raw s) _ _ s s _ (lint_gate_lem r job s)
                            (λ _ well_formed.
                              Gate-bind r (Ends r c now raw s) _ _ s s _ (scan_gate_lem r job s)
                                (λ _ clean.
                                  Gate-bind r (Ends r c now raw s) _ _ s s _ (fork_gate_lem r job s)
                                    (λ place trusted.
                                      Gate-bind r (Ends r c now raw s) _ _ s s _
                                        (approval_gate_lem r job s req)
                                        (λ _ approved.
                                          Gate-bind r (Ends r c now raw s) _ _ s s _
                                            (quarantine_gate_lem r job s)
                                            (λ _ not_quarantined.
                                              Gate-bind r (Ends r c now raw s) _ _ s s _
                                                (target_gate_lem r job s)
                                                (λ plan listed.
                                                  Gate-bind r (Ends r c now raw s) _ _ s s _
                                                    (tier_gate_lem r job s)
                                                    (λ _ in_tier.
                                                      rw (trusted.1, listed.1)
                                                        (acquire-Ends req job (record {
                                                          armed = armed;
                                                          parsed = parsed;
                                                          signed = signed;
                                                          enveloped = enveloped;
                                                          authorized = authorized;
                                                          well_formed = well_formed;
                                                          clean = clean;
                                                          trusted = trusted.0;
                                                          approved = approved;
                                                          not_quarantined = not_quarantined;
                                                          listed = listed.0;
                                                          in_tier = in_tier;
                                                        })))
                                                    early)
                                                early)
                                            early)
                                        early)
                                    early)
                                early)
                            early)
                        early)
                    early)
                early)
            early)
        early
