-- ===== src/Dispatch/Passes.antt =====
-- A frame and a job that meet what every gate asks reach the kernel
-- (`handle_request` of crates/runner-dispatch/src/main.rs).
use flexnetos_runner.Shared.{
  ℕ, ◌≡◌, refl, sym, ◌∙◌, inl, inr, true, Option, List, [], ◌∷◌, ◌++◌, ok-injective,
}
use flexnetos_runner.Constitution.{ConstitutionStatus}
use flexnetos_runner.Dispatch.{process, handle_request}
use flexnetos_runner.Dispatch.Admission.Gates.{
  constitution_gate_lem, parse_gate_lem, verify_gate_lem, envelope_gate_lem, authority_gate_lem,
  lint_gate_lem, scan_gate_lem, fork_gate_lem, approval_gate_lem, quarantine_gate_lem,
  target_gate_lem, tier_gate_lem,
}
use flexnetos_runner.Dispatch.Audit.{report}
use flexnetos_runner.Dispatch.Delegate
use flexnetos_runner.Dispatch.Delegate.{call_for, conclude, accept}
use flexnetos_runner.Dispatch.Cleared.{Admitted, Cleared, entered, concluded, give_back}
use flexnetos_runner.Dispatch.Flight
use flexnetos_runner.Dispatch.Flight.Gates.{
  limiter_after, acquire_cases, rate_gate_lem, loop_gate_lem, budget_gate_lem,
}
use flexnetos_runner.Dispatch.Steps.{Runner, State, Delegation, delivered, ◌>>=◌, answer}
use flexnetos_runner.Dispatch.Turns.{Gate-pass}
use flexnetos_runner.Cost.{JobCost}
use flexnetos_runner.Governor
use flexnetos_runner.Job.{JobSpec, class}
use flexnetos_runner.LoopGuard
use flexnetos_runner.Risk
use flexnetos_runner.Router
use flexnetos_runner.Safety.{self_hosted}
use flexnetos_runner.SingleFlight.{try_acquire}
use flexnetos_runner.SingleFlight.Exclusion.{lease_for}
use flexnetos_runner.Wire.Frame.{DispatchRequest}

module _ (r : Runner) (c : ConstitutionStatus) (now : ℕ) (raw : List ℕ) (s : State r)
    (req : DispatchRequest) (job : JobSpec) (h : Cleared r c now raw s req job) where
  in_flight_lem :
      Delegate.in_flight r req job
        (Router.route job)
        self_hosted
        now
        (record s { singleflight = (try_acquire s.singleflight job).0 })
      ≡ concluded r c now raw s req job
  unfolding Delegate.in_flight Delegate.delegate
  in_flight_lem =
      let s1 : State r = record s { singleflight = (try_acquire s.singleflight job).0 } in
      let s2 : State r = record s1 {
        rate_limiter = limiter_after s.rate_limiter (class job.job) now;
      } in
      let s3 : State r = record s2 { guard = (LoopGuard.observe r.ex s.guard job).0 } in
      let s4 : State r = record s3 { governor = (Governor.admit r.fl s.governor).0 } in
      Gate-pass r _ _ s1 s2 _ tt (rate_gate_lem r job s1 now) h.in_rate (λ b p. refl)
      ∙ (Gate-pass r _ _ s2 s3 _ tt (loop_gate_lem r job s2) h.not_looping (λ b p. refl)
          ∙ Gate-pass r _ _ s3 s4 _ tt (budget_gate_lem r job s3) h.in_budget (λ b p. refl))

  acquire_lem :
      (Flight.acquire_gate r job >>= λ lease.
      Delegate.with_permit r lease
        (Delegate.in_flight r req job (Router.route job) self_hosted now))
        s
      ≡ give_back r c now raw s (lease_for s.singleflight job) (concluded r c now raw s req job)
  unfolding ◌>>=◌ Delegate.with_permit
  acquire_lem = elim (acquire_cases r job s) [
    | inl (free, e) ↦ rw (e, in_flight_lem) refl
    | inr (f, held, resp, ev, e, p) ↦ (let bad = sym held ∙ h.free in cc)
  ]

  pub process_lem :
      process r c now raw s
      ≡ give_back r c now raw s (lease_for s.singleflight job) (concluded r c now raw s req job)
  unfolding process
  process_lem =
      let a : Admitted r c now raw s req job = h.admitted in
      Gate-pass r _ _ s s _ tt (constitution_gate_lem r c s) a.armed (λ b p. refl)
      ∙ (Gate-pass r _ _ s s _ req (parse_gate_lem r raw s) a.parsed
            (λ b p. ok-injective (sym p ∙ a.parsed))
          ∙ (Gate-pass r _ _ s s _ job (verify_gate_lem r req s) a.signed
                (λ b p. ok-injective (sym p ∙ a.signed))
              ∙ (Gate-pass r _ _ s s _ tt (envelope_gate_lem r job s req) a.enveloped (λ b p. refl)
                  ∙ (Gate-pass r _ _ s s _ tt (authority_gate_lem r job s req) a.authorized
                        (λ b p. refl)
                      ∙ (Gate-pass r _ _ s s _ tt (lint_gate_lem r job s) a.well_formed
                            (λ b p. refl)
                          ∙ (Gate-pass r _ _ s s _ tt (scan_gate_lem r job s) a.clean (λ b p. refl)
                              ∙ (Gate-pass r _ _ s s _ self_hosted (fork_gate_lem r job s)
                                    (a.trusted, refl) (λ b p. p.1)
                                  ∙ (Gate-pass r _ _ s s _ tt (approval_gate_lem r job s req)
                                        a.approved (λ b p. refl)
                                      ∙ (Gate-pass r _ _ s s _ tt (quarantine_gate_lem r job s)
                                            a.not_quarantined (λ b p. refl)
                                          ∙ (Gate-pass r _ _ s s _ (Router.route job)
                                                (target_gate_lem r job s) (a.listed, refl)
                                                (λ b p. p.1)
                                              ∙ (Gate-pass r _ _ s s _ tt (tier_gate_lem r job s)
                                                    a.in_tier (λ b p. refl)
                                                  ∙ acquire_lem)))))))))))

accept_lem :
    (r : Runner) (d : Delegation) (job : JobSpec) (plan : Router.KernelPlan)
    (risk : Option (Risk.RiskScore r.fl)) (now : ℕ) (s : State r) (cost : JobCost)
    → d ≡ delivered cost
    → (answer (conclude r d job plan self_hosted risk now s).0).accepted ≡ true
unfolding conclude accept
accept_lem r d job plan risk now s cost h = rw h refl

-- A request whose frame and job pass every gate calls the kernel once, with the routed plan and the
-- effective deadlines, and is accepted if the call delivers.
pub Cleared-called :
    (r : Runner) (c : ConstitutionStatus) (now : ℕ) (raw : List ℕ) (s : State r)
    (req : DispatchRequest) (job : JobSpec)
    → Cleared r c now raw s req job
    → let (resp, t) = handle_request r c now raw s in
      let call = call_for r req job (Router.route job) in
      (t.calls ≡ s.calls ++ call ∷ [])
      × ((cost : JobCost) → r.invoke call ≡ delivered cost → resp.accepted ≡ true)
unfolding handle_request
Cleared-called r c now raw s req job h = rw (process_lem r c now raw s req job h) (
  (report r c now raw s req job).calls,
  λ cost d.
      accept_lem r (r.invoke (call_for r req job (Router.route job))) job (Router.route job) _ now
        (entered r c now raw s req job) cost d,
)
