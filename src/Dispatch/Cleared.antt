-- ===== src/Dispatch/Cleared.antt =====
-- What the gates ask of a request, and the two ways it can end
-- (`handle_request` of crates/runner-dispatch/src/main.rs).
use flexnetos_runner.Shared.{
  ℕ, ◌≡◌, ◌⊎◌, true, false, not, ◌&&◌, none, List, [], ◌∷◌, ◌++◌, Result, ok, err,
}
use flexnetos_runner.Dispatch.Admission
use flexnetos_runner.Dispatch.Flight.Gates.{limiter_after}
use flexnetos_runner.Dispatch.Delegate.{call_for, conclude}
use flexnetos_runner.Dispatch.Steps.{Runner, State, emit}
use flexnetos_runner.Dispatch.Turns.{IsRefusal}
use flexnetos_runner.Events.{DispatchEvent}
use flexnetos_runner.Job.{JobSpec, class}
use flexnetos_runner.Approval
use flexnetos_runner.Authority
use flexnetos_runner.Constitution.{ConstitutionStatus, intact}
use flexnetos_runner.Governor
use flexnetos_runner.Lint
use flexnetos_runner.LoopGuard
use flexnetos_runner.LoopGuard.{pass}
use flexnetos_runner.Quarantine
use flexnetos_runner.RateLimit
use flexnetos_runner.Risk
use flexnetos_runner.Router
use flexnetos_runner.Router.{KernelPlan}
use flexnetos_runner.Safety.{self_hosted, placement}
use flexnetos_runner.Scan
use flexnetos_runner.SingleFlight.{TargetKey, FlightLease, for_job, try_acquire, release}
use flexnetos_runner.SingleFlight.Exclusion.{holder, lease_for}
use flexnetos_runner.StateGate
use flexnetos_runner.Targets
use flexnetos_runner.Wire.{verify_frame, verify_envelope}
use flexnetos_runner.Wire.Frame.{DispatchRequest, DispatchResponse}

module _ (r : Runner) (c : ConstitutionStatus) (now : ℕ) (raw : List ℕ) (s : State r) where
  -- What the gates before the single-flight mutex ask of a frame and its job.
  pub record Admitted (req : DispatchRequest) (job : JobSpec) : Type 0 where
    pub armed : c ≡ intact
    pub parsed : r.ex.parse_request raw ≡ ok req
    pub signed : verify_frame r.ex r.key req ≡ ok job
    pub enveloped : Authority.is_active r.authority ≡ true → verify_envelope r.ex r.key req ≡ ok tt
    pub authorized : Authority.check r.authority job req.submitter ≡ Authority.allowed
    pub well_formed : Lint.structural_errors job ≡ []
    pub clean : (Scan.is_active r.scan_policy && Scan.blocks r.scan_policy (Scan.scan job)) ≡ false
    pub trusted : placement job ≡ self_hosted
    pub approved : (Approval.requires r.approval job && not (Admission.approved r req job)) ≡ false
    pub not_quarantined :
        (Quarantine.is_active r.quarantine_policy
          && Quarantine.is_quarantined s.quarantine (LoopGuard.fingerprint r.ex job))
        ≡ false
    pub listed : Targets.check r.target_allowlist (Router.route job).kernel ≡ Targets.allowed
    pub in_tier :
        StateGate.is_active r.state_gate ≡ true
        → StateGate.check r.state_gate job (Governor.tier r.fl s.governor) ≡ StateGate.allowed

  -- What every gate asks, in the state in which the request comes.
  pub record Cleared (req : DispatchRequest) (job : JobSpec) : Type 0 where
    pub admitted : Admitted req job
    pub free : holder s.singleflight (for_job job) ≡ none
    pub in_rate :
        RateLimit.is_active s.rate_limiter.policy ≡ true
        → RateLimit.is_denied (RateLimit.check s.rate_limiter (class job.job) now).1 ≡ false
    pub not_looping : (LoopGuard.observe r.ex s.guard job).1 ≡ pass
    pub in_budget : Governor.is_denied (Governor.admit r.fl s.governor).1 ≡ false

  -- What a refusal leaves as it was.
  pub record Kept (t : State r) : Type 0 where
    pub log : t.log ≡ s.log
    pub calls : t.calls ≡ s.calls
    pub retry : t.retry ≡ s.retry
    pub quarantine : t.quarantine ≡ s.quarantine
    pub risk_ledger : t.risk_ledger ≡ s.risk_ledger
    pub holders : (k : TargetKey) → holder t.singleflight k ≡ holder s.singleflight k
    pub governor : (t.governor ≡ s.governor) ⊎ (t.governor ≡ (Governor.admit r.fl s.governor).0)

  -- The state in which the kernel is called, with the call noted.
  abbrev pub entered : DispatchRequest → JobSpec → State r
  entered req job = record s {
    singleflight = (try_acquire s.singleflight job).0;
    rate_limiter = limiter_after s.rate_limiter (class job.job) now;
    guard = (LoopGuard.observe r.ex s.guard job).0;
    governor = (Governor.admit r.fl s.governor).0;
    calls = s.calls ++ call_for r req job (Router.route job) ∷ [];
  }

  -- What the outcome of the call makes of that state.
  abbrev pub concluded :
      DispatchRequest → JobSpec → Result DispatchResponse DispatchResponse × State r
  concluded req job =
      conclude r (r.invoke (call_for r req job (Router.route job))) job (Router.route job)
        self_hosted (Risk.assess r.fl r.risk_policy s.risk_ledger (LoopGuard.fingerprint r.ex job))
        now (entered req job)

  abbrev pub give_back :
      FlightLease
      → Result DispatchResponse DispatchResponse × State r
      → Result DispatchResponse DispatchResponse × State r
  give_back lease y = (y.0, record y.1 { singleflight = (release y.1.singleflight lease).0 })

  abbrev pub Ends : Result DispatchResponse DispatchResponse × State r → Type 0
  Ends x =
      ((resp : DispatchResponse) × (e : DispatchEvent r.fl) × (t : State r) × (x
          ≡ (err resp, emit e t))
        × IsRefusal r resp e
        × Kept t)
      ⊎ ((req : DispatchRequest) × (job : JobSpec) × Cleared req job
          × (x ≡ give_back (lease_for s.singleflight job) (concluded req job)))
