-- ===== src/Dispatch/Failures.antt =====
-- What a failed delegation leaves behind (`handle_request` and `handle_failure` of
-- crates/runner-dispatch/src/main.rs).
use flexnetos_runner.Shared.{
  ℕ, ◌≡◌, refl, sym, ◌∙◌, inl, inr, false, Option, some, List, if◌then◌else◌, Result, any,
  Bool-cases, Text, to_ascii_lowercase, contains,
}
use flexnetos_runner.Constitution.{ConstitutionStatus}
use flexnetos_runner.Dispatch.{handle_request}
use flexnetos_runner.Dispatch.Delegate.{
  call_for, conclude, handle_failure, kernel_error, failed_once,
}
use flexnetos_runner.Dispatch.Cleared.{Cleared, entered}
use flexnetos_runner.Dispatch.Passes.{process_lem}
use flexnetos_runner.Dispatch.Steps.{
  Runner, State, Delegation, delivered, failed, timed_out, idle_timed_out, answer, emit,
}
use flexnetos_runner.Events.{Outcome}
use flexnetos_runner.Dispatch.Flight.Gates.{limiter_after}
use flexnetos_runner.Governor.{admit}
use flexnetos_runner.Job.{JobSpec, class}
use flexnetos_runner.LoopGuard
use flexnetos_runner.Quarantine.{on_failure}
use flexnetos_runner.RateLimit
use flexnetos_runner.Recovery.{
  FailureKind, kernel_failed, kernel_fatal, deadline_exceeded, idle_timeout, classify_kernel_error,
  fatal_patterns, decide,
}
use flexnetos_runner.Risk
use flexnetos_runner.Risk.{RiskScore, record_outcome}
use flexnetos_runner.Router
use flexnetos_runner.Router.{KernelPlan}
use flexnetos_runner.Safety.{self_hosted}
use flexnetos_runner.Wire.Frame.{DispatchRequest, DispatchResponse, rejected, with_recovery}

-- The outcome is a failure of this kind: an error is fatal if it names one of the fatal patterns.
abbrev pub Fails : Delegation → FailureKind → Type 0
Fails (delivered cost) kind = ⊥
Fails (failed e) kind = kind ≡ (
    if any (λ p. contains p (to_ascii_lowercase e)) fatal_patterns
    then kernel_fatal
    else kernel_failed)
Fails (timed_out limit) kind = kind ≡ deadline_exceeded
Fails (idle_timed_out limit) kind = kind ≡ idle_timeout

module _ (r : Runner) where
  -- The ledgers after a failure of some kind, and the reply.
  record Booked (job : JobSpec) (now : ℕ) (kind : FailureKind) (s : State r)
      (x : Result DispatchResponse DispatchResponse × State r) : Type 0 where
    refused : (answer x.0).accepted ≡ false
    advice :
        (answer x.0).recovery
        ≡ some (decide r.policy s.retry (LoopGuard.fingerprint r.ex job) kind).1
    retry : x.1.retry ≡ (decide r.policy s.retry (LoopGuard.fingerprint r.ex job) kind).0
    quarantine :
        x.1.quarantine
        ≡ (on_failure r.quarantine_policy s.quarantine (LoopGuard.fingerprint r.ex job)).0
    rate : x.1.rate_limiter ≡ RateLimit.record_failure s.rate_limiter (class job.job) now
    risk : x.1.risk_ledger ≡ record_outcome s.risk_ledger (LoopGuard.fingerprint r.ex job) false
    governor : x.1.governor ≡ s.governor

  handle_failure-Booked :
      (kind : FailureKind) (outcome : Outcome) (lead : Text) (job : JobSpec) (plan : KernelPlan)
      (risk : Option (RiskScore r.fl)) (now : ℕ) (s : State r)
      → Booked job now kind s
          (handle_failure r job plan risk now kind outcome lead (failed_once r job s))
  unfolding handle_failure rejected with_recovery emit
  handle_failure-Booked kind outcome lead job plan risk now s = record {
    refused = refl;
    advice = refl;
    retry = refl;
    quarantine = refl;
    rate = refl;
    risk = refl;
    governor = refl;
  }

  kernel_error_kind :
      (program e : Text)
      → (kernel_error r (classify_kernel_error e) program e).0 ≡ (
          if any (λ p. contains p (to_ascii_lowercase e)) fatal_patterns
          then kernel_fatal
          else kernel_failed)
  unfolding classify_kernel_error kernel_error
  kernel_error_kind program e =
      elim (Bool-cases (any (λ p. contains p (to_ascii_lowercase e)) fatal_patterns)) [
        | inl h ↦ rw h refl
        | inr h ↦ rw h refl
      ]

  conclude-Booked :
      (d : Delegation) (kind : FailureKind) (job : JobSpec) (plan : KernelPlan)
      (risk : Option (RiskScore r.fl)) (now : ℕ) (s : State r)
      → Fails d kind
      → Booked job now kind s (conclude r d job plan self_hosted risk now s)
  unfolding conclude
  conclude-Booked (delivered cost) kind job plan risk now s h = absurd h
  conclude-Booked (failed e) kind job plan risk now s h =
      rw (h ∙ sym (kernel_error_kind (Router.program plan.kernel) e))
        (handle_failure-Booked _ _ _ job plan risk now s)
  conclude-Booked (timed_out limit) kind job plan risk now s h =
      rw h (handle_failure-Booked _ _ _ job plan risk now s)
  conclude-Booked (idle_timed_out limit) kind job plan risk now s h =
      rw h (handle_failure-Booked _ _ _ job plan risk now s)

-- A cleared request whose kernel call fails is refused with the directive of the recovery policy for the
-- kind of failure: fatal if the error names a fatal pattern, failed if not, or one of the two time
-- limits. The retry ledger, the quarantine, the limiter and the risk history are those before with this
-- one failure given to each, and the governor that admitted the job is not charged.
pub failure_booked :
    (r : Runner) (c : ConstitutionStatus) (now : ℕ) (raw : List ℕ) (s : State r)
    (req : DispatchRequest) (job : JobSpec) (kind : FailureKind)
    → Cleared r c now raw s req job
    → Fails (r.invoke (call_for r req job (Router.route job))) kind
    → let (resp, t) = handle_request r c now raw s in
      let fp = LoopGuard.fingerprint r.ex job in
      (resp.accepted ≡ false)
      × (resp.recovery ≡ some (decide r.policy s.retry fp kind).1)
      × (t.retry ≡ (decide r.policy s.retry fp kind).0)
      × (t.quarantine ≡ (on_failure r.quarantine_policy s.quarantine fp).0)
      × (t.rate_limiter
          ≡ RateLimit.record_failure
              (limiter_after s.rate_limiter (class job.job) now)
              (class job.job)
              now)
      × (t.risk_ledger ≡ record_outcome s.risk_ledger fp false)
      × (t.governor ≡ (admit r.fl s.governor).0)
unfolding handle_request
failure_booked r c now raw s req job kind h fails =
    let b =
      conclude-Booked r (r.invoke (call_for r req job (Router.route job))) kind job
        (Router.route job)
        (Risk.assess r.fl r.risk_policy s.risk_ledger (LoopGuard.fingerprint r.ex job)) now
        (entered r c now raw s req job) fails in
    rw (process_lem r c now raw s req job h)
      (b.refused, b.advice, b.retry, b.quarantine, b.rate, b.risk, b.governor)
