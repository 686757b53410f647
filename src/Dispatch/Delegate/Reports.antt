-- ===== src/Dispatch/Delegate/Reports.antt =====
-- What the outcome of a delegation reports, and what it leaves alone
-- (`run_delegation`, `handle_failure` and the end of `handle_request` in
-- crates/runner-dispatch/src/main.rs).
use flexnetos_runner.Shared.{
  ℕ, ◌≡◌, refl, sym, ap, ◌∙◌, ◌⊎◌, inl, inr, true, false, Option, [], ◌∷◌, ◌++◌, arith, Result,
  Bool-cases, Text,
}
use flexnetos_runner.Cost.{JobCost, is_measured}
use flexnetos_runner.Dispatch.Delegate
use flexnetos_runner.Dispatch.Delegate.{add_cost_to, kernel_error, accept, handle_failure, conclude}
use flexnetos_runner.Dispatch.Steps.{
  answer, Runner, State, Delegation, delivered, failed, timed_out, idle_timed_out, emit, event_for,
}
use flexnetos_runner.Dispatch.Turns.{Agrees}
use flexnetos_runner.Events
use flexnetos_runner.Events.{
  DispatchEvent, Outcome, EventCategory, execution, category, is_rejection, denied_by,
}
use flexnetos_runner.Governor.{charge}
use flexnetos_runner.Job.{JobSpec}
use flexnetos_runner.Recovery.{FailureKind, classify_kernel_error}
use flexnetos_runner.Risk.{RiskScore}
use flexnetos_runner.Router.{KernelPlan}
use flexnetos_runner.Safety.{Placement}
use flexnetos_runner.Wire.Frame.{DispatchResponse, rejected, with_recovery}

module _ (r : Runner) where
  -- One event of a delegation is emitted, which says the same as the reply. The flights, the loop guard
  -- and the calls are as before.
  pub record Reported (s : State r) (x : Result DispatchResponse DispatchResponse × State r)
      : Type 0 where
    pub event : DispatchEvent r.fl
    pub log : x.1.log ≡ s.log ++ event ∷ []
    pub agrees : Agrees r (answer x.0) event
    pub execution : category event.outcome ≡ execution
    pub calls : x.1.calls ≡ s.calls
    pub flights : x.1.singleflight ≡ s.singleflight
    pub guard : x.1.guard ≡ s.guard
    pub governor :
        (x.1.governor ≡ s.governor) ⊎ ((cost : JobCost) × (x.1.governor ≡ charge s.governor cost))

  recovery-add_cost_to :
      (cost : JobCost) (e : DispatchEvent r.fl)
      → ((add_cost_to r cost e).recovery ≡ e.recovery)
        × ((add_cost_to r cost e).outcome ≡ e.outcome)
        × ((add_cost_to r cost e).cited ≡ e.cited)
  unfolding add_cost_to Events.with_cost
  recovery-add_cost_to cost e = elim (Bool-cases (is_measured cost)) [
    | inl h ↦ rw h (refl, refl, refl)
    | inr h ↦ rw h (refl, refl, refl)
  ]

  module _ (job : JobSpec) (plan : KernelPlan) (risk : Option (RiskScore r.fl)) (now : ℕ)
      (s : State r) where
    accept-Reported :
        (place : Placement) (cost : JobCost) → Reported s (accept r job plan place risk cost s)
    unfolding accept Delegate.settle emit Events.with_detail Events.with_risk Events.with_kernel
        Events.for_job category is_rejection
    accept-Reported place cost =
        let (recovery, outcome, cited) = recovery-add_cost_to cost (
          Events.with_risk r.fl
            (Events.with_kernel r.fl (event_for r Outcome.delegated job)
              (Delegate.Router.program plan.kernel))
            risk) in
        record {
          event = _;
          log = refl;
          agrees = record {
            accepted = rw outcome refl;
            error = λ h. (let k : false ≡ true = sym (ap is_rejection outcome) ∙ h in cc);
            recovery = sym recovery;
            cited = cited ∙ sym (ap denied_by outcome);
          };
          execution = ap category outcome;
          calls = refl;
          flights = refl;
          guard = refl;
          governor = inr (cost, refl);
        }

    handle_failure-Reported :
        (kind : FailureKind) (outcome : Outcome) (lead : Text)
        → is_rejection outcome ≡ true
        → category outcome ≡ execution
        → Reported s (handle_failure r job plan risk now kind outcome lead s)
    unfolding handle_failure emit Events.with_detail Events.with_recovery Events.with_risk
        Events.with_kernel Events.for_job rejected with_recovery
    handle_failure-Reported kind outcome lead bad ran = record {
      event = _;
      log = refl;
      agrees = record { accepted = rw bad refl; error = λ _. refl; recovery = refl; cited = refl };
      execution = ran;
      calls = refl;
      flights = refl;
      guard = refl;
      governor = inl refl;
    }

  kernel_error_lem :
      (kind : FailureKind) (program e : Text)
      → (is_rejection (kernel_error r kind program e).1 ≡ true)
        × (category (kernel_error r kind program e).1 ≡ execution)
  unfolding kernel_error is_rejection category
  kernel_error_lem kind program e = ground arith

  module _ (job : JobSpec) (plan : KernelPlan) (risk : Option (RiskScore r.fl)) (now : ℕ)
      (s : State r) where
    of_failed :
        {x : Result DispatchResponse DispatchResponse × State r}
        → Reported (Delegate.failed_once r job s) x
        → Reported s x
    of_failed h = record {
      event = h.event;
      log = h.log;
      agrees = h.agrees;
      execution = h.execution;
      calls = h.calls;
      flights = h.flights;
      guard = h.guard;
      governor = h.governor;
    }

    pub conclude-Reported :
        (d : Delegation) (place : Placement) → Reported s (conclude r d job plan place risk now s)
    unfolding conclude is_rejection category
    conclude-Reported (delivered cost) place = accept-Reported job plan risk now s place cost
    conclude-Reported (failed e) place =
        let p =
          kernel_error_lem (classify_kernel_error e) (Delegate.Router.program plan.kernel) e in
        of_failed
          (handle_failure-Reported job plan risk now (Delegate.failed_once r job s) _ _ _ p.0 p.1)
    conclude-Reported (timed_out limit) place = of_failed (
        handle_failure-Reported job plan risk now (Delegate.failed_once r job s)
          FailureKind.deadline_exceeded Outcome.deadline_exceeded _ refl refl)
    conclude-Reported (idle_timed_out limit) place = of_failed (
        handle_failure-Reported job plan risk now (Delegate.failed_once r job s)
          FailureKind.idle_timeout Outcome.idle_timeout _ refl refl)
