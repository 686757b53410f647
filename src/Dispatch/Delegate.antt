-- ===== src/Dispatch/Delegate.antt =====
-- The delegation of an admitted job, and what its outcome changes (`run_delegation`, `handle_failure`
-- and the end of `handle_request` in crates/runner-dispatch/src/main.rs).
pub mod Reports
use flexnetos_runner.Shared.{
  ℕ, Bool, true, false, Option, none, some, List, [], ◌∷◌, ◌++◌, if◌then◌else◌, ok, err, Text,
  codes, join, decimal,
}
use flexnetos_runner.Dispatch.Steps.{
  Runner, State, Step, Call, Delegation, delivered, failed, timed_out, idle_timed_out, ◌>>◌, emit,
  event_for,
}
use flexnetos_runner.Events
use flexnetos_runner.Events.{DispatchEvent, Outcome}
use flexnetos_runner.Job.{JobSpec, class}
use flexnetos_runner.LoopGuard
use flexnetos_runner.Wire.Frame.{DispatchRequest, DispatchResponse, rejected, with_recovery}
use flexnetos_runner.Recovery
use flexnetos_runner.Recovery.{RecoveryDirective, FailureKind}
use flexnetos_runner.Cost.{JobCost, is_measured}
use flexnetos_runner.Deadline.{effective, effective_idle}
use flexnetos_runner.Governor
use flexnetos_runner.Governor.{Governor, Admission, SurvivalTier}
use flexnetos_runner.LoopGuard.{LoopGuard, Verdict, pass, trip}
use flexnetos_runner.Quarantine
use flexnetos_runner.Quarantine.{QuarantineLedger}
use flexnetos_runner.RateLimit
use flexnetos_runner.RateLimit.{RateLimiter, RateDecision}
use flexnetos_runner.Risk
use flexnetos_runner.Risk.{RiskScore}
use flexnetos_runner.Router
use flexnetos_runner.Router.{KernelPlan}
use flexnetos_runner.Safety.{Placement, self_hosted, hosted_only}
use flexnetos_runner.SingleFlight
use flexnetos_runner.SingleFlight.{SingleFlight, FlightLease, SingleFlightDenied}
use flexnetos_runner.Dispatch.Flight.{rate_gate, loop_gate, budget_gate}

module _ (r : Runner) where
  risk_note : Option (RiskScore r.fl) → List Text
  risk_note none = []
  risk_note (some score) = Risk.summary r.fl score ∷ []

  tier_note : SurvivalTier → List Text
  tier_note tier =
      if Governor.is_degraded tier
      then (codes "survival tier: " ++ Governor.label tier) ∷ []
      else []

  add_cost_to : JobCost → DispatchEvent r.fl → DispatchEvent r.fl
  add_cost_to cost e = if is_measured cost then Events.with_cost r.fl e cost else e

  -- What a clean delegation changes in the ledgers.
  unfoldable pub settle : JobSpec → JobCost → State r → State r
  settle job cost s =
      let fp = LoopGuard.fingerprint r.ex job in
      record s {
        governor = Governor.charge s.governor cost;
        retry = Recovery.clear s.retry fp;
        quarantine = Quarantine.clear s.quarantine fp;
        rate_limiter = RateLimit.clear_route s.rate_limiter (class job.job);
        risk_ledger = Risk.record_outcome s.risk_ledger fp true;
      }

  placement_text : Placement → Text
  placement_text self_hosted = codes "SelfHosted"
  placement_text hosted_only = codes "HostedOnly"

  unfoldable pub accept :
      JobSpec → KernelPlan → Placement → Option (RiskScore r.fl) → JobCost → Step r DispatchResponse
  unfolding risk_note tier_note add_cost_to placement_text
  accept job plan place risk cost s =
      let s' = settle job cost s in
      let base =
        Events.with_risk r.fl
          (Events.with_kernel r.fl (event_for r Outcome.delegated job) (Router.program plan.kernel))
          risk in
      let notes =
        (codes "route selected: "
            ++ plan.route_id
            ++ codes " weight "
            ++ Router.show_weight plan.route_weight)
          ∷ tier_note (Governor.tier r.fl s'.governor)
        ++ risk_note risk in
      (
        ok (record {
          accepted = true;
          kernel = some (Router.program plan.kernel);
          placement = some (placement_text place);
          intent = some plan.intent;
          error = none;
          recovery = none;
        }),
        emit (Events.with_detail r.fl (add_cost_to cost base) (join (codes " | ") notes)) s',
      )

  risk_suffix : Option (RiskScore r.fl) → Text
  risk_suffix none = []
  risk_suffix (some score) = codes " | " ++ Risk.summary r.fl score

  quarantine_suffix : Bool → QuarantineLedger → Text → Text
  quarantine_suffix false ledger fp = []
  quarantine_suffix true ledger fp =
      codes " | fingerprint quarantined ("
      ++ decimal (Quarantine.failures ledger fp)
      ++ codes "x failures ≥ threshold "
      ++ decimal r.quarantine_policy.threshold
      ++ codes ")"

  unfoldable pub handle_failure :
      JobSpec
      → KernelPlan
      → Option (RiskScore r.fl)
      → ℕ
      → FailureKind
      → Outcome
      → Text
      → Step r DispatchResponse
  unfolding risk_suffix quarantine_suffix
  handle_failure job plan risk now kind outcome lead s =
      let fp = LoopGuard.fingerprint r.ex job in
      let (retry', directive) = Recovery.decide r.policy s.retry fp kind in
      let (ledger, latched) = Quarantine.on_failure r.quarantine_policy s.quarantine fp in
      let detail =
        lead
        ++ codes " | "
        ++ Recovery.summary directive
        ++ quarantine_suffix latched ledger fp
        ++ risk_suffix risk in
      let event =
        Events.with_risk r.fl
          (Events.with_detail r.fl
            (Events.with_recovery r.fl
              (Events.with_kernel r.fl (event_for r outcome job) (Router.program plan.kernel))
              directive)
            detail)
          risk in
      (
        err (with_recovery (rejected detail) directive),
        emit event (record s {
          retry = retry';
          quarantine = ledger;
          rate_limiter = RateLimit.record_failure s.rate_limiter (class job.job) now;
        }),
      )

  -- The kind, the outcome and the text for the error `e` of a kernel.
  unfoldable pub kernel_error : FailureKind → Text → Text → FailureKind × Outcome × Text
  kernel_error FailureKind.kernel_fatal program e = (
    FailureKind.kernel_fatal,
    Outcome.kernel_fatal,
    codes "kernel `" ++ program ++ codes "` returned a FATAL (unrecoverable) error: " ++ e,
  )
  kernel_error _ program e = (
    FailureKind.kernel_failed,
    Outcome.kernel_failed,
    codes "kernel `" ++ program ++ codes "` invocation failed: " ++ e,
  )

  abbrev pub failed_once : JobSpec → State r → State r
  failed_once job s = record s {
    risk_ledger = Risk.record_outcome s.risk_ledger (LoopGuard.fingerprint r.ex job) false;
  }

  unfoldable pub conclude :
      Delegation
      → JobSpec
      → KernelPlan
      → Placement
      → Option (RiskScore r.fl)
      → ℕ
      → Step r DispatchResponse
  unfolding kernel_error
  conclude (delivered cost) job plan place risk now s = accept job plan place risk cost s
  conclude (failed e) job plan place risk now s =
      let (kind, outcome, lead) =
        kernel_error (Recovery.classify_kernel_error e) (Router.program plan.kernel) e in
      handle_failure job plan risk now kind outcome lead (failed_once job s)
  conclude (timed_out limit) job plan place risk now s =
      handle_failure job plan risk now FailureKind.deadline_exceeded Outcome.deadline_exceeded
        (codes "kernel `"
          ++ Router.program plan.kernel
          ++ codes "` exceeded its "
          ++ decimal limit
          ++ codes "s wall-clock deadline (hung / ran long) — abandoned")
        (failed_once job s)
  conclude (idle_timed_out limit) job plan place risk now s =
      handle_failure job plan risk now FailureKind.idle_timeout Outcome.idle_timeout
        (codes "kernel `"
          ++ Router.program plan.kernel
          ++ codes "` produced no output for "
          ++ decimal limit
          ++ codes "s (idle/liveness timeout) — killed")
        (failed_once job s)

  -- The arguments of the one call of the invoker.
  unfoldable pub call_for : DispatchRequest → JobSpec → KernelPlan → Call
  call_for req job plan = record {
    plan = plan;
    job = job;
    deadline = effective r.deadline req.deadline_secs;
    idle_timeout = effective_idle r.liveness req.idle_timeout_secs;
  }

  unfoldable pub delegate :
      DispatchRequest → JobSpec → KernelPlan → Placement → ℕ → Step r DispatchResponse
  delegate req job plan place now s =
      let call = call_for req job plan in
      conclude (r.invoke call) job plan place
        (Risk.assess r.fl r.risk_policy s.risk_ledger (LoopGuard.fingerprint r.ex job)) now
        (record s { calls = s.calls ++ call ∷ [] })

  -- What runs while the target is held.
  unfoldable pub in_flight :
      DispatchRequest → JobSpec → KernelPlan → Placement → ℕ → Step r DispatchResponse
  in_flight req job plan place now = do
    rate_gate r job now
    loop_gate r job
    budget_gate r job
    delegate req job plan place now

  -- `SingleFlightPermit`: its `Drop` releases the lease on every way out.
  unfoldable pub with_permit : FlightLease → Step r DispatchResponse → Step r DispatchResponse
  with_permit lease m s =
      let (x, s') = m s in
      (x, record s' { singleflight = (SingleFlight.release s'.singleflight lease).0 })
