-- ===== src/Dispatch/Steps.antt =====
-- What the dispatcher is started with, the state that it keeps between two requests, and the steps of
-- a handler that may answer early (`handle_request` of crates/runner-dispatch/src/main.rs).
use flexnetos_runner.Shared.{ℕ, Option, List, [], ◌∷◌, ◌++◌, Result, ok, err, Text, codes, Float}
use flexnetos_runner.Approval.{ApprovalPolicy}
use flexnetos_runner.Authority.{AuthorityPolicy}
use flexnetos_runner.Cost.{JobCost}
use flexnetos_runner.Deadline.{DeadlinePolicy, LivenessPolicy}
use flexnetos_runner.Events
use flexnetos_runner.Events.{DispatchEvent, Outcome}
use flexnetos_runner.External.{External}
use flexnetos_runner.Governor.{Governor}
use flexnetos_runner.Job.{JobSpec}
use flexnetos_runner.LoopGuard
use flexnetos_runner.LoopGuard.{LoopGuard}
use flexnetos_runner.Quarantine.{QuarantinePolicy, QuarantineLedger}
use flexnetos_runner.RateLimit.{RateLimiter}
use flexnetos_runner.Recovery
use flexnetos_runner.Recovery.{RecoveryPolicy, RecoveryDirective, RetryLedger, FailureKind, retry}
use flexnetos_runner.Risk.{RiskLedger, RiskPolicy}
use flexnetos_runner.Router.{KernelPlan}
use flexnetos_runner.Scan.{ScanPolicy}
use flexnetos_runner.SingleFlight.{SingleFlight}
use flexnetos_runner.StateGate.{StateGatePolicy}
use flexnetos_runner.Targets.{TargetAllowlist}
use flexnetos_runner.Wire.Frame.{DispatchResponse, rejected, with_recovery}

pub data Delegation : Type 0 where
  delivered : JobCost → Delegation
  failed : Text → Delegation
  -- the limit that was exceeded, in seconds
  timed_out : ℕ → Delegation
  idle_timed_out : ℕ → Delegation

-- One call of the kernel invoker: its arguments.
pub record Call : Type 0 where
  pub plan : KernelPlan
  pub job : JobSpec
  pub deadline : Option ℕ
  pub idle_timeout : Option ℕ

pub record Runner : Type 1 where
  pub fl : Float
  pub ex : External
  pub key : List ℕ
  -- the kernel behind `KernelInvoker::invoke`
  pub invoke : Call → Delegation
  pub approval : ApprovalPolicy
  pub authority : AuthorityPolicy
  pub target_allowlist : TargetAllowlist
  pub state_gate : StateGatePolicy
  pub state_defer_secs : ℕ
  pub policy : RecoveryPolicy
  pub quarantine_policy : QuarantinePolicy
  pub scan_policy : ScanPolicy
  pub risk_policy : RiskPolicy fl
  pub deadline : DeadlinePolicy
  pub liveness : LivenessPolicy

-- `log` holds what was sent to the sink, and `calls` the calls of the invoker, the oldest first.
pub record State (r : Runner) : Type 0 where
  pub singleflight : SingleFlight
  pub guard : LoopGuard
  pub governor : Governor
  pub retry : RetryLedger
  pub quarantine : QuarantineLedger
  pub rate_limiter : RateLimiter
  pub risk_ledger : RiskLedger
  pub log : List (DispatchEvent r.fl)
  pub calls : List Call

-- A step goes on with a value, or answers the request.
abbrev pub Step : Runner → Type 0 → Type 0
Step r A = State r → Result A DispatchResponse × State r

-- The reply of a handler that has ended, early or not.
abbrev pub answer : Result DispatchResponse DispatchResponse → DispatchResponse
answer (ok resp) = resp
answer (err resp) = resp

module _ {r : Runner} {A B : Type 0} where
  abbrev pub continue : Result A DispatchResponse → (A → Step r B) → Step r B
  continue (ok a) f s = f a s
  continue (err e) f s = (err e, s)

  infixl 10 ◌>>=◌ ◌>>◌
  unfoldable pub ◌>>=◌ : Step r A → (A → Step r B) → Step r B
  ◌>>=◌ m f s = let (x, s') = m s in continue x f s'

  abbrev pub ◌>>◌ : Step r A → Step r B → Step r B
  m >> n = m >>= λ _. n

-- `DispatchEvent::for_job` of this runner
abbrev pub event_for : (r : Runner) → Outcome → JobSpec → DispatchEvent r.fl
event_for r outcome job = Events.for_job r.fl r.ex outcome job

module _ {r : Runner} where
  unfoldable pub emit : DispatchEvent r.fl → State r → State r
  emit e s = record s { log = s.log ++ e ∷ [] }

  -- A refusal that says only why.
  unfoldable pub refuse {ℓ} :
      {A : Type ℓ} → DispatchEvent r.fl → Text → State r → Result A DispatchResponse × State r
  unfolding emit
  refuse base detail s = (err (rejected detail), emit (Events.with_detail r.fl base detail) s)

  -- A refusal with a directive, which its text ends with.
  unfoldable pub refuse_with {ℓ} :
      {A : Type ℓ}
      → DispatchEvent r.fl
      → RecoveryDirective
      → Text
      → State r
      → Result A DispatchResponse × State r
  unfolding emit
  refuse_with base directive lead s =
      let detail = lead ++ codes " | " ++ Recovery.summary directive in
      (
        err (with_recovery (rejected detail) directive),
        emit (Events.with_detail r.fl (Events.with_recovery r.fl base directive) detail) s,
      )

  -- The directive comes from the recovery policy, which counts a retryable failure.
  unfoldable pub refuse_for {ℓ} :
      {A : Type ℓ}
      → DispatchEvent r.fl
      → JobSpec
      → FailureKind
      → Text
      → State r
      → Result A DispatchResponse × State r
  unfolding refuse_with
  refuse_for base job kind lead s =
      let (retry', directive) =
        Recovery.decide r.policy s.retry (LoopGuard.fingerprint r.ex job) kind in
      refuse_with base directive lead (record s { retry = retry' })

  -- Back-pressure: the job may come again after some seconds, and nothing is counted.
  unfoldable pub put_off {ℓ} :
      {A : Type ℓ} → DispatchEvent r.fl → Text → ℕ → State r → Result A DispatchResponse × State r
  unfolding refuse_with
  put_off base reason secs s =
      refuse_with base
        (record {
          action = retry;
          attempt = 0;
          max_retries = r.policy.max_retries;
          backoff_secs = secs;
          reason = reason;
        })
        reason s

  abbrev pub go_on {ℓ} : {A : Type ℓ} → A → State r → Result A DispatchResponse × State r
  go_on a s = (ok a, s)
