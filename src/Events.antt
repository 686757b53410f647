-- ===== src/Events.antt =====
-- The audit records of the dispatcher (crates/runner-core/src/events.rs).
use flexnetos_runner.Shared.{Bool, true, false, Option, none, some, Text, codes, Float}
use flexnetos_runner.Cost.{JobCost}
use flexnetos_runner.External.{External}
use flexnetos_runner.Job.{JobSpec}
use flexnetos_runner.LoopGuard
use flexnetos_runner.Recovery.{RecoveryDirective}
use flexnetos_runner.Risk.{RiskScore}

pub data Outcome : Type 0 where
  constitution_violated unparseable verify_failed malformed content_rejected : Outcome
  fork_rejected approval_required authority_denied target_denied quarantined : Outcome
  state_deferred single_flight_denied rate_limited loop_tripped budget_denied : Outcome
  delegated kernel_failed kernel_fatal deadline_exceeded idle_timeout : Outcome

unfoldable pub is_rejection : Outcome → Bool
is_rejection delegated = false
is_rejection _ = true

pub data EventCategory : Type 0 where
  policy execution : EventCategory

unfoldable pub category : Outcome → EventCategory
category delegated = execution
category kernel_failed = execution
category kernel_fatal = execution
category deadline_exceeded = execution
category idle_timeout = execution
category _ = policy

pub record DeniedBy : Type 0 where
  pub gate : Text
  pub rule_id : Text

abbrev rule : Text → Text → Option DeniedBy
rule gate rule_id = some (record { gate = gate; rule_id = rule_id })

unfoldable pub denied_by : Outcome → Option DeniedBy
denied_by constitution_violated = rule (codes "constitution") (codes "constitution-violated")
denied_by unparseable = rule (codes "wire") (codes "unparseable-frame")
denied_by verify_failed = rule (codes "wire") (codes "signature-verify-failed")
denied_by malformed = rule (codes "lint") (codes "malformed-job-spec")
denied_by content_rejected = rule (codes "scan") (codes "content-rejected")
denied_by fork_rejected = rule (codes "safety") (codes "fork-pr-isolation")
denied_by approval_required = rule (codes "approval") (codes "approval-required")
denied_by authority_denied = rule (codes "authority") (codes "authority-denied")
denied_by target_denied = rule (codes "targets") (codes "target-denied")
denied_by quarantined = rule (codes "quarantine") (codes "fingerprint-quarantined")
denied_by state_deferred = rule (codes "stategate") (codes "route-state-deferred")
denied_by single_flight_denied = rule (codes "singleflight") (codes "target-in-flight")
denied_by rate_limited = rule (codes "ratelimit") (codes "rate-limited")
denied_by loop_tripped = rule (codes "loopguard") (codes "loop-tripped")
denied_by budget_denied = rule (codes "governor") (codes "budget-denied")
denied_by delegated = none
denied_by kernel_failed = none
denied_by kernel_fatal = none
denied_by deadline_exceeded = none
denied_by idle_timeout = none

module _ (fl : Float) where
  pub record DispatchEvent : Type 0 where
    pub outcome : Outcome
    pub cited : Option DeniedBy
    pub job_id : Option Text
    pub correlation_id : Option Text
    pub fingerprint : Option Text
    pub kernel : Option Text
    pub cost : Option JobCost
    pub recovery : Option RecoveryDirective
    pub detail : Option Text
    pub risk : Option (RiskScore fl)

  unfoldable pub untied : Outcome → Text → DispatchEvent
  untied outcome detail = record {
    outcome = outcome;
    cited = denied_by outcome;
    job_id = none;
    correlation_id = none;
    fingerprint = none;
    kernel = none;
    cost = none;
    recovery = none;
    detail = some detail;
    risk = none;
  }

  unfoldable pub for_job : External → Outcome → JobSpec → DispatchEvent
  for_job ex outcome job = record {
    outcome = outcome;
    cited = denied_by outcome;
    job_id = some job.id;
    correlation_id = some job.correlation_id;
    fingerprint = some (LoopGuard.fingerprint ex job);
    kernel = none;
    cost = none;
    recovery = none;
    detail = none;
    risk = none;
  }

  unfoldable pub with_kernel : DispatchEvent → Text → DispatchEvent
  with_kernel e kernel = record e { kernel = some kernel }

  unfoldable pub with_cost : DispatchEvent → JobCost → DispatchEvent
  with_cost e cost = record e { cost = some cost }

  unfoldable pub with_recovery : DispatchEvent → RecoveryDirective → DispatchEvent
  with_recovery e d = record e { recovery = some d }

  unfoldable pub with_detail : DispatchEvent → Text → DispatchEvent
  with_detail e detail = record e { detail = some detail }

  unfoldable pub with_risk : DispatchEvent → Option (RiskScore fl) → DispatchEvent
  with_risk e risk = record e { risk = risk }
