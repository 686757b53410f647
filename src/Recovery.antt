-- ===== src/Recovery.antt =====
-- Recovery routing for a failed dispatch (crates/runner-core/src/recovery.rs).
pub mod Attempts
use flexnetos_runner.Shared.{
  ℕ, ◌+◌, ◌^◌, min, max, Bool, true, false, List, [], ◌∷◌, ◌++◌, leb, if◌then◌else◌, unwrap_or, any,
  Text, codes, to_ascii_lowercase, contains, decimal, u32, saturating_mul, saturating_sub,
}
use flexnetos_runner.Shared.Dict
use flexnetos_runner.Shared.Dict.{Dict}

pub data FailureKind : Type 0 where
  kernel_failed kernel_fatal deadline_exceeded idle_timeout loop_tripped malformed : FailureKind
  content_rejected approval_required authority_denied target_denied : FailureKind
  single_flight_denied quarantined : FailureKind

unfoldable pub is_retryable : FailureKind → Bool
is_retryable kernel_failed = true
is_retryable deadline_exceeded = true
is_retryable idle_timeout = true
is_retryable _ = false

unfoldable pub fatal_patterns : List Text
fatal_patterns =
    codes "unauthorized"
    ∷ codes "forbidden"
    ∷ codes "permission denied"
    ∷ codes "access denied"
    ∷ codes "authentication failed"
    ∷ codes "invalid credentials"
    ∷ codes "invalid api key"
    ∷ codes "missing api key"
    ∷ codes "no api key"
    ∷ codes "401"
    ∷ codes "403"
    ∷ []

unfoldable pub classify_kernel_error : Text → FailureKind
classify_kernel_error message =
    if any (λ p. contains p (to_ascii_lowercase message)) fatal_patterns
    then kernel_fatal
    else kernel_failed

pub data RecoveryVerb : Type 0 where
  retry escalate : RecoveryVerb

pub record RecoveryDirective : Type 0 where
  pub action : RecoveryVerb
  pub attempt : ℕ  -- u32
  pub max_retries : ℕ  -- u32
  pub backoff_secs : ℕ  -- u64
  pub reason : Text

summary_of : RecoveryVerb → RecoveryDirective → Text
summary_of retry d =
    codes "recovery=retry (attempt "
    ++ decimal d.attempt
    ++ codes "/"
    ++ decimal d.max_retries
    ++ codes ", back off "
    ++ decimal d.backoff_secs
    ++ codes "s): "
    ++ d.reason
summary_of escalate d = codes "recovery=escalate: " ++ d.reason

unfoldable pub summary : RecoveryDirective → Text
unfolding summary_of
summary d = summary_of d.action d

pub record RecoveryPolicy : Type 0 where
  pub max_retries : ℕ  -- u32
  pub base_backoff_secs : ℕ  -- u64

-- `RecoveryPolicy::new`
unfoldable pub new_policy : ℕ → ℕ → RecoveryPolicy
new_policy max_retries base = record { max_retries = max_retries; base_backoff_secs = max base 1 }

-- `1u64 << shift` with the shift capped at 16, so no bit is lost.
unfoldable pub backoff_for : RecoveryPolicy → ℕ → ℕ
backoff_for p attempt = saturating_mul p.base_backoff_secs (2 ^ min (saturating_sub attempt 1) 16)

-- The attempts of each fingerprint.
pub record RetryLedger : Type 0 where
  pub attempts : Dict ℕ  -- u32

unfoldable pub empty_retry : RetryLedger
empty_retry = record { attempts = [] }

unfoldable pub attempts : RetryLedger → Text → ℕ
attempts l fp = unwrap_or (Dict.get fp l.attempts) 0

unfoldable pub bump : RetryLedger → Text → RetryLedger × ℕ
unfolding attempts
bump l fp =
    let n = u32 (attempts l fp + 1) in (record l { attempts = Dict.insert fp n l.attempts }, n)

unfoldable pub clear : RetryLedger → Text → RetryLedger
clear l fp = record l { attempts = Dict.remove fp l.attempts }

-- The text for a failure that is not retried. The retryable kinds do not come here.
reason_for : FailureKind → Text
reason_for loop_tripped =
    codes
      "runaway-loop breaker tripped — the same work is looping; a human must intervene (open a review PR)"
reason_for malformed =
    codes
      "job is structurally invalid — re-dispatching the same spec cannot succeed; fix the JobSpec or escalate to a human"
reason_for content_rejected =
    codes
      "job content tripped the injection scan — re-dispatching the same spec cannot succeed; a human must review the flagged fields"
reason_for approval_required =
    codes
      "job class requires human approval — a human must approve, then re-dispatch with an approval grant"
reason_for authority_denied =
    codes
      "submitter authority is below the route floor — a higher-authority actor must submit or approve this privileged dispatch"
reason_for target_denied =
    codes
      "routed kernel target is not in the operator allowlist — an operator must update the allowlist or route the work elsewhere"
reason_for single_flight_denied =
    codes
      "mutable target is already owned by an older in-flight job — wait for that job or inspect it before dispatching competing work"
reason_for quarantined =
    codes
      "job fingerprint is quarantined after repeated kernel failures — re-dispatching cannot succeed; a human must investigate and re-arm the runner"
reason_for kernel_fatal =
    codes
      "kernel returned an unrecoverable error (auth / permission / configuration) — re-dispatching the same job cannot succeed; a human must fix the configuration"
reason_for _ = []

cause_of : FailureKind → Text
cause_of deadline_exceeded = codes "deadline exceeded"
cause_of idle_timeout = codes "idle timeout exceeded"
cause_of _ = codes "kernel failed"

escalate_now : RecoveryPolicy → FailureKind → RecoveryDirective
unfolding reason_for
escalate_now p failure = record {
  action = escalate;
  attempt = 0;
  max_retries = p.max_retries;
  backoff_secs = 0;
  reason = reason_for failure;
}

after_attempt : RecoveryPolicy → FailureKind → ℕ → RecoveryDirective
unfolding cause_of
after_attempt p failure attempt =
    if leb attempt p.max_retries
    then record {
      action = retry;
      attempt = attempt;
      max_retries = p.max_retries;
      backoff_secs = backoff_for p attempt;
      reason =
          cause_of failure
          ++ codes " (transient); retry "
          ++ decimal attempt
          ++ codes " of "
          ++ decimal p.max_retries
          ++ codes " after backoff";
    }
    else record {
      action = escalate;
      attempt = attempt;
      max_retries = p.max_retries;
      backoff_secs = 0;
      reason =
          cause_of failure
          ++ codes " "
          ++ decimal attempt
          ++ codes " times (> "
          ++ decimal p.max_retries
          ++ codes " retries) — escalating to human review";
    }

-- The directive for one failure, and the ledger with the attempt counted.
unfoldable pub decide :
    RecoveryPolicy → RetryLedger → Text → FailureKind → RetryLedger × RecoveryDirective
unfolding escalate_now after_attempt is_retryable
decide p l fp failure =
    if is_retryable failure
    then (let (l', attempt) = bump l fp in (l', after_attempt p failure attempt))
    else (l, escalate_now p failure)
