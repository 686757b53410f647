-- ===== src/Recovery/Attempts.antt =====
-- The directives of a fingerprint's failures in their order (crates/runner-core/src/recovery.rs).
use flexnetos_runner.Shared.{
  ℕ, ◌+◌, ◌-◌, ◌*◌, ◌^◌, ◌≤◌, ◌<◌, min, max, ◌≡◌, true, false, arith, leb, if◌then◌else◌, Text,
  text_eq, u32, saturating_mul,
}
use native.Mathlib.Nat.{one-le-pow, pow-le-pow_right}
use flexnetos_runner.Shared.Dict.Laws.{get-insert, get-remove}
use flexnetos_runner.Recovery.{
  RecoveryPolicy, RetryLedger, FailureKind, is_retryable, attempts, bump, after_attempt, clear,
  decide, retry, escalate, backoff_for, new_policy,
}

attempts-bump :
    (l : RetryLedger) (f fp : Text)
    → attempts (bump l f).0 fp ≡ (if text_eq f fp then u32 (attempts l f + 1) else attempts l fp)
unfolding bump attempts
attempts-bump l f fp = ground (arith, get-insert f fp (u32 (attempts l f + 1)) l.attempts)

-- A clean delegation forgets its own fingerprint and no other.
pub attempts-clear :
    (l : RetryLedger) (f fp : Text)
    → attempts (clear l f) fp ≡ (if text_eq f fp then 0 else attempts l fp)
unfolding clear attempts
attempts-clear l f fp = ground (arith, get-remove f fp l.attempts)

module _ (p : RecoveryPolicy) (k : FailureKind) (n : ℕ) where
  split_action : (after_attempt p k n).action ≡ (if leb n p.max_retries then retry else escalate)
  unfolding after_attempt
  split_action = ground arith

  split_backoff :
      (after_attempt p k n).backoff_secs ≡ (if leb n p.max_retries then backoff_for p n else 0)
  unfolding after_attempt
  split_backoff = ground arith

  split_attempt : (after_attempt p k n).attempt ≡ n
  unfolding after_attempt
  split_attempt = ground arith

  split_max : (after_attempt p k n).max_retries ≡ p.max_retries
  unfolding after_attempt
  split_max = ground arith

-- A retryable failure after `n` counted ones, with 2 ^ 32 out of reach: up to the ceiling it is a
-- retry, with the policy's backoff for that attempt; past it, an escalation without a wait. Both carry
-- the new count, the ceiling, and leave the other fingerprints' counts alone.
decide-retryable :
    (p : RecoveryPolicy) (l : RetryLedger) (fp : Text) (k : FailureKind)
    → is_retryable k ≡ true
    → attempts l fp + 1 < 4294967296
    → let (l', d) = decide p l fp k in
      let n = attempts l fp + 1 in
      (d.action ≡ (if leb n p.max_retries then retry else escalate))
      × (d.backoff_secs ≡ (if leb n p.max_retries then backoff_for p n else 0))
      × (d.attempt ≡ n)
      × (d.max_retries ≡ p.max_retries)
      × ((j : Text) → attempts l' j ≡ (if text_eq fp j then n else attempts l j))
unfolding decide bump
decide-retryable p l fp k can small =
    let e : u32 (attempts l fp + 1) ≡ attempts l fp + 1 = omega arith in
    rw (can, e)
      (
        split_action p k (attempts l fp + 1),
        split_backoff p k (attempts l fp + 1),
        split_attempt p k (attempts l fp + 1),
        split_max p k (attempts l fp + 1),
        λ j. ground (arith, attempts-bump l fp j),
      )

-- A failure that is not retryable escalates at once, and counts nothing.
pub decide-fatal :
    (p : RecoveryPolicy) (l : RetryLedger) (fp : Text) (k : FailureKind)
    → is_retryable k ≡ false
    → let (l', d) = decide p l fp k in
      (l' ≡ l) × (d.action ≡ escalate) × (d.attempt ≡ 0) × (d.backoff_secs ≡ 0)
unfolding decide
decide-fatal p l fp k cannot = ground arith

mul_mono : (m x y : ℕ) → x ≤ y → m * x ≤ m * y
mul_mono m x y h = grind arith

scaled :
    (m x y : ℕ)
    → 1 ≤ m
    → 1 ≤ x
    → x ≤ 65536
    → x ≤ y
    → (1 ≤ saturating_mul m x)
      × (saturating_mul m x ≤ m * 65536)
      × (saturating_mul m x ≤ saturating_mul m y)
scaled m x y pos one small le =
    omega (arith, mul_mono m 1 x one, mul_mono m x 65536 small, mul_mono m x y le)

-- The policy's waits are between one second and 65536 times the base, which counts as at least 1,
-- and do not shrink as the attempt grows.
backoff_bounds :
    (retries base attempt : ℕ)
    → (1 ≤ backoff_for (new_policy retries base) attempt)
      × (backoff_for (new_policy retries base) attempt ≤ max base 1 * 65536)
      × (backoff_for (new_policy retries base) attempt
          ≤ backoff_for (new_policy retries base) (attempt + 1))
unfolding backoff_for new_policy
backoff_bounds retries base attempt =
    scaled (max base 1) (2 ^ min (attempt - 1) 16) (2 ^ min (attempt + 1 - 1) 16) (omega arith)
      (one-le-pow (min (attempt - 1) 16) 2 (omega arith))
      (pow-le-pow_right {n = 2} (omega arith) {i = min (attempt - 1) 16} {j = 16} (omega arith))
      (pow-le-pow_right {n = 2} (omega arith) {i = min (attempt - 1) 16}
        {j = min (attempt + 1 - 1) 16} (omega arith))
