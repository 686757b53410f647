-- ===== src/Deadline.antt =====
-- The wall-clock deadline and the idle timeout of a job (crates/runner-core/src/deadline.rs and
-- crates/runner-core/src/liveness.rs). A duration is its number of whole seconds.
pub mod Tighter
use flexnetos_runner.Shared.{
  ℕ, min, Bool, Option, none, some, ltb, if◌then◌else◌, filter_some, is_some,
}

pub record DeadlinePolicy : Type 0 where
  pub default_secs : Option ℕ

-- `secs.filter(|s| *s > 0)`
abbrev pub requested : Option ℕ → Option ℕ
requested o = filter_some (λ s. ltb 0 s) o

-- `DeadlinePolicy::new`
unfoldable pub new_policy : Option ℕ → DeadlinePolicy
new_policy secs = record { default_secs = requested secs }

unfoldable pub from_secs : ℕ → DeadlinePolicy
unfolding new_policy
from_secs secs = new_policy (some secs)

unfoldable pub disabled : DeadlinePolicy
disabled = record { default_secs = none }

unfoldable pub is_active : DeadlinePolicy → Bool
is_active p = is_some p.default_secs

tighter : Option ℕ → Option ℕ → Option ℕ
tighter (some cap) (some req) = some (min cap req)
tighter (some cap) none = some cap
tighter none (some req) = some req
tighter none none = none

unfoldable pub effective : DeadlinePolicy → Option ℕ → Option ℕ
unfolding tighter
effective p job_requested = tighter p.default_secs (requested job_requested)

pub record LivenessPolicy : Type 0 where
  pub default_secs : Option ℕ

unfoldable pub liveness_from_secs : ℕ → LivenessPolicy
liveness_from_secs secs = record { default_secs = if ltb 0 secs then some secs else none }

unfoldable pub effective_idle : LivenessPolicy → Option ℕ → Option ℕ
unfolding tighter
effective_idle p secs = tighter p.default_secs (requested secs)
