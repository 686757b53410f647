-- ===== src/Deadline/Tighter.antt =====
-- The limit that applies to a job (crates/runner-core/src/deadline.rs and
-- crates/runner-core/src/liveness.rs).
use flexnetos_runner.Shared.{ℕ, ◌≤◌, ◌≡◌, refl, ◌⊎◌, inl, inr, Option, none, some, arith}
use flexnetos_runner.Deadline.{
  DeadlinePolicy, LivenessPolicy, requested, tighter, effective, effective_idle,
}

-- A limit is one of the two that are set, and the tightest of them.
abbrev pub IsTightest : Option ℕ → Option ℕ → Option ℕ → Type 0
IsTightest a b none = (a ≡ none) × (b ≡ none)
IsTightest a b (some s) =
    ((a ≡ some s) ⊎ (b ≡ some s)) × ((m : ℕ) → a ≡ some m → s ≤ m) × ((m : ℕ) → b ≡ some m → s ≤ m)

tighter_lem : (a b : Option ℕ) → IsTightest a b (tighter a b)
unfolding tighter
tighter_lem none none = (refl, refl)
tighter_lem none (some b) = (inr refl, λ m h. cc, λ m h. ground arith)
tighter_lem (some a) none = (inl refl, λ m h. ground arith, λ m h. cc)
tighter_lem (some a) (some b) = (ground arith, λ m h. ground arith, λ m h. ground arith)

-- The deadline of a job is the tightest of the operator's and the requested one, where a request of 0
-- counts as none, and there is none only if neither is set. The idle timeout is chosen in the same way.
pub effective-IsTightest :
    (d : DeadlinePolicy) (l : LivenessPolicy) (request : Option ℕ)
    → IsTightest d.default_secs (requested request) (effective d request)
      × IsTightest l.default_secs (requested request) (effective_idle l request)
unfolding effective effective_idle
effective-IsTightest d l request =
    (tighter_lem d.default_secs (requested request), tighter_lem l.default_secs (requested request))
