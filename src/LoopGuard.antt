-- ===== src/LoopGuard.antt =====
-- The circuit breaker for runaway loops (crates/runner-core/src/loopguard.rs).
pub mod History
use flexnetos_runner.Shared.{
  ℕ, suc, min, max, Bool, true, false, List, [], ◌∷◌, ◌++◌, ltb, leb, if◌then◌else◌, length, drop,
  Text, text_eq,
}
use flexnetos_runner.External.{External}
use flexnetos_runner.Job.{JobSpec}

-- The fingerprint of a job's kind, without its ids.
unfoldable pub fingerprint : External → JobSpec → Text
fingerprint ex job = ex.hex_encode (ex.sha256 (ex.kind_json job.job))

pub data Verdict : Type 0 where
  pass : Verdict
  trip : ℕ → Verdict

unfoldable pub is_tripped : Verdict → Bool
is_tripped (trip _) = true
is_tripped pass = false

pub record LoopGuard : Type 0 where
  pub window : ℕ  -- usize
  pub trip_threshold : ℕ  -- usize
  pub recent : List Text

-- `LoopGuard::new`; `n.clamp(1, w)` is `min (max n 1) w` for `1 ≤ w`.
unfoldable pub new_guard : ℕ → ℕ → LoopGuard
new_guard window trip_threshold = record {
  window = max window 1;
  trip_threshold = min (max trip_threshold 1) (max window 1);
  recent = [];
}

unfoldable pub default_guard : LoopGuard
unfolding new_guard
default_guard = new_guard 8 4

unfoldable pub occurrences : Text → List Text → ℕ
occurrences fp [] = 0
occurrences fp (f ∷ fs) = let rest = occurrences fp fs in if text_eq f fp then suc rest else rest

-- `push_back`, and `pop_front` if the window is exceeded
unfoldable pub remember : ℕ → List Text → Text → List Text
remember window recent fp =
    if ltb window (length (recent ++ fp ∷ []))
    then drop 1 (recent ++ fp ∷ [])
    else recent ++ fp ∷ []

verdict : ℕ → ℕ → Verdict
verdict threshold count = if leb threshold count then trip count else pass

unfoldable pub observe_text : LoopGuard → Text → LoopGuard × Verdict
unfolding verdict remember
observe_text g fp =
    let recent = remember g.window g.recent fp in
    (record g { recent = recent }, verdict g.trip_threshold (occurrences fp recent))

unfoldable pub observe : External → LoopGuard → JobSpec → LoopGuard × Verdict
unfolding observe_text
observe ex g job = observe_text g (fingerprint ex job)
