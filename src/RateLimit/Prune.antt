-- ===== src/RateLimit/Prune.antt =====
-- What pruning drops, and what one check does to the times in the window
-- (crates/runner-core/src/ratelimit.rs).
use flexnetos_runner.Shared.{
  ℕ, ◌+◌, ◌≤◌, ◌<◌, ◌≡◌, refl, ◌⊎◌, true, false, ◌&&◌, some, List, [], ◌∷◌, ◌++◌, arith, ltb, leb,
  if◌then◌else◌, length, Text, u32, u64_max,
}
use flexnetos_runner.RateLimit.{RateLimiter, is_denied, drop_old, prune, check}

-- How many of the times are less than a window ago at `t`.
unfoldable pub live : ℕ → ℕ → List ℕ → ℕ
live w t [] = 0
live w t (a ∷ as') = (if ltb t (a + w) then 1 else 0) + live w t as'

-- How many of the times lie in the span of a window that ends at `t`.
unfoldable pub spans : ℕ → ℕ → List ℕ → ℕ
spans w t [] = 0
spans w t (a ∷ as') = (if leb a t && ltb t (a + w) then 1 else 0) + spans w t as'

pub live-append : (w t : ℕ) (xs ys : List ℕ) → live w t (xs ++ ys) ≡ live w t xs + live w t ys
unfolding live
live-append w t [] ys = omega arith
live-append w t (x ∷ xs) ys = omega (arith, live-append w t xs ys)

pub spans-append : (w t : ℕ) (xs ys : List ℕ) → spans w t (xs ++ ys) ≡ spans w t xs + spans w t ys
unfolding spans
spans-append w t [] ys = omega arith
spans-append w t (x ∷ xs) ys = omega (arith, spans-append w t xs ys)

pub spans-le-live : (w t : ℕ) (xs : List ℕ) → spans w t xs ≤ live w t xs
unfolding spans live
spans-le-live w t [] = omega arith
spans-le-live w t (x ∷ xs) = ground (arith, spans-le-live w t xs)

pub live-le-length : (w t : ℕ) (xs : List ℕ) → live w t xs ≤ length xs
unfolding live
live-le-length w t [] = omega arith
live-le-length w t (x ∷ xs) = ground (arith, live-le-length w t xs)

-- Pruning at `now` drops only what is no longer live, then or later.
pub live-drop_old :
    (w now t : ℕ) (xs : List ℕ)
    → now ≤ t
    → now < u64_max
    → live w t (drop_old w now xs) ≡ live w t xs
unfolding live drop_old
live-drop_old w now t [] le fits = refl
live-drop_old w now t (x ∷ xs) le fits = ground (arith, live-drop_old w now t xs le fits)

pub length-drop_old : (w now : ℕ) (xs : List ℕ) → length (drop_old w now xs) ≤ length xs
unfolding drop_old
length-drop_old w now [] = omega arith
length-drop_old w now (x ∷ xs) = ground (arith, length-drop_old w now xs)

module _ (l : RateLimiter) (route : Text) (now cap : ℕ)
    (capped : l.policy.max_per_window ≡ some cap) where
  abbrev kept : List ℕ
  kept = drop_old l.policy.window_secs now l.recent

  -- An admission prunes, finds room and takes a slot.
  pub check_admitted :
      is_denied (check l route now).1 ≡ false
      → ((check l route now).0.recent ≡ kept ++ now ∷ []) × (u32 (length kept) < cap)
  unfolding check prune is_denied
  check_admitted h = ground arith

  -- A refusal adds no time: the times stay or are pruned.
  pub check_denied :
      is_denied (check l route now).1 ≡ true
      → ((check l route now).0.recent ≡ l.recent) ⊎ ((check l route now).0.recent ≡ kept)
  unfolding check prune is_denied
  check_denied h = ground arith

pub policy-check :
    (l : RateLimiter) (route : Text) (now : ℕ) → (check l route now).0.policy ≡ l.policy
unfolding check prune
policy-check l route now = ground arith
