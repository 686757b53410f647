-- ===== src/RateLimit.antt =====
-- The windowed rate limit and the failure cooldown of a route (crates/runner-core/src/ratelimit.rs).
pub mod Prune
pub mod Window
use flexnetos_runner.Shared.{
  ℕ, ◌-◌, max, Bool, true, false, ◌||◌, Option, none, some, List, [], ◌∷◌, ◌++◌, ltb, leb, ◌==◌,
  if◌then◌else◌, is_some, length, Text, codes, decimal, u32, saturating_add, saturating_sub,
}
use flexnetos_runner.Shared.Dict
use flexnetos_runner.Shared.Dict.{Dict}

pub record RateLimitPolicy : Type 0 where
  pub max_per_window : Option ℕ  -- u32
  pub window_secs : ℕ  -- u64
  pub route_cooldown_secs : Option ℕ  -- u64

-- `(n > 0).then_some(n)`
abbrev positive : ℕ → Option ℕ
positive n = if ltb 0 n then some n else none

-- `RateLimitPolicy::new`
unfoldable pub new_policy : ℕ → ℕ → ℕ → RateLimitPolicy
new_policy max_per_window window_secs route_cooldown_secs = record {
  max_per_window = positive max_per_window;
  window_secs = max window_secs 1;
  route_cooldown_secs = positive route_cooldown_secs;
}

unfoldable pub disabled : RateLimitPolicy
unfolding new_policy
disabled = new_policy 0 1 0

unfoldable pub from_env : ℕ → ℕ → ℕ → RateLimitPolicy
unfolding new_policy
from_env max_per_window window_secs route_cooldown_secs =
    new_policy max_per_window (if window_secs == 0 then 60 else window_secs) route_cooldown_secs

unfoldable pub is_active : RateLimitPolicy → Bool
is_active p = is_some p.max_per_window || is_some p.route_cooldown_secs

pub data RateDecision : Type 0 where
  admitted : RateDecision
  -- the reason, and the seconds after which to try again
  denied : Text → ℕ → RateDecision

unfoldable pub is_denied : RateDecision → Bool
is_denied (denied _ _) = true
is_denied admitted = false

unfoldable pub retry_after_secs : RateDecision → ℕ
retry_after_secs admitted = 0
retry_after_secs (denied _ secs) = secs

pub record RateLimiter : Type 0 where
  pub policy : RateLimitPolicy
  -- the times of the admitted dispatches, oldest first
  pub recent : List ℕ
  pub cooldown_until : Dict ℕ

unfoldable pub new_limiter : RateLimitPolicy → RateLimiter
new_limiter p = record { policy = p; recent = []; cooldown_until = [] }

-- The loop of `prune` over the times.
unfoldable pub drop_old : ℕ → ℕ → List ℕ → List ℕ
drop_old window now [] = []
drop_old window now (front ∷ rest) =
    let on = drop_old window now rest in
    if leb (saturating_add front window) now then on else front ∷ rest

unfoldable pub prune : RateLimiter → ℕ → RateLimiter
unfolding drop_old
prune l now = record l { recent = drop_old l.policy.window_secs now l.recent }

-- `self.recent.front().map(..).unwrap_or(window_secs).max(1)`
retry_after : ℕ → ℕ → List ℕ → ℕ
retry_after window now [] = max window 1
retry_after window now (front ∷ _) = max (saturating_sub (saturating_add front window) now) 1

window_text : ℕ → ℕ → Text
window_text cap window =
    codes "dispatch rate limit: "
    ++ decimal cap
    ++ codes " per "
    ++ decimal window
    ++ codes "s window reached"

cooldown_text : Text → ℕ → Text
cooldown_text route secs =
    codes "route `"
    ++ route
    ++ codes "` is in failure cooldown for "
    ++ decimal secs
    ++ codes "s more (automaton error backoff)"

-- Step (2) of `check`, on a limiter that has been pruned.
take_slot : RateLimiter → ℕ → ℕ → RateLimiter × RateDecision
unfolding retry_after window_text
take_slot l cap now =
    if leb cap (u32 (length l.recent))
    then (
      l,
      denied (window_text cap l.policy.window_secs) (retry_after l.policy.window_secs now l.recent),
    )
    else (record l { recent = l.recent ++ now ∷ [] }, admitted)

check_window : Option ℕ → RateLimiter → ℕ → RateLimiter × RateDecision
unfolding take_slot
check_window none l now = (l, admitted)
check_window (some cap) l now = take_slot (prune l now) cap now

-- Step (1) of `check`: a route that cools down is refused, and an expired cooldown is dropped.
check_cooldown : Option ℕ → RateLimiter → Text → ℕ → RateLimiter × RateDecision
unfolding check_window cooldown_text
check_cooldown none l route now = check_window l.policy.max_per_window l now
check_cooldown (some until) l route now =
    if ltb now until
    then (l, denied (cooldown_text route (until - now)) (until - now))
    else check_window l.policy.max_per_window
        (record l { cooldown_until = Dict.remove route l.cooldown_until }) now

unfoldable pub check : RateLimiter → Text → ℕ → RateLimiter × RateDecision
unfolding check_cooldown
check l route now = check_cooldown (Dict.get route l.cooldown_until) l route now

start_cooldown : Option ℕ → RateLimiter → Text → ℕ → RateLimiter
start_cooldown none l route now = l
start_cooldown (some secs) l route now = record l {
  cooldown_until = Dict.insert route (saturating_add now secs) l.cooldown_until;
}

unfoldable pub record_failure : RateLimiter → Text → ℕ → RateLimiter
unfolding start_cooldown
record_failure l route now = start_cooldown l.policy.route_cooldown_secs l route now

unfoldable pub clear_route : RateLimiter → Text → RateLimiter
clear_route l route = record l { cooldown_until = Dict.remove route l.cooldown_until }

unfoldable pub in_window : RateLimiter → ℕ → RateLimiter × ℕ
unfolding prune
in_window l now = (prune l now, length (prune l now).recent)

unfoldable pub cooling_routes : RateLimiter → ℕ
cooling_routes l = length l.cooldown_until
