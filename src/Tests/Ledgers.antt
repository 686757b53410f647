-- ===== src/Tests/Ledgers.antt =====
-- The theorems on the governor, the limiter and the ledgers, applied to concrete runs.
use flexnetos_runner.Shared.{
  ◌+◌, ◌≤◌, ◌<◌, ◌≡◌, refl, inl, true, ◌&&◌, none, some, List, [], ◌∷◌, ◌++◌, arith, leb,
  if◌then◌else◌, err, Text, codes,
}
use flexnetos_runner.Governor.{Governor, with_budget, admit, is_denied, tier}
use flexnetos_runner.Governor.Admit.{denied_iff}
use flexnetos_runner.Governor.Bounds
use flexnetos_runner.Governor.Bounds.{granted, granted_bounded, refusal_latches}
use flexnetos_runner.Governor.Tier.{zero_cap_tier}
use flexnetos_runner.LoopGuard.{new_guard, observe_text, trip, pass, occurrences}
use flexnetos_runner.LoopGuard.History.{observe_all, last_of, verdict_exact}
use flexnetos_runner.Quarantine.{QuarantinePolicy, is_active, is_quarantined, empty_ledger}
use flexnetos_runner.Quarantine.Latch
use flexnetos_runner.Quarantine.Latch.{Counts, after, streak, quarantined_exact}
use flexnetos_runner.RateLimit.{RateLimitPolicy, new_limiter}
use flexnetos_runner.RateLimit.Prune.{spans}
use flexnetos_runner.RateLimit.Window
use flexnetos_runner.RateLimit.Window.{admits, window_bounded}
use flexnetos_runner.Recovery
use flexnetos_runner.Recovery.{
  FailureKind, attempts, decide, backoff_for, empty_retry, retry, escalate, is_retryable,
}
use flexnetos_runner.Shared.Dict
use flexnetos_runner.Shared.Floats.Fixed.{fixed_point}
use flexnetos_runner.SingleFlight.{SingleFlightDenied, empty_flights, for_job, try_acquire}
use flexnetos_runner.SingleFlight.Exclusion
use flexnetos_runner.SingleFlight.Exclusion.{
  holder, lease_for, flight_for, denial, second_denied, older_wins,
}
use flexnetos_runner.Tests.Demo.{budget, job_for}

-- A governor at its cap, with its grace used.
abbrev spent_out : Governor
spent_out = record {
  budget = record { jobs = some 1; tokens = none; usd_micros = none; grace = 0 };
  spent = record { jobs = 1; cost = record { tokens = 9; usd_micros = 0 }; grace_used = 0 };
}

abbrev charges : List Bounds.Op
charges = Bounds.ask ∷ Bounds.pay (record { tokens = 3; usd_micros = 1 }) ∷ Bounds.ask ∷ []

granted_bounded_example : granted fixed_point (with_budget budget) charges ≤ 2 + 1
granted_bounded_example = granted_bounded fixed_point budget 2 charges refl (omega arith)

denied_now : is_denied (admit fixed_point spent_out).1 ≡ true
denied_now = (denied_iff fixed_point spent_out).1 (inl (omega arith), omega arith)

refusal_latches_example : granted fixed_point (admit fixed_point spent_out).0 charges ≡ 0
refusal_latches_example =
    refusal_latches fixed_point spent_out charges
      (record { tokens = omega arith; usd_micros = omega arith }) denied_now

abbrev capped_at_zero : Governor
capped_at_zero = with_budget (record { jobs = some 0; tokens = none; usd_micros = none; grace = 0 })

zero_cap_tier_example :
    (is_denied (admit fixed_point capped_at_zero).1 ≡ true)
    × (tier fixed_point capped_at_zero
        ≡ tier fixed_point
            (record capped_at_zero { budget = record capped_at_zero.budget { jobs = none } }))
zero_cap_tier_example =
    zero_cap_tier fixed_point capped_at_zero (unfold with_budget in refl)
      (unfold with_budget in omega arith)

abbrev a : Text
a = codes "a"

abbrev b : Text
b = codes "b"

verdict_exact_example :
    let g = new_guard 4 2 in
    let seen = occurrences a (last_of g.window ((a ∷ b ∷ []) ++ a ∷ [])) in
    (observe_text (observe_all g (a ∷ b ∷ [])) a).1
    ≡ (if leb g.trip_threshold seen then trip seen else pass)
verdict_exact_example = verdict_exact 4 2 (a ∷ b ∷ []) a

abbrev twice : QuarantinePolicy
twice = record { threshold = 2 }

abbrev reports : List Latch.Report
reports = Latch.failure a ∷ Latch.clean a ∷ Latch.failure a ∷ Latch.failure b ∷ Latch.failure a ∷ []

quarantined_exact_example :
    is_quarantined (after twice empty_ledger reports) a
    ≡ (is_active twice && leb twice.threshold (streak a 0 reports))
quarantined_exact_example = quarantined_exact twice reports a (omega arith)

abbrev limits : RateLimitPolicy
limits = record { max_per_window = some 2; window_secs = 60; route_cooldown_secs = some 5 }

abbrev arrivals : List Window.Op
arrivals =
    Window.request a 0
    ∷ Window.request a 1
    ∷ Window.fail a 1
    ∷ Window.request b 2
    ∷ Window.release a
    ∷ Window.request a 61
    ∷ []

window_bounded_example : spans limits.window_secs 2 (admits (new_limiter limits) arrivals) ≤ 2
window_bounded_example =
    window_bounded limits 2 arrivals refl (omega arith)
      (
        omega arith,
        omega arith,
        (omega arith, omega arith, (omega arith, omega arith, (omega arith, omega arith, tt))),
      )
      2

abbrev retries : Recovery.RecoveryPolicy
retries = Recovery.new_policy 3 5

free_at_first : holder empty_flights (for_job (job_for a)) ≡ none
unfolding empty_flights Dict.get
free_at_first = refl

taken :
    (try_acquire (try_acquire empty_flights (job_for a)).0 (job_for b)).1
    ≡ err (
        denial
          (try_acquire empty_flights (job_for a)).0
          (job_for b)
          (flight_for empty_flights (job_for a)))
unfolding for_job
taken = second_denied empty_flights (job_for a) (job_for b) free_at_first refl

abbrev first_taken : SingleFlightDenied
first_taken =
    denial (try_acquire empty_flights (job_for a)).0 (job_for b)
      (flight_for empty_flights (job_for a))

older_wins_example : first_taken.holder_sequence < first_taken.incoming_sequence
older_wins_example =
    older_wins (Exclusion.acquire (job_for a) ∷ []) (job_for b) first_taken (omega arith)
      (unfold Exclusion.after in taken)
