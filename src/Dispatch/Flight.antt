-- ===== src/Dispatch/Flight.antt =====
-- `handle_request` from the single-flight mutex on: the gates that count a dispatch, the delegation,
-- and what its outcome changes (crates/runner-dispatch/src/main.rs).
pub mod Gates
use flexnetos_runner.Shared.{ℕ, ◌++◌, if◌then◌else◌, Result, ok, err, codes, decimal}
use flexnetos_runner.Dispatch.Steps.{Runner, Step, refuse, refuse_for, put_off, go_on, event_for}
use flexnetos_runner.Events.{Outcome}
use flexnetos_runner.Job.{JobSpec, class}
use flexnetos_runner.LoopGuard
use flexnetos_runner.Recovery.{FailureKind}
use flexnetos_runner.Governor
use flexnetos_runner.Governor.{Governor, Admission, SurvivalTier}
use flexnetos_runner.LoopGuard.{LoopGuard, Verdict, pass, trip}
use flexnetos_runner.RateLimit
use flexnetos_runner.RateLimit.{RateLimiter, RateDecision}
use flexnetos_runner.SingleFlight
use flexnetos_runner.SingleFlight.{SingleFlight, FlightLease, SingleFlightDenied}

module _ (r : Runner) where
  acquired : SingleFlight × Result FlightLease SingleFlightDenied → JobSpec → Step r FlightLease
  acquired (flights, ok lease) job s = go_on lease (record s { singleflight = flights })
  acquired (flights, err denied) job s =
      refuse_for (event_for r Outcome.single_flight_denied job) job FailureKind.single_flight_denied
        (codes "single-flight target `"
          ++ denied.target.name
          ++ codes "` is already held by older job `"
          ++ denied.holder_job_id
          ++ codes "` (seq "
          ++ decimal denied.holder_sequence
          ++ codes "); incoming job `"
          ++ denied.incoming_job_id
          ++ codes "` (seq "
          ++ decimal denied.incoming_sequence
          ++ codes ") waits/escalates")
        (record s { singleflight = flights })

  unfoldable pub acquire_gate : JobSpec → Step r FlightLease
  unfolding acquired
  acquire_gate job s = acquired (SingleFlight.try_acquire s.singleflight job) job s

  rated : RateLimiter × RateDecision → JobSpec → Step r (Unit {0})
  rated (limiter, RateLimit.admitted) job s = go_on tt (record s { rate_limiter = limiter })
  rated (limiter, RateLimit.denied reason retry_after_secs) job s =
      put_off (event_for r Outcome.rate_limited job) reason retry_after_secs
        (record s { rate_limiter = limiter })

  unfoldable pub rate_gate : JobSpec → ℕ → Step r (Unit {0})
  unfolding rated
  rate_gate job now s =
      if RateLimit.is_active s.rate_limiter.policy
      then rated (RateLimit.check s.rate_limiter (class job.job) now) job s
      else go_on tt s

  looped : LoopGuard × Verdict → JobSpec → Step r (Unit {0})
  looped (guard, pass) job s = go_on tt (record s { guard = guard })
  looped (guard, trip count) job s =
      refuse_for (event_for r Outcome.loop_tripped job) job FailureKind.loop_tripped
        (codes "loop breaker tripped: identical job dispatched "
          ++ decimal count
          ++ codes "x within the recent window (runaway-loop guard)")
        (record s { guard = guard })

  unfoldable pub loop_gate : JobSpec → Step r (Unit {0})
  unfolding looped
  loop_gate job s = looped (LoopGuard.observe r.ex s.guard job) job s

  budgeted : Governor × Admission → JobSpec → Step r (Unit {0})
  budgeted (governor, Governor.admitted) job s = go_on tt (record s { governor = governor })
  budgeted (governor, Governor.denied reason) job s =
      refuse (event_for r Outcome.budget_denied job)
        (reason ++ codes " (bounded-autonomy kill-switch); re-arm the runner to continue")
        (record s { governor = governor })

  unfoldable pub budget_gate : JobSpec → Step r (Unit {0})
  unfolding budgeted
  budget_gate job s = budgeted (Governor.admit r.fl s.governor) job s
