-- ===== src/SingleFlight.antt =====
-- The mutex of one job for each mutable target (crates/runner-core/src/singleflight.rs).
pub mod Exclusion
use flexnetos_runner.Shared.{
  ℕ, Bool, true, false, ◌&&◌, Option, none, some, [], ◌==◌, if◌then◌else◌, Result, ok, err, length,
  Text, text_eq, trim, to_ascii_lowercase, saturating_add,
}
use flexnetos_runner.Shared.Dict
use flexnetos_runner.Shared.Dict.{Dict}
use flexnetos_runner.Job.{JobKind, ci, review_gate, agent_task, loop_cycle, JobSpec}

-- A repository's name, trimmed and in lower case.
pub record TargetKey : Type 0 where
  pub name : Text

unfoldable pub new_key : Text → TargetKey
new_key raw = record { name = to_ascii_lowercase (trim raw) }

repo_of : JobKind → Text
repo_of (ci repo _) = repo
repo_of (review_gate repo _ _ _) = repo
repo_of (agent_task repo _ _) = repo
repo_of (loop_cycle repo _) = repo

unfoldable pub for_job : JobSpec → TargetKey
unfolding repo_of
for_job job = new_key (repo_of job.job)

pub record ActiveFlight : Type 0 where
  pub job_id : Text
  pub sequence : ℕ  -- u64

pub record FlightLease : Type 0 where
  pub target : TargetKey
  pub job_id : Text
  pub sequence : ℕ

pub record SingleFlightDenied : Type 0 where
  pub target : TargetKey
  pub holder_job_id : Text
  pub holder_sequence : ℕ
  pub incoming_job_id : Text
  pub incoming_sequence : ℕ

pub record SingleFlight : Type 0 where
  pub active : Dict ActiveFlight
  pub next_sequence : ℕ  -- u64

unfoldable pub empty_flights : SingleFlight
empty_flights = record { active = []; next_sequence = 0 }

unfoldable pub active_len : SingleFlight → ℕ
active_len s = length s.active

acquire_on :
    Option ActiveFlight
    → SingleFlight
    → TargetKey
    → ℕ
    → Text
    → SingleFlight × Result FlightLease SingleFlightDenied
acquire_on (some holder) s target sequence job_id = (
  s,
  err (record {
    target = target;
    holder_job_id = holder.job_id;
    holder_sequence = holder.sequence;
    incoming_job_id = job_id;
    incoming_sequence = sequence;
  }),
)
acquire_on none s target sequence job_id = (
  record s {
    active = Dict.insert target.name (record { job_id = job_id; sequence = sequence }) s.active;
  },
  ok (record { target = target; job_id = job_id; sequence = sequence }),
)

unfoldable pub try_acquire :
    SingleFlight → JobSpec → SingleFlight × Result FlightLease SingleFlightDenied
unfolding acquire_on
try_acquire s job =
    let target = for_job job in
    acquire_on (Dict.get target.name s.active)
      (record s { next_sequence = saturating_add s.next_sequence 1 }) target s.next_sequence job.id

release_on : Option ActiveFlight → SingleFlight → FlightLease → SingleFlight × Bool
release_on none s lease = (s, false)
release_on (some holder) s lease =
    if text_eq holder.job_id lease.job_id && holder.sequence == lease.sequence
    then (record s { active = Dict.remove lease.target.name s.active }, true)
    else (s, false)

unfoldable pub release : SingleFlight → FlightLease → SingleFlight × Bool
unfolding release_on
release s lease = release_on (Dict.get lease.target.name s.active) s lease
