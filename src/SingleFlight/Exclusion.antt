-- ===== src/SingleFlight/Exclusion.antt =====
-- One holder for each target, the older one, and the release of a lease
-- (crates/runner-core/src/singleflight.rs).
use flexnetos_runner.Shared.{
  ◌+◌, ◌<◌, ◌≡◌, refl, sym, ap, ◌∙◌, inl, inr, true, ◌&&◌, Option, none, some, List, [], ◌∷◌, arith,
  if◌then◌else◌, ok, err, length, Option-cases, text_eq_iff, text_eq_refl, text_eq, ok≢err,
  err-injective, ==_iff, u64_max, saturating_add,
}
use flexnetos_runner.Shared.Dict
use flexnetos_runner.Shared.Dict.Laws.{get-insert, get-remove}
use flexnetos_runner.Job.{JobSpec}
use flexnetos_runner.SingleFlight.{
  SingleFlight, TargetKey, ActiveFlight, FlightLease, SingleFlightDenied, empty_flights, for_job,
  try_acquire, release,
}

abbrev pub holder : SingleFlight → TargetKey → Option ActiveFlight
holder s k = Dict.get k.name s.active

-- The lease and the entry that an acquisition makes.
abbrev pub lease_for : SingleFlight → JobSpec → FlightLease
lease_for s job = record { target = for_job job; job_id = job.id; sequence = s.next_sequence }

abbrev pub flight_for : SingleFlight → JobSpec → ActiveFlight
flight_for s job = record { job_id = job.id; sequence = s.next_sequence }

abbrev pub denial : SingleFlight → JobSpec → ActiveFlight → SingleFlightDenied
denial s job f = record {
  target = for_job job;
  holder_job_id = f.job_id;
  holder_sequence = f.sequence;
  incoming_job_id = job.id;
  incoming_sequence = s.next_sequence;
}

-- On a free target the job gets a lease under the next number and becomes the holder. The other
-- targets keep their holders.
pub acquire_free :
    (s : SingleFlight) (job : JobSpec)
    → holder s (for_job job) ≡ none
    → let (s', x) = try_acquire s job in
      (x ≡ ok (lease_for s job))
      × ((k : TargetKey)
          → holder s' k
            ≡ (if text_eq (for_job job).name k.name then some (flight_for s job) else holder s k))
unfolding try_acquire
acquire_free s job free =
    rw free (refl, λ k. get-insert (for_job job).name k.name (flight_for s job) s.active)

-- On a held target the job is refused with the holder's name and number, and no holder changes.
pub acquire_held :
    (s : SingleFlight) (job : JobSpec) (f : ActiveFlight)
    → holder s (for_job job) ≡ some f
    → let (s', x) = try_acquire s job in (x ≡ err (denial s job f)) × (s'.active ≡ s.active)
unfolding try_acquire
acquire_held s job f held = rw held (refl, refl)

next_sequence-try_acquire :
    (s : SingleFlight) (job : JobSpec)
    → (try_acquire s job).0.next_sequence ≡ saturating_add s.next_sequence 1
unfolding try_acquire
next_sequence-try_acquire s job = ground arith

-- When the first job's target was free, a second job for the same target, right after the first has
-- acquired it, is refused and told of the first one.
pub second_denied :
    (s : SingleFlight) (a b : JobSpec)
    → holder s (for_job a) ≡ none
    → for_job b ≡ for_job a
    → (try_acquire (try_acquire s a).0 b).1 ≡ err (denial (try_acquire s a).0 b (flight_for s a))
second_denied s a b free same =
    (acquire_held (try_acquire s a).0 b (flight_for s a) (
      ap (holder (try_acquire s a).0) same
      ∙ ((acquire_free s a free).1 (for_job a)
          ∙ ap (λ t. if t then some (flight_for s a) else holder s (for_job a))
              (text_eq_refl (for_job a).name)))).0

release_lem :
    (s : SingleFlight) (lease : FlightLease) (k : TargetKey)
    → holder (release s lease).0 k
      ≡ (if (release s lease).1 && text_eq lease.target.name k.name then none else holder s k)
unfolding release
release_lem s lease k = ground (arith, get-remove lease.target.name k.name s.active)

release-holder :
    (s : SingleFlight) (lease : FlightLease)
    → holder s lease.target ≡ some (record { job_id = lease.job_id; sequence = lease.sequence })
    → (release s lease).1 ≡ true
unfolding release
release-holder s lease held =
    rw held (ground (arith, text_eq_refl lease.job_id, ==_iff lease.sequence lease.sequence))

-- Releasing the lease of an acquisition of a free target succeeds and gives every target its holder
-- of before. This holds on any state whose table of flights is the one after the acquisition.
pub release-acquire :
    (s t : SingleFlight) (job : JobSpec)
    → holder s (for_job job) ≡ none
    → t.active ≡ (try_acquire s job).0.active
    → ((release t (lease_for s job)).1 ≡ true)
      × ((k : TargetKey) → holder (release t (lease_for s job)).0 k ≡ holder s k)
release-acquire s t job free same =
    let key : TargetKey = for_job job in
    let held : holder t key ≡ some (flight_for s job) =
      ap (Dict.get key.name) same
      ∙ ((acquire_free s job free).1 key
          ∙ ap (λ b. if b then some (flight_for s job) else holder s key)
              (text_eq_refl key.name)) in
    let released : (release t (lease_for s job)).1 ≡ true =
      release-holder t (lease_for s job) held in
    (
      released,
      λ k. ground (
        arith,
        released,
        release_lem t (lease_for s job) k,
        (acquire_free s job free).1 k,
        ap (Dict.get k.name) same,
        text_eq_iff key.name k.name,
        λ (e : key.name ≡ k.name). ap (λ n. Dict.get n s.active) e,
        free,
      ),
    )

-- Every holder was numbered before the number that comes next.
record IsOrdered (s : SingleFlight) : Type 0 where
  older : (k : TargetKey) (f : ActiveFlight) → holder s k ≡ some f → f.sequence < s.next_sequence

IsOrdered-empty : IsOrdered empty_flights
unfolding empty_flights Dict.get
IsOrdered-empty = record { older = λ k f h. cc }

try_acquire-IsOrdered :
    (s : SingleFlight) (job : JobSpec)
    → s.next_sequence < u64_max
    → IsOrdered s
    → IsOrdered (try_acquire s job).0
try_acquire-IsOrdered s job room h = elim (Option-cases (holder s (for_job job))) [
  | inl free ↦ record {
    older = λ k f p.
        ground
          (arith, h.older k f, (acquire_free s job free).1 k, next_sequence-try_acquire s job, p);
  }
  | inr (g, held) ↦ record {
    older = λ k f p.
        let same : holder (try_acquire s job).0 k ≡ holder s k =
          ap (Dict.get k.name) (acquire_held s job g held).1 in
        omega (arith, h.older k f (sym same ∙ p), next_sequence-try_acquire s job);
  }
]

next_sequence-release :
    (s : SingleFlight) (lease : FlightLease) → (release s lease).0.next_sequence ≡ s.next_sequence
unfolding release
next_sequence-release s lease = ground arith

release-IsOrdered :
    (s : SingleFlight) (lease : FlightLease) → IsOrdered s → IsOrdered (release s lease).0
release-IsOrdered s lease h = record {
  older =
      λ k f p. ground (arith, h.older k f, release_lem s lease k, next_sequence-release s lease, p);
}

pub data Op : Type 0 where
  acquire : JobSpec → Op
  give_back : FlightLease → Op

unfoldable pub after : SingleFlight → List Op → SingleFlight
after s [] = s
after s (acquire job ∷ ops) = after (try_acquire s job).0 ops
after s (give_back lease ∷ ops) = after (release s lease).0 ops

after-IsOrdered :
    (s : SingleFlight) (ops : List Op)
    → s.next_sequence + length ops < u64_max
    → IsOrdered s
    → IsOrdered (after s ops)
unfolding after
after-IsOrdered s [] room h = h
after-IsOrdered s (acquire job ∷ ops) room h =
    after-IsOrdered (try_acquire s job).0 ops (omega (arith, next_sequence-try_acquire s job))
      (try_acquire-IsOrdered s job (omega arith) h)
after-IsOrdered s (give_back lease ∷ ops) room h =
    after-IsOrdered (release s lease).0 ops (omega (arith, next_sequence-release s lease))
      (release-IsOrdered s lease h)

-- After any acquisitions and releases from the empty ledger, fewer than 2 ^ 64 - 1 of them, a refusal
-- names a holder that is older than the job that is refused.
pub older_wins :
    (ops : List Op) (job : JobSpec) (d : SingleFlightDenied)
    → length ops < u64_max
    → (try_acquire (after empty_flights ops) job).1 ≡ err d
    → d.holder_sequence < d.incoming_sequence
older_wins ops job d room h =
    let s : SingleFlight = after empty_flights ops in
    elim (Option-cases (holder s (for_job job))) [
      | inl free ↦ absurd (ok≢err (sym (acquire_free s job free).0 ∙ h))
      | inr (f, held) ↦
          let e : denial s job f ≡ d = err-injective (sym (acquire_held s job f held).0 ∙ h) in
          rw (← e) (
            (after-IsOrdered empty_flights ops (unfold empty_flights in omega arith)
                IsOrdered-empty).older
              (for_job job) f held)
    ]
