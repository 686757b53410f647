-- ===== src/Dispatch/Turns.antt =====
-- What a gate of the handler may do: go on, or answer with one refusal
-- (`handle_request` of crates/runner-dispatch/src/main.rs).
use flexnetos_runner.Shared.{
  ℕ, ◌≡◌, refl, sym, ◌⊎◌, inl, inr, true, false, not, none, ◌++◌, arith, Result, ok, err, Text,
  codes,
}
use flexnetos_runner.Dispatch.Steps.{
  Runner, State, Step, ◌>>=◌, emit, refuse, refuse_with, refuse_for, put_off, event_for,
}
use flexnetos_runner.Events
use flexnetos_runner.Events.{
  DispatchEvent, Outcome, EventCategory, policy, category, denied_by, is_rejection,
}
use flexnetos_runner.Job.{JobSpec}
use flexnetos_runner.LoopGuard
use flexnetos_runner.Recovery
use flexnetos_runner.Recovery.{RecoveryDirective, FailureKind, is_retryable, decide}
use flexnetos_runner.Recovery.Attempts.{decide-fatal}
use flexnetos_runner.Wire.Frame.{DispatchResponse, rejected, with_recovery}

module _ (r : Runner) where
  -- The answer and its audit event say the same.
  pub record Agrees (resp : DispatchResponse) (e : DispatchEvent r.fl) : Type 0 where
    pub accepted : resp.accepted ≡ not (is_rejection e.outcome)
    pub error : is_rejection e.outcome ≡ true → resp.error ≡ e.detail
    pub recovery : resp.recovery ≡ e.recovery
    pub cited : e.cited ≡ denied_by e.outcome

  -- A refusal of a gate, and not a failure of the kernel.
  pub record IsRefusal (resp : DispatchResponse) (e : DispatchEvent r.fl) : Type 0 where
    pub agrees : Agrees resp e
    pub policy : category e.outcome ≡ policy

  -- From the state `s`, a gate either goes on in `t` with a value that meets `P`, or it emits one event
  -- in `t` and answers.
  abbrev pub Gate :
      {A : Type 0} → Result A DispatchResponse × State r → State r → (A → Type 0) → Type 0
  Gate {A} x t P =
      ((a : A) × (x ≡ (ok a, t)) × P a)
      ⊎ ((resp : DispatchResponse) × (e : DispatchEvent r.fl) × (x ≡ (err resp, emit e t))
          × IsRefusal resp e
          × ((a : A) → P a → ⊥))

  -- The base of a refusal's event.
  pub record IsBase (e : DispatchEvent r.fl) : Type 0 where
    pub policy : category e.outcome ≡ policy
    pub recovery : e.recovery ≡ none
    pub cited : e.cited ≡ denied_by e.outcome

  pub policy-is_rejection : (o : Outcome) → category o ≡ policy → is_rejection o ≡ true
  unfolding category is_rejection
  policy-is_rejection o h = ground arith

  pub refuse-Gate :
      {A : Type 0} (P : A → Type 0) (e : DispatchEvent r.fl) (detail : Text) (s : State r)
      → IsBase e
      → ((a : A) → P a → ⊥)
      → Gate (refuse e detail s) s P
  unfolding refuse rejected Events.with_detail
  refuse-Gate P e detail s h unmet = inr (
    rejected detail,
    Events.with_detail r.fl e detail,
    refl,
    record {
      agrees = record {
        accepted = rw (policy-is_rejection e.outcome h.policy) refl;
        error = λ _. refl;
        recovery = sym h.recovery;
        cited = h.cited;
      };
      policy = h.policy;
    },
    unmet,
  )

  refuse_with-Gate :
      {A : Type 0} (P : A → Type 0) (e : DispatchEvent r.fl) (d : RecoveryDirective) (lead : Text)
      (s : State r)
      → IsBase e
      → ((a : A) → P a → ⊥)
      → Gate (refuse_with e d lead s) s P
  unfolding refuse_with rejected with_recovery Events.with_detail Events.with_recovery
  refuse_with-Gate P e d lead s h unmet =
      let detail = lead ++ codes " | " ++ Recovery.summary d in
      inr (
        with_recovery (rejected detail) d,
        Events.with_detail r.fl (Events.with_recovery r.fl e d) detail,
        refl,
        record {
          agrees = record {
            accepted = rw (policy-is_rejection e.outcome h.policy) refl;
            error = λ _. refl;
            recovery = refl;
            cited = h.cited;
          };
          policy = h.policy;
        },
        unmet,
      )

  pub put_off-Gate :
      {A : Type 0} (P : A → Type 0) (e : DispatchEvent r.fl) (reason : Text) (secs : ℕ)
      (s : State r)
      → IsBase e
      → ((a : A) → P a → ⊥)
      → Gate (put_off e reason secs s) s P
  unfolding put_off
  put_off-Gate P e reason secs s h unmet = refuse_with-Gate P e _ reason s h unmet

  -- A refusal whose kind is not retryable counts nothing in the retry ledger.
  pub refuse_for-Gate :
      {A : Type 0} (P : A → Type 0) (e : DispatchEvent r.fl) (job : JobSpec) (kind : FailureKind)
      (lead : Text) (s : State r)
      → is_retryable kind ≡ false
      → IsBase e
      → ((a : A) → P a → ⊥)
      → Gate (refuse_for e job kind lead s) s P
  unfolding refuse_for
  refuse_for-Gate P e job kind lead s fatal h unmet =
      let fp = LoopGuard.fingerprint r.ex job in
      let same : (decide r.policy s.retry fp kind).0 ≡ s.retry =
        (decide-fatal r.policy s.retry fp kind fatal).0 in
      rw same (refuse_with-Gate P e (decide r.policy s.retry fp kind).1 lead s h unmet)

  -- What holds of every way on and of every refusal of a gate holds of the gate and what follows it.
  pub Gate-bind :
      {A B : Type 0} (G : Result B DispatchResponse × State r → Type 0) (m : Step r A)
      (f : A → Step r B) (s t : State r) (P : A → Type 0)
      → Gate (m s) t P
      → ((a : A) → P a → G (f a t))
      → ((resp : DispatchResponse) (e : DispatchEvent r.fl)
          → IsRefusal resp e
          → G (err resp, emit e t))
      → G ((m >>= f) s)
  unfolding ◌>>=◌
  Gate-bind G m f s t P h on out = elim h [
    | inl (a, e, p) ↦ rw e (on a p)
    | inr (resp, ev, e, p, unmet) ↦ rw e (out resp ev p)
  ]

  pub untied-IsBase :
      (o : Outcome) (detail : Text) → category o ≡ policy → IsBase (Events.untied r.fl o detail)
  unfolding Events.untied
  untied-IsBase o detail h = record { policy = h; recovery = refl; cited = refl }

  pub for_job-IsBase :
      (o : Outcome) (job : JobSpec) → category o ≡ policy → IsBase (event_for r o job)
  unfolding Events.for_job
  for_job-IsBase o job h = record { policy = h; recovery = refl; cited = refl }

  -- A gate whose condition is met goes on; its value is the one of the condition, if there is only one.
  pub Gate-pass :
      {A B : Type 0} (m : Step r A) (f : A → Step r B) (s t : State r) (P : A → Type 0) (a : A)
      → Gate (m s) t P
      → P a
      → ((b : A) → P b → b ≡ a)
      → (m >>= f) s ≡ f a t
  unfolding ◌>>=◌
  Gate-pass m f s t P a h p unique = elim h [
    | inl (b, e, q) ↦ rw (e, unique b q) refl
    | inr (resp, ev, e, i, unmet) ↦ absurd (unmet a p)
  ]
