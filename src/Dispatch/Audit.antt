-- ===== src/Dispatch/Audit.antt =====
-- The audit trail of the handler, its calls of the kernel and the permit of a target
-- (`handle_request` of crates/runner-dispatch/src/main.rs).
use flexnetos_runner.Shared.{
  ℕ, ◌≡◌, sym, ap, ◌∙◌, ◌⊎◌, inl, inr, true, not, List, [], ◌∷◌, ◌++◌, arith, length, length-append,
}
use flexnetos_runner.Constitution.{ConstitutionStatus}
use flexnetos_runner.Dispatch.{handle_request}
use flexnetos_runner.Dispatch.Delegate.{call_for}
use flexnetos_runner.Dispatch.Delegate.Reports.{Reported, conclude-Reported}
use flexnetos_runner.Dispatch.Cleared.{Cleared, entered, concluded}
use flexnetos_runner.Dispatch.Ends.{process-Ends}
use flexnetos_runner.Dispatch.Steps.{Runner, State, Call, emit}
use flexnetos_runner.Events.{DispatchEvent, is_rejection, denied_by}
use flexnetos_runner.Job.{JobSpec}
use flexnetos_runner.LoopGuard
use flexnetos_runner.Risk
use flexnetos_runner.Router
use flexnetos_runner.Safety.{self_hosted}
use flexnetos_runner.SingleFlight.{SingleFlight, TargetKey}
use flexnetos_runner.SingleFlight.Exclusion.{holder, release-acquire}
use flexnetos_runner.Wire.Frame.{DispatchRequest}
use flexnetos_runner.Governor.{admit}

grows : (l : List Call) (c : Call) → l ++ c ∷ [] ≡ l → ⊥
grows l c h = omega (arith, length-append l (c ∷ []), ap length h)

module _ (r : Runner) (c : ConstitutionStatus) (now : ℕ) (raw : List ℕ) (s : State r) where
  -- The report of the outcome, for the request and job of a cleared frame.
  abbrev pub report :
      (req : DispatchRequest) (job : JobSpec)
      → Reported r (entered r c now raw s req job) (concluded r c now raw s req job)
  report req job =
      conclude-Reported r job (Router.route job)
        (Risk.assess r.fl r.risk_policy s.risk_ledger (LoopGuard.fingerprint r.ex job)) now
        (entered r c now raw s req job) (r.invoke (call_for r req job (Router.route job)))
        self_hosted

  -- Every request adds one event to the audit trail, and the reply says the same as it: accepted if the
  -- outcome is no rejection, with its detail as the error of a rejection, with its directive, and the
  -- event cites the gate of its outcome.
  pub one_event :
      let (resp, t) = handle_request r c now raw s in
      (e : DispatchEvent r.fl) × (t.log ≡ s.log ++ e ∷ [])
      × (resp.accepted ≡ not (is_rejection e.outcome))
      × (is_rejection e.outcome ≡ true → resp.error ≡ e.detail)
      × (resp.recovery ≡ e.recovery)
      × (e.cited ≡ denied_by e.outcome)
  unfolding handle_request emit
  one_event = elim (process-Ends r c now raw s) [
    | inl (resp, e, t, eq, h, k) ↦ rw eq (
      e,
      ap (λ l. l ++ e ∷ []) k.log,
      h.agrees.accepted,
      h.agrees.error,
      h.agrees.recovery,
      h.agrees.cited,
    )
    | inr (req, job, h, eq) ↦
        let p = report req job in
        rw eq (p.event, p.log, p.agrees.accepted, p.agrees.error, p.agrees.recovery, p.agrees.cited)
  ]

  -- A request calls the kernel at most once, with the routed plan and the effective deadlines, and only
  -- if its frame and its job pass every gate in the state in which the request comes.
  pub called_if_Cleared :
      let (resp, t) = handle_request r c now raw s in
      (t.calls ≡ s.calls)
      ⊎ ((req : DispatchRequest) × (job : JobSpec) × Cleared r c now raw s req job
          × (t.calls ≡ s.calls ++ call_for r req job (Router.route job) ∷ []))
  unfolding handle_request emit
  called_if_Cleared = elim (process-Ends r c now raw s) [
    | inl (resp, e, t, eq, h, k) ↦ rw eq (inl k.calls)
    | inr (req, job, h, eq) ↦ rw eq (inr (req, job, h, (report req job).calls))
  ]

  -- After every request each target has the holder that it had before: the permit of an admitted job is
  -- given back on every way out.
  pub permit_released :
      let (resp, t) = handle_request r c now raw s in
      (k : TargetKey) → holder t.singleflight k ≡ holder s.singleflight k
  unfolding handle_request emit
  permit_released k = elim (process-Ends r c now raw s) [
    | inl (resp, e, t, eq, h, kept) ↦ rw eq (kept.holders k)
    | inr (req, job, h, eq) ↦ rw eq (
        (release-acquire s.singleflight (concluded r c now raw s req job).1.singleflight job h.free
            (ap (λ (f : SingleFlight). f.active) (report req job).flights)).1
          k)
  ]

  -- A request that does not call the kernel leaves the retry counts, the quarantine and the risk history
  -- as they were, and charges nothing: the governor is the one before, or what its own gate makes of it.
  pub uncalled_keeps :
      let (resp, t) = handle_request r c now raw s in
      t.calls ≡ s.calls
      → (t.retry ≡ s.retry)
        × (t.quarantine ≡ s.quarantine)
        × (t.risk_ledger ≡ s.risk_ledger)
        × ((t.governor ≡ s.governor) ⊎ (t.governor ≡ (admit r.fl s.governor).0))
  unfolding handle_request emit
  uncalled_keeps = elim (process-Ends r c now raw s) [
    | inl (resp, e, t, eq, h, k) ↦ rw eq (λ _. (k.retry, k.quarantine, k.risk_ledger, k.governor))
    | inr (req, job, h, eq) ↦ rw eq (λ same.
        absurd (
          grows s.calls (call_for r req job (Router.route job))
            (sym (report req job).calls ∙ same)))
  ]
