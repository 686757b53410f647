-- ===== src/Dispatch/Admission/Gates.antt =====
-- Each gate before the single-flight mutex: what a job that passes it meets
-- (crates/runner-dispatch/src/main.rs).
use flexnetos_runner.Shared.{
  ℕ, ◌≡◌, refl, inl, inr, true, false, not, ◌&&◌, List, [], ◌∷◌, Result, ok, err, Bool-cases, Text,
}
use flexnetos_runner.Dispatch.Admission
use flexnetos_runner.Dispatch.Admission.{placed, targeted, gated}
use flexnetos_runner.Dispatch.Steps.{Runner, State}
use flexnetos_runner.Dispatch.Turns.{
  Gate, refuse-Gate, refuse_for-Gate, put_off-Gate, untied-IsBase, for_job-IsBase,
}
use flexnetos_runner.Events
use flexnetos_runner.Events.{Outcome, category, policy}
use flexnetos_runner.Job.{JobSpec}
use flexnetos_runner.Recovery.{FailureKind, is_retryable}
use flexnetos_runner.Approval
use flexnetos_runner.Authority
use flexnetos_runner.Authority.{AuthorityDecision}
use flexnetos_runner.Constitution.{ConstitutionStatus, intact, violated}
use flexnetos_runner.Governor
use flexnetos_runner.Lint
use flexnetos_runner.Lint.{LintError}
use flexnetos_runner.LoopGuard
use flexnetos_runner.Quarantine
use flexnetos_runner.Router
use flexnetos_runner.Router.{KernelPlan}
use flexnetos_runner.Safety.{Placement, self_hosted, hosted_only, placement}
use flexnetos_runner.Scan
use flexnetos_runner.StateGate
use flexnetos_runner.StateGate.{StateGateDecision}
use flexnetos_runner.Targets
use flexnetos_runner.Targets.{TargetDecision}
use flexnetos_runner.Wire.{verify_frame, verify_envelope}
use flexnetos_runner.Wire.Frame.{DispatchRequest, WireError}

module _ (r : Runner) where
  pub constitution_gate_lem :
      (c : ConstitutionStatus) (s : State r)
      → Gate r (Admission.constitution_gate r c s) s (λ _. c ≡ intact)
  unfolding Admission.constitution_gate category
  constitution_gate_lem intact s = inl (tt, refl, refl)
  constitution_gate_lem (violated changed) s =
      refuse-Gate r _ _ _ s (untied-IsBase r Outcome.constitution_violated _ refl) (λ a p. cc)

  parsed-Gate :
      (x : Result DispatchRequest Text) (s : State r)
      → Gate r (Admission.parsed r x s) s (λ req. x ≡ ok req)
  unfolding Admission.parsed category
  parsed-Gate (ok req) s = inl (req, refl, refl)
  parsed-Gate (err e) s =
      refuse-Gate r _ _ _ s (untied-IsBase r Outcome.unparseable _ refl) (λ a p. cc)

  pub parse_gate_lem :
      (raw : List ℕ) (s : State r)
      → Gate r (Admission.parse_gate r raw s) s (λ req. r.ex.parse_request raw ≡ ok req)
  unfolding Admission.parse_gate
  parse_gate_lem raw s = parsed-Gate (r.ex.parse_request raw) s

  verified-Gate :
      (x : Result JobSpec WireError) (s : State r)
      → Gate r (Admission.verified r x s) s (λ job. x ≡ ok job)
  unfolding Admission.verified category
  verified-Gate (ok job) s = inl (job, refl, refl)
  verified-Gate (err e) s =
      refuse-Gate r _ _ _ s (untied-IsBase r Outcome.verify_failed _ refl) (λ a p. cc)

  pub verify_gate_lem :
      (req : DispatchRequest) (s : State r)
      → Gate r (Admission.verify_gate r req s) s (λ job. verify_frame r.ex r.key req ≡ ok job)
  unfolding Admission.verify_gate
  verify_gate_lem req s = verified-Gate (verify_frame r.ex r.key req) s

  module _ (job : JobSpec) (s : State r) where
    enveloped-Gate :
        (x : Result (Unit {0}) WireError)
        → Gate r (Admission.enveloped r x job s) s (λ _. x ≡ ok tt)
    unfolding Admission.enveloped category
    enveloped-Gate (ok u) = inl (tt, refl, refl)
    enveloped-Gate (err e) =
        refuse-Gate r _ _ _ s (for_job-IsBase r Outcome.verify_failed job refl) (λ a p. cc)

    -- With an active authority policy the whole envelope is signed.
    pub envelope_gate_lem :
        (req : DispatchRequest)
        → Gate r
            (Admission.envelope_gate r req job s)
            s
            (λ _. Authority.is_active r.authority ≡ true → verify_envelope r.ex r.key req ≡ ok tt)
    unfolding Admission.envelope_gate
    envelope_gate_lem req = elim (Bool-cases (Authority.is_active r.authority)) [
      | inl h ↦ rw h (elim (enveloped-Gate (verify_envelope r.ex r.key req)) [
        | inl (u, e, p) ↦ inl (u, e, λ _. p)
        | inr (resp, e, q, i, unmet) ↦ inr (resp, e, q, i, λ a p. unmet a (p refl))
      ])
      | inr h ↦ rw h (inl (tt, refl, λ k. cc))
    ]

    authorized-Gate :
        (x : AuthorityDecision)
        → Gate r (Admission.authorized r x job s) s (λ _. x ≡ Authority.allowed)
    unfolding Admission.authorized category is_retryable
    authorized-Gate Authority.allowed = inl (tt, refl, refl)
    authorized-Gate (Authority.denied route required actual submitter) =
        refuse_for-Gate r _ _ job FailureKind.authority_denied _ s refl
          (for_job-IsBase r Outcome.authority_denied job refl) (λ a p. cc)

    pub authority_gate_lem :
        (req : DispatchRequest)
        → Gate r
            (Admission.authority_gate r req job s)
            s
            (λ _. Authority.check r.authority job req.submitter ≡ Authority.allowed)
    unfolding Admission.authority_gate
    authority_gate_lem req = authorized-Gate (Authority.check r.authority job req.submitter)

    linted-Gate : (x : List LintError) → Gate r (Admission.linted r x job s) s (λ _. x ≡ [])
    unfolding Admission.linted category is_retryable
    linted-Gate [] = inl (tt, refl, refl)
    linted-Gate (e ∷ es) =
        refuse_for-Gate r _ _ job FailureKind.malformed _ s refl
          (for_job-IsBase r Outcome.malformed job refl) (λ a p. cc)

    pub lint_gate_lem :
        Gate r (Admission.lint_gate r job s) s (λ _. Lint.structural_errors job ≡ [])
    unfolding Admission.lint_gate
    lint_gate_lem = linted-Gate (Lint.structural_errors job)

    -- The gates that refuse on a test.
    pub scan_gate_lem :
        Gate r
          (Admission.scan_gate r job s)
          s
          (λ _. (Scan.is_active r.scan_policy && Scan.blocks r.scan_policy (Scan.scan job)) ≡ false)
    unfolding Admission.scan_gate category is_retryable
    scan_gate_lem =
        elim (Bool-cases
          (Scan.is_active r.scan_policy && Scan.blocks r.scan_policy (Scan.scan job))) [
            | inl h ↦ rw h (
                refuse_for-Gate r _ _ job FailureKind.content_rejected _ s refl
                  (for_job-IsBase r Outcome.content_rejected job refl) (λ a p. cc))
            | inr h ↦ rw h (inl (tt, refl, refl))
          ]

    placed-Gate :
        (x : Placement)
        → Gate r (placed r x job s) s (λ place. (x ≡ self_hosted) × (place ≡ self_hosted))
    unfolding placed category
    placed-Gate self_hosted = inl (self_hosted, refl, (refl, refl))
    placed-Gate hosted_only =
        refuse-Gate r _ _ _ s (for_job-IsBase r Outcome.fork_rejected job refl)
          (λ a p. (let q = p.0 in cc))

    pub fork_gate_lem :
        Gate r
          (Admission.fork_gate r job s)
          s
          (λ place. (placement job ≡ self_hosted) × (place ≡ self_hosted))
    unfolding Admission.fork_gate
    fork_gate_lem = placed-Gate (placement job)

    pub approval_gate_lem :
        (req : DispatchRequest)
        → Gate r
            (Admission.approval_gate r req job s)
            s
            (λ _. (Approval.requires r.approval job && not (Admission.approved r req job)) ≡ false)
    unfolding Admission.approval_gate category is_retryable
    approval_gate_lem req =
        elim (Bool-cases (Approval.requires r.approval job && not (Admission.approved r req job))) [
          | inl h ↦ rw h (
              refuse_for-Gate r _ _ job FailureKind.approval_required _ s refl
                (for_job-IsBase r Outcome.approval_required job refl) (λ a p. cc))
          | inr h ↦ rw h (inl (tt, refl, refl))
        ]

    pub quarantine_gate_lem : Gate r (Admission.quarantine_gate r job s) s (λ _.
        (Quarantine.is_active r.quarantine_policy
          && Quarantine.is_quarantined s.quarantine (LoopGuard.fingerprint r.ex job))
        ≡ false)
    unfolding Admission.quarantine_gate category is_retryable
    quarantine_gate_lem =
        elim (Bool-cases (
          Quarantine.is_active r.quarantine_policy
          && Quarantine.is_quarantined s.quarantine (LoopGuard.fingerprint r.ex job))) [
            | inl h ↦ rw h (
                refuse_for-Gate r _ _ job FailureKind.quarantined _ s refl
                  (for_job-IsBase r Outcome.quarantined job refl) (λ a p. cc))
            | inr h ↦ rw h (inl (tt, refl, refl))
          ]

    targeted-Gate :
        (x : TargetDecision) (plan : KernelPlan)
        → Gate r (targeted r x plan job s) s (λ p. (x ≡ Targets.allowed) × (p ≡ plan))
    unfolding targeted category is_retryable Events.for_job Events.with_kernel
    targeted-Gate Targets.allowed plan = inl (plan, refl, (refl, refl))
    targeted-Gate (Targets.denied kernel allowed) plan =
        refuse_for-Gate r _ _ job FailureKind.target_denied _ s refl
          (record { policy = refl; recovery = refl; cited = refl }) (λ a p. (let q = p.0 in cc))

    pub target_gate_lem : Gate r (Admission.target_gate r job s) s (λ plan.
        (Targets.check r.target_allowlist (Router.route job).kernel ≡ Targets.allowed)
        × (plan ≡ Router.route job))
    unfolding Admission.target_gate
    target_gate_lem =
        targeted-Gate (Targets.check r.target_allowlist (Router.route job).kernel)
          (Router.route job)

    gated-Gate : (x : StateGateDecision) → Gate r (gated r x job s) s (λ _. x ≡ StateGate.allowed)
    unfolding gated category
    gated-Gate StateGate.allowed = inl (tt, refl, refl)
    gated-Gate (StateGate.deferred class current allowed_until) =
        put_off-Gate r _ _ _ r.state_defer_secs s (for_job-IsBase r Outcome.state_deferred job refl)
          (λ a p. cc)

    pub tier_gate_lem : Gate r (Admission.tier_gate r job s) s (λ _.
        StateGate.is_active r.state_gate ≡ true
        → StateGate.check r.state_gate job (Governor.tier r.fl s.governor) ≡ StateGate.allowed)
    unfolding Admission.tier_gate
    tier_gate_lem = elim (Bool-cases (StateGate.is_active r.state_gate)) [
      | inl h ↦
          rw h
            (elim (gated-Gate (StateGate.check r.state_gate job (Governor.tier r.fl s.governor))) [
              | inl (u, e, p) ↦ inl (u, e, λ _. p)
              | inr (resp, e, q, i, unmet) ↦ inr (resp, e, q, i, λ a p. unmet a (p refl))
            ])
      | inr h ↦ rw h (inl (tt, refl, λ k. cc))
    ]
