-- ===== src/Dispatch/Admission.antt =====
-- The gates of `handle_request` up to the state gate, in the order of the source
-- (crates/runner-dispatch/src/main.rs).
pub mod Gates
use flexnetos_runner.Shared.{
  ℕ, Bool, false, not, ◌&&◌, Option, none, some, List, [], ◌∷◌, ◌++◌, if◌then◌else◌, unwrap_or,
  Result, ok, err, Text, codes, join, decimal,
}
use flexnetos_runner.Dispatch.Steps.{Runner, Step, refuse, refuse_for, put_off, go_on, event_for}
use flexnetos_runner.Events
use flexnetos_runner.Events.{DispatchEvent, Outcome}
use flexnetos_runner.Job.{JobSpec, class}
use flexnetos_runner.LoopGuard
use flexnetos_runner.Wire.Frame.{DispatchRequest, DispatchResponse, rejected, with_recovery}
use flexnetos_runner.Recovery.{FailureKind}
use flexnetos_runner.Approval
use flexnetos_runner.Authority
use flexnetos_runner.Authority.{AuthorityDecision}
use flexnetos_runner.Constitution.{ConstitutionStatus, intact, violated}
use flexnetos_runner.Governor
use flexnetos_runner.Lint
use flexnetos_runner.Lint.{LintError}
use flexnetos_runner.Quarantine
use flexnetos_runner.Router
use flexnetos_runner.Router.{KernelPlan}
use flexnetos_runner.Safety.{Placement, self_hosted, hosted_only, placement}
use flexnetos_runner.Scan
use flexnetos_runner.Scan.{Severity}
use flexnetos_runner.StateGate
use flexnetos_runner.StateGate.{StateGateDecision}
use flexnetos_runner.Targets
use flexnetos_runner.Targets.{TargetDecision}
use flexnetos_runner.Wire.{verify_frame, verify_envelope, verify_grant}
use flexnetos_runner.Wire.Frame
use flexnetos_runner.Wire.Frame.{Approval, WireError}

module _ (r : Runner) where
  unfoldable pub constitution_gate : ConstitutionStatus → Step r (Unit {0})
  constitution_gate intact s = go_on tt s
  constitution_gate (violated changed) s =
      let detail =
        codes "constitution violated: "
        ++ join (codes ", ") changed
        ++ codes " changed mid-run; refusing all dispatch until re-armed" in
      refuse (Events.untied r.fl Outcome.constitution_violated detail) detail s

  parsed : Result DispatchRequest Text → Step r DispatchRequest
  parsed (ok req) s = go_on req s
  parsed (err e) s =
      let detail = codes "unparseable dispatch frame: " ++ e in
      refuse (Events.untied r.fl Outcome.unparseable detail) detail s

  unfoldable pub parse_gate : List ℕ → Step r DispatchRequest
  unfolding parsed
  parse_gate raw s = parsed (r.ex.parse_request raw) s

  verified : Result JobSpec WireError → Step r JobSpec
  verified (ok job) s = go_on job s
  verified (err e) s =
      let detail = codes "frame rejected: " ++ Frame.show e in
      refuse (Events.untied r.fl Outcome.verify_failed detail) detail s

  unfoldable pub verify_gate : DispatchRequest → Step r JobSpec
  unfolding verified
  verify_gate req s = verified (verify_frame r.ex r.key req) s

  enveloped : Result (Unit {0}) WireError → JobSpec → Step r (Unit {0})
  enveloped (ok _) job s = go_on tt s
  enveloped (err e) job s =
      refuse (event_for r Outcome.verify_failed job)
        (codes "frame rejected: authority provenance requires full-envelope signature: "
          ++ Frame.show e)
        s

  unfoldable pub envelope_gate : DispatchRequest → JobSpec → Step r (Unit {0})
  unfolding enveloped
  envelope_gate req job s =
      if Authority.is_active r.authority
      then enveloped (verify_envelope r.ex r.key req) job s
      else go_on tt s

  authorized : AuthorityDecision → JobSpec → Step r (Unit {0})
  authorized Authority.allowed job s = go_on tt s
  authorized (Authority.denied route required actual submitter) job s =
      refuse_for (event_for r Outcome.authority_denied job) job FailureKind.authority_denied
        (codes "authority gate denied route `"
          ++ route
          ++ codes "` for submitter `"
          ++ unwrap_or submitter (codes "<none>")
          ++ codes "`: required ≥ "
          ++ Authority.as_str required
          ++ codes ", actual "
          ++ Authority.as_str actual)
        s

  unfoldable pub authority_gate : DispatchRequest → JobSpec → Step r (Unit {0})
  unfolding authorized
  authority_gate req job s = authorized (Authority.check r.authority job req.submitter) job s

  linted : List LintError → JobSpec → Step r (Unit {0})
  linted [] job s = go_on tt s
  linted (e ∷ es) job s =
      refuse_for (event_for r Outcome.malformed job) job FailureKind.malformed
        (codes "structurally-invalid job: " ++ Lint.summarize (e ∷ es)) s

  unfoldable pub lint_gate : JobSpec → Step r (Unit {0})
  unfolding linted
  lint_gate job s = linted (Lint.structural_errors job) job s

  threshold_text : Option Severity → Text
  threshold_text none = codes "none"
  threshold_text (some t) = Scan.label t

  unfoldable pub scan_gate : JobSpec → Step r (Unit {0})
  unfolding threshold_text
  scan_gate job s =
      let report = Scan.scan job in
      if Scan.is_active r.scan_policy && Scan.blocks r.scan_policy report
      then refuse_for (event_for r Outcome.content_rejected job) job FailureKind.content_rejected
          (codes "content scan blocked the job (worst severity "
            ++ Scan.label (Scan.max_severity report)
            ++ codes ", threshold "
            ++ threshold_text r.scan_policy.block_threshold
            ++ codes "): "
            ++ Scan.summary report)
          s
      else go_on tt s

  placed : Placement → JobSpec → Step r Placement
  placed self_hosted job s = go_on self_hosted s
  placed hosted_only job s =
      refuse (event_for r Outcome.fork_rejected job)
        (codes "fork-triggered job must run on GitHub-hosted infra, not the self-hosted dispatcher")
        s

  unfoldable pub fork_gate : JobSpec → Step r Placement
  unfolding placed
  fork_gate job s = placed (placement job) job s

  -- `req.approval.as_ref().is_some_and(..)`
  approved_by : Option Approval → JobSpec → Bool
  approved_by none job = false
  approved_by (some grant) job = verify_grant r.ex grant r.key (LoopGuard.fingerprint r.ex job)

  unfoldable pub approved : DispatchRequest → JobSpec → Bool
  unfolding approved_by
  approved req job = approved_by req.approval job

  unfoldable pub approval_gate : DispatchRequest → JobSpec → Step r (Unit {0})
  approval_gate req job s =
      if Approval.requires r.approval job && not (approved req job)
      then refuse_for (event_for r Outcome.approval_required job) job FailureKind.approval_required
          (codes "job class requires human approval and no valid grant was presented") s
      else go_on tt s

  unfoldable pub quarantine_gate : JobSpec → Step r (Unit {0})
  quarantine_gate job s =
      let fp = LoopGuard.fingerprint r.ex job in
      if Quarantine.is_active r.quarantine_policy && Quarantine.is_quarantined s.quarantine fp
      then refuse_for (event_for r Outcome.quarantined job) job FailureKind.quarantined
          (codes "job fingerprint is quarantined ("
            ++ decimal (Quarantine.failures s.quarantine fp)
            ++ codes "x kernel failures ≥ threshold "
            ++ decimal r.quarantine_policy.threshold
            ++ codes "); refusing re-dispatch until the runner is re-armed")
          s
      else go_on tt s

  targeted : TargetDecision → KernelPlan → JobSpec → Step r KernelPlan
  targeted Targets.allowed plan job s = go_on plan s
  targeted (Targets.denied kernel allowed) plan job s =
      refuse_for
        (Events.with_kernel r.fl (event_for r Outcome.target_denied job) (Router.program kernel))
        job FailureKind.target_denied
        (codes "delegation target `"
          ++ Router.program kernel
          ++ codes "` denied by FXRUN_KERNEL_ALLOWLIST (allowed: "
          ++ allowed
          ++ codes "); refusing before kernel invocation")
        s

  unfoldable pub target_gate : JobSpec → Step r KernelPlan
  unfolding targeted
  target_gate job s =
      let plan = Router.route job in
      targeted (Targets.check r.target_allowlist plan.kernel) plan job s

  gated : StateGateDecision → JobSpec → Step r (Unit {0})
  gated StateGate.allowed job s = go_on tt s
  gated (StateGate.deferred class current allowed_until) job s =
      put_off (event_for r Outcome.state_deferred job)
        (codes "route class `"
          ++ class
          ++ codes "` deferred by state gate: current tier "
          ++ Governor.label current
          ++ codes " exceeds allowed tier "
          ++ Governor.label allowed_until)
        r.state_defer_secs s

  unfoldable pub tier_gate : JobSpec → Step r (Unit {0})
  unfolding gated
  tier_gate job s =
      if StateGate.is_active r.state_gate
      then gated (StateGate.check r.state_gate job (Governor.tier r.fl s.governor)) job s
      else go_on tt s
