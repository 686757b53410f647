-- ===== src/Tests/Dispatcher.antt =====
-- The theorems on the dispatcher, applied to a runner that takes a signed frame.
use flexnetos_runner.Shared.{
  ◌+◌, ◌≤◌, ◌≡◌, refl, ◌⊎◌, true, false, not, none, some, List, [], ◌∷◌, ◌++◌, arith, length, codes,
  text_eq, is_whitespace, trim, to_ascii_lowercase, split, starts_with, contains, strip_prefix,
  as_bytes,
}
use flexnetos_runner.Shared.Dict
use flexnetos_runner.Dispatch.Steps
use flexnetos_runner.Dispatch.Admission
use flexnetos_runner.Dispatch.Flight
use flexnetos_runner.Dispatch.Delegate
use flexnetos_runner.Approval
use flexnetos_runner.Authority
use flexnetos_runner.Governor
use flexnetos_runner.Lint
use flexnetos_runner.Quarantine
use flexnetos_runner.RateLimit
use flexnetos_runner.Safety.{placement}
use flexnetos_runner.Scan
use flexnetos_runner.SingleFlight
use flexnetos_runner.StateGate
use flexnetos_runner.Targets
use flexnetos_runner.Wire.{verify_frame, verify_bytes, sign_bytes}
use flexnetos_runner.Constitution.{intact, violated}
use flexnetos_runner.Cost.{JobCost}
use flexnetos_runner.Dispatch.{handle_request}
use flexnetos_runner.Dispatch.Accepted.{accepted_settles}
use flexnetos_runner.Dispatch.Audit.{one_event, called_if_Cleared, permit_released, uncalled_keeps}
use flexnetos_runner.Dispatch.Budget.{Request, served, calls_bounded}
use flexnetos_runner.Dispatch.Delegate.{call_for}
use flexnetos_runner.Dispatch.Cleared.{Admitted, Cleared}
use flexnetos_runner.Dispatch.Passes.{Cleared-called}
use flexnetos_runner.Dispatch.Steps.{State, Call, Delegation, delivered, timed_out}
use flexnetos_runner.Events.{DispatchEvent, is_rejection, denied_by}
use flexnetos_runner.Governor.{admit, charge}
use flexnetos_runner.Job.{JobSpec, class}
use flexnetos_runner.LoopGuard
use flexnetos_runner.Quarantine.{failures, is_quarantined}
use flexnetos_runner.Dispatch.Failures.{failure_booked}
use flexnetos_runner.Dispatch.Flight.Gates.{limiter_after}
use flexnetos_runner.Quarantine.{on_failure}
use flexnetos_runner.Risk.{record_outcome}
use flexnetos_runner.Recovery.{attempts, decide, deadline_exceeded}
use flexnetos_runner.Router
use flexnetos_runner.SingleFlight.{for_job}
use flexnetos_runner.SingleFlight.Exclusion.{holder}
use flexnetos_runner.Tests.Demo.{
  demo, hung, runner_with, start_of, start, frame, forged, budget, job_for,
}
use flexnetos_runner.Wire.Frame.{DispatchRequest}

abbrev served_once : State demo
served_once = (handle_request demo intact 0 frame start).1

abbrev refused_once : State demo
refused_once = (handle_request demo intact 0 forged start).1

-- The runner does take the frame.
accepted_once : (handle_request demo intact 0 frame start).0.accepted ≡ true
unfolding handle_request Steps.◌>>=◌ Admission.constitution_gate Admission.parse_gate
    Admission.verify_gate verify_frame verify_bytes strip_prefix codes trim sign_bytes is_whitespace
    as_bytes text_eq Admission.envelope_gate Authority.is_active Authority.disabled
    Admission.authority_gate Authority.check Authority.min_for Admission.lint_gate
    Lint.structural_errors Lint.require_nonblank Lint.kind_errors Lint.repo_errors
    Lint.is_owner_name split Admission.scan_gate Scan.is_active Scan.blocks Scan.block_at
    Scan.is_none Scan.scan Scan.scan_value Scan.max_severity Scan.bank Scan.nul_byte
    Scan.control_char Scan.crlf_injection Scan.command_substitution Scan.path_traversal
    Scan.shell_metacharacter Scan.redirection Scan.fields_of Scan.scan_fields Scan.scan_bank
    contains starts_with Admission.fork_gate placement Admission.approval_gate Approval.requires
    Approval.no_approval Admission.approved Admission.quarantine_gate Quarantine.is_active
    Quarantine.is_quarantined Quarantine.empty_ledger Dict.get LoopGuard.fingerprint
    Admission.target_gate Router.route Targets.check Targets.allows Targets.disabled
    Admission.tier_gate StateGate.is_active StateGate.disabled Flight.acquire_gate
    SingleFlight.try_acquire SingleFlight.for_job SingleFlight.new_key SingleFlight.empty_flights
    to_ascii_lowercase Delegate.with_permit Delegate.in_flight Flight.rate_gate RateLimit.is_active
    RateLimit.check RateLimit.new_limiter RateLimit.new_policy Flight.loop_gate LoopGuard.observe
    LoopGuard.new_guard Flight.budget_gate Governor.admit Governor.with_budget
    Governor.exhausted_reason Delegate.delegate Delegate.conclude Delegate.accept RateLimit.prune
    LoopGuard.occurrences class
accepted_once = refl

called_if_Cleared_example :
    (served_once.calls ≡ start.calls)
    ⊎ ((req : DispatchRequest) × (job : JobSpec) × Cleared demo intact 0 frame start req job
        × (served_once.calls ≡ start.calls ++ call_for demo req job (Router.route job) ∷ []))
called_if_Cleared_example = called_if_Cleared demo intact 0 frame start

one_event_example :
    let (resp, t) = handle_request demo intact 0 forged start in
    (e : DispatchEvent demo.fl) × (t.log ≡ start.log ++ e ∷ [])
    × (resp.accepted ≡ not (is_rejection e.outcome))
    × (is_rejection e.outcome ≡ true → resp.error ≡ e.detail)
    × (resp.recovery ≡ e.recovery)
    × (e.cited ≡ denied_by e.outcome)
one_event_example = one_event demo intact 0 forged start

permit_released_example :
    holder served_once.singleflight (for_job (job_for (codes "j1")))
    ≡ holder start.singleflight (for_job (job_for (codes "j1")))
permit_released_example = permit_released demo intact 0 frame start (for_job (job_for (codes "j1")))

-- The forged frame does not reach the kernel.
not_called : refused_once.calls ≡ start.calls
unfolding handle_request Steps.◌>>=◌ Admission.constitution_gate Admission.parse_gate
    Admission.verify_gate verify_frame verify_bytes strip_prefix codes trim sign_bytes is_whitespace
    as_bytes text_eq Steps.refuse
not_called = refl

uncalled_keeps_example :
    (refused_once.retry ≡ start.retry)
    × (refused_once.quarantine ≡ start.quarantine)
    × (refused_once.risk_ledger ≡ start.risk_ledger)
    × ((refused_once.governor ≡ start.governor)
        ⊎ (refused_once.governor ≡ (admit demo.fl start.governor).0))
uncalled_keeps_example = uncalled_keeps demo intact 0 forged start not_called

accepted_settles_example :
    (req : DispatchRequest) × (job : JobSpec) × (cost : JobCost) × Cleared demo intact 0 frame start
      req job
    × (demo.invoke (call_for demo req job (Router.route job)) ≡ delivered cost)
    × (served_once.governor ≡ charge (admit demo.fl start.governor).0 cost)
    × (attempts served_once.retry (LoopGuard.fingerprint demo.ex job) ≡ 0)
    × (failures served_once.quarantine (LoopGuard.fingerprint demo.ex job) ≡ 0)
    × (is_quarantined served_once.quarantine (LoopGuard.fingerprint demo.ex job) ≡ false)
accepted_settles_example = accepted_settles demo intact 0 frame start accepted_once

abbrev requests : List Request
requests =
    record { constitution = intact; now = 0; frame = frame }
    ∷ record { constitution = intact; now = 1; frame = forged }
    ∷ record { constitution = violated (codes "AGENTS.md" ∷ []); now = 2; frame = frame }
    ∷ []

calls_bounded_example : length (served demo start requests).calls ≤ 2 + 1
calls_bounded_example = calls_bounded demo budget 2 start requests refl (omega arith) refl refl

abbrev request : DispatchRequest
request = record {
  spec_json = codes "j1";
  signature = frame;
  envelope_signature = none;
  approval = none;
  submitter = none;
  deadline_secs = some 30;
  idle_timeout_secs = none;
}

admitted :
    (k : Call → Delegation)
    → Admitted
        (runner_with k)
        intact
        0
        frame
        (start_of (runner_with k))
        request
        (job_for (codes "j1"))
unfolding handle_request Steps.◌>>=◌ Admission.constitution_gate Admission.parse_gate
    Admission.verify_gate verify_frame verify_bytes strip_prefix codes trim sign_bytes is_whitespace
    as_bytes text_eq Admission.envelope_gate Authority.is_active Authority.disabled
    Admission.authority_gate Authority.check Authority.min_for Admission.lint_gate
    Lint.structural_errors Lint.require_nonblank Lint.kind_errors Lint.repo_errors
    Lint.is_owner_name split Admission.scan_gate Scan.is_active Scan.blocks Scan.block_at
    Scan.is_none Scan.scan Scan.scan_value Scan.max_severity Scan.bank Scan.nul_byte
    Scan.control_char Scan.crlf_injection Scan.command_substitution Scan.path_traversal
    Scan.shell_metacharacter Scan.redirection Scan.fields_of Scan.scan_fields Scan.scan_bank
    contains starts_with Admission.fork_gate placement Admission.approval_gate Approval.requires
    Approval.no_approval Admission.approved Admission.quarantine_gate Quarantine.is_active
    Quarantine.is_quarantined Quarantine.empty_ledger Dict.get LoopGuard.fingerprint
    Admission.target_gate Router.route Targets.check Targets.allows Targets.disabled
    Admission.tier_gate StateGate.is_active StateGate.disabled Flight.acquire_gate
    SingleFlight.try_acquire SingleFlight.for_job SingleFlight.new_key SingleFlight.empty_flights
    to_ascii_lowercase Delegate.with_permit Delegate.in_flight Flight.rate_gate RateLimit.is_active
    RateLimit.check RateLimit.new_limiter RateLimit.new_policy Flight.loop_gate LoopGuard.observe
    LoopGuard.new_guard Flight.budget_gate Governor.admit Governor.with_budget
    Governor.exhausted_reason Delegate.delegate Delegate.conclude Delegate.accept RateLimit.prune
    RateLimit.is_denied LoopGuard.occurrences Governor.is_denied class
admitted k = record {
  armed = refl;
  parsed = refl;
  signed = refl;
  enveloped = λ e. cc;
  authorized = refl;
  well_formed = refl;
  clean = refl;
  trusted = refl;
  approved = refl;
  not_quarantined = refl;
  listed = refl;
  in_tier = λ e. cc;
}

cleared :
    (k : Call → Delegation)
    → Cleared
        (runner_with k)
        intact
        0
        frame
        (start_of (runner_with k))
        request
        (job_for (codes "j1"))
unfolding handle_request Steps.◌>>=◌ Admission.constitution_gate Admission.parse_gate
    Admission.verify_gate verify_frame verify_bytes strip_prefix codes trim sign_bytes is_whitespace
    as_bytes text_eq Admission.envelope_gate Authority.is_active Authority.disabled
    Admission.authority_gate Authority.check Authority.min_for Admission.lint_gate
    Lint.structural_errors Lint.require_nonblank Lint.kind_errors Lint.repo_errors
    Lint.is_owner_name split Admission.scan_gate Scan.is_active Scan.blocks Scan.block_at
    Scan.is_none Scan.scan Scan.scan_value Scan.max_severity Scan.bank Scan.nul_byte
    Scan.control_char Scan.crlf_injection Scan.command_substitution Scan.path_traversal
    Scan.shell_metacharacter Scan.redirection Scan.fields_of Scan.scan_fields Scan.scan_bank
    contains starts_with Admission.fork_gate placement Admission.approval_gate Approval.requires
    Approval.no_approval Admission.approved Admission.quarantine_gate Quarantine.is_active
    Quarantine.is_quarantined Quarantine.empty_ledger Dict.get LoopGuard.fingerprint
    Admission.target_gate Router.route Targets.check Targets.allows Targets.disabled
    Admission.tier_gate StateGate.is_active StateGate.disabled Flight.acquire_gate
    SingleFlight.try_acquire SingleFlight.for_job SingleFlight.new_key SingleFlight.empty_flights
    to_ascii_lowercase Delegate.with_permit Delegate.in_flight Flight.rate_gate RateLimit.is_active
    RateLimit.check RateLimit.new_limiter RateLimit.new_policy Flight.loop_gate LoopGuard.observe
    LoopGuard.new_guard Flight.budget_gate Governor.admit Governor.with_budget
    Governor.exhausted_reason Delegate.delegate Delegate.conclude Delegate.accept RateLimit.prune
    RateLimit.is_denied LoopGuard.occurrences Governor.is_denied class
cleared k = record {
  admitted = admitted k;
  free = refl;
  in_rate = λ e. refl;
  not_looping = refl;
  in_budget = refl;
}

Cleared-called_example :
    (served_once.calls
      ≡ start.calls
        ++ call_for demo request (job_for (codes "j1")) (Router.route (job_for (codes "j1"))) ∷ [])
    × ((cost : JobCost)
        → demo.invoke
            (call_for demo request (job_for (codes "j1")) (Router.route (job_for (codes "j1"))))
          ≡ delivered cost
        → (handle_request demo intact 0 frame start).0.accepted ≡ true)
Cleared-called_example =
    Cleared-called demo intact 0 frame start request (job_for (codes "j1"))
      (cleared (λ call. delivered (record { tokens = 5; usd_micros = 0 })))

failure_booked_example :
    let (resp, t) = handle_request hung intact 0 frame (start_of hung) in
    let fp = LoopGuard.fingerprint hung.ex (job_for (codes "j1")) in
    (resp.accepted ≡ false)
    × (resp.recovery ≡ some (decide hung.policy (start_of hung).retry fp deadline_exceeded).1)
    × (t.retry ≡ (decide hung.policy (start_of hung).retry fp deadline_exceeded).0)
    × (t.quarantine ≡ (on_failure hung.quarantine_policy (start_of hung).quarantine fp).0)
    × (t.rate_limiter
        ≡ RateLimit.record_failure
            (limiter_after (start_of hung).rate_limiter (codes "cycle") 0)
            (codes "cycle")
            0)
    × (t.risk_ledger ≡ record_outcome (start_of hung).risk_ledger fp false)
    × (t.governor ≡ (admit hung.fl (start_of hung).governor).0)
unfolding class
failure_booked_example =
    failure_booked hung intact 0 frame (start_of hung) request (job_for (codes "j1"))
      deadline_exceeded (cleared (λ call. timed_out 30)) refl
