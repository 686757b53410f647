-- ===== src/Dispatch/Accepted.antt =====
-- What an accepted request has done (`handle_request` of crates/runner-dispatch/src/main.rs).
use flexnetos_runner.Shared.{
  ℕ, ◌≡◌, refl, ap, ◌∙◌, inl, inr, true, false, not, Option, List, arith, if◌then◌else◌,
  text_eq_refl, Text,
}
use flexnetos_runner.Cost.{JobCost}
use flexnetos_runner.Constitution.{ConstitutionStatus}
use flexnetos_runner.Dispatch.{handle_request}
use flexnetos_runner.Dispatch.Delegate.{call_for, conclude, accept, handle_failure, settle}
use flexnetos_runner.Dispatch.Cleared.{Cleared, entered}
use flexnetos_runner.Dispatch.Ends.{process-Ends}
use flexnetos_runner.Dispatch.Steps.{
  Runner, State, Delegation, delivered, failed, timed_out, idle_timed_out, answer, emit,
}
use flexnetos_runner.Events.{DispatchEvent}
use flexnetos_runner.Dispatch.Turns.{IsRefusal, policy-is_rejection}
use flexnetos_runner.Job.{JobSpec}
use flexnetos_runner.Governor.{admit, charge}
use flexnetos_runner.LoopGuard
use flexnetos_runner.Quarantine
use flexnetos_runner.Quarantine.{is_quarantined, failures}
use flexnetos_runner.Recovery.{attempts}
use flexnetos_runner.Recovery.Attempts.{attempts-clear}
use flexnetos_runner.Risk
use flexnetos_runner.Risk.{RiskScore}
use flexnetos_runner.Router
use flexnetos_runner.Router.{KernelPlan}
use flexnetos_runner.Safety.{Placement, self_hosted}
use flexnetos_runner.Shared.Dict.Laws.{get-remove}
use flexnetos_runner.Wire.Frame.{DispatchRequest, DispatchResponse, rejected, with_recovery}

module _ (r : Runner) where
  -- The ledgers of a job that was delivered at a cost.
  record Settled (job : JobSpec) (cost : JobCost) (s t : State r) : Type 0 where
    governor : t.governor ≡ charge s.governor cost
    attempts : attempts t.retry (LoopGuard.fingerprint r.ex job) ≡ 0
    failures : failures t.quarantine (LoopGuard.fingerprint r.ex job) ≡ 0
    free : is_quarantined t.quarantine (LoopGuard.fingerprint r.ex job) ≡ false

  clear_lem :
      (l : Quarantine.QuarantineLedger) (fp : Text)
      → (Quarantine.failures (Quarantine.clear l fp) fp ≡ 0)
        × (is_quarantined (Quarantine.clear l fp) fp ≡ false)
  unfolding Quarantine.clear Quarantine.failures is_quarantined
  clear_lem l fp =
      ground (arith, get-remove fp fp l.failures, get-remove fp fp l.quarantined, text_eq_refl fp)

  module _ (job : JobSpec) (plan : KernelPlan) (place : Placement) (risk : Option (RiskScore r.fl))
      (now : ℕ) (s : State r) where
    accept-Settled : (cost : JobCost) → Settled job cost s (accept r job plan place risk cost s).1
    unfolding accept settle emit
    accept-Settled cost =
        let fp = LoopGuard.fingerprint r.ex job in
        let q = clear_lem s.quarantine fp in
        record {
          governor = refl;
          attempts =
              attempts-clear s.retry fp fp
              ∙ ap (λ b. if b then 0 else attempts s.retry fp) (text_eq_refl fp);
          failures = q.0;
          free = q.1;
        }

    conclude_accepted :
        (d : Delegation)
        → (answer (conclude r d job plan place risk now s).0).accepted ≡ true
        → (cost : JobCost) × (d ≡ delivered cost)
          × Settled job cost s (conclude r d job plan place risk now s).1
    unfolding conclude handle_failure rejected with_recovery
    conclude_accepted (delivered cost) h = (cost, refl, accept-Settled cost)
    conclude_accepted (failed e) h = (let k : false ≡ true = h in cc)
    conclude_accepted (timed_out limit) h = (let k : false ≡ true = h in cc)
    conclude_accepted (idle_timed_out limit) h = (let k : false ≡ true = h in cc)

not_accepted :
    (r : Runner) (resp : DispatchResponse) (e : DispatchEvent r.fl)
    → IsRefusal r resp e
    → resp.accepted ≡ true
    → ⊥
not_accepted r resp e h was =
    let no : resp.accepted ≡ false =
      h.agrees.accepted ∙ ap not (policy-is_rejection r e.outcome h.policy) in
    cc

-- An accepted request passed every gate, and its kernel call delivered at a cost. The governor that
-- admitted it is charged with that cost once, and the retry count, the failures and the quarantine of
-- its fingerprint are cleared.
pub accepted_settles :
    (r : Runner) (c : ConstitutionStatus) (now : ℕ) (raw : List ℕ) (s : State r)
    → let (resp, t) = handle_request r c now raw s in
      resp.accepted ≡ true
      → (req : DispatchRequest) × (job : JobSpec) × (cost : JobCost) × Cleared r c now raw s req job
        × (r.invoke (call_for r req job (Router.route job)) ≡ delivered cost)
        × (t.governor ≡ charge (admit r.fl s.governor).0 cost)
        × (attempts t.retry (LoopGuard.fingerprint r.ex job) ≡ 0)
        × (failures t.quarantine (LoopGuard.fingerprint r.ex job) ≡ 0)
        × (is_quarantined t.quarantine (LoopGuard.fingerprint r.ex job) ≡ false)
unfolding handle_request emit
accepted_settles r c now raw s = elim (process-Ends r c now raw s) [
  | inl (resp, e, t, eq, h, k) ↦ rw eq (λ accepted. absurd (not_accepted r resp e h accepted))
  | inr (req, job, h, eq) ↦ rw eq (λ accepted.
      let (cost, d, settled) =
        conclude_accepted r job (Router.route job) self_hosted
          (Risk.assess r.fl r.risk_policy s.risk_ledger (LoopGuard.fingerprint r.ex job)) now
          (entered r c now raw s req job) (r.invoke (call_for r req job (Router.route job)))
          accepted in
      (req, job, cost, h, d, settled.governor, settled.attempts, settled.failures, settled.free))
]
