-- ===== src/ForgeLoop/Agentic/Ready.antt =====
-- What an end-to-end ready system has shown (crates/runner-cli/src/forge_loop.rs).
use flexnetos_runner.Shared.{
  ◌≡◌, refl, Bool, true, not, Option, none, some, List, [], ◌∷◌, ◌++◌, arith, is_empty, Text, ok,
  ok-injective, >>=-ok, ap, ◌∙◌, unwrap_or,
}
use flexnetos_runner.ForgeLoop.Entries.{WorkflowRunEntry, PrHistoryEntry, PrFlowEntry}
use flexnetos_runner.ForgeLoop.Audits.{
  missing_if, runner_black_factor_audit_report, runner_ops_slo_audit_report,
}
use flexnetos_runner.ForgeLoop.Agentic.{
  AgenticSystemAuditArgs, AgenticSystemAuditReport, live_gap, holds, growth_evidence, with_both,
  agentic_report_on, agentic_system_audit_report,
}
use flexnetos_runner.ForgeLoop.Docs.{DocsDriftReport, docs_drift_report}
use flexnetos_runner.ForgeLoop.Repository.{Repository}

missing_if-empty :
    (b : Bool) (n : Text) (rest : List Text)
    → is_empty (missing_if (not b) n ++ rest) ≡ true
    → (b ≡ true) × (is_empty rest ≡ true)
unfolding missing_if
missing_if-empty b n rest h = ground arith

live_gap-empty :
    {A : Type 0} (test : A → Bool) (m n : Text) (o : Option A) (rest : List Text)
    → is_empty (live_gap test m n o ++ rest) ≡ true
    → (holds test o ≡ true) × (is_empty rest ≡ true)
unfolding live_gap holds
live_gap-empty test m n none rest h = cc
live_gap-empty test m n (some a) rest h = ground arith

-- What the report says of a ready system.
record Shown (r : AgenticSystemAuditReport) : Type 0 where
  components : r.components.missing_components ≡ []
  targets : r.target_mining.missing_targets ≡ []
  docs : r.docs_drift.drift ≡ []
  flow : holds (λ f. is_empty f.missing_evidence) r.runner_flow ≡ true
  black : holds (λ b. b.exceeded) r.runner_black_factor ≡ true
  ops : holds (λ o. o.burn_in_ready) r.runner_ops_slo ≡ true
  fleet : r.runner_fleet.fleet_ready ≡ true
  growth : growth_evidence r.runner_black_factor r.runner_ops_slo r.runner_flow ≡ true

empty_list : {A : Type 0} (xs : List A) → is_empty xs ≡ true → xs ≡ []
empty_list [] h = refl
empty_list (x ∷ xs) h = cc

report-Shown :
    (root : Repository) (args : AgenticSystemAuditArgs) (docs : DocsDriftReport)
    → (agentic_report_on root args docs).end_to_end_ready ≡ true
    → Shown (agentic_report_on root args docs)
unfolding agentic_report_on
report-Shown root args docs h =
    let (components, h1) = missing_if-empty _ _ _ h in
    let (targets, h2) = missing_if-empty _ _ _ h1 in
    let (drift, h3) = missing_if-empty _ _ _ h2 in
    let (research, h4) = missing_if-empty _ _ _ h3 in
    let (evaluation, h5) = missing_if-empty _ _ _ h4 in
    let (adaptation, h6) = missing_if-empty _ _ _ h5 in
    let (flow, h7) = live_gap-empty _ _ _ _ _ h6 in
    let (black, h8) = live_gap-empty _ _ _ _ _ h7 in
    let (ops, h9) = live_gap-empty _ _ _ _ _ h8 in
    let (fleet, h10) = missing_if-empty _ _ _ h9 in
    let (growth, h11) = missing_if-empty _ _ _ h10 in
    record {
      components = empty_list _ components;
      targets = empty_list _ targets;
      docs = empty_list _ drift;
      flow = flow;
      black = black;
      ops = ops;
      fleet = fleet;
      growth = growth;
    }

with_both-holds :
    {A B C : Type 0} (test : C → Bool) (f : A → B → C) (o : Option A) (p : Option B)
    → holds test (with_both f o p) ≡ true
    → (a : A) × (o ≡ some a) × ((b : B) × (p ≡ some b) × (test (f a b) ≡ true))
unfolding holds with_both
with_both-holds test f none p h = cc
with_both-holds test f (some a) none h = cc
with_both-holds test f (some a) (some b) h = (a, refl, (b, refl, h))

-- What the audit was given, and what it found there and in the repository.
pub record EndToEnd (args : AgenticSystemAuditArgs) (r : AgenticSystemAuditReport) : Type 0 where
  pub runs : List WorkflowRunEntry
  pub open_prs : List PrFlowEntry
  pub history : List PrHistoryEntry
  pub runs_given : args.runs ≡ some runs
  pub open_prs_given : args.open_prs ≡ some open_prs
  pub history_given : args.prs_history ≡ some history
  pub burn_in :
      (runner_ops_slo_audit_report args.ops_slo runs open_prs history).burn_in_ready ≡ true
  pub black_factor :
      (runner_black_factor_audit_report args.black_factor runs history).exceeded ≡ true
  pub components : r.components.missing_components ≡ []
  pub targets : r.target_mining.missing_targets ≡ []
  pub docs : r.docs_drift.drift ≡ []
  pub fleet : r.runner_fleet.fleet_ready ≡ true

report-EndToEnd :
    (root : Repository) (args : AgenticSystemAuditArgs) (docs : DocsDriftReport)
    → Shown (agentic_report_on root args docs)
    → EndToEnd args (agentic_report_on root args docs)
unfolding agentic_report_on
report-EndToEnd root args docs s =
    let (runs, runs_given, (open_prs, open_prs_given, burn_in)) = with_both-holds _ _ _ _ s.ops in
    let (runs', runs_too, (history, history_given, exceeded)) = with_both-holds _ _ _ _ s.black in
    let same : runs' ≡ runs = cc in
    record {
      runs = runs;
      open_prs = open_prs;
      history = history;
      runs_given = runs_given;
      open_prs_given = open_prs_given;
      history_given = history_given;
      burn_in =
          rw (ap (λ (o : Option (List PrHistoryEntry)). unwrap_or o []) history_given) at burn_in;
      black_factor = rw same at exceeded;
      components = s.components;
      targets = s.targets;
      docs = s.docs;
      fleet = s.fleet;
    }

-- An audit that finds the system ready end to end was given the runs, the open pull requests and the
-- history, in which the burn-in is ready and the black factor is exceeded, and it found no component
-- and no target missing, no drift of the documents, and the fleet ready.
pub ready-EndToEnd :
    (root : Repository) (args : AgenticSystemAuditArgs) (r : AgenticSystemAuditReport)
    → agentic_system_audit_report root args ≡ ok r
    → r.end_to_end_ready ≡ true
    → EndToEnd args r
unfolding agentic_system_audit_report
ready-EndToEnd root args r made ready =
    let (docs, read, last) = >>=-ok (docs_drift_report root) _ made in
    let is_r : agentic_report_on root args docs ≡ r = ok-injective last in
    rw is_r at (
      report-EndToEnd root args docs (
        report-Shown root args docs
          (ap (λ (x : AgenticSystemAuditReport). x.end_to_end_ready) is_r ∙ ready)))
