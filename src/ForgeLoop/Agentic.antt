-- ===== src/ForgeLoop/Agentic.antt =====
-- The audit of the whole loop: agentic_system_audit_report of crates/runner-cli/src/forge_loop.rs, on
-- the files of the repository and what the JSON files hold that it is given.
pub mod Ready
use flexnetos_runner.Shared.{
  ℕ, Bool, true, false, not, ◌&&◌, ◌||◌, Option, none, some, List, [], ◌∷◌, ◌++◌, leb,
  if◌then◌else◌, is_empty, unwrap_or, one_of, Result, ok, err, ◌>>=◌, Text, codes,
}
use flexnetos_runner.ForgeLoop.Entries.{WorkflowRunEntry, PrHistoryEntry, PrFlowEntry}
use flexnetos_runner.ForgeLoop.Audits.{
  missing_if, RunnerBlackFactorAuditArgs, RunnerBlackFactorAuditReport,
  runner_black_factor_audit_report, RunnerOpsSloAuditArgs, RunnerOpsSloAuditReport,
  runner_ops_slo_audit_report,
}
use flexnetos_runner.ForgeLoop.Components.{ComponentsAuditReport, components_audit_report}
use flexnetos_runner.ForgeLoop.Docs.{DocsDriftReport, docs_drift_report}
use flexnetos_runner.ForgeLoop.Flow.{RunnerFlowAuditReport, runner_flow_audit_report}
use flexnetos_runner.ForgeLoop.Fleet.{
  RunnerFleetJob, RunnerFleetAuditReport, runner_fleet_audit_report,
}
use flexnetos_runner.ForgeLoop.Mining.{TargetMiningAuditReport}
use flexnetos_runner.ForgeLoop.Mining.Report.{target_mining_audit_report}
use flexnetos_runner.ForgeLoop.Repository.{Repository, all_file_terms_present}

pub record AgenticSystemAuditArgs : Type 0 where
  pub runs : Option (List WorkflowRunEntry)
  pub open_prs : Option (List PrFlowEntry)
  pub prs_history : Option (List PrHistoryEntry)
  pub fleet_jobs : List RunnerFleetJob
  pub expected_scope : Text
  pub max_out_of_scope_jobs : ℕ
  pub black_factor : RunnerBlackFactorAuditArgs
  pub ops_slo : RunnerOpsSloAuditArgs

pub record AgenticSystemAuditReport : Type 0 where
  pub components : ComponentsAuditReport
  pub target_mining : TargetMiningAuditReport
  pub docs_drift : DocsDriftReport
  pub runner_flow : Option RunnerFlowAuditReport
  pub runner_black_factor : Option RunnerBlackFactorAuditReport
  pub runner_ops_slo : Option RunnerOpsSloAuditReport
  pub runner_fleet : RunnerFleetAuditReport
  pub research_loop_evidence : Bool
  pub evaluation_loop_evidence : Bool
  pub adaptation_loop_evidence : Bool
  pub growth_loop_evidence : Bool
  pub self_improvement_dispatch_evidence : Bool
  pub end_to_end_ready : Bool
  pub missing_evidence : List Text

-- Both files are given.
unfoldable pub with_both : {A B C : Type 0} → (A → B → C) → Option A → Option B → Option C
with_both f none b = none
with_both f (some a) none = none
with_both f (some a) (some b) = some (f a b)

-- The report is there and passes.
unfoldable pub holds : {A : Type 0} → (A → Bool) → Option A → Bool
holds test none = false
holds test (some a) = test a

-- What is missing of a report that needs its files.
unfoldable pub live_gap : {A : Type 0} → (A → Bool) → Text → Text → Option A → List Text
live_gap test absent bad none = absent ∷ []
live_gap test absent bad (some a) = if test a then [] else bad ∷ []

unfoldable pub research_evidence : Repository → TargetMiningAuditReport → Bool
research_evidence root mining =
    is_empty mining.missing_targets
    && one_of (codes "kclaw0") mining.covered_targets
    && one_of (codes "kclaw0-referenced-resources") mining.covered_targets
    && all_file_terms_present root (
        (codes ".agents/skills/forge-loop-research/SKILL.md", codes "Required sources")
        ∷ (codes "docs/forge-loop/codex-target-mining.md", codes "kclaw0 referenced resources")
        ∷ [])

unfoldable pub evaluation_evidence : Repository → ComponentsAuditReport → DocsDriftReport → Bool
evaluation_evidence root components docs =
    is_empty components.missing_components
    && is_empty docs.drift
    && all_file_terms_present root (
        (codes ".codex/checklists/forge-loop-cycle.toml", codes "target_mining_audit")
        ∷ (codes ".codex/checklists/forge-loop-cycle.toml", codes "docs_drift")
        ∷ (codes "crates/runner-cli/src/forge_loop.rs", codes "agentic_system_audit_report")
        ∷ [])

unfoldable pub adaptation_evidence : Repository → Bool
adaptation_evidence root = all_file_terms_present root (
    (codes "docs/kclaw0-upgrade-ledger.md", codes "self-upgrade")
    ∷ (codes "docs/kclaw0-upgrade-ledger.md", codes "kclaw0 target-mining proof")
    ∷ (codes "docs/kclaw0-upgrade-ledger.md", codes "kclaw0 referenced-resource proof")
    ∷ [])

unfoldable pub growth_evidence :
    Option RunnerBlackFactorAuditReport
    → Option RunnerOpsSloAuditReport
    → Option RunnerFlowAuditReport
    → Bool
growth_evidence black ops flow =
    holds (λ b. b.exceeded && leb b.min_clean_merged_prs b.clean_merged_prs) black
    && holds (λ o. o.burn_in_ready) ops
    && holds (λ f. f.pr_flow_seamless && not f.idle_without_work) flow

unfoldable pub dispatch_evidence : Repository → Bool
dispatch_evidence root =
    let watch = codes ".github/workflows/agentic-system-watch.yml" in
    let cycle = codes ".github/workflows/codex-forge-loop.yml" in
    all_file_terms_present root (
      (watch, codes "name: Agentic System Watch")
      ∷ (watch, codes "agentic-system-audit")
      ∷ (watch, codes "gh workflow run codex-forge-loop.yml")
      ∷ (cycle, codes "local ChatGPT auth")
      ∷ (cycle, codes "CODEX_HOME")
      ∷ (cycle, codes "forge-loop run")
      ∷ [])

module _ (root : Repository) (args : AgenticSystemAuditArgs) where
  flow_of : Option RunnerFlowAuditReport
  flow_of =
      with_both
        (runner_flow_audit_report (root.read (codes ".github/workflows/runner-sustain.yml")))
        args.runs args.open_prs

  black_of : Option RunnerBlackFactorAuditReport
  black_of =
      with_both (runner_black_factor_audit_report args.black_factor) args.runs args.prs_history

  ops_of : Option RunnerOpsSloAuditReport
  ops_of =
      with_both
        (λ runs prs.
          runner_ops_slo_audit_report args.ops_slo runs prs (unwrap_or args.prs_history []))
        args.runs args.open_prs

  -- The report, once the ledger could be read.
  unfoldable pub agentic_report_on : DocsDriftReport → AgenticSystemAuditReport
  unfolding flow_of black_of ops_of
  agentic_report_on docs =
      let components = components_audit_report root in
      let mining = target_mining_audit_report root in
      let fleet =
        runner_fleet_audit_report args.expected_scope args.max_out_of_scope_jobs args.fleet_jobs in
      let research = research_evidence root mining in
      let evaluation = evaluation_evidence root components docs in
      let adaptation = adaptation_evidence root in
      let growth = growth_evidence black_of ops_of flow_of in
      let dispatch = dispatch_evidence root in
      let missing =
        missing_if (not (is_empty components.missing_components)) (codes "component_inventory")
        ++ (missing_if (not (is_empty mining.missing_targets)) (codes "target_mining")
            ++ (missing_if (not (is_empty docs.drift)) (codes "docs_drift")
                ++ (missing_if (not research) (codes "always_researching")
                    ++ (missing_if (not evaluation) (codes "always_evaluating")
                        ++ (missing_if (not adaptation) (codes "always_adapting")
                            ++ (live_gap (λ f. is_empty f.missing_evidence)
                                  (codes "runner_flow_live_evidence") (codes "runner_flow") flow_of
                                ++ (live_gap (λ b. b.exceeded) (codes "black_factor_live_evidence")
                                      (codes "black_factor_exceeded") black_of
                                    ++ (live_gap (λ o. o.burn_in_ready)
                                          (codes "ops_slo_live_evidence") (codes "ops_slo_burn_in")
                                          ops_of
                                        ++ (missing_if (not fleet.fleet_ready)
                                              (codes "fleet_lane_ownership")
                                            ++ (missing_if (not growth) (codes "always_growing")
                                                ++ missing_if (not dispatch)
                                                    (codes "self_improvement_dispatch"))))))))))) in
      record {
        components = components;
        target_mining = mining;
        docs_drift = docs;
        runner_flow = flow_of;
        runner_black_factor = black_of;
        runner_ops_slo = ops_of;
        runner_fleet = fleet;
        research_loop_evidence = research;
        evaluation_loop_evidence = evaluation;
        adaptation_loop_evidence = adaptation;
        growth_loop_evidence = growth;
        self_improvement_dispatch_evidence = dispatch;
        end_to_end_ready = is_empty missing;
        missing_evidence = missing;
      }

  unfoldable pub agentic_system_audit_report : Result AgenticSystemAuditReport Text
  agentic_system_audit_report = docs_drift_report root >>= λ docs. ok (agentic_report_on docs)
