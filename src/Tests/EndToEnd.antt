-- ===== src/Tests/EndToEnd.antt =====
-- The theorem on the audit of the whole loop, applied to a system that is ready.
use flexnetos_runner.Shared.{
  ◌≡◌, refl, true, not, some, List, [], ◌∷◌, ◌++◌, ok, if◌then◌else◌, Text, codes, text_eq, join,
  starts_with, contains, one_of, as_bytes, to_ascii_lowercase,
}
use flexnetos_runner.ForgeLoop.Agentic.{
  AgenticSystemAuditArgs, agentic_report_on, agentic_system_audit_report, research_evidence,
  evaluation_evidence, adaptation_evidence, growth_evidence, dispatch_evidence, with_both, holds,
  live_gap,
}
use flexnetos_runner.ForgeLoop.Agentic.Ready.{EndToEnd, ready-EndToEnd}
use flexnetos_runner.ForgeLoop.Docs.{DocsDriftReport, docs_drift_report, drift_of, feature_drift}
use flexnetos_runner.ForgeLoop.Mining.{
  TargetMiningTarget, report_on_targets, ids_where, target_status,
}
use flexnetos_runner.ForgeLoop.Mining.Report.{
  expected_target_mining_targets, target_mining_audit_report,
}
use flexnetos_runner.ForgeLoop.Repository.{
  Repository, all_terms_present, texts_of, all_file_terms_present, file_term_present,
}
use flexnetos_runner.ForgeLoop.Audits.{
  runner_ops_slo_audit_report, missing_if, window_of, timestamps, proof_start, count_checks,
  count_where, runner_black_factor_audit_report,
}
use flexnetos_runner.ForgeLoop.Calendar.{parse_rfc3339_utc_seconds}
use flexnetos_runner.ForgeLoop.Idle.{
  local_runner_idle_gap_recovery, sweep, sort_intervals, intervals_of, clip, gap_before, moved,
  record_idle_gap, gap_minutes, idle_gap_has_recovery,
}
use flexnetos_runner.ForgeLoop.Runs.{
  local_runner_productive_interval, runner_sustain_interval, runner_sustain_duration_minutes,
  is_successful_runner_sustain, time_of, has_nearby_clean_merged_pr_recovery,
  has_nearby_successful_replacement, is_ops_workflow, is_failed_ops_run, is_failed_conclusion,
  is_codex_forge_loop_name, is_runner_black_factor_watch_name,
  is_successful_runner_watch_rehydration,
}
use flexnetos_runner.ForgeLoop.Flow.{runner_flow_audit_report}
use flexnetos_runner.ForgeLoop.Fleet.{runner_fleet_audit_report, dedupe_runner_fleet_jobs, collect}
use flexnetos_runner.ForgeLoop.Components.{
  components_audit_report, missing_components_of, component_status,
}
use flexnetos_runner.Shared.Sorted
use flexnetos_runner.Tests.Audits.{slo, runs}

abbrev mining_page : Text
mining_page = codes "docs/forge-loop/codex-target-mining.md"

abbrev at : Text → List Text → List (Text × Text)
at path [] = []
at path (term ∷ terms) = (path, term) ∷ at path terms

-- The terms that the targets want, with the file that each stands in.
abbrev wanted_by : List TargetMiningTarget → List (Text × Text)
wanted_by [] = []
wanted_by (t ∷ targets) =
    at mining_page t.source_terms ++ (t.application_terms ++ (t.guard_terms ++ wanted_by targets))

abbrev wanted : List (Text × Text)
wanted =
    at (codes ".agents/skills/forge-loop-research/SKILL.md") (codes "Required sources" ∷ [])
    ++ (at mining_page (codes "kclaw0 referenced resources" ∷ [])
        ++ (at (codes ".codex/checklists/forge-loop-cycle.toml")
              (codes "target_mining_audit" ∷ codes "docs_drift" ∷ [])
            ++ (at (codes "crates/runner-cli/src/forge_loop.rs")
                  (codes "agentic_system_audit_report" ∷ [])
                ++ (at (codes "docs/kclaw0-upgrade-ledger.md") (
                      codes "self-upgrade"
                      ∷ codes "kclaw0 target-mining proof"
                      ∷ codes "kclaw0 referenced-resource proof"
                      ∷ [])
                    ++ (at (codes ".github/workflows/agentic-system-watch.yml") (
                          codes "name: Agentic System Watch"
                          ∷ codes "agentic-system-audit"
                          ∷ codes "gh workflow run codex-forge-loop.yml"
                          ∷ [])
                        ++ (at (codes ".github/workflows/codex-forge-loop.yml") (
                              codes "local ChatGPT auth"
                              ∷ codes "CODEX_HOME"
                              ∷ codes "forge-loop run"
                              ∷ [])
                            ++ (at (codes ".github/workflows/runner-sustain.yml") (
                                  codes "*/10 * * * *"
                                  ∷ codes "self-hosted"
                                  ∷ codes "components-audit --strict"
                                  ∷ codes "target-mining-audit --strict"
                                  ∷ [])
                                ++ wanted_by expected_target_mining_targets)))))))

abbrev terms_at : Text → List (Text × Text) → List Text
terms_at path [] = []
terms_at path ((p, term) ∷ rest) =
    let later = terms_at path rest in if text_eq p path then term ∷ later else later

-- Each file holds the terms that are wanted in it; the crates are not there.
abbrev root : Repository
root = record {
  read = λ path. some (join (codes "\n") (terms_at path wanted));
  exists = λ path. not (starts_with (codes "crates/") path);
}

abbrev system : AgenticSystemAuditArgs
system = record {
  runs = some runs;
  open_prs = some [];
  prs_history = some [];
  fleet_jobs = [];
  expected_scope = codes "FlexNetOS/";
  max_out_of_scope_jobs = 0;
  black_factor = record {
    min_window_hours = 1;
    min_sustain_duration_minutes = 30;
    min_sustain_runs = 0;
    min_clean_merged_prs = 0;
  };
  ops_slo = slo;
}

abbrev docs : DocsDriftReport
docs = record { checked_features = 6; drift = [] }

system-audit : agentic_system_audit_report root system ≡ ok (agentic_report_on root system docs)
unfolding agentic_system_audit_report docs_drift_report drift_of feature_drift starts_with codes
system-audit = refl

system-ready : (agentic_report_on root system docs).end_to_end_ready ≡ true
unfolding agentic_report_on missing_if components_audit_report missing_components_of
    component_status codes target_mining_audit_report report_on_targets ids_where target_status
    all_terms_present contains join texts_of text_eq all_file_terms_present file_term_present
    starts_with research_evidence evaluation_evidence adaptation_evidence growth_evidence
    dispatch_evidence with_both holds live_gap runner_flow_audit_report
    runner_black_factor_audit_report runner_fleet_audit_report dedupe_runner_fleet_jobs collect
    Sorted.values one_of runner_ops_slo_audit_report window_of timestamps time_of
    parse_rfc3339_utc_seconds as_bytes local_runner_idle_gap_recovery proof_start sweep
    sort_intervals intervals_of clip local_runner_productive_interval runner_sustain_interval
    to_ascii_lowercase count_checks count_where gap_before moved record_idle_gap gap_minutes
    idle_gap_has_recovery has_nearby_clean_merged_pr_recovery has_nearby_successful_replacement
    is_ops_workflow is_failed_ops_run is_failed_conclusion is_codex_forge_loop_name
    is_runner_black_factor_watch_name is_successful_runner_watch_rehydration
    is_successful_runner_sustain runner_sustain_duration_minutes
system-ready = refl

ready-EndToEnd_example : EndToEnd system (agentic_report_on root system docs)
ready-EndToEnd_example =
    ready-EndToEnd root system (agentic_report_on root system docs) system-audit system-ready
