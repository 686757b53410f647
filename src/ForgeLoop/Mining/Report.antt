-- ===== src/ForgeLoop/Mining/Report.antt =====
-- The targets that target_mining_audit_report of crates/runner-cli/src/forge_loop.rs expects.
use flexnetos_runner.Shared.{List, [], ◌∷◌}
use flexnetos_runner.ForgeLoop.Repository.{Repository}
use flexnetos_runner.ForgeLoop.Mining.{
  TargetMiningTarget, TargetMiningAuditReport, report_on_targets,
}
use flexnetos_runner.ForgeLoop.Mining.Codex.{
  openai_codex_target, codex_config_advanced_target, codex_github_action_target,
  codex_permissions_target, codex_subagents_target,
}
use flexnetos_runner.ForgeLoop.Mining.Ecosystem.{
  awesome_codex_cli_target, oh_my_codex_target, crates_io_target, kclaw0_target,
  kclaw0_referenced_resources_target,
}

abbrev pub expected_target_mining_targets : List TargetMiningTarget
expected_target_mining_targets =
    openai_codex_target ∷ codex_config_advanced_target ∷ codex_github_action_target
    ∷ codex_permissions_target ∷ codex_subagents_target ∷ awesome_codex_cli_target
    ∷ oh_my_codex_target ∷ crates_io_target ∷ kclaw0_target ∷ kclaw0_referenced_resources_target
    ∷ []

unfoldable pub target_mining_audit_report : Repository → TargetMiningAuditReport
target_mining_audit_report root = report_on_targets root expected_target_mining_targets
