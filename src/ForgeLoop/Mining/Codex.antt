-- ===== src/ForgeLoop/Mining/Codex.antt =====
-- The first of the targets of expected_target_mining_targets (crates/runner-cli/src/forge_loop.rs).
use flexnetos_runner.Shared.{[], ◌∷◌, codes}
use flexnetos_runner.ForgeLoop.Mining.{TargetMiningTarget}

abbrev pub openai_codex_target : TargetMiningTarget
openai_codex_target = record {
  id = codes "openai-codex";
  url = codes "https://github.com/openai/codex";
  source_terms =
      codes "https://github.com/openai/codex"
      ∷ codes "Codex Rust CLI"
      ∷ codes "noninteractive execution"
      ∷ [];
  application_terms =
      (codes "crates/runner-cli/src/forge_loop.rs", codes "codex_invocation")
      ∷ (codes "crates/runner-cli/src/forge_loop.rs", codes "--json")
      ∷ (codes "crates/runner-cli/src/forge_loop.rs", codes "codex exec")
      ∷ [];
  guard_terms =
      (
        codes "crates/runner-cli/src/forge_loop.rs",
        codes "codex_invocation_uses_noninteractive_json_workspace_write",
      )
      ∷ (
        codes "crates/runner-cli/src/forge_loop.rs",
        codes "target_mining_audit_covers_full_research_source_matrix",
      )
      ∷ [];
}

abbrev pub codex_config_advanced_target : TargetMiningTarget
codex_config_advanced_target = record {
  id = codes "codex-config-advanced";
  url = codes "https://developers.openai.com/codex/config-advanced";
  source_terms =
      codes "https://developers.openai.com/codex/config-advanced"
      ∷ codes "Codex project config"
      ∷ codes "auto-compaction"
      ∷ [];
  application_terms =
      (codes ".codex/config.toml", codes "auto_compaction = true")
      ∷ (codes ".codex/config.toml", codes "experimental_compact_prompt_file")
      ∷ (codes "crates/runner-cli/src/forge_loop.rs", codes "features.auto_compaction=true")
      ∷ [];
  guard_terms =
      (
        codes "crates/runner-cli/src/forge_loop.rs",
        codes "forge_loop_config_enables_auto_compaction",
      )
      ∷ (
        codes "crates/runner-cli/src/forge_loop.rs",
        codes "codex_invocation_forces_auto_compaction_continuity",
      )
      ∷ [];
}

abbrev pub codex_github_action_target : TargetMiningTarget
codex_github_action_target = record {
  id = codes "codex-github-action";
  url = codes "https://developers.openai.com/codex/github-action";
  source_terms =
      codes "developers.openai.com/codex/github-action"
      ∷ codes "final-message"
      ∷ codes "--output-schema"
      ∷ [];
  application_terms =
      (codes ".github/workflows/codex-forge-loop.yml", codes "workflow_dispatch")
      ∷ (codes ".github/workflows/codex-forge-loop.yml", codes "prompt_file:")
      ∷ (codes ".github/workflows/codex-forge-loop.yml", codes "codex-forge-loop-output.md")
      ∷ (codes ".github/workflows/codex-forge-loop.yml", codes "local ChatGPT auth")
      ∷ (codes ".github/workflows/codex-forge-loop.yml", codes "FXRUN_CODEX")
      ∷ (codes ".github/codex/schemas/forge-loop-output.schema.json", codes "component_inventory")
      ∷ (
        codes ".github/codex/schemas/forge-loop-output.schema.json",
        codes "auto_compact_continuity",
      )
      ∷ (codes ".github/codex/schemas/forge-loop-output.schema.json", codes "auth_mode")
      ∷ [];
  guard_terms =
      (
        codes "crates/runner-cli/src/forge_loop.rs",
        codes "codex_github_action_workflow_uses_documented_controls",
      )
      ∷ (
        codes "crates/runner-cli/src/forge_loop.rs",
        codes "output_schema_audit_requires_subscription_auth_inventory_and_continuity",
      )
      ∷ (codes "crates/runner-cli/src/forge_loop.rs", codes "target_mining_audit_report")
      ∷ [];
}

abbrev pub codex_permissions_target : TargetMiningTarget
codex_permissions_target = record {
  id = codes "codex-permissions";
  url = codes "https://developers.openai.com/codex/permissions";
  source_terms =
      codes "developers.openai.com/codex/permissions"
      ∷ codes "default_permissions"
      ∷ codes "sandbox_mode"
      ∷ [];
  application_terms =
      (codes ".codex/permissions/forge-loop-workspace.toml", codes "default_permissions")
      ∷ (codes ".codex/permissions/forge-loop-workspace.toml", codes "**/*.env")
      ∷ (codes ".codex/hooks/forge_loop_permission_request.py", codes "profile_is_blueprint_only")
      ∷ [];
  guard_terms =
      (
        codes "crates/runner-cli/src/forge_loop.rs",
        codes "codex_deep_target_mining_surfaces_are_guarded",
      )
      ∷ (
        codes "crates/runner-cli/src/forge_loop.rs",
        codes "do not mix active permission profiles with sandbox_mode",
      )
      ∷ [];
}

abbrev pub codex_subagents_target : TargetMiningTarget
codex_subagents_target = record {
  id = codes "codex-subagents";
  url = codes "https://developers.openai.com/codex/subagents";
  source_terms =
      codes "developers.openai.com/codex/subagents"
      ∷ codes "nickname_candidates"
      ∷ codes "SubagentStart"
      ∷ [];
  application_terms =
      (codes ".codex/agents/forge-loop-researcher.toml", codes "nickname_candidates")
      ∷ (codes ".codex/agents/forge-loop-ci-sentinel.toml", codes "nickname_candidates")
      ∷ (codes ".codex/hooks/forge-loop-hooks.manifest.json", codes "SubagentStart")
      ∷ (codes ".codex/hooks/forge-loop-hooks.manifest.json", codes "SubagentStop")
      ∷ [];
  guard_terms =
      (codes "crates/runner-cli/src/forge_loop.rs", codes "subagent-roster")
      ∷ (codes "crates/runner-cli/src/forge_loop.rs", codes "ci-sentinel-subagent")
      ∷ [];
}
