-- ===== src/ForgeLoop/Mining/Ecosystem.antt =====
-- The last of the targets of expected_target_mining_targets (crates/runner-cli/src/forge_loop.rs).
use flexnetos_runner.Shared.{[], ◌∷◌, codes}
use flexnetos_runner.ForgeLoop.Mining.{TargetMiningTarget}

abbrev pub awesome_codex_cli_target : TargetMiningTarget
awesome_codex_cli_target = record {
  id = codes "awesome-codex-cli";
  url = codes "https://github.com/RoggeOhta/awesome-codex-cli";
  source_terms =
      codes "RoggeOhta/awesome-codex-cli" ∷ codes "Monitoring" ∷ codes "MCP" ∷ codes "CI/CD" ∷ [];
  application_terms =
      (codes ".agents/skills/forge-loop-research/SKILL.md", codes "RoggeOhta/awesome-codex-cli")
      ∷ (
        codes "docs/forge-loop/codex-target-exhaustion-matrix.md",
        codes "workflow/session managers",
      )
      ∷ [];
  guard_terms =
      (codes "crates/runner-cli/src/forge_loop.rs", codes "target-mining-audit")
      ∷ (codes "crates/runner-cli/src/forge_loop.rs", codes "target-mining-ledger")
      ∷ [];
}

abbrev pub oh_my_codex_target : TargetMiningTarget
oh_my_codex_target = record {
  id = codes "oh-my-codex";
  url = codes "https://github.com/Yeachan-Heo/oh-my-codex";
  source_terms =
      codes "Yeachan-Heo/oh-my-codex"
      ∷ codes "named worktree"
      ∷ codes "doctor"
      ∷ codes "native hook"
      ∷ [];
  application_terms =
      (codes ".codex/prompts/forge-loop.md", codes "isolated named worktrees")
      ∷ (codes ".codex/hooks/forge_loop_compact_summary.py", codes "covered_targets")
      ∷ (codes ".codex/config.toml", codes "auto_compaction = true")
      ∷ (codes ".codex/prompts/compact-forge-loop.md", codes "next action")
      ∷ (codes "docs/forge-loop/codex-target-exhaustion-matrix.md", codes "deep-interview")
      ∷ [];
  guard_terms =
      (codes "crates/runner-cli/src/forge_loop.rs", codes "target_mining_audit_report")
      ∷ (codes "crates/runner-cli/src/forge_loop.rs", codes "oh-my-codex")
      ∷ [];
}

abbrev pub crates_io_target : TargetMiningTarget
crates_io_target = record {
  id = codes "crates-io";
  url = codes "https://crates.io";
  source_terms =
      codes "https://crates.io"
      ∷ codes "Rust crates"
      ∷ codes "scheduling, tracing, structured output, evaluation, and reliability"
      ∷ [];
  application_terms =
      (codes "Cargo.toml", codes "workspace")
      ∷ (codes "Cargo.lock", codes "serde_json")
      ∷ (codes "Cargo.lock", codes "anyhow")
      ∷ (codes "crates/runner-cli/src/forge_loop.rs", codes "serde_json")
      ∷ [];
  guard_terms =
      (
        codes "crates/runner-cli/src/forge_loop.rs",
        codes "target_mining_audit_covers_full_research_source_matrix",
      )
      ∷ (
        codes "crates/runner-cli/src/forge_loop.rs",
        codes "doctor_json_exports_required_gate_contract",
      )
      ∷ [];
}

abbrev pub kclaw0_target : TargetMiningTarget
kclaw0_target = record {
  id = codes "kclaw0";
  url = codes "https://github.com/drdave-flexnetos/kclaw0";
  source_terms =
      codes "drdave-flexnetos/kclaw0"
      ∷ codes "24/7 autonomous operation"
      ∷ codes "self-upgrade pipeline"
      ∷ codes "GitHub label state machine"
      ∷ codes "holdout validation"
      ∷ [];
  application_terms =
      (
        codes "docs/forge-loop/kclaw0-runner-flow-target.md",
        codes "runner-black-factor-audit --strict",
      )
      ∷ (
        codes "docs/forge-loop/kclaw0-runner-flow-target.md",
        codes "runner-ops-slo-audit --strict",
      )
      ∷ (codes "docs/forge-loop/kclaw0-runner-flow-target.md", codes "runner-fleet-audit --strict")
      ∷ (
        codes "docs/forge-loop/kclaw0-runner-flow-target.md",
        codes "runner-queue-audit --repo-jobs-json",
      )
      ∷ (codes "docs/forge-loop/agentic-system-proof.md", codes "agentic-system-audit --strict")
      ∷ (codes ".github/workflows/runner-sustain.yml", codes "name: Runner Sustain")
      ∷ (
        codes ".github/workflows/runner-black-factor-watch.yml",
        codes "name: Runner Black Factor Watch",
      )
      ∷ (codes ".github/workflows/agentic-system-watch.yml", codes "name: Agentic System Watch")
      ∷ [];
  guard_terms =
      (
        codes "crates/runner-cli/src/forge_loop.rs",
        codes "runner_black_factor_audit_accepts_kclaw0_window_fixture",
      )
      ∷ (
        codes "crates/runner-cli/src/forge_loop.rs",
        codes "runner_ops_slo_audit_accepts_event_rehydrated_burn_in",
      )
      ∷ (
        codes "crates/runner-cli/src/forge_loop.rs",
        codes "runner_fleet_audit_default_scope_accepts_all_flexnetos_org_repos",
      )
      ∷ (
        codes "crates/runner-cli/src/forge_loop.rs",
        codes "runner_queue_audit_classifies_local_waits_and_nonlocal_queues",
      )
      ∷ (codes "crates/runner-cli/src/forge_loop.rs", codes "agentic_system_audit_report")
      ∷ (
        codes "crates/runner-cli/src/forge_loop.rs",
        codes "agentic_system_watch_dispatches_codex_growth_safely",
      )
      ∷ (codes "crates/runner-cli/src/forge_loop.rs", codes "kclaw0")
      ∷ [];
}

abbrev pub kclaw0_referenced_resources_target : TargetMiningTarget
kclaw0_referenced_resources_target = record {
  id = codes "kclaw0-referenced-resources";
  url = codes "https://github.com/drdave-flexnetos/kclaw0";
  source_terms =
      codes "kclaw0 referenced resources"
      ∷ codes "strongdm/attractor"
      ∷ codes "coleam00/Archon"
      ∷ codes "Conway-Research/automaton"
      ∷ codes "oh-my-pi"
      ∷ [];
  application_terms =
      (codes "docs/kclaw0-upgrade-ledger.md", codes "Prior-art batch")
      ∷ (codes "docs/kclaw0-upgrade-ledger.md", codes "Cycle-11 deep-research sweep")
      ∷ (codes "docs/kclaw0-upgrade-ledger.md", codes "Cycle-16 deep-research sweep")
      ∷ (codes "docs/kclaw0-upgrade-ledger.md", codes "strongdm/attractor")
      ∷ (codes "docs/kclaw0-upgrade-ledger.md", codes "coleam00/Archon")
      ∷ (codes "docs/kclaw0-upgrade-ledger.md", codes "Conway-Research/automaton")
      ∷ [];
  guard_terms =
      (codes "crates/runner-cli/src/forge_loop.rs", codes "target_mining_audit_report")
      ∷ (codes "crates/runner-cli/src/forge_loop.rs", codes "kclaw0-referenced-resources")
      ∷ (
        codes "crates/runner-cli/src/forge_loop.rs",
        codes "kclaw0 referenced resources must be first-class target-mining coverage",
      )
      ∷ [];
}
