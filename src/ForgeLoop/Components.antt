-- ===== src/ForgeLoop/Components.antt =====
-- The surfaces of the loop: components_audit_report and components_audit_strict_blockers of
-- crates/runner-cli/src/forge_loop.rs.
use flexnetos_runner.Shared.{ℕ, Bool, List, [], ◌∷◌, ◌++◌, if◌then◌else◌, length, map, Text, codes}
use flexnetos_runner.ForgeLoop.Readiness.{
  PermissionProfileReadiness, ChecklistShellDisciplineReadiness, permission_profile_readiness,
  checklist_shell_discipline_readiness,
}
use flexnetos_runner.ForgeLoop.Repository.{Repository}

pub record LoopComponent : Type 0 where
  pub id : Text
  pub surface : Text
  pub path : Text
  pub rationale : Text

abbrev loop_component : Text → Text → Text → Text → LoopComponent
loop_component id surface path rationale = record {
  id = id;
  surface = surface;
  path = path;
  rationale = rationale;
}

abbrev pub expected_loop_components : List LoopComponent
expected_loop_components =
    loop_component (codes "codex-prompt") (codes "prompt") (codes ".codex/prompts/forge-loop.md") (
      codes
        "Codex GitHub Action docs recommend prompt-file inputs stored under .github/codex/prompts; this repo also keeps the local forge-loop prompt as a Codex prompt artifact.")
    ∷ loop_component (codes "compact-prompt") (codes "prompt")
        (codes ".codex/prompts/compact-forge-loop.md")
        (codes
          "Long-running forge-loop sessions need an explicit compact prompt so auto-compaction preserves phase, source coverage, validation state, and next action instead of context rot.")
    ∷ loop_component (codes "project-config") (codes "config") (codes ".codex/config.toml") (
        codes
          "Advanced Codex config supports trusted project-scoped .codex/config.toml layers for repo-local model, sandbox, agent, MCP, and skill defaults.")
    ∷ loop_component (codes "permission-request-hook") (codes "hooks")
        (codes ".codex/hooks/forge_loop_permission_request.py")
        (codes
          "Codex PermissionRequest hooks can witness approval posture while components-audit exposes permission-profile migration readiness.")
    ∷ loop_component (codes "post-tool-hook") (codes "hooks")
        (codes ".codex/hooks/forge_loop_post_tool_use.py")
        (codes
          "Codex PostToolUse hooks let the harness re-check critical loop surfaces after mutating tool calls.")
    ∷ loop_component (codes "compact-summary-hook") (codes "hooks")
        (codes ".codex/hooks/forge_loop_compact_summary.py")
        (codes
          "Codex PreCompact/PostCompact hooks preserve target-mining continuity across context compaction.")
    ∷ loop_component (codes "hook-manifest") (codes "hooks")
        (codes ".codex/hooks/forge-loop-hooks.manifest.json")
        (codes
          "A machine-readable hook manifest keeps lifecycle event coverage, script paths, and expected JSON keys auditable.")
    ∷ loop_component (codes "rules") (codes "rules") (codes ".codex/rules/forge-loop.rules") (
        codes
          "Codex rules provide executable command-policy guardrails with inline match/not_match examples.")
    ∷ loop_component (codes "subagent") (codes "agents")
        (codes ".codex/agents/forge-loop-auditor.toml")
        (codes
          "Codex custom agents live under .codex/agents and can encode narrow reviewer or auditor roles with model and sandbox defaults.")
    ∷ loop_component (codes "subagent-roster") (codes "agents")
        (codes ".codex/agents/forge-loop-researcher.toml")
        (codes
          "Codex subagent docs recommend narrow project-scoped custom agents for parallelizable research and review work.")
    ∷ loop_component (codes "ci-sentinel-subagent") (codes "agents")
        (codes ".codex/agents/forge-loop-ci-sentinel.toml")
        (codes
          "Programmatic Codex Action runs need a focused CI/release readiness reviewer for workflow, artifact, and gate evidence.")
    ∷ loop_component (codes "permission-profile-blueprint") (codes "permissions")
        (codes ".codex/permissions/forge-loop-workspace.toml")
        (codes
          "Codex permission profiles provide a least-privilege migration target and parity source for the active config readiness audit.")
    ∷ loop_component (codes "skill") (codes "skills")
        (codes ".agents/skills/forge-loop-research/SKILL.md")
        (codes
          "The forge-loop research skill is the existing reusable workflow for strict-upgrade self-improvement research.")
    ∷ loop_component (codes "github-action") (codes "tools") (codes ".github/workflows/ci.yml") (
        codes
          "GitHub workflow configuration is the current CI/tool gate surface for required forge-loop checks.")
    ∷ loop_component (codes "runner-sustain-workflow") (codes "tools")
        (codes ".github/workflows/runner-sustain.yml")
        (codes
          "Runner sustain automation keeps self-hosted runner slots doing useful forge-loop audits on a schedule and by manual dispatch.")
    ∷ loop_component (codes "runner-black-factor-watch-workflow") (codes "tools")
        (codes ".github/workflows/runner-black-factor-watch.yml")
        (codes
          "The black-factor watch workflow audits runner flow, refills Runner Sustain when sustain work disappears, and uploads run/PR evidence artifacts for the 12-hour proof window.")
    ∷ loop_component (codes "agentic-system-watch-workflow") (codes "tools")
        (codes ".github/workflows/agentic-system-watch.yml")
        (codes
          "The agentic system watch proves the composite 24/7 audit and safely dispatches Codex Forge Loop self-improvement when credentials and PR pressure allow.")
    ∷ loop_component (codes "codex-github-action") (codes "tools")
        (codes ".github/workflows/codex-forge-loop.yml")
        (codes
          "Codex GitHub Action docs describe workflow prompt inputs, model/effort controls, output files, and structured evidence; this scheduled workflow applies those controls through local subscription-auth forge-loop execution.")
    ∷ loop_component (codes "codex-output-schema") (codes "tools")
        (codes ".github/codex/schemas/forge-loop-output.schema.json")
        (codes
          "Codex GitHub Action docs allow structured output schemas; the repo keeps the evidence schema as the parity target for subscription-auth forge-loop output.")
    ∷ loop_component (codes "codex-continuity-schema") (codes "tools")
        (codes ".github/codex/schemas/forge-loop-output.schema.json")
        (codes
          "The structured output schema must require auto-compaction continuity evidence for every action-driven loop run.")
    ∷ loop_component (codes "target-mining-ledger") (codes "docs")
        (codes "docs/forge-loop/codex-target-mining.md")
        (codes
          "Deep target mining needs a source-attributed extraction ledger so future loops can distinguish applied upgrades from unmined leads.")
    ∷ loop_component (codes "target-exhaustion-matrix") (codes "docs")
        (codes "docs/forge-loop/codex-target-exhaustion-matrix.md")
        (codes
          "The target exhaustion matrix maps each required source to extracted categories, applied surfaces, and regression guards.")
    ∷ loop_component (codes "kclaw0-runner-flow-target") (codes "docs")
        (codes "docs/forge-loop/kclaw0-runner-flow-target.md")
        (codes
          "The kclaw0 runner-flow target records the dark-factory/swarm evidence requirements before the harness can claim runners exceeded the target.")
    ∷ loop_component (codes "agentic-system-proof") (codes "docs")
        (codes "docs/forge-loop/agentic-system-proof.md")
        (codes
          "The end-to-end agentic-system proof maps always-researching, evaluating, adapting, and growing claims to a single strict audit gate.")
    ∷ loop_component (codes "worktree-isolation-contract") (codes "worktrees")
        (codes ".codex/worktrees/forge-loop-isolation.toml")
        (codes
          "Forge-loop cycles need an explicit worktree isolation contract so concurrent mutating runs cannot trample one another.")
    ∷ loop_component (codes "cycle-evidence-checklist") (codes "checklists")
        (codes ".codex/checklists/forge-loop-cycle.toml")
        (codes
          "Every forge-loop cycle needs a durable evidence checklist for tests, audits, PR state, merge evidence, and main fast-forward proof.")
    ∷ loop_component (codes "deep-research-exhaustion-report") (codes "docs")
        (codes "docs/forge-loop/deep-research-exhaustion-2026-06-27.md")
        (codes
          "The deep-research exhaustion report records the mined target categories and the applied auto-compaction continuity contract.")
    ∷ []

pub record LoopComponentStatus : Type 0 where
  pub component : LoopComponent
  pub present : Bool

unfoldable pub component_status : Repository → LoopComponent → LoopComponentStatus
component_status root component = record {
  component = component;
  present = root.exists component.path;
}

unfoldable pub missing_components_of : List LoopComponentStatus → List Text
missing_components_of [] = []
missing_components_of (s ∷ ss) =
    let rest = missing_components_of ss in if s.present then rest else s.component.id ∷ rest

unfoldable pub present_components_of : List LoopComponentStatus → List Text
present_components_of [] = []
present_components_of (s ∷ ss) =
    let rest = present_components_of ss in if s.present then s.component.id ∷ rest else rest

pub record ComponentsAuditReport : Type 0 where
  pub checked_components : ℕ
  pub present_components : List Text
  pub missing_components : List Text
  pub components : List LoopComponentStatus
  pub permission_profile_readiness : PermissionProfileReadiness
  pub checklist_shell_discipline : ChecklistShellDisciplineReadiness

unfoldable pub components_audit_report : Repository → ComponentsAuditReport
components_audit_report root =
    let components = map (component_status root) expected_loop_components in
    record {
      checked_components = length components;
      present_components = present_components_of components;
      missing_components = missing_components_of components;
      components = components;
      permission_profile_readiness = permission_profile_readiness root;
      checklist_shell_discipline = checklist_shell_discipline_readiness root;
    }

unfoldable pub components_audit_strict_blockers : ComponentsAuditReport → List Text
components_audit_strict_blockers report =
    map (λ name. codes "missing_component:" ++ name) report.missing_components
    ++ (map (λ blocker. codes "permission_profile:" ++ blocker)
          report.permission_profile_readiness.blockers
        ++ map (λ blocker. codes "checklist_shell_discipline:" ++ blocker)
            report.checklist_shell_discipline.blockers)
