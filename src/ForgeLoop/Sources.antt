-- ===== src/ForgeLoop/Sources.antt =====
-- The constants of a cycle: research_sources, REQUIRED_GATE_COMMANDS and research_output_contract of
-- crates/runner-cli/src/forge_loop.rs.
use flexnetos_runner.Shared.{List, [], ◌∷◌, Text, codes}

pub record ResearchSource : Type 0 where
  pub id : Text
  pub url : Text
  pub purpose : Text

abbrev source : Text → Text → Text → ResearchSource
source id url purpose = record { id = id; url = url; purpose = purpose }

abbrev pub research_sources : List ResearchSource
research_sources =
    source (codes "openai-codex") (codes "https://github.com/openai/codex")
      (codes "Codex Rust CLI behavior, noninteractive execution, JSONL, and upstream issues")
    ∷ source (codes "codex-config-advanced-docs")
        (codes "https://developers.openai.com/codex/config-advanced")
        (codes
          "Codex project config, hooks, rules, custom agents, model flags, sandbox, and auto-compaction settings")
    ∷ source (codes "codex-github-action-docs")
        (codes "https://developers.openai.com/codex/github-action")
        (codes
          "Codex Action prompt-file, codex-args, sandbox, safety-strategy, output, and structured schema controls")
    ∷ source (codes "codex-permissions-docs")
        (codes "https://developers.openai.com/codex/permissions")
        (codes
          "Permission-profile migration, filesystem/network least privilege, and sandbox/profile non-composition rules")
    ∷ source (codes "codex-subagents-docs") (codes "https://developers.openai.com/codex/subagents")
        (codes
          "Project custom agents, explicit fan-out, inherited sandbox behavior, and max thread/depth controls")
    ∷ source (codes "awesome-codex-cli") (codes "https://github.com/RoggeOhta/awesome-codex-cli")
        (codes "Codex ecosystem tools, skills, plugins, MCP servers, and orchestration patterns")
    ∷ source (codes "oh-my-codex") (codes "https://github.com/Yeachan-Heo/oh-my-codex")
        (codes "multi-agent teams, hooks, HUDs, and Codex orchestration UX")
    ∷ source (codes "crates-io") (codes "https://crates.io") (
        codes "Rust crates that improve loop reliability, accuracy, speed, tracing, and scheduling")
    ∷ source (codes "kclaw0") (codes "https://github.com/drdave-flexnetos/kclaw0")
        (codes "local dark-factory/self-upgrade prior art and governance patterns")
    ∷ source (codes "kclaw0-upgrade-ledger") (codes "docs/kclaw0-upgrade-ledger.md") (
        codes
          "local applied-governance ledger for strict-upgrade parity, validation, and prior-art continuity")
    ∷ []

abbrev pub required_gate_commands : List Text
required_gate_commands =
    codes "rtk cargo fmt --all -- --check"
    ∷ codes "rtk cargo test -p runner-cli --all-features forge_loop::tests"
    ∷ codes "rtk cargo run -q -p runner-cli -- forge-loop doctor --json"
    ∷ codes "rtk cargo run -q -p runner-cli -- forge-loop docs-drift --json"
    ∷ codes "rtk cargo run -q -p runner-cli -- forge-loop components-audit --strict"
    ∷ codes "rtk cargo run -q -p runner-cli -- forge-loop target-mining-audit --strict"
    ∷ codes
        "rtk cargo run -q -p runner-cli -- forge-loop research --dry-run --focus \"reliability, accuracy, and speed\""
    ∷ codes "rtk cargo run -q -p runner-cli -- forge-loop output-schema-audit --strict"
    ∷ codes
        "rtk cargo run -q -p runner-cli -- forge-loop run --dry-run --out /tmp/fxrun-forge-loop-gate-dry-run --goal \"scheduled subscription-auth Codex self-improvement\""
    ∷ codes "rtk cargo run -q -p runner-cli -- forge-loop eval --fixture"
    ∷ codes
        "rtk cargo run -q -p runner-cli -- forge-loop eval --metrics /tmp/fxrun-forge-loop-gate-dry-run/cycle/evaluation-input.json --manifest /tmp/fxrun-forge-loop-gate-dry-run/cycle/cycle-manifest.json"
    ∷ codes "rtk cargo run -q -p runner-cli -- forge-loop self-upgrade --dry-run"
    ∷ codes "rtk cargo run -q -p runner-cli -- forge-loop runner-flow-audit --json"
    ∷ codes "rtk cargo run -q -p runner-cli -- forge-loop agentic-system-audit --json"
    ∷ codes "rtk cargo test --workspace --all-features"
    ∷ codes "rtk cargo clippy --workspace --all-targets --all-features -- -D warnings"
    ∷ codes "rtk cargo audit --deny warnings"
    ∷ []

abbrev pub research_output_contract : List Text
research_output_contract =
    codes "one-line summary"
    ∷ codes "source-attributed findings"
    ∷ codes
        "loop component/config inventory: config, hooks, rules, skills, custom agents/subagents, permission profiles, model flags, GitHub Action/tool surfaces, structured output schemas, auto-compaction/continuity settings"
    ∷ codes "one recommended smallest safe self-upgrade"
    ∷ codes "tests required before merge"
    ∷ []
