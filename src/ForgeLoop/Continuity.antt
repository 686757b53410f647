-- ===== src/ForgeLoop/Continuity.antt =====
-- What a cycle keeps over a compaction of its context: compact_continuity_artifact and what it is
-- made of, and research_prompt, of crates/runner-cli/src/forge_loop.rs.
use flexnetos_runner.Shared.{
  ℕ, Bool, true, false, List, [], ◌∷◌, ◌++◌, if◌then◌else◌, length, map, Text, codes, contains,
  join, decimal,
}
use flexnetos_runner.Shared.Order.{list_order, ℕ_order}
use flexnetos_runner.Shared.Sorted
use flexnetos_runner.ForgeLoop.Manifest.{
  CyclePhase, red, implement, gate, evaluate, research, upgrade, required_phases,
}
use flexnetos_runner.ForgeLoop.Invocation.{Environment, codex_auth_readiness}
use flexnetos_runner.ForgeLoop.Sources.{
  ResearchSource, research_sources, required_gate_commands, research_output_contract,
}

unfoldable pub cycle_phase_label : CyclePhase → Text
cycle_phase_label red = codes "Red"
cycle_phase_label implement = codes "Implement"
cycle_phase_label gate = codes "Gate"
cycle_phase_label evaluate = codes "Evaluate"
cycle_phase_label research = codes "Research"
cycle_phase_label upgrade = codes "Upgrade"

unfoldable pub continuity_source_for_phase : CyclePhase → Text
continuity_source_for_phase red = codes "red_test_evidence"
continuity_source_for_phase implement = codes "working_tree_diff"
continuity_source_for_phase gate = codes "required_gate_commands"
continuity_source_for_phase evaluate = codes "evaluation_artifacts"
continuity_source_for_phase research = codes "research_sources"
continuity_source_for_phase upgrade = codes "strict_upgrade_plan"

unfoldable pub continuity_next_action_for_phase : CyclePhase → Text
continuity_next_action_for_phase red = codes "implement_smallest_passing_change"
continuity_next_action_for_phase implement = codes "run_required_gates"
continuity_next_action_for_phase gate = codes "evaluate_run"
continuity_next_action_for_phase evaluate = codes "research_reliability_accuracy_speed_improvement"
continuity_next_action_for_phase research = codes "decide_smallest_safe_self_upgrade"
continuity_next_action_for_phase upgrade = codes "leave_publishable_changes_for_outer_engine"

unfoldable pub validation_phase_for_command : Text → CyclePhase
validation_phase_for_command command =
    if contains (codes "forge-loop eval ") command
    then evaluate
    else if contains (codes "forge-loop research ") command
    then research
    else if contains (codes "forge-loop self-upgrade ") command
    then upgrade
    else gate

unfoldable pub phase_continuity_entry : CyclePhase → Text
phase_continuity_entry phase =
    codes "phase="
    ++ (cycle_phase_label phase
        ++ (codes " source="
            ++ (continuity_source_for_phase phase
                ++ (codes " validation_state=pending next_action="
                    ++ continuity_next_action_for_phase phase))))

unfoldable pub phase_continuity_entries : List Text
phase_continuity_entries = map phase_continuity_entry required_phases

-- One value for each phase, in the order of the labels.
unfoldable pub by_label : (CyclePhase → Text) → List CyclePhase → List (Text × Text)
by_label value [] = []
by_label value (phase ∷ phases) =
    Sorted.entry (cycle_phase_label phase) (λ old. value phase) (value phase)
      (by_label value phases)

unfoldable pub phase_next_actions : List (Text × Text)
phase_next_actions = by_label continuity_next_action_for_phase required_phases

unfoldable pub phase_validation_state : List (Text × Text)
phase_validation_state = by_label (λ phase. codes "pending") required_phases

abbrev new_red_test : Text
new_red_test =
    codes "rtk cargo test -p runner-cli --all-features <new_red_test_name> -- --nocapture"

unfoldable pub add_commands : List Text → List (Text × List Text) → List (Text × List Text)
add_commands [] by_phase = by_phase
add_commands (command ∷ commands) by_phase = add_commands commands (
    Sorted.entry (cycle_phase_label (validation_phase_for_command command))
      (λ old. old ++ command ∷ []) (command ∷ []) by_phase)

unfoldable pub phase_validation_commands : Environment → List (Text × List Text)
phase_validation_commands env =
    let red_commands = (codex_auth_readiness env).verification_commands ++ new_red_test ∷ [] in
    let first = Sorted.entry (cycle_phase_label red) (λ old. red_commands) red_commands [] in
    let implementing = new_red_test ∷ [] in
    add_commands required_gate_commands
      (Sorted.entry (cycle_phase_label implement) (λ old. implementing) implementing first)

unfoldable pub validation_source_entry : Text → Text
validation_source_entry command =
    codes "phase="
    ++ (cycle_phase_label (validation_phase_for_command command)
        ++ (codes " source=required_gate_commands validation_state=pending command=" ++ command))

unfoldable pub compact_validation_source_entries : Environment → List Text
compact_validation_source_entries env =
    map validation_source_entry required_gate_commands
    ++ map
        (λ command.
          codes "phase=Red source=subscription_auth validation_state=pending command=" ++ command)
        (codex_auth_readiness env).verification_commands

show_bool : Bool → Text
show_bool true = codes "true"
show_bool false = codes "false"

unfoldable pub preserved_state_entries : Environment → List Text
unfolding show_bool
preserved_state_entries env =
    let auth = codex_auth_readiness env in
    (codes "auth_mode="
      ++ (auth.auth_mode
          ++ (codes " codex_home="
              ++ (auth.codex_home
                  ++ (codes " login_status_checked="
                      ++ (show_bool auth.login_status_checked
                          ++ (codes " auth_json_present=" ++ show_bool auth.auth_json_present)))))))
    ∷ (codes "source_coverage="
        ++ (decimal (length research_sources) ++ codes " required research sources loaded"))
    ∷ (codes "validation_terminal_state="
        ++ (decimal (length required_gate_commands)
            ++ codes " required gate outcomes must be retained across compaction"))
    ∷ codes "next_action=continue with the next required forge-loop phase"
    ∷ []

pub record CompactContinuityArtifact : Type 0 where
  pub enabled : Bool
  pub compact_prompt : Text
  pub preserved_state : List Text
  pub compact_summary_events : List Text
  pub phases : List CyclePhase
  pub active_phase : CyclePhase
  pub current_phase_index : ℕ
  pub source_coverage : List Text
  pub research_output_contract : List Text
  pub validation_state : List Text
  pub validation_terminal_state : List Text
  pub validation_sources : List Text
  pub phase_continuity : List Text
  pub phase_next_actions : List (Text × Text)
  pub phase_validation_commands : List (Text × List Text)
  pub phase_validation_state : List (Text × Text)
  pub next_action : Text
  pub phase_source_validation_next_action : Text

source_line : ResearchSource → Text
source_line s = s.id ++ (codes ": " ++ (s.url ++ (codes " (" ++ (s.purpose ++ codes ")"))))

unfoldable pub compact_continuity_artifact : Environment → CompactContinuityArtifact
unfolding source_line
compact_continuity_artifact env = record {
  enabled = true;
  compact_prompt = codes ".codex/prompts/compact-forge-loop.md";
  preserved_state = preserved_state_entries env;
  compact_summary_events = codes "PreCompact" ∷ codes "PostCompact" ∷ [];
  phases = required_phases;
  active_phase = red;
  current_phase_index = 0;
  source_coverage = map source_line research_sources;
  research_output_contract = research_output_contract;
  validation_state = map (λ command. codes "pending: " ++ command) required_gate_commands;
  validation_terminal_state = map (λ command. codes "passed: " ++ command) required_gate_commands;
  validation_sources = compact_validation_source_entries env;
  phase_continuity = phase_continuity_entries;
  phase_next_actions = phase_next_actions;
  phase_validation_commands = phase_validation_commands env;
  phase_validation_state = phase_validation_state;
  next_action = codes "continue with the next required forge-loop phase";
  phase_source_validation_next_action =
      codes "phase=Red source_coverage=complete validation_state=pending next_action=continue";
}

unfoldable pub research_prompt : Text → List ResearchSource → Text
unfolding source_line
research_prompt focus sources =
    let list = join (codes "\n") (map (λ s. codes "- " ++ source_line s) sources) in
    let contract = join (codes "\n") (map (λ item. codes "- " ++ item) research_output_contract) in
    codes "Research Codex forge-loop improvements focused on "
    ++ (focus
        ++ (codes
              ". Scan these references and return actionable, source-attributed upgrades for reliability, accuracy, and speed:\n"
            ++ (list ++ (codes "\n\nOutput format:\n" ++ contract))))
