-- ===== src/ForgeLoop/Mining.antt =====
-- Which research targets are covered: target_mining_audit_report of
-- crates/runner-cli/src/forge_loop.rs.
pub mod Codex
pub mod Ecosystem
pub mod Report
use flexnetos_runner.Shared.{
  ℕ, Bool, true, false, not, List, [], ◌∷◌, ◌++◌, if◌then◌else◌, is_empty, length, map, Text, codes,
}
use flexnetos_runner.ForgeLoop.Repository.{Repository, all_terms_present, all_file_terms_present}

pub record TargetMiningTarget : Type 0 where
  pub id : Text
  pub url : Text
  pub source_terms : List Text
  pub application_terms : List (Text × Text)
  pub guard_terms : List (Text × Text)

pub record TargetMiningStatus : Type 0 where
  pub id : Text
  pub url : Text
  pub source_evidence : Bool
  pub application_evidence : Bool
  pub guard_evidence : Bool
  pub missing : List Text

unless : Bool → Text → List Text
unless b name = if b then [] else name ∷ []

unfoldable pub target_status : Repository → TargetMiningTarget → TargetMiningStatus
unfolding unless
target_status root target =
    let source =
      all_terms_present root
        (codes "docs/forge-loop/codex-target-mining.md"
          ∷ codes "docs/forge-loop/codex-target-exhaustion-matrix.md"
          ∷ codes ".agents/skills/forge-loop-research/SKILL.md"
          ∷ [])
        target.source_terms in
    let application = all_file_terms_present root target.application_terms in
    let guard = all_file_terms_present root target.guard_terms in
    record {
      id = target.id;
      url = target.url;
      source_evidence = source;
      application_evidence = application;
      guard_evidence = guard;
      missing =
          unless source (codes "source_evidence")
          ++ (unless application (codes "application_evidence")
              ++ unless guard (codes "guard_evidence"));
    }

-- The ids of the targets that miss nothing, or something.
unfoldable pub ids_where : Bool → List TargetMiningStatus → List Text
ids_where covered [] = []
ids_where covered (target ∷ targets) =
    let rest = ids_where covered targets in
    if (if covered then is_empty target.missing else not (is_empty target.missing))
    then target.id ∷ rest
    else rest

pub record TargetMiningAuditReport : Type 0 where
  pub checked_targets : ℕ
  pub covered_targets : List Text
  pub missing_targets : List Text
  pub targets : List TargetMiningStatus

unfoldable pub report_on_targets : Repository → List TargetMiningTarget → TargetMiningAuditReport
report_on_targets root expected =
    let targets = map (target_status root) expected in
    record {
      checked_targets = length targets;
      covered_targets = ids_where true targets;
      missing_targets = ids_where false targets;
      targets = targets;
    }
