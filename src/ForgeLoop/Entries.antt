-- ===== src/ForgeLoop/Entries.antt =====
-- What the audits read of GitHub's answers (crates/runner-cli/src/forge_loop.rs): the JSON of `gh`
-- as serde has parsed it, absent texts as empty ones.
use flexnetos_runner.Shared.{Option, List, Text}

pub record CheckRollupEntry : Type 0 where
  pub name : Text
  pub status : Text
  pub conclusion : Text

pub record PrHistoryEntry : Type 0 where
  pub state : Text
  pub title : Text
  pub merged_at : Option Text
  pub status_check_rollup : List CheckRollupEntry

pub record PrFlowEntry : Type 0 where
  pub status_check_rollup : List CheckRollupEntry

pub record WorkflowRunEntry : Type 0 where
  pub status : Text
  pub conclusion : Text
  pub event : Text
  pub display_title : Text
  pub head_branch : Text
  pub name : Text
  pub created_at : Option Text
  pub updated_at : Option Text
