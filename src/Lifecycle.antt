-- ===== src/Lifecycle.antt =====
-- The life of an ephemeral runner (crates/runner-core/src/lifecycle.rs).
use flexnetos_runner.Shared.{ℕ, Option, none, some, List, Text, codes}

pub record JitConfigRequest : Type 0 where
  pub name : Text
  pub runner_group_id : ℕ
  pub labels : List Text
  pub work_folder : Text

unfoldable pub new_request : Text → ℕ → List Text → JitConfigRequest
new_request name runner_group_id labels = record {
  name = name;
  runner_group_id = runner_group_id;
  labels = labels;
  work_folder = codes "_work";
}

pub data State : Type 0 where
  unregistered registered running completed removed : State

unfoldable pub next : State → Option State
next unregistered = some registered
next registered = some running
next running = some completed
next completed = some removed
next removed = none
