-- ===== src/ForgeLoop/Readiness.antt =====
-- The permission profile and the checklist: permission_profile_readiness and
-- checklist_shell_discipline_readiness of crates/runner-cli/src/forge_loop.rs.
use mathlib.Core.List.{reverse}
use mathlib.Core.Option
use flexnetos_runner.Shared.{
  Bool, false, not, ◌||◌, Option, none, some, List, [], ◌∷◌, ◌++◌, ◌==◌, if◌then◌else◌, is_empty,
  is_some, all, length, map, unwrap_or, or_else, filter_some, Text, codes, text_eq, trim, split,
  starts_with, strip_prefix, contains, one_of, drop,
}
use flexnetos_runner.ForgeLoop.Processes.{lines}
use flexnetos_runner.ForgeLoop.Repository.{Repository}

infixl 5 ◌>>=◌
abbrev ◌>>=◌ : {A B : Type 0} → Option A → (A → Option B) → Option B
none >>= f = none
some a >>= f = f a

-- The first line that has the prefix, without it.
unfoldable pub find_value : Text → List Text → Option Text
find_value prefix [] = none
find_value prefix (line ∷ rest) = or_else (strip_prefix prefix (trim line)) (find_value prefix rest)

first_of : List Text → Option Text
first_of [] = none
first_of (s ∷ rest) = some s

unfoldable pub extract_quoted_toml_value : Text → Text → Option Text
unfolding first_of
extract_quoted_toml_value text key =
    filter_some (λ value. not (is_empty value))
      (find_value (key ++ codes " = ") (lines text) >>= λ value.
        strip_prefix (34 ∷ []) (trim value) >>= λ rest. first_of (split 34 rest))

strip_last_quote : Text → Option Text
strip_last_quote s = Option.map (λ t. reverse t) (strip_prefix (34 ∷ []) (reverse s))

unfoldable pub unquote_toml_string : Text → Text
unfolding strip_last_quote
unquote_toml_string value =
    let trimmed = trim value in
    elim (strip_prefix (34 ∷ []) trimmed) [
      | none ↦ trimmed
      | some rest ↦ unwrap_or (strip_last_quote rest) trimmed
    ]

-- FORGE_LOOP_PERMISSION_RULES
abbrev pub forge_loop_permission_rules : List Text
forge_loop_permission_rules =
    codes "[permissions.forge-loop-workspace.filesystem]"
    ∷ codes "\":minimal\" = \"read\""
    ∷ codes "\":tmpdir\" = \"write\""
    ∷ codes "\":slash_tmp\" = \"write\""
    ∷ codes "[permissions.forge-loop-workspace.filesystem.\":workspace_roots\"]"
    ∷ codes "\".\" = \"write\""
    ∷ codes "\".git\" = \"write\""
    ∷ codes "\"/home/flexnetos/meta\" = \"write\""
    ∷ codes "\"/home/flexnetos/meta/.worktrees\" = \"write\""
    ∷ codes "\"/home/flexnetos/Downloads\" = \"read\""
    ∷ codes "\"/home/flexnetos/.nix-profile\" = \"read\""
    ∷ codes "\"/home/flexnetos/.config/yazelix\" = \"write\""
    ∷ codes "\"**/*.env\" = \"deny\""
    ∷ codes "\"**/*secret*\" = \"deny\""
    ∷ codes "\"**/*token*\" = \"deny\""
    ∷ codes "[permissions.forge-loop-workspace.network.domains]"
    ∷ codes "\"developers.openai.com\" = \"allow\""
    ∷ codes "\"github.com\" = \"allow\""
    ∷ codes "\"crates.io\" = \"allow\""
    ∷ []

pub record PermissionProfileReadiness : Type 0 where
  pub active_default_permissions : Option Text
  pub active_sandbox_mode : Option Text
  pub mirror_default_permissions : Option Text
  pub profile_rules_present : Bool
  pub migration_ready : Bool
  pub blockers : List Text

abbrev pub workspace_profile : Text
workspace_profile = codes "forge-loop-workspace"

is_profile : Option Text → Bool
is_profile none = false
is_profile (some name) = text_eq name workspace_profile

block_if : Bool → Text → List Text
block_if b reason = if b then reason ∷ [] else []

unfoldable pub permission_profile_readiness : Repository → PermissionProfileReadiness
unfolding is_profile block_if
permission_profile_readiness root =
    let config = unwrap_or (root.read (codes ".codex/config.toml")) [] in
    let mirror = unwrap_or (root.read (codes ".codex/permissions/forge-loop-workspace.toml")) [] in
    let active = extract_quoted_toml_value config (codes "default_permissions") in
    let sandbox = extract_quoted_toml_value config (codes "sandbox_mode") in
    let mirrored = extract_quoted_toml_value mirror (codes "default_permissions") in
    let rules =
      all (λ rule. contains rule config || contains rule mirror) forge_loop_permission_rules in
    let blockers =
      block_if (not (is_profile active))
        (codes "active config does not select default_permissions=forge-loop-workspace")
      ++ (block_if (is_some sandbox) (codes "active config still contains sandbox_mode")
          ++ (block_if (not (is_profile mirrored)) (
                codes
                  "permission profile mirror is missing default_permissions=forge-loop-workspace")
              ++ block_if (not rules) (codes "permission profile parity rules are incomplete"))) in
    record {
      active_default_permissions = active;
      active_sandbox_mode = sandbox;
      mirror_default_permissions = mirrored;
      profile_rules_present = rules;
      migration_ready = is_empty blockers;
      blockers = blockers;
    }

abbrev pub required_checklist_command_keys : List Text
required_checklist_command_keys =
    codes "component_audit"
    ∷ codes "target_mining_audit"
    ∷ codes "docs_drift"
    ∷ codes "forge_loop_tests"
    ∷ codes "workspace_tests"
    ∷ codes "clippy"
    ∷ codes "audit"
    ∷ []

-- `line.split_once(" = ")`, of which `key` is what stood before.
split_at : Text → Text → Option (Text × Text)
split_at key [] = none
split_at key (c ∷ s) =
    let later = split_at (key ++ c ∷ []) s in
    if starts_with (codes " = ") (c ∷ s) then some (key, drop 3 (c ∷ s)) else later

-- The checked entries of the checklist: the key and the value.
unfoldable pub checked_entries : List Text → List (Text × Text)
unfolding split_at
checked_entries [] = []
checked_entries (line ∷ rest) =
    let later = checked_entries rest in
    elim (split_at [] (trim line)) [
      | none ↦ later
      | some (key, value) ↦
          if one_of key required_checklist_command_keys then (key, value) ∷ later else later
    ]

unfoldable pub raw_entries : List (Text × Text) → List (Text × Text)
raw_entries [] = []
raw_entries ((key, value) ∷ entries) =
    let rest = raw_entries entries in
    if starts_with (codes "\"rtk ") value then rest else (key, unquote_toml_string value) ∷ rest

raw_blocker : Text × Text → Text
raw_blocker (key, command) =
    codes "checklist command " ++ (key ++ (codes " is not rtk-prefixed; expected: rtk " ++ command))

pub record ChecklistShellDisciplineReadiness : Type 0 where
  pub checked_commands : List Text
  pub raw_command_keys : List Text
  pub rtk_ready : Bool
  pub blockers : List Text

key_of : Text × Text → Text
key_of (key, value) = key

unfoldable pub checklist_shell_discipline_readiness : Repository → ChecklistShellDisciplineReadiness
unfolding raw_blocker key_of block_if
checklist_shell_discipline_readiness root =
    let checklist = unwrap_or (root.read (codes ".codex/checklists/forge-loop-cycle.toml")) [] in
    let checked = checked_entries (lines checklist) in
    let raw = raw_entries checked in
    let blockers =
      block_if (not (length checked == length required_checklist_command_keys))
        (codes "forge-loop checklist is missing one or more required command entries")
      ++ map raw_blocker raw in
    record {
      checked_commands = map key_of checked;
      raw_command_keys = map key_of raw;
      rtk_ready = is_empty blockers;
      blockers = blockers;
    }
