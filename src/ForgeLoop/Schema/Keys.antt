-- ===== src/ForgeLoop/Schema/Keys.antt =====
-- The audit of the output schema: json_schema_requires_key and output_schema_audit_report of
-- crates/runner-cli/src/forge_loop.rs.
use mathlib.Core.List.{reverse}
use mathlib.Core.Option
use flexnetos_runner.Shared.{
  ℕ, Bool, true, false, ◌&&◌, Option, none, some, List, [], ◌∷◌, leb, if◌then◌else◌, is_empty, all,
  Text, codes, text_eq, strip_prefix, one_of,
}
use flexnetos_runner.Shared.Int.{ℤ, pos, negsuc, leb_ℤ}
use flexnetos_runner.ForgeLoop.Schema.{
  Json, integer, array, object, Fields, get_field, is_string, lists_string, search, requires,
}

unfoldable pub as_u64 : Json → Option ℕ
as_u64 (integer (pos n)) = some n
as_u64 _ = none

unfoldable pub as_i64 : Json → Option ℤ
as_i64 (integer (pos n)) = if leb n 9223372036854775807 then some (pos n) else none
as_i64 (integer (negsuc n)) = some (negsuc n)
as_i64 _ = none

as_fields : Json → Option Fields
as_fields (object fs) = some fs
as_fields _ = none

-- A value that is there passes the test.
passes {ℓ} : {A : Type ℓ} → (A → Bool) → Option A → Bool
passes test none = false
passes test (some a) = test a

infixl 5 ◌>>=◌
abbrev ◌>>=◌ : {A B : Type 0} → Option A → (A → Option B) → Option B
none >>= f = none
some a >>= f = f a

unfoldable pub enum_leaf : List Text → Fields → Bool
enum_leaf required fs =
    let values = get_field (codes "enum") fs in
    is_array values && all (λ s. lists_string s values) required
  where
    is_array : Option Json → Bool
    is_array (some (array items)) = true
    is_array _ = false

abbrev pub json_schema_enum_contains_all_for_path : Json → List Text → List Text → Bool
json_schema_enum_contains_all_for_path value path required = search (enum_leaf required) path value

unfoldable pub items_enum_leaf : List Text → Fields → Bool
unfolding passes
items_enum_leaf required fs =
    passes (λ items. json_schema_enum_contains_all_for_path items [] required)
      (get_field (codes "items") fs)

unfoldable pub min_items_leaf : ℕ → Fields → Bool
unfolding passes
min_items_leaf least fs =
    passes (λ n. leb least n) (get_field (codes "minItems") fs >>= λ v. as_u64 v)

unfoldable pub max_items_leaf : ℕ → Fields → Bool
unfolding passes
max_items_leaf most fs =
    passes (λ n. leb n most) (get_field (codes "maxItems") fs >>= λ v. as_u64 v)

unfoldable pub pattern_leaf : Text → Fields → Bool
unfolding passes as_fields
pattern_leaf pattern fs = passes (is_string pattern) (
    get_field (codes "items") fs >>= λ items.
    as_fields items >>= λ inner. get_field (codes "pattern") inner)

unfoldable pub minimum_leaf : ℤ → Fields → Bool
unfolding passes
minimum_leaf least fs =
    passes (λ n. leb_ℤ least n) (get_field (codes "minimum") fs >>= λ v. as_i64 v)

abbrev pub json_schema_array_items_enum_contains_all_for_path : Json → List Text → List Text → Bool
json_schema_array_items_enum_contains_all_for_path value path required =
    search (items_enum_leaf required) path value

abbrev pub json_schema_array_min_items_for_path : Json → List Text → ℕ → Bool
json_schema_array_min_items_for_path value path least = search (min_items_leaf least) path value

abbrev pub json_schema_array_max_items_for_path : Json → List Text → ℕ → Bool
json_schema_array_max_items_for_path value path most = search (max_items_leaf most) path value

abbrev pub json_schema_array_items_pattern_for_path : Json → List Text → Text → Bool
json_schema_array_items_pattern_for_path value path pattern =
    search (pattern_leaf pattern) path value

abbrev pub json_schema_integer_minimum_for_path : Json → List Text → ℤ → Bool
json_schema_integer_minimum_for_path value path least = search (minimum_leaf least) path value

-- `key.strip_prefix(prefix).and_then(|rest| rest.strip_suffix(suffix))`
between : Text → Text → Text → Option Text
between prefix suffix key = strip_prefix prefix key >>= λ rest.
    Option.map (λ s. reverse s) (strip_prefix (reverse suffix) (reverse rest))

abbrev phase_names : List Text
phase_names =
    codes "Red"
    ∷ codes "Implement"
    ∷ codes "Gate"
    ∷ codes "Evaluate"
    ∷ codes "Research"
    ∷ codes "Upgrade"
    ∷ []

plain_key : Text → Json → Bool
plain_key key value =
    if text_eq key (codes "active_phase.enum")
    then json_schema_enum_contains_all_for_path value (codes "active_phase" ∷ []) phase_names
    else if text_eq key (codes "phases.minItems")
    then json_schema_array_min_items_for_path value (codes "phases" ∷ []) 6
    else if text_eq key (codes "phases.maxItems")
    then json_schema_array_max_items_for_path value (codes "phases" ∷ []) 6
    else if text_eq key (codes "phases.items.enum")
    then json_schema_array_items_enum_contains_all_for_path value (codes "phases" ∷ []) phase_names
    else if text_eq key (codes "current_phase_index.minimum")
    then json_schema_integer_minimum_for_path value (codes "current_phase_index" ∷ []) (pos 0)
    else requires key value

abbrev states : List Text
states = codes "pending" ∷ codes "in_progress" ∷ codes "passed" ∷ codes "failed" ∷ []

unfoldable pub json_schema_requires_key : Json → Text → Bool
unfolding between plain_key
json_schema_requires_key value key =
    let commands = codes "phase_validation_commands" in
    let state = codes "phase_validation_state" in
    elim (between (codes "phase_validation_commands.") (codes ".minItems") key) [
      | some phase ↦ json_schema_array_min_items_for_path value (commands ∷ phase ∷ []) 1
      | none ↦ elim (between (codes "phase_validation_commands.") (codes ".items.pattern") key) [
        | some phase ↦
            json_schema_array_items_pattern_for_path value (commands ∷ phase ∷ []) (codes "^rtk ")
        | none ↦ elim (between (codes "phase_validation_state.") (codes ".enum") key) [
          | some phase ↦ json_schema_enum_contains_all_for_path value (state ∷ phase ∷ []) states
          | none ↦ plain_key key value
        ]
      ]
    ]

abbrev pub required_output_schema_fields : List Text
required_output_schema_fields =
    codes "summary"
    ∷ codes "auth_mode"
    ∷ codes "auth_evidence"
    ∷ codes "codex_home"
    ∷ codes "login_status_checked"
    ∷ codes "auth_json_present"
    ∷ codes "sources_mined"
    ∷ codes "component_inventory"
    ∷ codes "config"
    ∷ codes "hooks"
    ∷ codes "rules"
    ∷ codes "skills"
    ∷ codes "agents"
    ∷ codes "permissions"
    ∷ codes "github_action"
    ∷ codes "model_flags"
    ∷ codes "tool_surfaces"
    ∷ codes "structured_output_schemas"
    ∷ codes "auto_compaction_continuity_settings"
    ∷ codes "recommended_self_upgrade"
    ∷ codes "tests_required_before_merge"
    ∷ codes "verification"
    ∷ codes "auto_compact_continuity"
    ∷ codes "enabled"
    ∷ codes "compact_prompt"
    ∷ codes "preserved_state"
    ∷ codes "phases"
    ∷ codes "phases.minItems"
    ∷ codes "phases.maxItems"
    ∷ codes "phases.items.enum"
    ∷ codes "active_phase"
    ∷ codes "active_phase.enum"
    ∷ codes "current_phase_index"
    ∷ codes "current_phase_index.minimum"
    ∷ codes "source_coverage"
    ∷ codes "validation_state"
    ∷ codes "validation_terminal_state"
    ∷ codes "validation_sources"
    ∷ codes "phase_continuity"
    ∷ codes "phase_next_actions"
    ∷ codes "phase_validation_commands"
    ∷ codes "phase_validation_commands.Red.minItems"
    ∷ codes "phase_validation_commands.Implement.minItems"
    ∷ codes "phase_validation_commands.Gate.minItems"
    ∷ codes "phase_validation_commands.Evaluate.minItems"
    ∷ codes "phase_validation_commands.Research.minItems"
    ∷ codes "phase_validation_commands.Upgrade.minItems"
    ∷ codes "phase_validation_commands.Red.items.pattern"
    ∷ codes "phase_validation_commands.Implement.items.pattern"
    ∷ codes "phase_validation_commands.Gate.items.pattern"
    ∷ codes "phase_validation_commands.Evaluate.items.pattern"
    ∷ codes "phase_validation_commands.Research.items.pattern"
    ∷ codes "phase_validation_commands.Upgrade.items.pattern"
    ∷ codes "phase_validation_state"
    ∷ codes "phase_validation_state.Red.enum"
    ∷ codes "phase_validation_state.Implement.enum"
    ∷ codes "phase_validation_state.Gate.enum"
    ∷ codes "phase_validation_state.Evaluate.enum"
    ∷ codes "phase_validation_state.Research.enum"
    ∷ codes "phase_validation_state.Upgrade.enum"
    ∷ codes "next_action"
    ∷ codes "phase_source_validation_next_action"
    ∷ []

unfoldable pub present_of : Json → List Text → List Text
present_of schema [] = []
present_of schema (name ∷ names) =
    let rest = present_of schema names in
    if json_schema_requires_key schema name then name ∷ rest else rest

-- Those of the names that are not present.
unfoldable pub without : List Text → List Text → List Text
without present [] = []
without present (name ∷ names) =
    let rest = without present names in if one_of name present then rest else name ∷ rest

pub record OutputSchemaAuditReport : Type 0 where
  pub required_fields : List Text
  pub present_fields : List Text
  pub missing_fields : List Text
  pub structured_output_ready : Bool

-- On a schema that could be read and parsed.
unfoldable pub output_schema_audit_report : Json → OutputSchemaAuditReport
output_schema_audit_report schema =
    let present = present_of schema required_output_schema_fields in
    let missing = without present required_output_schema_fields in
    record {
      required_fields = required_output_schema_fields;
      present_fields = present;
      missing_fields = missing;
      structured_output_ready = is_empty missing;
    }
