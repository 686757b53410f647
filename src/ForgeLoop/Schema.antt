-- ===== src/ForgeLoop/Schema.antt =====
-- The searches through a JSON schema, of crates/runner-cli/src/forge_loop.rs, on what serde_json has
-- parsed. The source writes the same search once for each test at the end of the path.
pub mod Keys
pub mod Walks
pub mod Missing
use mathlib.Core.List.{reverse}
use mathlib.Core.Option
use flexnetos_runner.Shared.{
  ℕ, Bool, true, false, not, ◌&&◌, ◌||◌, Option, none, some, List, [], ◌∷◌, leb, if◌then◌else◌,
  is_empty, all, Text, codes, text_eq, strip_prefix, one_of,
}
use flexnetos_runner.Shared.Int.{ℤ, pos, negsuc, leb_ℤ}

-- `serde_json::Value`; a number is an integer, of at most 64 bits, or something else.
mutual
  pub data Json : Type 0 where
    null : Json
    bool : Bool → Json
    integer : ℤ → Json
    fraction : Text → Json
    string : Text → Json
    array : Items → Json
    object : Fields → Json

  pub data Items : Type 0 where
    no_items : Items
    item : Json → Items → Items

  pub data Fields : Type 0 where
    no_fields : Fields
    field : Text → Json → Fields → Fields

-- `map.get(key)`
unfoldable pub get_field : Text → Fields → Option Json
get_field key no_fields = none
get_field key (field k v fs) = if text_eq k key then some v else get_field key fs

unfoldable pub is_string : Text → Json → Bool
is_string s (string t) = text_eq t s
is_string s _ = false

-- Is one of the items this string?
unfoldable pub has_string : Text → Items → Bool
has_string s no_items = false
has_string s (item v items) = is_string s v || has_string s items

-- The array of this key holds the string.
unfoldable pub lists_string : Text → Option Json → Bool
lists_string s (some (array items)) = has_string s items
lists_string s _ = false

-- The search for a path of properties, in any value, whose end passes `leaf`.
module _ (leaf : Fields → Bool) where
  unfoldable mutual
    pub search : List Text → Json → Bool
    search [] (object fs) = leaf fs
    search (p ∷ ps) (object fs) = search_properties p ps fs || search_fields (p ∷ ps) fs
    search path (array items) = search_items path items
    search path null = false
    search path (bool b) = false
    search path (integer n) = false
    search path (fraction t) = false
    search path (string s) = false

    -- The value of "properties", if it is an object.
    pub search_properties : Text → List Text → Fields → Bool
    search_properties p ps no_fields = false
    search_properties p ps (field k v fs) =
        let here = search_property p ps v in
        let later = search_properties p ps fs in
        if text_eq k (codes "properties") then here else later

    pub search_property : Text → List Text → Json → Bool
    search_property p ps (object fs) = search_at p ps fs
    search_property p ps (array items) = false
    search_property p ps null = false
    search_property p ps (bool b) = false
    search_property p ps (integer n) = false
    search_property p ps (fraction t) = false
    search_property p ps (string s) = false

    pub search_at : Text → List Text → Fields → Bool
    search_at p ps no_fields = false
    search_at p ps (field k v fs) =
        let here = search ps v in
        let later = search_at p ps fs in if text_eq k p then here else later

    pub search_fields : List Text → Fields → Bool
    search_fields path no_fields = false
    search_fields path (field k v fs) = search path v || search_fields path fs

    pub search_items : List Text → Items → Bool
    search_items path no_items = false
    search_items path (item v items) = search path v || search_items path items

-- Some object requires the key.
unfoldable mutual
  pub requires : Text → Json → Bool
  requires key (object fs) =
      lists_string key (get_field (codes "required") fs) || requires_fields key fs
  requires key (array items) = requires_items key items
  requires key null = false
  requires key (bool b) = false
  requires key (integer n) = false
  requires key (fraction t) = false
  requires key (string s) = false

  pub requires_fields : Text → Fields → Bool
  requires_fields key no_fields = false
  requires_fields key (field k v fs) = requires key v || requires_fields key fs

  pub requires_items : Text → Items → Bool
  requires_items key no_items = false
  requires_items key (item v items) = requires key v || requires_items key items
