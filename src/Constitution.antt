-- ===== src/Constitution.antt =====
-- The seal on the runner's governing files (crates/runner-core/src/constitution.rs).
pub mod Seal
use flexnetos_runner.Shared.{
  ℕ, Bool, true, false, Option, none, some, List, [], ◌∷◌, if◌then◌else◌, Text, text_eq, text_lt,
}
use flexnetos_runner.External.{External}

unfoldable pub hash : External → List ℕ → Text
hash ex bytes = ex.hex_encode (ex.sha256 bytes)

-- A `BTreeMap` from a name to a hash, in the order of the names.
pub record Constitution : Type 0 where
  pub sealed : List (Text × Text)

unfoldable pub insert_sorted : Text → Text → List (Text × Text) → List (Text × Text)
insert_sorted k v [] = (k, v) ∷ []
insert_sorted k v ((j, w) ∷ m) =
    if text_eq j k
    then (k, v) ∷ m
    else if text_lt k j
    then (k, v) ∷ (j, w) ∷ m
    else (j, w) ∷ insert_sorted k v m

-- The collected pairs go into the map from the left, so a later one replaces an earlier one.
seal_on : External → Option (List ℕ) → Text → List (Text × Text) → List (Text × Text)
seal_on ex none name m = m
seal_on ex (some bytes) name m = insert_sorted name (hash ex bytes) m

unfoldable pub seal_from :
    External → (Text → Option (List ℕ)) → List (Text × Text) → List Text → List (Text × Text)
unfolding seal_on
seal_from ex read m [] = m
seal_from ex read m (name ∷ names) = seal_from ex read (seal_on ex (read name) name m) names

unfoldable pub seal : External → List Text → (Text → Option (List ℕ)) → Constitution
unfolding seal_from
seal ex names read = record { sealed = seal_from ex read [] names }

pub data ConstitutionStatus : Type 0 where
  intact : ConstitutionStatus
  violated : List Text → ConstitutionStatus

unfoldable pub is_violated : ConstitutionStatus → Bool
is_violated (violated _) = true
is_violated intact = false

unfoldable pub unchanged : External → Option (List ℕ) → Text → Bool
unchanged ex none sealed_hash = false
unchanged ex (some bytes) sealed_hash = text_eq (hash ex bytes) sealed_hash

-- The names whose contents changed, or that can no longer be read.
unfoldable pub changed_names : External → (Text → Option (List ℕ)) → List (Text × Text) → List Text
unfolding unchanged
changed_names ex read [] = []
changed_names ex read ((name, sealed_hash) ∷ m) =
    let rest = changed_names ex read m in
    if unchanged ex (read name) sealed_hash then rest else name ∷ rest

status_of : List Text → ConstitutionStatus
status_of [] = intact
status_of (n ∷ ns) = violated (n ∷ ns)

unfoldable pub verify : External → Constitution → (Text → Option (List ℕ)) → ConstitutionStatus
unfolding status_of changed_names
verify ex c read = status_of (changed_names ex read c.sealed)
