-- ===== src/ForgeLoop/Schema/Walks.antt =====
-- What the searches through a schema find (crates/runner-cli/src/forge_loop.rs).
use flexnetos_runner.Shared.{
  ◌≡◌, refl, ◌↔◌, ◌⊎◌, inl, inr, Bool, true, some, List, [], ◌∷◌, arith, Bool-cases, Text, codes,
  text_eq,
}
use flexnetos_runner.ForgeLoop.Schema.{
  Json, null, bool, integer, fraction, string, array, object, Items, no_items, item, Fields,
  no_fields, field, get_field, search, search_properties, search_property, search_at, search_fields,
  search_items,
}

abbrev pub InFields : Json → Fields → Type 0
InFields v no_fields = ⊥
InFields v (field k w fs) = (w ≡ v) ⊎ InFields v fs

abbrev pub InItems : Json → Items → Type 0
InItems v no_items = ⊥
InItems v (item w items) = (w ≡ v) ⊎ InItems v items

-- A way down from a value along the names of a path: each name is a property of an object on the way,
-- other values may lie between them, and the object at the end passes `leaf`.
pub data Walk (leaf : Fields → Bool) : List Text → Json → Type 0 where
  here : (fs : Fields) → leaf fs ≡ true → Walk leaf [] (object fs)
  property :
      (p : Text) (ps : List Text) (fs inner : Fields) (v : Json)
      → get_field (codes "properties") fs ≡ some (object inner)
      → get_field p inner ≡ some v
      → Walk leaf ps v
      → Walk leaf (p ∷ ps) (object fs)
  within :
      (p : Text) (ps : List Text) (fs : Fields) (v : Json)
      → InFields v fs
      → Walk leaf (p ∷ ps) v
      → Walk leaf (p ∷ ps) (object fs)
  element :
      (path : List Text) (items : Items) (v : Json)
      → InItems v items
      → Walk leaf path v
      → Walk leaf path (array items)

module _ (leaf : Fields → Bool) where
  -- A property of the object, and the way from it.
  abbrev At : Text → List Text → Fields → Type 0
  At p ps fs = (v : Json) × (get_field p fs ≡ some v) × Walk leaf ps v

  mutual
    unfolding search get_field

    search-Walk : (path : List Text) (v : Json) → search leaf path v ≡ true → Walk leaf path v
    search-Walk [] (object fs) h = here fs h
    search-Walk (p ∷ ps) (object fs) h = elim (Bool-cases (search_properties leaf p ps fs)) [
      | inl e ↦
          let (inner, is_object, (v, is_at, w)) = search_properties-At p ps fs e in
          property p ps fs inner v is_object is_at w
      | inr e ↦ let (v, is_in, w) = fields-Walk (p ∷ ps) fs (rw e at h) in within p ps fs v is_in w
    ]
    search-Walk path (array items) h =
        let (v, is_in, w) = items-Walk path items h in element path items v is_in w
    search-Walk path null h = cc
    search-Walk path (bool b) h = cc
    search-Walk path (integer n) h = cc
    search-Walk path (fraction t) h = cc
    search-Walk path (string s) h = cc

    search_properties-At :
        (p : Text) (ps : List Text) (fs : Fields)
        → search_properties leaf p ps fs ≡ true
        → (inner : Fields) × (get_field (codes "properties") fs ≡ some (object inner))
          × At p ps inner
    search_properties-At p ps no_fields h = cc
    search_properties-At p ps (field k v fs) h =
        elim (Bool-cases (text_eq k (codes "properties"))) [
          | inl e ↦
              let (inner, is_object, at) = search_property-At p ps v (rw e at h) in
              (inner, rw e is_object, at)
          | inr e ↦
              let (inner, is_object, at) = search_properties-At p ps fs (rw e at h) in
              (inner, rw e is_object, at)
        ]

    search_property-At :
        (p : Text) (ps : List Text) (v : Json)
        → search_property leaf p ps v ≡ true
        → (inner : Fields) × (some v ≡ some (object inner)) × At p ps inner
    search_property-At p ps (object fs) h = (fs, refl, search_at-At p ps fs h)
    search_property-At p ps (array items) h = cc
    search_property-At p ps null h = cc
    search_property-At p ps (bool b) h = cc
    search_property-At p ps (integer n) h = cc
    search_property-At p ps (fraction t) h = cc
    search_property-At p ps (string s) h = cc

    search_at-At :
        (p : Text) (ps : List Text) (fs : Fields) → search_at leaf p ps fs ≡ true → At p ps fs
    search_at-At p ps no_fields h = cc
    search_at-At p ps (field k v fs) h = elim (Bool-cases (text_eq k p)) [
      | inl e ↦ (v, rw e refl, search-Walk ps v (rw e at h))
      | inr e ↦ let (w, is_at, walk) = search_at-At p ps fs (rw e at h) in (w, rw e is_at, walk)
    ]

    fields-Walk :
        (path : List Text) (fs : Fields)
        → search_fields leaf path fs ≡ true
        → (v : Json) × InFields v fs × Walk leaf path v
    fields-Walk path no_fields h = cc
    fields-Walk path (field k v fs) h = elim (Bool-cases (search leaf path v)) [
      | inl e ↦ (v, inl refl, search-Walk path v e)
      | inr e ↦ let (w, is_in, walk) = fields-Walk path fs (rw e at h) in (w, inr is_in, walk)
    ]

    items-Walk :
        (path : List Text) (items : Items)
        → search_items leaf path items ≡ true
        → (v : Json) × InItems v items × Walk leaf path v
    items-Walk path no_items h = cc
    items-Walk path (item v items) h = elim (Bool-cases (search leaf path v)) [
      | inl e ↦ (v, inl refl, search-Walk path v e)
      | inr e ↦ let (w, is_in, walk) = items-Walk path items (rw e at h) in (w, inr is_in, walk)
    ]

  at-search :
      (p : Text) (ps : List Text) (fs : Fields) (v : Json)
      → get_field p fs ≡ some v
      → search_at leaf p ps fs ≡ search leaf ps v
  unfolding search get_field
  at-search p ps no_fields v h = cc
  at-search p ps (field k w fs) v h = ground (arith, at-search p ps fs v)

  properties-at :
      (p : Text) (ps : List Text) (fs inner : Fields)
      → get_field (codes "properties") fs ≡ some (object inner)
      → search_properties leaf p ps fs ≡ search_at leaf p ps inner
  unfolding search get_field
  properties-at p ps no_fields inner h = cc
  properties-at p ps (field k w fs) inner h = elim (Bool-cases (text_eq k (codes "properties"))) [
    | inl e ↦
        let same : some w ≡ some (object inner) = rw e at h in
        let is_object : w ≡ object inner = cc in rw (e, is_object) refl
    | inr e ↦ rw e (properties-at p ps fs inner (rw e at h))
  ]

  fields-search :
      (path : List Text) (fs : Fields) (v : Json)
      → InFields v fs
      → search leaf path v ≡ true
      → search_fields leaf path fs ≡ true
  unfolding search
  fields-search path no_fields v i h = absurd i
  fields-search path (field k w fs) v (inl e) h = rw (e, h) refl
  fields-search path (field k w fs) v (inr i) h = ground (arith, fields-search path fs v i h)

  items-search :
      (path : List Text) (items : Items) (v : Json)
      → InItems v items
      → search leaf path v ≡ true
      → search_items leaf path items ≡ true
  unfolding search
  items-search path no_items v i h = absurd i
  items-search path (item w items) v (inl e) h = rw (e, h) refl
  items-search path (item w items) v (inr i) h = ground (arith, items-search path items v i h)

  Walk-search : (path : List Text) (v : Json) → Walk leaf path v → search leaf path v ≡ true
  unfolding search
  Walk-search path v (here fs h) = h
  Walk-search path v (property p ps fs inner w is_object is_at walk) =
      rw
        (properties-at p ps fs inner is_object, at-search p ps inner w is_at, Walk-search ps w walk)
        refl
  Walk-search path v (within p ps fs w is_in walk) =
      ground (arith, fields-search (p ∷ ps) fs w is_in (Walk-search (p ∷ ps) w walk))
  Walk-search path v (element path' items w is_in walk) =
      items-search path' items w is_in (Walk-search path' w walk)

  -- The search succeeds exactly if there is a way down the path to an object that passes.
  pub search_exact : (path : List Text) (v : Json) → (search leaf path v ≡ true) ↔ Walk leaf path v
  search_exact path v = (search-Walk path v, Walk-search path v)
