-- ===== src/Shared/Sorted.antt =====
-- `BTreeMap<K, V>` as the list of its entries by ascending key.
use mathlib.Core.Path.{◌≡◌, refl, ◌∙◌}
use mathlib.Core.Logic.{◌↔◌, inl, inr}
use mathlib.Core.Bool.{true}
use mathlib.Core.Option.{Option, none, some}
use mathlib.Core.List.{List, [], ◌∷◌}
use native.Mathlib.Omega.{arith}
use flexnetos_runner.Shared.Lists.{Among}
use flexnetos_runner.Shared.Tests.{if◌then◌else◌, Bool-cases}
use flexnetos_runner.Shared.Order.{Order}

-- What an entry becomes.
abbrev pub modified {ℓ} : {V : Type ℓ} → (V → V) → V → Option V → V
modified f v none = v
modified f v (some w) = f w

module _ {K : Type 0} {V : Type 0} ⦃o : Order K⦄ where
  -- `map.get(k)`
  unfoldable pub get : K → List (K × V) → Option V
  get k [] = none
  get k ((j, v) ∷ m) = if o.same j k then some v else get k m

  -- `map.entry(k).and_modify(f).or_insert(v)`
  unfoldable pub entry : K → (V → V) → V → List (K × V) → List (K × V)
  entry k f v [] = (k, v) ∷ []
  entry k f v ((j, w) ∷ m) =
      if o.same j k
      then (j, f w) ∷ m
      else if o.lt k j
      then (k, v) ∷ (j, w) ∷ m
      else (j, w) ∷ entry k f v m

  -- `map.into_values()`
  unfoldable pub values : List (K × V) → List V
  values [] = []
  values ((k, v) ∷ m) = v ∷ values m

  -- `map.keys()`
  unfoldable pub keys : List (K × V) → List K
  keys [] = []
  keys ((k, v) ∷ m) = k ∷ keys m

  -- Each key of the map comes after `k`.
  abbrev pub After : K → List (K × V) → Type 0
  After k [] = Unit
  After k ((j, v) ∷ m) = o.lt k j ≡ true

  abbrev pub IsSorted : List (K × V) → Type 0
  IsSorted [] = Unit
  IsSorted ((k, v) ∷ m) = After k m × IsSorted m

  pub get-nil : (k : K) → get k [] ≡ none
  unfolding get
  get-nil k = refl

  pub get_before : (k : K) (m : List (K × V)) → After k m → IsSorted m → get k m ≡ none
  unfolding get
  get_before k [] a s = refl
  get_before k ((j, v) ∷ []) a s = ground (arith, o.same_iff j k, o.irreflexive k)
  get_before k ((j, v) ∷ (i, w) ∷ m) a s =
      ground (arith, o.same_iff j k, o.irreflexive k, o.transitive k j i, get_before k ((i, w) ∷ m))

  pub get-entry :
      (k : K) (f : V → V) (v : V) (i : K) (m : List (K × V))
      → IsSorted m
      → get i (entry k f v m) ≡ (if o.same k i then some (modified f v (get k m)) else get i m)
  unfolding get entry
  get-entry k f v i [] s = refl
  get-entry k f v i ((j, w) ∷ m) s = ground (
    arith,
    o.same_iff k i,
    o.same_iff j k,
    o.same_iff j i,
    o.irreflexive k,
    get_before k ((j, w) ∷ m),
    get-entry k f v i m,
  )

  -- The same, by what was there at the key that is looked up.
  pub get-entry_at :
      (k : K) (f : V → V) (v : V) (i : K) (m : List (K × V))
      → IsSorted m
      → get i (entry k f v m) ≡ (if o.same k i then some (modified f v (get i m)) else get i m)
  get-entry_at k f v i m s = elim (Bool-cases (o.same k i)) [
    | inl e ↦
        let k_is_i : k ≡ i = (o.same_iff k i).0 e in get-entry k f v i m s ∙ rw (e, k_is_i) refl
    | inr e ↦ get-entry k f v i m s ∙ rw e refl
  ]

  After-entry :
      (h k : K) (f : V → V) (v : V) (m : List (K × V))
      → o.lt h k ≡ true
      → After h m
      → After h (entry k f v m)
  unfolding entry
  After-entry h k f v [] lt a = lt
  After-entry h k f v ((j, w) ∷ m) lt a = ground arith

  pub entry-IsSorted :
      (k : K) (f : V → V) (v : V) (m : List (K × V)) → IsSorted m → IsSorted (entry k f v m)
  unfolding entry
  entry-IsSorted k f v [] s = (tt, tt)
  entry-IsSorted k f v ((j, w) ∷ m) s = elim (Bool-cases (o.same j k)) [
    | inl e ↦ rw e s
    | inr e ↦ elim (Bool-cases (o.lt k j)) [
      | inl lt ↦ rw (e, lt) (lt, s)
      | inr ge ↦
          rw (e, ge)
            (
              After-entry j k f v m
                  (o.connected k j ge (ground (arith, o.same_iff j k, o.same_iff k j))) s.0,
              entry-IsSorted k f v m s.1,
            )
    ]
  ]

  -- In a sorted map the entries are what a lookup finds.
  get-Among : (k : K) (v : V) (m : List (K × V)) → get k m ≡ some v → Among (k, v) m
  unfolding get
  get-Among k v [] h = cc
  get-Among k v ((j, w) ∷ m) h = elim (Bool-cases (o.same j k)) [
    | inl e ↦ inl (ground (arith, o.same_iff j k, rw e at h))
    | inr e ↦ inr (get-Among k v m (rw e at h))
  ]

  Among-After :
      (h k : K) (v : V) (m : List (K × V))
      → After h m
      → IsSorted m
      → Among (k, v) m
      → o.lt h k ≡ true
  Among-After h k v [] a s i = absurd i
  Among-After h k v ((j, w) ∷ m) a s (inl e) = ground arith
  Among-After h k v ((j, w) ∷ m) a s (inr i) = o.transitive h j k a (Among-After j k v m s.0 s.1 i)

  Among-get : (k : K) (v : V) (m : List (K × V)) → IsSorted m → Among (k, v) m → get k m ≡ some v
  unfolding get
  Among-get k v [] s i = absurd i
  Among-get k v ((j, w) ∷ m) s (inl e) = ground (arith, o.same_iff j k)
  Among-get k v ((j, w) ∷ m) s (inr i) =
      ground (
        arith,
        o.same_iff j k,
        o.irreflexive k,
        Among-After j k v m s.0 s.1 i,
        Among-get k v m s.1 i,
      )

  pub Among-iff :
      (k : K) (v : V) (m : List (K × V)) → IsSorted m → Among (k, v) m ↔ (get k m ≡ some v)
  Among-iff k v m s = (Among-get k v m s, get-Among k v m)
