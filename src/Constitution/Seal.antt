-- ===== src/Constitution/Seal.antt =====
-- When the seal holds, and what it detects (crates/runner-core/src/constitution.rs).
use flexnetos_runner.Shared.{
  ℕ, ◌≡◌, refl, sym, ap, ◌∙◌, ◌↔◌, ◌⊎◌, inl, inr, true, false, Option, none, some, List, [], ◌∷◌,
  Bool-cases, text_eq_iff, Text, text_eq, text_lt, Among,
}
use flexnetos_runner.Constitution.{
  Constitution, hash, insert_sorted, seal_on, seal_from, seal, intact, status_of, unchanged,
  changed_names, verify,
}
use flexnetos_runner.External.{External}

abbrev pub Files : Type 0
Files = Text → Option (List ℕ)

-- The file can be read, and its contents have the hash.
abbrev pub HasHash : External → Files → Text → Text → Type 0
HasHash ex read name h = (bytes : List ℕ) × (read name ≡ some bytes) × (hash ex bytes ≡ h)

some_lem : {A : Type 0} {a b : A} → ◌≡◌ {A = Option A} (some a) (some b) → a ≡ b
some_lem h = cc

module _ (ex : External) (read : Files) where
  unchanged_iff :
      (o : Option (List ℕ)) (h : Text)
      → (unchanged ex o h ≡ true) ↔ ((bytes : List ℕ) × (o ≡ some bytes) × (hash ex bytes ≡ h))
  unfolding unchanged
  unchanged_iff none h = (λ e. (let k : false ≡ true = e in cc), λ w. (let e = w.1 in cc))
  unchanged_iff (some b) h = (
    λ e. (b, refl, (text_eq_iff (hash ex b) h).0 e),
    λ w. (text_eq_iff (hash ex b) h).1 ((let (bytes, e, same) = w in rw (some_lem e) same)),
  )

  changed_names_iff :
      (m : List (Text × Text))
      → (changed_names ex read m ≡ [])
        ↔ ((name h : Text) → Among (name, h) m → HasHash ex read name h)
  unfolding changed_names
  changed_names_iff [] = (λ e name h i. absurd i, λ all. refl)
  changed_names_iff ((n, k) ∷ m) =
      let ih = changed_names_iff m in
      let here = unchanged_iff (read n) k in
      (
        λ e name h i. elim (Bool-cases (unchanged ex (read n) k)) [
          | inl u ↦ elim i [
            | inl p ↦ rw (← ap (λ x. x.0) p, ← ap (λ x. x.1) p) (here.0 u)
            | inr j ↦ ih.0 (rw u at e) name h j
          ]
          | inr u ↦ (let bad = rw u at e in cc)
        ],
        λ all. rw (here.1 (all n k (inl refl))) (ih.1 (λ name h j. all name h (inr j))),
      )

  status_iff : (l : List Text) → (status_of l ≡ intact) ↔ (l ≡ [])
  unfolding status_of
  status_iff [] = (λ e. refl, λ e. refl)
  status_iff (n ∷ ns) = (λ e. cc, λ e. cc)

-- The check passes exactly when every sealed file can be read and still has its sealed hash.
pub verify_exact :
    (ex : External) (c : Constitution) (read : Files)
    → (verify ex c read ≡ intact)
      ↔ ((name h : Text) → Among (name, h) c.sealed → HasHash ex read name h)
unfolding verify
verify_exact ex c read =
    let (to, of) = status_iff ex read (changed_names ex read c.sealed) in
    let (to', of') = changed_names_iff ex read c.sealed in (λ e. to' (to e), λ all. of (of' all))

-- An insertion, where an entry under the key would have the same value.
insert_sorted_iff :
    (k v : Text) (m : List (Text × Text))
    → ((w : Text) → Among (k, w) m → w ≡ v)
    → (x : Text × Text) → Among x (insert_sorted k v m) ↔ (((k, v) ≡ x) ⊎ Among x m)
unfolding insert_sorted
insert_sorted_iff k v [] once x = (λ i. i, λ i. i)
insert_sorted_iff k v ((j, w) ∷ m) once x = elim (Bool-cases (text_eq j k)) [
  | inl e ↦
      let same : j ≡ k = (text_eq_iff j k).0 e in
      let value : w ≡ v = once w (inl (rw same refl)) in
      rw e (
        λ i. elim i [ inl p ↦ inl p | inr q ↦ inr (inr q) ],
        λ i. elim i [
          | inl p ↦ inl p
          | inr (inl q) ↦ inl (rw (← same, ← value) q)
          | inr (inr q) ↦ inr q
        ],
      )
  | inr e ↦ rw e (elim (Bool-cases (text_lt k j)) [
    | inl lt ↦ rw lt (λ i. i, λ i. i)
    | inr ge ↦
        let ih = insert_sorted_iff k v m (λ u i. once u (inr i)) x in
        rw ge (
          λ i. elim i [
            | inl p ↦ inr (inl p)
            | inr q ↦ elim (ih.0 q) [ inl p ↦ inl p | inr s ↦ inr (inr s) ]
          ],
          λ i. elim i [
            | inl p ↦ inr (ih.1 (inl p))
            | inr (inl p) ↦ inl p
            | inr (inr s) ↦ inr (ih.1 (inr s))
          ],
        )
  ])
]

module _ (ex : External) (read : Files) where
  -- The entries of a map come from the files.
  abbrev Genuine : List (Text × Text) → Type 0
  Genuine m = (name h : Text) → Among (name, h) m → HasHash ex read name h

  HasHash-unique : (name h k : Text) → HasHash ex read name h → HasHash ex read name k → h ≡ k
  HasHash-unique name h k (b, e, p) (c, f, q) = sym p ∙ (ap (hash ex) (some_lem (sym e ∙ f)) ∙ q)

  seal_on_iff :
      (o : Option (List ℕ)) (k : Text) (m : List (Text × Text))
      → o ≡ read k
      → Genuine m
      → (name h : Text)
      → Among (name, h) (seal_on ex o k m)
        ↔ (Among (name, h) m ⊎ ((k ≡ name) × HasHash ex read name h))
  unfolding seal_on
  seal_on_iff none k m e g name h = (
    λ i. inl i,
    λ i. elim i [
      | inl j ↦ j
      | inr w ↦
          (let (same, (b, f, p)) = w in
            let bad : ◌≡◌ {A = Option (List ℕ)} none (some b) = e ∙ (ap read same ∙ f) in cc)
    ],
  )
  seal_on_iff (some b) k m e g name h =
      let here : HasHash ex read k (hash ex b) = (b, sym e, refl) in
      let both =
        insert_sorted_iff k (hash ex b) m (λ w i. HasHash-unique k w (hash ex b) (g k w i) here)
          (name, h) in
      (
        λ i. elim (both.0 i) [
          | inl p ↦ inr (ap (λ x. x.0) p, rw (← ap (λ x. x.0) p, ← ap (λ x. x.1) p) here)
          | inr j ↦ inl j
        ],
        λ i. elim i [
          | inl j ↦ both.1 (inr j)
          | inr w ↦ both.1 (
              inl (
                ap (λ n. (n, hash ex b)) w.0
                ∙ ap (λ v. (name, v)) (HasHash-unique name (hash ex b) h (rw (← w.0) here) w.1)))
        ],
      )

  seal_from_iff :
      (names : List Text) (m : List (Text × Text))
      → Genuine m
      → (name h : Text)
      → Among (name, h) (seal_from ex read m names)
        ↔ (Among (name, h) m ⊎ (Among name names × HasHash ex read name h))
  unfolding seal_from
  seal_from_iff [] m g name h = (λ i. inl i, λ i. elim i [ inl j ↦ j | inr w ↦ absurd w.0 ])
  seal_from_iff (k ∷ names) m g name h =
      let m' : List (Text × Text) = seal_on ex (read k) k m in
      let g' : Genuine m' = λ n v i. elim ((seal_on_iff (read k) k m refl g n v).0 i) [
        | inl j ↦ g n v j
        | inr w ↦ w.1
      ] in
      let ih = seal_from_iff names m' g' name h in
      let here = seal_on_iff (read k) k m refl g name h in
      (
        λ i. elim (ih.0 i) [
          | inl j ↦ elim (here.0 j) [ inl a ↦ inl a | inr w ↦ inr (inl w.0, w.1) ]
          | inr w ↦ inr (inr w.0, w.1)
        ],
        λ i. elim i [
          | inl j ↦ ih.1 (inl (here.1 (inl j)))
          | inr w ↦
              (let (a, has) = w in
                elim a [ inl e ↦ ih.1 (inl (here.1 (inr (e, has)))) | inr j ↦ ih.1 (inr (j, has)) ])
        ],
      )

-- A seal over some names, checked later against other contents: the check passes exactly when each of
-- the names that could be read at first can still be read and has the hash that it had.
pub verify-seal :
    (ex : External) (names : List Text) (before now : Files)
    → (verify ex (seal ex names before) now ≡ intact)
      ↔ ((name h : Text) → Among name names → HasHash ex before name h → HasHash ex now name h)
unfolding seal
verify-seal ex names before now =
    let (to, of) = verify_exact ex (seal ex names before) now in
    let entries = λ (name h : Text). seal_from_iff ex before names [] (λ n k i. absurd i) name h in
    (
      λ e name h i has. to e name h ((entries name h).1 (inr (i, has))),
      λ all. of (λ name h i. elim ((entries name h).0 i) [
        | inl j ↦ absurd j
        | inr w ↦ all name h w.0 w.1
      ]),
    )
