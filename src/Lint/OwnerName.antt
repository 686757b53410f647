-- ===== src/Lint/OwnerName.antt =====
-- The pieces of a repository's name (crates/runner-core/src/lint.rs).
use flexnetos_runner.Shared.{
  ℕ, ◌≡◌, refl, sym, ap, ◌∙◌, ◌↔◌, ◌⊎◌, inl, inr, true, false, [], ◌∷◌, ◌++◌, arith, ◌==◌, is_empty,
  any, Bool-cases, Text, split, append-nil, append_assoc,
}
use flexnetos_runner.Lint.{is_owner_name}
use flexnetos_runner.Shared.Strings.{split_from}

abbrev slash : ℕ
slash = 47

-- No slash in the text.
abbrev Plain : Text → Type 0
Plain s = any (λ c. c == slash) s ≡ false

-- `owner/name`: two parts that are not empty and have no slash.
abbrev pub IsOwnerName : Text → Type 0
IsOwnerName s =
    (owner name : Text) × (s ≡ owner ++ 47 ∷ name)
    × (any (λ c. c == 47) owner ≡ false)
    × (any (λ c. c == 47) name ≡ false)
    × (is_empty owner ≡ false)
    × (is_empty name ≡ false)

split-Plain : (p s : Text) → Plain s → split_from slash p s ≡ (p ++ s) ∷ []
unfolding split_from
split-Plain p [] h = rw append-nil refl
split-Plain p (c ∷ s) h =
    let other : (c == slash) ≡ false = ground arith in
    let rest : Plain s = ground arith in
    rw other (split-Plain (p ++ c ∷ []) s rest ∙ ap (λ t. t ∷ []) (append_assoc p (c ∷ []) s))

split-slash :
    (p owner name : Text)
    → Plain owner
    → split_from slash p (owner ++ slash ∷ name) ≡ (p ++ owner) ∷ split_from slash [] name
unfolding split_from
split-slash p [] name h = rw append-nil refl
split-slash p (c ∷ owner) name h =
    let other : (c == slash) ≡ false = ground arith in
    let rest : Plain owner = ground arith in
    rw other (
      split-slash (p ++ c ∷ []) owner name rest
      ∙ ap (λ t. t ∷ split_from slash [] name) (append_assoc p (c ∷ []) owner))

-- A text has no slash, or is cut at its first one.
cut : (s : Text) → Plain s ⊎ ((owner name : Text) × (s ≡ owner ++ slash ∷ name) × Plain owner)
cut [] = inl refl
cut (c ∷ s) = elim (Bool-cases (c == slash)) [
  | inl e ↦ (let same : c ≡ slash = ground arith in inr ([], s, rw same refl, refl))
  | inr e ↦ elim (cut s) [
    | inl plain ↦ inl (rw e plain)
    | inr (owner, name, q, plain) ↦ inr (c ∷ owner, name, rw q refl, rw e plain)
  ]
]

three : (a b : Text) (s : Text) → is_owner_name (a ∷ b ∷ split slash s) ≡ false
unfolding split is_owner_name
three a b s = elim (cut s) [
  | inl plain ↦ rw (split-Plain [] s plain) refl
  | inr (owner, name, q, plain) ↦ rw (q, split-slash [] owner name plain) refl
]

both_lem :
    (a b : Text)
    → (is_owner_name (a ∷ b ∷ []) ≡ true) ↔ ((is_empty a ≡ false) × (is_empty b ≡ false))
unfolding is_owner_name
both_lem a b = ground arith

split_one : (s : Text) → Plain s → split slash s ≡ s ∷ []
unfolding split
split_one s h = split-Plain [] s h

split-cut :
    (s owner name : Text)
    → s ≡ owner ++ slash ∷ name
    → Plain owner
    → split slash s ≡ owner ∷ split slash name
unfolding split
split-cut s owner name q p = rw q (split-slash [] owner name p)

one_piece : (s : Text) → Plain s → is_owner_name (split slash s) ≡ false
unfolding is_owner_name
one_piece s h = rw (split_one s h) refl

pub is_owner_name_iff : (s : Text) → (is_owner_name (split 47 s) ≡ true) ↔ IsOwnerName s
is_owner_name_iff s = (
  λ h. elim (cut s) [
    | inl plain ↦ (let bad : true ≡ false = sym h ∙ one_piece s plain in cc)
    | inr (owner, name, q, p) ↦
        (let e : split slash s ≡ owner ∷ split slash name = split-cut s owner name q p in
          elim (cut name) [
            | inl plain ↦
                (let f : is_owner_name (split slash s) ≡ is_owner_name (owner ∷ name ∷ []) =
                    ap is_owner_name (e ∙ ap (λ t. owner ∷ t) (split_one name plain)) in
                  let both = (both_lem owner name).0 (sym f ∙ h) in
                  (owner, name, q, p, plain, both.0, both.1))
            | inr (next, more, q', p') ↦
                (let f : is_owner_name (split slash s) ≡ false =
                    ap is_owner_name (e ∙ ap (λ t. owner ∷ t) (split-cut name next more q' p'))
                    ∙ three owner next more in
                  let bad : true ≡ false = sym h ∙ f in cc)
          ])
  ],
  λ (owner, name, q, p, plain, a, b).
      ap is_owner_name (split-cut s owner name q p ∙ ap (λ t. owner ∷ t) (split_one name plain))
      ∙ (both_lem owner name).1 (a, b),
)
