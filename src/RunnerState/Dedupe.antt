-- ===== src/RunnerState/Dedupe.antt =====
-- A deduplicated gitconfig names each directory once, and the same ones
-- (crates/runner-cli/src/runner_state.rs).
use flexnetos_runner.Shared.{
  ◌+◌, ◌≡◌, refl, ap, ◌∙◌, Bool, true, false, ◌||◌, none, some, List, [], ◌∷◌, arith, if◌then◌else◌,
  Bool-cases, Option-cases, inl, inr, Text, text_eq, text_eq_iff, one_of, is_some,
}
use flexnetos_runner.RunnerState.Disk.{directory_in, count_duplicates, keep_first}

-- Some line names the directory.
abbrev pub names : Text → List Text → Bool
names d [] = false
names d (line ∷ rest) =
    (elim (directory_in line) [ none ↦ false | some e ↦ text_eq d e ]) || names d rest

-- The lines that name no directory.
abbrev pub other_lines : List Text → List Text
other_lines [] = []
other_lines (line ∷ rest) =
    if is_some (directory_in line) then other_lines rest else line ∷ other_lines rest

abbrev SameSeen : List Text → List Text → Type 0
SameSeen s t = (d : Text) → one_of d s ≡ one_of d t

seen_again : (e : Text) (t : List Text) → one_of e t ≡ true → SameSeen t (e ∷ t)
unfolding one_of
seen_again e t h d = ground (arith, text_eq_iff d e)

module _ (line : Text) (rest : List Text) where
  count_other :
      (s : List Text)
      → directory_in line ≡ none
      → count_duplicates s (line ∷ rest) ≡ count_duplicates s rest
  unfolding count_duplicates
  count_other s e = ground arith

  count_named :
      (s : List Text) (d : Text)
      → directory_in line ≡ some d
      → count_duplicates s (line ∷ rest)
        ≡ (if one_of d s then 1 else 0) + count_duplicates (d ∷ s) rest
  unfolding count_duplicates
  count_named s d e = ground arith

  keep_other :
      (t : List Text)
      → directory_in line ≡ none
      → keep_first t (line ∷ rest) ≡ line ∷ keep_first t rest
  unfolding keep_first
  keep_other t e = ground arith

  keep_old :
      (t : List Text) (d : Text)
      → directory_in line ≡ some d
      → one_of d t ≡ true
      → keep_first t (line ∷ rest) ≡ keep_first (d ∷ t) rest
  unfolding keep_first
  keep_old t d e h = ground arith

  keep_new :
      (t : List Text) (d : Text)
      → directory_in line ≡ some d
      → one_of d t ≡ false
      → keep_first t (line ∷ rest) ≡ line ∷ keep_first (d ∷ t) rest
  unfolding keep_first
  keep_new t d e h = ground arith

unseen : (d : Text) → one_of d [] ≡ false
unfolding one_of
unseen d = refl

both_seen : (d : Text) (s t : List Text) → SameSeen s t → SameSeen (d ∷ s) (d ∷ t)
unfolding one_of
both_seen d s t same e = ap (λ b. text_eq e d || b) (same e)

keep_first-clean : (s t ls : List Text) → SameSeen s t → count_duplicates s (keep_first t ls) ≡ 0
keep_first-clean s t [] same = unfold count_duplicates keep_first in refl
keep_first-clean s t (line ∷ rest) same = elim (Option-cases (directory_in line)) [
  | inl e ↦
      rw (keep_other line rest t e, count_other line (keep_first t rest) s e)
        (keep_first-clean s t rest same)
  | inr (d, e) ↦ elim (Bool-cases (one_of d t)) [
    | inl old ↦
        rw (keep_old line rest t d e old)
          (keep_first-clean s (d ∷ t) rest (λ x. same x ∙ seen_again d t old x))
    | inr new ↦
        rw
          (
            keep_new line rest t d e new,
            count_named line (keep_first (d ∷ t) rest) s d e,
            same d,
            new,
            keep_first-clean (d ∷ s) (d ∷ t) rest (both_seen d s t same),
          )
          refl
  ]
]

keep_first-names :
    (d : Text) (t ls : List Text)
    → (names d (keep_first t ls) || one_of d t) ≡ (names d ls || one_of d t)
unfolding one_of
keep_first-names d t [] = unfold keep_first in refl
keep_first-names d t (line ∷ rest) = elim (Option-cases (directory_in line)) [
  | inl e ↦ rw (keep_other line rest t e, e) (keep_first-names d t rest)
  | inr (x, e) ↦ elim (Bool-cases (one_of x t)) [
    | inl old ↦
        rw (keep_old line rest t x e old, e)
          (ground (arith, text_eq_iff d x, keep_first-names d (x ∷ t) rest))
    | inr new ↦
        rw (keep_new line rest t x e new, e)
          (ground (arith, text_eq_iff d x, keep_first-names d (x ∷ t) rest))
  ]
]

keep_first-other_lines : (t ls : List Text) → other_lines (keep_first t ls) ≡ other_lines ls
keep_first-other_lines t [] = unfold keep_first in refl
keep_first-other_lines t (line ∷ rest) = elim (Option-cases (directory_in line)) [
  | inl e ↦ rw (keep_other line rest t e, e) (ap (λ ls. line ∷ ls) (keep_first-other_lines t rest))
  | inr (d, e) ↦ elim (Bool-cases (one_of d t)) [
    | inl old ↦ rw (keep_old line rest t d e old, e) (keep_first-other_lines (d ∷ t) rest)
    | inr new ↦ rw (keep_new line rest t d e new, e) (keep_first-other_lines (d ∷ t) rest)
  ]
]

-- What is left of the lines of a gitconfig has no duplicate, names the same directories, and has all
-- the lines that name none, in their order.
pub keep_first_exact :
    (ls : List Text)
    → (count_duplicates [] (keep_first [] ls) ≡ 0)
      × ((d : Text) → names d (keep_first [] ls) ≡ names d ls)
      × (other_lines (keep_first [] ls) ≡ other_lines ls)
keep_first_exact ls = (
  keep_first-clean [] [] ls (λ d. refl),
  λ d. ground (arith, unseen d, keep_first-names d [] ls),
  keep_first-other_lines [] ls,
)
