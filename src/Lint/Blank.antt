-- ===== src/Lint/Blank.antt =====
-- `s.trim().is_empty()` holds of the texts of white space only (crates/runner-core/src/lint.rs).
use flexnetos_runner.Shared.{
  ℕ, ◌≡◌, refl, sym, ap, ◌∙◌, ◌↔◌, inl, inr, Bool, true, false, ◌&&◌, List, [], ◌∷◌, arith,
  is_empty, all, Bool-cases, Text, is_whitespace, trim, Among,
}
use mathlib.Core.List.{reverse, reverse_aux}
use flexnetos_runner.Shared.Strings.{trim_start}

-- Some character is not white space.
abbrev pub NonBlank : Text → Type 0
NonBlank s = (c : ℕ) × Among c s × (is_whitespace c ≡ false)

is_empty-reverse_aux : (l r : List ℕ) → is_empty (reverse_aux l r) ≡ (is_empty l && is_empty r)
is_empty-reverse_aux [] r = refl
is_empty-reverse_aux (x ∷ l) r = (let ih = is_empty-reverse_aux l (x ∷ r) in ground arith)

all-reverse_aux : (p : ℕ → Bool) (l r : List ℕ) → all p (reverse_aux l r) ≡ (all p l && all p r)
all-reverse_aux p [] r = refl
all-reverse_aux p (x ∷ l) r = (let ih = all-reverse_aux p l (x ∷ r) in ground arith)

is_empty-trim_start : (s : Text) → is_empty (trim_start s) ≡ all is_whitespace s
unfolding trim_start
is_empty-trim_start [] = refl
is_empty-trim_start (c ∷ s) = (let ih = is_empty-trim_start s in ground arith)

all-trim_start : (s : Text) → all is_whitespace (trim_start s) ≡ all is_whitespace s
unfolding trim_start
all-trim_start [] = refl
all-trim_start (c ∷ s) = (let ih = all-trim_start s in ground arith)

is_empty-trim : (s : Text) → is_empty (trim s) ≡ all is_whitespace s
unfolding trim
is_empty-trim s =
    let a = is_empty-reverse_aux (trim_start (reverse (trim_start s))) [] in
    let b = is_empty-trim_start (reverse (trim_start s)) in
    let c = all-reverse_aux is_whitespace (trim_start s) [] in
    let d = all-trim_start s in ground arith

all_iff : (s : Text) → (all is_whitespace s ≡ false) ↔ NonBlank s
all_iff [] = (λ e. cc, λ w. absurd w.1)
all_iff (c ∷ s) =
    let ih = all_iff s in
    elim (Bool-cases (is_whitespace c)) [
      | inl e ↦ rw e (
        λ h. (let (d, i, n) = ih.0 h in (d, inr i, n)),
        λ (d, i, n). elim i [
          | inl same ↦ (let bad : true ≡ false = sym e ∙ (ap is_whitespace same ∙ n) in cc)
          | inr j ↦ ih.1 (d, j, n)
        ],
      )
      | inr e ↦ rw e (λ h. (c, inl refl, e), λ w. refl)
    ]

pub is_empty-trim_iff : (s : Text) → (is_empty (trim s) ≡ false) ↔ NonBlank s
is_empty-trim_iff s = rw (is_empty-trim s) (all_iff s)
