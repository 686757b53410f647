-- ===== src/Shared/Strings/Equality.antt =====
-- `text_eq` decides equality.
use flexnetos_runner.Shared.Strings.{Text, text_eq, one_of}
use flexnetos_runner.Shared.Lists.{Among}
use flexnetos_runner.Shared.Tests.{Bool-cases}
use mathlib.Core.Path.{◌≡◌, refl, sym}
use mathlib.Core.Logic.{◌↔◌, inl, inr}
use mathlib.Core.Bool.{true}
use mathlib.Core.List.{List, [], ◌∷◌}
use native.Mathlib.Omega.{arith}
use flexnetos_runner.Shared.Order.{list_order, ℕ_order, lex_same_iff}

text_eq_sound : (s t : Text) → text_eq s t ≡ true → s ≡ t
unfolding text_eq
text_eq_sound [] [] h = refl
text_eq_sound [] (b ∷ t) h = cc
text_eq_sound (a ∷ s) [] h = cc
text_eq_sound (a ∷ s) (b ∷ t) h = ground (arith, text_eq_sound s t)

pub text_eq_refl : (s : Text) → text_eq s s ≡ true
unfolding text_eq
text_eq_refl [] = refl
text_eq_refl (a ∷ s) = ground (arith, text_eq_refl s)

pub text_eq_iff : (s t : Text) → (text_eq s t ≡ true) ↔ (s ≡ t)
text_eq_iff s t = (text_eq_sound s t, λ e. rw e (text_eq_refl t))

-- Texts are the same in the order of keys if `text_eq` says so.
pub same-text_eq : (s t : Text) → list_order.same s t ≡ text_eq s t
same-text_eq s t = ground (arith, text_eq_iff s t, lex_same_iff s t)

pub one_of_iff : (s : Text) (names : List Text) → (one_of s names ≡ true) ↔ Among s names
unfolding one_of
one_of_iff s [] = (λ h. cc, λ h. absurd h)
one_of_iff s (t ∷ names) = elim (Bool-cases (text_eq s t)) [
  | inl e ↦ rw e (λ h. inl (sym ((text_eq_iff s t).0 e)), λ h. refl)
  | inr e ↦
      let (to, back) = one_of_iff s names in
      rw e
        (λ h. inr (to h), λ h. elim h [ inl q ↦ ground (arith, text_eq_iff s t) | inr i ↦ back i ])
]
