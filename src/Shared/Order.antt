-- ===== src/Shared/Order.antt =====
-- Rust's `Ord` for the keys of a `BTreeMap`: a strict order with the equality that goes with it. A
-- tuple of strings is ordered like the list of its parts.
use Prim.Native.Nat.{ℕ}
use mathlib.Core.Path.{◌≡◌, refl}
use mathlib.Core.Logic.{◌↔◌}
use mathlib.Core.Bool.{Bool, true, false, ◌&&◌, ◌||◌}
use mathlib.Core.List.{List, [], ◌∷◌}
use native.Mathlib.Omega.{arith}
use flexnetos_runner.Shared.Tests.{ltb, ◌==◌, ==_iff}

pub record Order (K : Type 0) : Type 0 where
  pub lt : K → K → Bool
  pub same : K → K → Bool
  pub same_iff : (a b : K) → (same a b ≡ true) ↔ (a ≡ b)
  pub irreflexive : (a : K) → lt a a ≡ false
  pub transitive : (a b c : K) → lt a b ≡ true → lt b c ≡ true → lt a c ≡ true
  pub connected : (a b : K) → lt a b ≡ false → same a b ≡ false → lt b a ≡ true

pub ltb_irreflexive : (a : ℕ) → ltb a a ≡ false
ltb_irreflexive a = ground arith

pub ltb_transitive : (a b c : ℕ) → ltb a b ≡ true → ltb b c ≡ true → ltb a c ≡ true
ltb_transitive a b c h k = ground arith

pub ltb_connected : (a b : ℕ) → ltb a b ≡ false → (a == b) ≡ false → ltb b a ≡ true
ltb_connected a b h k = ground arith

instance abbrev pub ℕ_order : Order ℕ
ℕ_order = record {
  lt = ltb;
  same = ◌==◌;
  same_iff = ==_iff;
  irreflexive = ltb_irreflexive;
  transitive = ltb_transitive;
  connected = ltb_connected;
}

module _ {A : Type 0} ⦃o : Order A⦄ where
  unfoldable pub lex_same : List A → List A → Bool
  lex_same [] [] = true
  lex_same (a ∷ s) (b ∷ t) = o.same a b && lex_same s t
  lex_same _ _ = false

  unfoldable pub lex_lt : List A → List A → Bool
  lex_lt [] [] = false
  lex_lt [] (b ∷ t) = true
  lex_lt (a ∷ s) [] = false
  lex_lt (a ∷ s) (b ∷ t) = o.lt a b || o.same a b && lex_lt s t

  lex_same_sound : (s t : List A) → lex_same s t ≡ true → s ≡ t
  unfolding lex_same
  lex_same_sound [] [] h = refl
  lex_same_sound [] (b ∷ t) h = cc
  lex_same_sound (a ∷ s) [] h = cc
  lex_same_sound (a ∷ s) (b ∷ t) h = ground (arith, o.same_iff a b, lex_same_sound s t)

  lex_same_refl : (s : List A) → lex_same s s ≡ true
  unfolding lex_same
  lex_same_refl [] = refl
  lex_same_refl (a ∷ s) = ground (arith, o.same_iff a a, lex_same_refl s)

  pub lex_same_iff : (s t : List A) → (lex_same s t ≡ true) ↔ (s ≡ t)
  lex_same_iff s t = (lex_same_sound s t, λ e. rw e (lex_same_refl t))

  pub lex_irreflexive : (s : List A) → lex_lt s s ≡ false
  unfolding lex_lt
  lex_irreflexive [] = refl
  lex_irreflexive (a ∷ s) = ground (arith, o.irreflexive a, lex_irreflexive s)

  pub lex_transitive : (s t u : List A) → lex_lt s t ≡ true → lex_lt t u ≡ true → lex_lt s u ≡ true
  unfolding lex_lt
  lex_transitive [] [] u h k = cc
  lex_transitive (a ∷ s) [] u h k = cc
  lex_transitive [] (b ∷ t) [] h k = cc
  lex_transitive [] (b ∷ t) (c ∷ u) h k = refl
  lex_transitive (a ∷ s) (b ∷ t) [] h k = cc
  lex_transitive (a ∷ s) (b ∷ t) (c ∷ u) h k = ground (
    arith,
    o.transitive a b c,
    o.same_iff a b,
    o.same_iff b c,
    o.same_iff a c,
    lex_transitive s t u,
  )

  pub lex_connected : (s t : List A) → lex_lt s t ≡ false → lex_same s t ≡ false → lex_lt t s ≡ true
  unfolding lex_lt lex_same
  lex_connected [] [] h k = cc
  lex_connected [] (b ∷ t) h k = cc
  lex_connected (a ∷ s) [] h k = refl
  lex_connected (a ∷ s) (b ∷ t) h k =
      ground (arith, o.connected a b, o.same_iff a b, o.same_iff b a, lex_connected s t)

  instance abbrev pub list_order : Order (List A)
  list_order = record {
    lt = lex_lt;
    same = lex_same;
    same_iff = lex_same_iff;
    irreflexive = lex_irreflexive;
    transitive = lex_transitive;
    connected = lex_connected;
  }
