-- ===== src/Shared/Floats.antt =====
-- `f64`: the operations that the program uses, and the facts of IEEE 754 that the proofs use. The
-- numbers are a parameter of what computes with them; `Floats/Fixed.antt` shows that the facts can hold.
pub mod Fixed
use flexnetos_runner.Shared.Strings.{Text}
use Prim.Native.Nat.{suc, ◌≤◌, ℕ}
use mathlib.Core.Path.{◌≡◌}
use mathlib.Core.Bool.{true, Bool}

pub record Float : Type 1 where
  pub F64 : Type 0
  -- `n as f64`
  pub of_nat : ℕ → F64
  pub add : F64 → F64 → F64
  pub mul : F64 → F64 → F64
  pub div : F64 → F64 → F64
  -- `a.max(b)`
  pub fmax : F64 → F64 → F64
  -- `a >= b`
  pub geb : F64 → F64 → Bool
  -- the literal `n / 10 ^ k`
  pub literal : ℕ → ℕ → F64
  -- `format!("{:.k$}", x)`
  pub fixed : ℕ → F64 → Text

-- Facts of IEEE 754: the comparison is transitive, conversion and division round monotonically, a
-- positive number divided by itself is 1, and `max` is at least each of two numbers that compare.
pub record IsIeee (fl : Float) : Type 0 where
  pub geb_trans : (a b c : fl.F64) → fl.geb a b ≡ true → fl.geb b c ≡ true → fl.geb a c ≡ true
  pub of_nat_mono : (m n : ℕ) → m ≤ n → fl.geb (fl.of_nat n) (fl.of_nat m) ≡ true
  pub div_mono :
      (a b : fl.F64) (n : ℕ)
      → fl.geb a b ≡ true
      → fl.geb (fl.div a (fl.of_nat (suc n))) (fl.div b (fl.of_nat (suc n))) ≡ true
  pub div_self :
      (n : ℕ) → fl.geb (fl.div (fl.of_nat (suc n)) (fl.of_nat (suc n))) (fl.literal 10 1) ≡ true
  pub fmax_left : (a b x : fl.F64) → fl.geb a x ≡ true → fl.geb (fl.fmax a b) x ≡ true
  pub fmax_right : (a b x : fl.F64) → fl.geb b x ≡ true → fl.geb (fl.fmax a b) x ≡ true
