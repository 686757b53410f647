-- ===== src/Shared/Floats/Fixed.antt =====
-- Fixed-point numbers in tenths, which satisfy the facts that the proofs use of `f64`.
use Prim.Native.Nat.{ℕ, suc, ◌+◌, ◌*◌, ◌/◌, ◌^◌, ◌≤◌, max}
use native.Mathlib.Omega.{arith}
use native.Mathlib.Nat.{le-div_iff_mul-le, div-mul-le_self}
use flexnetos_runner.Shared.Tests.{leb, le→leb, leb→le}
use flexnetos_runner.Shared.Strings.{decimal}
use flexnetos_runner.Shared.Floats.{Float, IsIeee}

abbrev pub fixed_point : Float
fixed_point = record {
  F64 = ℕ;
  of_nat = λ n. n * 10;
  add = λ a b. a + b;
  mul = λ a b. a * b / 10;
  div = λ a b. a * 10 / b;
  fmax = max;
  geb = λ a b. leb b a;
  literal = λ n k. n * 10 / 10 ^ k;
  fixed = λ k x. decimal (x / 10);
}

div_mono : (a b k : ℕ) → 1 ≤ k → b ≤ a → b * 10 / k ≤ a * 10 / k
div_mono a b k pos le =
    (le-div_iff_mul-le {k = k} {x = b * 10 / k} {y = a * 10} pos).1
      (omega (arith, div-mul-le_self (b * 10) k))

ten_le : (n : ℕ) → 10 ≤ suc n * 10 * 10 / (suc n * 10)
ten_le n =
    (le-div_iff_mul-le {k = suc n * 10} {x = 10} {y = suc n * 10 * 10} (omega arith)).1
      (omega arith)

pub fixed_point-IsIeee : IsIeee fixed_point
fixed_point-IsIeee = record {
  geb_trans = λ a b c h k. le→leb c a (omega (arith, leb→le b a h, leb→le c b k));
  of_nat_mono = λ m n h. le→leb (m * 10) (n * 10) (omega arith);
  div_mono = λ a b n h.
      le→leb (b * 10 / (suc n * 10)) (a * 10 / (suc n * 10))
        (div_mono a b (suc n * 10) (omega arith) (leb→le b a h));
  div_self = λ n. le→leb 10 (suc n * 10 * 10 / (suc n * 10)) (ten_le n);
  fmax_left = λ a b x h. le→leb x (max a b) (omega (arith, leb→le x a h));
  fmax_right = λ a b x h. le→leb x (max a b) (omega (arith, leb→le x b h));
}
