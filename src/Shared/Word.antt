-- ===== src/Shared/Word.antt =====
-- Rust's fixed-width unsigned integers over ℕ. `usize` is taken with 64 bits. A plain `+ 1` wraps, as
-- in a release build; `saturating_add` and `saturating_mul` stop at the largest value, and
-- `saturating_sub` is the subtraction of ℕ, which stops at 0.
use Prim.Native.Nat.{ℕ, ◌+◌, ◌-◌, ◌*◌, ◌%◌, min}

abbrev pub u32 : ℕ → ℕ
u32 n = n % 4294967296

abbrev pub u64 : ℕ → ℕ
u64 n = n % 18446744073709551616

abbrev pub usize : ℕ → ℕ
usize n = n % 18446744073709551616

abbrev pub u64_max : ℕ
u64_max = 18446744073709551615

abbrev pub saturating_add : ℕ → ℕ → ℕ
saturating_add a b = min (a + b) u64_max

abbrev pub saturating_mul : ℕ → ℕ → ℕ
saturating_mul a b = min (a * b) u64_max

abbrev pub saturating_sub : ℕ → ℕ → ℕ
saturating_sub a b = a - b
