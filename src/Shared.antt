-- ===== src/Shared.antt =====
-- The names that the other modules share: the libraries', passed on, and those of the children.
mod Tests
mod Lists
pub mod Int
pub mod Word
pub mod Strings
pub mod Dict
pub mod Order
pub mod Sorted
pub mod Floats
pub use Tests.*
pub use Lists.*
pub use Prim.Native.Nat.{ℕ, zero, suc, ◌+◌, ◌-◌, ◌*◌, ◌/◌, ◌%◌, ◌^◌, ◌≤◌, ◌<◌, min, max}
pub use Prim.Native.String.{String}
pub use mathlib.Core.Path.{◌≡◌, refl, sym, ap, ◌∙◌}
pub use mathlib.Core.Logic.{◌≢◌, ◌↔◌, ◌⊎◌, inl, inr}
pub use mathlib.Core.Bool.{Bool, true, false, not, ◌&&◌, ◌||◌}
pub use mathlib.Core.Option.{Option, none, some}
pub use mathlib.Core.List.{List, [], ◌∷◌, ◌++◌, map, append-nil, append_assoc}
pub use native.Mathlib.Omega.{arith}
unfoldable pub use native.Mathlib.Decide.{dec_lt, ℕ_discrete}
unfoldable pub use Strings.{
  Text, codes, text_eq, is_whitespace, trim_start, trim, lower, to_ascii_lowercase, split_from,
  split, split_once_from, split_once, starts_with, contains, join, digits_from, decimal, text_lt,
  strip_prefix, as_bytes, one_of,
}
pub use Strings.Equality.{text_eq_iff, text_eq_refl, same-text_eq, one_of_iff}
pub use Word.{u32, u64, usize, u64_max, saturating_add, saturating_mul, saturating_sub}
pub use Floats.{Float, IsIeee}
