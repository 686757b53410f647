-- ===== src/ForgeLoop/Calendar.antt =====
-- Timestamps: parse_rfc3339_utc_seconds and days_from_civil of crates/runner-cli/src/forge_loop.rs.
-- A text of at least 20 bytes is cut at fixed places, so years are from -999 to 9999 and nothing
-- overflows an i32 or an i64.
pub mod Days
pub mod RoundTrip
use mathlib.Core.Option
use flexnetos_runner.Shared.{
  ℕ, ◌+◌, ◌-◌, ◌*◌, ◌/◌, Bool, true, false, not, ◌&&◌, ◌||◌, Option, none, some, List, [], ◌∷◌, ltb,
  leb, ◌==◌, if◌then◌else◌, length, take, drop, is_empty, all, Text, as_bytes,
}
use flexnetos_runner.Shared.Int.{ℤ, pos, negsuc, pos_part, leb_ℤ, sub_ℕ, ◌+ℤ◌, ◌-ℤ◌, scale, div_ℤ}

unfoldable pub era_of : ℤ → ℤ
era_of y = div_ℤ (if leb_ℤ (pos 0) y then y else y -ℤ pos 399) 400

-- The year of the era is from 0 to 399.
unfoldable pub year_of_era : ℤ → ℕ
unfolding era_of
year_of_era y = pos_part (y -ℤ scale (era_of y) 400)

-- Days from the start of era 0 to the March that starts the shifted year `y`.
unfoldable pub days_to_year : ℤ → ℤ
unfolding era_of year_of_era
days_to_year y =
    let yoe = year_of_era y in scale (era_of y) 146097 +ℤ pos (yoe * 365 + yoe / 4 - yoe / 100)

unfoldable pub days_from_civil : ℤ → ℕ → ℕ → ℤ
unfolding days_to_year
days_from_civil year month day =
    let y = year -ℤ pos (if leb month 2 then 1 else 0) in
    let mp : ℕ = if ltb 2 month then month - 3 else month + 9 in
    let doy = sub_ℕ ((153 * mp + 2) / 5 + day) 1 in days_to_year y +ℤ doy -ℤ pos 719468

is_digit : ℕ → Bool
is_digit b = leb 48 b && leb b 57

digits_value : ℕ → List ℕ → ℕ
digits_value n [] = n
digits_value n (b ∷ bs) = digits_value (n * 10 + (b - 48)) bs

-- `str::parse` of at most four bytes as an unsigned number: a sign `+` is allowed.
parse_digits : List ℕ → Option ℕ
unfolding is_digit digits_value
parse_digits bs = if not (is_empty bs) && all is_digit bs then some (digits_value 0 bs) else none

unfoldable pub parse_u32 : List ℕ → Option ℕ
unfolding parse_digits
parse_u32 [] = none
parse_u32 (b ∷ bs) = if b == 43 then parse_digits bs else parse_digits (b ∷ bs)

-- `str::parse` of at most four bytes as an i32.
unfoldable pub parse_i32 : List ℕ → Option ℤ
unfolding parse_digits
parse_i32 [] = none
parse_i32 (b ∷ bs) =
    if b == 45
    then Option.map (λ n. sub_ℕ 0 n) (parse_digits bs)
    else Option.map pos (if b == 43 then parse_digits bs else parse_digits (b ∷ bs))

-- `value.get(from..to)`: a piece that cuts a character in two would hold a byte that is no digit.
abbrev slice : ℕ → ℕ → List ℕ → List ℕ
slice from to bs = take (to - from) (drop from bs)

byte_at : ℕ → ℕ → List ℕ → Bool
byte_at i b bs = elim (drop i bs) [ [] ↦ false | c ∷ rest ↦ c == b ]

seconds_at : ℤ → ℕ → ℕ → ℕ → ℤ
seconds_at days hour minute second =
    scale days 86400 +ℤ pos (hour * 3600) +ℤ pos (minute * 60) +ℤ pos second

well_formed : List ℕ → ℕ → ℕ → ℕ → ℕ → ℕ → Bool
unfolding byte_at
well_formed bs month day hour minute second =
    byte_at 4 45 bs
    && byte_at 7 45 bs
    && byte_at 10 84 bs
    && byte_at 13 58 bs
    && byte_at 16 58 bs
    && leb 1 month
    && leb month 12
    && leb 1 day
    && leb day 31
    && leb hour 23
    && leb minute 59
    && leb second 60

infixl 5 ◌>>=◌
abbrev ◌>>=◌ : {A B : Type 0} → Option A → (A → Option B) → Option B
none >>= f = none
some a >>= f = f a

parse_fields : List ℕ → Option ℤ
unfolding parse_u32 parse_i32 well_formed seconds_at days_from_civil
parse_fields bs = do
  year ← parse_i32 (slice 0 4 bs)
  month ← parse_u32 (slice 5 7 bs)
  day ← parse_u32 (slice 8 10 bs)
  hour ← parse_u32 (slice 11 13 bs)
  minute ← parse_u32 (slice 14 16 bs)
  second ← parse_u32 (slice 17 19 bs)
  if well_formed bs month day hour minute second
      then some (seconds_at (days_from_civil year month day) hour minute second)
      else none

ends_with_byte : ℕ → List ℕ → Bool
ends_with_byte b [] = false
ends_with_byte b (c ∷ []) = c == b
ends_with_byte b (c ∷ d ∷ rest) = ends_with_byte b (d ∷ rest)

unfoldable pub parse_bytes : List ℕ → Option ℤ
unfolding parse_fields ends_with_byte
parse_bytes bs = if ltb (length bs) 20 || not (ends_with_byte 90 bs) then none else parse_fields bs

unfoldable pub parse_rfc3339_utc_seconds : Text → Option ℤ
unfolding parse_bytes
parse_rfc3339_utc_seconds value = parse_bytes (as_bytes value)
