-- ===== src/ForgeLoop/Calendar/RoundTrip.antt =====
-- Timestamps in the form of the GitHub API are read as what they say
-- (crates/runner-cli/src/forge_loop.rs).
use flexnetos_runner.Shared.{
  ℕ, ◌+◌, ◌*◌, ◌/◌, ◌%◌, ◌≤◌, ◌<◌, ◌≡◌, refl, some, true, [], ◌∷◌, arith, Text, as_bytes,
}
use flexnetos_runner.Shared.Int.{pos, ◌+ℤ◌, scale}
use flexnetos_runner.ForgeLoop.Calendar.{
  parse_u32, parse_i32, well_formed, seconds_at, parse_fields, parse_rfc3339_utc_seconds,
  days_from_civil,
}

abbrev pub two_digits : ℕ → Text → Text
two_digits n rest = (48 + n / 10) ∷ (48 + n % 10) ∷ rest

abbrev pub four_digits : ℕ → Text → Text
four_digits n rest =
    (48 + n / 1000) ∷ (48 + n / 100 % 10) ∷ (48 + n / 10 % 10) ∷ (48 + n % 10) ∷ rest

-- YYYY-MM-DDTHH:MM:SSZ
abbrev pub print : ℕ → ℕ → ℕ → ℕ → ℕ → ℕ → Text
print year month day hour minute second = four_digits year (
    45
    ∷ two_digits month (
        45
        ∷ two_digits day
            (84 ∷ two_digits hour (58 ∷ two_digits minute (58 ∷ two_digits second (90 ∷ []))))))

parse_u32-two_digits : (n : ℕ) → n < 100 → parse_u32 (two_digits n []) ≡ some n
unfolding parse_u32
parse_u32-two_digits n h = ground arith

parse_i32-four_digits : (n : ℕ) → n < 10000 → parse_i32 (four_digits n []) ≡ some (pos n)
unfolding parse_i32
parse_i32-four_digits n h = ground arith

-- The bytes of an ASCII text are its code points.
abbrev IsAscii : Text → Type 0
IsAscii [] = Unit
IsAscii (c ∷ s) = (c < 128) × IsAscii s

as_bytes-IsAscii : (s : Text) → IsAscii s → as_bytes s ≡ s
unfolding as_bytes
as_bytes-IsAscii [] a = refl
as_bytes-IsAscii (c ∷ s) a = ground (arith, as_bytes-IsAscii s a.1)

module _ (year month day hour minute second : ℕ) (year_in : year ≤ 9999)
    (month_in : (1 ≤ month) × (month ≤ 12)) (day_in : (1 ≤ day) × (day ≤ 31))
    (time_in : (hour ≤ 23) × (minute ≤ 59) × (second ≤ 60)) where
  print-IsAscii : IsAscii (print year month day hour minute second)
  print-IsAscii = omega arith

  print-well_formed :
      well_formed (print year month day hour minute second) month day hour minute second ≡ true
  unfolding well_formed
  print-well_formed = ground arith

  parse_fields-print :
      parse_fields (print year month day hour minute second)
      ≡ some (seconds_at (days_from_civil (pos year) month day) hour minute second)
  unfolding parse_fields
  parse_fields-print =
      rw
        (
          parse_i32-four_digits year (omega arith),
          parse_u32-two_digits month (omega arith),
          parse_u32-two_digits day (omega arith),
          parse_u32-two_digits hour (omega arith),
          parse_u32-two_digits minute (omega arith),
          parse_u32-two_digits second (omega arith),
          print-well_formed,
        )
        refl

-- A timestamp of a year up to 9999, a month, a day up to 31 and a time of day, a leap second included,
-- in the form YYYY-MM-DDTHH:MM:SSZ is read as the seconds of the day number and of the time.
pub parse-print :
    (year month day hour minute second : ℕ)
    → year ≤ 9999
    → (1 ≤ month) × (month ≤ 12)
    → (1 ≤ day) × (day ≤ 31)
    → (hour ≤ 23) × (minute ≤ 59) × (second ≤ 60)
    → parse_rfc3339_utc_seconds (print year month day hour minute second)
      ≡ some (
          scale (days_from_civil (pos year) month day) 86400
          +ℤ pos (hour * 3600)
          +ℤ pos (minute * 60)
          +ℤ pos second)
unfolding parse_rfc3339_utc_seconds seconds_at
parse-print year month day hour minute second y m d t =
    rw
      (as_bytes-IsAscii (print year month day hour minute second)
        (print-IsAscii year month day hour minute second y m d t))
      (parse_fields-print year month day hour minute second y m d t)
