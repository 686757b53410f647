-- ===== src/ForgeLoop/Calendar/Days.antt =====
-- Day numbers are the calendar's (crates/runner-cli/src/forge_loop.rs).
use flexnetos_runner.Shared.{
  ℕ, zero, suc, ◌+◌, ◌-◌, ◌*◌, ◌/◌, ◌%◌, ◌≤◌, ◌≡◌, refl, Bool, false, not, ◌&&◌, ◌||◌, sym, ==_iff,
  ap, ◌∙◌, lt→ltb, le→leb, inl, inr, Bool-cases, ltb→lt, ◌<◌, arith, ltb, leb, ◌==◌, if◌then◌else◌,
}
use flexnetos_runner.Shared.Int.{ℤ, pos, negsuc, pos_part, neg_part, sub_ℕ, ◌+ℤ◌, ◌-ℤ◌}
use flexnetos_runner.ForgeLoop.Calendar.{days_to_year, days_from_civil}

-- The Gregorian rule, with a year 0 and years before it. Divisibility does not see the sign.
abbrev pub is_leap : ℤ → Bool
is_leap year =
    let n = pos_part year + neg_part year in n % 4 == 0 && (not (n % 100 == 0) || n % 400 == 0)

abbrev pub days_in_month : ℤ → ℕ → ℕ
days_in_month year month =
    if month == 2
    then (if is_leap year then 29 else 28)
    else if month == 4 || month == 6 || month == 9 || month == 11
    then 30
    else 31

pub record Civil : Type 0 where
  pub year : ℤ
  pub month : ℕ
  pub day : ℕ

abbrev pub next_day : Civil → Civil
next_day t =
    if ltb t.day (days_in_month t.year t.month)
    then record t { day = t.day + 1 }
    else if ltb t.month 12
    then record t { month = t.month + 1; day = 1 }
    else record { year = t.year +ℤ pos 1; month = 1; day = 1 }

abbrev pub day_number : Civil → ℤ
day_number t = days_from_civil t.year t.month t.day

abbrev march_days : ℕ → ℕ
march_days n = n / 400 * 146097 + ((n % 400) * 365 + (n % 400) / 4 - (n % 400) / 100)

days_to_year_pos : (n : ℕ) → days_to_year (pos n) ≡ pos (march_days n)
unfolding days_to_year
days_to_year_pos n = ground arith

-- Years before year 0, moved up by whole eras.
days_to_year_neg :
    (n : ℕ)
    → days_to_year (negsuc n)
      ≡ sub_ℕ (march_days ((n / 400 + 1) * 400 - (n + 1))) ((n / 400 + 1) * 146097)
unfolding days_to_year
days_to_year_neg n = ground arith

march_days-suc :
    (n : ℕ) → march_days (suc n) ≡ march_days n + (if is_leap (pos (suc n)) then 366 else 365)
march_days-suc n = ground arith

pred_pos : (n : ℕ) → pos (suc n) -ℤ pos 1 ≡ pos n
pred_pos n = ground arith

pred_neg : (n : ℕ) → negsuc n -ℤ pos 1 ≡ negsuc (suc n)
pred_neg n = ground arith

days_to_year-pred :
    (y : ℤ) → days_to_year y ≡ days_to_year (y -ℤ pos 1) +ℤ pos (if is_leap y then 366 else 365)
days_to_year-pred (pos zero) = unfold days_to_year in refl
days_to_year-pred (pos (suc n)) =
    rw (pred_pos n, days_to_year_pos (suc n), days_to_year_pos n) (ground (arith, march_days-suc n))
days_to_year-pred (negsuc n) =
    rw (pred_neg n, days_to_year_neg n, days_to_year_neg (suc n))
      (ground (arith, march_days-suc (((n + 1) / 400 + 1) * 400 - (n + 2))))

sub_zero : (y : ℤ) → y -ℤ pos 0 ≡ y
sub_zero y = ground arith

add_sub : (y : ℤ) → y +ℤ pos 1 -ℤ pos 1 ≡ y
add_sub y = ground arith

sub_one : (n : ℕ) → 1 ≤ n → sub_ℕ n 1 ≡ pos (n - 1)
sub_one n h = ground arith

-- The day number, from the day `n` of the year that starts in March of `y`.
from_march : ℤ → ℕ → ℤ
from_march y n = days_to_year y +ℤ pos n -ℤ pos 719468

move_on : (x : ℤ) (n c : ℕ) → x +ℤ pos (n + 1) -ℤ pos c ≡ x +ℤ pos n -ℤ pos c +ℤ pos 1
move_on x n c = ground arith

regroup : (x : ℤ) (k n c : ℕ) → x +ℤ pos k +ℤ pos n -ℤ pos c ≡ x +ℤ pos (k + n) -ℤ pos c
regroup x k n c = ground arith

from_march-suc : (y : ℤ) (n : ℕ) → from_march y (n + 1) ≡ from_march y n +ℤ pos 1
unfolding from_march
from_march-suc y n = move_on (days_to_year y) n 719468

from_march-pred :
    (y : ℤ) (n : ℕ)
    → from_march y n ≡ from_march (y -ℤ pos 1) ((if is_leap y then 366 else 365) + n)
unfolding from_march
from_march-pred y n =
    ap (λ x. x +ℤ pos n -ℤ pos 719468) (days_to_year-pred y)
    ∙ regroup (days_to_year (y -ℤ pos 1)) (if is_leap y then 366 else 365) n 719468

days_from_civil-late :
    (y : ℤ) (m d : ℕ)
    → 2 < m
    → 1 ≤ d
    → days_from_civil y m d ≡ from_march y ((153 * (m - 3) + 2) / 5 + d - 1)
unfolding days_from_civil from_march
days_from_civil-late y m d late first =
    let two : leb m 2 ≡ false = ground arith in
    rw (lt→ltb 2 m late, two, sub_zero y, sub_one ((153 * (m - 3) + 2) / 5 + d) (omega arith)) refl

days_from_civil-early :
    (y : ℤ) (m d : ℕ)
    → m ≤ 2
    → 1 ≤ d
    → days_from_civil y m d ≡ from_march (y -ℤ pos 1) ((153 * (m + 9) + 2) / 5 + d - 1)
unfolding days_from_civil from_march
days_from_civil-early y m d early first =
    let two : ltb 2 m ≡ false = ground arith in
    rw (le→leb m 2 early, two, sub_one ((153 * (m + 9) + 2) / 5 + d) (omega arith)) refl

day_step : (y : ℤ) (m d : ℕ) → 1 ≤ d → days_from_civil y m (d + 1) ≡ days_from_civil y m d +ℤ pos 1
day_step y m d h = elim (Bool-cases (ltb 2 m)) [
  | inl late ↦
      days_from_civil-late y m (d + 1) (ltb→lt _ _ late) (omega arith)
      ∙ ap (from_march y) (omega arith)
      ∙ from_march-suc y ((153 * (m - 3) + 2) / 5 + d - 1)
      ∙ ap (λ z. z +ℤ pos 1) (sym (days_from_civil-late y m d (ltb→lt _ _ late) h))
  | inr early ↦
      days_from_civil-early y m (d + 1) (ground arith) (omega arith)
      ∙ ap (from_march (y -ℤ pos 1)) (omega arith)
      ∙ from_march-suc (y -ℤ pos 1) ((153 * (m + 9) + 2) / 5 + d - 1)
      ∙ ap (λ z. z +ℤ pos 1) (sym (days_from_civil-early y m d (ground arith) h))
]

-- The first of March, from the last of February.
february : (y : ℤ) → days_from_civil y 3 1 ≡ days_from_civil y 2 (days_in_month y 2) +ℤ pos 1
february y =
    days_from_civil-late y 3 1 (omega arith) (omega arith)
    ∙ from_march-pred y 0
    ∙ ap (from_march (y -ℤ pos 1)) (ground arith)
    ∙ from_march-suc (y -ℤ pos 1) ((153 * 11 + 2) / 5 + days_in_month y 2 - 1)
    ∙ ap (λ z. z +ℤ pos 1)
        (sym (days_from_civil-early y 2 (days_in_month y 2) (omega arith) (ground arith)))

january : (y : ℤ) → days_from_civil y 2 1 ≡ days_from_civil y 1 31 +ℤ pos 1
january y =
    days_from_civil-early y 2 1 (omega arith) (omega arith)
    ∙ from_march-suc (y -ℤ pos 1) 336
    ∙ ap (λ z. z +ℤ pos 1) (sym (days_from_civil-early y 1 31 (omega arith) (omega arith)))

month_length :
    (y : ℤ) (m : ℕ)
    → 2 < m
    → m < 12
    → (153 * (m + 1 - 3) + 2) / 5 + 1 - 1 ≡ (153 * (m - 3) + 2) / 5 + days_in_month y m - 1 + 1
month_length y m lo hi = ground arith

month_step :
    (y : ℤ) (m : ℕ)
    → 1 ≤ m
    → m < 12
    → days_from_civil y (m + 1) 1 ≡ days_from_civil y m (days_in_month y m) +ℤ pos 1
month_step y m lo hi = elim (Bool-cases (ltb 2 m)) [
  | inl late ↦
      let on : 1 ≤ days_in_month y m = ground arith in
      days_from_civil-late y (m + 1) 1 (ground arith) (omega arith)
      ∙ ap (from_march y) (month_length y m (ltb→lt _ _ late) hi)
      ∙ from_march-suc y ((153 * (m - 3) + 2) / 5 + days_in_month y m - 1)
      ∙ ap (λ z. z +ℤ pos 1)
          (sym (days_from_civil-late y m (days_in_month y m) (ltb→lt _ _ late) on))
  | inr early ↦ elim (Bool-cases (m == 1)) [
    | inl e ↦ rw ((==_iff m 1).0 e) (january y)
    | inr e ↦ let two : m ≡ 2 = ground arith in rw two (february y)
  ]
]

year_step : (y : ℤ) → days_from_civil (y +ℤ pos 1) 1 1 ≡ days_from_civil y 12 31 +ℤ pos 1
year_step y =
    days_from_civil-early (y +ℤ pos 1) 1 1 (omega arith) (omega arith)
    ∙ ap (λ z. from_march z 306) (add_sub y)
    ∙ from_march-suc y 305
    ∙ ap (λ z. z +ℤ pos 1) (sym (days_from_civil-late y 12 31 (omega arith) (omega arith)))

pub record IsDate (t : Civil) : Type 0 where
  pub month_in : (1 ≤ t.month) × (t.month ≤ 12)
  pub day_in : (1 ≤ t.day) × (t.day ≤ days_in_month t.year t.month)

day_number-within :
    (y : ℤ) (m d : ℕ)
    → IsDate (record { year = y; month = m; day = d })
    → day_number (next_day (record { year = y; month = m; day = d }))
      ≡ days_from_civil y m d +ℤ pos 1
day_number-within y m d v = elim (Bool-cases (ltb d (days_in_month y m))) [
  | inl e ↦ rw e (day_step y m d v.day_in.0)
  | inr e ↦
      let last : d ≡ days_in_month y m = ground (arith, v.day_in) in
      elim (Bool-cases (ltb m 12)) [
        | inl f ↦ rw (e, f, last) (month_step y m v.month_in.0 (ltb→lt m 12 f))
        | inr f ↦
            let twelve : m ≡ 12 = ground (arith, v.month_in) in
            let end : d ≡ 31 = last ∙ ap (days_in_month y) twelve in
            rw (e, f, twelve, end) (year_step y)
      ]
]

-- The first of January 1970 has number 0, and each date, before or after it, has one less than the
-- next date of the Gregorian calendar.
pub day_number-next_day :
    (day_number (record { year = pos 1970; month = 1; day = 1 }) ≡ pos 0)
    × ((t : Civil) → IsDate t → day_number (next_day t) ≡ day_number t +ℤ pos 1)
day_number-next_day =
    (unfold days_from_civil in refl, λ t v. day_number-within t.year t.month t.day v)
