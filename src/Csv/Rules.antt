-- ===== src/Csv/Rules.antt =====
-- The rules of the calendar, as the days before a date, and the eras of src/csv.rs against them.
use relyt_ingest.Common.{
  ℕ, ◌+◌, ◌-◌, ◌*◌, ◌/◌, ◌%◌, ◌≤◌, ◌<◌, ◌≡◌, ◌⊎◌, arith, ◌==◌, ◌&&◌, ◌||◌, not, ltb, if◌then◌else◌,
}
use relyt_ingest.Common.Int.{ℤ, pos, negsuc}
use relyt_ingest.Csv.Calendar.{year_of_era}

abbrev pub leap_day : ℕ → ℕ
leap_day y = if (y % 4 == 0) && (not (y % 100 == 0) || (y % 400 == 0)) then 1 else 0

-- The days before a month of a year without a leap day.
abbrev pub month_start : ℕ → ℕ
month_start m =
    if m == 1
    then 0
    else if m == 2
    then 31
    else if m == 3
    then 59
    else if m == 4
    then 90
    else if m == 5
    then 120
    else if m == 6
    then 151
    else if m == 7
    then 181
    else if m == 8
    then 212
    else if m == 9
    then 243
    else if m == 10
    then 273
    else if m == 11
    then 304
    else 334

-- The days from the first of January of the year 0 to that of a year.
abbrev pub year_start : ℕ → ℕ
year_start y = 365 * y + (y + 3) / 4 - (y + 99) / 100 + (y + 399) / 400

abbrev pub day_number : ℕ → ℕ → ℕ → ℕ
day_number y m d = year_start y + month_start m + (if ltb 2 m then leap_day y else 0) + d - 1

abbrev pub days_before : ℕ → ℕ
days_before yoe = 365 * yoe + yoe / 4 - yoe / 100

pub year_bounds :
    (doe : ℕ) → doe < 146_097 → (days_before (year_of_era doe) ≤ doe) × (year_of_era doe < 400)
year_bounds doe h = (omega arith, omega arith)

year_upper : (doe : ℕ) → doe < 146_097 → doe < days_before (year_of_era doe) + 366
year_upper doe h = omega arith

-- March to December, and January and February of the next year.
pub late_month : (mp : ℕ) → mp < 10 → month_start (mp + 3) ≡ (153 * mp + 2) / 5 + 59
late_month mp h = ground arith

pub early_month : (mp : ℕ) → 10 ≤ mp → mp ≤ 11 → month_start (mp - 9) + 306 ≡ (153 * mp + 2) / 5
early_month mp h k = ground arith

pub leap_lem : (y : ℕ) → year_start y + leap_day y ≡ 365 * y + y / 4 - y / 100 + y / 400 + 1
leap_lem y = ground arith

pub next_year_lem : (y : ℕ) → year_start (y + 1) ≡ 365 * y + y / 4 - y / 100 + y / 400 + 366
next_year_lem y = omega arith

pub era_lem :
    (era yoe : ℕ)
    → yoe < 400
    → let y = yoe + era * 400 in
      365 * y + y / 4 - y / 100 + y / 400 ≡ era * 146_097 + days_before yoe
era_lem era yoe h = omega arith

abbrev pub month_length : ℕ → ℕ → ℕ
month_length y m =
    if m == 2
    then 28 + leap_day y
    else if (m == 4) || (m == 6) || (m == 9) || (m == 11)
    then 30
    else 31

-- The day of a date in its calendar, and that there is such a date.
abbrev pub IsDateOf : ℕ → ℤ × ℕ × ℕ → Type 0
IsDateOf n (pos y, m, d) =
    (day_number y m d ≡ n) × (1 ≤ m) × (m ≤ 12) × (1 ≤ d) × (d ≤ month_length y m)
IsDateOf n (negsuc y, m, d) = ⊥

pub day_upper :
    (doe era : ℕ)
    → doe < 146_097
    → doe < days_before (year_of_era doe) + 365 + leap_day (year_of_era doe + era * 400 + 1)
day_upper doe era h = ground (arith, year_bounds doe h)

pub le_or_lt : (a b : ℕ) → (a ≤ b) ⊎ (b < a)
le_or_lt a b = ground arith
