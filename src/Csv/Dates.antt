-- ===== src/Csv/Dates.antt =====
-- src/csv.rs: the date of a day, against the rules of the calendar: the lengths of the months, and a leap
-- year every four years but not every hundred unless every four hundred.
use mathlib.Core.Path.{subst}
use relyt_ingest.Common.{
  ℕ, ◌+◌, ◌-◌, ◌*◌, ◌/◌, ◌≤◌, ◌<◌, ◌≡◌, inl, inr, refl, arith, true, false, ◌==◌, ltb, leb,
  if◌then◌else◌, Bool-cases,
}
use relyt_ingest.Common.Int.{ℤ, pos}
use relyt_ingest.Csv.Calendar.{
  shift_days, day_of_era, year_of_era, day_of_year, next_year, civil_from_days,
}
use relyt_ingest.Csv.Rules.{
  leap_day, year_start, days_before, year_bounds, late_month, early_month, leap_lem, next_year_lem,
  era_lem, month_length, IsDateOf, day_upper, le_or_lt,
}

-- The date of the day `doy` of the year from March on.
abbrev date_from : ℕ → ℕ → ℤ × ℕ × ℕ
date_from y doy =
    let mp = (5 * doy + 2) / 153 in
    let d = doy - (153 * mp + 2) / 5 + 1 in
    let m = if ltb mp 10 then mp + 3 else mp - 9 in
    (if leb m 2 then next_year (pos y) else pos y, m, d)

sum_lem :
    (start leap m shift doy : ℕ)
    → m ≡ shift + 59
    → shift ≤ doy
    → start + m + leap + (doy - shift + 1) - 1 ≡ start + leap + 59 + doy
sum_lem start leap m shift doy e h = omega (arith, e, h)

early_sum :
    (start m shift doy : ℕ)
    → m + 306 ≡ shift
    → shift ≤ doy
    → 306 ≤ doy
    → start + m + 0 + (doy - shift + 1) - 1 ≡ start + doy - 306
early_sum start m shift doy e h k = omega (arith, e, h, k)

-- A day of a month from March on is one of it where the next month has not begun.
late_length :
    (y mp d : ℕ)
    → mp < 10
    → d ≤ (153 * (mp + 1) + 2) / 5 - (153 * mp + 2) / 5
    → d ≤ month_length y (mp + 3)
late_length y mp d h fits = ground (arith, fits)

early_length :
    (y mp doy d : ℕ)
    → 10 ≤ mp
    → leap_day (y + 1) ≤ 1
    → doy < 365 + leap_day (y + 1)
    → mp ≡ (5 * doy + 2) / 153
    → d ≡ doy - (153 * mp + 2) / 5 + 1
    → d ≤ month_length (y + 1) (mp - 9)
early_length y mp doy d h one fits e same = elim (Bool-cases (mp - 9 == 2)) [
  | inl february ↦
      let eleven : mp ≡ 11 = ground (arith, february) in
      rw february (omega (arith, eleven, one, fits, e, same))
  | inr january ↦
      let ten : mp ≡ 10 = ground (arith, january, h, one, fits, e) in
      let days : d ≤ 31 = omega (arith, ten, e, same) in rw january (ground (arith, ten, days))
]

late_date :
    (y doy : ℕ)
    → (5 * doy + 2) / 153 < 10
    → IsDateOf (year_start y + leap_day y + 59 + doy) (date_from y doy)
late_date y doy h =
    let mp = (5 * doy + 2) / 153 in
    let test : ltb mp 10 ≡ true = ground (arith, h) in
    let month : leb (mp + 3) 2 ≡ false = ground arith in
    let after : ltb 2 (mp + 3) ≡ true = ground arith in
    rw test (
      rw month (
        rw after (sum_lem (year_start y) (leap_day y) _ _ _ (late_month mp h) (omega arith)),
        omega arith,
        omega (arith, h),
        omega arith,
        late_length y mp (doy - (153 * mp + 2) / 5 + 1) h (omega arith),
      ))

early_date :
    (y doy : ℕ)
    → 10 ≤ (5 * doy + 2) / 153
    → doy < 365 + leap_day (y + 1)
    → IsDateOf (year_start (y + 1) + doy - 306) (date_from y doy)
early_date y doy h fits =
    let mp = (5 * doy + 2) / 153 in
    let one : leap_day (y + 1) ≤ 1 = ground arith in
    let test : ltb mp 10 ≡ false = ground (arith, h) in
    let month : leb (mp - 9) 2 ≡ true = ground (arith, one, fits) in
    let before : ltb 2 (mp - 9) ≡ false = ground (arith, one, fits) in
    rw test (
      rw month (
        rw before (
            early_sum (year_start (y + 1)) _ _ _ (early_month mp h (omega (arith, one, fits)))
              (omega arith) (omega (arith, h))),
        omega (arith, h),
        omega (arith, one, fits),
        omega arith,
        early_length y mp doy (doy - (153 * mp + 2) / 5 + 1) h one fits refl refl,
      ))

early_total :
    (z era doe before counted start doy : ℕ)
    → z ≡ doe + era * 146_097
    → before ≤ doe
    → doy ≡ doe - before
    → counted ≡ era * 146_097 + before
    → start ≡ counted + 366
    → start + doy - 306 ≡ z + 60
early_total z era doe before counted start doy whole h e c s = omega (arith, whole, h, e, c, s)

late_total :
    (z era doe before counted start leap doy : ℕ)
    → z ≡ doe + era * 146_097
    → before ≤ doe
    → doy ≡ doe - before
    → counted ≡ era * 146_097 + before
    → start + leap ≡ counted + 1
    → start + leap + 59 + doy ≡ z + 60
late_total z era doe before counted start leap doy whole h e c s = omega (arith, whole, h, e, c, s)

fits_lem :
    (doe before leap : ℕ) → doe < before + 365 + leap → before ≤ doe → doe - before < 365 + leap
fits_lem doe before leap h k = omega (arith, h, k)

from_march :
    (z : ℕ)
    → let yoe = year_of_era (day_of_era (pos z)) in
      IsDateOf (z + 60) (date_from (yoe + z / 146_097 * 400) (day_of_year (day_of_era (pos z)) yoe))
from_march z =
    let era = z / 146_097 in
    let doe = z - era * 146_097 in
    let yoe = year_of_era doe in
    let y = yoe + era * 400 in
    let doy = day_of_year doe yoe in
    let small : doe < 146_097 = omega arith in
    let bounds = year_bounds doe small in
    let upper = day_upper doe era small in
    let counted = era_lem era yoe bounds.1 in
    let whole : z ≡ doe + era * 146_097 = omega arith in
    elim (le_or_lt 10 ((5 * doy + 2) / 153)) [
      | inl early ↦
          subst (λ n. IsDateOf n (date_from y doy))
            (early_total z era doe (days_before yoe) _ _ doy whole bounds.0 refl counted
              (next_year_lem y))
            (early_date y doy early
              (fits_lem doe (days_before yoe) (leap_day (y + 1)) upper bounds.0))
      | inr late ↦
          subst (λ n. IsDateOf n (date_from y doy))
            (late_total z era doe (days_before yoe) _ _ _ doy whole bounds.0 refl counted
              (leap_lem y))
            (late_date y doy late)
    ]

-- From the first of March of the year 0 on, which is 719468 days before the epoch, the date that is
-- written for a day exists in the calendar, and it is that of the day: the years and months before it have
-- just as many days.
pub civil_from_days-IsDateOf :
    (days : ℤ) (z : ℕ) → shift_days days ≡ pos z → IsDateOf (z + 60) (civil_from_days days)
unfolding civil_from_days
civil_from_days-IsDateOf days z e = rw e (from_march z)
