-- ===== src/Csv/Calendar.antt =====
-- src/csv.rs: the text of dates and timestamps.
use relyt_ingest.Common.{
  ℕ, suc, ◌+◌, ◌-◌, ◌*◌, ◌/◌, ◌%◌, ◌^◌, Bool, [], ◌∷◌, ◌++◌, ltb, leb, ◌==◌, if◌then◌else◌, zero,
}
use relyt_ingest.Common.Int.{ℤ, pos, negsuc, to_i64}
use relyt_ingest.Common.Text.{Bytes, codes}
use relyt_ingest.Common.Decimal.{display, pad}

-- `{:0w}` of a signed number: the sign counts.
abbrev pub pad_signed : ℕ → ℤ → Bytes
pad_signed w (pos n) = pad w (display n)
pad_signed w (negsuc n) = b'-' ∷ pad (w - 1) (display (suc n))

-- `days + 719468`; the division of a negative number rounds towards zero, so that of the code rounds
-- down, and the remainder is that of a division that does.
abbrev pub shift_days : ℤ → ℤ
shift_days (pos n) = pos (n + 719_468)
shift_days (negsuc n) = if ltb n 719_468 then pos (719_467 - n) else negsuc (n - 719_468)

abbrev pub era_of : ℤ → ℤ
era_of (pos z) = pos (z / 146_097)
era_of (negsuc z) = negsuc ((z + 146_097) / 146_097 - 1)

-- `z - era * 146097`
abbrev pub day_of_era : ℤ → ℕ
day_of_era (pos z) = z - z / 146_097 * 146_097
day_of_era (negsuc z) = (z + 146_097) / 146_097 * 146_097 - (z + 1)

abbrev pub year_of_era : ℕ → ℕ
year_of_era doe = (doe - doe / 1460 + doe / 36_524 - doe / 146_096) / 365

abbrev pub day_of_year : ℕ → ℕ → ℕ
day_of_year doe yoe = doe - (365 * yoe + yoe / 4 - yoe / 100)

-- `yoe + era * 400`, plus one in January and February.
abbrev pub full_year : ℤ → ℕ → ℤ
full_year (pos era) yoe = pos (yoe + era * 400)
full_year (negsuc era) yoe =
    if ltb yoe ((era + 1) * 400)
    then negsuc ((era + 1) * 400 - yoe - 1)
    else pos (yoe - (era + 1) * 400)

abbrev pub next_year : ℤ → ℤ
next_year (pos y) = pos (y + 1)
next_year (negsuc zero) = pos 0
next_year (negsuc (suc y)) = negsuc y

-- Year, month and day.
unfoldable pub civil_from_days : ℤ → ℤ × ℕ × ℕ
civil_from_days days =
    let z = shift_days days in
    let doe = day_of_era z in
    let yoe = year_of_era doe in
    let doy = day_of_year doe yoe in
    let mp = (5 * doy + 2) / 153 in
    let d = doy - (153 * mp + 2) / 5 + 1 in
    let m = if ltb mp 10 then mp + 3 else mp - 9 in
    let y = full_year (era_of z) yoe in (if leb m 2 then next_year y else y, m, d)

abbrev pub date_text : ℤ × ℕ × ℕ → Bytes
date_text (y, m, d) = pad_signed 4 y ++ b'-' ∷ (pad 2 (display m) ++ b'-' ∷ pad 2 (display d))

unfoldable pub write_date32 : ℤ → Bytes
unfolding civil_from_days
write_date32 days = date_text (civil_from_days days)

-- `div_euclid` and `rem_euclid` of a day's microseconds; the days are cast to i32, which they fit.
abbrev pub day_micros : ℕ
day_micros = 86_400_000_000

abbrev pub days_of : ℤ → ℤ
days_of (pos n) = pos (n / day_micros)
days_of (negsuc n) = negsuc (n / day_micros)

abbrev pub micros_in_day : ℤ → ℕ
micros_in_day (pos n) = n % day_micros
micros_in_day (negsuc n) = day_micros - 1 - n % day_micros

-- The loop that drops trailing zeros; its counter is the width.
unfoldable pub trim_fraction : ℕ → ℕ → Bytes
trim_fraction zero frac = display frac
trim_fraction (suc width) frac =
    let rest = trim_fraction width (frac / 10) in
    if frac % 10 == 0 then rest else pad (suc width) (display frac)

abbrev pub fraction_text : ℕ → Bytes
fraction_text frac = if frac == 0 then [] else b'.' ∷ trim_fraction 6 frac

abbrev pub clock_text : ℕ → Bytes
clock_text secs =
    b' '
    ∷ (pad 2 (display (secs / 3600))
        ++ b':' ∷ (pad 2 (display (secs % 3600 / 60)) ++ b':' ∷ pad 2 (display (secs % 60))))

unfoldable pub write_timestamp_micros : ℤ → Bool → Bytes
unfolding write_date32 trim_fraction
write_timestamp_micros micros with_offset =
    let in_day = micros_in_day micros in
    write_date32 (days_of micros)
    ++ (clock_text (in_day / 1_000_000)
        ++ (fraction_text (in_day % 1_000_000) ++ (if with_offset then codes "+00" else [])))

-- `a * 1000`, which wraps in an i64.
abbrev pub thousandfold : ℤ → ℤ
thousandfold (pos n) = to_i64 (n * 1000 % 2 ^ 64)
thousandfold (negsuc n) = to_i64 ((2 ^ 64 - (n + 1) * 1000 % 2 ^ 64) % 2 ^ 64)
