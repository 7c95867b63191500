-- ===== src/Csv/Plain.antt =====
-- Texts that are written between two quotes as they are: they hold neither a quote nor a NUL.
use relyt_ingest.Common.{
  ℕ, suc, zero, ◌+◌, ◌-◌, ◌/◌, ◌%◌, ◌≤◌, ◌≡◌, ◌≢◌, refl, Bool, true, false, [], ◌∷◌, ◌++◌, arith,
  inl, inr, ltb, length, take, replicate, All, All-append, All-take, All-drop, All-replicate,
  All-imply, Bool-cases, ◌==◌, if◌then◌else◌,
}
use relyt_ingest.Common.Int.{ℤ, pos, negsuc}
use relyt_ingest.Common.Text.{Bytes, codes}
use relyt_ingest.Common.Decimal.{display, display_i64, pad, IsDigit}
use relyt_ingest.Common.Decimal.RoundTrip.{display-IsDigit, pad-IsDigit}
use relyt_ingest.Arrow.{
  DataType, boolean, int8, int16, int32, int64, float32, float64, utf8, large_utf8, date32, binary,
  large_binary, timestamp_micros, timestamp_millis, decimal128, other_type, ValueOf,
}
use relyt_ingest.Csv.Text.{
  escape, hex_digit, hex_digits, write_hex_bytea, with_point, write_decimal128,
}
use relyt_ingest.Csv.Calendar.{
  date_text, pad_signed, write_date32, civil_from_days, trim_fraction, fraction_text, clock_text,
  write_timestamp_micros, days_of, micros_in_day, thousandfold,
}
use relyt_ingest.Csv.{plain_text}

abbrev pub IsPlain : ℕ → Type 0
IsPlain c = (c ≢ 0) × (c ≢ b'"')

abbrev pub ArePlain : Bytes → Type 0
ArePlain = All IsPlain

plain : (c : ℕ) → 35 ≤ c → IsPlain c
plain c h = (λ e. omega arith, λ e. omega arith)

digits : (s : Bytes) → All IsDigit s → ArePlain s
digits s h = All-imply IsDigit IsPlain s (λ c d. plain c (omega arith)) h

join : (s t : Bytes) → ArePlain s → ArePlain t → ArePlain (s ++ t)
join s t = All-append IsPlain s t

pub escape-ArePlain : (s : Bytes) → ArePlain s → escape s ≡ s
unfolding escape
escape-ArePlain [] h = refl
escape-ArePlain (c ∷ s) h = ground (arith, h.0.0, h.0.1, escape-ArePlain s h.1)

number : (n : ℕ) → ArePlain (display n)
number n = digits (display n) (display-IsDigit n)

padded : (w n : ℕ) → ArePlain (pad w (display n))
padded w n = digits (pad w (display n)) (pad-IsDigit w n)

dash : IsPlain b'-'
dash = plain b'-' (omega arith)

signed : (z : ℤ) → ArePlain (display_i64 z)
unfolding display_i64
signed (pos n) = number n
signed (negsuc n) = (dash, number (suc n))

hex-ArePlain : (bs : Bytes) → ArePlain (hex_digits bs)
unfolding hex_digits
hex-ArePlain [] = tt
hex-ArePlain (b ∷ bs) = (nibble (b / 16), (nibble (b % 16), hex-ArePlain bs))
  where
    nibble : (n : ℕ) → IsPlain (hex_digit n)
    nibble n = elim (Bool-cases (ltb n 10)) [
      | inl e ↦ rw e (plain (b'0' + n) (omega arith))
      | inr e ↦ rw e (plain (b'a' + (n - 10)) (omega arith))
    ]

point-ArePlain : (scale : ℕ) (s : Bytes) → ArePlain s → ArePlain (with_point scale s)
unfolding with_point
point-ArePlain scale s h = elim (Bool-cases (ltb scale (length s))) [
  | inl e ↦ rw e (
      join (take (length s - scale) s) _ (All-take IsPlain (length s - scale) s h)
        (plain b'.' (omega arith), All-drop IsPlain (length s - scale) s h))
  | inr e ↦ rw e (
    plain b'0' (omega arith),
    (
      plain b'.' (omega arith),
      join (replicate (scale - length s) b'0') s
          (All-replicate IsPlain (scale - length s) b'0' (plain b'0' (omega arith))) h,
    ),
  )
]

decimal-ArePlain : (raw scale : ℤ) → ArePlain (write_decimal128 raw scale)
unfolding write_decimal128
decimal-ArePlain raw (pos zero) = signed raw
decimal-ArePlain raw (negsuc n) =
    join (display_i64 raw) _ (signed raw) (elim (Bool-cases (n == 127)) [
      | inl e ↦ rw e tt
      | inr e ↦ rw e (All-replicate IsPlain (suc n) b'0' (plain b'0' (omega arith)))
    ])
decimal-ArePlain (pos n) (pos (suc s)) = point-ArePlain (suc s) (display n) (number n)
decimal-ArePlain (negsuc n) (pos (suc s)) =
    (dash, point-ArePlain (suc s) (display (suc n)) (number (suc n)))

date-ArePlain : (d : ℤ × ℕ × ℕ) → ArePlain (date_text d)
date-ArePlain (y, m, d) =
    join (pad_signed 4 y) _ (year y)
      (dash, join (pad 2 (display m)) _ (padded 2 m) (dash, padded 2 d))
  where
    year : (y : ℤ) → ArePlain (pad_signed 4 y)
    year (pos n) = padded 4 n
    year (negsuc n) = (dash, padded 3 (suc n))

fraction-ArePlain : (width frac : ℕ) → ArePlain (trim_fraction width frac)
unfolding trim_fraction
fraction-ArePlain zero frac = number frac
fraction-ArePlain (suc width) frac = elim (Bool-cases (frac % 10 == 0)) [
  | inl e ↦ rw e (fraction-ArePlain width (frac / 10))
  | inr e ↦ rw e (padded (suc width) frac)
]

bytea : (bs : Bytes) → ArePlain (write_hex_bytea bs)
unfolding write_hex_bytea
bytea bs = (plain b'\\' (omega arith), (plain b'x' (omega arith), hex-ArePlain bs))

day-ArePlain : (days : ℤ) → ArePlain (write_date32 days)
unfolding write_date32
day-ArePlain days = date-ArePlain (civil_from_days days)

clock-ArePlain : (secs : ℕ) → ArePlain (clock_text secs)
clock-ArePlain secs = (
  (λ e. omega arith, λ e. omega arith),
  join (pad 2 (display (secs / 3600))) _ (padded 2 (secs / 3600)) (
    plain b':' (omega arith),
    join (pad 2 (display (secs % 3600 / 60))) _ (padded 2 (secs % 3600 / 60))
        (plain b':' (omega arith), padded 2 (secs % 60)),
  ),
)

decimals-ArePlain : (frac : ℕ) → ArePlain (fraction_text frac)
decimals-ArePlain frac = elim (Bool-cases (frac == 0)) [
  | inl e ↦ rw e tt
  | inr e ↦ rw e (plain b'.' (omega arith), fraction-ArePlain 6 frac)
]

offset-ArePlain : (tz : Bool) → ArePlain (if tz then codes "+00" else [])
offset-ArePlain true =
    (plain b'+' (omega arith), (plain b'0' (omega arith), (plain b'0' (omega arith), tt)))
offset-ArePlain false = tt

timestamp-ArePlain : (micros : ℤ) (tz : Bool) → ArePlain (write_timestamp_micros micros tz)
unfolding write_timestamp_micros
timestamp-ArePlain micros tz =
    let in_day = micros_in_day micros in
    join (write_date32 (days_of micros)) _ (day-ArePlain (days_of micros)) (
      join (clock_text (in_day / 1_000_000)) _ (clock-ArePlain (in_day / 1_000_000)) (
        join (fraction_text (in_day % 1_000_000)) _ (decimals-ArePlain (in_day % 1_000_000))
          (offset-ArePlain tz)))

-- Text is escaped; a value of any other supported type is not, and holds nothing to escape.
abbrev pub is_text : DataType → Bool
is_text utf8 = true
is_text large_utf8 = true
is_text t = false

pub plain-ArePlain :
    {F : Type 0} (display_float : F → Bytes)
    → ((v : F) → ArePlain (display_float v))
    → (t : DataType) (v : ValueOf F t) → is_text t ≡ false
    → ArePlain (plain_text display_float t v)
unfolding plain_text
plain-ArePlain df float boolean true h = (plain b't' (omega arith), tt)
plain-ArePlain df float boolean false h = (plain b'f' (omega arith), tt)
plain-ArePlain df float int8 v h = signed v
plain-ArePlain df float int16 v h = signed v
plain-ArePlain df float int32 v h = signed v
plain-ArePlain df float int64 v h = signed v
plain-ArePlain df float float32 v h = float v
plain-ArePlain df float float64 v h = float v
plain-ArePlain df float utf8 v h = cc
plain-ArePlain df float large_utf8 v h = cc
plain-ArePlain df float date32 v h = day-ArePlain v
plain-ArePlain df float (timestamp_micros tz) v h = timestamp-ArePlain v tz
plain-ArePlain df float (timestamp_millis tz) v h = timestamp-ArePlain (thousandfold v) tz
plain-ArePlain df float (decimal128 p s) v h = decimal-ArePlain v s
plain-ArePlain df float binary v h = bytea v
plain-ArePlain df float large_binary v h = bytea v
plain-ArePlain df float (other_type t) v h = tt
