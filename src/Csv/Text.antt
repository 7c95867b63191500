-- ===== src/Csv/Text.antt =====
-- src/csv.rs: quoting, hexadecimal and decimal text.
use relyt_ingest.Common.{
  ℕ, suc, ◌+◌, ◌-◌, ◌/◌, ◌%◌, [], ◌∷◌, ◌++◌, ltb, ◌==◌, if◌then◌else◌, length, take, drop,
  replicate, zero,
}
use relyt_ingest.Common.Int.{ℤ, pos, negsuc}
use relyt_ingest.Common.Text.{Bytes}
use relyt_ingest.Common.Decimal.{display, display_i64}

abbrev pub quoted : Bytes → Bytes
quoted s = b'"' ∷ (s ++ b'"' ∷ [])

-- Quotes are doubled and NULs dropped.
unfoldable pub escape : Bytes → Bytes
escape [] = []
escape (c ∷ s) =
    let rest = escape s in
    if c == 0 then rest else if c == b'"' then b'"' ∷ b'"' ∷ rest else c ∷ rest

unfoldable pub quote_into : Bytes → Bytes
unfolding escape
quote_into value = quoted (escape value)

-- The table of the sixteen hexadecimal digits.
abbrev pub hex_digit : ℕ → ℕ
hex_digit n = if ltb n 10 then b'0' + n else b'a' + (n - 10)

unfoldable pub hex_digits : Bytes → Bytes
hex_digits [] = []
hex_digits (b ∷ bs) = hex_digit (b / 16) ∷ hex_digit (b % 16) ∷ hex_digits bs

unfoldable pub write_hex_bytea : Bytes → Bytes
unfolding hex_digits
write_hex_bytea bytes = b'\\' ∷ b'x' ∷ hex_digits bytes

-- The digits of the absolute value, with the point before the last `scale` of them.
unfoldable pub with_point : ℕ → Bytes → Bytes
with_point scale digits =
    if ltb scale (length digits)
    then take (length digits - scale) digits ++ b'.' ∷ drop (length digits - scale) digits
    else b'0' ∷ b'.' ∷ (replicate (scale - length digits) b'0' ++ digits)

-- `-scale` is one of i8, which -128 wraps to itself: no zero is written then.
unfoldable pub write_decimal128 : ℤ → ℤ → Bytes
unfolding with_point
write_decimal128 raw (pos zero) = display_i64 raw
write_decimal128 raw (negsuc n) =
    display_i64 raw ++ (if n == 127 then [] else replicate (suc n) b'0')
write_decimal128 (pos n) (pos (suc s)) = with_point (suc s) (display n)
write_decimal128 (negsuc n) (pos (suc s)) = b'-' ∷ with_point (suc s) (display (suc n))
