-- ===== src/Common/Decimal.antt =====
-- Decimal numbers as Rust prints and parses them: `Display` of u64 and i64, the zero padding of
-- `{:0w}`, and `str::parse`, which takes a leading `+` and refuses what does not fit the type.
pub mod RoundTrip
pub mod Width
pub mod Bounds
use relyt_ingest.Common.Tests.{ltb, leb, ◌==◌, if◌then◌else◌}
use relyt_ingest.Common.Lists.{length, replicate}
use relyt_ingest.Common.Int.{ℤ, pos, negsuc, max_i64}
use relyt_ingest.Common.Text.{Bytes}
use Prim.Native.Nat.{ℕ, zero, suc, ◌+◌, ◌-◌, ◌*◌, ◌/◌, ◌%◌, ◌^◌, ◌≤◌}
use mathlib.Core.Bool.{Bool, ◌&&◌}
use mathlib.Core.List.{[], ◌∷◌, ◌++◌}
use mathlib.Core.Option.{Option, none, some}

abbrev pub max_u64 : ℕ
max_u64 = 2 ^ 64 - 1

abbrev pub max_u32 : ℕ
max_u32 = 2 ^ 32 - 1

-- The digits of `n` in front of `out`; `n` itself is fuel enough.
emit : ℕ → ℕ → Bytes → Bytes
emit zero n out = out
emit (suc fuel) n out =
    let more = emit fuel (n / 10) ((b'0' + n % 10) ∷ out) in if n == 0 then out else more

unfoldable pub display : ℕ → Bytes
unfolding emit
display n = if n == 0 then b'0' ∷ [] else emit n n []

unfoldable pub display_i64 : ℤ → Bytes
unfolding display
display_i64 (pos n) = display n
display_i64 (negsuc n) = b'-' ∷ display (suc n)

-- `{:0w}` of an unsigned number.
unfoldable pub pad : ℕ → Bytes → Bytes
pad w s = replicate (w - length s) b'0' ++ s

abbrev pub is_digit : ℕ → Bool
is_digit c = leb b'0' c && leb c b'9'

abbrev pub IsDigit : ℕ → Type 0
IsDigit c = (b'0' ≤ c) × (c ≤ b'9')

scan : ℕ → Bytes → ℕ → Option ℕ
scan limit [] n = some n
scan limit (c ∷ s) n =
    let m = n * 10 + (c - b'0') in
    let rest = scan limit s m in if is_digit c then if ltb limit m then none else rest else none

digits_of : ℕ → Bytes → Option ℕ
unfolding scan
digits_of limit [] = none
digits_of limit (c ∷ s) = scan limit (c ∷ s) 0

-- `parse` of an unsigned type with greatest value `limit`.
unfoldable pub parse_uint : ℕ → Bytes → Option ℕ
unfolding digits_of
parse_uint limit [] = none
parse_uint limit (c ∷ s) = if c == b'+' then digits_of limit s else digits_of limit (c ∷ s)

negative : Option ℕ → Option ℤ
negative (some (suc n)) = some (negsuc n)
negative (some zero) = some (pos 0)
negative none = none

positive : Option ℕ → Option ℤ
positive (some n) = some (pos n)
positive none = none

-- `parse::<i64>()`
unfoldable pub parse_i64 : Bytes → Option ℤ
unfolding parse_uint positive negative
parse_i64 [] = none
parse_i64 (c ∷ s) =
    if c == b'-'
    then negative (digits_of (max_i64 + 1) s)
    else positive (parse_uint max_i64 (c ∷ s))
