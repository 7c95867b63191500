-- ===== src/Dedup/Key/Values.antt =====
-- src/dedup.rs: two values of one type are told apart by their bytes.
use relyt_ingest.Common.{
  ℕ, ◌%◌, ◌^◌, ◌<◌, ◌≡◌, refl, sym, ap, ◌∙◌, [], ◌∷◌, ◌++◌, arith, append_assoc, append_inj, length,
  Bool, All, true, false,
}
use relyt_ingest.Common.Int.{ℤ, pos, negsuc, to_u64, IsI64}
use relyt_ingest.Common.Text.{Bytes}
use relyt_ingest.Errors.{ok, ok_injective}
use relyt_ingest.Arrow.{
  DataType, boolean, int8, int16, int32, int64, float32, float64, utf8, large_utf8, date32, binary,
  large_binary, timestamp_micros, timestamp_millis, decimal128, other_type, ValueOf,
}
use relyt_ingest.Dedup.Key.{
  be_bytes, text_bytes, i64_bytes, prefixed, to_u128, bit, append_value_bytes,
}
use relyt_ingest.Dedup.Key.Encoding.{
  length-be_bytes, be_bytes_injective, IsChar, text_bytes_injective,
}

abbrev pub IsI128 : ℤ → Type 0
IsI128 (pos n) = n < 2 ^ 127
IsI128 (negsuc n) = n < 2 ^ 127

abbrev pub IsShort : Bytes → Type 0
IsShort v = length v < 2 ^ 32

abbrev pub IsText : Bytes → Type 0
IsText v = All IsChar v × IsShort (text_bytes v)

-- A value is one of its type; a length fits the u32 in front of it.
abbrev pub IsValue : (F : Type 0) (t : DataType) → ValueOf F t → Type 0
IsValue F boolean v = Unit
IsValue F int8 v = IsI64 v
IsValue F int16 v = IsI64 v
IsValue F int32 v = IsI64 v
IsValue F int64 v = IsI64 v
IsValue F float32 v = Unit
IsValue F float64 v = Unit
IsValue F utf8 v = IsText v
IsValue F large_utf8 v = IsText v
IsValue F date32 v = IsI64 v
IsValue F binary v = IsShort v
IsValue F large_binary v = IsShort v
IsValue F (timestamp_micros tz) v = IsI64 v
IsValue F (timestamp_millis tz) v = IsI64 v
IsValue F (decimal128 p s) v = IsI128 v
IsValue F (other_type t) v = Unit

to_u64_injective : (a b : ℤ) → IsI64 a → IsI64 b → to_u64 a ≡ to_u64 b → a ≡ b
to_u64_injective (pos a) (pos b) ha hb e = ground (arith, e)
to_u64_injective (pos a) (negsuc b) ha hb e = absurd (omega (arith, ha, hb, e))
to_u64_injective (negsuc a) (pos b) ha hb e = absurd (omega (arith, ha, hb, e))
to_u64_injective (negsuc a) (negsuc b) ha hb e = ap negsuc (omega (arith, ha, hb, e))

to_u128_injective : (a b : ℤ) → IsI128 a → IsI128 b → to_u128 a ≡ to_u128 b → a ≡ b
to_u128_injective (pos a) (pos b) ha hb e = ground (arith, e)
to_u128_injective (pos a) (negsuc b) ha hb e = absurd (omega (arith, ha, hb, e))
to_u128_injective (negsuc a) (pos b) ha hb e = absurd (omega (arith, ha, hb, e))
to_u128_injective (negsuc a) (negsuc b) ha hb e = ap negsuc (omega (arith, ha, hb, e))

to_u64_bound : (a : ℤ) → IsI64 a → to_u64 a < 256 ^ 8
to_u64_bound (pos a) h = omega (arith, h)
to_u64_bound (negsuc a) h = omega (arith, h)

to_u128_bound : (a : ℤ) → IsI128 a → to_u128 a < 256 ^ 16
to_u128_bound (pos a) h = omega (arith, h)
to_u128_bound (negsuc a) h = omega (arith, h)

fixed_injective :
    (w n m : ℕ) (r s : Bytes)
    → n < 256 ^ w
    → m < 256 ^ w
    → be_bytes w n ++ r ≡ be_bytes w m ++ s
    → (n ≡ m) × (r ≡ s)
fixed_injective w n m r s hn hm e =
    let (heads, tails) =
      append_inj (be_bytes w n) (be_bytes w m) r s (length-be_bytes w n ∙ sym (length-be_bytes w m))
        e in
    (be_bytes_injective w n m hn hm heads, tails)

i64_injective :
    (a b : ℤ) (r s : Bytes)
    → IsI64 a
    → IsI64 b
    → i64_bytes a ++ r ≡ i64_bytes b ++ s
    → (a ≡ b) × (r ≡ s)
unfolding i64_bytes
i64_injective a b r s ha hb e =
    let (heads, tails) =
      fixed_injective 8 (to_u64 a) (to_u64 b) r s (to_u64_bound a ha) (to_u64_bound b hb) e in
    (to_u64_injective a b ha hb heads, tails)

i128_injective :
    (a b : ℤ) (r s : Bytes)
    → IsI128 a
    → IsI128 b
    → be_bytes 16 (to_u128 a) ++ r ≡ be_bytes 16 (to_u128 b) ++ s
    → (a ≡ b) × (r ≡ s)
i128_injective a b r s ha hb e =
    let (heads, tails) =
      fixed_injective 16 (to_u128 a) (to_u128 b) r s (to_u128_bound a ha) (to_u128_bound b hb) e in
    (to_u128_injective a b ha hb heads, tails)

prefixed_injective :
    (v w r s : Bytes)
    → IsShort v
    → IsShort w
    → prefixed v ++ r ≡ prefixed w ++ s
    → (v ≡ w) × (r ≡ s)
unfolding prefixed
prefixed_injective v w r s hv hw e =
    let (lengths, rest) =
      fixed_injective 4 (length v % 2 ^ 32) (length w % 2 ^ 32) (v ++ r) (w ++ s) (omega arith)
        (omega arith)
        (sym (append_assoc (be_bytes 4 (length v % 2 ^ 32)) v r)
          ∙ e
          ∙ append_assoc (be_bytes 4 (length w % 2 ^ 32)) w s) in
    append_inj v w r s (omega (arith, lengths, hv, hw)) rest

text_injective :
    (v w r s : Bytes)
    → IsText v
    → IsText w
    → prefixed (text_bytes v) ++ r ≡ prefixed (text_bytes w) ++ s
    → (v ≡ w) × (r ≡ s)
text_injective v w r s hv hw e =
    let (texts, rest) = prefixed_injective (text_bytes v) (text_bytes w) r s hv.1 hw.1 e in
    (text_bytes_injective v w hv.0 hw.0 texts, rest)

through : (x y b c r s : Bytes) → ok x ≡ ok b → ok y ≡ ok c → b ++ r ≡ c ++ s → x ++ r ≡ y ++ s
through x y b c r s hb hc e =
    ap (λ z. z ++ r) (ok_injective hb) ∙ e ∙ ap (λ z. z ++ s) (sym (ok_injective hc))

bit_injective : (v w : Bool) (r s : Bytes) → bit v ∷ r ≡ bit w ∷ s → (v ≡ w) × (r ≡ s)
bit_injective true true r s e = (refl, cc e)
bit_injective true false r s e = ground (arith, e)
bit_injective false true r s e = ground (arith, e)
bit_injective false false r s e = (refl, cc e)

pub value_injective :
    (F : Type 0) (t : DataType) (v w : ValueOf F t) (b c r s : Bytes)
    → IsValue F t v
    → IsValue F t w
    → append_value_bytes F t v ≡ ok b
    → append_value_bytes F t w ≡ ok c
    → b ++ r ≡ c ++ s
    → (v ≡ w) × (r ≡ s)
unfolding append_value_bytes
value_injective F boolean v w b c r s hv hw hb hc e =
    bit_injective v w r s (through (bit v ∷ []) (bit w ∷ []) b c r s hb hc e)
value_injective F int8 v w b c r s hv hw hb hc e =
    i64_injective v w r s hv hw (through (i64_bytes v) (i64_bytes w) b c r s hb hc e)
value_injective F int16 v w b c r s hv hw hb hc e =
    i64_injective v w r s hv hw (through (i64_bytes v) (i64_bytes w) b c r s hb hc e)
value_injective F int32 v w b c r s hv hw hb hc e =
    i64_injective v w r s hv hw (through (i64_bytes v) (i64_bytes w) b c r s hb hc e)
value_injective F int64 v w b c r s hv hw hb hc e =
    i64_injective v w r s hv hw (through (i64_bytes v) (i64_bytes w) b c r s hb hc e)
value_injective F date32 v w b c r s hv hw hb hc e =
    i64_injective v w r s hv hw (through (i64_bytes v) (i64_bytes w) b c r s hb hc e)
value_injective F (timestamp_micros tz) v w b c r s hv hw hb hc e =
    i64_injective v w r s hv hw (through (i64_bytes v) (i64_bytes w) b c r s hb hc e)
value_injective F (timestamp_millis tz) v w b c r s hv hw hb hc e =
    i64_injective v w r s hv hw (through (i64_bytes v) (i64_bytes w) b c r s hb hc e)
value_injective F (decimal128 p q) v w b c r s hv hw hb hc e =
    i128_injective v w r s hv hw
      (through (be_bytes 16 (to_u128 v)) (be_bytes 16 (to_u128 w)) b c r s hb hc e)
value_injective F utf8 v w b c r s hv hw hb hc e =
    text_injective v w r s hv hw
      (through (prefixed (text_bytes v)) (prefixed (text_bytes w)) b c r s hb hc e)
value_injective F large_utf8 v w b c r s hv hw hb hc e =
    text_injective v w r s hv hw
      (through (prefixed (text_bytes v)) (prefixed (text_bytes w)) b c r s hb hc e)
value_injective F binary v w b c r s hv hw hb hc e =
    prefixed_injective v w r s hv hw (through (prefixed v) (prefixed w) b c r s hb hc e)
value_injective F large_binary v w b c r s hv hw hb hc e =
    prefixed_injective v w r s hv hw (through (prefixed v) (prefixed w) b c r s hb hc e)
value_injective F float32 v w b c r s hv hw hb hc e = cc hb
value_injective F float64 v w b c r s hv hw hb hc e = cc hb
value_injective F (other_type t) v w b c r s hv hw hb hc e = cc hb
