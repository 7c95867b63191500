-- ===== src/Dedup/Key.antt =====
-- src/dedup.rs: the bytes of a row's key. An i64 is its two's complement in eight bytes, an i128 in
-- sixteen, the highest byte first.
pub mod Encoding
pub mod Values
pub mod Injective
use relyt_ingest.Common.{
  ℕ, suc, zero, ◌+◌, ◌-◌, ◌*◌, ◌/◌, ◌%◌, ◌^◌, Bool, true, false, Option, none, some, List, [], ◌∷◌,
  ◌++◌, length, ltb, if◌then◌else◌, not, ◌&&◌,
}
use relyt_ingest.Common.Int.{ℤ, pos, negsuc, to_u64}
use relyt_ingest.Common.Text.{Bytes}
use relyt_ingest.Errors.{Result, ok, err, ◌>>=◌, schema, config}
use relyt_ingest.Arrow.{
  DataType, boolean, int8, int16, int32, int64, float32, float64, utf8, large_utf8, date32, binary,
  large_binary, timestamp_micros, timestamp_millis, decimal128, other_type, ValueOf, Column, Batch,
  cell_at,
}
use relyt_ingest.Csv.{is_supported_type}

unfoldable pub is_supported_pk_type : DataType → Bool
unfolding is_supported_type
is_supported_pk_type float32 = false
is_supported_pk_type float64 = false
is_supported_pk_type boolean = is_supported_type boolean
is_supported_pk_type int8 = is_supported_type int8
is_supported_pk_type int16 = is_supported_type int16
is_supported_pk_type int32 = is_supported_type int32
is_supported_pk_type int64 = is_supported_type int64
is_supported_pk_type utf8 = is_supported_type utf8
is_supported_pk_type large_utf8 = is_supported_type large_utf8
is_supported_pk_type date32 = is_supported_type date32
is_supported_pk_type binary = is_supported_type binary
is_supported_pk_type large_binary = is_supported_type large_binary
is_supported_pk_type (timestamp_micros tz) = is_supported_type (timestamp_micros tz)
is_supported_pk_type (timestamp_millis tz) = is_supported_type (timestamp_millis tz)
is_supported_pk_type (decimal128 p s) = is_supported_type (decimal128 p s)
is_supported_pk_type (other_type t) = is_supported_type (other_type t)

-- `to_be_bytes` of an unsigned number of `width` bytes.
unfoldable pub be_bytes : ℕ → ℕ → Bytes
be_bytes zero n = []
be_bytes (suc width) n = be_bytes width (n / 256) ++ n % 256 ∷ []

-- `as_bytes` of a text: its UTF-8 form.
unfoldable pub char_bytes : ℕ → Bytes
char_bytes c =
    if ltb c 128
    then c ∷ []
    else if ltb c 2048
    then (192 + c / 64) ∷ (128 + c % 64) ∷ []
    else if ltb c 65_536
    then (224 + c / 4096) ∷ (128 + c / 64 % 64) ∷ (128 + c % 64) ∷ []
    else (240 + c / 262_144) ∷ (128 + c / 4096 % 64) ∷ (128 + c / 64 % 64) ∷ (128 + c % 64) ∷ []

unfoldable pub text_bytes : Bytes → Bytes
unfolding char_bytes
text_bytes [] = []
text_bytes (c ∷ s) = char_bytes c ++ text_bytes s

-- The bits of an i128.
abbrev pub to_u128 : ℤ → ℕ
to_u128 (pos n) = n
to_u128 (negsuc n) = 2 ^ 128 - 1 - n

unfoldable pub i64_bytes : ℤ → Bytes
unfolding be_bytes
i64_bytes v = be_bytes 8 (to_u64 v)

-- The length is cast to u32.
unfoldable pub prefixed : Bytes → Bytes
unfolding be_bytes
prefixed v = be_bytes 4 (length v % 2 ^ 32) ++ v

abbrev pub bit : Bool → ℕ
bit true = 1
bit false = 0

abbrev pub unsupported_pk : {T : Type 0} → Result T → Result T
unsupported_pk (err e) = err (schema "unsupported PK column type")
unsupported_pk (ok v) = ok v

module _ (F : Type 0) where
  -- What is pushed on the key.
  unfoldable pub append_value_bytes : (t : DataType) → ValueOf F t → Result Bytes
  unfolding i64_bytes prefixed be_bytes text_bytes
  append_value_bytes boolean v = ok (bit v ∷ [])
  append_value_bytes int8 v = ok (i64_bytes v)
  append_value_bytes int16 v = ok (i64_bytes v)
  append_value_bytes int32 v = ok (i64_bytes v)
  append_value_bytes int64 v = ok (i64_bytes v)
  append_value_bytes date32 v = ok (i64_bytes v)
  append_value_bytes (timestamp_micros tz) v = ok (i64_bytes v)
  append_value_bytes (timestamp_millis tz) v = ok (i64_bytes v)
  append_value_bytes (decimal128 p s) v = ok (be_bytes 16 (to_u128 v))
  append_value_bytes utf8 v = ok (prefixed (text_bytes v))
  append_value_bytes large_utf8 v = ok (prefixed (text_bytes v))
  append_value_bytes binary v = ok (prefixed v)
  append_value_bytes large_binary v = ok (prefixed v)
  append_value_bytes float32 v = err (schema "column type cannot be part of a primary key")
  append_value_bytes float64 v = err (schema "column type cannot be part of a primary key")
  append_value_bytes (other_type t) v = err (schema "column type cannot be part of a primary key")

  -- The bytes of one column: a tag, the value, and a separator after it.
  unfoldable pub cell_key : (t : DataType) → Option (ValueOf F t) → Result Bytes
  unfolding append_value_bytes
  cell_key t none = ok (0 ∷ [])
  cell_key t (some v) =
      unsupported_pk (append_value_bytes t v) >>= λ bytes. ok (1 ∷ (bytes ++ 255 ∷ []))

module _ {F : Type 0} where
  -- `batch.column(col)`
  abbrev pub column_at : ℕ → List (Column F) → Result (Column F)
  column_at col [] = err (config "render task failed")
  column_at zero (c ∷ cs) = ok c
  column_at (suc col) (c ∷ cs) = column_at col cs

  unfoldable pub pk_key : Batch F → List ℕ → ℕ → Result Bytes
  unfolding cell_key
  pk_key batch [] row = ok []
  pk_key batch (col ∷ cols) row = column_at col batch.columns >>= λ column.
      cell_key F column.data_type (cell_at row column.cells) >>= λ head.
      pk_key batch cols row >>= λ rest. ok (head ++ rest)
