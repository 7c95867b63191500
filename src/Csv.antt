-- ===== src/Csv.antt =====
-- src/csv.rs: the text of a staged file. Text is a list of code points, binary values are bytes, and the
-- text of a float, which the standard library prints, is a parameter.
pub mod Text
pub mod Calendar
pub mod Plain
pub mod Rules
pub mod Dates
pub mod Reader
pub mod Fields
pub mod RoundTrip
pub mod Tests
use relyt_ingest.Common.{
  ℕ, suc, ◌+◌, ◌-◌, ◌*◌, ◌/◌, ◌%◌, ◌^◌, String, Bool, true, false, Option, none, some, List, [],
  ◌∷◌, ◌++◌, map, ltb, leb, ◌==◌, if◌then◌else◌, length, take, drop, replicate, zero,
}
use relyt_ingest.Common.Int.{ℤ, pos, negsuc, to_i64}
use relyt_ingest.Common.Text.{Bytes, codes}
use relyt_ingest.Common.Decimal.{display, display_i64, pad}
use relyt_ingest.Errors.{Result, ok, err, ◌>>=◌, ◌>>◌, unsupported_type}
use relyt_ingest.Arrow.{
  DataType, boolean, int8, int16, int32, int64, float32, float64, utf8, large_utf8, date32, binary,
  large_binary, timestamp_micros, timestamp_millis, decimal128, other_type, ValueOf, Column, Batch,
  cell_at,
}
use relyt_ingest.Csv.Text.{quoted, quote_into, write_hex_bytea, write_decimal128}
use relyt_ingest.Csv.Calendar.{write_date32, write_timestamp_micros, thousandfold}

unfoldable pub is_supported_type : DataType → Bool
is_supported_type (other_type t) = false
is_supported_type boolean = true
is_supported_type int8 = true
is_supported_type int16 = true
is_supported_type int32 = true
is_supported_type int64 = true
is_supported_type float32 = true
is_supported_type float64 = true
is_supported_type utf8 = true
is_supported_type large_utf8 = true
is_supported_type date32 = true
is_supported_type (timestamp_micros tz) = true
is_supported_type (timestamp_millis tz) = true
is_supported_type (decimal128 p s) = true
is_supported_type binary = true
is_supported_type large_binary = true

module _ {F : Type 0} (display_float : F → Bytes) where
  -- The text of a value without its quotes, where it is not escaped.
  unfoldable pub plain_text : (t : DataType) → ValueOf F t → Bytes
  unfolding write_date32 write_timestamp_micros write_decimal128 write_hex_bytea
  plain_text boolean true = b't' ∷ []
  plain_text boolean false = b'f' ∷ []
  plain_text int8 v = display_i64 v
  plain_text int16 v = display_i64 v
  plain_text int32 v = display_i64 v
  plain_text int64 v = display_i64 v
  plain_text float32 v = display_float v
  plain_text float64 v = display_float v
  plain_text utf8 v = v
  plain_text large_utf8 v = v
  plain_text date32 v = write_date32 v
  plain_text (timestamp_micros tz) v = write_timestamp_micros v tz
  plain_text (timestamp_millis tz) v = write_timestamp_micros (thousandfold v) tz
  plain_text (decimal128 p s) v = write_decimal128 v s
  plain_text binary v = write_hex_bytea v
  plain_text large_binary v = write_hex_bytea v
  plain_text (other_type t) v = []

  unfoldable pub write_value : (t : DataType) → ValueOf F t → Bytes
  unfolding plain_text quote_into
  write_value utf8 v = quote_into v
  write_value large_utf8 v = quote_into v
  write_value boolean v = quoted (plain_text boolean v)
  write_value int8 v = quoted (plain_text int8 v)
  write_value int16 v = quoted (plain_text int16 v)
  write_value int32 v = quoted (plain_text int32 v)
  write_value int64 v = quoted (plain_text int64 v)
  write_value float32 v = quoted (plain_text float32 v)
  write_value float64 v = quoted (plain_text float64 v)
  write_value date32 v = quoted (plain_text date32 v)
  write_value (timestamp_micros tz) v = quoted (plain_text (timestamp_micros tz) v)
  write_value (timestamp_millis tz) v = quoted (plain_text (timestamp_millis tz) v)
  write_value (decimal128 p s) v = quoted (plain_text (decimal128 p s) v)
  write_value binary v = quoted (plain_text binary v)
  write_value large_binary v = quoted (plain_text large_binary v)
  write_value (other_type t) v = []

  unfoldable pub write_optional : (t : DataType) → Option (ValueOf F t) → Bytes
  unfolding write_value
  write_optional t none = []
  write_optional t (some v) = write_value t v

  unfoldable pub write_cell : Column F → ℕ → Bytes
  unfolding write_optional
  write_cell col row = write_optional col.data_type (cell_at row col.cells)

  -- The fields of one row, with the delimiter between them.
  unfoldable pub write_fields : ℕ → List (Column F) → ℕ → Bytes
  unfolding write_cell
  write_fields delimiter [] row = []
  write_fields delimiter (col ∷ []) row = write_cell col row
  write_fields delimiter (col ∷ next ∷ cols) row =
      write_cell col row ++ delimiter ∷ write_fields delimiter (next ∷ cols) row

  unfoldable pub write_rows : ℕ → List (Column F) → List ℕ → Bytes
  unfolding write_fields
  write_rows delimiter cols [] = []
  write_rows delimiter cols (row ∷ rows) =
      write_fields delimiter cols row ++ b'\n' ∷ write_rows delimiter cols rows

abbrev pub bind_type : DataType → Bytes → Result (Unit {0})
bind_type (other_type t) column = err (unsupported_type "column" t)
bind_type _ column = ok tt

module _ {F : Type 0} where
  -- The columns are bound one after another, and the first that cannot be ends it.
  unfoldable pub bind_all : List (Column F) → Result (Unit {0})
  bind_all [] = ok tt
  bind_all (col ∷ cols) = bind_type col.data_type col.column_name >> bind_all cols

  unfoldable pub format_rows : (F → Bytes) → ℕ → Batch F → List ℕ → Bytes → Result Bytes
  unfolding bind_all write_rows
  format_rows display_float delimiter batch rows out =
      bind_all batch.columns >> ok (out ++ write_rows display_float delimiter batch.columns rows)

unfoldable pub header_fields : ℕ → List Bytes → Bytes
unfolding quote_into
header_fields delimiter [] = []
header_fields delimiter (name ∷ []) = quote_into name
header_fields delimiter (name ∷ next ∷ names) =
    quote_into name ++ delimiter ∷ header_fields delimiter (next ∷ names)

unfoldable pub header : ℕ → List Bytes → Bytes
unfolding header_fields
header delimiter names = header_fields delimiter names ++ b'\n' ∷ []
