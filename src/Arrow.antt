-- ===== src/Arrow.antt =====
-- What the source reads of the arrow crates: the types that it names, the cells of a column by its type,
-- and a batch as its columns. A float is a parameter, and so is its text.
use relyt_ingest.Common.{ℕ, String, Bool, Option, none, List, [], ◌∷◌, zero, suc}
use relyt_ingest.Common.Int.{ℤ}
use relyt_ingest.Common.Text.{Bytes}

-- A timestamp says whether it has a time zone; a decimal has its precision and its scale.
pub data DataType : Type 0 where
  boolean int8 int16 int32 int64 float32 float64 : DataType
  utf8 large_utf8 date32 binary large_binary : DataType
  timestamp_micros timestamp_millis : Bool → DataType
  decimal128 : ℕ → ℤ → DataType
  other_type : String → DataType

abbrev pub ValueOf : Type 0 → DataType → Type 0
ValueOf F boolean = Bool
ValueOf F int8 = ℤ
ValueOf F int16 = ℤ
ValueOf F int32 = ℤ
ValueOf F int64 = ℤ
ValueOf F float32 = F
ValueOf F float64 = F
ValueOf F utf8 = Bytes
ValueOf F large_utf8 = Bytes
ValueOf F date32 = ℤ
ValueOf F binary = Bytes
ValueOf F large_binary = Bytes
ValueOf F (timestamp_micros tz) = ℤ
ValueOf F (timestamp_millis tz) = ℤ
ValueOf F (decimal128 p s) = ℤ
ValueOf F (other_type t) = Unit

-- A column: its name, its type and its cells, of which a null is none.
pub record Column (F : Type 0) : Type 0 where
  pub column_name : Bytes
  pub data_type : DataType
  pub cells : List (Option (ValueOf F data_type))

-- The cell of a row. The columns of a batch are equally long, so that no row of it is past the end.
abbrev pub cell_at : {V : Type 0} → ℕ → List (Option V) → Option V
cell_at row [] = none
cell_at zero (c ∷ cs) = c
cell_at (suc row) (c ∷ cs) = cell_at row cs

pub record Batch (F : Type 0) : Type 0 where
  pub num_rows : ℕ
  pub columns : List (Column F)
