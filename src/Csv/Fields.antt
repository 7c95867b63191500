-- ===== src/Csv/Fields.antt =====
-- src/csv.rs: what a cell is read back as, and the steps of the reader.
use relyt_ingest.Common.{
  ℕ, suc, ◌+◌, ◌≡◌, ◌≢◌, refl, true, Option, none, some, List, [], ◌∷◌, map, arith, All,
}
use relyt_ingest.Common.Text.{Bytes}
use relyt_ingest.Errors.{ok, >>=-eq-ok}
use relyt_ingest.Arrow.{
  DataType, boolean, int8, int16, int32, int64, float32, float64, utf8, large_utf8, date32, binary,
  large_binary, timestamp_micros, timestamp_millis, decimal128, other_type, ValueOf, Column,
  cell_at,
}
use relyt_ingest.Csv.Reader.{
  read_field, read_fields, expect, without_nul, GoesOn, and_then, then_field, then_record,
}
use relyt_ingest.Csv.{is_supported_type, plain_text, bind_all, bind_type}

-- A usable delimiter: the configuration refuses the quote.
abbrev pub IsDelimiter : ℕ → Type 0
IsDelimiter d = d ≢ b'"'

pub expect_same : (c : ℕ) (s : Bytes) → expect c (c ∷ s) ≡ some s
unfolding expect
expect_same c s = ground arith

pub and_then-some :
    {V W : Type 0} {o : Option V} {v : V} → o ≡ some v → (f : V → Option W) → and_then o f ≡ f v
and_then-some e f = rw e refl

pub read_fields_last :
    (d : ℕ) (s : Bytes) {f : Option Bytes} {t : Bytes}
    → read_field s ≡ (f, t)
    → read_fields d 1 s ≡ some (f ∷ [], t)
unfolding read_fields
read_fields_last d s e = rw e refl

pub read_fields_more :
    (d n : ℕ) (s t : Bytes) {f : Option Bytes}
    → read_field s ≡ (f, d ∷ t)
    → read_fields d (suc (suc n)) s ≡ then_field f (read_fields d (suc n) t)
unfolding read_fields
read_fields_more d n s t e = rw (e, expect_same d t) refl

pub suc_add : (a b : ℕ) → suc a + b ≡ suc (a + b)
suc_add a b = omega arith

-- Records in front of those that are still to be read.
abbrev pub then_records :
    List (List (Option Bytes))
    → Option (List (List (Option Bytes)))
    → Option (List (List (Option Bytes)))
then_records [] rest = rest
then_records (r ∷ rs) rest = then_record r (then_records rs rest)

pub newline : GoesOn (b'\n' ∷ [])
newline = λ e. omega arith

module _ {F : Type 0} (display_float : F → Bytes) where
  -- What a cell is read back as: NULL, or its text, of which only the NULs are lost.
  abbrev pub field_of : (t : DataType) → Option (ValueOf F t) → Option Bytes
  field_of t none = none
  field_of t (some v) = some (without_nul (plain_text display_float t v))

  abbrev pub field_at : ℕ → Column F → Option Bytes
  field_at row col = field_of col.data_type (cell_at row col.cells)

  abbrev pub record_at : List (Column F) → ℕ → List (Option Bytes)
  record_at cols row = map (field_at row) cols

bind_type-ok :
    (t : DataType) (name : Bytes) {u : Unit} → bind_type t name ≡ ok u → is_supported_type t ≡ true
unfolding is_supported_type
bind_type-ok (other_type t) name h = cc
bind_type-ok boolean name h = refl
bind_type-ok int8 name h = refl
bind_type-ok int16 name h = refl
bind_type-ok int32 name h = refl
bind_type-ok int64 name h = refl
bind_type-ok float32 name h = refl
bind_type-ok float64 name h = refl
bind_type-ok utf8 name h = refl
bind_type-ok large_utf8 name h = refl
bind_type-ok date32 name h = refl
bind_type-ok (timestamp_micros tz) name h = refl
bind_type-ok (timestamp_millis tz) name h = refl
bind_type-ok (decimal128 p s) name h = refl
bind_type-ok binary name h = refl
bind_type-ok large_binary name h = refl

module _ {F : Type 0} where
  abbrev pub AreSupported : List (Column F) → Type 0
  AreSupported = All (λ (col : Column F). is_supported_type col.data_type ≡ true)

  pub bind_all-AreSupported :
      (cols : List (Column F)) {u : Unit} → bind_all cols ≡ ok u → AreSupported cols
  unfolding bind_all
  bind_all-AreSupported [] h = tt
  bind_all-AreSupported (col ∷ cols) h =
      let step = >>=-eq-ok (bind_type col.data_type col.column_name) _ h in
      (bind_type-ok col.data_type col.column_name step.1, bind_all-AreSupported cols step.2)
