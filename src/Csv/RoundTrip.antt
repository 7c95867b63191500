-- ===== src/Csv/RoundTrip.antt =====
-- src/csv.rs: what the loader reads back from the text of a file.
use relyt_ingest.Common.{
  ℕ, suc, ◌+◌, ◌≤◌, ◌≡◌, refl, sym, ap, ◌∙◌, true, false, Option, none, some, List, [], ◌∷◌, ◌++◌,
  map, append_assoc, arith, length, ◌≤◌,
}
use relyt_ingest.Common.Text.{Bytes}
use relyt_ingest.Errors.{ok, >>=-eq-ok, ok_injective}
use relyt_ingest.Arrow.{
  DataType, boolean, int8, int16, int32, int64, float32, float64, utf8, large_utf8, date32, binary,
  large_binary, timestamp_micros, timestamp_millis, decimal128, other_type, ValueOf, Column, Batch,
  cell_at,
}
use relyt_ingest.Csv.Text.{quoted, quote_into}
use relyt_ingest.Csv.Plain.{ArePlain, escape-ArePlain, plain-ArePlain, is_text}
use relyt_ingest.Csv.Reader.{
  read_field, read_fields, read_records, without_nul, GoesOn, read-quoted, then_field, then_record,
}
use relyt_ingest.Csv.{
  is_supported_type, plain_text, write_value, write_optional, write_cell, write_fields, write_rows,
  bind_all, format_rows, header, header_fields,
}
use relyt_ingest.Csv.Fields.{
  IsDelimiter, expect_same, and_then-some, read_fields_last, read_fields_more, suc_add,
  then_records, newline, field_of, field_at, record_at, AreSupported, bind_all-AreSupported,
}

module _ {F : Type 0} (df : F → Bytes) (float : (v : F) → ArePlain (df v)) where
  as_is :
      (t : DataType) (v : ValueOf F t)
      → is_text t ≡ false
      → quoted (plain_text df t v) ≡ quote_into (plain_text df t v)
  unfolding quote_into
  as_is t v h = rw (escape-ArePlain _ (plain-ArePlain df float t v h))

  value :
      (t : DataType) (v : ValueOf F t)
      → is_supported_type t ≡ true
      → write_value df t v ≡ quote_into (plain_text df t v)
  unfolding write_value is_supported_type
  value (other_type t) v h = cc
  value utf8 v h = refl
  value large_utf8 v h = refl
  value boolean v h = as_is boolean v refl
  value int8 v h = as_is int8 v refl
  value int16 v h = as_is int16 v refl
  value int32 v h = as_is int32 v refl
  value int64 v h = as_is int64 v refl
  value float32 v h = as_is float32 v refl
  value float64 v h = as_is float64 v refl
  value date32 v h = as_is date32 v refl
  value (timestamp_micros tz) v h = as_is (timestamp_micros tz) v refl
  value (timestamp_millis tz) v h = as_is (timestamp_millis tz) v refl
  value (decimal128 p s) v h = as_is (decimal128 p s) v refl
  value binary v h = as_is binary v refl
  value large_binary v h = as_is large_binary v refl

  read-optional :
      (t : DataType) (o : Option (ValueOf F t)) (rest : Bytes)
      → is_supported_type t ≡ true
      → GoesOn rest
      → read_field (write_optional df t o ++ rest) ≡ (field_of df t o, rest)
  unfolding write_optional read_field
  read-optional t none [] h on = absurd on
  read-optional t none (c ∷ rest) h on = ground (arith, on)
  read-optional t (some v) rest h on = rw (value t v h) (read-quoted (plain_text df t v) rest on)

  read-cell :
      (col : Column F) (row : ℕ) (rest : Bytes)
      → is_supported_type col.data_type ≡ true
      → GoesOn rest
      → read_field (write_cell df col row ++ rest) ≡ (field_at df row col, rest)
  unfolding write_cell
  read-cell col row rest h on = read-optional col.data_type (cell_at row col.cells) rest h on

  read-fields :
      (d row : ℕ) (col : Column F) (cols : List (Column F)) (rest : Bytes)
      → IsDelimiter d
      → AreSupported (col ∷ cols)
      → GoesOn rest
      → read_fields d (length (col ∷ cols)) (write_fields df d (col ∷ cols) row ++ rest)
        ≡ some (record_at df (col ∷ cols) row, rest)
  unfolding write_fields read_fields
  read-fields d row col [] rest hd hs on = rw (read-cell col row rest hs.0 on)
  read-fields d row col (next ∷ cols) rest hd hs on = rw (
    append_assoc (write_cell df col row) (d ∷ write_fields df d (next ∷ cols) row) rest,
    read-cell col row (d ∷ (write_fields df d (next ∷ cols) row ++ rest)) hs.0 hd,
    expect_same d (write_fields df d (next ∷ cols) row ++ rest),
    read-fields d row next cols rest hd hs.1 on,
  )

  read-rows :
      (d : ℕ) (col : Column F) (cols : List (Column F)) (rows : List ℕ) (count : ℕ) (rest : Bytes)
      → IsDelimiter d
      → AreSupported (col ∷ cols)
      → read_records d
          (length (col ∷ cols))
          (length rows + count)
          (write_rows df d (col ∷ cols) rows ++ rest)
        ≡ then_records
            (map (record_at df (col ∷ cols)) rows)
            (read_records d (length (col ∷ cols)) count rest)
  unfolding write_rows read_records
  read-rows d col cols [] count rest hd hs =
      ap (λ k. read_records d (length (col ∷ cols)) k rest) (omega arith)
  read-rows d col cols (row ∷ rows) count rest hd hs =
      ap
        (λ k.
          read_records d (length (col ∷ cols)) k
            (write_rows df d (col ∷ cols) (row ∷ rows) ++ rest))
        (suc_add (length rows) count)
      ∙ ap (λ s. read_records d (length (col ∷ cols)) (suc (length rows + count)) s)
          (append_assoc (write_fields df d (col ∷ cols) row)
            (b'\n' ∷ write_rows df d (col ∷ cols) rows) rest)
      ∙ and_then-some
          (read-fields d row col cols (b'\n' ∷ (write_rows df d (col ∷ cols) rows ++ rest)) hd hs
            newline)
          _
      ∙ ap (then_record (record_at df (col ∷ cols) row))
          (read-rows d col cols rows count rest hd hs)

  rows_read :
      (d : ℕ) (cols : List (Column F)) (rows : List ℕ) (count : ℕ) (rest : Bytes)
      → IsDelimiter d
      → 1 ≤ length cols
      → AreSupported cols
      → read_records d (length cols) (length rows + count) (write_rows df d cols rows ++ rest)
        ≡ then_records (map (record_at df cols) rows) (read_records d (length cols) count rest)
  rows_read d [] rows count rest hd width hs = absurd (omega (arith, width))
  rows_read d (col ∷ cols) rows count rest hd width hs = read-rows d col cols rows count rest hd hs

-- What `format_rows` appends to a file reads back as one record for each row.
pub format_rows_reads :
    {F : Type 0} (df : F → Bytes) (d : ℕ) (batch : Batch F) (rows : List ℕ) (out : Bytes)
    {written : Bytes}
    → ((v : F) → ArePlain (df v))
    → IsDelimiter d
    → 1 ≤ length batch.columns
    → format_rows df d batch rows out ≡ ok written
    → (text : Bytes) × (written ≡ out ++ text)
      × ((count : ℕ) (rest : Bytes)
          → read_records d (length batch.columns) (length rows + count) (text ++ rest)
            ≡ then_records
                (map (record_at df batch.columns) rows)
                (read_records d (length batch.columns) count rest))
unfolding format_rows
format_rows_reads df d batch rows out float hd width done =
    let step = >>=-eq-ok (bind_all batch.columns) _ done in
    (
      write_rows df d batch.columns rows,
      sym (ok_injective step.2),
      λ count rest.
          rows_read df float d batch.columns rows count rest hd width
            (bind_all-AreSupported batch.columns step.1),
    )

abbrev pub column_names : List Bytes → List (Option Bytes)
column_names = map (λ name. some (without_nul name))

read-header_fields :
    (d : ℕ) (name : Bytes) (names : List Bytes) (rest : Bytes)
    → IsDelimiter d
    → GoesOn rest
    → read_fields d (length (name ∷ names)) (header_fields d (name ∷ names) ++ rest)
      ≡ some (column_names (name ∷ names), rest)
unfolding header_fields
read-header_fields d name [] rest hd on = read_fields_last d _ (read-quoted name rest on)
read-header_fields d name (next ∷ names) rest hd on =
    ap (λ s. read_fields d (suc (suc (length names))) s)
      (append_assoc (quote_into name) (d ∷ header_fields d (next ∷ names)) rest)
    ∙ read_fields_more d (length names) _ _
        (read-quoted name (d ∷ (header_fields d (next ∷ names) ++ rest)) hd)
    ∙ ap (then_field (some (without_nul name))) (read-header_fields d next names rest hd on)

pub read-header :
    (d count : ℕ) (name : Bytes) (names : List Bytes) (rest : Bytes)
    → IsDelimiter d
    → read_records d (length (name ∷ names)) (suc count) (header d (name ∷ names) ++ rest)
      ≡ then_record
          (column_names (name ∷ names))
          (read_records d (length (name ∷ names)) count rest)
unfolding header read_records
read-header d count name names rest hd =
    rw (append_assoc (header_fields d (name ∷ names)) (b'\n' ∷ []) rest)
      (and_then-some (read-header_fields d name names (b'\n' ∷ rest) hd newline) _)
