-- ===== src/Schema.antt =====
-- src/schema.rs: the checks of a table's schema. `index_of` is that of the arrow schema.
pub mod Checked
pub mod Declaration
pub mod Types
pub mod Tests
use relyt_ingest.Common.{
  ℕ, suc, zero, Bool, true, false, Option, none, some, List, [], ◌∷◌, is_empty, if◌then◌else◌,
}
use relyt_ingest.Common.Text.{Bytes}
use relyt_ingest.Errors.{Result, ok, err, ◌>>=◌, ◌>>◌, guard, schema, unsupported_type, config}
use relyt_ingest.Arrow.{DataType}
use relyt_ingest.Csv.{is_supported_type}
use relyt_ingest.Dedup.Key.{is_supported_pk_type}

pub record Field : Type 0 where
  pub field_name : Bytes
  pub field_type : DataType

pub record TableSchema : Type 0 where
  pub fields : List Field
  pub pk : List Bytes
  pub db_oid : ℕ
  pub rel_oid : ℕ

-- `Schema::index_of`: the position of the field with a name.
abbrev pub IndexOf : Type 0
IndexOf = List Field → Bytes → Option ℕ

abbrev pub found : Option ℕ → Result ℕ
found none = err (schema "primary key column not in schema")
found (some i) = ok i

unfoldable pub indices_of : IndexOf → List Field → List Bytes → Result (List ℕ)
indices_of index_of fields [] = ok []
indices_of index_of fields (name ∷ names) =
    found (index_of fields name) >>= λ i. indices_of index_of fields names >>= λ is. ok (i ∷ is)

unfoldable pub pk_indices : IndexOf → TableSchema → Result (List ℕ)
unfolding indices_of
pk_indices index_of s = indices_of index_of s.fields s.pk

unfoldable pub validate_types : List Field → Result (Unit {0})
unfolding is_supported_type
validate_types [] = ok tt
validate_types (f ∷ fs) =
    guard (is_supported_type f.field_type) (unsupported_type "column" "data type")
    >> validate_types fs

unfoldable pub validate : IndexOf → TableSchema → Result (Unit {0})
unfolding validate_types pk_indices
validate index_of s =
    validate_types s.fields
    >> (if is_empty s.pk then ok tt else pk_indices index_of s >>= λ is. ok tt)

-- `arrow.field(i)`, which panics past the last field.
abbrev pub field_at : ℕ → List Field → Option Field
field_at i [] = none
field_at zero (f ∷ fs) = some f
field_at (suc i) (f ∷ fs) = field_at i fs

abbrev pub check_key : Option Field → Result (Unit {0})
check_key none = err (config "panic")
check_key (some f) =
    guard (is_supported_pk_type f.field_type)
      (unsupported_type "column" "primary key column of an upsert stream")

unfoldable pub check_keys : List Field → List ℕ → Result (Unit {0})
unfolding is_supported_pk_type
check_keys fields [] = ok tt
check_keys fields (i ∷ is) = check_key (field_at i fields) >> check_keys fields is

unfoldable pub validate_pk_for_dedup : IndexOf → TableSchema → Result (Unit {0})
unfolding check_keys pk_indices
validate_pk_for_dedup index_of s = pk_indices index_of s >>= λ is. check_keys s.fields is
