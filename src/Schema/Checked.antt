-- ===== src/Schema/Checked.antt =====
-- src/schema.rs with src/table.rs: what the checks at the opening promise to the pipeline.
use mathlib.Core.List.{Perm}
use relyt_ingest.Common.{
  ℕ, suc, zero, ◌+◌, ◌≡◌, refl, sym, ap, ◌∙◌, true, Option, none, some, List, [], ◌∷◌, All, length,
}
use relyt_ingest.Common.Text.{Bytes}
use relyt_ingest.Errors.{Result, ok, err, ◌>>=◌, guard, guard-eq-ok, >>=-eq-ok, is_ok}
use relyt_ingest.Arrow.{DataType, other_type, ValueOf, Column, Batch, cell_at}
use relyt_ingest.Csv.{is_supported_type, bind_type, bind_all, format_rows, header}
use relyt_ingest.Dedup.{Position, upto, dedup_last_wins}
use relyt_ingest.Dedup.Key.{
  is_supported_pk_type, append_value_bytes, unsupported_pk, cell_key, column_at, pk_key,
}
use relyt_ingest.Dedup.Key.Injective.{append_value_bytes-is_ok}
use relyt_ingest.Dedup.Reference.{row_keys, batch_keys, last_wins}
use relyt_ingest.Dedup.LastWins.{dedup_last_wins-last_wins}
use relyt_ingest.Render.{kept_rows, render_all, render}
use relyt_ingest.Schema.{
  Field, TableSchema, IndexOf, pk_indices, validate_types, validate, field_at, check_key,
  check_keys, validate_pk_for_dedup,
}

abbrev pub Succeeds : {T : Type 0} → Result T → Type 0
Succeeds {T} r = (t : T) × (r ≡ ok t)

-- A batch has the columns of the schema: their types, in their order.
abbrev pub Fits : {F : Type 0} → List Field → List (Column F) → Type 0
Fits [] [] = Unit
Fits [] (c ∷ cs) = ⊥
Fits (f ∷ fs) [] = ⊥
Fits (f ∷ fs) (c ∷ cs) = (c.data_type ≡ f.field_type) × Fits fs cs

then-Succeeds :
    {S T : Type 0} (r : Result S) (f : S → Result T)
    → Succeeds r
    → ((s : S) → Succeeds (f s))
    → Succeeds (r >>= f)
then-Succeeds r f (s, e) g = ((g s).0, ap (λ x. x >>= f) e ∙ (g s).1)

then_at :
    {S T : Type 0} (r : Result S) (f : S → Result T) {s : S}
    → r ≡ ok s
    → Succeeds (f s)
    → Succeeds (r >>= f)
then_at r f e g = (g.0, ap (λ x. x >>= f) e ∙ g.1)

bind-Succeeds :
    (t : DataType) (name : Bytes) → is_supported_type t ≡ true → Succeeds (bind_type t name)
unfolding is_supported_type
bind-Succeeds (other_type t) name h = cc h
bind-Succeeds _ name h = (tt, refl)

value-Succeeds :
    (F : Type 0) (t : DataType) (v : ValueOf F t)
    → is_supported_pk_type t ≡ true
    → Succeeds (append_value_bytes F t v)
value-Succeeds F t v h = result (append_value_bytes F t v) (append_value_bytes-is_ok F t v ∙ h)
  where
    result : (r : Result Bytes) → is_ok r ≡ true → Succeeds r
    result (ok b) e = (b, refl)
    result (err x) e = cc e

cell-Succeeds :
    (F : Type 0) (t : DataType) (o : Option (ValueOf F t))
    → is_supported_pk_type t ≡ true
    → Succeeds (cell_key F t o)
unfolding cell_key
cell-Succeeds F t none h = (_, refl)
cell-Succeeds F t (some v) h =
    let (b, e) = value-Succeeds F t v h in
    then-Succeeds (unsupported_pk (append_value_bytes F t v)) _ (b, ap unsupported_pk e)
      (λ x. (_, refl))

module _ {F : Type 0} where
  bind_all-Succeeds :
      (fields : List Field) (cols : List (Column F))
      → validate_types fields ≡ ok tt
      → Fits fields cols
      → Succeeds (bind_all cols)
  unfolding bind_all validate_types
  bind_all-Succeeds [] [] valid fits = (tt, refl)
  bind_all-Succeeds [] (c ∷ cs) valid fits = absurd fits
  bind_all-Succeeds (f ∷ fs) [] valid fits = absurd fits
  bind_all-Succeeds (f ∷ fs) (c ∷ cs) valid fits =
      let (u, first, rest) = >>=-eq-ok (guard (is_supported_type f.field_type) _) _ valid in
      then-Succeeds (bind_type c.data_type c.column_name) _
        (bind-Succeeds c.data_type c.column_name
          (ap is_supported_type fits.0 ∙ guard-eq-ok (is_supported_type f.field_type) _ first))
        (λ v. bind_all-Succeeds fs cs rest fits.1)

  format-Succeeds :
      (df : F → Bytes) (d : ℕ) (batch : Batch F) (rows : List ℕ) (out : Bytes)
      → Succeeds (bind_all batch.columns)
      → Succeeds (format_rows df d batch rows out)
  unfolding format_rows
  format-Succeeds df d batch rows out bound =
      then-Succeeds (bind_all batch.columns) _ bound (λ u. (_, refl))

  render_all-Succeeds :
      (df : F → Bytes) (d : ℕ) (fields : List Field) (batches : List (Batch F))
      (keep : List (List ℕ)) (body : Bytes) (kept : ℕ)
      → validate_types fields ≡ ok tt
      → All (λ (b : Batch F). Fits fields b.columns) batches
      → Succeeds (render_all df d batches keep body kept)
  unfolding render_all
  render_all-Succeeds df d fields [] keep body kept valid fits = (_, refl)
  render_all-Succeeds df d fields (b ∷ bs) [] body kept valid fits = (_, refl)
  render_all-Succeeds df d fields (b ∷ bs) (rows ∷ keep) body kept valid fits =
      then-Succeeds (format_rows df d b rows body) _
        (format-Succeeds df d b rows body (bind_all-Succeeds fields b.columns valid fits.0))
        (λ more. render_all-Succeeds df d fields bs keep more (kept + length rows) valid fits.1)

  -- A field that is checked as a key has a column, of a type that can be one.
  column_found :
      (fields : List Field) (cols : List (Column F)) (i : ℕ)
      → Fits fields cols
      → check_key (field_at i fields) ≡ ok tt
      → (c : Column F) × (column_at i cols ≡ ok c) × (is_supported_pk_type c.data_type ≡ true)
  column_found [] cols i fits checked = cc checked
  column_found (f ∷ fs) [] i fits checked = absurd fits
  column_found (f ∷ fs) (c ∷ cs) zero fits checked = (
    c,
    refl,
    ap is_supported_pk_type fits.0 ∙ guard-eq-ok (is_supported_pk_type f.field_type) _ checked,
  )
  column_found (f ∷ fs) (c ∷ cs) (suc i) fits checked = column_found fs cs i fits.1 checked

  key-Succeeds :
      (fields : List Field) (batch : Batch F) (pk : List ℕ) (row : ℕ)
      → check_keys fields pk ≡ ok tt
      → Fits fields batch.columns
      → Succeeds (pk_key batch pk row)
  unfolding pk_key check_keys
  key-Succeeds fields batch [] row checked fits = (_, refl)
  key-Succeeds fields batch (i ∷ is) row checked fits =
      let (u, first, rest) = >>=-eq-ok (check_key (field_at i fields)) _ checked in
      let (c, found, keyed) = column_found fields batch.columns i fits first in
      then_at (column_at i batch.columns) _ found (
        then-Succeeds (cell_key F c.data_type (cell_at row c.cells)) _
          (cell-Succeeds F c.data_type (cell_at row c.cells) keyed)
          (λ head.
            then-Succeeds (pk_key batch is row) _ (key-Succeeds fields batch is row rest fits)
              (λ more. (_, refl))))

  row_keys_succeed :
      (fields : List Field) (batch : Batch F) (pk rows : List ℕ)
      → check_keys fields pk ≡ ok tt
      → Fits fields batch.columns
      → Succeeds (row_keys batch pk rows)
  unfolding row_keys
  row_keys_succeed fields batch pk [] checked fits = (_, refl)
  row_keys_succeed fields batch pk (row ∷ rows) checked fits =
      then-Succeeds (pk_key batch pk row) _ (key-Succeeds fields batch pk row checked fits) (λ key.
        then-Succeeds (row_keys batch pk rows) _
          (row_keys_succeed fields batch pk rows checked fits) (λ keys. (_, refl)))

  batch_keys_succeed :
      (fields : List Field) (batches : List (Batch F)) (pk : List ℕ)
      → check_keys fields pk ≡ ok tt
      → All (λ (b : Batch F). Fits fields b.columns) batches
      → Succeeds (batch_keys batches pk)
  unfolding batch_keys
  batch_keys_succeed fields [] pk checked fits = (_, refl)
  batch_keys_succeed fields (b ∷ bs) pk checked fits =
      then-Succeeds (row_keys b pk (upto 0 b.num_rows)) _
        (row_keys_succeed fields b pk (upto 0 b.num_rows) checked fits.0)
        (λ keys.
          then-Succeeds (batch_keys bs pk) _ (batch_keys_succeed fields bs pk checked fits.1)
            (λ rest. (_, refl)))

-- What the opening of a table has checked cannot fail in the pipeline: if the schema is valid, its key can
-- deduplicate and its columns are found, every file of batches with the schema's columns is rendered under that
-- key, whatever their values and whatever the order in which the hash map gives out its own.
pub render-Succeeds :
    {F : Type 0} (index_of : IndexOf) (s : TableSchema) (into_order : List Position → List Position)
    (df : F → Bytes) (batches : List (Batch F)) (pk : List ℕ) (names : List Bytes) (d : ℕ)
    → ((ps : List Position) → Perm (into_order ps) ps)
    → validate index_of s ≡ ok tt
    → validate_pk_for_dedup index_of s ≡ ok tt
    → pk_indices index_of s ≡ ok pk
    → All (λ (b : Batch F). Fits s.fields b.columns) batches
    → Succeeds (render into_order df batches (some pk) names d)
unfolding render kept_rows validate validate_pk_for_dedup
render-Succeeds index_of s into_order df batches pk names d order valid keyed indices fits =
    let (u, types, rest) = >>=-eq-ok (validate_types s.fields) _ valid in
    let checked : check_keys s.fields pk ≡ ok tt =
      ap (λ r. r >>= λ is. check_keys s.fields is) (sym indices) ∙ keyed in
    let (kss, found) = batch_keys_succeed s.fields batches pk checked fits in
    then_at (dedup_last_wins into_order batches pk) _
      (dedup_last_wins-last_wins into_order batches pk order
        ∙ ap (λ r. r >>= λ k. ok (last_wins k)) found)
      (render_all-Succeeds df d s.fields batches (last_wins kss) (header d names) 0 types fits)
