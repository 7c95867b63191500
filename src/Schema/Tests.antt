-- ===== src/Schema/Tests.antt =====
-- A table of a key and a name, and the declarations of two columns.
use mathlib.Core.List.Perm
use relyt_ingest.Common.{◌≡◌, refl, none, some, [], ◌∷◌, if◌then◌else◌, ◌+◌}
use relyt_ingest.Common.Int.{pos}
use relyt_ingest.Common.Text.{codes, bytes_eq}
use relyt_ingest.Errors.{ok}
use relyt_ingest.Arrow.{int64, utf8, decimal128}
use relyt_ingest.Render.{render}
use relyt_ingest.Render.Tests.{batches, display_float}
use relyt_ingest.Schema.{TableSchema, IndexOf, pk_indices, validate, validate_pk_for_dedup}
use relyt_ingest.Schema.Checked.{Succeeds, render-Succeeds}
use relyt_ingest.Schema.Declaration.{pg_type_to_arrow}

abbrev pub table : TableSchema
table = record {
  fields =
      record { field_name = codes "id"; field_type = int64 }
      ∷ record { field_name = codes "name"; field_type = utf8 }
      ∷ [];
  pk = codes "id" ∷ [];
  db_oid = 1;
  rel_oid = 2;
}

-- The first field of the name.
abbrev pub index_of : IndexOf
index_of [] name = none
index_of (f ∷ fs) name =
    let rest = index_of fs name in
    if bytes_eq f.field_name name then some 0 else elim rest [ none ↦ none | some i ↦ some (1 + i) ]

valid : validate index_of table ≡ ok tt
unfolding validate bytes_eq
valid = refl

keyed : validate_pk_for_dedup index_of table ≡ ok tt
unfolding validate_pk_for_dedup bytes_eq
keyed = refl

indices : pk_indices index_of table ≡ ok (0 ∷ [])
unfolding pk_indices bytes_eq
indices = refl

render-Succeeds_example :
    Succeeds (
      render (λ ps. ps) display_float batches (some (0 ∷ [])) (codes "id" ∷ codes "name" ∷ []) b',')
render-Succeeds_example =
    render-Succeeds index_of table (λ ps. ps) display_float batches (0 ∷ [])
      (codes "id" ∷ codes "name" ∷ []) b',' (λ ps. Perm.rfl) valid keyed indices
      ((refl, (refl, tt)), ((refl, (refl, tt)), tt))

money : pg_type_to_arrow (codes "numeric(20,4)") ≡ ok (decimal128 20 (pos 4))
unfolding pg_type_to_arrow
money = refl
