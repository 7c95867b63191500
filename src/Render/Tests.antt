-- ===== src/Render/Tests.antt =====
-- A file of two batches in which a key is written twice, a name is missing and another holds quotes.
use mathlib.Core.List.Perm
use relyt_ingest.Common.{◌≡◌, refl, Option, none, some, List, [], ◌∷◌, arith}
use relyt_ingest.Common.Int.{ℤ, pos}
use relyt_ingest.Common.Text.{Bytes, codes, bytes_eq}
use relyt_ingest.Common.Decimal.{display_i64}
use relyt_ingest.Errors.{ok}
use relyt_ingest.Arrow.{int64, utf8, Column, Batch}
use relyt_ingest.Csv.Reader.{read_records}
use relyt_ingest.Csv.Plain.{ArePlain}
use relyt_ingest.Csv.RoundTrip.{column_names}
use relyt_ingest.Dedup.{Position}
use relyt_ingest.Dedup.Reference.{batch_keys, last_wins}
use relyt_ingest.Render.{render}
use relyt_ingest.Render.Contents.{records_of, render-last_wins}

-- Floats are a type of one value here.
abbrev pub display_float : Unit {0} → Bytes
display_float v = codes "1.5"

floats : (v : Unit {0}) → ArePlain (display_float v)
floats v = (
  ((λ e. omega arith), λ e. omega arith),
  (((λ e. omega arith), λ e. omega arith), (((λ e. omega arith), λ e. omega arith), tt)),
)

abbrev ids : List (Option ℤ) → Column (Unit {0})
ids cells = record { column_name = codes "id"; data_type = int64; cells = cells }

abbrev names : List (Option Bytes) → Column (Unit {0})
names cells = record { column_name = codes "name"; data_type = utf8; cells = cells }

abbrev pub batches : List (Batch (Unit {0}))
batches =
    record {
      num_rows = 2;
      columns =
          ids (some (pos 7) ∷ some (pos 8) ∷ []) ∷ names (some (codes "old") ∷ none ∷ []) ∷ [];
    }
    ∷ record {
      num_rows = 1;
      columns = ids (some (pos 7) ∷ []) ∷ names (some (codes "a\"b") ∷ []) ∷ [];
    }
    ∷ []

abbrev in_order : List Position → List Position
in_order ps = ps

abbrev file : Bytes
file = codes "\"id\",\"name\"\n\"8\",\n\"7\",\"a\"\"b\"\n"

rendered :
    render in_order display_float batches (some (0 ∷ [])) (codes "id" ∷ codes "name" ∷ []) b','
    ≡ ok (file, 2)
unfolding render bytes_eq display_i64
rendered = refl

render-last_wins_example :
    (keys : List (List Bytes)) × (batch_keys batches (0 ∷ []) ≡ ok keys)
    × (read_records b',' 2 3 file
        ≡ some (
            column_names (codes "id" ∷ codes "name" ∷ [])
            ∷ records_of display_float batches (last_wins keys)))
render-last_wins_example =
    render-last_wins in_order display_float batches (0 ∷ []) (codes "id") (codes "name" ∷ []) b','
      (λ ps. Perm.rfl) floats (λ e. omega arith) (refl, (refl, tt)) rendered
