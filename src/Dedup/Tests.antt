-- ===== src/Dedup/Tests.antt =====
-- Two batches with a composite key, in which the first row is written again.
use mathlib.Core.List.Perm
use relyt_ingest.Common.{◌≡◌, refl, Option, none, some, List, [], ◌∷◌, arith, true, All, Bool}
use relyt_ingest.Common.Text.{Bytes, codes, bytes_eq}
use relyt_ingest.Errors.{ok, ◌>>=◌}
use relyt_ingest.Arrow.{utf8, boolean, Column, Batch}
use relyt_ingest.Dedup.{dedup_last_wins}
use relyt_ingest.Dedup.Reference.{batch_keys, last_wins}
use relyt_ingest.Dedup.LastWins.{dedup_last_wins-last_wins}
use relyt_ingest.Dedup.Key.{pk_key, text_bytes}
use relyt_ingest.Dedup.Key.Injective.{key_cells, pk_key_injective, IsWellTyped}

abbrev column : List (Option Bytes) → Column (Unit {0})
column cells = record { column_name = codes "name"; data_type = utf8; cells = cells }

abbrev flags : List (Option Bool) → Column (Unit {0})
flags cells = record { column_name = codes "flag"; data_type = boolean; cells = cells }

abbrev first : Batch (Unit {0})
first = record {
  num_rows = 2;
  columns = column (some (codes "é") ∷ none ∷ []) ∷ flags (some true ∷ none ∷ []) ∷ [];
}

abbrev second : Batch (Unit {0})
second = record {
  num_rows = 1;
  columns = column (some (codes "é") ∷ []) ∷ flags (some true ∷ []) ∷ [];
}

abbrev key : Bytes
key = 1 ∷ 0 ∷ 0 ∷ 0 ∷ 2 ∷ 195 ∷ 169 ∷ 255 ∷ 1 ∷ 1 ∷ 255 ∷ []

first_key : pk_key first (0 ∷ 1 ∷ []) 0 ≡ ok key
unfolding pk_key
first_key = refl

second_key : pk_key second (0 ∷ 1 ∷ []) 0 ≡ ok key
unfolding pk_key
second_key = refl

kept : dedup_last_wins (λ ps. ps) (first ∷ second ∷ []) (0 ∷ 1 ∷ []) ≡ ok ((1 ∷ []) ∷ (0 ∷ []) ∷ [])
unfolding dedup_last_wins bytes_eq
kept = refl

dedup_last_wins-last_wins_example :
    dedup_last_wins (λ ps. ps) (first ∷ second ∷ []) (0 ∷ 1 ∷ [])
    ≡ (batch_keys (first ∷ second ∷ []) (0 ∷ 1 ∷ []) >>= λ kss. ok (last_wins kss))
dedup_last_wins-last_wins_example =
    dedup_last_wins-last_wins (λ ps. ps) (first ∷ second ∷ []) (0 ∷ 1 ∷ []) (λ ps. Perm.rfl)

short : All (IsWellTyped (Unit {0})) (key_cells first (0 ∷ 1 ∷ []) 0)
unfolding text_bytes
short = (((omega arith, tt), omega arith), (tt, tt))

pk_key_injective_example : key_cells first (0 ∷ 1 ∷ []) 0 ≡ key_cells second (0 ∷ 1 ∷ []) 0
pk_key_injective_example =
    pk_key_injective first second (0 ∷ 1 ∷ []) 0 0 refl short short first_key second_key
