-- ===== src/Dedup.antt =====
-- src/dedup.rs: the rows of a file that its last version of each key keeps. A panic ends the blocking task
-- that renders the file, which `render_once` (src/table.rs) turns into the error `render_panic`.
pub mod Key
pub mod Reference
pub mod Sorting
pub mod Survivors
pub mod Pushing
pub mod LastWins
pub mod Tests
use relyt_ingest.Common.{
  ℕ, suc, zero, Bool, true, false, List, [], ◌∷◌, ◌++◌, map, length, replicate, ltb, leb, ◌==◌,
  if◌then◌else◌, ◌&&◌, not,
}
use relyt_ingest.Common.Text.{Bytes, bytes_eq}
use relyt_ingest.Errors.{Result, ok, err, ◌>>=◌}
use relyt_ingest.Arrow.{Batch}
use relyt_ingest.Dedup.Key.{pk_key}

-- A batch index and a row index.
abbrev pub Position : Type 0
Position = ℕ × ℕ

-- The entries of the hash map `latest`. Their order here is no order of the map's.
abbrev pub Latest : Type 0
Latest = List (Bytes × Position)

abbrev pub without_key : Bytes → Latest → Latest
without_key key [] = []
without_key key (entry ∷ entries) =
    if bytes_eq key entry.0 then without_key key entries else entry ∷ without_key key entries

abbrev pub insert_latest : Bytes → Position → Latest → Latest
insert_latest key at latest = (key, at) ∷ without_key key latest

abbrev pub upto : ℕ → ℕ → List ℕ
upto row zero = []
upto row (suc count) = row ∷ upto (suc row) count

module _ {F : Type 0} where
  unfoldable pub insert_rows : Batch F → List ℕ → ℕ → List ℕ → Latest → Result Latest
  unfolding pk_key
  insert_rows batch pk_columns bi [] latest = ok latest
  insert_rows batch pk_columns bi (row ∷ rows) latest = pk_key batch pk_columns row >>= λ key.
      insert_rows batch pk_columns bi rows (insert_latest key (bi, row) latest)

  unfoldable pub insert_batches : List (Batch F) → List ℕ → ℕ → Latest → Result Latest
  unfolding insert_rows
  insert_batches [] pk_columns bi latest = ok latest
  insert_batches (batch ∷ batches) pk_columns bi latest =
      insert_rows batch pk_columns bi (upto 0 batch.num_rows) latest >>= λ more.
      insert_batches batches pk_columns (suc bi) more

-- `sort_unstable` of pairs, all of them different.
abbrev pub position_leb : Position → Position → Bool
position_leb (a, r) (b, s) = if a == b then leb r s else ltb a b

unfoldable pub insert_position : Position → List Position → List Position
insert_position p [] = p ∷ []
insert_position p (q ∷ qs) = if position_leb p q then p ∷ q ∷ qs else q ∷ insert_position p qs

unfoldable pub sort_positions : List Position → List Position
unfolding insert_position
sort_positions [] = []
sort_positions (p ∷ ps) = insert_position p (sort_positions ps)

-- `keep[bi].push(row)`; every batch index is that of a batch.
unfoldable pub push_row : ℕ → ℕ → List (List ℕ) → List (List ℕ)
push_row bi row [] = []
push_row zero row (rows ∷ keep) = (rows ++ row ∷ []) ∷ keep
push_row (suc bi) row (rows ∷ keep) = rows ∷ push_row bi row keep

unfoldable pub push_rows : List Position → List (List ℕ) → List (List ℕ)
unfolding push_row
push_rows [] keep = keep
push_rows (p ∷ ps) keep = push_rows ps (push_row p.0 p.1 keep)

-- `into_values` gives the map's values in an order of its own.
unfoldable pub dedup_last_wins :
    {F : Type 0}
    → (List Position → List Position)
    → List (Batch F)
    → List ℕ
    → Result (List (List ℕ))
unfolding insert_batches sort_positions push_rows
dedup_last_wins into_order batches pk_columns = insert_batches batches pk_columns 0 [] >>= λ latest.
    ok (
      push_rows (sort_positions (into_order (map (λ entry. entry.1) latest)))
        (replicate (length batches) []))
