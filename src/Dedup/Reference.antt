-- ===== src/Dedup/Reference.antt =====
-- What `dedup_last_wins` (src/dedup.rs) promises, stated over the keys of the rows: a row stays where no
-- row after it, in its own batch or a later one, has its key.
use relyt_ingest.Common.{ℕ, suc, Bool, false, List, [], ◌∷◌, ◌++◌, if◌then◌else◌, ◌||◌}
use relyt_ingest.Common.Text.{Bytes, bytes_eq}
use relyt_ingest.Errors.{Result, ok, ◌>>=◌}
use relyt_ingest.Arrow.{Batch}
use relyt_ingest.Dedup.Key.{pk_key}
use relyt_ingest.Dedup.{upto}

abbrev pub occurs : Bytes → List Bytes → Bool
occurs key [] = false
occurs key (k ∷ ks) = bytes_eq key k || occurs key ks

abbrev pub concat : List (List Bytes) → List Bytes
concat [] = []
concat (ks ∷ rest) = ks ++ concat rest

unfoldable pub last_rows : ℕ → List Bytes → List Bytes → List ℕ
last_rows row [] later = []
last_rows row (key ∷ keys) later =
    let rest = last_rows (suc row) keys later in
    if occurs key (keys ++ later) then rest else row ∷ rest

unfoldable pub last_wins : List (List Bytes) → List (List ℕ)
unfolding last_rows
last_wins [] = []
last_wins (keys ∷ rest) = last_rows 0 keys (concat rest) ∷ last_wins rest

module _ {F : Type 0} where
  unfoldable pub row_keys : Batch F → List ℕ → List ℕ → Result (List Bytes)
  row_keys batch pk_columns [] = ok []
  row_keys batch pk_columns (row ∷ rows) = pk_key batch pk_columns row >>= λ key.
      row_keys batch pk_columns rows >>= λ keys. ok (key ∷ keys)

  unfoldable pub batch_keys : List (Batch F) → List ℕ → Result (List (List Bytes))
  unfolding row_keys
  batch_keys [] pk_columns = ok []
  batch_keys (batch ∷ batches) pk_columns =
      row_keys batch pk_columns (upto 0 batch.num_rows) >>= λ keys.
      batch_keys batches pk_columns >>= λ rest. ok (keys ∷ rest)
