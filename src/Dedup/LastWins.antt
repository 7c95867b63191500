-- ===== src/Dedup/LastWins.antt =====
-- src/dedup.rs: `dedup_last_wins` keeps what its reference keeps.
use mathlib.Core.List.{Perm}
use mathlib.Core.List.Perm
use relyt_ingest.Common.{
  length-append, ℕ, suc, zero, ◌≡◌, refl, ap, sym, ◌∙◌, List, [], ◌∷◌, ◌++◌, append_assoc, length,
  replicate, arith,
}
use relyt_ingest.Common.Text.{Bytes}
use relyt_ingest.Errors.{Result, ok, err, ◌>>=◌, ok_injective, >>=-eq-ok}
use relyt_ingest.Arrow.{Batch}
use relyt_ingest.Dedup.Key.{pk_key}
use relyt_ingest.Dedup.Reference.{concat, last_rows, last_wins, row_keys, batch_keys}
use relyt_ingest.Dedup.Sorting.{sort_of_perm, sort_of_IsAscending}
use relyt_ingest.Dedup.{
  Position, Latest, insert_latest, upto, insert_rows, insert_batches, sort_positions, push_rows,
  dedup_last_wins,
}
use relyt_ingest.Dedup.Survivors.{
  insert_all, values, survivors, insert_all-perm, entries_of, all_entries, insert_all-append,
  survivors_of_all, survivors-IsAscending, all-IsAscending,
}
use relyt_ingest.Dedup.Pushing.{push_rows-append, push_batch}

length_snoc :
    (done : List (List ℕ)) (rows : List ℕ) → length (done ++ rows ∷ []) ≡ suc (length done)
length_snoc done rows = omega (arith, length-append done (rows ∷ []))

push_none : (keep : List (List ℕ)) → push_rows [] keep ≡ keep
unfolding push_rows
push_none keep = refl

push_all :
    (done : List (List ℕ)) (kss : List (List Bytes))
    → push_rows (survivors (all_entries (length done) kss)) (done ++ replicate (length kss) [])
      ≡ done ++ last_wins kss
unfolding last_wins
push_all done [] = push_none (done ++ [])
push_all done (keys ∷ rest) =
    let new = last_rows 0 keys (concat rest) in
    let ahead = done ++ new ∷ [] in
    let empty = replicate (length rest) [] in
    ap (λ ps. push_rows ps (done ++ [] ∷ empty)) (survivors_of_all (length done) keys rest)
    ∙ push_rows-append _ (survivors (all_entries (suc (length done)) rest)) (done ++ [] ∷ empty)
    ∙ ap (push_rows (survivors (all_entries (suc (length done)) rest)))
        (push_batch done new [] empty ∙ sym (append_assoc done (new ∷ []) empty))
    ∙ ap (λ n. push_rows (survivors (all_entries n rest)) (ahead ++ empty))
        (sym (length_snoc done new))
    ∙ push_all ahead rest
    ∙ append_assoc done (new ∷ []) (last_wins rest)

>>=_congr :
    {S T : Type 0} (r : Result S) (f g : S → Result T)
    → ((s : S) → f s ≡ g s)
    → (r >>= f) ≡ (r >>= g)
>>=_congr (err e) f g same = refl
>>=_congr (ok s) f g same = same s

>>=_assoc :
    {S T U : Type 0} (r : Result S) (f : S → Result T) (g : T → Result U)
    → ((r >>= f) >>= g) ≡ (r >>= λ s. f s >>= g)
>>=_assoc (err e) f g = refl
>>=_assoc (ok s) f g = refl

module _ {F : Type 0} where
  insert_rows_lem :
      (batch : Batch F) (pk : List ℕ) (bi row n : ℕ) (latest : Latest)
      → insert_rows batch pk bi (upto row n) latest ≡ (
          row_keys batch pk (upto row n) >>= λ keys.
          ok (insert_all (entries_of bi row keys) latest))
  unfolding insert_rows row_keys
  insert_rows_lem batch pk bi row zero latest = refl
  insert_rows_lem batch pk bi row (suc n) latest =
      >>=_congr (pk_key batch pk row) _ _ (λ key.
        insert_rows_lem batch pk bi (suc row) n (insert_latest key (bi, row) latest)
        ∙ sym (>>=_assoc (row_keys batch pk (upto (suc row) n)) (λ keys. ok (key ∷ keys)) _))
      ∙ sym (>>=_assoc (pk_key batch pk row) _ _)

  insert_batches_lem :
      (batches : List (Batch F)) (pk : List ℕ) (bi : ℕ) (latest : Latest)
      → insert_batches batches pk bi latest
        ≡ (batch_keys batches pk >>= λ kss. ok (insert_all (all_entries bi kss) latest))
  unfolding insert_batches batch_keys
  insert_batches_lem [] pk bi latest = refl
  insert_batches_lem (batch ∷ batches) pk bi latest =
      ap (λ r. r >>= λ more. insert_batches batches pk (suc bi) more)
        (insert_rows_lem batch pk bi 0 batch.num_rows latest)
      ∙ >>=_assoc (row_keys batch pk (upto 0 batch.num_rows)) _ _
      ∙ >>=_congr (row_keys batch pk (upto 0 batch.num_rows)) _ _ (λ keys.
        insert_batches_lem batches pk (suc bi) (insert_all (entries_of bi 0 keys) latest)
        ∙ >>=_congr (batch_keys batches pk) _ _ (λ kss.
          ap ok (sym (insert_all-append (entries_of bi 0 keys) (all_entries (suc bi) kss) latest)))
        ∙ sym (>>=_assoc (batch_keys batches pk) (λ kss. ok (keys ∷ kss)) _))
      ∙ sym (>>=_assoc (row_keys batch pk (upto 0 batch.num_rows)) _ _)

  length-batch_keys :
      (batches : List (Batch F)) (pk : List ℕ) {kss : List (List Bytes)}
      → batch_keys batches pk ≡ ok kss
      → length kss ≡ length batches
  unfolding batch_keys
  length-batch_keys [] pk {kss} h = ap length (sym (ok_injective h))
  length-batch_keys (batch ∷ batches) pk {kss} h =
      let rows = >>=-eq-ok (row_keys batch pk (upto 0 batch.num_rows)) _ h in
      let rest = >>=-eq-ok (batch_keys batches pk) _ rows.2 in
      ap length (sym (ok_injective rest.2)) ∙ ap suc (length-batch_keys batches pk rest.1)

-- The positions that are pushed, whatever the order of the map's values.
winners :
    (into_order : List Position → List Position) (kss : List (List Bytes))
    → ((ps : List Position) → Perm (into_order ps) ps)
    → push_rows
        (sort_positions (into_order (values (insert_all (all_entries 0 kss) []))))
        (replicate (length kss) [])
      ≡ last_wins kss
winners into_order kss order =
    ap (λ ps. push_rows ps (replicate (length kss) []))
      (sort_of_perm (Perm.trans (order _) (insert_all-perm (all_entries 0 kss) []))
        ∙ sort_of_IsAscending _ (survivors-IsAscending (all_entries 0 kss) (all-IsAscending 0 kss)))
    ∙ push_all [] kss

agree :
    {S T : Type 0} (r : Result S) (f g : S → Result T)
    → ((s : S) → r ≡ ok s → f s ≡ g s)
    → (r >>= f) ≡ (r >>= g)
agree (err e) f g same = refl
agree (ok s) f g same = same s refl

-- Whatever the order in which the hash map gives out its values, `dedup_last_wins` computes what its
-- reference computes from the keys of all rows: for each batch, in ascending order, the rows whose key
-- no later row of the file has; and where a key cannot be computed it is the same error.
pub dedup_last_wins-last_wins :
    {F : Type 0} (into_order : List Position → List Position) (batches : List (Batch F))
    (pk : List ℕ)
    → ((ps : List Position) → Perm (into_order ps) ps)
    → dedup_last_wins into_order batches pk ≡ (batch_keys batches pk >>= λ kss. ok (last_wins kss))
unfolding dedup_last_wins
dedup_last_wins-last_wins into_order batches pk order =
    ap
      (λ r. r >>= λ latest.
        ok
          (push_rows (sort_positions (into_order (values latest))) (replicate (length batches) [])))
      (insert_batches_lem batches pk 0 [])
    ∙ >>=_assoc (batch_keys batches pk) _ _
    ∙ agree (batch_keys batches pk) _ _ (λ kss e.
      ap
        (λ n. ok (
          push_rows (sort_positions (into_order (values (insert_all (all_entries 0 kss) []))))
            (replicate n [])))
        (sym (length-batch_keys batches pk e))
      ∙ ap ok (winners into_order kss order))
