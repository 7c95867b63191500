-- ===== src/Render/Contents.antt =====
-- src/table.rs: what the loader reads in a rendered file.
use mathlib.Core.Path.{subst}
use mathlib.Core.List.{Perm}
use relyt_ingest.Common.{
  ℕ, suc, ◌+◌, ◌≤◌, ◌≡◌, refl, sym, ap, ◌∙◌, arith, All, Option, some, List, [], ◌∷◌, ◌++◌, map,
  length, append_assoc, append-nil,
}
use relyt_ingest.Common.Text.{Bytes}
use relyt_ingest.Errors.{Result, ok, >>=-eq-ok, ok_injective}
use relyt_ingest.Arrow.{Batch}
use relyt_ingest.Csv.{format_rows, header}
use relyt_ingest.Csv.Plain.{ArePlain}
use relyt_ingest.Csv.Reader.{read_records, then_record}
use relyt_ingest.Csv.RoundTrip.{format_rows_reads, read-header, column_names}
use relyt_ingest.Csv.Fields.{IsDelimiter, record_at, then_records}
use relyt_ingest.Dedup.{Position, dedup_last_wins}
use relyt_ingest.Dedup.Reference.{last_wins, batch_keys}
use relyt_ingest.Dedup.LastWins.{dedup_last_wins-last_wins}
use relyt_ingest.Render.{kept_rows, render_all, render}

module _ {F : Type 0} (df : F → Bytes) where
  -- The records of the kept rows, batch by batch.
  abbrev pub records_of : List (Batch F) → List (List ℕ) → List (List (Option Bytes))
  records_of [] keep = []
  records_of (batch ∷ batches) [] = []
  records_of (batch ∷ batches) (rows ∷ keep) =
      map (record_at df batch.columns) rows ++ records_of batches keep

then_records-append :
    (xs ys : List (List (Option Bytes))) (o : Option (List (List (Option Bytes))))
    → then_records (xs ++ ys) o ≡ then_records xs (then_records ys o)
then_records-append [] ys o = refl
then_records-append (x ∷ xs) ys o = rw (then_records-append xs ys o)

then_records_nil : (xs : List (List (Option Bytes))) → then_records xs (some []) ≡ some xs
then_records_nil [] = refl
then_records_nil (x ∷ xs) = rw (then_records_nil xs)

-- What a text reads as, in front of any other.
abbrev pub Reads : ℕ → ℕ → ℕ → Bytes → List (List (Option Bytes)) → Type 0
Reads d w total text records =
    (count : ℕ) (rest : Bytes)
    → read_records d w (total + count) (text ++ rest)
      ≡ then_records records (read_records d w count rest)

Reads-append :
    (d w m n : ℕ) (s t : Bytes) (xs ys : List (List (Option Bytes)))
    → Reads d w m s xs
    → Reads d w n t ys
    → Reads d w (m + n) (s ++ t) (xs ++ ys)
Reads-append d w m n s t xs ys hs ht count rest =
    ap (λ k. read_records d w k ((s ++ t) ++ rest)) (plus_assoc m n count)
    ∙ ap (read_records d w (m + (n + count))) (append_assoc s t rest)
    ∙ hs (n + count) (t ++ rest)
    ∙ ap (then_records xs) (ht count rest)
    ∙ sym (then_records-append xs ys (read_records d w count rest))
  where
    plus_assoc : (a b c : ℕ) → (a + b) + c ≡ a + (b + c)
    plus_assoc a b c = omega arith

nothing-Reads :
    (d w : ℕ) (body : Bytes) (kept : ℕ) {file : Bytes} {total : ℕ}
    → ◌≡◌ {A = Result (Bytes × ℕ)} (ok (body, kept)) (ok (file, total))
    → (text : Bytes) × (new : ℕ) × (file ≡ body ++ text)
      × (total ≡ kept + new)
      × Reads d w new text []
nothing-Reads d w body kept done =
    let same = ok_injective done in
    (
      [],
      0,
      sym (ap (λ p. p.0) same) ∙ sym (append-nil body),
      omega (arith, sym (ap (λ p. p.1) same)),
      λ count rest. ap (λ k. read_records d w k rest) (omega arith),
    )

module _ {F : Type 0} (df : F → Bytes) (float : (v : F) → ArePlain (df v)) (d w : ℕ) where
  render_all-Reads :
      (batches : List (Batch F)) (keep : List (List ℕ)) (body : Bytes) (kept : ℕ) {file : Bytes}
      {total : ℕ}
      → IsDelimiter d
      → 1 ≤ w
      → All (λ (b : Batch F). length b.columns ≡ w) batches
      → render_all df d batches keep body kept ≡ ok (file, total)
      → (text : Bytes) × (new : ℕ) × (file ≡ body ++ text)
        × (total ≡ kept + new)
        × Reads d w new text (records_of df batches keep)
  unfolding render_all
  render_all-Reads [] keep body kept hd hw widths done = nothing-Reads d w body kept done
  render_all-Reads (batch ∷ batches) [] body kept hd hw widths done =
      nothing-Reads d w body kept done
  render_all-Reads (batch ∷ batches) (rows ∷ keep) body kept hd hw widths done =
      let (more, first, rest) = >>=-eq-ok (format_rows df d batch rows body) _ done in
      let (s, grown, reads) =
        format_rows_reads df d batch rows body float hd (omega (arith, widths.0, hw)) first in
      let (t, new, ends, count, others) =
        render_all-Reads batches keep more (kept + length rows) hd hw widths.1 rest in
      (
        s ++ t,
        length rows + new,
        ends ∙ ap (λ z. z ++ t) grown ∙ append_assoc body s t,
        omega (arith, count),
        Reads-append d w (length rows) new s t (map (record_at df batch.columns) rows)
            (records_of df batches keep)
            (subst (λ n. Reads d n (length rows) s (map (record_at df batch.columns) rows)) widths.0
              reads)
            others,
      )

read_none : (d w : ℕ) → read_records d w 0 [] ≡ some []
unfolding read_records
read_none d w = refl

to_count : (total new : ℕ) → total ≡ 0 + new → total ≡ new + 0
to_count total new h = omega (arith, h)

kept_rows-some :
    {F : Type 0} (into_order : List Position → List Position) (batches : List (Batch F))
    (pk : List ℕ) {keep : List (List ℕ)}
    → kept_rows into_order batches (some pk) ≡ ok keep
    → dedup_last_wins into_order batches pk ≡ ok keep
unfolding kept_rows
kept_rows-some into_order batches pk h = h

-- A rendered file, read by the loader, is a record of the column names and after it one record for each
-- row that `kept_rows` selects, in their order, as many as `render` counts: each field is its cell's text without
-- NULs, and NULL is told apart. The delimiter is not the quote, each batch has a column for every name,
-- there is at least one, and floats are printed without quotes and NULs.
pub render-kept_rows :
    {F : Type 0} (into_order : List Position → List Position) (df : F → Bytes)
    (batches : List (Batch F)) (pk : Option (List ℕ)) (name : Bytes) (names : List Bytes) (d : ℕ)
    {file : Bytes} {total : ℕ}
    → ((v : F) → ArePlain (df v))
    → IsDelimiter d
    → All (λ (b : Batch F). length b.columns ≡ length (name ∷ names)) batches
    → render into_order df batches pk (name ∷ names) d ≡ ok (file, total)
    → (keep : List (List ℕ)) × (kept_rows into_order batches pk ≡ ok keep)
      × (read_records d (length (name ∷ names)) (suc total) file
          ≡ some (column_names (name ∷ names) ∷ records_of df batches keep))
unfolding render
render-kept_rows into_order df batches pk name names d {file} {total} float hd widths done =
    let w = length (name ∷ names) in
    let (keep, kept, rest) = >>=-eq-ok (kept_rows into_order batches pk) _ done in
    let (text, new, ends, count, reads) =
      render_all-Reads df float d w batches keep (header d (name ∷ names)) 0 hd (omega arith) widths
        rest in
    let records = records_of df batches keep in
    (
      keep,
      kept,
      ap (λ z. read_records d w (suc total) z)
            (ends ∙ ap (λ z. header d (name ∷ names) ++ z) (sym (append-nil text)))
          ∙ ap (λ k. read_records d w (suc k) (header d (name ∷ names) ++ (text ++ [])))
              (to_count total new count)
          ∙ read-header d (new + 0) name names (text ++ []) hd
          ∙ ap (then_record (column_names (name ∷ names)))
              (reads 0 [] ∙ ap (then_records records) (read_none d w) ∙ then_records_nil records),
    )

-- Under a primary key, a rendered file, read by the loader, is a record of the column names and after it
-- one record for each row whose key no later row of the file has, in the order of the rows: the rows that
-- `last_wins` picks from the keys of all rows, which were all computed. The hash map may give out its
-- values in any order; the delimiter is not the quote, each batch has a column for every name, there is at
-- least one, and floats are printed without quotes and NULs.
pub render-last_wins :
    {F : Type 0} (into_order : List Position → List Position) (df : F → Bytes)
    (batches : List (Batch F)) (pk : List ℕ) (name : Bytes) (names : List Bytes) (d : ℕ)
    {file : Bytes} {total : ℕ}
    → ((ps : List Position) → Perm (into_order ps) ps)
    → ((v : F) → ArePlain (df v))
    → IsDelimiter d
    → All (λ (b : Batch F). length b.columns ≡ length (name ∷ names)) batches
    → render into_order df batches (some pk) (name ∷ names) d ≡ ok (file, total)
    → (keys : List (List Bytes)) × (batch_keys batches pk ≡ ok keys)
      × (read_records d (length (name ∷ names)) (suc total) file
          ≡ some (column_names (name ∷ names) ∷ records_of df batches (last_wins keys)))
render-last_wins into_order df batches pk name names d order float hd widths done =
    let (keep, kept, reads) =
      render-kept_rows into_order df batches (some pk) name names d float hd widths done in
    let (keys, found, same) = >>=-eq-ok (batch_keys batches pk) _ (
      sym (dedup_last_wins-last_wins into_order batches pk order)
      ∙ kept_rows-some into_order batches pk kept) in
    (
      keys,
      found,
      reads
          ∙ ap (λ k. some (column_names (name ∷ names) ∷ records_of df batches k))
              (sym (ok_injective same)),
    )
