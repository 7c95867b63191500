-- ===== src/Dedup/Pushing.antt =====
-- src/dedup.rs: the positions grouped by batch.
use relyt_ingest.Common.{
  ℕ, ◌≡◌, refl, ap, ◌∙◌, List, [], ◌∷◌, ◌++◌, map, append_assoc, append-nil, length,
}
use relyt_ingest.Dedup.{Position, push_row, push_rows}

-- Pushed at its batch, every row of a batch stands behind those that are there.
pub push_rows-append :
    (ps qs : List Position) (keep : List (List ℕ))
    → push_rows (ps ++ qs) keep ≡ push_rows qs (push_rows ps keep)
unfolding push_rows
push_rows-append [] qs keep = refl
push_rows-append (p ∷ ps) qs keep = push_rows-append ps qs (push_row p.0 p.1 keep)

push_at :
    (done : List (List ℕ)) (row : ℕ) (rows : List ℕ) (more : List (List ℕ))
    → push_row (length done) row (done ++ rows ∷ more) ≡ done ++ (rows ++ row ∷ []) ∷ more
unfolding push_row
push_at [] row rows more = refl
push_at (d ∷ done) row rows more = rw (push_at done row rows more)

pub push_batch :
    (done : List (List ℕ)) (new rows : List ℕ) (more : List (List ℕ))
    → push_rows (map (λ r. (length done, r)) new) (done ++ rows ∷ more)
      ≡ done ++ (rows ++ new) ∷ more
unfolding push_rows
push_batch done [] rows more = rw (append-nil rows)
push_batch done (r ∷ new) rows more =
    ap (push_rows (map (λ s. (length done, s)) new)) (push_at done r rows more)
    ∙ push_batch done new (rows ++ r ∷ []) more
    ∙ ap (λ x. done ++ x ∷ more) (append_assoc rows (r ∷ []) new)
