-- ===== src/Render.antt =====
-- src/table.rs: `render`, which turns the rows of a sealed file into its text. The measured average only
-- reserves memory and is left out.
pub mod Contents
pub mod Tests
use relyt_ingest.Common.{ℕ, suc, zero, ◌+◌, Option, none, some, List, [], ◌∷◌, ◌++◌, map, length}
use relyt_ingest.Common.Text.{Bytes}
use relyt_ingest.Errors.{Result, ok, err, ◌>>=◌}
use relyt_ingest.Arrow.{Batch}
use relyt_ingest.Csv.{format_rows, header}
use relyt_ingest.Dedup.{Position, upto, dedup_last_wins}

module _ {F : Type 0} where
  -- An insert-only stream has no key and keeps every row.
  unfoldable pub kept_rows :
      (List Position → List Position) → List (Batch F) → Option (List ℕ) → Result (List (List ℕ))
  unfolding dedup_last_wins
  kept_rows into_order batches none = ok (map (λ batch. upto 0 batch.num_rows) batches)
  kept_rows into_order batches (some pk) = dedup_last_wins into_order batches pk

  unfoldable pub render_all :
      (F → Bytes) → ℕ → List (Batch F) → List (List ℕ) → Bytes → ℕ → Result (Bytes × ℕ)
  unfolding format_rows
  render_all display_float delimiter [] keep body kept = ok (body, kept)
  render_all display_float delimiter (batch ∷ batches) [] body kept = ok (body, kept)
  render_all display_float delimiter (batch ∷ batches) (rows ∷ keep) body kept =
      format_rows display_float delimiter batch rows body >>= λ more.
      render_all display_float delimiter batches keep more (kept + length rows)

  unfoldable pub render :
      (List Position → List Position)
      → (F → Bytes)
      → List (Batch F)
      → Option (List ℕ)
      → List Bytes
      → ℕ
      → Result (Bytes × ℕ)
  unfolding kept_rows render_all header
  render into_order display_float batches pk names delimiter =
      kept_rows into_order batches pk >>= λ keep.
      render_all display_float delimiter batches keep (header delimiter names) 0
