-- ===== src/Pipeline/Stages.antt =====
-- src/table.rs: the bodies of the three stages, and what they hand on.
pub mod Prefix
pub mod Staged
use relyt_ingest.Common.{
  ℕ, Bool, ◌||◌, true, false, Option, none, some, List, [], ◌∷◌, ◌++◌, map, ltb, length,
  if◌then◌else◌,
}
use relyt_ingest.Common.Int.{ℤ, negsuc}
use relyt_ingest.Common.Text.{Bytes}
use relyt_ingest.Errors.{Error, storage, permission_denied, Result, ok, err, ◌>>=◌, ◌>>◌}
use relyt_ingest.Arrow.{Batch}
use relyt_ingest.Dedup.{Position}
use relyt_ingest.Render.{render}
use relyt_ingest.Schema.{TableSchema, IndexOf, pk_indices}
use relyt_ingest.Progress.{land}
use relyt_ingest.Notify.{NotifyRequest}
use relyt_ingest.Writer.{FileMeta, Sealed, WriterState, record_durable}
use relyt_ingest.Writer.Order.{check_order}
use relyt_ingest.Stopping.{Shared, Happening, happen_all, trip_order_fatal}
use relyt_ingest.Pipeline.{
  Look, Try, Verdict, done, ended, unfinished, StageTask, look_in, attempts,
}

pub record Rendered : Type 0 where
  pub meta : FileMeta
  pub body : Bytes
  pub rows : ℕ

pub record Compressed : Type 0 where
  pub meta : FileMeta
  pub payload : Bytes
  pub rows : ℕ
  pub bytes : ℕ
  pub stored_bytes : ℕ

-- A `while let` loop over what a channel delivers; the step says what it hands on, if it goes on.
module _ {Item Visit S Out : Type 0} (step : Item → Visit → S → S × Option Out) where
  abbrev pub go_on : S × Option Out → (S → S × List Out) → S × List Out
  go_on (s, none) rest = (s, [])
  go_on (s, some o) rest = ((rest s).0, o ∷ (rest s).1)

  unfoldable pub stage_run : List Item → List Visit → S → S × List Out
  stage_run [] vs s = (s, [])
  stage_run (x ∷ xs) [] s = (s, [])
  stage_run (x ∷ xs) (v ∷ vs) s = go_on (step x v s) (stage_run xs vs)

-- An attempt whose answer is worked on, by a stage that keeps hold of the writer for it or not.
abbrev pub with_answer : {A B : Type 0} → Bool → (Result A → Result B) → Try A → Try B
with_answer keeps_hold f t = record {
  look = t.look;
  during = t.during;
  answer = f t.answer;
  is_held = keeps_hold || t.is_held;
}

-- What a stage that hands a file on meets: its attempts, whether the writer is there to take the
-- measured width, and whether the next stage takes the file.
pub record Handing (A : Type 0) : Type 0 where
  pub tries : List (Try A)
  pub is_alive : Bool
  pub is_taken : Bool

abbrev pub handed : {T : Type 0} → Bool → T → Option T
handed is_taken o = if is_taken then some o else none

-- What rendering reads of the writer, the sort and the printing of floats being parameters.
pub record Renderer (F Avg : Type 0) : Type 0 where
  pub into_order : List Position → List Position
  pub display_float : F → Bytes
  pub measure : ℕ → ℕ → Avg
  pub is_upsert : Bool
  pub schema : TableSchema
  pub index_of : IndexOf
  pub names : List Bytes
  pub delimiter : ℕ

module _ {F Avg : Type 0} (r : Renderer F Avg) where
  abbrev pub key_columns : Result (Option (List ℕ))
  key_columns =
      if r.is_upsert then (pk_indices r.index_of r.schema >>= λ pk. ok (some pk)) else ok none

  -- The answer of the blocking task is an argument.
  unfoldable pub render_once : List (Batch F) → Result (Unit {0}) → Result (Bytes × ℕ)
  unfolding render pk_indices
  render_once batches joined = key_columns >>= λ pk.
      joined >> render r.into_order r.display_float batches pk r.names r.delimiter

module _ {F Avg : Type 0} (r : Renderer F Avg) (after : ℕ) where
  abbrev pub widened : Bool → ℕ → ℕ → Option Avg → Option Avg
  widened is_alive bytes rows avg =
      if ltb 0 rows then (if is_alive then some (r.measure bytes rows) else avg) else avg

  rendered :
      FileMeta
      → Handing (Unit {0})
      → Option Avg
      → Shared × Verdict (Bytes × ℕ)
      → (Shared × Option Avg) × Option Rendered
  rendered meta h avg (s, done (body, rows)) = (
    (s, widened h.is_alive (length body) rows avg),
    handed h.is_taken (record { meta = meta; body = body; rows = rows }),
  )
  rendered meta h avg (s, ended) = ((s, avg), none)
  rendered meta h avg (s, unfinished) = ((s, avg), none)

  unfoldable pub render_file :
      Sealed (Batch F)
      → Handing (Unit {0})
      → Shared × Option Avg
      → (Shared × Option Avg) × Option Rendered
  unfolding attempts render_once rendered
  render_file sealed h (s, avg) = rendered sealed.meta h avg (
      attempts (record { after = after; name = "render" }) sealed.meta.seq_no 0
        (map (with_answer true (render_once r sealed.batches)) h.tries) s)

  unfoldable pub render_stage :
      List (Sealed (Batch F))
      → List (Handing (Unit {0}))
      → Shared × Option Avg
      → (Shared × Option Avg) × List Rendered
  unfolding stage_run render_file
  render_stage = stage_run render_file

abbrev pub packed : Rendered → Bytes → Compressed
packed r payload = record {
  meta = r.meta;
  payload = payload;
  rows = r.rows;
  bytes = length r.body;
  stored_bytes = length payload;
}

-- The compressor, a library's, is a parameter; so is what its blocking task answers.
module _ (gzip : Bytes → Result Bytes) where
  abbrev pub gzip_once : Bytes → Result (Unit {0}) → Result Bytes
  gzip_once body joined = joined >> gzip body

module _ (gzip : Bytes → Result Bytes) (after : ℕ) where
  gzipped : Rendered → Bool → Shared × Verdict Bytes → Shared × Option Compressed
  gzipped r is_taken (s, done payload) = (s, handed is_taken (packed r payload))
  gzipped r is_taken (s, ended) = (s, none)
  gzipped r is_taken (s, unfinished) = (s, none)

  unfoldable pub gzip_file : Rendered → Handing (Unit {0}) → Shared → Shared × Option Compressed
  unfolding attempts gzipped
  gzip_file r h s =
      if r.meta.file.compressed
      then gzipped r h.is_taken (
          attempts (record { after = after; name = "gzip" }) r.meta.seq_no 0
            (map (with_answer false (gzip_once gzip r.body)) h.tries) s)
      else (s, handed h.is_taken (packed r r.body))

  unfoldable pub gzip_stage :
      List Rendered → List (Handing (Unit {0})) → Shared → Shared × List Compressed
  unfolding stage_run gzip_file
  gzip_stage = stage_run gzip_file
