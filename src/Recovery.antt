-- ===== src/Recovery.antt =====
-- src/recovery.rs: what `open_table` concludes from the listing of the staging directory and the
-- server's watermark. The sort is one by insertion; the source's is not stable, so it promises no
-- order between files of one pair (epoch, seq), and nothing here rests on that order.
pub mod Sorting
pub mod Plan
pub mod Epoch
pub mod Open
pub mod Tests
use relyt_ingest.Common.{
  ℕ, ◌+◌, ◌^◌, ◌%◌, Bool, ◌&&◌, ◌||◌, Option, none, some, List, [], ◌∷◌, ltb, leb, ◌==◌,
  if◌then◌else◌, last, true,
}
use relyt_ingest.Common.Int.{ℤ, next_i64, max_ℤ, ltb_ℤ}
use relyt_ingest.Errors.{Result, ok, err, ◌>>=◌}
use relyt_ingest.Naming.{StagedFile, serial_seq}

pub record RecoveryPlan : Type 0 where
  pub kafka_resume_offset : Option ℤ
  pub backfill : List StagedFile
  pub max_staged : Option (ℕ × ℕ)

-- The order of the sort keys.
abbrev pub key_leb : StagedFile → StagedFile → Bool
key_leb f g = ltb f.epoch_ms g.epoch_ms || (f.epoch_ms == g.epoch_ms && leb f.seq g.seq)

unfoldable pub insert_by_key : StagedFile → List StagedFile → List StagedFile
insert_by_key f [] = f ∷ []
insert_by_key f (g ∷ gs) =
    let rest = insert_by_key f gs in if key_leb f g then f ∷ g ∷ gs else g ∷ rest

unfoldable pub sort_by_key : List StagedFile → List StagedFile
unfolding insert_by_key
sort_by_key [] = []
sort_by_key (f ∷ fs) = insert_by_key f (sort_by_key fs)

-- How many neighbours share a pair (epoch, seq): each is one warning in the log.
unfoldable pub duplicates : List StagedFile → ℕ
duplicates [] = 0
duplicates (f ∷ []) = 0
duplicates (f ∷ g ∷ fs) =
    (if f.epoch_ms == g.epoch_ms && f.seq == g.seq then 1 else 0) + duplicates (g ∷ fs)

-- `Iterator::max`
abbrev pub max_of : ℤ → Option ℤ → Option ℤ
max_of z none = some z
max_of z (some y) = some (max_ℤ z y)

unfoldable pub resume_of : List StagedFile → Option ℤ
resume_of [] = none
resume_of (f ∷ fs) = max_of (next_i64 f.end_offset) (resume_of fs)

abbrev pub key_of : Option StagedFile → Option (ℕ × ℕ)
key_of none = none
key_of (some f) = some (f.epoch_ms, f.seq)

-- `watermark.is_none_or(|w| seq > w)`
abbrev pub above : Option ℤ → ℤ → Bool
above none seq = true
above (some w) seq = ltb_ℤ w seq

unfoldable pub backfill_of : Option ℤ → List StagedFile → Result (List StagedFile)
unfolding serial_seq
backfill_of watermark [] = ok []
backfill_of watermark (f ∷ fs) =
    let rest = backfill_of watermark fs in
    serial_seq f >>= λ seq. if above watermark seq then (rest >>= λ kept. ok (f ∷ kept)) else rest

-- The number of warnings, and the plan.
unfoldable pub plan_recovery : List StagedFile → Option ℤ → ℕ × Result RecoveryPlan
unfolding sort_by_key duplicates resume_of backfill_of
plan_recovery staged watermark =
    let sorted = sort_by_key staged in
    (
      duplicates sorted,
      backfill_of watermark sorted >>= λ backfill. ok (record {
        kafka_resume_offset = resume_of sorted;
        backfill = backfill;
        max_staged = key_of (last sorted);
      }),
    )

-- `max_epoch + 1` is one of u64.
unfoldable pub next_epoch : ℕ → Option (ℕ × ℕ) → ℕ
next_epoch now_ms none = now_ms
next_epoch now_ms (some (max_epoch, seq)) =
    if leb now_ms max_epoch then (max_epoch + 1) % 2 ^ 64 else now_ms
