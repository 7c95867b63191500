-- ===== src/Writer/Gc.antt =====
-- src/table.rs: `gc_pass`, the reclaiming of consumed staging objects. What the server, the listing,
-- the clock and each deletion answer is an argument.
pub mod Retained
pub mod Tests
pub mod Recovered
use relyt_ingest.Common.{
  ℕ, ◌+◌, ◌-◌, ◌*◌, Bool, true, false, ◌&&◌, Option, none, some, List, [], ◌∷◌, ltb, leb, keep_if,
  take, length, if◌then◌else◌,
}
use relyt_ingest.Common.Int.{ℤ, leb_ℤ}
use relyt_ingest.Common.Text.{Bytes}
use relyt_ingest.Errors.{Result, ok, err, is_ok}
use relyt_ingest.Naming.{StagedFile, serial_seq}
use relyt_ingest.Recovery.{sort_by_key}

pub record Retention : Type 0 where
  pub gc_retain_days : ℕ
  pub gc_retain_min_files : ℕ

-- What a pass meets: the control connection, the watermark of the group, the listing, the wall
-- clock, and the answer to the deletion of a file.
pub record GcMeeting : Type 0 where
  pub connected : Result (Unit {0})
  pub watermark : Result (Option ℤ)
  pub listing : Result (List StagedFile × List Bytes)
  pub now_ms : ℕ
  pub delete_staged : StagedFile → Result (Unit {0})

abbrev pub min_age_ms : Retention → ℕ
min_age_ms r = r.gc_retain_days * 24 * 3600 * 1000

abbrev pub is_consumed : ℤ → Result ℤ → Bool
is_consumed watermark (err e) = false
is_consumed watermark (ok seq) = leb_ℤ seq watermark

unfoldable pub is_deletable : Retention → ℤ → ℕ → StagedFile → Bool
unfolding serial_seq
is_deletable r watermark now_ms f =
    is_consumed watermark (serial_seq f) && ltb (min_age_ms r) (now_ms - f.epoch_ms)

-- The candidates among the sorted files: all but the newest, and no more than leave the minimum.
unfoldable pub deletable : Retention → ℤ → ℕ → List StagedFile → List StagedFile
unfolding is_deletable
deletable r watermark now_ms sorted =
    take (length sorted - r.gc_retain_min_files)
      (keep_if (is_deletable r watermark now_ms) (take (length sorted - 1) sorted))

-- The files whose deletion was asked for, and how many were deleted: the first failure ends it.
unfoldable pub delete_until_failure :
    (StagedFile → Result (Unit {0})) → List StagedFile → List StagedFile × ℕ
delete_until_failure delete_staged [] = ([], 0)
delete_until_failure delete_staged (f ∷ fs) =
    let rest = delete_until_failure delete_staged fs in
    if is_ok (delete_staged f) then (f ∷ rest.0, rest.1 + 1) else (f ∷ [], 0)

pass_sorted : Retention → GcMeeting → ℤ → List StagedFile → List StagedFile × ℕ
unfolding deletable delete_until_failure
pass_sorted r m watermark sorted =
    if leb (length sorted) r.gc_retain_min_files
    then ([], 0)
    else delete_until_failure m.delete_staged (deletable r watermark m.now_ms sorted)

pass_listed :
    Retention → GcMeeting → ℤ → Result (List StagedFile × List Bytes) → List StagedFile × ℕ
unfolding pass_sorted sort_by_key
pass_listed r m watermark (err e) = ([], 0)
pass_listed r m watermark (ok (staged, unknown)) = pass_sorted r m watermark (sort_by_key staged)

pass_connected : Retention → GcMeeting → Result (Option ℤ) → List StagedFile × ℕ
unfolding pass_listed
pass_connected r m (err e) = ([], 0)
pass_connected r m (ok none) = ([], 0)
pass_connected r m (ok (some watermark)) = pass_listed r m watermark m.listing

-- The files whose deletion was asked for, oldest first, and how many were deleted.
unfoldable pub gc_pass : Retention → GcMeeting → List StagedFile × ℕ
unfolding pass_connected
gc_pass r m = if is_ok m.connected then pass_connected r m m.watermark else ([], 0)
