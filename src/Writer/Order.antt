-- ===== src/Writer/Order.antt =====
-- src/table.rs, `check_order`: the tripwire of the put stage. The message is reduced to its head.
use relyt_ingest.Common.{
  ℕ, ◌+◌, ◌%◌, ◌^◌, ◌<◌, ◌≡◌, ◌↔◌, ◌⊎◌, String, Bool, ◌&&◌, Option, none, some, ltb, ◌==◌,
  if◌then◌else◌, arith,
}
use relyt_ingest.Common.Int.{ℤ}
use relyt_ingest.Naming.{StagedFile}

abbrev pub is_next : ℕ → ℕ → StagedFile → Bool
is_next epoch seq next =
    if next.epoch_ms == epoch
    then next.seq == (seq + 1) % 2 ^ 32
    else (ltb epoch next.epoch_ms && next.seq == 0)

-- The detail of a violation, if there is one; the last file is given by its epoch, seq and end.
unfoldable pub check_order : Option (ℕ × ℕ × ℤ) → StagedFile → Option String
check_order none next = none
check_order (some (epoch, seq, end)) next =
    if is_next epoch seq next then none else some "file reached the upload stage out of order"

-- The tripwire lets a file pass exactly where it is the first one, has the next seq of the same
-- epoch, or is the first of a later epoch.
pub check_order_iff :
    (epoch seq : ℕ) (end : ℤ) (next : StagedFile)
    → seq + 1 < 2 ^ 32
    → (check_order (some (epoch, seq, end)) next ≡ none) ↔ (
        ((next.epoch_ms ≡ epoch) × (next.seq ≡ seq + 1))
        ⊎ ((epoch < next.epoch_ms) × (next.seq ≡ 0)))
unfolding check_order
check_order_iff epoch seq end next fits = (λ h. ground arith, λ h. ground arith)
