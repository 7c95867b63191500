-- ===== src/State.antt =====
-- src/state.rs: the object `state.json` that a writer keeps across its sessions. Its JSON form is
-- that of a library, and reading it back is a result of the store.
use relyt_ingest.Common.{ℕ, Option}
use relyt_ingest.Common.Int.{ℤ}
use relyt_ingest.Common.Text.{Bytes}

abbrev pub state_version : ℕ
state_version = 1

pub record StateFile : Type 0 where
  pub v : ℕ
  pub resume_offset : Option ℤ
  pub max_epoch_used : ℕ
  pub cluster_id : Bytes
  pub database : Bytes
  pub schema : Bytes
  pub table : Bytes
  pub writer_id : Bytes
  pub updated_at_ms : ℕ
