-- ===== src/Notify/Submit.antt =====
-- src/notify.rs: `submit` and the turn of `notify_loop` that calls it. The server is a function from the
-- job it is sent to its answer; a text is its code points.
pub mod Announced
pub mod Board
pub mod Turn
use relyt_ingest.Common.{
  ℕ, ◌≡◌, refl, ◌⊎◌, inl, inr, Bool, true, false, Option, none, some, List, [], ◌∷◌, ◌*◌, min,
  if◌then◌else◌, ◌||◌, sym, ap,
}
use relyt_ingest.Common.Int.{ℤ}
use relyt_ingest.Common.Text.{Bytes, codes}
use relyt_ingest.Errors.{
  DbError, PgError, SqlState, unique_violation, exclusion_violation, undefined_function,
  insufficient_privilege, other_state,
}
use relyt_ingest.Config.{StagingConfig}
use relyt_ingest.Staging.{StagingLive}
use relyt_ingest.Notify.{
  NotifyRequest, LoopState, Attempt, connect_failed, submit_failed, accepted, idempotent,
  contract_violation, attempt_on, confirm, violate, retry,
}
use relyt_ingest.Notify.Options.{build_copy_options}

-- The parameters of `zdb_add_async_load_job`, in its order.
pub record Job : Type 0 where
  pub identifier : Bytes
  pub external : ℕ
  pub status : ℕ
  pub version : ℕ
  pub source_type : ℕ
  pub source_url : Bytes
  pub target_type : ℕ
  pub target : ℕ
  pub priority : ℕ
  pub options : Bytes
  pub msg : Option Bytes
  pub source_detail : Option Bytes
  pub serial_group : Bytes
  pub serial_seq : ℤ
  pub retry_max : Option ℤ

unfoldable pub job_of : StagingConfig → NotifyRequest → Job
unfolding build_copy_options
job_of cfg req = record {
  identifier = req.identifier;
  external = 4;
  status = 2;
  version = 1;
  source_type = 1;
  source_url = req.source_url;
  target_type = 3;
  target = req.target;
  priority = 1;
  options = build_copy_options cfg.access_key_id cfg.secret_access_key req.delimiter req.upsert;
  msg = none;
  source_detail = none;
  serial_group = req.serial_group;
  serial_seq = req.serial_seq;
  retry_max = req.retry_max;
}

-- A row, or an error.
pub data Reply : Type 0 where
  row : Reply
  failed : PgError → Reply

abbrev pub db_outcome : DbError → SqlState → Attempt
db_outcome db unique_violation = idempotent
db_outcome db exclusion_violation = contract_violation (codes db.message)
db_outcome db _ = submit_failed

abbrev pub error_outcome : Option DbError → Attempt
error_outcome none = submit_failed
error_outcome (some db) = db_outcome db db.code

abbrev pub outcome : Reply → Attempt
outcome row = accepted
outcome (failed e) = error_outcome e.as_db_error

unfoldable pub submit :
    {Store : Type 0} → (Job → Reply) → NotifyRequest → StagingLive Store → Attempt
unfolding job_of
submit server req live = outcome (server (job_of live.cfg req))

-- What the turn on a request comes to: it connects where there is no connection, and then submits.
abbrev pub attempted :
    {Store : Type 0} → Bool → (Job → Reply) → StagingLive Store → Bool → NotifyRequest → Attempt
attempted can_connect server live connected req =
    if connected || can_connect then submit server req live else connect_failed

turn_on :
    {Store : Type 0}
    → Bool
    → (Job → Reply)
    → StagingLive Store
    → Bool
    → LoopState
    → List NotifyRequest
    → LoopState
unfolding submit attempt_on
turn_on can_connect server live connected l [] = l
turn_on can_connect server live connected l (req ∷ rest) =
    attempt_on l req rest (attempted can_connect server live connected req)

unfoldable pub turn :
    {Store : Type 0} → Bool → (Job → Reply) → StagingLive Store → LoopState → LoopState
unfolding turn_on
turn can_connect server live l = turn_on can_connect server live l.connected l l.queue

abbrev pub code_in : Option DbError → Option SqlState
code_in none = none
code_in (some db) = some db.code
