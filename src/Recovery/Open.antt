-- ===== src/Recovery/Open.antt =====
-- src/client.rs, `open_table_locked`: what a session is opened with. The answers of the store and of
-- the server are arguments, in the order in which the source asks for them; its log is left out.
pub mod Anchors
pub mod Session
use relyt_ingest.Common.{
  ℕ, Bool, true, false, not, ◌&&◌, ◌||◌, Option, none, some, List, [], ◌∷◌, ◌++◌, ltb, ◌==◌,
  is_empty, if◌then◌else◌,
}
use relyt_ingest.Common.Int.{ℤ, pos, negsuc, next_i64, prev_i64, max_ℤ}
use relyt_ingest.Common.Text.{Bytes, bytes_eq, codes}
use relyt_ingest.Errors.{
  Error, PgError, DbError, SqlState, undefined_function, config, database, Result, ok, err, ◌>>=◌,
  ◌>>◌, guard,
}
use relyt_ingest.Naming.{
  WriterIdentity, StagedFile, serial_group, serial_seq, identifier, object_key, encode_serial_seq,
  decode_serial_seq,
}
use relyt_ingest.State.{StateFile, state_version}
use relyt_ingest.Notify.{NotifyRequest, NotifyState, clear_fatal}
use relyt_ingest.Recovery.{RecoveryPlan, plan_recovery, next_epoch}

-- `split_once`, and what `split_qualified` makes of it.
unfoldable pub split_once : ℕ → Bytes → Option (Bytes × Bytes)
split_once sep [] = none
split_once sep (c ∷ s) =
    let rest = split_once sep s in
    if c == sep then some ([], s) else elim rest [ none ↦ none | some (a, b) ↦ some (c ∷ a, b) ]

unfoldable pub split_qualified : Bytes → Result (Bytes × Bytes)
unfolding split_once
split_qualified table = named (split_once b'.' table)
  where
    named : Option (Bytes × Bytes) → Result (Bytes × Bytes)
    named none = ok (codes "public", table)
    named (some (s, t)) =
        if not (is_empty s) && not (is_empty t) then ok (s, t) else err (config "bad table name")

abbrev pub is_undefined : SqlState → Bool
is_undefined undefined_function = true
is_undefined _ = false

abbrev pub is_undefined_function : PgError → Bool
is_undefined_function e = elim e.as_db_error [ none ↦ false | some db ↦ is_undefined db.code ]

-- The answer to the watermark query.
pub data Answer : Type 0 where
  row : Option ℤ → Answer
  failed : PgError → Answer

-- A server without the function has no watermark.
unfoldable pub read_watermark : Answer → Result (Option ℤ)
read_watermark (row w) = ok w
read_watermark (failed e) = if is_undefined_function e then ok none else err (database e)

unfoldable pub check_state : WriterIdentity → Bytes → Option StateFile → Result (Unit {0})
check_state ident db none = ok tt
check_state ident db (some st) =
    guard
      (bytes_eq st.cluster_id ident.cluster_id
        && bytes_eq st.writer_id ident.writer_id
        && bytes_eq st.database db)
      (config "two clusters/databases are sharing one staging prefix")

abbrev pub recorded : Option StateFile → Option ℤ
recorded none = none
recorded (some st) = st.resume_offset

-- The greater of the position from the listing and the one after the recorded offset.
unfoldable pub merge_resume : Option ℤ → Option ℤ → Option ℤ
merge_resume listed none = listed
merge_resume none (some rec) = some (next_i64 rec)
merge_resume (some v) (some rec) = some (max_ℤ v (next_i64 rec))

abbrev pub pair_ltb : ℕ × ℕ → ℕ × ℕ → Bool
pair_ltb (e, s) (e', s') = ltb e e' || (e == e' && ltb s s')

abbrev pub anchor_mark : Option (ℕ × ℕ) → Option (ℕ × ℕ) → Option (ℕ × ℕ)
anchor_mark anchor none = anchor
anchor_mark none (some mark) = some mark
anchor_mark (some a) (some mark) = if pair_ltb a mark then some mark else some a

abbrev pub anchor_state : Option (ℕ × ℕ) → Option StateFile → Option (ℕ × ℕ)
anchor_state anchor none = anchor
anchor_state none (some st) = some (st.max_epoch_used, 0)
anchor_state (some (e, s)) (some st) =
    if ltb e st.max_epoch_used then some (st.max_epoch_used, 0) else some (e, s)

abbrev pub decoded : Option ℤ → Option (ℕ × ℕ)
decoded none = none
decoded (some w) = some (decode_serial_seq w)

-- The highest pair that anything remembers: staging, the watermark, the state.
unfoldable pub anchor_of : Option (ℕ × ℕ) → Option ℤ → Option StateFile → Option (ℕ × ℕ)
anchor_of max_staged watermark state =
    anchor_state (anchor_mark max_staged (decoded watermark)) state

-- The parts of the configuration that a request carries.
pub record Settings : Type 0 where
  pub url_base : Bytes
  pub delimiter : ℕ
  pub upsert : Bool
  pub retry_max : Option ℤ

abbrev pub or_endless : Option ℤ → Option ℤ
or_endless none = some (negsuc 0)
or_endless (some n) = some n

unfoldable pub request_of : Settings → WriterIdentity → StagedFile → Result NotifyRequest
unfolding identifier serial_seq
request_of cfg ident f = do
  id ← identifier f ident
  seq ← serial_seq f
  ok (record {
    serial_group = serial_group ident;
    end_offset = f.end_offset;
    identifier = id;
    source_url = cfg.url_base ++ b'/' ∷ object_key f ident;
    target = ident.rel_oid;
    delimiter = cfg.delimiter;
    upsert = cfg.upsert;
    serial_seq = seq;
    retry_max = or_endless cfg.retry_max;
  })

unfoldable pub requests_of :
    Settings → WriterIdentity → Result (Unit {0}) → List StagedFile → Result (List NotifyRequest)
unfolding request_of
requests_of cfg ident enqueued [] = ok []
requests_of cfg ident enqueued (f ∷ fs) = do
  req ← request_of cfg ident f
  enqueued
  reqs ← requests_of cfg ident enqueued fs
  ok (req ∷ reqs)

-- What the outside answers: the read of the state, the name of the database, the watermark query,
-- the listing, the clock, the write of the new state, and the answer of the writer's queue to a request.
pub record Answers : Type 0 where
  pub state : Result (Option StateFile)
  pub database_name : Result Bytes
  pub watermark : Answer
  pub listing : Result (List StagedFile)
  pub now_ms : ℕ
  pub written : Result (Unit {0})
  pub enqueued : Result (Unit {0})

pub record Opened : Type 0 where
  pub plan : RecoveryPlan
  pub epoch : ℕ
  pub state_written : StateFile
  pub requests : List NotifyRequest
  pub staged_offset : Option ℤ

abbrev pub before_offset : Option ℤ → Option ℤ
before_offset none = none
before_offset (some o) = some (prev_i64 o)

-- What the session knows once the listing is planned.
pub record Known : Type 0 where
  pub state : Option StateFile
  pub schema_name : Bytes
  pub table_name : Bytes
  pub db : Bytes
  pub watermark : Option ℤ
  pub plan : RecoveryPlan

unfoldable pub merged_plan : Known → RecoveryPlan
unfolding merge_resume
merged_plan k = record (k.plan) {
  kafka_resume_offset = merge_resume (k.plan.kafka_resume_offset) (recorded k.state);
}

unfoldable pub epoch_of : Known → ℕ → ℕ
unfolding anchor_of
epoch_of k now_ms = next_epoch now_ms (anchor_of (k.plan.max_staged) k.watermark k.state)

unfoldable pub new_state : WriterIdentity → Known → ℕ → StateFile
unfolding epoch_of
new_state ident k now_ms = record {
  v = state_version;
  resume_offset = recorded k.state;
  max_epoch_used = epoch_of k now_ms;
  cluster_id = ident.cluster_id;
  database = k.db;
  schema = k.schema_name;
  table = k.table_name;
  writer_id = ident.writer_id;
  updated_at_ms = now_ms;
}

unfoldable pub opened : WriterIdentity → Known → ℕ → List NotifyRequest → Opened
unfolding merged_plan epoch_of new_state
opened ident k now_ms requests = record {
  plan = merged_plan k;
  epoch = epoch_of k now_ms;
  state_written = new_state ident k now_ms;
  requests = requests;
  staged_offset = before_offset ((merged_plan k).kafka_resume_offset);
}

-- From the listing to the writer: the encoding is checked before the state is written, and the
-- requests are made after that.
unfoldable pub start_session : WriterIdentity → Settings → Known → Answers → Result Opened
unfolding epoch_of requests_of opened
start_session ident cfg k a = do
  first ← encode_serial_seq (epoch_of k a.now_ms) 0
  a.written
  requests ← requests_of cfg ident a.enqueued (k.plan.backfill)
  ok (opened ident k a.now_ms requests)

unfoldable pub open_session : Bytes → WriterIdentity → Settings → Answers → Result Opened
unfolding split_qualified read_watermark check_state plan_recovery start_session
open_session table ident cfg a = do
  state ← a.state
  names ← split_qualified table
  db ← a.database_name
  check_state ident db state
  watermark ← read_watermark a.watermark
  staged ← a.listing
  plan ← (plan_recovery staged watermark).1
  start_session ident cfg
      (record {
        state = state;
        schema_name = names.0;
        table_name = names.1;
        db = db;
        watermark = watermark;
        plan = plan;
      })
      a

-- A contract violation of a previous writer of the stream is forgotten first, whatever follows.
unfoldable pub open_table_locked :
    Bytes → WriterIdentity → Settings → NotifyState → Answers → NotifyState × Result Opened
unfolding open_session clear_fatal
open_table_locked table ident cfg board a =
    ((clear_fatal (serial_group ident) board).1, open_session table ident cfg a)
