-- ===== src/Pipeline/Put.antt =====
-- src/table.rs: `put_stage`, `put_once` and the request of `record_durable`. The store, the refresh of
-- managed credentials and the queue of the notifier answer through arguments.
pub mod Landing
pub mod Order
pub mod Durable
pub mod Delivery
use relyt_ingest.Common.{
  ℕ, ◌&&◌, not, String, Bool, true, false, Option, none, some, List, [], ◌∷◌, ◌++◌, map,
  if◌then◌else◌,
}
use relyt_ingest.Common.Int.{ℤ, negsuc}
use relyt_ingest.Common.Text.{Bytes}
use relyt_ingest.Errors.{Error, storage, permission_denied, Result, ok, err}
use relyt_ingest.Progress.{land}
use relyt_ingest.Notify.{NotifyRequest}
use relyt_ingest.Writer.{FileMeta, WriterState, record_durable}
use relyt_ingest.Writer.Order.{check_order}
use relyt_ingest.Stopping.{Shared, Happening, happen_all, trip_order_fatal}
use relyt_ingest.Pipeline.{
  Look, Try, Verdict, done, ended, unfinished, StageTask, look_in, attempts,
}
use relyt_ingest.Pipeline.Stages.{Compressed, stage_run, with_answer}

-- What one attempt meets: the store's answer, that of a refresh, and the store's after it.
pub record PutAnswers : Type 0 where
  pub first : Result (Unit {0})
  pub refreshed : Result Bool
  pub second : Result (Unit {0})

abbrev pub is_denied : Error → Bool
is_denied (storage permission_denied m) = true
is_denied _ = false

retried : Error → Result (Unit {0}) → Result Bool → Result (Unit {0})
retried e second (err failure) = err failure
retried e second (ok false) = err e
retried e second (ok true) = second

first_put : PutAnswers → Result (Unit {0}) → Result (Unit {0})
unfolding retried
first_put a (ok u) = ok u
first_put a (err e) = if is_denied e then retried e a.second a.refreshed else err e

unfoldable pub put_once : PutAnswers → Result (Unit {0})
unfolding first_put
put_once a = first_put a a.first

-- What the requests of one writer have in common.
pub record Announcer : Type 0 where
  pub serial_group : Bytes
  pub url_base : Bytes
  pub rel_oid : ℕ
  pub delimiter : ℕ
  pub is_upsert : Bool
  pub retry_max : Option ℤ

abbrev pub or_minus_one : Option ℤ → Option ℤ
or_minus_one none = some (negsuc 0)
or_minus_one (some n) = some n

unfoldable pub notify_request : Announcer → FileMeta → NotifyRequest
notify_request a meta = record {
  serial_group = a.serial_group;
  end_offset = meta.file.end_offset;
  identifier = meta.job;
  source_url = a.url_base ++ b'/' ∷ meta.key;
  target = a.rel_oid;
  delimiter = a.delimiter;
  upsert = a.is_upsert;
  serial_seq = meta.seq_no;
  retry_max = or_minus_one a.retry_max;
}

-- What the stage does to the outside: an object that is stored, a request in the queue of the
-- notifier, and a file that the progress shows as durable.
pub data Effect : Type 0 where
  stored : Bytes → Bytes → Effect
  announced : NotifyRequest → Effect
  landed : ℤ → Effect

-- `prev` is the last file made durable: its epoch, its seq and its end offset.
pub record PutState (Batch Avg : Type 0) : Type 0 where
  pub shared : Shared
  pub writer : WriterState Batch Avg
  pub prev : Option (ℕ × ℕ × ℤ)
  pub effects : List Effect

-- What the stage meets at a file: the look before anything, the attempts, the look once the object
-- is stored, what others do to the writer until then and to what is shared until the progress is
-- published, and whether the queue of the notifier is open.
pub record PutMeeting (Batch Avg : Type 0) : Type 0 where
  pub entry : Look
  pub tries : List (Try PutAnswers)
  pub after_put : Look
  pub meanwhile : WriterState Batch Avg → WriterState Batch Avg
  pub settling : List Happening
  pub is_open : Bool

abbrev pub key_of_file : FileMeta → ℕ × ℕ × ℤ
key_of_file meta = (meta.file.epoch_ms, meta.file.seq, meta.file.end_offset)

abbrev pub announcement : Announcer → FileMeta → Bool → List Effect
announcement a meta is_open = if is_open then announced (notify_request a meta) ∷ [] else []

abbrev pub answer_put : Result PutAnswers → Result (Unit {0})
answer_put (err e) = err e
answer_put (ok a) = put_once a

abbrev pub after_store : {Batch Avg : Type 0} → Compressed → PutState Batch Avg → PutState Batch Avg
after_store c s = record s { effects = s.effects ++ stored c.meta.key c.payload ∷ [] }

module _ {Batch Avg : Type 0} (a : Announcer) (after : ℕ) where
  abbrev pub stopped_with : PutState Batch Avg → Shared → PutState Batch Avg × Option FileMeta
  stopped_with s shared = (record s { shared = shared }, none)

  -- `record_durable` with its announcement, and then the progress.
  settled : Compressed → PutMeeting Batch Avg → PutState Batch Avg → PutState Batch Avg
  unfolding happen_all record_durable notify_request land
  settled c m s =
      let shared = happen_all after s.shared m.settling in
      record {
        shared = record shared { progress = land c.meta.seq_no shared.progress };
        writer = record_durable c.meta (m.meanwhile s.writer);
        prev = some (key_of_file c.meta);
        effects = s.effects ++ (announcement a c.meta m.is_open ++ landed c.meta.seq_no ∷ []);
      }

  landing :
      Compressed
      → PutMeeting Batch Avg
      → PutState Batch Avg
      → Shared × Bool
      → PutState Batch Avg × Option FileMeta
  unfolding settled
  landing c m s (shared, false) = stopped_with s shared
  landing c m s (shared, true) = (settled c m (record s { shared = shared }), some c.meta)

  putting :
      Compressed
      → PutMeeting Batch Avg
      → PutState Batch Avg
      → Shared × Verdict (Unit {0})
      → PutState Batch Avg × Option FileMeta
  unfolding landing look_in
  putting c m s (shared, ended) = stopped_with s shared
  putting c m s (shared, unfinished) = stopped_with s shared
  putting c m s (shared, done u) = landing c m (after_store c s) (look_in after m.after_put shared)

  checked :
      Compressed
      → PutMeeting Batch Avg
      → PutState Batch Avg
      → Shared
      → Option String
      → PutState Batch Avg × Option FileMeta
  unfolding putting attempts put_once trip_order_fatal
  checked c m s shared (some detail) = stopped_with s (trip_order_fatal after detail shared)
  checked c m s shared none = putting c m s (
      attempts (record { after = after; name = "put" }) c.meta.seq_no 0
        (map (with_answer true answer_put) m.tries) shared)

  entered :
      Compressed
      → PutMeeting Batch Avg
      → PutState Batch Avg
      → Shared × Bool
      → PutState Batch Avg × Option FileMeta
  unfolding checked check_order
  entered c m s (shared, false) = stopped_with s shared
  entered c m s (shared, true) = checked c m s shared (check_order s.prev c.meta.file)

  -- One turn of the stage; the file that it made durable, if it goes on.
  unfoldable pub put_file :
      Compressed → PutMeeting Batch Avg → PutState Batch Avg → PutState Batch Avg × Option FileMeta
  unfolding entered look_in
  put_file c m s = entered c m s (look_in after m.entry s.shared)

  unfoldable pub put_stage :
      List Compressed
      → List (PutMeeting Batch Avg)
      → PutState Batch Avg
      → PutState Batch Avg × List FileMeta
  unfolding stage_run put_file
  put_stage = stage_run put_file
