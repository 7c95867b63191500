-- ===== src/Pipeline/Flush.antt =====
-- src/table.rs: `flush_pipeline`, `flush` and `close`. What other tasks do to the writer while a call
-- waits, the values of the progress that it sees, and the answers of the store are arguments.
pub mod Covered
pub mod Closing
use relyt_ingest.Common.{ℕ, Bool, true, false, Option, none, some, List, [], ◌∷◌, ◌++◌}
use relyt_ingest.Common.Int.{ℤ}
use relyt_ingest.Common.Text.{Bytes}
use relyt_ingest.Errors.{Error, Result, ok, err, ◌>>=◌, ◌>>◌}
use relyt_ingest.Naming.{WriterIdentity}
use relyt_ingest.State.{StateFile}
use relyt_ingest.Lock.Release.{Answer, release_lease}
use relyt_ingest.Progress.{Progress, await_durable}
use relyt_ingest.Writer.{WriterConfig, WriterState, Sealed, Clock}
use relyt_ingest.Writer.Handover.{Meeting, Outcome, seal_and_send}
use relyt_ingest.Writer.Persist.{Names, Tick, persist_state_if_due}

-- What a call of `flush` or `close` meets: the health at its first check, the hand-over, what other
-- tasks do to the state before its last sealed seq and before its offset is read, and the values of
-- the progress until the wait ends.
pub record FlushMeeting (Batch Avg : Type 0) : Type 0 where
  pub health : Option Error
  pub handover : Meeting
  pub before_target : WriterState Batch Avg → WriterState Batch Avg
  pub seen : List Progress
  pub before_offset : WriterState Batch Avg → WriterState Batch Avg

abbrev pub flush_target : Option ℤ → Option ℤ → Option ℤ
flush_target (some seq) last = some seq
flush_target none last = last

-- The first argument is `staging_error_after_attempts`.
unfoldable pub awaited : ℕ → Option ℤ → List Progress → Result (Unit {0})
unfolding await_durable
awaited after none seen = ok tt
awaited after (some target) seen = await_durable after target seen

-- What `close` does, in order: the state object it writes or tries to, the end of the wait for the
-- heartbeat, which is over in time or not, and the release of the lease, which leaves nothing or not.
pub data Act : Type 0 where
  wrote : StateFile → Act
  heartbeat_stopped : Bool → Act
  released : Bool → Act

abbrev pub writing : Option StateFile → List Act
writing none = []
writing (some file) = wrote file ∷ []

pub record Closed : Type 0 where
  pub result : Result (Option ℤ)
  pub acts : List Act

-- What a call of `close` meets after its flush: the tick of the state object, with what other tasks do to the
-- state meanwhile, whether the heartbeat ends within the 30 seconds, and the store's answers to the
-- three attempts at the release.
pub record CloseMeeting (Batch Avg : Type 0) : Type 0 where
  pub tick : Tick
  pub meanwhile : WriterState Batch Avg → WriterState Batch Avg
  pub is_joined : Bool
  pub first : Answer
  pub second : Answer
  pub third : Answer

module _ {Batch Avg : Type 0} (after : ℕ) (cfg : WriterConfig) (ident : WriterIdentity) where
  unfoldable pub flush_pipeline :
      Clock → FlushMeeting Batch Avg → WriterState Batch Avg → Outcome Batch Avg (Unit {0})
  unfolding seal_and_send awaited
  flush_pipeline clock f st =
      let o = seal_and_send cfg ident clock false f.handover st in
      let later = f.before_target o.state in
      record {
        state = later;
        result = o.result >>= λ seq. awaited after (flush_target seq later.last_sealed_seq) f.seen;
        sent = o.sent;
        progress = o.progress;
      }

  flushed :
      FlushMeeting Batch Avg
      → Outcome Batch Avg (Unit {0})
      → Result (Unit {0})
      → WriterState Batch Avg × Result (Option ℤ)
  flushed f o (err e) = (o.state, err e)
  flushed f o (ok u) = let later = f.before_offset o.state in (later, ok later.staged_offset)

  checked_flush :
      Clock
      → FlushMeeting Batch Avg
      → WriterState Batch Avg
      → Option Error
      → WriterState Batch Avg × Result (Option ℤ)
  unfolding flush_pipeline flushed
  checked_flush clock f st (some stopped) = (st, err stopped)
  checked_flush clock f st none = let o = flush_pipeline clock f st in flushed f o o.result

  unfoldable pub flush :
      Clock
      → FlushMeeting Batch Avg
      → WriterState Batch Avg
      → WriterState Batch Avg × Result (Option ℤ)
  unfolding checked_flush
  flush clock f st = checked_flush clock f st f.health

  closing :
      Names
      → ℕ
      → Bytes
      → CloseMeeting Batch Avg
      → FlushMeeting Batch Avg
      → Outcome Batch Avg (Unit {0})
      → Result (Unit {0})
      → Closed
  unfolding persist_state_if_due release_lease
  closing names heartbeat_every me c f o (err e) = record { result = err e; acts = [] }
  closing names heartbeat_every me c f o (ok u) =
      let (persisted, object) =
        persist_state_if_due ident names heartbeat_every c.tick c.meanwhile o.state in
      record {
        result = ok (f.before_offset persisted).staged_offset;
        acts =
            writing object
            ++ heartbeat_stopped c.is_joined
              ∷ released (release_lease me c.first c.second c.third)
              ∷ [];
      }

  checked_close :
      Names
      → ℕ
      → Bytes
      → CloseMeeting Batch Avg
      → Clock
      → FlushMeeting Batch Avg
      → WriterState Batch Avg
      → Option Error
      → Closed
  unfolding closing flush_pipeline
  checked_close names heartbeat_every me c clock f st (some stopped) = record {
    result = err stopped;
    acts = [];
  }
  checked_close names heartbeat_every me c clock f st none =
      let o = flush_pipeline clock f st in closing names heartbeat_every me c f o o.result

  -- The state object names the writer by `names`; `me` is its instance.
  unfoldable pub close :
      Names
      → ℕ
      → Bytes
      → CloseMeeting Batch Avg
      → Clock
      → FlushMeeting Batch Avg
      → WriterState Batch Avg
      → Closed
  unfolding checked_close
  close names heartbeat_every me c clock f st =
      checked_close names heartbeat_every me c clock f st f.health
