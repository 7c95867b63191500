-- ===== src/Writer/Handover.antt =====
-- src/table.rs: `fatal_state`, `seal_and_send` and the whole of `append_inner`. What a call meets while
-- it waits (other sealers, the room in the queue, a stall) is an argument.
pub mod Append
use relyt_ingest.Common.{ℕ, String, Bool, true, false, not, ◌||◌, Option, none, some, if◌then◌else◌}
use relyt_ingest.Common.Int.{ℤ, pos, max_i64}
use relyt_ingest.Errors.{
  Error, staging_order_violation, writer_fenced, serial_contract_violation, rotation_failed,
  staging_stalled, Result, ok, err,
}
use relyt_ingest.Naming.{WriterIdentity}
use relyt_ingest.Progress.{Progress, stall_error, on_pipeline_gone}
use relyt_ingest.Writer.{
  Arrow, WriterConfig, WriterState, Sealed, Clock, accept, sealable, seal, unbuffer,
}

-- The flags that stop a writer: the tripwire's, the fence, and the server's verdict on the group.
pub record Flags : Type 0 where
  pub order_fatal : Option String
  pub fenced_by : Option String
  pub contract : Option String

abbrev pub permanent_only : Option Error → Option Error
permanent_only (some (rotation_failed stage cause)) = some (rotation_failed stage cause)
permanent_only _ = none

unfoldable pub first_flag :
    Option String → Option String → Option String → Option Error → Option Error
first_flag (some detail) fence contract e = some (staging_order_violation detail)
first_flag none (some reason) contract e = some (writer_fenced reason)
first_flag none none (some msg) e = some (serial_contract_violation msg)
first_flag none none none e = permanent_only e

-- The first argument is `staging_error_after_attempts`.
unfoldable pub fatal_state : ℕ → Flags → Progress → Option Error
unfolding first_flag stall_error
fatal_state after flags p =
    first_flag flags.order_fatal flags.fenced_by flags.contract
      (stall_error after p.failing (pos max_i64))

-- What the queue to the pipeline answers: room, no receiver, or a stall while it was full.
pub data Room : Type 0 where
  available queue_gone : Room
  stalled_full : Error → Room

-- What a call of `seal_and_send` meets: a stall while another sealer holds the lock, the queue, the
-- health of the writer at its checks, and the progress when the pipeline turns out to be gone.
pub record Meeting : Type 0 where
  pub stalled_behind : Option Error
  pub room : Room
  pub health : Option Error
  pub progress : Progress

pub record Outcome (Batch Avg : Type 0) (R : Type 0) : Type 0 where
  pub state : WriterState Batch Avg
  pub result : Result R
  pub sent : Option (Sealed Batch)
  pub progress : Progress

abbrev pub is_stall : Error → Bool
is_stall (staging_stalled attempts last) = true
is_stall _ = false

module _ {Batch Avg : Type 0} where
  abbrev pub refused : {R : Type 0} → WriterState Batch Avg → Progress → Error → Outcome Batch Avg R
  refused st p e = record { state = st; result = err e; sent = none; progress = p }

  abbrev pub nothing_sealed : WriterState Batch Avg → Progress → Outcome Batch Avg (Option ℤ)
  nothing_sealed st p = record { state = st; result = ok none; sent = none; progress = p }

  delivered :
      Progress
      → WriterState Batch Avg × Result (Option (Sealed Batch))
      → Outcome Batch Avg (Option ℤ)
  delivered p (st, err e) = refused st p e
  delivered p (st, ok none) = nothing_sealed st p
  delivered p (st, ok (some sealed)) = record {
    state = st;
    result = ok (some (sealed.meta.seq_no));
    sent = some sealed;
    progress = p;
  }

  -- After the room in the queue is decided; the check of the health comes before the cut.
  enter :
      WriterConfig
      → WriterIdentity
      → Clock
      → Bool
      → Progress
      → WriterState Batch Avg
      → Room
      → Option Error
      → Outcome Batch Avg (Option ℤ)
  unfolding delivered seal
  enter cfg ident clock aged_only p st (stalled_full e) health = refused st p e
  enter cfg ident clock aged_only p st queue_gone (some stopped) = refused st p stopped
  enter cfg ident clock aged_only p st queue_gone none =
      refused st (on_pipeline_gone p).0 (on_pipeline_gone p).1
  enter cfg ident clock aged_only p st available (some stopped) = refused st p stopped
  enter cfg ident clock aged_only p st available none =
      delivered p (seal cfg ident clock aged_only st)

  waited :
      WriterConfig
      → WriterIdentity
      → Clock
      → Bool
      → Meeting
      → WriterState Batch Avg
      → Option Error
      → Outcome Batch Avg (Option ℤ)
  unfolding enter sealable
  waited cfg ident clock aged_only m st (some stall) = refused st m.progress stall
  waited cfg ident clock aged_only m st none =
      if sealable cfg clock.now aged_only st
      then enter cfg ident clock aged_only m.progress st m.room m.health
      else nothing_sealed st m.progress

  unfoldable pub seal_and_send :
      WriterConfig
      → WriterIdentity
      → Clock
      → Bool
      → Meeting
      → WriterState Batch Avg
      → Outcome Batch Avg (Option ℤ)
  unfolding waited
  seal_and_send cfg ident clock aged_only m st =
      waited cfg ident clock aged_only m st m.stalled_behind

  abbrev pub settle :
      Outcome Batch Avg (Option ℤ)
      → Error
      → Bool × WriterState Batch Avg
      → Outcome Batch Avg (Unit {0})
  settle o e (taken_back, st) = record {
    state = st;
    result = if taken_back || not (is_stall e) then err e else ok tt;
    sent = o.sent;
    progress = o.progress;
  }

  aged_out :
      Progress
      → WriterState Batch Avg × Result (Option (Sealed Batch))
      → Outcome Batch Avg (Unit {0})
  aged_out p (st, err e) = refused st p e
  aged_out p (st, ok sealed) = record { state = st; result = ok tt; sent = sealed; progress = p }

  abbrev pub idle_tick : WriterState Batch Avg → Progress → Outcome Batch Avg (Unit {0})
  idle_tick st p = record { state = st; result = ok tt; sent = none; progress = p }

  tick_in :
      WriterConfig
      → WriterIdentity
      → Clock
      → Progress
      → WriterState Batch Avg
      → Bool
      → Room
      → Outcome Batch Avg (Unit {0})
  unfolding aged_out seal
  tick_in cfg ident clock p st true available = aged_out p (seal cfg ident clock true st)
  tick_in cfg ident clock p st true queue_gone = idle_tick st p
  tick_in cfg ident clock p st true (stalled_full e) = idle_tick st p
  tick_in cfg ident clock p st false room = idle_tick st p

  -- The ticker's path, which never waits; the Boolean says whether the lock of the sealers is free.
  unfoldable pub seal_if_aged_nonblocking :
      WriterConfig
      → WriterIdentity
      → Clock
      → Bool
      → Meeting
      → WriterState Batch Avg
      → Outcome Batch Avg (Unit {0})
  unfolding tick_in
  seal_if_aged_nonblocking cfg ident clock free m st = checked m.health
    where
      checked : Option Error → Outcome Batch Avg (Unit {0})
      checked (some stopped) = refused st m.progress stopped
      checked none = tick_in cfg ident clock m.progress st free m.room

module _ {Batch Avg : Type 0} (arrow : Arrow Batch Avg) where
  after_handover :
      ℤ
      → ℤ
      → Option ℤ
      → (WriterState Batch Avg → WriterState Batch Avg)
      → Outcome Batch Avg (Option ℤ)
      → Result (Option ℤ)
      → Outcome Batch Avg (Unit {0})
  unfolding unbuffer
  after_handover start end prev meanwhile o (ok seq) = record {
    state = o.state;
    result = ok tt;
    sent = o.sent;
    progress = o.progress;
  }
  after_handover start end prev meanwhile o (err e) =
      settle o e (unbuffer arrow start end prev (meanwhile o.state))

  appended :
      WriterConfig
      → WriterIdentity
      → ℤ
      → ℤ
      → Clock
      → Meeting
      → (WriterState Batch Avg → WriterState Batch Avg)
      → WriterState Batch Avg
      → Result (WriterState Batch Avg × Bool)
      → Outcome Batch Avg (Unit {0})
  unfolding after_handover seal_and_send
  appended cfg ident start end clock m meanwhile st (err e) = refused st m.progress e
  appended cfg ident start end clock m meanwhile st (ok (next, false)) = record {
    state = next;
    result = ok tt;
    sent = none;
    progress = m.progress;
  }
  appended cfg ident start end clock m meanwhile st (ok (next, true)) =
      let o = seal_and_send cfg ident clock false m next in
      after_handover start end st.max_end_offset meanwhile o o.result

  -- `meanwhile` is what other tasks do to the state between a failed hand-over and the taking back.
  unfoldable pub append_inner :
      WriterConfig
      → WriterIdentity
      → Option Error
      → Batch
      → ℤ
      → ℤ
      → Clock
      → Meeting
      → (WriterState Batch Avg → WriterState Batch Avg)
      → WriterState Batch Avg
      → Outcome Batch Avg (Unit {0})
  unfolding appended accept
  append_inner cfg ident health batch start end clock m meanwhile st =
      appended cfg ident start end clock m meanwhile st
        (accept arrow cfg health batch start end clock.now st)
