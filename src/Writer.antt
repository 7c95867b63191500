-- ===== src/Writer.antt =====
-- src/table.rs: the state of a table writer, and what `append`, the sealer and the put stage do to it.
-- The batches are Arrow's, the average row width is a float and `scale` its product with a number of
-- rows: all three are parameters. Instants are milliseconds of a monotone clock.
pub mod Order
pub mod Buffer
pub mod Sealing
pub mod Accepting
pub mod Rotation
pub mod Failure
pub mod Handover
pub mod Persist
pub mod Lag
pub mod Gc
pub mod Tests
use relyt_ingest.Common.{
  ℕ, ◌+◌, ◌-◌, ◌%◌, ◌^◌, Bool, true, false, not, ◌&&◌, ◌||◌, Option, none, some, List, [], ◌∷◌,
  ◌++◌, map, ltb, leb, is_empty, keep_if, if◌then◌else◌,
}
use relyt_ingest.Common.Int.{ℤ, pos, ltb_ℤ, leb_ℤ, eq_ℤ, max_ℤ}
use relyt_ingest.Common.Text.{Bytes}
use relyt_ingest.Errors.{
  Error, config, schema, staging_order_violation, writer_fenced, serial_contract_violation,
  rotation_failed, staging_stalled, Result, ok, err, ◌>>=◌, ◌>>◌, guard,
}
use relyt_ingest.Naming.{WriterIdentity, StagedFile, serial_seq, identifier, object_key, max_seq}

pub record WriterConfig : Type 0 where
  pub rotate_size_bytes : ℕ
  pub rotate_interval_max : ℕ
  pub is_gzip : Bool

pub record WriterState (Batch Avg : Type 0) : Type 0 where
  pub buffered : List (Batch × ℤ × ℤ)
  pub buffered_bytes_estimate : ℕ
  pub oldest_buffered_at : Option ℕ
  pub epoch_ms : ℕ
  pub next_seq : ℕ
  pub known_files : List (ℤ × ℕ)
  pub in_flight : List (ℤ × ℕ)
  pub buffered_rows : ℕ
  pub avg_row_bytes : Option Avg
  pub staged_offset : Option ℤ
  pub last_sealed_seq : Option ℤ
  pub max_end_offset : Option ℤ
  pub resume_persisted : Option ℤ
  pub state_written_at : ℕ

-- `FileMeta` without the times it collects for the log.
pub record FileMeta : Type 0 where
  pub file : StagedFile
  pub seq_no : ℤ
  pub job : Bytes
  pub key : Bytes
  pub rows_in : ℕ
  pub sealed_at : ℕ

pub record Sealed (Batch : Type 0) : Type 0 where
  pub meta : FileMeta
  pub batches : List Batch

-- The clocks at a call: the monotone one, and the wall clock.
pub record Clock : Type 0 where
  pub now : ℕ
  pub wall_ms : ℕ

-- Whether a time is at least `interval` past.
abbrev pub is_aged : ℕ → ℕ → Option ℕ → Bool
is_aged interval now none = false
is_aged interval now (some t) = leb interval (now - t)

abbrev pub or_now : ℕ → Option ℕ → Option ℕ
or_now now none = some now
or_now now (some t) = some t

-- `start_offset <= max_end`
abbrev pub is_rewound : ℤ → Option ℤ → Bool
is_rewound start none = false
is_rewound start (some max_end) = leb_ℤ start max_end

abbrev pub min_ℤ : ℤ → ℤ → ℤ
min_ℤ a b = if leb_ℤ a b then a else b

-- What the writer reads of a batch, and the estimate of its rendered size.
pub record Arrow (Batch Avg : Type 0) : Type 0 where
  pub num_rows : Batch → ℕ
  pub array_memory_size : Batch → ℕ
  pub compatible : Batch → Bool
  pub scale : ℕ → Avg → ℕ

abbrev pub eq_some : Option ℤ → ℤ → Bool
eq_some none b = false
eq_some (some a) b = eq_ℤ a b

abbrev pub later_offset : Option ℤ → ℤ → Option ℤ
later_offset none end = some end
later_offset (some prev) end = some (max_ℤ prev end)

module _ {Batch : Type 0} where
  abbrev pub is_range : ℤ → ℤ → Batch × ℤ × ℤ → Bool
  is_range start end (batch, s, e) = eq_ℤ s start && eq_ℤ e end

  abbrev pub put_back :
      Batch × ℤ × ℤ
      → Option ((Batch × ℤ × ℤ) × List (Batch × ℤ × ℤ))
      → Bool
      → List (Batch × ℤ × ℤ)
      → Option ((Batch × ℤ × ℤ) × List (Batch × ℤ × ℤ))
  put_back x (some (found, rest)) here xs = some (found, x ∷ rest)
  put_back x none true xs = some (x, xs)
  put_back x none false xs = none

  -- `rposition` and `remove`: the last entry of that range, and the others.
  unfoldable pub take_last :
      ℤ → ℤ → List (Batch × ℤ × ℤ) → Option ((Batch × ℤ × ℤ) × List (Batch × ℤ × ℤ))
  take_last start end [] = none
  take_last start end (x ∷ xs) = put_back x (take_last start end xs) (is_range start end x) xs

  -- `Iterator::min` of the starts and `Iterator::max` of the ends.
  unfoldable pub span : Batch × ℤ × ℤ → List (Batch × ℤ × ℤ) → ℤ × ℤ
  span (b, s, e) [] = (s, e)
  span (b, s, e) (x ∷ xs) = let rest = span x xs in (min_ℤ s rest.0, max_ℤ e rest.1)

  abbrev pub drop_offsets : Batch × ℤ × ℤ → Batch
  drop_offsets (b, s, e) = b

module _ {Batch Avg : Type 0} (arrow : Arrow Batch Avg) where
  abbrev pub estimate : ℕ → ℕ → Option Avg → ℕ
  estimate rows bytes none = bytes
  estimate rows bytes (some avg) = arrow.scale rows avg

  -- The batch goes to the end of the buffer.
  unfoldable pub push : Batch → ℤ → ℤ → ℕ → WriterState Batch Avg → WriterState Batch Avg
  push batch start end now st = record st {
    max_end_offset = some end;
    buffered_bytes_estimate = (st.buffered_bytes_estimate + arrow.array_memory_size batch) % 2 ^ 64;
    buffered_rows = (st.buffered_rows + arrow.num_rows batch) % 2 ^ 64;
    buffered = st.buffered ++ (batch, start, end) ∷ [];
    oldest_buffered_at = or_now now st.oldest_buffered_at;
  }

  unfoldable pub is_full : WriterConfig → ℕ → WriterState Batch Avg → Bool
  is_full cfg now st =
      leb cfg.rotate_size_bytes
        (estimate st.buffered_rows st.buffered_bytes_estimate st.avg_row_bytes)
      || is_aged cfg.rotate_interval_max now st.oldest_buffered_at

  -- `append_inner` up to the hand-over: the state, and whether to rotate.
  unfoldable pub accept :
      WriterConfig
      → Option Error
      → Batch
      → ℤ
      → ℤ
      → ℕ
      → WriterState Batch Avg
      → Result (WriterState Batch Avg × Bool)
  unfolding push is_full
  accept cfg (some stopped) batch start end now st = err stopped
  accept cfg none batch start end now st = do
    guard (not (ltb_ℤ start (pos 0) || ltb_ℤ end start)) (config "invalid Kafka offset range")
    guard (arrow.compatible batch) (schema "append batch schema != table schema")
    guard (not (is_rewound start st.max_end_offset)) (config "Kafka offsets went backwards")
    ok (push batch start end now st, is_full cfg now (push batch start end now st))

  without :
      ℤ
      → Option ℤ
      → WriterState Batch Avg
      → Option ((Batch × ℤ × ℤ) × List (Batch × ℤ × ℤ))
      → Bool × WriterState Batch Avg
  without end prev st none = (false, st)
  without end prev st (some ((batch, s, e), rest)) = (
    true,
    record st {
      buffered = rest;
      buffered_bytes_estimate = st.buffered_bytes_estimate - arrow.array_memory_size batch;
      buffered_rows = st.buffered_rows - arrow.num_rows batch;
      oldest_buffered_at = if is_empty rest then none else st.oldest_buffered_at;
      max_end_offset = if eq_some st.max_end_offset end then prev else st.max_end_offset;
    },
  )

  -- Whether the batch was still there, and the state after it.
  unfoldable pub unbuffer : ℤ → ℤ → Option ℤ → WriterState Batch Avg → Bool × WriterState Batch Avg
  unfolding take_last without
  unbuffer start end prev st = without end prev st (take_last start end st.buffered)

module _ {Batch Avg : Type 0} where
  unfoldable pub sealable : WriterConfig → ℕ → Bool → WriterState Batch Avg → Bool
  sealable cfg now aged_only st =
      not (is_empty st.buffered)
      && (not aged_only || is_aged cfg.rotate_interval_max now st.oldest_buffered_at)

  -- An exhausted epoch gives way to the next.
  unfoldable pub roll : WriterState Batch Avg → WriterState Batch Avg
  roll st =
      if ltb max_seq st.next_seq
      then record st { epoch_ms = (st.epoch_ms + 1) % 2 ^ 64; next_seq = 0 }
      else st

  -- The file that the buffer is cut into.
  unfoldable pub next_file : WriterConfig → WriterState Batch Avg → ℤ × ℤ → StagedFile
  next_file cfg st range = record {
    epoch_ms = st.epoch_ms;
    seq = st.next_seq;
    start_offset = range.0;
    end_offset = range.1;
    compressed = cfg.is_gzip;
  }

  unfoldable pub cut : StagedFile → ℤ → Clock → WriterState Batch Avg → WriterState Batch Avg
  cut file seq_no clock st = record st {
    next_seq = (st.next_seq + 1) % 2 ^ 32;
    buffered = [];
    buffered_bytes_estimate = 0;
    buffered_rows = 0;
    oldest_buffered_at = none;
    last_sealed_seq = some seq_no;
    known_files = st.known_files ++ (seq_no, clock.wall_ms) ∷ [];
    in_flight = st.in_flight ++ (seq_no, clock.now) ∷ [];
  }

  unfoldable pub sealed_file :
      WriterIdentity → StagedFile → Clock → WriterState Batch Avg → ℤ → Bytes → Sealed Batch
  sealed_file ident file clock st seq_no id = record {
    meta = record {
      file = file;
      seq_no = seq_no;
      job = id;
      key = object_key file ident;
      rows_in = st.buffered_rows;
      sealed_at = clock.now;
    };
    batches = map drop_offsets st.buffered;
  }

  seal_named :
      WriterIdentity
      → StagedFile
      → Clock
      → WriterState Batch Avg
      → Result ℤ
      → Result Bytes
      → WriterState Batch Avg × Result (Option (Sealed Batch))
  unfolding cut sealed_file
  seal_named ident file clock st (err e) id = (st, err e)
  seal_named ident file clock st (ok seq_no) (err e) = (st, err e)
  seal_named ident file clock st (ok seq_no) (ok id) =
      (cut file seq_no clock st, ok (some (sealed_file ident file clock st seq_no id)))

  seal_entries :
      WriterConfig
      → WriterIdentity
      → Clock
      → WriterState Batch Avg
      → List (Batch × ℤ × ℤ)
      → WriterState Batch Avg × Result (Option (Sealed Batch))
  unfolding next_file span seal_named
  seal_entries cfg ident clock st [] = (st, ok none)
  seal_entries cfg ident clock st (x ∷ xs) =
      let file = next_file cfg st (span x xs) in
      seal_named ident file clock st (serial_seq file) (identifier file ident)

  -- The state after it, even of a failure, and the file that was cut.
  unfoldable pub seal :
      WriterConfig
      → WriterIdentity
      → Clock
      → Bool
      → WriterState Batch Avg
      → WriterState Batch Avg × Result (Option (Sealed Batch))
  unfolding sealable roll seal_entries
  seal cfg ident clock aged_only st =
      if sealable cfg clock.now aged_only st
      then seal_entries cfg ident clock (roll st) st.buffered
      else (st, ok none)

  -- The state half of `record_durable`.
  unfoldable pub record_durable : FileMeta → WriterState Batch Avg → WriterState Batch Avg
  record_durable meta st = record st {
    staged_offset = later_offset st.staged_offset meta.file.end_offset;
    in_flight = keep_if (λ (s, t). not (eq_ℤ s meta.seq_no)) st.in_flight;
  }
