-- ===== src/Lib.antt =====
-- Verification library of relyt-ingest, an SDK that stages the rows of a Kafka partition as CSV files
-- on object storage and announces each file to a Relyt server, which loads it.
--
-- A client opens a table: the recovery reads what an earlier session left (the listing of the staging
-- directory, the server's watermark, the object `state.json`) and chooses the offset to resume at and
-- the epoch of the session. The writer that it returns buffers batches; a rotation seals the buffer
-- under the next seq of the epoch; the stages of a pipeline render, compress and upload the file, and
-- the put stage hands it to the notify loop. The stages publish their progress on a channel, which
-- `flush` and `close` wait on.
--
-- The files and what they model:
--   Errors    src/error.rs: the error type, its text, and which errors are the caller's.
--   Naming    src/naming.rs: `encode_serial_seq`, `decode_serial_seq`, the checks of path segments,
--             `WriterIdentity` and its keys, `StagedFile` with `object_key`, `parse_basename` and
--             `identifier`.
--   State     src/state.rs: the record `StateFile`.
--   Notify    src/notify.rs: `NotifyRequest`, the report board, and `notify_loop` as a step on its
--             state, with the outcome of each attempt as an event; Notify/Submit models
--             `submit` and the turn that calls it; `mask_secret` and `build_copy_options`.
--   Recovery  src/recovery.rs: `plan_recovery` and `next_epoch`. Recovery/Open models
--             `open_table_locked` of src/client.rs up to the construction of the writer, with
--             `split_qualified` of src/schema.rs.
--   Progress  src/table.rs: `Progress`, `Failing`, `FailKind` and the functions that change them, as
--             functions on the value of the channel; `await_durable` and `until_stalled` as functions
--             of the values that the waiter sees; `is_permanent`, `clone_error`, `backoff`.
--   Writer    src/table.rs: `WriterState`, `append_inner`, `unbuffer`, `seal`, `seal_and_send`,
--             `fatal_state`, the state half of `record_durable`, `check_order`,
--             `persist_state_if_due`, `lag_of` and `oldest_unstaged_age`.
--             Writer/Gc models `gc_pass`.
--   Staging   src/staging.rs: `staging_url_base`, `normalize_root`, `StagingHandle`, `list_staged`,
--             `read_state` and `read_lock`; `parse_staging_url` and the refreshes of src/client.rs.
--   Client    src/client.rs: `resolve_cluster_id`, `resolve_staging`, `fetch_managed_staging` and
--             `open_table_inner`.
--   Stopping  src/table.rs: the flags, the progress and the alarm that the tasks of a writer share, with
--             `fence`, `trip_order_fatal`, `raise_stream_stopped` and `check_health`.
--   Pipeline  src/table.rs: the retry loop of the stages with `fenced_exit`; Pipeline/Stages models
--             `render_stage`, `render_once` and `gzip_stage`, Pipeline/Put `put_stage`, `put_once` and
--             the request of `record_durable`, Pipeline/Flush `flush_pipeline`, `flush` and `close`.
--   Arrow     what the source reads of the arrow crates: types, cells, columns and batches.
--   Csv       src/csv.rs: `CsvFormatter` with every type of cell; Csv/Reader is the dialect as its
--             reader, Csv/Rules the calendar, both written apart from the source.
--   Dedup     src/dedup.rs: `pk_key`, `append_value_bytes`, `dedup_last_wins`; Dedup/Reference says
--             which rows are to stay.
--   Render    src/table.rs: `render`, which joins the two.
--   Schema    src/schema.rs: `pg_type_to_arrow` and the checks of `TableSchema`.
--   Lock      src/lock.rs: `LockFile`; `acquire_writer_lease` of src/client.rs; `release_lease` and
--             the task of `spawn_lock_heartbeat` of src/table.rs, turn by turn.
--   Config    src/config.rs: the configuration, its defaults, `validate`, `classify_endpoint`, `mask_dsn`.
--   Common    numbers, text as bytes, decimal printing and parsing, lists.
--
-- Numbers: u64 and u32 are natural numbers, i64 is ℤ over them; where the source's arithmetic can wrap
-- around, the model does. Names are bytes, and messages are the fixed words of the source's format
-- strings; in a staged file and in an endpoint a text is its code points. Decimal printing runs on
-- fuel, the number itself, which is at least its number of digits.
-- The loop of `acquire_writer_lease` runs over the looks that it takes at the lock; looks two seconds apart
-- end it at the sixth. All other recursion is structural.
--
-- Arguments stand for what is not the program's own: the answers of the object store, of the server
-- and of the clock, the host and its processes, the text of a float, the order of a hash map, the search of a
-- field by its name, the size of a batch, and the average row width, a float.
--
-- What the tasks of a writer do while another one waits is an argument too: a list of what happened to
-- the state they share, or a function on the writer's state.
--
-- Not modelled: the scheduling of the tasks (each section under a lock is one step on the state),
-- logging, compression, and the text and the sending of the alarm.
pub mod Arrow
pub mod Client
pub mod Common
pub mod Config
pub mod Csv
pub mod Dedup
pub mod Errors
pub mod Lock
pub mod Naming
pub mod Notify
pub mod Pipeline
pub mod Progress
pub mod Recovery
pub mod Render
pub mod Schema
pub mod Staging
pub mod State
pub mod Stopping
pub mod Writer
