-- ===== src/Writer/Tests.antt =====
-- A writer with one buffered batch at the end of an epoch. A batch is its number of rows.
use relyt_ingest.Common.{
  ℕ, ◌+◌, ◌*◌, ◌≡◌, refl, inl, true, false, none, some, [], ◌∷◌, arith, List, All, ◌++◌,
}
use relyt_ingest.Common.Int.{pos, ℤ, ◌≤ℤ◌, ◌<ℤ◌}
use relyt_ingest.Common.Text.{codes}
use relyt_ingest.Common.Decimal.{display}
use relyt_ingest.Errors.{Error, naming, ok, err}
use relyt_ingest.Naming.{StagedFile, identifier, serial_seq}
use relyt_ingest.Naming.Tests.{ident}
use relyt_ingest.Writer.{
  Arrow, WriterConfig, WriterState, Clock, push, accept, seal, cut, sealed_file,
}
use relyt_ingest.Writer.Sealing.{IsWell}
use relyt_ingest.Writer.Accepting.{accept-IsWell}
use relyt_ingest.Writer.Rotation.{IsRotation, seal_in_order}
use relyt_ingest.Writer.Persist.{
  Names, Tick, persist_state_if_due, IsTick, persist_state_if_due-IsSafeTick,
}
use relyt_ingest.Writer.Lag.{lag_of}
use relyt_ingest.Errors.{staging_stalled}
use relyt_ingest.Writer.Handover.{Meeting, stalled_full, append_inner}
use relyt_ingest.Writer.Handover.Append.{IsAppend, append_inner-IsAppend}

abbrev pub counted : Arrow ℕ ℕ
counted = record {
  num_rows = λ b. b;
  array_memory_size = λ b. b * 8;
  compatible = λ b. true;
  scale = λ n avg. n * avg;
}

abbrev pub cfg : WriterConfig
cfg = record { rotate_size_bytes = 1000; rotate_interval_max = 5000; is_gzip = false }

abbrev pub full_epoch : WriterState ℕ ℕ
full_epoch = record {
  buffered = (3, pos 10, pos 12) ∷ [];
  buffered_bytes_estimate = 24;
  oldest_buffered_at = some 100;
  epoch_ms = 7;
  next_seq = 1_048_576;
  known_files = [];
  in_flight = [];
  buffered_rows = 3;
  avg_row_bytes = none;
  staged_offset = none;
  last_sealed_seq = none;
  max_end_offset = some (pos 12);
  resume_persisted = some (pos 5);
  state_written_at = 0;
}

abbrev pub last_epoch : WriterState ℕ ℕ
last_epoch = record full_epoch { epoch_ms = 8_796_093_022_207 }

abbrev pub clock : Clock
clock = record { now = 200; wall_ms = 9000 }

abbrev pub rolled : WriterState ℕ ℕ
rolled = record full_epoch { epoch_ms = 8; next_seq = 0 }

abbrev pub file : StagedFile
file = record {
  epoch_ms = 8;
  seq = 0;
  start_offset = pos 10;
  end_offset = pos 12;
  compressed = false;
}

well : IsWell (pos 9) full_epoch
well = record {
  ranges = ((omega arith, omega arith, omega arith), tt);
  floored = omega arith;
  seq_fits = omega arith;
  epoch_fits = omega arith;
  used_fits = λ h. omega arith;
}

last-IsWell : IsWell (pos 9) last_epoch
last-IsWell = record {
  ranges = ((omega arith, omega arith, omega arith), tt);
  floored = omega arith;
  seq_fits = omega arith;
  epoch_fits = omega arith;
  used_fits = λ h. omega arith;
}

sealed_run : seal cfg ident clock false full_epoch ≡ (
  cut file (pos 8_388_608) clock rolled,
  ok (some (sealed_file ident file clock rolled (pos 8_388_608) (codes "13727:54321:w-0:8:0"))),
)
unfolding seal identifier serial_seq display
sealed_run = refl

seal_in_order_example :
    IsRotation
      (pos 9)
      (some (7, 1_048_575, pos 9))
      full_epoch.buffered
      (cut file (pos 8_388_608) clock rolled)
      (sealed_file ident file clock rolled (pos 8_388_608) (codes "13727:54321:w-0:8:0"))
seal_in_order_example =
    seal_in_order cfg ident clock false (pos 9) (some (7, 1_048_575, pos 9)) full_epoch
      (cut file (pos 8_388_608) clock rolled)
      (sealed_file ident file clock rolled (pos 8_388_608) (codes "13727:54321:w-0:8:0")) well
      (inl (refl, refl)) sealed_run

abbrev pub overrun : WriterState ℕ ℕ
overrun = record full_epoch { epoch_ms = 8_796_093_022_208; next_seq = 0 }

failed_run : seal cfg ident clock false last_epoch ≡ (overrun, err (naming "epoch exceeds 43 bits"))
unfolding seal identifier serial_seq
failed_run = refl

accepted_run :
    accept counted cfg none 2 (pos 13) (pos 14) 300 full_epoch
    ≡ ok (push counted 2 (pos 13) (pos 14) 300 full_epoch, false)
unfolding accept
accepted_run = refl

rewound_run :
    accept counted cfg none 2 (pos 12) (pos 14) 300 full_epoch
    ≡ err (Error.config "Kafka offsets went backwards")
unfolding accept
rewound_run = refl

accept-IsWell_example :
    let taken = push counted 2 (pos 13) (pos 14) 300 full_epoch in
    IsWell (pos 9) taken
    × (taken.buffered ≡ full_epoch.buffered ++ (2, pos 13, pos 14) ∷ [])
    × (pos 0 ≤ℤ pos 13)
    × (pos 13 ≤ℤ pos 14)
    × (pos 9 <ℤ pos 13)
    × All (λ (b, s, e). e <ℤ pos 13) full_epoch.buffered
accept-IsWell_example =
    accept-IsWell counted cfg none 2 (pos 13) (pos 14) (pos 9) 300 full_epoch
      (push counted 2 (pos 13) (pos 14) 300 full_epoch) false well accepted_run

abbrev pub stuck : Meeting
stuck = record {
  stalled_behind = none;
  room = stalled_full (staging_stalled 5 "timeout");
  health = none;
  progress = record { durable_seq = none; failing = none };
}

-- A rotation is due, the queue is full and the pipeline stalls: the batch is given back.
given_back :
    (append_inner counted cfg ident none 200
      (pos 13)
      (pos 14)
      clock
      stuck
      (λ st. st)
      full_epoch).result
    ≡ err (staging_stalled 5 "timeout")
unfolding append_inner
given_back = refl

append_inner-IsAppend_example :
    IsAppend counted 200
      (pos 13)
      (pos 14)
      full_epoch.buffered
      (append_inner counted cfg ident none 200 (pos 13) (pos 14) clock stuck (λ st. st) full_epoch)
append_inner-IsAppend_example =
    append_inner-IsAppend counted cfg ident none 200 (pos 13) (pos 14) clock stuck full_epoch

abbrev pub names : Names
names = record { database = codes "prod"; schema = codes "public"; table = codes "t" }

abbrev pub tick : Tick
tick = record {
  fenced_before = false;
  fenced_at_write = false;
  confirmed_end = some (pos 9);
  clock = clock;
  written = ok tt;
  recorded_at = clock.now + 20;
}

-- While the store is at work, another tick records a later offset.
abbrev pub overtaken : WriterState ℕ ℕ → WriterState ℕ ℕ
overtaken st = record st { resume_persisted = some (pos 11) }

set_back :
    (persist_state_if_due ident names 5000 tick overtaken full_epoch).0.resume_persisted
    ≡ some (pos 9)
unfolding persist_state_if_due
set_back = refl

persist_state_if_due-IsSafeTick_example :
    IsTick tick full_epoch
      (overtaken full_epoch)
      (persist_state_if_due ident names 5000 tick overtaken full_epoch)
persist_state_if_due-IsSafeTick_example =
    persist_state_if_due-IsSafeTick ident names 5000 tick overtaken full_epoch

abbrev pub known : List (ℤ × ℕ)
known = (pos 1, 1000) ∷ (pos 2, 3000) ∷ (pos 3, 8000) ∷ []

lag_run : lag_of known (some (pos 1)) 9000 ≡ ((pos 2, 3000) ∷ (pos 3, 8000) ∷ [], 2, 6)
unfolding lag_of
lag_run = refl
