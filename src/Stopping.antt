-- ===== src/Stopping.antt =====
-- src/table.rs: what the tasks of a writer share about its end: the flags, the progress channel and the
-- alarm, with `fence`, `trip_order_fatal`, `raise_stream_stopped` and `check_health`. The number of
-- attempts after which a stall counts is the first argument where one is needed.
pub mod Upgrades
pub mod Durable
pub mod Calm
pub mod Tests
use relyt_ingest.Common.{
  ℕ, String, Bool, true, false, Option, none, some, List, [], ◌∷◌, ◌++◌, leb, min, if◌then◌else◌,
}
use relyt_ingest.Errors.{Error, Result, ok, err}
use relyt_ingest.Progress.{
  Progress, Event, order_violation, publish_terminal, progress_step, fatal_priority,
}
use relyt_ingest.Writer.Handover.{Flags, fatal_state}

-- `alarms` are the causes that the alarm was raised for, oldest first.
pub record Shared : Type 0 where
  pub progress : Progress
  pub flags : Flags
  pub alarm_raised : ℕ
  pub alarms : List Error

abbrev pub unless_set : String → Option String → Option String
unless_set new none = some new
unless_set new (some old) = some old

raise_for : Option Error → Shared → Shared
unfolding fatal_priority
raise_for none s = s
raise_for (some cause) s =
    if leb s.alarm_raised (fatal_priority cause)
    then s
    else record s { alarm_raised = fatal_priority cause; alarms = s.alarms ++ cause ∷ [] }

unfoldable pub raise_stream_stopped : ℕ → Shared → Shared
unfolding fatal_state raise_for
raise_stream_stopped after s = raise_for (fatal_state after s.flags s.progress) s

abbrev pub with_fence : String → Shared → Shared
with_fence reason s = record s {
  flags = record s.flags { fenced_by = unless_set reason s.flags.fenced_by };
}

unfoldable pub fence : ℕ → String → Shared → Shared
unfolding raise_stream_stopped
fence after reason s = raise_stream_stopped after (with_fence reason s)

abbrev pub with_trip : String → Shared → Shared
with_trip detail s = record s {
  flags = record s.flags { order_fatal = unless_set detail s.flags.order_fatal };
  progress = (publish_terminal order_violation "pipeline" none detail s.progress).0;
}

unfoldable pub trip_order_fatal : ℕ → String → Shared → Shared
unfolding raise_stream_stopped publish_terminal
trip_order_fatal after detail s = raise_stream_stopped after (with_trip detail s)

abbrev pub is_fenced : Shared → Bool
is_fenced s = elim s.flags.fenced_by [ none ↦ false | some reason ↦ true ]

healthy : Option Error → Result (Unit {0})
healthy none = ok tt
healthy (some e) = err e

unfoldable pub check_health : ℕ → Shared → Result (Unit {0})
unfolding fatal_state healthy
check_health after s = healthy (fatal_state after s.flags s.progress)

-- What the tasks of a writer do to what they share: a change of the progress, a lost lease, the
-- verdict of the server on the group, a violated order, and an alarm for what was found.
pub data Happening : Type 0 where
  published : Event → Happening
  lease_lost : String → Happening
  contract_broken : String → Happening
  order_broken : String → Happening
  noticed : Happening

unfoldable pub happen : ℕ → Shared → Happening → Shared
unfolding progress_step fence trip_order_fatal raise_stream_stopped
happen after s (published e) = record s { progress = progress_step s.progress e }
happen after s (lease_lost reason) = fence after reason s
happen after s (contract_broken msg) = record s { flags = record s.flags { contract = some msg } }
happen after s (order_broken detail) = trip_order_fatal after detail s
happen after s noticed = raise_stream_stopped after s

unfoldable pub happen_all : ℕ → Shared → List Happening → Shared
unfolding happen
happen_all after s [] = s
happen_all after s (h ∷ hs) = happen_all after (happen after s h) hs

-- A writer as it is fresh_shared: nothing was announced, `u8::MAX` stands for that.
abbrev pub fresh_shared : Shared
fresh_shared = record {
  progress = record { durable_seq = none; failing = none };
  flags = record { order_fatal = none; fenced_by = none; contract = none };
  alarm_raised = 255;
  alarms = [];
}
