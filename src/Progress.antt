-- ===== src/Progress.antt =====
-- src/table.rs: the progress that the stages of the rotation pipeline publish and that `flush` waits
-- on. The channel holds one value; every change of it is a function on that value. A waiter sees a
-- list of values, ended by the loss of every sender.
pub mod Terminal
pub mod Stops
pub mod Waiting
pub mod Durable
pub mod Tests
use Prim.Native.String.{◌++◌ as join}
use relyt_ingest.Common.{
  ℕ, ◌^◌, ◌-◌, String, Bool, true, false, not, ◌&&◌, ◌||◌, Option, none, some, List, [], ◌∷◌, leb,
  min, if◌then◌else◌,
}
use relyt_ingest.Common.Int.{ℤ, negsuc, max_i64, leb_ℤ, ltb_ℤ, eq_ℤ}
use relyt_ingest.Errors.{
  Error, schema, unsupported_type, naming, config, serial_contract_violation, writer_fenced,
  writer_closed, staging_stalled, rotation_failed, staging_order_violation, to_string, Result, ok,
  err,
}

pub data FailKind : Type 0 where
  stage pipeline_gone fenced order_violation rotation : FailKind

pub record Failing : Type 0 where
  pub seq : ℤ
  pub stage_name : String
  pub attempts : ℕ
  pub permanent : Bool
  pub cause : Option Error
  pub kind : FailKind
  pub last : String

pub record Progress : Type 0 where
  pub durable_seq : Option ℤ
  pub failing : Option Failing

unfoldable pub is_terminal : FailKind → Bool
is_terminal stage = false
is_terminal pipeline_gone = true
is_terminal fenced = true
is_terminal order_violation = true
is_terminal rotation = true

unfoldable pub fatal_priority : Error → ℕ
fatal_priority (staging_order_violation m) = 0
fatal_priority (writer_fenced m) = 1
fatal_priority (serial_contract_violation m) = 2
fatal_priority (rotation_failed name cause) = 3
fatal_priority _ = 255

-- `i64::MIN`
abbrev pub min_i64 : ℤ
min_i64 = negsuc max_i64

abbrev pub terminal_entry : FailKind → String → Option Error → String → Failing
terminal_entry kind name cause last = record {
  seq = min_i64;
  stage_name = name;
  attempts = 0;
  permanent = true;
  cause = cause;
  kind = kind;
  last = last;
}

abbrev pub is_stopped : Option Failing → Bool
is_stopped none = false
is_stopped (some f) = is_terminal f.kind

-- The progress, and whether this call wrote it.
unfoldable pub publish_terminal :
    FailKind → String → Option Error → String → Progress → Progress × Bool
unfolding is_terminal
publish_terminal kind name cause last p =
    if is_stopped p.failing
    then (p, false)
    else (record p { failing = some (terminal_entry kind name cause last) }, true)

abbrev pub rotation_error : Failing → Option Error → Error
rotation_error f none = rotation_failed f.stage_name (config f.last)
rotation_error f (some cause) = rotation_failed f.stage_name cause

abbrev pub stage_error : Failing → Option Error → Error
stage_error f none = staging_stalled f.attempts f.last
stage_error f (some cause) = rotation_failed f.stage_name cause

unfoldable pub terminal_error : Failing → Error
terminal_error f = elim f.kind [
  | stage ↦ stage_error f f.cause
  | pipeline_gone ↦ writer_closed
  | fenced ↦ writer_fenced f.last
  | order_violation ↦ staging_order_violation f.last
  | rotation ↦ rotation_error f f.cause
]

gone : Option Failing → Progress → Progress × Error
unfolding is_terminal terminal_error
gone none p = (
  record p {
    failing = some (terminal_entry pipeline_gone "pipeline" none "rotation pipeline is gone");
  },
  writer_closed,
)
gone (some f) p = if is_terminal f.kind then (p, terminal_error f) else (
  record p {
    failing = some (terminal_entry pipeline_gone "pipeline" none "rotation pipeline is gone");
  },
  writer_closed,
)

-- The method `pipeline_gone` of the writer: the progress after it, and the error it returns.
unfoldable pub on_pipeline_gone : Progress → Progress × Error
unfolding gone
on_pipeline_gone p = gone p.failing p

unfoldable pub is_permanent : Error → Bool
is_permanent (schema m) = true
is_permanent (unsupported_type column data_type) = true
is_permanent _ = false

unfoldable pub clone_error : Error → Error
unfolding to_string
clone_error (schema m) = schema m
clone_error (unsupported_type column data_type) = unsupported_type column data_type
clone_error (naming m) = naming m
clone_error (config m) = config m
clone_error other = config (to_string other)

-- In seconds.
unfoldable pub backoff : ℕ → ℕ
backoff attempt = min (2 ^ min (attempt - 1) 5) 30

abbrev pub caught_up : ℤ → Option Failing → Option Failing
caught_up seq none = none
caught_up seq (some f) = if not (is_terminal f.kind) && leb_ℤ f.seq seq then none else some f

unfoldable pub land : ℤ → Progress → Progress
unfolding is_terminal
land seq p = record { durable_seq = some seq; failing = caught_up seq p.failing }

-- Whether the entry stays: a terminal one, and one of an earlier file.
abbrev pub outranks : ℤ → Option Failing → Bool
outranks seq none = false
outranks seq (some f) = is_terminal f.kind || ltb_ℤ f.seq seq

abbrev pub stage_entry : ℤ → String → ℕ → Bool → Error → Failing
stage_entry seq name attempt permanent e = record {
  seq = seq;
  stage_name = name;
  attempts = attempt;
  permanent = permanent;
  cause = if permanent then some (clone_error e) else none;
  kind = stage;
  last = join name (join ": " (to_string e));
}

unfoldable pub report_failure : ℤ → String → ℕ → Bool → Error → Progress → Progress
unfolding is_terminal clone_error to_string
report_failure seq name attempt permanent e p =
    if outranks seq p.failing
    then p
    else record p { failing = some (stage_entry seq name attempt permanent e) }

abbrev pub past : ℤ → Option Failing → Option Failing
past seq none = none
past seq (some f) = if eq_ℤ f.seq seq then none else some f

unfoldable pub clear_failure : ℤ → Progress → Progress
clear_failure seq p = record p { failing = past seq p.failing }

-- `staging_error_after_attempts` is the first argument.
unfoldable pub stall_error : ℕ → Option Failing → ℤ → Option Error
unfolding terminal_error
stall_error after none target = none
stall_error after (some f) target =
    if ltb_ℤ target f.seq || not (f.permanent || leb after f.attempts)
    then none
    else some (terminal_error f)

abbrev pub reached : Option ℤ → ℤ → Bool
reached none target = false
reached (some d) target = leb_ℤ target d

abbrev pub or_fail : Option Error → Result (Unit {0}) → Result (Unit {0})
or_fail none later = later
or_fail (some e) later = err e

-- The values that a waiter looks at, in order. When they end, no sender is left.
unfoldable pub await_durable : ℕ → ℤ → List Progress → Result (Unit {0})
unfolding stall_error
await_durable after target [] = err writer_closed
await_durable after target (p ∷ ps) =
    let later = await_durable after target ps in
    if reached p.durable_seq target
    then ok tt
    else or_fail (stall_error after p.failing target) later

abbrev pub or_wait : Option Error → Error → Error
or_wait none later = later
or_wait (some e) later = e

unfoldable pub until_stalled : ℕ → ℤ → List Progress → Error
unfolding stall_error
until_stalled after target [] = writer_closed
until_stalled after target (p ∷ ps) =
    let later = until_stalled after target ps in or_wait (stall_error after p.failing target) later

-- What the tasks of a writer do to its progress.
pub data Event : Type 0 where
  landed : ℤ → Event
  failed : ℤ → String → ℕ → Bool → Error → Event
  recovered : ℤ → Event
  stopped : FailKind → String → Option Error → String → Event
  lost : Event

unfoldable pub progress_step : Progress → Event → Progress
unfolding land report_failure clear_failure publish_terminal on_pipeline_gone
progress_step p (landed seq) = land seq p
progress_step p (failed seq name attempt permanent e) =
    report_failure seq name attempt permanent e p
progress_step p (recovered seq) = clear_failure seq p
progress_step p (stopped kind name cause last) = (publish_terminal kind name cause last p).0
progress_step p lost = (on_pipeline_gone p).0

unfoldable pub progress_run : Progress → List Event → Progress
unfolding progress_step
progress_run p [] = p
progress_run p (e ∷ es) = progress_run (progress_step p e) es
