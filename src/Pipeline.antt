-- ===== src/Pipeline.antt =====
-- src/table.rs: the three stages of the rotation pipeline, `render_stage`, `gzip_stage` and `put_stage`.
-- A stage is a function on the files it receives and on what it meets at each: whether the writer is
-- still there, what its other tasks did meanwhile, and how each attempt ends. Waits and the log are
-- left out. Where what it meets ends before a file is done, the run that is looked at ends there.
pub mod Stages
pub mod Put
pub mod Flush
pub mod Tests
use Prim.Native.String.{◌++◌ as join}
use relyt_ingest.Common.{
  ℕ, ◌+◌, ◌%◌, ◌^◌, String, Bool, true, false, Option, none, some, List, [], ◌∷◌, ltb,
  if◌then◌else◌,
}
use relyt_ingest.Common.Int.{ℤ}
use relyt_ingest.Errors.{Error, to_string, Result, ok, err}
use relyt_ingest.Progress.{
  FailKind, fenced, rotation, publish_terminal, is_permanent, clone_error, report_failure,
  clear_failure,
}
use relyt_ingest.Stopping.{Shared, Happening, raise_stream_stopped, is_fenced, happen_all}

-- What a stage finds when it looks at the writer: whether it is still there, and what happened.
pub record Look : Type 0 where
  pub is_alive : Bool
  pub meanwhile : List Happening

abbrev pub fence_reason : Option String → String
fence_reason none = "writer was fenced"
fence_reason (some reason) = reason

abbrev pub with_stop : FailKind → String → Option Error → String → Shared → Shared
with_stop kind name cause last s = record s {
  progress = (publish_terminal kind name cause last s.progress).0;
}

-- What the stage leaves when it meets a fence, and whether it did.
unfoldable pub fenced_exit : ℕ → Shared → Shared × Bool
unfolding raise_stream_stopped publish_terminal
fenced_exit after s =
    if is_fenced s
    then (
      raise_stream_stopped after
          (with_stop fenced "pipeline" none (fence_reason s.flags.fenced_by) s),
      true,
    )
    else (s, false)

-- Whether the stage goes on.
enter_writer : Shared × Bool → Shared × Bool
enter_writer (s, is_out) = if is_out then (s, false) else (s, true)

unfoldable pub look_in : ℕ → Look → Shared → Shared × Bool
unfolding happen_all fenced_exit enter_writer
look_in after look s =
    if look.is_alive
    then enter_writer (fenced_exit after (happen_all after s look.meanwhile))
    else (s, false)

-- One attempt: the look before it, what it returns, what happens while it runs, and whether the
-- writer is still there when a permanent failure is to be published.
pub record Try (T : Type 0) : Type 0 where
  pub look : Look
  pub during : List Happening
  pub answer : Result T
  pub is_held : Bool

pub data Verdict (T : Type 0) : Type 0 where
  done : T → Verdict T
  ended : Verdict T
  unfinished : Verdict T

-- What the stages share: the threshold of stalls, and the stage's own name.
pub record StageTask : Type 0 where
  pub after : ℕ
  pub name : String

give_up : StageTask → Error → Shared → Shared
unfolding raise_stream_stopped publish_terminal clone_error to_string
give_up task e s = raise_stream_stopped task.after (
    with_stop rotation task.name (some (clone_error e)) (join task.name (join ": " (to_string e)))
      s)

abbrev pub reported : StageTask → ℤ → ℕ → Error → Shared → Shared
reported task seq attempt e s = record s {
  progress = report_failure seq task.name attempt (is_permanent e) e s.progress;
}

abbrev pub cleared : ℤ → ℕ → Shared → Shared
cleared seq attempt s =
    if ltb 0 attempt then record s { progress = clear_failure seq s.progress } else s

module _ {T : Type 0} where
  after_try :
      StageTask → ℤ → ℕ → Try T → Shared → Shared × Verdict T → Result T → Shared × Verdict T
  unfolding give_up report_failure clear_failure is_permanent
  after_try task seq attempt t s rest (ok v) = (cleared seq attempt s, done v)
  after_try task seq attempt t s rest (err e) =
      if is_permanent e
      then if t.is_held
        then (give_up task e (reported task seq ((attempt + 1) % 2 ^ 32) e s), ended)
        else (reported task seq ((attempt + 1) % 2 ^ 32) e s, ended)
      else rest

  -- What is left of the shared state once an attempt is over and has to be repeated.
  abbrev pub next_shared : StageTask → ℤ → ℕ → Try T → Shared → Shared
  next_shared task seq attempt t s = elim t.answer [
    | ok v ↦ s
    | err e ↦ reported task seq ((attempt + 1) % 2 ^ 32) e s
  ]

  entered_try :
      StageTask → ℤ → ℕ → Try T → Shared × Bool → (Shared → Shared × Verdict T) → Shared × Verdict T
  unfolding after_try happen_all report_failure is_permanent
  entered_try task seq attempt t (s, false) again = (s, ended)
  entered_try task seq attempt t (s, true) again =
      let ran = happen_all task.after s t.during in
      after_try task seq attempt t ran (again (next_shared task seq attempt t ran)) t.answer

  -- The retry loop that the three stages have.
  unfoldable pub attempts : StageTask → ℤ → ℕ → List (Try T) → Shared → Shared × Verdict T
  unfolding entered_try look_in
  attempts task seq attempt [] s = (s, unfinished)
  attempts task seq attempt (t ∷ ts) s =
      entered_try task seq attempt t (look_in task.after t.look s)
        (attempts task seq ((attempt + 1) % 2 ^ 32) ts)
