-- ===== src/Progress/Tests.antt =====
-- The progress of a writer that is fenced while a file fails.
use relyt_ingest.Common.{◌≡◌, refl, false, none, some, List, [], ◌∷◌, arith}
use relyt_ingest.Common.Int.{pos}
use relyt_ingest.Errors.{Error, storage, other_kind}
use relyt_ingest.Progress.{
  Failing, Progress, Event, landed, failed, recovered, stopped, lost, fenced, order_violation,
  terminal_entry, progress_run,
}
use relyt_ingest.Progress.Terminal.{IsStop, terminal_sticks}

abbrev pub fence : Failing
fence = terminal_entry fenced "put" none "preempted"

abbrev pub halted : Progress
halted = record { durable_seq = some (pos 3); failing = some fence }

abbrev pub running : Progress
running = record { durable_seq = some (pos 3); failing = none }

abbrev pub refused : Error
refused = storage other_kind "timeout"

abbrev pub aftermath : List Event
aftermath =
    landed (pos 4)
    ∷ failed (pos 5) "put" 1 false refused
    ∷ recovered (pos 5)
    ∷ stopped order_violation "put" none "gap"
    ∷ lost
    ∷ []

fence-IsStop : IsStop fence
fence-IsStop = (λ e. cc, refl, refl)

terminal_sticks_example : (progress_run halted aftermath).failing ≡ some fence
terminal_sticks_example =
    terminal_sticks halted fence aftermath (tt, (tt, (λ e. ground (arith, e), (tt, (tt, tt)))))
      fence-IsStop refl

abbrev fencing : Event
fencing = stopped fenced "put" none "preempted"
