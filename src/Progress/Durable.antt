-- ===== src/Progress/Durable.antt =====
-- Every change of the progress but a landing leaves the durable seq as it is.
use relyt_ingest.Common.{ℕ, ◌≡◌, refl, String, Bool, Option, none, some, arith}
use relyt_ingest.Common.Int.{ℤ}
use relyt_ingest.Errors.{Error}
use relyt_ingest.Progress.{
  FailKind, Failing, Progress, Event, landed, failed, recovered, stopped, lost, gone,
  publish_terminal, report_failure, clear_failure, on_pipeline_gone, progress_step,
}

pub durable-publish :
    (kind : FailKind) (name : String) (cause : Option Error) (last : String) (p : Progress)
    → (publish_terminal kind name cause last p).0.durable_seq ≡ p.durable_seq
unfolding publish_terminal
durable-publish kind name cause last p = ground arith

pub durable-report :
    (seq : ℤ) (name : String) (n : ℕ) (permanent : Bool) (e : Error) (p : Progress)
    → (report_failure seq name n permanent e p).durable_seq ≡ p.durable_seq
unfolding report_failure
durable-report seq name n permanent e p = ground arith

durable-gone : (o : Option Failing) (p : Progress) → (gone o p).0.durable_seq ≡ p.durable_seq
unfolding gone
durable-gone none p = refl
durable-gone (some f) p = ground arith

-- An event that does not land a file.
abbrev pub IsNoLanding : Event → Type 0
IsNoLanding (landed seq) = ⊥
IsNoLanding _ = Unit

pub durable-step :
    (p : Progress) (e : Event) → IsNoLanding e → (progress_step p e).durable_seq ≡ p.durable_seq
unfolding progress_step on_pipeline_gone clear_failure
durable-step p (landed seq) other = absurd other
durable-step p (failed seq name n permanent e) other = durable-report seq name n permanent e p
durable-step p (recovered seq) other = refl
durable-step p (stopped kind name cause last) other = durable-publish kind name cause last p
durable-step p lost other = durable-gone p.failing p
