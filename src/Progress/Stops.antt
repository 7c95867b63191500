-- ===== src/Progress/Stops.antt =====
-- The entry that a stop of the writer leaves on the progress channel.
use relyt_ingest.Common.{
  ◌≡◌, refl, ap, ◌⊎◌, inl, inr, ◌≢◌, String, true, false, Option, none, some, Bool-cases,
}
use relyt_ingest.Errors.{Error}
use relyt_ingest.Progress.{
  FailKind, stage, pipeline_gone, Failing, Progress, Event, landed, failed, recovered, stopped,
  lost, is_terminal, is_stopped, publish_terminal, on_pipeline_gone, gone, progress_step,
  terminal_entry,
}
use relyt_ingest.Progress.Terminal.{IsEntry, StopsWell, terminal_kind}

-- What stops a writer: a terminal failure that is published, or the loss of the pipeline.
abbrev pub IsStopping : Event → Type 0
IsStopping (stopped kind name cause last) = kind ≢ stage
IsStopping lost = Unit
IsStopping _ = ⊥

-- The entry that a stop leaves, where the writer was not stopped before.
abbrev pub IsLeftBy : Event → Failing → Type 0
IsLeftBy (stopped kind name cause last) f =
    (f.kind ≡ kind) × (f.stage_name ≡ name) × (f.cause ≡ cause) × (f.last ≡ last)
IsLeftBy lost f = f.kind ≡ pipeline_gone
IsLeftBy _ f = ⊥

-- The entry after a stop: the terminal one from before, or that of the stop.
abbrev pub IsStoppedBy : Option Failing → Event → Failing → Type 0
IsStoppedBy old stop f =
    ((old ≡ some f) × (f.kind ≢ stage)) ⊎ ((is_stopped old ≡ false) × IsLeftBy stop f)

not_stage : (kind : FailKind) → is_terminal kind ≡ true → kind ≢ stage
unfolding is_terminal
not_stage kind h e = let same : is_terminal kind ≡ false = ap is_terminal e in cc

-- What the entry of a progress is after a stop, by what it was before.
abbrev pub IsStopEntry : Option Failing → Event → Option Failing → Type 0
IsStopEntry old stop new = (f : Failing) × (new ≡ some f) × IsEntry f × IsStoppedBy old stop f

published_entry :
    (kind : FailKind) (name : String) (cause : Option Error) (last : String) (p : Progress)
    (old : Option Failing)
    → p.failing ≡ old
    → StopsWell old
    → kind ≢ stage
    → IsStopEntry old
        (stopped kind name cause last)
        (publish_terminal kind name cause last p).0.failing
unfolding publish_terminal
published_entry kind name cause last p none e well stops = rw e (
  terminal_entry kind name cause last,
  refl,
  (terminal_kind kind stops, refl, refl),
  inr (refl, (refl, refl, refl, refl)),
)
published_entry kind name cause last p (some f) e well stops =
    elim (Bool-cases (is_terminal f.kind)) [
      | inl t ↦ rw (e, t) (f, refl, well t, inl (refl, not_stage f.kind t))
      | inr t ↦
          rw (e, t)
            (
              terminal_entry kind name cause last,
              refl,
              (terminal_kind kind stops, refl, refl),
              inr (refl, (refl, refl, refl, refl)),
            )
    ]

gone_entry :
    (p : Progress) (old : Option Failing)
    → p.failing ≡ old
    → StopsWell old
    → IsStopEntry old lost (gone old p).0.failing
unfolding gone
gone_entry p none e well = (
  terminal_entry pipeline_gone "pipeline" none "rotation pipeline is gone",
  refl,
  (refl, refl, refl),
  inr (refl, refl),
)
gone_entry p (some f) e well = elim (Bool-cases (is_terminal f.kind)) [
  | inl t ↦ rw t (f, e, well t, inl (refl, not_stage f.kind t))
  | inr t ↦ rw t (
    terminal_entry pipeline_gone "pipeline" none "rotation pipeline is gone",
    refl,
    (refl, refl, refl),
    inr (refl, refl),
  )
]

pub stop_entry :
    (p : Progress) (stop : Event)
    → StopsWell p.failing
    → IsStopping stop
    → IsStopEntry p.failing stop (progress_step p stop).failing
unfolding progress_step
stop_entry p (landed seq) well stops = absurd stops
stop_entry p (failed seq name attempt permanent e) well stops = absurd stops
stop_entry p (recovered seq) well stops = absurd stops
stop_entry p (stopped kind name cause last) well stops =
    published_entry kind name cause last p p.failing refl well stops
stop_entry p lost well stops = unfold on_pipeline_gone in gone_entry p p.failing refl well
