-- ===== src/Progress/Terminal.antt =====
-- Lemmas on the entries of the progress channel.
use relyt_ingest.Common.{
  not, ◌&&◌, ℕ, ◌≡◌, refl, sym, ap, ◌∙◌, ◌⊎◌, inl, inr, ◌≢◌, String, Bool, true, false, Option,
  none, some, List, [], ◌∷◌, arith, All, Bool-cases, not,
}
use relyt_ingest.Common.Int.{ℤ, ◌≤ℤ◌, ◌<ℤ◌, eq_ℤ, eq_ℤ_iff, leb_ℤ}
use relyt_ingest.Errors.{Error}
use relyt_ingest.Progress.{
  FailKind, stage, pipeline_gone, fenced, order_violation, rotation, Failing, Progress, Event,
  landed, failed, recovered, stopped, lost, is_terminal, min_i64, is_stopped, outranks, past,
  caught_up, land, report_failure, clear_failure, publish_terminal, on_pipeline_gone, gone,
  progress_step, progress_run, stage_entry,
}

-- No stage recovers with the seq that terminal entries carry, which no encoding returns.
abbrev pub IsReal : Event → Type 0
IsReal (recovered seq) = seq ≢ min_i64
IsReal _ = Unit

-- The entry of a stopped writer, of any kind but a stage's.
abbrev pub IsStop : Failing → Type 0
IsStop f = (f.kind ≢ stage) × (f.seq ≡ min_i64) × (f.permanent ≡ true)

pub terminal_kind : (kind : FailKind) → kind ≢ stage → is_terminal kind ≡ true
unfolding is_terminal
terminal_kind stage h = absurd (h refl)
terminal_kind pipeline_gone h = refl
terminal_kind fenced h = refl
terminal_kind order_violation h = refl
terminal_kind rotation h = refl

-- A terminal entry as `publish_terminal` and `pipeline_gone` write it.
abbrev pub IsEntry : Failing → Type 0
IsEntry f = (is_terminal f.kind ≡ true) × (f.seq ≡ min_i64) × (f.permanent ≡ true)

-- Every terminal entry has that form.
abbrev pub StopsWell : Option Failing → Type 0
StopsWell none = Unit
StopsWell (some f) = is_terminal f.kind ≡ true → IsEntry f

different : (a b : ℤ) → a ≢ b → eq_ℤ a b ≡ false
different a b h = elim (Bool-cases (eq_ℤ a b)) [
  | inl e ↦ absurd (h ((eq_ℤ_iff a b).0 e))
  | inr e ↦ e
]

publish_keeps :
    (kind : FailKind) (name : String) (cause : Option Error) (last : String) (p : Progress)
    → is_stopped p.failing ≡ true
    → (publish_terminal kind name cause last p).0 ≡ p
unfolding publish_terminal
publish_keeps kind name cause last p h = rw h refl

gone_keeps : (f : Failing) (p : Progress) → is_terminal f.kind ≡ true → (gone (some f) p).0 ≡ p
unfolding gone
gone_keeps f p h = rw h refl

step_sticks :
    (p : Progress) (f : Failing) (ev : Event)
    → IsReal ev
    → IsEntry f
    → p.failing ≡ some f
    → (progress_step p ev).failing ≡ some f
unfolding progress_step land report_failure clear_failure publish_terminal on_pipeline_gone gone
step_sticks p f (landed seq) real (t, s, perm) h = rw (h, t) refl
step_sticks p f (failed seq name attempt permanent e) real (t, s, perm) h = rw (h, t) refl
step_sticks p f (recovered seq) real (t, s, perm) h =
    rw (h, s, different min_i64 seq (λ e. real (sym e))) refl
step_sticks p f (stopped kind name cause last) real (t, s, perm) h =
    ap (λ q. q.failing) (publish_keeps kind name cause last p (ap is_stopped h ∙ t)) ∙ h
step_sticks p f lost real (t, s, perm) h =
    ap (λ q. q.failing) (ap (λ o. (gone o p).0) h ∙ gone_keeps f p t) ∙ h

pub entry_sticks :
    (p : Progress) (f : Failing) (events : List Event)
    → All IsReal events
    → IsEntry f
    → p.failing ≡ some f
    → (progress_run p events).failing ≡ some f
unfolding progress_run
entry_sticks p f [] real t h = h
entry_sticks p f (ev ∷ events) real t h =
    entry_sticks (progress_step p ev) f events real.1 t (step_sticks p f ev real.0 t h)

-- The entry of a stopped writer is never overwritten by another failure or stop and never cleared,
-- whatever the tasks do next, as long as no stage recovers under the seq that such entries carry.
pub terminal_sticks :
    (p : Progress) (f : Failing) (events : List Event)
    → All IsReal events
    → IsStop f
    → p.failing ≡ some f
    → (progress_run p events).failing ≡ some f
terminal_sticks p f events real (kind, seq, perm) h =
    entry_sticks p f events real (terminal_kind f.kind kind, seq, perm) h

publish_well :
    (kind : FailKind) (name : String) (cause : Option Error) (last : String) (p : Progress)
    → StopsWell p.failing
    → StopsWell (publish_terminal kind name cause last p).0.failing
unfolding publish_terminal
publish_well kind name cause last p h = elim (Bool-cases (is_stopped p.failing)) [
  | inl stays ↦ rw stays h
  | inr new ↦ rw new (λ t. (t, refl, refl))
]

step_well :
    (p : Progress) (ev : Event) → StopsWell p.failing → StopsWell (progress_step p ev).failing
unfolding progress_step
step_well p (landed seq) h = unfold land in keeps p.failing h
  where
    keeps : (o : Option Failing) → StopsWell o → StopsWell (caught_up seq o)
    keeps none h = tt
    keeps (some f) h = elim (Bool-cases (not (is_terminal f.kind) && leb_ℤ f.seq seq)) [
      | inl e ↦ rw e tt
      | inr e ↦ rw e h
    ]
step_well p (failed seq name attempt permanent e) h =
    unfold report_failure in
    elim (Bool-cases (outranks seq p.failing)) [
      | inl stays ↦ rw stays h
      | inr new ↦ rw new (λ t. absurd (unfold is_terminal in cc))
    ]
step_well p (recovered seq) h = unfold clear_failure in keeps p.failing h
  where
    keeps : (o : Option Failing) → StopsWell o → StopsWell (past seq o)
    keeps none h = tt
    keeps (some f) h = elim (Bool-cases (eq_ℤ f.seq seq)) [ inl e ↦ rw e tt | inr e ↦ rw e h ]
step_well p (stopped kind name cause last) h = publish_well kind name cause last p h
step_well p lost h = unfold on_pipeline_gone in keeps p.failing p h
  where
    keeps :
        (o : Option Failing) (p : Progress) → StopsWell p.failing → StopsWell (gone o p).0.failing
    keeps none p h = unfold gone in λ t. (t, refl, refl)
    keeps (some f) p h =
        unfold gone in
        elim (Bool-cases (is_terminal f.kind)) [
          | inl stays ↦ rw stays h
          | inr new ↦ rw new (λ t. (t, refl, refl))
        ]

pub run_well :
    (p : Progress) (events : List Event)
    → StopsWell p.failing
    → StopsWell (progress_run p events).failing
unfolding progress_run
run_well p [] h = h
run_well p (ev ∷ events) h = run_well (progress_step p ev) events (step_well p ev h)

-- After a failure of the file `seq` was reported, the entry is a terminal one that was there before,
-- or one of a file not later than `seq`; an entry of an earlier file is left as it was.
pub report_failure_head :
    (seq : ℤ) (name : String) (attempt : ℕ) (permanent : Bool) (e : Error) (p : Progress)
    → ((f : Failing)
        → (report_failure seq name attempt permanent e p).failing ≡ some f
        → ((is_terminal f.kind ≡ true) × (p.failing ≡ some f)) ⊎ (f.seq ≤ℤ seq))
      × ((f : Failing)
          → p.failing ≡ some f
          → f.seq <ℤ seq
          → (report_failure seq name attempt permanent e p).failing ≡ some f)
unfolding report_failure
report_failure_head seq name attempt permanent e p = elim (Bool-cases (outranks seq p.failing)) [
  | inl stays ↦ rw stays (
    λ f h. elim (outranking p.failing f stays h) [
      | inl t ↦ inl (t, h)
      | inr lt ↦ inr (omega arith)
    ],
    λ f h lt. h,
  )
  | inr new ↦
      rw new
        (λ f h. inr (reported f h), λ f h lt. absurd (ground (arith, earlier p.failing f h lt)))
]
  where
    outranking :
        (o : Option Failing) (f : Failing)
        → outranks seq o ≡ true
        → o ≡ some f
        → (is_terminal f.kind ≡ true) ⊎ (f.seq <ℤ seq)
    outranking none f h e = cc
    outranking (some g) f h e =
        let same : g ≡ f = ground (arith, e) in
        let wins : outranks seq (some f) ≡ true = rw (← same) h in ground (arith, wins)

    earlier : (o : Option Failing) (f : Failing) → o ≡ some f → f.seq <ℤ seq → outranks seq o ≡ true
    earlier o f e lt = rw e (ground arith)

    reported :
        (f : Failing) → some (stage_entry seq name attempt permanent e) ≡ some f → f.seq ≤ℤ seq
    reported f h = let same : seq ≡ f.seq = ground (arith, h) in rw same (omega arith)
