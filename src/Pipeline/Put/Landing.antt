-- ===== src/Pipeline/Put/Landing.antt =====
-- What the progress says of the files that the put stage has made durable.
use Prim.Native.String.{◌++◌ as join}
use relyt_ingest.Common.{
  ℕ, ◌+◌, ◌%◌, ◌^◌, ◌≡◌, refl, ◌∙◌, inl, inr, Bool, true, false, none, some, List, [], ◌∷◌, All,
  Bool-cases, arith, ltb, if_elim,
}
use relyt_ingest.Common.Int.{ℤ}
use relyt_ingest.Errors.{Error, Result, ok, err, to_string}
use relyt_ingest.Progress.{fenced, rotation, is_permanent}
use relyt_ingest.Progress.Durable.{durable-publish, durable-report}
use relyt_ingest.Stopping.{Shared, happen_all, is_fenced}
use relyt_ingest.Stopping.Durable.{IsOther, durable_of, durable-raise, durable-happen_all}
use relyt_ingest.Pipeline.{
  Look, Try, Verdict, StageTask, look_in, attempts, fenced_exit, enter_writer, give_up, after_try,
  entered_try, reported, next_shared, is_fenced, fenced, fence_reason, with_stop, clone_error,
}

durable-fenced_exit : (after : ℕ) (s : Shared) → durable_of (fenced_exit after s).0 ≡ durable_of s
unfolding fenced_exit
durable-fenced_exit after s = elim (Bool-cases (is_fenced s)) [
  | inl e ↦ rw e (
      durable-raise after (with_stop fenced "pipeline" none (fence_reason s.flags.fenced_by) s)
      ∙ durable-publish fenced "pipeline" none (fence_reason s.flags.fenced_by) s.progress)
  | inr e ↦ rw e refl
]

pub durable-look_in :
    (after : ℕ) (look : Look) (s : Shared)
    → All IsOther look.meanwhile
    → durable_of (look_in after look s).0 ≡ durable_of s
unfolding look_in
durable-look_in after look s others = elim (Bool-cases look.is_alive) [
  | inl e ↦ rw e (
      entering (fenced_exit after (happen_all after s look.meanwhile))
      ∙ durable-fenced_exit after (happen_all after s look.meanwhile)
      ∙ durable-happen_all after s look.meanwhile others)
  | inr e ↦ rw e refl
]
  where
    entering : (out : Shared × Bool) → durable_of (enter_writer out).0 ≡ durable_of out.0
    entering (s', is_out) = unfold enter_writer in ground arith

durable-give_up :
    (task : StageTask) (e : Error) (s : Shared) → durable_of (give_up task e s) ≡ durable_of s
unfolding give_up
durable-give_up task e s =
    let why = join task.name (join ": " (to_string e)) in
    durable-raise task.after (with_stop rotation task.name (some (clone_error e)) why s)
    ∙ durable-publish rotation task.name (some (clone_error e)) why s.progress

module _ {T : Type 0} where
  abbrev pub OthersTry : Try T → Type 0
  OthersTry t = All IsOther t.look.meanwhile × All IsOther t.during

  pub durable-attempts :
      (task : StageTask) (seq : ℤ) (n : ℕ) (ts : List (Try T)) (s : Shared)
      → All OthersTry ts
      → durable_of (attempts task seq n ts s).0 ≡ durable_of s
  unfolding attempts
  durable-attempts task seq n [] s others = refl
  durable-attempts task seq n (t ∷ ts) s others =
      entering (look_in task.after t.look s)
        (λ s'. durable-attempts task seq ((n + 1) % 2 ^ 32) ts s' others.1)
      ∙ durable-look_in task.after t.look s others.0.0
    where
      told : Error → Shared → Shared
      told e ran = reported task seq ((n + 1) % 2 ^ 32) e ran

      durable-told : (e : Error) (ran : Shared) → durable_of (told e ran) ≡ durable_of ran
      durable-told e ran =
          durable-report seq task.name ((n + 1) % 2 ^ 32) (is_permanent e) e ran.progress

      trying :
          (answer : Result T) (ran : Shared) (rest : Shared × Verdict T)
          → durable_of rest.0 ≡ durable_of ran
          → durable_of (after_try task seq n t ran rest answer).0 ≡ durable_of ran
      trying (ok v) ran rest later =
          unfold after_try in elim (Bool-cases (ltb 0 n)) [ inl e ↦ rw e refl | inr e ↦ rw e refl ]
      trying (err e) ran rest later =
          unfold after_try in
          if_elim Keeps (is_permanent e)
            (if_elim Keeps t.is_held (durable-give_up task e (told e ran) ∙ durable-told e ran)
              (durable-told e ran))
            later
        where
          Keeps : Shared × Verdict T → Type 0
          Keeps out = durable_of out.0 ≡ durable_of ran

      again :
          (answer : Result T) (ran : Shared)
          → t.answer ≡ answer
          → ((s' : Shared)
              → durable_of (attempts task seq ((n + 1) % 2 ^ 32) ts s').0 ≡ durable_of s')
          → durable_of (attempts task seq ((n + 1) % 2 ^ 32) ts (next_shared task seq n t ran)).0
            ≡ durable_of ran
      again (ok v) ran e later = rw e (later ran)
      again (err x) ran e later = rw e (later (told x ran) ∙ durable-told x ran)

      entering :
          (look : Shared × Bool)
          → ((s' : Shared)
              → durable_of (attempts task seq ((n + 1) % 2 ^ 32) ts s').0 ≡ durable_of s')
          → durable_of (entered_try task seq n t look (attempts task seq ((n + 1) % 2 ^ 32) ts)).0
            ≡ durable_of look.0
      entering (s', false) later = refl
      entering (s', true) later =
          let ran = happen_all task.after s' t.during in
          unfold entered_try in
          trying t.answer ran _ (again t.answer ran refl later)
          ∙ durable-happen_all task.after s' t.during others.0.1
