-- ===== src/Pipeline/Stages/Prefix.antt =====
-- What the stages hand on: the files of a start of what they received, in that order.
use relyt_ingest.Pipeline.Stages.{stage_run, attempts, go_on}
use relyt_ingest.Common.{
  ◌%◌, ◌+◌, ◌^◌, ℕ, ◌≡◌, refl, ap, Bool, true, false, none, some, List, [], ◌∷◌, map, Bool-cases,
  inl, inr, Option, All, ◌⊎◌, ◌+◌,
}
use relyt_ingest.Common.Int.{ℤ}
use relyt_ingest.Errors.{Result, ok, err}
use relyt_ingest.Progress.{is_permanent}
use relyt_ingest.Stopping.{Shared, happen_all}
use relyt_ingest.Pipeline.{
  StageTask, Try, Verdict, done, attempts, entered_try, after_try, look_in, next_shared,
}
use relyt_ingest.Pipeline.Stages.{stage_run, go_on, with_answer}

-- Two lists that agree entry by entry, the second no longer than the first.
abbrev pub Matches : {X Y : Type 0} → (X → Y → Type 0) → List X → List Y → Type 0
Matches P xs [] = Unit
Matches P [] (y ∷ ys) = ⊥
Matches P (x ∷ xs) (y ∷ ys) = P x y × Matches P xs ys

module _ {Item Visit S Out : Type 0} (step : Item → Visit → S → S × Option Out)
    (P : Item → Out → Type 0) where
  pub stage_run-Matches :
      ((x : Item) (v : Visit) (s : S) (o : Out) → (step x v s).1 ≡ some o → P x o)
      → (xs : List Item) (vs : List Visit) (s : S) → Matches P xs (stage_run step xs vs s).1
  unfolding stage_run
  stage_run-Matches produces [] vs s = tt
  stage_run-Matches produces (x ∷ xs) [] s = tt
  stage_run-Matches produces (x ∷ xs) (v ∷ vs) s =
      on (step x v s) (produces x v s) (λ s'. stage_run-Matches produces xs vs s')
    where
      on :
          (out : S × Option Out)
          → ((o : Out) → out.1 ≡ some o → P x o)
          → ((s' : S) → Matches P xs (stage_run step xs vs s').1)
          → Matches P (x ∷ xs) (go_on step out (stage_run step xs vs)).1
      on (s', none) h rest = tt
      on (s', some o) h rest = (h o refl, rest s')

-- An attempt that ends a loop well has that answer; any other goes on or stops it.
tried :
    {B : Type 0} (task : StageTask) (seq : ℤ) (n : ℕ) (t : Try B) (entry : Shared × Bool)
    (again : Shared → Shared × Verdict B) (v : B)
    → (entered_try task seq n t entry again).1 ≡ done v
    → (t.answer ≡ ok v) ⊎ ((s : Shared) × ((again s).1 ≡ done v))
unfolding entered_try
tried task seq n t (s, false) again v h = cc
tried {B} task seq n t (s, true) again v h =
    on t.answer (happen_all task.after s t.during)
      (next_shared task seq n t (happen_all task.after s t.during)) h
  where
    on :
        (answer : Result B) (ran next : Shared)
        → (after_try task seq n t ran (again next) answer).1 ≡ done v
        → (answer ≡ ok v) ⊎ ((s : Shared) × ((again s).1 ≡ done v))
    on (ok u) ran next h = unfold after_try in let same : u ≡ v = cc in inl (ap (λ w. ok w) same)
    on (err e) ran next h =
        unfold after_try in
        elim (Bool-cases (is_permanent e)) [
          | inl p ↦ elim (Bool-cases t.is_held) [
            | inl q ↦ let stops = rw (p, q) at h in cc
            | inr q ↦ let stops = rw (p, q) at h in cc
          ]
          | inr p ↦ inr (next, rw p at h)
        ]

answered :
    {B : Type 0} (task : StageTask) (seq : ℤ) (P : B → Type 0) (n : ℕ) (ts : List (Try B))
    (s : Shared) (v : B)
    → All (λ t. (u : B) → t.answer ≡ ok u → P u) ts
    → (attempts task seq n ts s).1 ≡ done v
    → P v
unfolding attempts
answered task seq P n [] s v all h = cc
answered task seq P n (t ∷ ts) s v all h =
    elim (tried task seq n t (look_in task.after t.look s) (attempts task seq ((n + 1) % 2 ^ 32) ts)
      v h) [
        | inl here ↦ all.0 v here
        | inr (s', later) ↦ answered task seq P ((n + 1) % 2 ^ 32) ts s' v all.1 later
      ]

-- The same for attempts whose answers are worked on.
pub worked-answered :
    {A B : Type 0} (task : StageTask) (seq : ℤ) (keeps_hold : Bool) (f : Result A → Result B)
    (P : B → Type 0) (ts : List (Try A)) (s : Shared) (v : B)
    → ((a : Result A) (u : B) → f a ≡ ok u → P u)
    → (attempts task seq 0 (map (with_answer keeps_hold f) ts) s).1 ≡ done v
    → P v
worked-answered {A} {B} task seq keeps_hold f P ts s v good h =
    answered task seq P 0 (map (with_answer keeps_hold f) ts) s v (each ts) h
  where
    each :
        (ts : List (Try A))
        → All (λ t. (u : B) → t.answer ≡ ok u → P u) (map (with_answer keeps_hold f) ts)
    each [] = tt
    each (t ∷ ts) = (λ u e. good t.answer u e, each ts)
