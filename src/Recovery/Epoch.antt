-- ===== src/Recovery/Epoch.antt =====
-- Lemmas on `next_epoch` and `max_staged`.
use relyt_ingest.Common.{
  ℕ, ◌+◌, ◌^◌, ◌≤◌, ◌<◌, ◌≡◌, refl, sym, ◌∙◌, ◌⊎◌, inl, inr, Option, none, some, List, [], ◌∷◌,
  arith, All, last, Option-cases,
}
use relyt_ingest.Errors.{ok}
use relyt_ingest.Naming.{StagedFile}
use relyt_ingest.Naming.KeyOrder.{IsEncodable}
use relyt_ingest.Recovery.{RecoveryPlan, sort_by_key, key_of, next_epoch, plan_recovery, ℤ}
use relyt_ingest.Recovery.Sorting.{KeyLe, IsSorted, sort-IsSorted, All-unsort, All-sort}
use relyt_ingest.Recovery.Plan.{plan_inversion, plan_recovery_backfill}

-- The pair of a file is not above the given one.
abbrev pub KeyAtMost : ℕ → ℕ → StagedFile → Type 0
KeyAtMost e s f = (f.epoch_ms < e) ⊎ ((f.epoch_ms ≡ e) × (f.seq ≤ s))

last_highest :
    (fs : List StagedFile) (e s : ℕ)
    → IsSorted fs
    → key_of (last fs) ≡ some (e, s)
    → All (KeyAtMost e s) fs
last_highest [] e s h k = tt
last_highest (f ∷ []) e s h k = (ground arith, tt)
last_highest (f ∷ g ∷ fs) e s h k =
    let rest = last_highest (g ∷ fs) e s h.1 k in (below (h.0.0) rest.0, rest)
  where
    below : KeyLe f g → KeyAtMost e s g → KeyAtMost e s f
    below a b = ground arith

last_none : (fs : List StagedFile) → key_of (last fs) ≡ none → fs ≡ []
last_none [] k = refl
last_none (f ∷ []) k = cc
last_none (f ∷ g ∷ fs) k = absurd (ground (arith, last_none (g ∷ fs) k))

-- What the highest pair of a plan says of the files listed.
pub max_staged_highest :
    (staged : List StagedFile) (w : Option ℤ) (plan : RecoveryPlan) (e s : ℕ)
    → (plan_recovery staged w).1 ≡ ok plan
    → plan.max_staged ≡ some (e, s)
    → All (KeyAtMost e s) staged
max_staged_highest staged w plan e s h top =
    let (on, resume, highest) = plan_inversion staged w plan h in
    All-unsort (KeyAtMost e s) staged
      (last_highest (sort_by_key staged) e s (sort-IsSorted staged) (sym highest ∙ top))

-- The epoch has a successor in u64.
abbrev pub Fits : Option (ℕ × ℕ) → Type 0
Fits none = Unit
Fits (some (e, s)) = e + 1 < 2 ^ 64

last-Fits : (fs : List StagedFile) → All IsEncodable fs → Fits (key_of (last fs))
last-Fits [] h = tt
last-Fits (f ∷ []) h = omega arith
last-Fits (f ∷ g ∷ fs) h = last-Fits (g ∷ fs) h.1

pub max_staged-Fits :
    (staged : List StagedFile) (w : Option ℤ) (plan : RecoveryPlan)
    → (plan_recovery staged w).1 ≡ ok plan
    → Fits plan.max_staged
max_staged-Fits staged w plan h =
    let (on, resume, highest) = plan_inversion staged w plan h in
    let coded = ((plan_recovery_backfill staged w).1 plan h).0 in
    rw highest (last-Fits (sort_by_key staged) (All-sort IsEncodable staged coded))

-- The pair exists and its epoch is at least this one.
abbrev pub AtLeast : ℕ → Option (ℕ × ℕ) → Type 0
AtLeast e o = (e' : ℕ) × (s' : ℕ) × (o ≡ some (e', s')) × (e ≤ e')

pub next_epoch-above :
    (now e : ℕ) (o : Option (ℕ × ℕ)) → Fits o → AtLeast e o → e < next_epoch now o
unfolding next_epoch
next_epoch-above now e none fits (e', s', same, le) = cc
next_epoch-above now e (some (x, y)) fits (e', s', same, le) = ground (arith, same)

pub next_epoch-now : (now : ℕ) (o : Option (ℕ × ℕ)) → Fits o → now ≤ next_epoch now o
unfolding next_epoch
next_epoch-now now none fits = omega arith
next_epoch-now now (some (e, s)) fits = ground arith

All-below :
    (e s b : ℕ) (fs : List StagedFile)
    → e < b
    → All (KeyAtMost e s) fs
    → All (λ f. f.epoch_ms < b) fs
All-below e s b [] lt h = tt
All-below e s b (f ∷ fs) lt h = (ground arith, All-below e s b fs lt h.1)

-- An epoch above the highest pair of the plan is above that of every file listed.
pub staged_below :
    (staged : List StagedFile) (w : Option ℤ) (plan : RecoveryPlan) (b : ℕ)
    → (plan_recovery staged w).1 ≡ ok plan
    → ((e s : ℕ) → plan.max_staged ≡ some (e, s) → e < b)
    → All (λ f. f.epoch_ms < b) staged
staged_below staged w plan b h lt = elim (Option-cases plan.max_staged) [
  | inl none_staged ↦
      let (on, resume, highest) = plan_inversion staged w plan h in
      All-unsort _ staged (rw (last_none (sort_by_key staged) (sym highest ∙ none_staged)) tt)
  | inr ((e, s), top) ↦
      All-below e s b staged (lt e s top) (max_staged_highest staged w plan e s h top)
]
