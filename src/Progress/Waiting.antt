-- ===== src/Progress/Waiting.antt =====
-- What a waiter on the progress is told: durable files, stalls and stopped writers.
use relyt_ingest.Common.{
  ◌<◌, ℕ, ◌≡◌, refl, ap, ◌∙◌, inl, inr, ◌↔◌, String, true, false, none, some, List, [], ◌∷◌, arith,
  All, ◌++◌, Bool-cases, Option-cases, leb, ◌<◌, if◌then◌else◌,
}
use relyt_ingest.Common.Int.{ℤ, ◌≤ℤ◌, ltb_ℤ}
use Prim.Native.String.{◌++◌ as join}
use relyt_ingest.Errors.{
  schema, unsupported_type, to_string, staging_stalled, Error, Result, ok, err, rotation_failed,
}
use relyt_ingest.Progress.{
  Progress, reached, stall_error, terminal_error, await_durable, report_failure, is_permanent,
  clone_error,
}

-- The waiter goes on past this value.
abbrev pub IsQuiet : ℕ → ℤ → Progress → Type 0
IsQuiet after target p =
    (reached p.durable_seq target ≡ false) × (stall_error after p.failing target ≡ none)

quiet-skip :
    (after : ℕ) (target : ℤ) (pre ps : List Progress)
    → All (IsQuiet after target) pre
    → await_durable after target (pre ++ ps) ≡ await_durable after target ps
unfolding await_durable
quiet-skip after target [] ps h = refl
quiet-skip after target (p ∷ pre) ps ((r, s), h) = rw (r, s) (quiet-skip after target pre ps h)

found :
    (after : ℕ) (target : ℤ) (ps : List Progress)
    → await_durable after target ps ≡ ok tt
    → (pre : List Progress) × (p : Progress) × (post : List Progress) × (ps ≡ pre ++ p ∷ post)
      × All (IsQuiet after target) pre
      × (reached p.durable_seq target ≡ true)
unfolding await_durable
found after target [] h = cc
found after target (p ∷ ps) h = elim (Bool-cases (reached p.durable_seq target)) [
  | inl r ↦ ([], p, ps, refl, tt, r)
  | inr r ↦ elim (Option-cases (stall_error after p.failing target)) [
    | inl s ↦
        let (pre, q, post, eq, quiet, at_q) = found after target ps (rw (r, s) at h) in
        (p ∷ pre, q, post, ap (λ l. p ∷ l) eq, ((r, s), quiet), at_q)
    | inr (e, s) ↦
        let failed : ◌≡◌ {A = Result (Unit {0})} (err e) (ok tt) = rw (r, s) at h in absurd (cc)
  ]
]

ends_at :
    (after : ℕ) (target : ℤ) (p : Progress) (post : List Progress)
    → reached p.durable_seq target ≡ true
    → await_durable after target (p ∷ post) ≡ ok tt
unfolding await_durable
ends_at after target p post r = rw r refl

-- The wait ends well exactly where some value shows the target durable and none before it shows it
-- durable or a stall that the waiter has to hear of.
pub await_durable_iff :
    (after : ℕ) (target : ℤ) (ps : List Progress)
    → (await_durable after target ps ≡ ok tt) ↔ (
        (pre : List Progress) × (p : Progress) × (post : List Progress) × (ps ≡ pre ++ p ∷ post)
        × All (IsQuiet after target) pre
        × (reached p.durable_seq target ≡ true))
await_durable_iff after target ps = (
  found after target ps,
  λ (pre, p, post, e, quiet, r).
      ap (await_durable after target) e
      ∙ quiet-skip after target pre (p ∷ post) quiet
      ∙ ends_at after target p post r,
)

permanent_clone : (e : Error) → is_permanent e ≡ true → clone_error e ≡ e
unfolding is_permanent clone_error
permanent_clone (schema m) h = refl
permanent_clone (unsupported_type column data_type) h = refl
permanent_clone _ h = cc

-- A failure that is permanent stops the wait of every waiter on this file or a later one at once,
-- with the failure itself: it is kept whole in the entry. A transient one does so only once the
-- attempts reach the threshold, and then as a stall.
pub report_failure-stall :
    (after : ℕ) (seq target : ℤ) (name : String) (attempt : ℕ) (e : Error) (p : Progress)
    → p.failing ≡ none
    → seq ≤ℤ target
    → (is_permanent e ≡ true
        → stall_error after (report_failure seq name attempt true e p).failing target
          ≡ some (rotation_failed name e))
      × (stall_error after (report_failure seq name attempt false e p).failing target ≡ none
          ↔ attempt < after)
report_failure-stall after seq target name attempt e p h le = (
  λ perm. fatal perm,
  (λ quiet. ground (arith, transient, quiet), λ few. transient ∙ ground arith),
)
  where
    at_or_after : ltb_ℤ target seq ≡ false
    at_or_after = ground arith

    cloned : is_permanent e ≡ true → clone_error e ≡ e
    cloned perm = permanent_clone e perm

    fatal :
        is_permanent e ≡ true
        → stall_error after (report_failure seq name attempt true e p).failing target
          ≡ some (rotation_failed name e)
    fatal perm =
        unfold report_failure in
        unfold stall_error in
        unfold terminal_error in
        rw (h, at_or_after) (ap (λ x. some (rotation_failed name x)) (cloned perm))

    transient : stall_error after (report_failure seq name attempt false e p).failing target ≡ (
        if leb after attempt
        then some (staging_stalled attempt (join name (join ": " (to_string e))))
        else none)
    transient =
        unfold report_failure in
        unfold stall_error in
        unfold terminal_error in
        rw (h, at_or_after)
          (elim (Bool-cases (leb after attempt)) [ inl e ↦ rw e refl | inr e ↦ rw e refl ])
