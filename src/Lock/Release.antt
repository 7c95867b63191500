-- ===== src/Lock/Release.antt =====
-- src/table.rs: `release_lease`, which `close` calls.
use relyt_ingest.Common.{
  ◌≡◌, ◌≢◌, ◌⊎◌, inl, inr, refl, sym, ap, ◌∙◌, Bool, true, false, Option, none, some, if◌then◌else◌,
  Bool-cases, ◌↔◌,
}
use relyt_ingest.Common.Text.{Bytes, bytes_eq, bytes_eq_iff}
use relyt_ingest.Errors.{Result, ok, err}
use relyt_ingest.Lock.{LockFile}

-- What the store answers to an attempt's read and to its delete.
abbrev pub Answer : Type 0
Answer = Result (Option LockFile) × Result (Unit {0})

-- What an attempt finds out: `true` ends the loop with success.
abbrev pub deleted : Result (Unit {0}) → Bool
deleted (ok done) = true
deleted (err e) = false

unfoldable pub release_attempt : Bytes → Answer → Bool
unfolding bytes_eq
release_attempt me (ok (some l), delete) =
    if bytes_eq l.instance_uuid me then deleted delete else true
release_attempt me (ok none, delete) = true
release_attempt me (err e, delete) = false

-- The three attempts.
unfoldable pub release_lease : Bytes → Answer → Answer → Answer → Bool
unfolding release_attempt
release_lease me first second third =
    if release_attempt me first
    then true
    else if release_attempt me second
    then true
    else release_attempt me third

-- Nothing of this writer is left in the store.
abbrev pub IsGone : Bytes → Answer → Type 0
IsGone me (read, delete) =
    (read ≡ ok none)
    ⊎ ((l : LockFile) × (read ≡ ok (some l)) × (l.instance_uuid ≢ me))
    ⊎ ((l : LockFile) × (read ≡ ok (some l)) × (l.instance_uuid ≡ me) × (delete ≡ ok tt))

attempt-IsGone :
    (me : Bytes) (answer : Answer) → release_attempt me answer ≡ true → IsGone me answer
unfolding release_attempt
attempt-IsGone me (ok none, delete) h = inl refl
attempt-IsGone me (err e, delete) h = cc h
attempt-IsGone me (ok (some l), delete) h = elim (Bool-cases (bytes_eq l.instance_uuid me)) [
  | inr other ↦ inr (inl (l, refl, λ e. cc (other, (bytes_eq_iff l.instance_uuid me).1 e)))
  | inl own ↦ inr (
      inr (
        l,
        refl,
        (bytes_eq_iff l.instance_uuid me).0 own,
        done delete (ap (λ b. if b then deleted delete else true) (sym own) ∙ h),
      ))
]
  where
    done : (r : Result (Unit {0})) → deleted r ≡ true → r ≡ ok tt
    done (ok u) h = refl
    done (err e) h = cc h

IsGone-attempt :
    (me : Bytes) (answer : Answer) → IsGone me answer → release_attempt me answer ≡ true
unfolding release_attempt
IsGone-attempt me (read, delete) (inl none_left) = rw none_left refl
IsGone-attempt me (read, delete) (inr (inl (l, e, other))) =
    rw e (elim (Bool-cases (bytes_eq l.instance_uuid me)) [
      | inl same ↦ absurd (other ((bytes_eq_iff l.instance_uuid me).0 same))
      | inr different ↦ rw different refl
    ])
IsGone-attempt me (read, delete) (inr (inr (l, e, own, d))) =
    rw (e, d) (rw ((bytes_eq_iff l.instance_uuid me).1 own) refl)

-- The release succeeds exactly where one of its three attempts saw no lock, saw another's, or saw its own
-- and deleted it.
pub release_lease_iff :
    (me : Bytes) (first second third : Answer)
    → (release_lease me first second third ≡ true)
      ↔ (IsGone me first ⊎ IsGone me second ⊎ IsGone me third)
unfolding release_lease
release_lease_iff me first second third = (
  (λ h. elim (Bool-cases (release_attempt me first)) [
    | inl one ↦ inl (attempt-IsGone me first one)
    | inr failed ↦ elim (Bool-cases (release_attempt me second)) [
      | inl two ↦ inr (inl (attempt-IsGone me second two))
      | inr none_yet ↦ inr (
          inr (
            attempt-IsGone me third
              (last (release_attempt me first) (release_attempt me second) failed none_yet h)))
    ]
  ]),
  λ h. elim h [
    | inl one ↦ rw (IsGone-attempt me first one) refl
    | inr (inl two) ↦ rw (IsGone-attempt me second two) (either (release_attempt me first))
    | inr (inr three) ↦
        rw (IsGone-attempt me third three)
          (any (release_attempt me first) (release_attempt me second))
  ],
)
  where
    last :
        (a b : Bool) {c : Bool}
        → a ≡ false
        → b ≡ false
        → (if a then true else if b then true else c) ≡ true
        → c ≡ true
    last true b failed no₂ h = cc failed
    last false true failed no₂ h = cc no₂
    last false false failed no₂ h = h

    either : (a : Bool) → (if a then true else true) ≡ true
    either true = refl
    either false = refl

    any : (a b : Bool) → (if a then true else if b then true else true) ≡ true
    any true b = refl
    any false true = refl
    any false false = refl
