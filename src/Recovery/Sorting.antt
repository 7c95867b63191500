-- ===== src/Recovery/Sorting.antt =====
-- The sort of `plan_recovery`.
use mathlib.Core.List.{Perm}
use mathlib.Core.List.Perm
use relyt_ingest.Common.{
  if◌then◌else◌, ◌≤◌, ◌<◌, ◌≡◌, ◌⊎◌, inl, inr, Bool, true, false, List, [], ◌∷◌, arith, keep_if,
  All, Bool-cases,
}
use relyt_ingest.Naming.{StagedFile}
use relyt_ingest.Recovery.{key_leb, insert_by_key, sort_by_key}

-- The pair of one file is not above that of the other.
abbrev pub KeyLe : StagedFile → StagedFile → Type 0
KeyLe f g = (f.epoch_ms < g.epoch_ms) ⊎ ((f.epoch_ms ≡ g.epoch_ms) × (f.seq ≤ g.seq))

-- Every file is at or below all that follow it.
abbrev pub IsSorted : List StagedFile → Type 0
IsSorted [] = Unit
IsSorted (f ∷ fs) = All (KeyLe f) fs × IsSorted fs

KeyLe-cases :
    (f g : StagedFile) → (key_leb f g ≡ true) × KeyLe f g ⊎ (key_leb f g ≡ false) × KeyLe g f
KeyLe-cases f g = ground arith

KeyLe-trans : (f g h : StagedFile) → KeyLe f g → KeyLe g h → KeyLe f h
KeyLe-trans f g h a b = ground arith

All-trans :
    (f g : StagedFile) (fs : List StagedFile) → KeyLe f g → All (KeyLe g) fs → All (KeyLe f) fs
All-trans f g [] le h = tt
All-trans f g (k ∷ fs) le h = (KeyLe-trans f g k le h.0, All-trans f g fs le h.1)

All-insert :
    (P : StagedFile → Type 0) (f : StagedFile) (fs : List StagedFile)
    → P f
    → All P fs
    → All P (insert_by_key f fs)
unfolding insert_by_key
All-insert P f [] p h = (p, tt)
All-insert P f (g ∷ gs) p h = elim (Bool-cases (key_leb f g)) [
  | inl e ↦ rw e (p, h)
  | inr e ↦ rw e (h.0, All-insert P f gs p h.1)
]

insert-IsSorted :
    (f : StagedFile) (fs : List StagedFile) → IsSorted fs → IsSorted (insert_by_key f fs)
unfolding insert_by_key
insert-IsSorted f [] h = (tt, tt)
insert-IsSorted f (g ∷ gs) h = elim (KeyLe-cases f g) [
  | inl (e, le) ↦ rw e ((le, All-trans f g gs le h.0), h)
  | inr (e, ge) ↦ rw e (All-insert (KeyLe g) f gs ge h.0, insert-IsSorted f gs h.1)
]

pub sort-IsSorted : (fs : List StagedFile) → IsSorted (sort_by_key fs)
unfolding sort_by_key
sort-IsSorted [] = tt
sort-IsSorted (f ∷ fs) = insert-IsSorted f (sort_by_key fs) (sort-IsSorted fs)

pub All-sort : (P : StagedFile → Type 0) (fs : List StagedFile) → All P fs → All P (sort_by_key fs)
unfolding sort_by_key
All-sort P [] h = tt
All-sort P (f ∷ fs) h = All-insert P f (sort_by_key fs) h.0 (All-sort P fs h.1)

insert-perm : (f : StagedFile) (fs : List StagedFile) → Perm (insert_by_key f fs) (f ∷ fs)
unfolding insert_by_key
insert-perm f [] = Perm.rfl
insert-perm f (g ∷ gs) = elim (Bool-cases (key_leb f g)) [
  | inl e ↦ rw e Perm.rfl
  | inr e ↦ rw e (Perm.trans (Perm.cons g (insert-perm f gs)) (Perm.swap f g gs))
]

pub sort-perm : (fs : List StagedFile) → Perm (sort_by_key fs) fs
unfolding sort_by_key
sort-perm [] = Perm.rfl
sort-perm (f ∷ fs) = Perm.trans (insert-perm f (sort_by_key fs)) (Perm.cons f (sort-perm fs))

keep-insert :
    (p : StagedFile → Bool) (f : StagedFile) (fs : List StagedFile)
    → Perm (keep_if p (insert_by_key f fs)) (keep_if p (f ∷ fs))
unfolding insert_by_key
keep-insert p f [] = Perm.rfl
keep-insert p f (g ∷ gs) = elim (Bool-cases (key_leb f g)) [
  | inl e ↦ rw e Perm.rfl
  | inr e ↦ rw e (elim (Bool-cases (p g)) [
    | inl yes_g ↦
        rw yes_g (Perm.trans (Perm.cons g (keep-insert p f gs)) (past yes_g (Bool-cases (p f))))
    | inr no_g ↦ rw no_g (keep-insert p f gs)
  ])
]
  where
    past :
        p g ≡ true
        → (p f ≡ true) ⊎ (p f ≡ false)
        → Perm (g ∷ keep_if p (f ∷ gs)) (if p f then f ∷ g ∷ keep_if p gs else g ∷ keep_if p gs)
    past yes_g (inl yes_f) = rw yes_f (Perm.swap f g (keep_if p gs))
    past yes_g (inr no_f) = rw no_f Perm.rfl

pub keep-sort :
    (p : StagedFile → Bool) (fs : List StagedFile)
    → Perm (keep_if p (sort_by_key fs)) (keep_if p fs)
unfolding sort_by_key
keep-sort p [] = Perm.rfl
keep-sort p (f ∷ fs) = Perm.trans (keep-insert p f (sort_by_key fs)) (elim (Bool-cases (p f)) [
  | inl e ↦ rw e (Perm.cons f (keep-sort p fs))
  | inr e ↦ rw e (keep-sort p fs)
])

All-keep :
    (P : StagedFile → Type 0) (p : StagedFile → Bool) (fs : List StagedFile)
    → All P fs
    → All P (keep_if p fs)
All-keep P p [] h = tt
All-keep P p (f ∷ fs) h = elim (Bool-cases (p f)) [
  | inl e ↦ rw e (h.0, All-keep P p fs h.1)
  | inr e ↦ rw e (All-keep P p fs h.1)
]

pub keep-IsSorted :
    (p : StagedFile → Bool) (fs : List StagedFile) → IsSorted fs → IsSorted (keep_if p fs)
keep-IsSorted p [] h = tt
keep-IsSorted p (f ∷ fs) h = elim (Bool-cases (p f)) [
  | inl e ↦ rw e (All-keep (KeyLe f) p fs h.0, keep-IsSorted p fs h.1)
  | inr e ↦ rw e (keep-IsSorted p fs h.1)
]

All-uninsert :
    (P : StagedFile → Type 0) (f : StagedFile) (fs : List StagedFile)
    → All P (insert_by_key f fs)
    → P f × All P fs
unfolding insert_by_key
All-uninsert P f [] h = h
All-uninsert P f (g ∷ gs) h = elim (Bool-cases (key_leb f g)) [
  | inl e ↦ rw e at h
  | inr e ↦
      let (first, rest) = rw e at h in
      let (here, others) = All-uninsert P f gs rest in (here, (first, others))
]

pub All-unsort :
    (P : StagedFile → Type 0) (fs : List StagedFile) → All P (sort_by_key fs) → All P fs
unfolding sort_by_key
All-unsort P [] h = tt
All-unsort P (f ∷ fs) h =
    let (here, rest) = All-uninsert P f (sort_by_key fs) h in (here, All-unsort P fs rest)

pub insert_some : (f : StagedFile) (fs : List StagedFile) → insert_by_key f fs ≡ [] → ⊥
unfolding insert_by_key
insert_some f [] e = cc
insert_some f (g ∷ gs) e = ground arith
