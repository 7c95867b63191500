-- ===== src/Recovery/Open/Anchors.antt =====
-- Lemmas on the anchor of the epoch.
use relyt_ingest.Common.{ℕ, ◌≤◌, refl, inl, inr, Option, none, some, arith, Bool-cases, ltb}
use relyt_ingest.Common.Int.{ℤ, pos, negsuc, IsI64}
use relyt_ingest.Naming.{max_epoch_ms, decode_serial_seq}
use relyt_ingest.State.{StateFile}
use relyt_ingest.Recovery.Epoch.{AtLeast, Fits}
use relyt_ingest.Recovery.Open.{anchor_of, anchor_mark, anchor_state, decoded, pair_ltb}

pub mark_keeps : (e : ℕ) (o m : Option (ℕ × ℕ)) → AtLeast e o → AtLeast e (anchor_mark o m)
mark_keeps e o none h = h
mark_keeps e none (some (k, t)) (e', s', same, le) = cc
mark_keeps e (some (x, y)) (some (k, t)) (e', s', same, le) =
    elim (Bool-cases (pair_ltb (x, y) (k, t))) [
      | inl lt ↦ rw lt (k, t, refl, ground arith)
      | inr ge ↦ rw ge (x, y, refl, ground arith)
    ]

pub mark_adds : (k t : ℕ) (o : Option (ℕ × ℕ)) → AtLeast k (anchor_mark o (some (k, t)))
mark_adds k t none = (k, t, refl, omega arith)
mark_adds k t (some (x, y)) = elim (Bool-cases (pair_ltb (x, y) (k, t))) [
  | inl lt ↦ rw lt (k, t, refl, omega arith)
  | inr ge ↦ rw ge (x, y, refl, ground arith)
]

pub state_keeps :
    (e : ℕ) (o : Option (ℕ × ℕ)) (st : Option StateFile)
    → AtLeast e o
    → AtLeast e (anchor_state o st)
state_keeps e o none h = h
state_keeps e none (some st) (e', s', same, le) = cc
state_keeps e (some (x, y)) (some st) (e', s', same, le) =
    elim (Bool-cases (ltb x st.max_epoch_used)) [
      | inl lt ↦ rw lt (st.max_epoch_used, 0, refl, ground arith)
      | inr ge ↦ rw ge (x, y, refl, ground arith)
    ]

pub state_adds :
    (o : Option (ℕ × ℕ)) (st : StateFile) → AtLeast st.max_epoch_used (anchor_state o (some st))
state_adds none st = (st.max_epoch_used, 0, refl, omega arith)
state_adds (some (x, y)) st = elim (Bool-cases (ltb x st.max_epoch_used)) [
  | inl lt ↦ rw lt (st.max_epoch_used, 0, refl, omega arith)
  | inr ge ↦ rw ge (x, y, refl, ground arith)
]

mark-Fits : (o m : Option (ℕ × ℕ)) → Fits o → Fits m → Fits (anchor_mark o m)
mark-Fits o none h k = h
mark-Fits none (some m) h k = k
mark-Fits (some a) (some m) h k = elim (Bool-cases (pair_ltb a m)) [
  | inl lt ↦ rw lt k
  | inr ge ↦ rw ge h
]

state-Fits :
    (o : Option (ℕ × ℕ)) (st : StateFile)
    → st.max_epoch_used ≤ max_epoch_ms
    → Fits o
    → Fits (anchor_state o (some st))
state-Fits none st fits h = omega arith
state-Fits (some (e, s)) st fits h = elim (Bool-cases (ltb e st.max_epoch_used)) [
  | inl lt ↦ rw lt (omega arith)
  | inr ge ↦ rw ge h
]

decoded-Fits : (w : ℤ) → IsI64 w → Fits (decoded (some w))
unfolding decode_serial_seq
decoded-Fits (pos n) h = omega arith
decoded-Fits (negsuc n) h = omega arith

-- The i64 that the server answers with, and the epochs that earlier sessions recorded.
abbrev pub MarkFits : Option ℤ → Type 0
MarkFits none = Unit
MarkFits (some w) = IsI64 w

abbrev pub StateFits : Option StateFile → Type 0
StateFits none = Unit
StateFits (some st) = st.max_epoch_used ≤ max_epoch_ms

pub anchor-Fits :
    (o : Option (ℕ × ℕ)) (w : Option ℤ) (st : Option StateFile)
    → Fits o
    → MarkFits w
    → StateFits st
    → Fits (anchor_of o w st)
unfolding anchor_of
anchor-Fits o none none h hw hs = h
anchor-Fits o (some w) none h hw hs = mark-Fits o (decoded (some w)) h (decoded-Fits w hw)
anchor-Fits o none (some st) h hw hs = state-Fits o st hs h
anchor-Fits o (some w) (some st) h hw hs =
    state-Fits (anchor_mark o (decoded (some w))) st hs
      (mark-Fits o (decoded (some w)) h (decoded-Fits w hw))
