-- ===== src/Notify/Submit/Board.antt =====
-- What the report board shows after a request was settled, by what is looked up on it.
use relyt_ingest.Common.{
  ◌≡◌, refl, ap, ◌∙◌, ◌⊎◌, inl, inr, Bool-cases, Option, none, some, List, arith,
}
use relyt_ingest.Common.Int.{ℤ, ◌≤ℤ◌, ◌<ℤ◌, leb_ℤ}
use relyt_ingest.Common.Text.{Bytes, bytes_eq_iff}
use relyt_ingest.Notify.{
  NotifyRequest, NotifyState, lookup, store, slot_of, message_of, newer, confirm, violate,
}
use relyt_ingest.Notify.Loop.{lookup-store}

-- Nothing newer than the serial seq is there.
abbrev pub IsNotAfter : Option (ℤ × ℤ) → ℤ → Type 0
IsNotAfter none seq = Unit
IsNotAfter (some (s, e)) seq = s ≤ℤ seq

-- The report board after the request was confirmed: its group has the seq and the end offset of the request,
-- unless it had a newer entry; the other groups and the violations stay.
abbrev pub IsConfirmed : NotifyRequest → NotifyState → NotifyState → Type 0
IsConfirmed req old new =
    (((lookup req.serial_group new.confirmed ≡ some (req.serial_seq, req.end_offset))
        × IsNotAfter (lookup req.serial_group old.confirmed) req.serial_seq)
      ⊎ ((s : ℤ) × (e : ℤ) × (lookup req.serial_group old.confirmed ≡ some (s, e))
          × (lookup req.serial_group new.confirmed ≡ some (s, e))
          × (req.serial_seq <ℤ s)))
    × ((k : Bytes) → (req.serial_group ≡ k) ⊎ (lookup k new.confirmed ≡ lookup k old.confirmed))
    × (new.fatal ≡ old.fatal)

-- The report board after a violation of the request's group: the message, unless the group had one
-- before, which stays; the other groups and the confirmations stay.
abbrev pub IsViolated : NotifyRequest → Bytes → NotifyState → NotifyState → Type 0
IsViolated req msg old new =
    (((lookup req.serial_group old.fatal ≡ none) × (lookup req.serial_group new.fatal ≡ some msg))
      ⊎ ((first : Bytes) × (lookup req.serial_group old.fatal ≡ some first)
          × (lookup req.serial_group new.fatal ≡ some first)))
    × ((k : Bytes) → (req.serial_group ≡ k) ⊎ (lookup k new.fatal ≡ lookup k old.fatal))
    × (new.confirmed ≡ old.confirmed)

stored :
    {V : Type 0} (key : Bytes) (v : V) (board : List (Bytes × V))
    → lookup key (store key v board) ≡ some v
unfolding lookup
stored key v board = rw ((bytes_eq_iff key key).1 refl) refl

others :
    {V : Type 0} (key : Bytes) (v : V) (board : List (Bytes × V)) (k : Bytes)
    → (key ≡ k) ⊎ (lookup k (store key v board) ≡ lookup k board)
others key v board k = elim (lookup-store key k v board) [
  | inl (same, now) ↦ inl same
  | inr old ↦ inr old
]

pub confirm-IsConfirmed :
    (req : NotifyRequest) (st : NotifyState) → IsConfirmed req st (confirm req st)
unfolding confirm
confirm-IsConfirmed req st =
    (at_group (lookup req.serial_group st.confirmed) refl, others _ _ _, refl)
  where
    fresh : ℤ × ℤ
    fresh = (req.serial_seq, req.end_offset)

    now :
        (o : Option (ℤ × ℤ)) (v : ℤ × ℤ)
        → lookup req.serial_group st.confirmed ≡ o
        → newer (slot_of o fresh) fresh ≡ v
        → lookup req.serial_group (confirm req st).confirmed ≡ some v
    now o v e w =
        stored req.serial_group _ st.confirmed
        ∙ ap (λ x. some (newer (slot_of x fresh) fresh)) e
        ∙ ap some w

    same : newer fresh fresh ≡ fresh
    same = elim (Bool-cases (leb_ℤ req.serial_seq req.serial_seq)) [
      | inl h ↦ rw h refl
      | inr h ↦ rw h refl
    ]

    at_group :
        (o : Option (ℤ × ℤ))
        → lookup req.serial_group st.confirmed ≡ o
        → ((lookup req.serial_group (confirm req st).confirmed ≡ some fresh)
            × IsNotAfter o req.serial_seq)
          ⊎ ((s : ℤ) × (e : ℤ) × (o ≡ some (s, e))
              × (lookup req.serial_group (confirm req st).confirmed ≡ some (s, e))
              × (req.serial_seq <ℤ s))
    at_group none e = inl (now none fresh e same, tt)
    at_group (some (s, t)) e = elim (Bool-cases (leb_ℤ s req.serial_seq)) [
      | inl le ↦ inl (now (some (s, t)) fresh e (rw le refl), ground arith)
      | inr gt ↦ inr (s, t, refl, now (some (s, t)) (s, t) e (rw gt refl), ground arith)
    ]

pub violate-IsViolated :
    (req : NotifyRequest) (msg : Bytes) (st : NotifyState)
    → IsViolated req msg st (violate req msg st)
unfolding violate
violate-IsViolated req msg st =
    (at_group (lookup req.serial_group st.fatal) refl, others _ _ _, refl)
  where
    now :
        (o : Option Bytes)
        → lookup req.serial_group st.fatal ≡ o
        → lookup req.serial_group (violate req msg st).fatal ≡ some (message_of o msg)
    now o e = stored req.serial_group _ st.fatal ∙ ap (λ x. some (message_of x msg)) e

    at_group :
        (o : Option Bytes)
        → lookup req.serial_group st.fatal ≡ o
        → ((o ≡ none) × (lookup req.serial_group (violate req msg st).fatal ≡ some msg))
          ⊎ ((first : Bytes) × (o ≡ some first)
              × (lookup req.serial_group (violate req msg st).fatal ≡ some first))
    at_group none e = inl (refl, now none e)
    at_group (some first) e = inr (first, refl, now (some first) e)
