-- ===== src/Notify/Loop.antt =====
-- Lemmas on the notify loop: the order of the queue and the report board.
use relyt_ingest.Common.{
  ◌≡◌, refl, ap, ◌∙◌, ◌⊎◌, inl, inr, some, List, [], ◌∷◌, ◌++◌, arith, map, append_assoc,
  Bool-cases,
}
use relyt_ingest.Common.Int.{ℤ, ◌≤ℤ◌}
use relyt_ingest.Common.Text.{Bytes, bytes_eq, bytes_eq_iff}
use relyt_ingest.Notify.{
  NotifyRequest, NotifyState, LoopState, Attempt, lookup, store, confirm, violate, notify_step,
  notify_run, attempt_on, connect_failed, submit_failed, accepted, idempotent, contract_violation,
  slot_of, message_of, on_queue, newer,
}

abbrev pub seqs : List NotifyRequest → List ℤ
seqs = map (λ r. r.serial_seq)

pub lookup-store :
    {V : Type 0} (key other : Bytes) (v : V) (board : List (Bytes × V))
    → (key ≡ other) × (lookup other (store key v board) ≡ some v)
      ⊎ (lookup other (store key v board) ≡ lookup other board)
unfolding lookup
lookup-store key other v board = elim (Bool-cases (bytes_eq key other)) [
  | inl e ↦ inl ((bytes_eq_iff key other).0 e, rw e refl)
  | inr e ↦ inr (rw e refl)
]

queue_order :
    (l : LoopState) (a : Attempt) (q : List NotifyRequest)
    → l.queue ≡ q
    → (notify_step l a).submitted ++ seqs (notify_step l a).queue ≡ l.submitted ++ seqs q
unfolding notify_step attempt_on
queue_order l a [] e = rw e refl
queue_order l connect_failed (req ∷ rest) e =
    rw e (elim (Bool-cases l.connected) [ inl up ↦ rw up refl | inr down ↦ rw down refl ])
queue_order l submit_failed (req ∷ rest) e = rw e refl
queue_order l accepted (req ∷ rest) e =
    rw e (append_assoc l.submitted (req.serial_seq ∷ []) (seqs rest))
queue_order l idempotent (req ∷ rest) e =
    rw e (append_assoc l.submitted (req.serial_seq ∷ []) (seqs rest))
queue_order l (contract_violation msg) (req ∷ rest) e =
    rw e (append_assoc l.submitted (req.serial_seq ∷ []) (seqs rest))

run_order :
    (l : LoopState) (events : List Attempt)
    → (notify_run l events).submitted ++ seqs (notify_run l events).queue
      ≡ l.submitted ++ seqs l.queue
unfolding notify_run
run_order l [] = refl
run_order l (a ∷ events) = run_order (notify_step l a) events ∙ queue_order l a l.queue refl

newer_grows : (slot fresh : ℤ × ℤ) → slot.0 ≤ℤ (newer slot fresh).0
newer_grows (s, e) (t, k) = ground arith

-- The entry of `key` has at least this serial seq.
abbrev pub ConfirmedFrom : Bytes → ℤ → NotifyState → Type 0
ConfirmedFrom key s st = (s' : ℤ) × (e' : ℤ) × (lookup key st.confirmed ≡ some (s', e')) × (s ≤ℤ s')

confirm_grows :
    (req : NotifyRequest) (st : NotifyState) (key : Bytes) (s : ℤ)
    → ConfirmedFrom key s st
    → ConfirmedFrom key s (confirm req st)
unfolding confirm
confirm_grows req st key s (t, e, h, le) =
    let fresh : ℤ × ℤ = (req.serial_seq, req.end_offset) in
    let slot = slot_of (lookup req.serial_group st.confirmed) fresh in
    elim (lookup-store req.serial_group key (newer slot fresh) st.confirmed) [
      | inl (same, now) ↦
          let held : slot ≡ (t, e) =
            ap (λ o. slot_of o fresh) (ap (λ k. lookup k st.confirmed) same ∙ h) in
          (
            (newer slot fresh).0,
            (newer slot fresh).1,
            now,
            rw held (above (newer (t, e) fresh).0 (newer_grows (t, e) fresh)),
          )
      | inr old ↦ (t, e, old ∙ h, le)
    ]
  where
    above : (x : ℤ) → t ≤ℤ x → s ≤ℤ x
    above x h = omega arith

-- The recorded message of `key`.
abbrev pub IsFatal : Bytes → Bytes → NotifyState → Type 0
IsFatal key msg st = lookup key st.fatal ≡ some msg

violate_keeps :
    (req : NotifyRequest) (new : Bytes) (st : NotifyState) (key msg : Bytes)
    → IsFatal key msg st
    → IsFatal key msg (violate req new st)
unfolding violate
violate_keeps req new st key msg h =
    elim (lookup-store req.serial_group key (message_of (lookup req.serial_group st.fatal) new)
      st.fatal) [
        | inl (same, now) ↦
            now ∙ ap (λ o. some (message_of o new)) (ap (λ k. lookup k st.fatal) same ∙ h)
        | inr old ↦ old ∙ h
      ]

-- What every change of the report board keeps, the loop keeps.
module _ (P : NotifyState → Type 0)
    (confirmed : (req : NotifyRequest) (st : NotifyState) → P st → P (confirm req st))
    (violated : (req : NotifyRequest) (msg : Bytes) (st : NotifyState)
      → P st
      → P (violate req msg st)) where
  step_keeps :
      (l : LoopState) (a : Attempt) (q : List NotifyRequest) → P l.board → P (on_queue l a q).board
  unfolding on_queue attempt_on
  step_keeps l a [] h = h
  step_keeps l connect_failed (req ∷ rest) h = elim (Bool-cases l.connected) [
    | inl up ↦ rw up h
    | inr down ↦ rw down h
  ]
  step_keeps l submit_failed (req ∷ rest) h = h
  step_keeps l accepted (req ∷ rest) h = confirmed req l.board h
  step_keeps l idempotent (req ∷ rest) h = confirmed req l.board h
  step_keeps l (contract_violation msg) (req ∷ rest) h = violated req msg l.board h

  run_keeps : (l : LoopState) (events : List Attempt) → P l.board → P (notify_run l events).board
  unfolding notify_run notify_step
  run_keeps l [] h = h
  run_keeps l (a ∷ events) h = run_keeps (notify_step l a) events (step_keeps l a l.queue h)

-- Whatever the attempts come to, the requests are dropped from the queue in the order in which they
-- were enqueued: what has been settled, followed by what is still queued, is always the same list.
pub notify_run_order :
    (l : LoopState) (events : List Attempt)
    → (notify_run l events).submitted ++ seqs (notify_run l events).queue
      ≡ l.submitted ++ seqs l.queue
notify_run_order l events = run_order l events

-- Whatever the attempts come to, the serial seq confirmed for a writer never goes back, and the
-- first contract violation recorded for it stays as it is.
pub notify_run_monotone :
    (l : LoopState) (events : List Attempt) (key : Bytes)
    → ((s : ℤ) → ConfirmedFrom key s l.board → ConfirmedFrom key s (notify_run l events).board)
      × ((msg : Bytes) → IsFatal key msg l.board → IsFatal key msg (notify_run l events).board)
notify_run_monotone l events key = (
  λ s h.
      run_keeps (ConfirmedFrom key s) (λ req st p. confirm_grows req st key s p)
        (λ req msg st p. unfold violate in p) l events h,
  λ msg h.
      run_keeps (IsFatal key msg) (λ req st p. unfold confirm in p)
        (λ req new st p. violate_keeps req new st key msg p) l events h,
)
