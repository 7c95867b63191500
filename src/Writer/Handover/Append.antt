-- ===== src/Writer/Handover/Append.antt =====
-- Lemmas on `seal_and_send` and `append_inner`: where the entries of the buffer end up.
use mathlib.Core.Path.{subst}
use relyt_ingest.Common.{
  ◌≡◌, refl, sym, ap, ◌∙◌, ◌⊎◌, inl, inr, Bool, true, false, Option, none, some, List, [], ◌∷◌,
  ◌++◌, map, Bool-cases,
}
use relyt_ingest.Common.Int.{ℤ}
use relyt_ingest.Common.Text.{Bytes}
use relyt_ingest.Errors.{Error, Result, ok, err}
use relyt_ingest.Naming.{WriterIdentity}
use relyt_ingest.Progress.{Progress}
use relyt_ingest.Writer.{
  Arrow, WriterConfig, WriterState, Sealed, Clock, push, accept, sealable, roll, span, next_file,
  cut, sealed_file, seal_named, seal_entries, seal, unbuffer, without, take_last, drop_offsets,
}
use relyt_ingest.Writer.Accepting.{accept_inversion}
use relyt_ingest.Writer.Rotation.{roll_buffered}
use relyt_ingest.Writer.Buffer.{take_last-append}
use relyt_ingest.Writer.Handover.{
  Room, available, queue_gone, stalled_full, Meeting, Outcome, delivered, enter, waited,
  seal_and_send, after_handover, appended, append_inner,
}

module _ {Batch Avg : Type 0} where
  -- The entries are still in the buffer, and nothing was sent.
  abbrev pub IsKept : List (Batch × ℤ × ℤ) → WriterState Batch Avg → Option (Sealed Batch) → Type 0
  IsKept entries st sent = (sent ≡ none) × (st.buffered ≡ entries)

  -- The entries left the buffer as the batches of one sealed file.
  abbrev pub IsSent : List (Batch × ℤ × ℤ) → WriterState Batch Avg → Option (Sealed Batch) → Type 0
  IsSent entries st sent =
      (s : Sealed Batch) × (sent ≡ some s)
      × (s.batches ≡ map drop_offsets entries)
      × (st.buffered ≡ [])

  -- What a seal leaves of the entries.
  abbrev pub Parts :
      List (Batch × ℤ × ℤ) → WriterState Batch Avg → Result (Option (Sealed Batch)) → Type 0
  Parts entries st (err e) = st.buffered ≡ entries
  Parts entries st (ok none) = st.buffered ≡ entries
  Parts entries st (ok (some s)) = (s.batches ≡ map drop_offsets entries) × (st.buffered ≡ [])

  named-Parts :
      (cfg : WriterConfig) (ident : WriterIdentity) (clock : Clock) (st : WriterState Batch Avg)
      (range : ℤ × ℤ) (r : Result ℤ) (i : Result Bytes)
      → Parts st.buffered
          (seal_named ident (next_file cfg st range) clock st r i).0
          (seal_named ident (next_file cfg st range) clock st r i).1
  unfolding seal_named cut sealed_file
  named-Parts cfg ident clock st range (err e) i = refl
  named-Parts cfg ident clock st range (ok n) (err e) = refl
  named-Parts cfg ident clock st range (ok n) (ok id) = (refl, refl)

  entries-Parts :
      (cfg : WriterConfig) (ident : WriterIdentity) (clock : Clock) (st : WriterState Batch Avg)
      (xs : List (Batch × ℤ × ℤ))
      → Parts st.buffered
          (seal_entries cfg ident clock st xs).0
          (seal_entries cfg ident clock st xs).1
  unfolding seal_entries
  entries-Parts cfg ident clock st [] = refl
  entries-Parts cfg ident clock st (x ∷ xs) = named-Parts cfg ident clock st (span x xs) _ _

  seal-Parts :
      (cfg : WriterConfig) (ident : WriterIdentity) (clock : Clock) (aged : Bool)
      (st : WriterState Batch Avg)
      → Parts st.buffered (seal cfg ident clock aged st).0 (seal cfg ident clock aged st).1
  unfolding seal
  seal-Parts cfg ident clock aged st = elim (Bool-cases (sealable cfg clock.now aged st)) [
    | inl yes_seal ↦ rw yes_seal (
        subst
          (λ es.
            Parts es (seal_entries cfg ident clock (roll st) st.buffered).0
              (seal_entries cfg ident clock (roll st) st.buffered).1)
          (roll_buffered st) (entries-Parts cfg ident clock (roll st) st.buffered))
    | inr no_seal ↦ rw no_seal refl
  ]

  -- A hand-over that fails keeps the entries; one that does not keeps them or sends them.
  abbrev pub IsHandover : {R : Type 0} → List (Batch × ℤ × ℤ) → Outcome Batch Avg R → Type 0
  IsHandover {R} entries o =
      ((e : Error) → o.result ≡ err e → IsKept entries o.state o.sent)
      × ((r : R) → o.result ≡ ok r → IsKept entries o.state o.sent ⊎ IsSent entries o.state o.sent)

  delivered-IsHandover :
      (p : Progress) (entries : List (Batch × ℤ × ℤ)) (st : WriterState Batch Avg)
      (r : Result (Option (Sealed Batch)))
      → Parts entries st r
      → IsHandover entries (delivered p (st, r))
  unfolding delivered
  delivered-IsHandover p entries st (err e) h = (λ f k. (refl, h), λ q k. inl (refl, h))
  delivered-IsHandover p entries st (ok none) h = (λ f k. (refl, h), λ q k. inl (refl, h))
  delivered-IsHandover p entries st (ok (some s)) h = (λ f k. cc, λ q k. inr (s, refl, h.0, h.1))

  enter-IsHandover :
      (cfg : WriterConfig) (ident : WriterIdentity) (clock : Clock) (aged : Bool) (p : Progress)
      (st : WriterState Batch Avg) (room : Room) (health : Option Error)
      → IsHandover st.buffered (enter cfg ident clock aged p st room health)
  unfolding enter
  enter-IsHandover cfg ident clock aged p st (stalled_full e) health =
      (λ f k. (refl, refl), λ q k. inl (refl, refl))
  enter-IsHandover cfg ident clock aged p st queue_gone (some e) =
      (λ f k. (refl, refl), λ q k. inl (refl, refl))
  enter-IsHandover cfg ident clock aged p st queue_gone none =
      (λ f k. (refl, refl), λ q k. inl (refl, refl))
  enter-IsHandover cfg ident clock aged p st available (some e) =
      (λ f k. (refl, refl), λ q k. inl (refl, refl))
  enter-IsHandover cfg ident clock aged p st available none =
      delivered-IsHandover p st.buffered (seal cfg ident clock aged st).0
        (seal cfg ident clock aged st).1 (seal-Parts cfg ident clock aged st)

  waited-IsHandover :
      (cfg : WriterConfig) (ident : WriterIdentity) (clock : Clock) (aged : Bool) (m : Meeting)
      (st : WriterState Batch Avg) (stall : Option Error)
      → IsHandover st.buffered (waited cfg ident clock aged m st stall)
  unfolding waited
  waited-IsHandover cfg ident clock aged m st (some e) =
      (λ f k. (refl, refl), λ q k. inl (refl, refl))
  waited-IsHandover cfg ident clock aged m st none =
      elim (Bool-cases (sealable cfg clock.now aged st)) [
        | inl yes_seal ↦
            rw yes_seal (enter-IsHandover cfg ident clock aged m.progress st m.room m.health)
        | inr no_seal ↦ rw no_seal (λ f k. (refl, refl), λ q k. inl (refl, refl))
      ]

  -- Whatever a hand-over meets, where it fails the buffer is as it was and nothing was sent; where it
  -- does not, the whole buffer is kept, or it is emptied and its batches are those of the file sent.
  pub seal_and_send-IsHandover :
      (cfg : WriterConfig) (ident : WriterIdentity) (clock : Clock) (aged : Bool) (m : Meeting)
      (st : WriterState Batch Avg)
      → IsHandover st.buffered (seal_and_send cfg ident clock aged m st)
  unfolding seal_and_send
  seal_and_send-IsHandover cfg ident clock aged m st =
      waited-IsHandover cfg ident clock aged m st m.stalled_behind

module _ {Batch Avg : Type 0} (arrow : Arrow Batch Avg) where
  -- The entry of the batch, behind those of the buffer.
  abbrev pub with_entry : Batch → ℤ → ℤ → List (Batch × ℤ × ℤ) → List (Batch × ℤ × ℤ)
  with_entry batch start end entries = entries ++ (batch, start, end) ∷ []

  -- A failure leaves the entries alone; a success adds the batch to them, buffered or sent.
  abbrev pub IsAppend : Batch → ℤ → ℤ → List (Batch × ℤ × ℤ) → Outcome Batch Avg (Unit {0}) → Type 0
  IsAppend batch start end entries o =
      ((e : Error) → o.result ≡ err e → IsKept entries o.state o.sent)
      × (o.result ≡ ok tt
          → IsKept (with_entry batch start end entries) o.state o.sent
            ⊎ IsSent (with_entry batch start end entries) o.state o.sent)

  taken_back :
      (batch : Batch) (start end : ℤ) (prev : Option ℤ) (st : WriterState Batch Avg)
      (entries : List (Batch × ℤ × ℤ))
      → st.buffered ≡ with_entry batch start end entries
      → ((unbuffer arrow start end prev st).0 ≡ true)
        × ((unbuffer arrow start end prev st).1.buffered ≡ entries)
  unfolding unbuffer without
  taken_back batch start end prev st entries h =
      let found : take_last start end st.buffered ≡ some ((batch, start, end), entries) =
        ap (take_last start end) h ∙ take_last-append batch start end entries in
      rw found (refl, refl)

  after-IsHandover :
      (batch : Batch) (start end : ℤ) (prev : Option ℤ) (entries : List (Batch × ℤ × ℤ))
      (o : Outcome Batch Avg (Option ℤ)) (r : Result (Option ℤ))
      → o.result ≡ r
      → IsHandover (with_entry batch start end entries) o
      → IsAppend batch start end entries (after_handover arrow start end prev (λ st. st) o r)
  unfolding after_handover
  after-IsHandover batch start end prev entries o (ok q) at_r (failed, done) =
      (λ e h. absurd (cc), λ h. done q at_r)
  after-IsHandover batch start end prev entries o (err e) at_r (failed, done) =
      let (nothing, held) = failed e at_r in
      let (taken, back) = taken_back batch start end prev o.state entries held in
      (λ f h. (nothing, back), λ h. absurd (refused_back taken h))
    where
      refused_back :
          (unbuffer arrow start end prev o.state).0 ≡ true
          → (after_handover arrow start end prev (λ st. st) o (err e)).result ≡ ok tt
          → ⊥
      refused_back t h =
          let failed : ◌≡◌ {A = Result (Unit {0})} (err e) (ok tt) =
            unfold after_handover in rw t at h in
          cc

  appended-IsAppend :
      (cfg : WriterConfig) (ident : WriterIdentity) (batch : Batch) (start end : ℤ) (clock : Clock)
      (m : Meeting) (st : WriterState Batch Avg) (r : Result (WriterState Batch Avg × Bool))
      → ((next : WriterState Batch Avg) (full : Bool)
          → r ≡ ok (next, full)
          → next.buffered ≡ with_entry batch start end st.buffered)
      → IsAppend batch start end st.buffered
          (appended arrow cfg ident start end clock m (λ st. st) st r)
  unfolding appended
  appended-IsAppend cfg ident batch start end clock m st (err e) pushed =
      (λ f h. (refl, refl), λ h. absurd (cc))
  appended-IsAppend cfg ident batch start end clock m st (ok (next, false)) pushed =
      (λ f h. absurd (cc), λ h. inl (refl, pushed next false refl))
  appended-IsAppend cfg ident batch start end clock m st (ok (next, true)) pushed =
      let o = seal_and_send cfg ident clock false m next in
      after-IsHandover batch start end st.max_end_offset st.buffered o o.result refl (
        subst (λ es. IsHandover es o) (pushed next true refl)
          (seal_and_send-IsHandover cfg ident clock false m next))

  -- `append` is all or nothing, whatever its checks, the queue and the seal come to, as long as no other
  -- task changes the state while it waits: where it fails, the buffer holds what it held before and
  -- nothing was sent; where it succeeds, the batch is in the buffer behind the others, or it is with
  -- them in the one file that was sent.
  pub append_inner-IsAppend :
      (cfg : WriterConfig) (ident : WriterIdentity) (health : Option Error) (batch : Batch)
      (start end : ℤ) (clock : Clock) (m : Meeting) (st : WriterState Batch Avg)
      → IsAppend batch start end st.buffered
          (append_inner arrow cfg ident health batch start end clock m (λ st. st) st)
  unfolding append_inner push
  append_inner-IsAppend cfg ident health batch start end clock m st =
      appended-IsAppend cfg ident batch start end clock m st
        (accept arrow cfg health batch start end clock.now st)
        (λ next full h.
          let (g, l, same) =
            accept_inversion arrow cfg health batch start end clock.now st next full h in
          sym (ap (λ s. s.buffered) same))
