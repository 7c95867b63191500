-- ===== src/Stopping/Calm.antt =====
-- A writer whose lease is not lost stays unfenced.
use relyt_ingest.Common.{
  ℕ, ◌≡◌, refl, ap, ◌∙◌, Bool-cases, inl, inr, leb, Option, none, some, List, [], ◌∷◌, All,
}
use relyt_ingest.Errors.{Error}
use relyt_ingest.Progress.{fatal_priority}
use relyt_ingest.Writer.Handover.{fatal_state, Flags}
use relyt_ingest.Stopping.{
  Shared, Happening, published, lease_lost, contract_broken, order_broken, noticed, raise_for,
  raise_stream_stopped, trip_order_fatal, with_trip, happen, happen_all,
}

abbrev pub IsCalm : Happening → Type 0
IsCalm (lease_lost reason) = ⊥
IsCalm _ = Unit

abbrev pub Unfenced : Shared → Type 0
Unfenced s = s.flags.fenced_by ≡ none

flags-raise : (after : ℕ) (s : Shared) → (raise_stream_stopped after s).flags ≡ s.flags
unfolding raise_stream_stopped
flags-raise after s = on (fatal_state after s.flags s.progress)
  where
    on : (o : Option Error) → (raise_for o s).flags ≡ s.flags
    on none = unfold raise_for in refl
    on (some e) =
        unfold raise_for in
        elim (Bool-cases (leb s.alarm_raised (fatal_priority e))) [
          | inl h ↦ rw h refl
          | inr h ↦ rw h refl
        ]

happen-Unfenced :
    (after : ℕ) (s : Shared) (h : Happening) → IsCalm h → Unfenced s → Unfenced (happen after s h)
unfolding happen trip_order_fatal
happen-Unfenced after s (published e) calm free = free
happen-Unfenced after s (lease_lost reason) calm free = absurd calm
happen-Unfenced after s (contract_broken msg) calm free = free
happen-Unfenced after s (order_broken detail) calm free =
    ap (λ (fs : Flags). fs.fenced_by) (flags-raise after (with_trip detail s)) ∙ free
happen-Unfenced after s noticed calm free =
    ap (λ (fs : Flags). fs.fenced_by) (flags-raise after s) ∙ free

pub happen_all-Unfenced :
    (after : ℕ) (s : Shared) (hs : List Happening)
    → All IsCalm hs
    → Unfenced s
    → Unfenced (happen_all after s hs)
unfolding happen_all
happen_all-Unfenced after s [] calm free = free
happen_all-Unfenced after s (h ∷ hs) calm free =
    happen_all-Unfenced after (happen after s h) hs calm.1 (happen-Unfenced after s h calm.0 free)
