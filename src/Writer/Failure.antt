-- ===== src/Writer/Failure.antt =====
-- Lemmas on `seal` where it fails.
use mathlib.Core.Path.{subst}
use relyt_ingest.Writer.Sealing.{IsWell, Follows, roll-IsWell, roll-Follows}
use relyt_ingest.Common.{
  ℕ, ◌≡◌, refl, ap, inl, inr, Bool, Option, none, some, List, [], ◌∷◌, ltb, Bool-cases,
}
use relyt_ingest.Common.Int.{ℤ}
use relyt_ingest.Common.Text.{Bytes}
use relyt_ingest.Errors.{Error, Result, ok, err}
use relyt_ingest.Naming.{WriterIdentity, max_seq}
use relyt_ingest.Writer.{
  WriterConfig, WriterState, Sealed, Clock, sealable, span, roll, next_file, seal_named,
  seal_entries, seal,
}

module _ {Batch Avg : Type 0} where
  entries_failure :
      (cfg : WriterConfig) (ident : WriterIdentity) (clock : Clock) (st st' : WriterState Batch Avg)
      (e : Error) (xs : List (Batch × ℤ × ℤ))
      → seal_entries cfg ident clock st xs ≡ (st', err e)
      → st ≡ st'
  unfolding seal_entries
  entries_failure cfg ident clock st st' e [] h = ap (λ p. p.0) h
  entries_failure cfg ident clock st st' e (x ∷ xs) h = named_failure _ _ h
    where
      named_failure :
          (r : Result ℤ) (i : Result Bytes)
          → seal_named ident (next_file cfg st (span x xs)) clock st r i ≡ (st', err e)
          → st ≡ st'
      named_failure (err f) i h = unfold seal_named in ap (λ p. p.0) h
      named_failure (ok n) (err f) h = unfold seal_named in ap (λ p. p.0) h
      named_failure (ok n) (ok id) h = unfold seal_named in absurd (made (ap (λ p. p.1) h))
        where
          made :
              {s : Sealed Batch}
              → ◌≡◌ {A = Result (Option (Sealed Batch))} (ok (some s)) (err e)
              → ⊥
          made h = cc

  -- A seal that fails leaves the buffer, its counts and the offsets as they were, and the state well
  -- formed and going on from the last file: at most the epoch has rolled over.
  pub seal_failure :
      (cfg : WriterConfig) (ident : WriterIdentity) (clock : Clock) (aged_only : Bool) (floor : ℤ)
      (prev : Option (ℕ × ℕ × ℤ)) (st st' : WriterState Batch Avg) (e : Error)
      → IsWell floor st
      → Follows prev st
      → seal cfg ident clock aged_only st ≡ (st', err e)
      → (st' ≡ record st { epoch_ms = st'.epoch_ms; next_seq = st'.next_seq })
        × IsWell floor st'
        × Follows prev st'
  unfolding seal
  seal_failure cfg ident clock aged_only floor prev st st' e w f h =
      elim (Bool-cases (sealable cfg clock.now aged_only st)) [
        | inl yes_seal ↦
            let same : roll st ≡ st' =
              entries_failure cfg ident clock (roll st) st' e st.buffered (rw yes_seal at h) in
            (
              subst (λ s. s ≡ record st { epoch_ms = s.epoch_ms; next_seq = s.next_seq }) same
                  (rolled st),
              subst (IsWell floor) same (roll-IsWell floor st w),
              subst (Follows prev) same (roll-Follows floor prev st w f),
            )
        | inr no_seal ↦ absurd (nothing (ap (λ p. p.1) (rw no_seal at h)))
      ]
    where
      nothing : ◌≡◌ {A = Result (Option (Sealed Batch))} (ok none) (err e) → ⊥
      nothing h = cc

      rolled :
          (st : WriterState Batch Avg)
          → roll st ≡ record st { epoch_ms = (roll st).epoch_ms; next_seq = (roll st).next_seq }
      rolled st =
          unfold roll in
          elim (Bool-cases (ltb max_seq st.next_seq)) [
            | inl full ↦ rw full refl
            | inr room ↦ rw room refl
          ]
