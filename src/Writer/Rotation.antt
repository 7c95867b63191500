-- ===== src/Writer/Rotation.antt =====
-- Lemmas on `seal` where it yields a file: its order, its offsets and the state after it.
use mathlib.Core.Path.{subst}
use mathlib.Core.Option.{some-injective}
use relyt_ingest.Writer.{sealed_file}
use relyt_ingest.Writer.Order.{is_next}
use relyt_ingest.Writer.Sealing.{
  AtMost, IsFloor, IsWell, Follows, roll-IsWell, roll-Follows, roll-seq, span_covers,
}
use relyt_ingest.Common.{
  ℕ, ◌≤◌, ◌≡◌, refl, ap, inl, inr, Bool, true, Option, none, some, List, [], ◌∷◌, arith, ltb, All,
  Bool-cases, map,
}
use relyt_ingest.Common.Int.{ℤ, ◌≤ℤ◌, ◌<ℤ◌}
use relyt_ingest.Common.Text.{Bytes}
use relyt_ingest.Errors.{Result, ok, err, ok_injective}
use relyt_ingest.Naming.{WriterIdentity, StagedFile, serial_seq, max_seq, max_epoch_ms}
use relyt_ingest.Naming.SerialSeq.{encode_sound}
use relyt_ingest.Writer.{
  WriterConfig, WriterState, Sealed, Clock, sealable, span, roll, next_file, cut, seal_named,
  seal_entries, seal, drop_offsets,
}
use relyt_ingest.Writer.Order.{check_order, is_next}

module _ {Batch Avg : Type 0} where
  cut-IsWell :
      (file : StagedFile) (seq_no : ℤ) (clock : Clock) (floor : ℤ) (st : WriterState Batch Avg)
      → IsWell floor st
      → st.next_seq ≤ max_seq
      → st.epoch_ms ≤ max_epoch_ms
      → AtMost file.end_offset st.max_end_offset
      → IsWell file.end_offset (cut file seq_no clock st)
  unfolding cut
  cut-IsWell file seq_no clock floor st w seq epoch top = record {
    ranges = tt;
    floored = at_most st.max_end_offset top;
    seq_fits = omega arith;
    epoch_fits = w.epoch_fits;
    used_fits = λ used. epoch;
  }
    where
      at_most : (mark : Option ℤ) → AtMost file.end_offset mark → IsFloor file.end_offset mark
      at_most none h = absurd h
      at_most (some m) h = h

  -- What a rotation owes: the file passes the tripwire after the last one, covers the buffer, starts
  -- above the floor, and the state goes on from it.
  pub record IsRotation (floor : ℤ) (prev : Option (ℕ × ℕ × ℤ)) (entries : List (Batch × ℤ × ℤ))
      (st' : WriterState Batch Avg) (sealed : Sealed Batch) : Type 0 where
    pub in_order : check_order prev sealed.meta.file ≡ none
    pub numbered : serial_seq sealed.meta.file ≡ ok sealed.meta.seq_no
    pub starts_above : floor <ℤ sealed.meta.file.start_offset
    pub ordered : sealed.meta.file.start_offset ≤ℤ sealed.meta.file.end_offset
    pub covers :
        All
          (λ (b, s, e). (sealed.meta.file.start_offset ≤ℤ s) × (e ≤ℤ sealed.meta.file.end_offset))
          entries
    pub contents : sealed.batches ≡ map drop_offsets entries
    pub emptied : st'.buffered ≡ []
    pub well : IsWell sealed.meta.file.end_offset st'
    pub follows :
        Follows
          (some (sealed.meta.file.epoch_ms, sealed.meta.file.seq, sealed.meta.file.end_offset))
          st'

  passes :
      (prev : Option (ℕ × ℕ × ℤ)) (cfg : WriterConfig) (st : WriterState Batch Avg) (range : ℤ × ℤ)
      → Follows prev st
      → st.next_seq ≤ max_seq
      → check_order prev (next_file cfg st range) ≡ none
  unfolding check_order next_file
  passes none cfg st range h fits = refl
  passes (some (epoch, seq, end)) cfg st range h fits =
      let next : (is_next epoch seq (next_file cfg st range)) ≡ true = ground arith in rw next refl

  IsRotation-sealed :
      (cfg : WriterConfig) (ident : WriterIdentity) (clock : Clock) (floor : ℤ)
      (prev : Option (ℕ × ℕ × ℤ)) (st : WriterState Batch Avg) (x : Batch × ℤ × ℤ)
      (xs : List (Batch × ℤ × ℤ)) (n : ℤ) (id : Bytes)
      → IsWell floor st
      → Follows prev st
      → st.next_seq ≤ max_seq
      → st.buffered ≡ x ∷ xs
      → serial_seq (next_file cfg st (span x xs)) ≡ ok n
      → IsRotation floor prev st.buffered
          (cut (next_file cfg st (span x xs)) n clock st)
          (sealed_file ident (next_file cfg st (span x xs)) clock st n id)
  unfolding sealed_file next_file serial_seq
  IsRotation-sealed cfg ident clock floor prev st x xs n id w f fits b num =
      let (lo, mid, hi, covered) = span_covers floor st.max_end_offset x xs (rw b at w.ranges) in
      let (he, hs, value) = encode_sound st.epoch_ms st.next_seq n num in
      record {
        in_order = passes prev cfg st (span x xs) f fits;
        numbered = num;
        starts_above = lo;
        ordered = mid;
        covers = rw b covered;
        contents = refl;
        emptied = unfold cut in refl;
        well = cut-IsWell (next_file cfg st (span x xs)) n clock floor st w fits he hi;
        follows = unfold cut in inl (refl, omega arith);
      }

  move :
      (floor : ℤ) (prev : Option (ℕ × ℕ × ℤ)) (es : List (Batch × ℤ × ℤ))
      (a b : WriterState Batch Avg) (s t : Sealed Batch)
      → a ≡ b
      → s ≡ t
      → IsRotation floor prev es a s
      → IsRotation floor prev es b t
  move floor prev es a b s t e k h =
      subst (IsRotation floor prev es b) k (subst (λ c. IsRotation floor prev es c s) e h)

  named-IsRotation :
      (cfg : WriterConfig) (ident : WriterIdentity) (clock : Clock) (floor : ℤ)
      (prev : Option (ℕ × ℕ × ℤ)) (st st' : WriterState Batch Avg) (sealed : Sealed Batch)
      (x : Batch × ℤ × ℤ) (xs : List (Batch × ℤ × ℤ)) (r : Result ℤ) (i : Result Bytes)
      → IsWell floor st
      → Follows prev st
      → st.next_seq ≤ max_seq
      → st.buffered ≡ x ∷ xs
      → serial_seq (next_file cfg st (span x xs)) ≡ r
      → seal_named ident (next_file cfg st (span x xs)) clock st r i ≡ (st', ok (some sealed))
      → IsRotation floor prev st.buffered st' sealed
  unfolding seal_named
  named-IsRotation cfg ident clock floor prev st st' sealed x xs (err e) i w f fits b num h =
      absurd (failed_seal (ap (λ p. p.1) h))
    where
      failed_seal : ◌≡◌ {A = Result (Option (Sealed Batch))} (err e) (ok (some sealed)) → ⊥
      failed_seal h = cc
  named-IsRotation cfg ident clock floor prev st st' sealed x xs (ok n) (err e) w f fits b num h =
      absurd (failed_seal (ap (λ p. p.1) h))
    where
      failed_seal : ◌≡◌ {A = Result (Option (Sealed Batch))} (err e) (ok (some sealed)) → ⊥
      failed_seal h = cc
  named-IsRotation cfg ident clock floor prev st st' sealed x xs (ok n) (ok id) w f fits b num h =
      move floor prev st.buffered _ st' _ sealed (ap (λ p. p.0) h)
        (some-injective _ _ (ok_injective (ap (λ p. p.1) h)))
        (IsRotation-sealed cfg ident clock floor prev st x xs n id w f fits b num)

  entries-IsRotation :
      (cfg : WriterConfig) (ident : WriterIdentity) (clock : Clock) (floor : ℤ)
      (prev : Option (ℕ × ℕ × ℤ)) (st st' : WriterState Batch Avg) (sealed : Sealed Batch)
      (xs : List (Batch × ℤ × ℤ))
      → IsWell floor st
      → Follows prev st
      → st.next_seq ≤ max_seq
      → st.buffered ≡ xs
      → seal_entries cfg ident clock st xs ≡ (st', ok (some sealed))
      → IsRotation floor prev st.buffered st' sealed
  unfolding seal_entries
  entries-IsRotation cfg ident clock floor prev st st' sealed [] w f fits b h =
      absurd (nothing (ap (λ p. p.1) h))
    where
      nothing : ◌≡◌ {A = Result (Option (Sealed Batch))} (ok none) (ok (some sealed)) → ⊥
      nothing h = cc
  entries-IsRotation cfg ident clock floor prev st st' sealed (x ∷ xs) w f fits b h =
      named-IsRotation cfg ident clock floor prev st st' sealed x xs _ _ w f fits b refl h

  pub roll_buffered : (st : WriterState Batch Avg) → (roll st).buffered ≡ st.buffered
  unfolding roll
  roll_buffered st = elim (Bool-cases (ltb max_seq st.next_seq)) [
    | inl full ↦ rw full refl
    | inr room ↦ rw room refl
  ]

  -- A seal that yields a file, in a well-formed state that goes on from the last file: the file passes
  -- the tripwire after that one, also where the epoch rolls over; its serial seq is the encoding of its
  -- pair; it holds all batches of the buffer, its range of offsets covers theirs and starts above all
  -- that was sealed before; and the state after it is well formed and goes on from this file.
  pub seal_in_order :
      (cfg : WriterConfig) (ident : WriterIdentity) (clock : Clock) (aged_only : Bool) (floor : ℤ)
      (prev : Option (ℕ × ℕ × ℤ)) (st st' : WriterState Batch Avg) (sealed : Sealed Batch)
      → IsWell floor st
      → Follows prev st
      → seal cfg ident clock aged_only st ≡ (st', ok (some sealed))
      → IsRotation floor prev st.buffered st' sealed
  unfolding seal
  seal_in_order cfg ident clock aged_only floor prev st st' sealed w f h =
      elim (Bool-cases (sealable cfg clock.now aged_only st)) [
        | inl yes_seal ↦
            subst (λ es. IsRotation floor prev es st' sealed) (roll_buffered st)
              (entries-IsRotation cfg ident clock floor prev (roll st) st' sealed st.buffered
                (roll-IsWell floor st w) (roll-Follows floor prev st w f) (roll-seq st)
                (roll_buffered st) (rw yes_seal at h))
        | inr no_seal ↦ absurd (nothing (ap (λ p. p.1) (rw no_seal at h)))
      ]
    where
      nothing : ◌≡◌ {A = Result (Option (Sealed Batch))} (ok none) (ok (some sealed)) → ⊥
      nothing h = cc
