-- ===== src/Writer/Accepting.antt =====
-- Lemmas on the part of `append` under the state lock.
use mathlib.Core.Path.{subst}
use relyt_ingest.Errors.{guard-eq-ok, guard}
use relyt_ingest.Writer.Sealing.{AtMost, IsWell, InRange, raise, ahead}
use relyt_ingest.Common.{
  ℕ, ◌≡◌, ap, Bool, true, not, ◌||◌, Option, none, some, arith, All-append, All, List, [], ◌∷◌,
  ◌++◌, refl,
}
use relyt_ingest.Common.Int.{ℤ, pos, ◌≤ℤ◌, ◌<ℤ◌, ltb_ℤ}
use relyt_ingest.Errors.{Error, ok, >>=-eq-ok, ok_injective}
use relyt_ingest.Writer.{Arrow, WriterConfig, WriterState, is_rewound, push, accept}

behind :
    {Batch : Type 0} (floor start : ℤ) (mark : Option ℤ) (xs : List (Batch × ℤ × ℤ))
    → not (is_rewound start mark) ≡ true
    → All (InRange floor mark) xs
    → All (λ (b, s, e). e <ℤ start) xs
behind floor start mark [] fresh h = tt
behind floor start none (x ∷ xs) fresh h = absurd h.0.2
behind floor start (some m) ((b, s, e) ∷ xs) fresh h =
    let (lo, mid, hi) = h.0 in (ground arith, behind floor start (some m) xs fresh h.1)

module _ {Batch Avg : Type 0} where
  push-IsWell :
      (arrow : Arrow Batch Avg) (batch : Batch) (start end floor : ℤ) (now : ℕ)
      (st : WriterState Batch Avg)
      → IsWell floor st
      → (floor <ℤ start) × (start ≤ℤ end) × ((e : ℤ) → AtMost e st.max_end_offset → e ≤ℤ end)
      → IsWell floor (push arrow batch start end now st)
  unfolding push
  push-IsWell arrow batch start end floor now st w (lo, mid, hi) = record {
    ranges =
        All-append _ st.buffered _ (raise floor end st.max_end_offset st.buffered hi w.ranges)
          ((lo, mid, omega arith), tt);
    floored = ground arith;
    seq_fits = w.seq_fits;
    epoch_fits = w.epoch_fits;
    used_fits = w.used_fits;
  }

  -- What `accept` made its result of.
  pub accept_inversion :
      (arrow : Arrow Batch Avg) (cfg : WriterConfig) (health : Option Error) (batch : Batch)
      (start end : ℤ) (now : ℕ) (st st' : WriterState Batch Avg) (full : Bool)
      → accept arrow cfg health batch start end now st ≡ ok (st', full)
      → (not (ltb_ℤ start (pos 0) || ltb_ℤ end start) ≡ true)
        × (not (is_rewound start st.max_end_offset) ≡ true)
        × (push arrow batch start end now st ≡ st')
  unfolding accept
  accept_inversion arrow cfg (some e) batch start end now st st' full h = cc
  accept_inversion arrow cfg none batch start end now st st' full h =
      let (u, g, h₁) = >>=-eq-ok (guard (not (ltb_ℤ start (pos 0) || ltb_ℤ end start)) _) _ h in
      let (v, k, h₂) = >>=-eq-ok (guard (arrow.compatible batch) _) _ h₁ in
      let (t, l, h₃) = >>=-eq-ok (guard (not (is_rewound start st.max_end_offset)) _) _ h₂ in
      (guard-eq-ok _ _ g, guard-eq-ok _ _ l, ap (λ r. r.0) (ok_injective h₃))

  -- A batch that `append` takes keeps the state well formed and goes to the end of the buffer; its
  -- offsets are not negative and come after everything that was sealed, which lies at or below
  -- `floor`, and after the end of every buffered batch.
  pub accept-IsWell :
      (arrow : Arrow Batch Avg) (cfg : WriterConfig) (health : Option Error) (batch : Batch)
      (start end floor : ℤ) (now : ℕ) (st st' : WriterState Batch Avg) (full : Bool)
      → IsWell floor st
      → accept arrow cfg health batch start end now st ≡ ok (st', full)
      → IsWell floor st'
        × (st'.buffered ≡ st.buffered ++ (batch, start, end) ∷ [])
        × (pos 0 ≤ℤ start)
        × (start ≤ℤ end)
        × (floor <ℤ start)
        × All (λ (b, s, e). e <ℤ start) st.buffered
  accept-IsWell arrow cfg health batch start end floor now st st' full w h =
      let (g, l, same) = accept_inversion arrow cfg health batch start end now st st' full h in
      let (lo, mid, hi) = ahead start end floor st.max_end_offset g l w.floored in
      (
        subst (IsWell floor) same (push-IsWell arrow batch start end floor now st w (lo, mid, hi)),
        subst (λ x. x.buffered ≡ st.buffered ++ (batch, start, end) ∷ []) same
            (unfold push in refl),
        ground arith,
        mid,
        lo,
        behind floor start st.max_end_offset st.buffered l w.ranges,
      )
