-- ===== src/Writer/Sealing.antt =====
-- What holds of a writer's state between its calls, and the range of offsets of a file.
use relyt_ingest.Common.{
  ℕ, ◌+◌, ◌%◌, ◌^◌, ◌≤◌, ◌<◌, ◌≡◌, refl, ◌⊎◌, inl, inr, true, not, ◌||◌, Option, none, some, List,
  [], ◌∷◌, arith, ltb, All, Bool-cases,
}
use relyt_ingest.Common.Int.{ℤ, pos, negsuc, ◌≤ℤ◌, ◌<ℤ◌, ltb_ℤ, max_ℤ}
use relyt_ingest.Naming.{max_seq, max_epoch_ms}
use relyt_ingest.Writer.{WriterState, is_rewound, min_ℤ, span, roll}

abbrev pub AtMost : ℤ → Option ℤ → Type 0
AtMost e none = ⊥
AtMost e (some m) = e ≤ℤ m

-- Nothing up to `floor` can be appended any more.
abbrev pub IsFloor : ℤ → Option ℤ → Type 0
IsFloor floor none = floor ≡ negsuc 0
IsFloor floor (some m) = floor ≤ℤ m

pub ahead :
    (start end floor : ℤ) (mark : Option ℤ)
    → (not (ltb_ℤ start (pos 0) || ltb_ℤ end start)) ≡ true
    → not (is_rewound start mark) ≡ true
    → IsFloor floor mark
    → (floor <ℤ start) × (start ≤ℤ end) × ((e : ℤ) → AtMost e mark → e ≤ℤ end)
ahead start end floor none h k f = (rw f (ground arith), ground arith, λ e a. absurd a)
ahead start end floor (some m) h k f = (ground arith, ground arith, λ e a. ground arith)

below : (a b : ℤ) → min_ℤ a b ≤ℤ a
below a b = ground arith

above : (a b : ℤ) → a ≤ℤ max_ℤ a b
above a b = ground arith

min-trans : (a b c : ℤ) → b ≤ℤ c → min_ℤ a b ≤ℤ c
min-trans a b c h = ground arith

max-trans : (a b c : ℤ) → c ≤ℤ b → c ≤ℤ max_ℤ a b
max-trans a b c h = ground arith

least : (floor a b : ℤ) → floor <ℤ a → floor <ℤ b → floor <ℤ min_ℤ a b
least floor a b h k = ground arith

greatest : (mark : Option ℤ) (a b : ℤ) → AtMost a mark → AtMost b mark → AtMost (max_ℤ a b) mark
greatest none a b h k = h
greatest (some m) a b h k = ground arith

widen : (s e lo hi : ℤ) → s ≤ℤ e → lo ≤ℤ hi → min_ℤ s lo ≤ℤ max_ℤ e hi
widen s e lo hi h k = ground arith

module _ {Batch : Type 0} where
  -- The entry lies above the floor and below the mark.
  abbrev pub InRange : ℤ → Option ℤ → Batch × ℤ × ℤ → Type 0
  InRange floor mark (b, s, e) = (floor <ℤ s) × (s ≤ℤ e) × AtMost e mark

  pub raise :
      (floor new : ℤ) (mark : Option ℤ) (xs : List (Batch × ℤ × ℤ))
      → ((e : ℤ) → AtMost e mark → e ≤ℤ new)
      → All (InRange floor mark) xs
      → All (InRange floor (some new)) xs
  raise floor new mark [] le h = tt
  raise floor new mark ((b, s, e) ∷ xs) le h =
      ((h.0.0, h.0.1, le e h.0.2), raise floor new mark xs le h.1)

  wider :
      (s e lo hi : ℤ) (xs : List (Batch × ℤ × ℤ))
      → All (λ (b, t, u). (lo ≤ℤ t) × (u ≤ℤ hi)) xs
      → All (λ (b, t, u). (min_ℤ s lo ≤ℤ t) × (u ≤ℤ max_ℤ e hi)) xs
  wider s e lo hi [] h = tt
  wider s e lo hi ((b, t, u) ∷ xs) h =
      ((min-trans s lo t h.0.0, max-trans e hi u h.0.1), wider s e lo hi xs h.1)

  -- The range of a file covers every entry, and no more than the floor and the mark allow.
  pub span_covers :
      (floor : ℤ) (mark : Option ℤ) (x : Batch × ℤ × ℤ) (xs : List (Batch × ℤ × ℤ))
      → All (InRange floor mark) (x ∷ xs)
      → (floor <ℤ (span x xs).0)
        × ((span x xs).0 ≤ℤ (span x xs).1)
        × AtMost (span x xs).1 mark
        × All (λ (b, s, e). ((span x xs).0 ≤ℤ s) × (e ≤ℤ (span x xs).1)) (x ∷ xs)
  unfolding span
  span_covers floor mark (b, s, e) [] h = (h.0.0, h.0.1, h.0.2, ((omega arith, omega arith), tt))
  span_covers floor mark (b, s, e) (y ∷ ys) h =
      let (lo, mid, hi, covered) = span_covers floor mark y ys h.1 in
      (
        least floor s (span y ys).0 h.0.0 lo,
        widen s e (span y ys).0 (span y ys).1 h.0.1 mid,
        greatest mark e (span y ys).1 h.0.2 hi,
        (
          (below s (span y ys).0, above e (span y ys).1),
          wider s e (span y ys).0 (span y ys).1 (y ∷ ys) covered,
        ),
      )

module _ {Batch Avg : Type 0} where
  -- What `open_table` starts with and every call keeps; all that was sealed before lies at or below
  -- `floor`.
  pub record IsWell (floor : ℤ) (st : WriterState Batch Avg) : Type 0 where
    pub ranges : All (InRange floor st.max_end_offset) st.buffered
    pub floored : IsFloor floor st.max_end_offset
    pub seq_fits : st.next_seq ≤ 2 ^ 20
    pub epoch_fits : st.epoch_ms ≤ 2 ^ 43
    pub used_fits : 1 ≤ st.next_seq → st.epoch_ms ≤ max_epoch_ms

  -- The next seq is the one after the last file's, or the first of a later epoch.
  abbrev pub Follows : Option (ℕ × ℕ × ℤ) → WriterState Batch Avg → Type 0
  Follows none st = Unit
  Follows (some (epoch, seq, end)) st =
      ((st.epoch_ms ≡ epoch) × (st.next_seq ≡ seq + 1))
      ⊎ ((epoch < st.epoch_ms) × (st.next_seq ≡ 0))

  pub roll-IsWell :
      (floor : ℤ) (st : WriterState Batch Avg) → IsWell floor st → IsWell floor (roll st)
  unfolding roll
  roll-IsWell floor st w = elim (Bool-cases (ltb max_seq st.next_seq)) [
    | inl full ↦ rw full (record {
      ranges = w.ranges;
      floored = w.floored;
      seq_fits = omega arith;
      epoch_fits = grind (arith, w.used_fits, w.epoch_fits);
      used_fits = λ used. absurd (omega arith);
    })
    | inr room ↦ rw room w
  ]

  pub roll-Follows :
      (floor : ℤ) (prev : Option (ℕ × ℕ × ℤ)) (st : WriterState Batch Avg)
      → IsWell floor st
      → Follows prev st
      → Follows prev (roll st)
  unfolding roll
  roll-Follows floor none st w h = tt
  roll-Follows floor (some (epoch, seq, end)) st w h = elim (Bool-cases (ltb max_seq st.next_seq)) [
    | inl full ↦ rw full (inr (wraps st.epoch_ms st.next_seq full w.used_fits h, refl))
    | inr room ↦ rw room h
  ]
    where
      wraps :
          (e n : ℕ)
          → ltb max_seq n ≡ true
          → (1 ≤ n → e ≤ max_epoch_ms)
          → ((e ≡ epoch) × (n ≡ seq + 1)) ⊎ ((epoch < e) × (n ≡ 0))
          → epoch < (e + 1) % 2 ^ 64
      wraps e n full fits (inl (same, next)) =
          let small : e ≤ max_epoch_ms = fits (ground arith) in omega arith
      wraps e n full fits (inr (less, zero_next)) = absurd (ground arith)

  pub roll-seq : (st : WriterState Batch Avg) → (roll st).next_seq ≤ max_seq
  unfolding roll
  roll-seq st = elim (Bool-cases (ltb max_seq st.next_seq)) [
    | inl full ↦ rw full (omega arith)
    | inr room ↦ rw room (ground arith)
  ]
