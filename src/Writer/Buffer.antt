-- ===== src/Writer/Buffer.antt =====
-- `unbuffer`: a batch whose hand-over failed is taken back out of the buffer.
use relyt_ingest.Common.{
  ℕ, ◌+◌, ◌-◌, ◌%◌, ◌^◌, ◌<◌, ◌≡◌, refl, sym, true, Option, none, some, List, [], ◌∷◌, ◌++◌, arith,
  is_empty, if◌then◌else◌,
}
use relyt_ingest.Common.Int.{ℤ, eq_ℤ_iff}
use relyt_ingest.Writer.{Arrow, WriterState, push, unbuffer, take_last, is_range, without, or_now}

module _ {Batch : Type 0} where
  is_range-same : (b : Batch) (s e : ℤ) → is_range s e (b, s, e) ≡ true
  is_range-same b s e = rw ((eq_ℤ_iff s s).1 refl, (eq_ℤ_iff e e).1 refl) refl

  pub take_last-append :
      (b : Batch) (s e : ℤ) (xs : List (Batch × ℤ × ℤ))
      → take_last s e (xs ++ (b, s, e) ∷ []) ≡ some ((b, s, e), xs)
  unfolding take_last
  take_last-append b s e [] = rw (is_range-same b s e) refl
  take_last-append b s e (x ∷ xs) = rw (take_last-append b s e xs) refl

-- The age of the buffer is that of its oldest batch: none exactly when it is empty.
abbrev pub IsDated : {Batch : Type 0} → List Batch → Option ℕ → Type 0
IsDated [] oldest = oldest ≡ none
IsDated (x ∷ xs) none = ⊥
IsDated (x ∷ xs) (some t) = Unit

module _ {Batch Avg : Type 0} (arrow : Arrow Batch Avg) where
  redated :
      (now : ℕ) (xs : List (Batch × ℤ × ℤ)) (oldest : Option ℕ)
      → IsDated xs oldest
      → (if is_empty xs then none else or_now now oldest) ≡ oldest
  redated now [] oldest h = sym h
  redated now (x ∷ xs) none h = absurd h
  redated now (x ∷ xs) (some t) h = refl

  -- Taking back the batch that was just pushed restores the whole state, the highest end offset and the
  -- age of the buffer included, where the counts do not wrap around.
  pub unbuffer-push :
      (batch : Batch) (start end : ℤ) (now : ℕ) (st : WriterState Batch Avg)
      → IsDated st.buffered st.oldest_buffered_at
      → st.buffered_bytes_estimate + arrow.array_memory_size batch < 2 ^ 64
      → st.buffered_rows + arrow.num_rows batch < 2 ^ 64
      → unbuffer arrow start end st.max_end_offset (push arrow batch start end now st) ≡ (true, st)
  unfolding unbuffer push without
  unbuffer-push batch start end now st dated bytes rows =
      rw
        (
          take_last-append batch start end st.buffered,
          (eq_ℤ_iff end end).1 refl,
          redated now st.buffered st.oldest_buffered_at dated,
          back st.buffered_bytes_estimate (arrow.array_memory_size batch) bytes,
          back st.buffered_rows (arrow.num_rows batch) rows,
        )
        refl
    where
      back : (a b : ℕ) → a + b < 2 ^ 64 → (a + b) % 2 ^ 64 - b ≡ a
      back a b h = omega arith
