-- ===== src/Writer/Lag.antt =====
-- src/table.rs, `lag_of` and `oldest_unstaged_age`: how far a writer is behind.
use relyt_ingest.Common.{
  ℕ, ◌-◌, ◌/◌, ◌≤◌, ◌≡◌, refl, inl, inr, true, Option, none, some, List, [], ◌∷◌, arith, length,
  keep_if, min, max, All, Bool-cases,
}
use relyt_ingest.Common.Int.{ℤ}
use relyt_ingest.Recovery.{above}
use relyt_ingest.Writer.{WriterState}

abbrev pub earlier : ℕ → Option ℕ → Option ℕ
earlier t none = some t
earlier t (some u) = some (min t u)

unfoldable pub oldest_of : List (ℤ × ℕ) → Option ℕ
oldest_of [] = none
oldest_of ((seq, t) ∷ files) = earlier t (oldest_of files)

abbrev pub age_seconds : ℕ → Option ℕ → ℕ
age_seconds now none = 0
age_seconds now (some t) = (now - t) / 1000

-- The files that are left, their number, and the age of the oldest in seconds.
unfoldable pub lag_of : List (ℤ × ℕ) → Option ℤ → ℕ → List (ℤ × ℕ) × ℕ × ℕ
unfolding oldest_of
lag_of known watermark now_ms =
    let left = keep_if (λ (seq, t). above watermark seq) known in
    (left, length left, age_seconds now_ms (oldest_of left))

abbrev pub greater : ℕ → Option ℕ → Option ℕ
greater a none = some a
greater a (some b) = some (max a b)

unfoldable pub greatest_age : ℕ → List (ℤ × ℕ) → Option ℕ
greatest_age now [] = none
greatest_age now ((seq, t) ∷ files) = greater (now - t) (greatest_age now files)

abbrev pub with_buffer : ℕ → Option ℕ → Option ℕ → Option ℕ
with_buffer now none oldest = oldest
with_buffer now (some t) oldest = greater (now - t) oldest

unfoldable pub oldest_unstaged_age : {Batch Avg : Type 0} → ℕ → WriterState Batch Avg → Option ℕ
unfolding greatest_age
oldest_unstaged_age now st = with_buffer now st.oldest_buffered_at (greatest_age now st.in_flight)

IsYoung : ℕ → ℕ → ℤ × ℕ → Type 0
IsYoung now age (seq, t) = (now - t) / 1000 ≤ age

younger :
    (now lo hi : ℕ) (files : List (ℤ × ℕ))
    → lo ≤ hi
    → All (IsYoung now lo) files
    → All (IsYoung now hi) files
unfolding IsYoung
younger now lo hi [] le h = tt
younger now lo hi ((seq, t) ∷ files) le h = (omega arith, younger now lo hi files le h.1)

at_head : (now t : ℕ) (o : Option ℕ) → (now - t) / 1000 ≤ age_seconds now (earlier t o)
at_head now t none = omega arith
at_head now t (some u) = omega arith

in_rest : (now t : ℕ) (o : Option ℕ) → age_seconds now o ≤ age_seconds now (earlier t o)
in_rest now t none = omega arith
in_rest now t (some u) = omega arith

oldest_first :
    (now : ℕ) (files : List (ℤ × ℕ)) → All (IsYoung now (age_seconds now (oldest_of files))) files
unfolding oldest_of IsYoung
oldest_first now [] = tt
oldest_first now ((seq, t) ∷ files) = (
  at_head now t (oldest_of files),
  younger now _ _ files (in_rest now t (oldest_of files)) (oldest_first now files),
)

kept_above :
    (w : Option ℤ) (files : List (ℤ × ℕ))
    → All (λ (seq, t). above w seq ≡ true) (keep_if (λ (seq, t). above w seq) files)
kept_above w [] = tt
kept_above w ((seq, t) ∷ files) = elim (Bool-cases (above w seq)) [
  | inl e ↦ rw e (e, kept_above w files)
  | inr e ↦ rw e (kept_above w files)
]

-- The files that the sampler leaves are above the watermark, their number is the one reported, and
-- none of them is older than the age reported.
pub lag_of_bounds :
    (known : List (ℤ × ℕ)) (watermark : Option ℤ) (now_ms : ℕ)
    → All (λ (seq, t). above watermark seq ≡ true) (lag_of known watermark now_ms).0
      × ((lag_of known watermark now_ms).1 ≡ length (lag_of known watermark now_ms).0)
      × All
          (λ (seq, t). (now_ms - t) / 1000 ≤ (lag_of known watermark now_ms).2)
          (lag_of known watermark now_ms).0
unfolding lag_of IsYoung
lag_of_bounds known watermark now_ms = (
  kept_above watermark known,
  refl,
  oldest_first now_ms (keep_if (λ (seq, t). above watermark seq) known),
)
