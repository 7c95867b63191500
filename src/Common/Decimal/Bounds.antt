-- ===== src/Common/Decimal/Bounds.antt =====
-- What a parsed number is at most.
use relyt_ingest.Common.{
  ℕ, ◌+◌, ◌-◌, ◌*◌, ◌≤◌, ◌≡◌, ◌⊎◌, inl, inr, none, some, [], ◌∷◌, arith, Option-cases,
}
use relyt_ingest.Common.Text.{Bytes, Lacks}
use relyt_ingest.Common.Int.{ℤ, pos, max_i64}
use relyt_ingest.Common.Decimal.{scan, digits_of, parse_uint, parse_i64, positive}

scan_bound : (s : Bytes) (limit n : ℕ) → n ≤ limit → (r : ℕ) → scan limit s n ≡ some r → r ≤ limit
unfolding scan
scan_bound [] limit n fits r h = ground arith
scan_bound (c ∷ s) limit n fits r h =
    let rest = λ (t : n * 10 + (c - b'0') ≤ limit). scan_bound s limit (n * 10 + (c - b'0')) t r in
    ground (arith, rest)

digits_of_bound : (s : Bytes) (limit r : ℕ) → digits_of limit s ≡ some r → r ≤ limit
unfolding digits_of
digits_of_bound [] limit r h = ground arith
digits_of_bound (c ∷ s) limit r h = scan_bound (c ∷ s) limit 0 (omega arith) r h

-- A parsed number fits its type.
pub parse_uint_bound : (s : Bytes) (limit r : ℕ) → parse_uint limit s ≡ some r → r ≤ limit
unfolding parse_uint
parse_uint_bound [] limit r h = ground arith
parse_uint_bound (c ∷ s) limit r h =
    ground (arith, digits_of_bound s limit r, digits_of_bound (c ∷ s) limit r)

-- An i64 that is read from a text without a minus sign is not negative.
pub parse_i64_bound :
    (s : Bytes) (z : ℤ)
    → Lacks b'-' s
    → parse_i64 s ≡ some z
    → (n : ℕ) × (z ≡ pos n) × (n ≤ max_i64)
unfolding parse_i64
parse_i64_bound [] z lacks h = ground arith
parse_i64_bound (c ∷ s) z lacks h =
    from_uint (c ∷ s) z (Option-cases (parse_uint max_i64 (c ∷ s))) (ground arith)
  where
    from_uint :
        (s : Bytes) (z : ℤ)
        → (parse_uint max_i64 s ≡ none) ⊎ ((n : ℕ) × (parse_uint max_i64 s ≡ some n))
        → positive (parse_uint max_i64 s) ≡ some z
        → (n : ℕ) × (z ≡ pos n) × (n ≤ max_i64)
    from_uint s z (inl e) h = ground arith
    from_uint s z (inr (n, e)) h = (n, ground arith, parse_uint_bound s max_i64 n e)
