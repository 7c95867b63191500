-- ===== src/Common/Decimal/RoundTrip.antt =====
-- A printed number, padded or not, is read back.
use relyt_ingest.Common.{
  ℕ, zero, suc, ◌+◌, ◌-◌, ◌*◌, ◌/◌, ◌%◌, ◌≤◌, ◌≡◌, refl, ap, ◌≢◌, [], ◌∷◌, ◌++◌, some, arith, ◌∙◌,
  All, All-append, replicate, length,
}
use relyt_ingest.Common.Text.{Bytes}
use relyt_ingest.Common.Int.{pos, max_i64}
use relyt_ingest.Common.Decimal.{
  emit, display, display_i64, pad, IsDigit, scan, parse_uint, parse_i64, positive,
}

emit-IsDigit : (fuel n : ℕ) (out : Bytes) → All IsDigit out → All IsDigit (emit fuel n out)
unfolding emit
emit-IsDigit zero n out h = h
emit-IsDigit (suc fuel) n out h =
    ground (arith, h, emit-IsDigit fuel (n / 10) ((b'0' + n % 10) ∷ out))

emit-ne-nil : (fuel n : ℕ) (out : Bytes) → out ≢ [] → emit fuel n out ≢ []
unfolding emit
emit-ne-nil zero n out h = h
emit-ne-nil (suc fuel) n out h = ground (arith, emit-ne-nil fuel (n / 10) ((b'0' + n % 10) ∷ out))

pub display-IsDigit : (n : ℕ) → All IsDigit (display n)
unfolding display
display-IsDigit n = ground (arith, emit-IsDigit n n [] tt)

pub display-ne-nil : (n : ℕ) → display n ≢ []
unfolding display
display-ne-nil zero = ground arith
display-ne-nil (suc n) = ground (arith, emit-ne-nil n (suc n / 10) ((b'0' + suc n % 10) ∷ []))

scan_digit :
    (limit n : ℕ) (out : Bytes)
    → n ≤ limit
    → scan limit ((b'0' + n % 10) ∷ out) (n / 10) ≡ scan limit out n
unfolding scan
scan_digit limit n out fits =
    let e : n / 10 * 10 + (b'0' + n % 10 - b'0') ≡ n = omega arith in rw e (ground arith)

scan-emit :
    (limit fuel n : ℕ) (out : Bytes)
    → n ≤ fuel
    → n ≤ limit
    → scan limit (emit fuel n out) 0 ≡ scan limit out n
unfolding emit
scan-emit limit zero n out h fits = ground arith
scan-emit limit (suc fuel) n out h fits =
    ground
      (arith, scan-emit limit fuel (n / 10) ((b'0' + n % 10) ∷ out), scan_digit limit n out fits)

scan-display : (limit n : ℕ) → n ≤ limit → scan limit (display n) 0 ≡ some n
unfolding display scan
scan-display limit n fits = ground (arith, scan-emit limit n n [])

scan-replicate : (limit k : ℕ) (s : Bytes) → scan limit (replicate k b'0' ++ s) 0 ≡ scan limit s 0
unfolding scan
scan-replicate limit zero s = refl
scan-replicate limit (suc k) s = ground (arith, scan-replicate limit k s)

parse_uint-scan :
    (limit : ℕ) (s : Bytes) → s ≢ [] → All IsDigit s → parse_uint limit s ≡ scan limit s 0
unfolding parse_uint
parse_uint-scan limit [] ne h = absurd (ne refl)
parse_uint-scan limit (c ∷ s) ne h = ground arith

replicate-IsDigit : (k : ℕ) → All IsDigit (replicate k b'0')
replicate-IsDigit zero = tt
replicate-IsDigit (suc k) = (omega arith, replicate-IsDigit k)

pub pad-IsDigit : (w n : ℕ) → All IsDigit (pad w (display n))
unfolding pad
pad-IsDigit w n =
    All-append IsDigit _ (display n) (replicate-IsDigit (w - length (display n)))
      (display-IsDigit n)

append-ne-nil : (xs ys : Bytes) → ys ≢ [] → xs ++ ys ≢ []
append-ne-nil [] ys h = h
append-ne-nil (x ∷ xs) ys h = ground arith

pad-ne-nil : (w : ℕ) (s : Bytes) → s ≢ [] → pad w s ≢ []
unfolding pad
pad-ne-nil w s = append-ne-nil (replicate (w - length s) b'0') s

scan-pad : (limit w : ℕ) (s : Bytes) → scan limit (pad w s) 0 ≡ scan limit s 0
unfolding pad
scan-pad limit w s = scan-replicate limit (w - length s) s

-- A printed number is read back from its decimal form, if it fits the type that is parsed.
pub parse_uint-display : (limit n : ℕ) → n ≤ limit → parse_uint limit (display n) ≡ some n
parse_uint-display limit n fits =
    rw (parse_uint-scan limit (display n) (display-ne-nil n) (display-IsDigit n))
      (scan-display limit n fits)

-- So it is behind zeros up to any width.
pub parse_uint-pad : (limit w n : ℕ) → n ≤ limit → parse_uint limit (pad w (display n)) ≡ some n
parse_uint-pad limit w n fits =
    parse_uint-scan limit _ (pad-ne-nil w (display n) (display-ne-nil n)) (pad-IsDigit w n)
    ∙ scan-pad limit w (display n)
    ∙ scan-display limit n fits

parse_i64-digit :
    (s : Bytes) → s ≢ [] → All IsDigit s → parse_i64 s ≡ positive (parse_uint max_i64 s)
unfolding parse_i64
parse_i64-digit [] ne h = absurd (ne refl)
parse_i64-digit (c ∷ s) ne h = ground arith

pub parse_i64-display_i64 : (n : ℕ) → n ≤ max_i64 → parse_i64 (display_i64 (pos n)) ≡ some (pos n)
unfolding display_i64 positive
parse_i64-display_i64 n fits =
    rw (parse_i64-digit (display n) (display-ne-nil n) (display-IsDigit n))
      (rw (parse_uint-display max_i64 n fits))

-- Different numbers are printed differently.
pub display-injective : (n m : ℕ) → display n ≡ display m → n ≡ m
display-injective n m e = ground (
  arith,
  parse_uint-display (n + m) n (omega arith),
  parse_uint-display (n + m) m (omega arith),
  ap (parse_uint (n + m)) e,
)
