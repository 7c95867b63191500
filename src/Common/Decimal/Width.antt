-- ===== src/Common/Decimal/Width.antt =====
-- How wide a printed number is: `{:0w}` has exactly w digits where the number has at most w.
use native.Mathlib.Nat.{pow-suc}
use relyt_ingest.Common.{
  ℕ, zero, suc, ◌+◌, ◌-◌, ◌/◌, ◌%◌, ◌^◌, ◌≤◌, ◌<◌, ◌≡◌, refl, sym, ◌∙◌, [], ◌∷◌, ◌++◌, arith, ◌==◌,
  append_assoc, append-nil, append_inj, if◌then◌else◌, replicate, length, length-append,
}
use relyt_ingest.Common.Text.{Bytes}
use relyt_ingest.Common.Decimal.{emit, display, pad}

-- The w lowest digits of `n`.
unfoldable pub fixed : ℕ → ℕ → Bytes
fixed zero n = []
fixed (suc w) n = fixed w (n / 10) ++ (b'0' + n % 10) ∷ []

count : ℕ → ℕ → ℕ
count zero n = 0
count (suc fuel) n = let more = suc (count fuel (n / 10)) in if n == 0 then 0 else more

length-emit : (fuel n : ℕ) (out : Bytes) → length (emit fuel n out) ≡ count fuel n + length out
unfolding emit count
length-emit zero n out = omega arith
length-emit (suc fuel) n out = ground (arith, length-emit fuel (n / 10) ((b'0' + n % 10) ∷ out))

count-le : (w fuel n : ℕ) → n < 10 ^ w → count fuel n ≤ w
unfolding count
count-le w zero n h = omega arith
count-le zero (suc fuel) n h = ground arith
count-le (suc w) (suc fuel) n h =
    ground (arith, count-le w fuel (n / 10) (omega (arith, pow-suc 10 w)))

count_step : (fuel n : ℕ) → count (suc fuel) (suc n) ≡ suc (count fuel (suc n / 10))
unfolding count
count_step fuel n = ground arith

emit_step :
    (fuel n : ℕ) (out : Bytes)
    → emit (suc fuel) (suc n) out ≡ emit fuel (suc n / 10) ((b'0' + suc n % 10) ∷ out)
unfolding emit
emit_step fuel n out = ground arith

display-suc : (n : ℕ) → display (suc n) ≡ emit (suc n) (suc n) []
unfolding display
display-suc n = ground arith

pub length-display : (w n : ℕ) → n < 10 ^ suc w → length (display n) ≤ suc w
unfolding display
length-display w n h = ground (arith, length-emit n n [], count-le (suc w) n n h)

pub length-display_pos : (n : ℕ) → 1 ≤ length (display n)
unfolding display
length-display_pos zero = omega arith
length-display_pos (suc n) =
    rw (display-suc n) (omega (arith, length-emit (suc n) (suc n) [], count_step n n))

replicate-snoc :
    (k : ℕ) (s : Bytes) → replicate k b'0' ++ (b'0' ∷ s) ≡ b'0' ∷ (replicate k b'0' ++ s)
replicate-snoc zero s = refl
replicate-snoc (suc k) s = ground (arith, replicate-snoc k s)

fixed-zero : (w : ℕ) (out : Bytes) → fixed w 0 ++ out ≡ replicate w b'0' ++ out
unfolding fixed
fixed-zero zero out = refl
fixed-zero (suc w) out =
    rw (append_assoc (fixed w 0)) (ground (arith, fixed-zero w (b'0' ∷ out), replicate-snoc w out))

fixed-snoc :
    (w n : ℕ) (out : Bytes) → fixed (suc w) n ++ out ≡ fixed w (n / 10) ++ (b'0' + n % 10) ∷ out
unfolding fixed
fixed-snoc w n out = append_assoc (fixed w (n / 10)) _ _

emit-fixed :
    (w fuel n : ℕ) (out : Bytes)
    → n ≤ fuel
    → n < 10 ^ w
    → replicate (w - count fuel n) b'0' ++ emit fuel n out ≡ fixed w n ++ out
unfolding emit count
emit-fixed w zero zero out h fits = let e : w - 0 ≡ w = omega arith in rw e (sym (fixed-zero w out))
emit-fixed w zero (suc n) out h fits = absurd (omega arith)
emit-fixed w (suc fuel) zero out h fits =
    let e : w - 0 ≡ w = omega arith in rw e (sym (fixed-zero w out))
emit-fixed zero (suc fuel) (suc n) out h fits = absurd (omega arith)
emit-fixed (suc w) (suc fuel) (suc n) out h fits =
    let less : suc w - suc (count fuel (suc n / 10)) ≡ w - count fuel (suc n / 10) = omega arith in
    rw (count_step fuel n, emit_step fuel n out, less)
      (emit-fixed w fuel (suc n / 10) ((b'0' + suc n % 10) ∷ out) (omega arith)
          (omega (arith, pow-suc 10 w))
        ∙ sym (fixed-snoc w (suc n) out))

pad_zero : (w : ℕ) → replicate w b'0' ++ (b'0' ∷ []) ≡ fixed (suc w) 0
unfolding fixed
pad_zero w = sym (fixed-zero w (b'0' ∷ []))

pad-emit : (w n : ℕ) → n < 10 ^ w → pad w (emit n n []) ≡ fixed w n ++ []
unfolding pad
pad-emit w n h =
    let e : w - length (emit n n []) ≡ w - count n n = omega (arith, length-emit n n []) in
    rw e (emit-fixed w n n [] (omega arith) h)

-- A number of at most w digits, padded to w, is its w lowest digits.
pub pad-fixed : (w n : ℕ) → n < 10 ^ suc w → pad (suc w) (display n) ≡ fixed (suc w) n
unfolding pad display
pad-fixed w zero h = let e : suc w - 1 ≡ w = omega arith in rw e (pad_zero w)
pad-fixed w (suc n) h = rw (display-suc n) (pad-emit (suc w) (suc n) h ∙ append-nil _)

pub length-fixed : (w n : ℕ) → length (fixed w n) ≡ w
unfolding fixed
length-fixed zero n = refl
length-fixed (suc w) n =
    omega (arith, length-append (fixed w (n / 10)) ((b'0' + n % 10) ∷ []), length-fixed w (n / 10))

-- Numbers of at most w digits are told apart by them.
pub fixed-injective : (w n m : ℕ) → n < 10 ^ w → m < 10 ^ w → fixed w n ≡ fixed w m → n ≡ m
unfolding fixed
fixed-injective zero n m hn hm e = omega arith
fixed-injective (suc w) n m hn hm e =
    let lengths : length (fixed w (n / 10)) ≡ length (fixed w (m / 10)) =
      omega (arith, length-fixed w (n / 10), length-fixed w (m / 10)) in
    let (tops, lows) = append_inj (fixed w (n / 10)) (fixed w (m / 10)) _ _ lengths e in
    let tens : n / 10 ≡ m / 10 =
      fixed-injective w (n / 10) (m / 10) (omega (arith, pow-suc 10 w))
        (omega (arith, pow-suc 10 w)) tops in
    let units : b'0' + n % 10 ≡ b'0' + m % 10 = ground (arith, lows) in omega (arith, tens, units)
