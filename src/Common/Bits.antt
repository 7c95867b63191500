-- ===== src/Common/Bits.antt =====
-- `a | r` and `a & m` over the binary digits of `a`, where `a` is a multiple of 2^k and `r` has k
-- bits, or where `m` is the mask of the k low bits.
use Prim.Native.Nat.{ℕ, zero, suc, ◌+◌, ◌*◌, ◌/◌, ◌^◌, ◌≤◌, ◌<◌, min, max}
use Prim.Native.Nat.{bit_and, bit_or, digits, bit_and-bitwise, bit_or-bitwise}
use mathlib.Core.Path.{◌≡◌, refl, ap}
use native.Mathlib.Nat.{le_refl, pow-suc}
use native.Mathlib.Omega.{arith}

-- q * 2 ^ (k + 1), as the double that `omega` reads.
double : (q k : ℕ) → q * 2 ^ suc k ≡ 2 * (q * 2 ^ k)
double q k = omega (arith, ap (λ (t : ℕ). q * t) (pow-suc 2 k))

or_digits :
    (fuel k q r a : ℕ) → a ≡ q * 2 ^ k → r < 2 ^ k → a ≤ fuel → digits (λ y. y) max fuel a r ≡ a + r
or_digits zero k q r zero e fits h = omega arith
or_digits zero k q r (suc a) e fits h = absurd (omega arith)
or_digits (suc n) k q r zero e fits h = omega arith
or_digits (suc n) zero q r (suc a) e fits h =
    let ih =
      or_digits n zero (suc a / 2) (r / 2) (suc a / 2) (omega arith) (omega arith) (omega arith) in
    omega (arith, ih)
or_digits (suc n) (suc k) q r (suc a) e fits h =
    let ih =
      or_digits n k q (r / 2) (suc a / 2) (omega (arith, double q k)) (omega (arith, pow-suc 2 k))
        (omega arith) in
    omega (arith, ih, double q k)

and_digits :
    (fuel k q r m a : ℕ)
    → a ≡ q * 2 ^ k + r
    → r < 2 ^ k
    → suc m ≡ 2 ^ k
    → a ≤ fuel
    → digits (λ y. 0) min fuel a m ≡ r
and_digits zero k q r m zero e fits mask h = omega arith
and_digits zero k q r m (suc a) e fits mask h = absurd (omega arith)
and_digits (suc n) k q r m zero e fits mask h = omega arith
and_digits (suc n) zero q r m (suc a) e fits mask h =
    let ih =
      and_digits n zero (suc a / 2) 0 (m / 2) (suc a / 2) (omega arith) (omega arith) (omega arith)
        (omega arith) in
    omega (arith, ih)
and_digits (suc n) (suc k) q r m (suc a) e fits mask h =
    let ih =
      and_digits n k q (r / 2) (m / 2) (suc a / 2) (omega (arith, double q k))
        (omega (arith, pow-suc 2 k)) (omega (arith, pow-suc 2 k)) (omega arith) in
    omega (arith, ih, double q k, pow-suc 2 k)

-- A field of k bits goes beside a multiple of 2^k.
pub bit_or-add : (k q r : ℕ) → r < 2 ^ k → bit_or (q * 2 ^ k) r ≡ q * 2 ^ k + r
bit_or-add k q r fits = simp bit_or-bitwise (or_digits (q * 2 ^ k) k q r _ refl fits (le_refl _))

-- The mask of the k low bits keeps the remainder.
pub bit_and_mask : (k q r m : ℕ) → r < 2 ^ k → suc m ≡ 2 ^ k → bit_and (q * 2 ^ k + r) m ≡ r
bit_and_mask k q r m fits mask =
    simp bit_and-bitwise (and_digits (q * 2 ^ k + r) k q r m _ refl fits mask (le_refl _))
