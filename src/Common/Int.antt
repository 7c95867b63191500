-- ===== src/Common/Int.antt =====
-- Signed integers over the native numbers: Rust's i64 with its order, and its wrapping sum.
use Prim.Native.Nat.{ℕ, suc, ◌+◌, ◌-◌, ◌≤◌, ◌<◌, ◌^◌}
use mathlib.Core.Path.{◌≡◌}
use mathlib.Core.Logic.{◌↔◌}
use mathlib.Core.Bool.{Bool, true}
use native.Mathlib.Omega.{arith}
use relyt_ingest.Common.Tests.{ltb, leb, ◌==◌ as nat_eq, if◌then◌else◌}

-- `negsuc n` is -(n + 1).
pub data ℤ : Type 0 where
  pos : ℕ → ℤ
  negsuc : ℕ → ℤ

abbrev pub pos_part : ℤ → ℕ
pos_part (pos n) = n
pos_part (negsuc n) = 0

abbrev pub neg_part : ℤ → ℕ
neg_part (pos n) = 0
neg_part (negsuc n) = suc n

infix 50 ◌≤ℤ◌ ◌<ℤ◌
abbrev pub ◌≤ℤ◌ : ℤ → ℤ → Type 0
a ≤ℤ b = pos_part a + neg_part b ≤ pos_part b + neg_part a

abbrev pub ◌<ℤ◌ : ℤ → ℤ → Type 0
a <ℤ b = pos_part a + neg_part b < pos_part b + neg_part a

-- Rust's `<`, `<=`, `==` and `max` on i64.
abbrev pub ltb_ℤ : ℤ → ℤ → Bool
ltb_ℤ a b = ltb (pos_part a + neg_part b) (pos_part b + neg_part a)

abbrev pub leb_ℤ : ℤ → ℤ → Bool
leb_ℤ a b = leb (pos_part a + neg_part b) (pos_part b + neg_part a)

abbrev pub eq_ℤ : ℤ → ℤ → Bool
eq_ℤ a b = nat_eq (pos_part a + neg_part b) (pos_part b + neg_part a)

abbrev pub max_ℤ : ℤ → ℤ → ℤ
max_ℤ a b = if leb_ℤ a b then b else a

pub eq_of_parts : (a b : ℤ) → pos_part a + neg_part b ≡ pos_part b + neg_part a → a ≡ b
eq_of_parts a b h = ground arith

pub eq_ℤ_iff : (a b : ℤ) → (eq_ℤ a b ≡ true) ↔ (a ≡ b)
eq_ℤ_iff a b = ground arith

abbrev pub max_i64 : ℕ
max_i64 = 2 ^ 63 - 1

-- A value of type i64.
abbrev pub IsI64 : ℤ → Type 0
IsI64 (pos n) = n ≤ max_i64
IsI64 (negsuc n) = n ≤ max_i64

-- `as i64` of a u64, and `as u64` of an i64: the bits stay.
abbrev pub to_i64 : ℕ → ℤ
to_i64 n = if leb n max_i64 then pos n else negsuc (2 ^ 64 - 1 - n)

abbrev pub to_u64 : ℤ → ℕ
to_u64 (pos n) = n
to_u64 (negsuc n) = 2 ^ 64 - 1 - n

-- `a + 1` and `a - 1`, which wrap at the ends of i64 in a release build.
abbrev pub next_i64 : ℤ → ℤ
next_i64 (pos n) = if nat_eq n max_i64 then negsuc max_i64 else pos (n + 1)
next_i64 (negsuc n) = if nat_eq n 0 then pos 0 else negsuc (n - 1)

abbrev pub prev_i64 : ℤ → ℤ
prev_i64 (pos n) = if nat_eq n 0 then negsuc 0 else pos (n - 1)
prev_i64 (negsuc n) = if nat_eq n max_i64 then pos max_i64 else negsuc (n + 1)

pub prev_i64-next_i64 : (a : ℤ) → IsI64 a → prev_i64 (next_i64 a) ≡ a
prev_i64-next_i64 (pos n) h = ground arith
prev_i64-next_i64 (negsuc n) h = ground arith
