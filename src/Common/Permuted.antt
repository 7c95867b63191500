-- ===== src/Common/Permuted.antt =====
-- Permutations against the lists of this library: filters, predicates and lengths.
use mathlib.Core.HLevel.{×_prop}
use mathlib.Core.Logic.{∥∥₁_map, ∥∥₁_elim}
use mathlib.Core.List.{Perm, perm_middle}
use mathlib.Core.List.Perm
use mathlib.Core.List.{Permᴰ, Perm, perm_middle}
use mathlib.Core.List.Permᴰ
use mathlib.Core.Path.{◌≡◌, refl}
use mathlib.Core.Bool.{Bool, not}
use mathlib.Core.Logic.{inl, inr}
use mathlib.Core.List.{List, [], ◌∷◌, ◌++◌}
use Prim.Native.Nat.{◌+◌}
use native.Mathlib.Omega.{arith}
use relyt_ingest.Common.Lists.{keep_if, All, length}
use relyt_ingest.Common.Tests.{Bool-cases}

module _ {ℓ} {A : Type ℓ} (p : A → Bool) where
  swapped : (a b : A) (l : List A) → Permᴰ (keep_if p (a ∷ b ∷ l)) (keep_if p (b ∷ a ∷ l))
  swapped a b l = elim (Bool-cases (p a)) [
    | inl ea ↦ elim (Bool-cases (p b)) [
      | inl eb ↦ rw (ea, eb) (Permᴰ.swap refl refl)
      | inr eb ↦ rw (ea, eb) (Permᴰ.refl _)
    ]
    | inr ea ↦ rw ea (Permᴰ.refl _)
  ]

  keep-permᴰ : {xs ys : List A} → Permᴰ xs ys → Permᴰ (keep_if p xs) (keep_if p ys)
  keep-permᴰ Permᴰ.nil = Permᴰ.nil
  keep-permᴰ (Permᴰ.cons {a} {b} {l₁} {l₂} e d) = rw e (elim (Bool-cases (p b)) [
    | inl h ↦ rw h (Permᴰ.cons refl (keep-permᴰ d))
    | inr h ↦ rw h (keep-permᴰ d)
  ])
  keep-permᴰ (Permᴰ.swap {a} {b} {a'} {b'} {l} e f) = rw (e, f) (swapped b' a' l)
  keep-permᴰ (Permᴰ.trans d e) = Permᴰ.trans (keep-permᴰ d) (keep-permᴰ e)

  pub keep-perm : {xs ys : List A} → Perm xs ys → Perm (keep_if p xs) (keep_if p ys)
  keep-perm {xs} {ys} h = ∥∥₁_map {B = Permᴰ (keep_if p xs) (keep_if p ys)} h (λ d. keep-permᴰ d)

  -- A list is what a filter keeps and what it drops.
  pub keep-split : (xs : List A) → Perm (keep_if p xs ++ keep_if (λ x. not (p x)) xs) xs
  keep-split [] = Perm.rfl
  keep-split (x ∷ xs) = elim (Bool-cases (p x)) [
    | inl e ↦ rw e (Perm.cons x (keep-split xs))
    | inr e ↦ rw e (Perm.trans (perm_middle (keep_if p xs) _) (Perm.cons x (keep-split xs)))
  ]

  pub keep-lengths :
      (xs : List A) → length (keep_if p xs) + length (keep_if (λ x. not (p x)) xs) ≡ length xs
  keep-lengths [] = omega arith
  keep-lengths (x ∷ xs) = elim (Bool-cases (p x)) [
    | inl e ↦ rw e (omega (arith, keep-lengths xs))
    | inr e ↦ rw e (omega (arith, keep-lengths xs))
  ]

module _ {ℓ κ} {A : Type ℓ} (P : A → Type κ) (prop : (a : A) → IsProp (P a)) where
  All-prop : (xs : List A) → IsProp (All P xs)
  All-prop [] = hlevel
  All-prop (x ∷ xs) = ×_prop (prop x) (All-prop xs)

  All-permᴰ : {xs ys : List A} → Permᴰ xs ys → All P xs → All P ys
  All-permᴰ Permᴰ.nil h = tt
  All-permᴰ (Permᴰ.cons {a} {b} {l₁} {l₂} e d) h = (rw e at h.0, All-permᴰ d h.1)
  All-permᴰ (Permᴰ.swap {a} {b} {a'} {b'} {l} e f) h = (rw f at h.1.0, (rw e at h.0, h.1.1))
  All-permᴰ (Permᴰ.trans d e) h = All-permᴰ e (All-permᴰ d h)

  pub All-perm : {xs ys : List A} → Perm xs ys → All P xs → All P ys
  All-perm {xs} {ys} h all = ∥∥₁_elim h (All-prop ys) (λ d. All-permᴰ d all)
