-- ===== src/Common/Text/Affix.antt =====
-- Prefixes and suffixes that are taken off.
use relyt_ingest.Common.{
  ℕ, ◌≡◌, refl, ap, ◌≢◌, inl, inr, true, false, none, some, [], ◌∷◌, ◌++◌, arith, length,
  length-append, last, Bool-cases, Option-cases, ◌⊎◌, false,
}
use relyt_ingest.Common.Text.{Bytes, bytes_eq, bytes_eq_iff, strip_suffix}

bytes_eq_refl : (s : Bytes) → bytes_eq s s ≡ true
bytes_eq_refl s = (bytes_eq_iff s s).1 refl

longer : (c : ℕ) (t suffix : Bytes) → c ∷ (t ++ suffix) ≢ suffix
longer c t suffix e = absurd (omega (arith, ap length e, length-append t suffix))

-- The suffix comes off the end.
pub strip_suffix-append :
    (suffix t : Bytes) → suffix ≢ [] → strip_suffix suffix (t ++ suffix) ≡ some t
unfolding strip_suffix
strip_suffix-append [] t ne = absurd (ne refl)
strip_suffix-append (d ∷ suffix) [] ne = rw (bytes_eq_refl (d ∷ suffix))
strip_suffix-append (d ∷ suffix) (c ∷ t) ne =
    elim (Bool-cases (bytes_eq (c ∷ (t ++ d ∷ suffix)) (d ∷ suffix))) [
      | inl e ↦ absurd (longer c t (d ∷ suffix) ((bytes_eq_iff _ _).0 e))
      | inr e ↦ rw (e, strip_suffix-append (d ∷ suffix) t ne)
    ]

kept :
    (suffix : Bytes) (c : ℕ) (s t : Bytes)
    → bytes_eq (c ∷ s) suffix ≡ false
    → (strip_suffix suffix s ≡ none) ⊎ ((u : Bytes) × (strip_suffix suffix s ≡ some u))
    → ((u : Bytes) → strip_suffix suffix s ≡ some u → s ≡ u ++ suffix)
    → strip_suffix suffix (c ∷ s) ≡ some t
    → c ∷ s ≡ t ++ suffix
unfolding strip_suffix
kept suffix c s t e (inl miss) rest h = ground arith
kept suffix c s t e (inr (u, found)) rest h = ground (arith, rest u found)

-- What is left of a stripped text, with the suffix, is the text.
pub strip_suffix_sound : (suffix s t : Bytes) → strip_suffix suffix s ≡ some t → s ≡ t ++ suffix
unfolding strip_suffix
strip_suffix_sound suffix [] t h = ground (arith, bytes_eq_iff [] suffix)
strip_suffix_sound suffix (c ∷ s) t h = elim (Bool-cases (bytes_eq (c ∷ s) suffix)) [
  | inl e ↦ ground (arith, (bytes_eq_iff (c ∷ s) suffix).0 e)
  | inr e ↦
      kept suffix c s t e (Option-cases (strip_suffix suffix s)) (strip_suffix_sound suffix s) h
]

pub last-append : (xs : Bytes) (y : ℕ) (ys : Bytes) → last (xs ++ y ∷ ys) ≡ last (y ∷ ys)
last-append [] y ys = refl
last-append (x ∷ []) y ys = refl
last-append (x ∷ x' ∷ xs) y ys = last-append (x' ∷ xs) y ys
