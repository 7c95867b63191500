-- ===== src/Common/Text/Split.antt =====
-- Texts cut at a separator: the parts of a text that was put together from parts without it.
use relyt_ingest.Common.{
  ℕ, ◌≡◌, refl, ◌∙◌, ap, ◌≢◌, [], ◌∷◌, ◌++◌, arith, append_assoc, append-nil, All,
}
use relyt_ingest.Common.Text.{Bytes, Lacks, split_at, split}

split_at-append :
    (sep : ℕ) (p rest cur : Bytes)
    → Lacks sep p
    → split_at sep (p ++ rest) cur ≡ split_at sep rest (cur ++ p)
unfolding split_at
split_at-append sep [] rest cur h = rw append-nil
split_at-append sep (c ∷ p) rest cur h =
    ground (arith, split_at-append sep p rest (cur ++ c ∷ []) h.1, append_assoc cur (c ∷ []) p)

split_at-sep :
    (sep : ℕ) (rest cur : Bytes) → split_at sep (sep ∷ rest) cur ≡ cur ∷ split_at sep rest []
unfolding split_at
split_at-sep sep rest cur = ground arith

-- A part without the separator, and the separator, come off the front.
pub split-append :
    (sep : ℕ) (p rest : Bytes) → Lacks sep p → split sep (p ++ sep ∷ rest) ≡ p ∷ split sep rest
unfolding split
split-append sep p rest h = split_at-append sep p (sep ∷ rest) [] h ∙ split_at-sep sep rest p

-- A text without the separator is its only part.
pub split_last : (sep : ℕ) (p : Bytes) → Lacks sep p → split sep p ≡ p ∷ []
unfolding split
split_last sep p h =
    ap (λ s. split_at sep s []) (sym-nil p) ∙ split_at-append sep p [] [] h ∙ end sep p
  where
    sym-nil : (p : Bytes) → p ≡ p ++ []
    sym-nil p = rw append-nil

    end : (sep : ℕ) (p : Bytes) → split_at sep [] p ≡ p ∷ []
    end sep p = unfold split_at in refl

Lacks-snoc : (sep : ℕ) (cur : Bytes) (c : ℕ) → Lacks sep cur → c ≢ sep → Lacks sep (cur ++ c ∷ [])
Lacks-snoc sep [] c h ne = (ne, tt)
Lacks-snoc sep (d ∷ cur) c h ne = (h.0, Lacks-snoc sep cur c h.1 ne)

split_at-Lacks : (sep : ℕ) (s cur : Bytes) → Lacks sep cur → All (Lacks sep) (split_at sep s cur)
unfolding split_at
split_at-Lacks sep [] cur h = (h, tt)
split_at-Lacks sep (c ∷ s) cur h = ground (
  arith,
  h,
  split_at-Lacks sep s [] tt,
  split_at-Lacks sep s (cur ++ c ∷ []),
  Lacks-snoc sep cur c h,
)

-- No part holds the separator.
pub split-Lacks : (sep : ℕ) (s : Bytes) → All (Lacks sep) (split sep s)
unfolding split
split-Lacks sep s = split_at-Lacks sep s [] tt
