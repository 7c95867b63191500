-- ===== src/Common/Text.antt =====
-- Text as the bytes of its UTF-8 form, as the staged names are ASCII.
pub mod Split
pub mod Affix
use Prim.Native.Char.{code}
use Prim.Native.Nat.{ℕ}
use Prim.Native.String.{String}
use mathlib.Core.Path.{◌≡◌, refl}
use mathlib.Core.Bool.{Bool, true, false, ◌&&◌, ◌||◌}
use mathlib.Core.Logic.{◌↔◌, ◌≢◌}
use mathlib.Core.List.{List, [], ◌∷◌, ◌++◌, append-nil, append_assoc}
use mathlib.Core.Option.{Option, none, some}
use native.Mathlib.Omega.{arith}
use relyt_ingest.Common.Tests.{◌==◌ as nat_eq, if◌then◌else◌, ==_iff}
use relyt_ingest.Common.Lists.{All}

abbrev pub Bytes : Type 0
Bytes = List ℕ

-- The code points of a literal: its bytes, as every literal here is ASCII.
abbrev pub codes : String → Bytes
codes String.[] = []
codes (String.◌∷◌ c s) = code c ∷ codes s

-- `==` on strings.
unfoldable pub bytes_eq : Bytes → Bytes → Bool
bytes_eq [] [] = true
bytes_eq [] (y ∷ ys) = false
bytes_eq (x ∷ xs) [] = false
bytes_eq (x ∷ xs) (y ∷ ys) = nat_eq x y && bytes_eq xs ys

pub bytes_eq_iff : (xs ys : Bytes) → (bytes_eq xs ys ≡ true) ↔ (xs ≡ ys)
unfolding bytes_eq
bytes_eq_iff [] [] = ground arith
bytes_eq_iff [] (y ∷ ys) = ground arith
bytes_eq_iff (x ∷ xs) [] = ground arith
bytes_eq_iff (x ∷ xs) (y ∷ ys) = ground (arith, bytes_eq_iff xs ys)

-- `str::strip_prefix`
unfoldable pub strip_prefix : Bytes → Bytes → Option Bytes
strip_prefix [] s = some s
strip_prefix (p ∷ ps) [] = none
strip_prefix (p ∷ ps) (c ∷ s) = if nat_eq p c then strip_prefix ps s else none

-- `str::strip_suffix`: the shortest start of `s` that `suffix` follows to the end.
unfoldable pub strip_suffix : Bytes → Bytes → Option Bytes
unfolding bytes_eq
strip_suffix suffix [] = if bytes_eq [] suffix then some [] else none
strip_suffix suffix (c ∷ s) =
    let rest = strip_suffix suffix s in
    if bytes_eq (c ∷ s) suffix then some [] else elim rest [ none ↦ none | some t ↦ some (c ∷ t) ]

-- `str::split` at one character: there is always a first part.
pub split_at : ℕ → Bytes → Bytes → List Bytes
split_at sep [] cur = cur ∷ []
split_at sep (c ∷ s) cur =
    let cut = cur ∷ split_at sep s [] in
    let on = split_at sep s (cur ++ c ∷ []) in if nat_eq c sep then cut else on

unfoldable pub split : ℕ → Bytes → List Bytes
unfolding split_at
split sep s = split_at sep s []

abbrev pub Lacks : ℕ → Bytes → Type 0
Lacks b = All (λ c. c ≢ b)
