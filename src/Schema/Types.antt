-- ===== src/Schema/Types.antt =====
-- src/schema.rs: the types that a column can be mapped to.
use mathlib.Core.Path.{subst}
use relyt_ingest.Common.{
  inl, inr, ◌⊎◌, ℕ, ◌≤◌, ◌≡◌, refl, arith, Bool, true, false, Option, none, some, List, [], ◌∷◌,
  leb, ◌&&◌, if◌then◌else◌, All, Bool-cases,
}
use relyt_ingest.Common.Int.{ℤ}
use relyt_ingest.Common.Text.{Bytes, codes, bytes_eq, strip_prefix, split}
use relyt_ingest.Errors.{Result, ok, err}
use relyt_ingest.Arrow.{DataType, timestamp_micros, decimal128}
use relyt_ingest.Csv.{is_supported_type}
use relyt_ingest.Schema.Declaration.{
  trim, precision_of, scale_of, checked_decimal, numeric_type, after_first, without_zone, with_zone,
  zone_type, timestamp_type, named_types, starts_with, character_type, match_name, inner, otherwise,
  after_numeric, pg_type_to_arrow,
}

-- A type that files can hold; a decimal that fits its 128 bits.
abbrev pub IsColumnType : DataType → Type 0
IsColumnType (decimal128 p s) = (1 ≤ p) × (p ≤ 38)
IsColumnType t = is_supported_type t ≡ true

abbrev Held : Result DataType → Type 0
Held (ok t) = IsColumnType t
Held (err e) = Unit

Held-if : (b : Bool) (x y : Result DataType) → Held x → Held y → Held (if b then x else y)
Held-if true x y hx hy = hx
Held-if false x y hx hy = hy

Held-checked_decimal : (p : Option ℕ) (s : Option ℤ) → Held (checked_decimal p s)
Held-checked_decimal none s = tt
Held-checked_decimal (some p) none = tt
Held-checked_decimal (some p) (some s) = elim (Bool-cases (leb 1 p && leb p 38)) [
  | inl fits ↦ rw fits (ground (arith, fits), ground (arith, fits))
  | inr outside ↦ rw outside tt
]

Held-numeric_type : (params : Bytes) → Held (numeric_type params)
unfolding numeric_type
Held-numeric_type params =
    Held-checked_decimal (precision_of (split b',' params)) (scale_of (split b',' params))

Held-character_type : (pg : Bytes) → Held (character_type pg)
unfolding character_type is_supported_type
Held-character_type pg =
    Held-if (starts_with (codes "character varying(") pg) _ _ refl
      (Held-if (starts_with (codes "character(") pg) _ _ refl tt)

abbrev AreColumnTypes : List (Bytes × DataType) → Type 0
AreColumnTypes = All (λ (row : Bytes × DataType). IsColumnType row.1)

Held-match_name :
    (pg : Bytes) (types : List (Bytes × DataType))
    → AreColumnTypes types
    → Held (match_name pg types)
unfolding match_name
Held-match_name pg [] h = Held-character_type pg
Held-match_name pg ((name, t) ∷ types) h =
    Held-if (bytes_eq pg name) _ _ h.0 (Held-match_name pg types h.1)

named : AreColumnTypes named_types
unfolding is_supported_type
named = (
  refl,
  (refl, (refl, (refl, (refl, (refl, (refl, (refl, (refl, (refl, (refl, (refl, tt))))))))))),
)

zone_cases :
    (tail : Option Bytes)
    → (zone_type tail ≡ none)
      ⊎ (zone_type tail ≡ some (timestamp_micros false))
      ⊎ (zone_type tail ≡ some (timestamp_micros true))
unfolding zone_type
zone_cases none = inl refl
zone_cases (some tail) = elim (Bool-cases (bytes_eq (trim tail) without_zone)) [
  | inl plain ↦ rw plain (inr (inl refl))
  | inr zoned ↦ rw zoned (elim (Bool-cases (bytes_eq (trim tail) with_zone)) [
    | inl utc ↦ rw utc (inr (inr refl))
    | inr neither ↦ rw neither (inl refl)
  ])
]

Held-zone :
    (tail : Option Bytes) (rest : Result DataType)
    → Held rest
    → Held (otherwise (zone_type tail) rest)
unfolding is_supported_type
Held-zone tail rest h = elim (zone_cases tail) [
  | inl e ↦ rw e h
  | inr (inl e) ↦ rw e refl
  | inr (inr e) ↦ rw e refl
]

Held-timestamp :
    (tail : Option Bytes) (rest : Result DataType)
    → Held rest
    → Held (otherwise (timestamp_type tail) rest)
Held-timestamp none rest h = h
Held-timestamp (some tail) rest h = Held-zone (after_first b')' tail) rest h

Held-after_numeric : (pg : Bytes) (params : Option Bytes) → Held (after_numeric pg params)
Held-after_numeric pg (some params) = Held-numeric_type params
Held-after_numeric pg none =
    Held-if (bytes_eq pg (codes "numeric")) _ _ tt (
      Held-timestamp (strip_prefix (codes "timestamp(") pg) _
        (Held-match_name pg named_types named))

Held-pg_type_to_arrow : (pg : Bytes) → Held (pg_type_to_arrow pg)
unfolding pg_type_to_arrow
Held-pg_type_to_arrow pg = Held-after_numeric pg (inner (strip_prefix (codes "numeric(") pg))

-- Every type that a column is mapped to is one that files can hold, and a decimal has a precision from 1
-- to 38.
pub pg_type_to_arrow-IsColumnType :
    (pg : Bytes) {t : DataType} → pg_type_to_arrow pg ≡ ok t → IsColumnType t
pg_type_to_arrow-IsColumnType pg h = subst Held h (Held-pg_type_to_arrow pg)
