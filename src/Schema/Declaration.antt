-- ===== src/Schema/Declaration.antt =====
-- src/schema.rs: the arrow type of a column from the text that the server prints for its type. Texts are
-- lists of code points.
use relyt_ingest.Common.{
  ℕ, Bool, true, false, Option, none, some, List, [], ◌∷◌, ◌==◌, leb, ◌&&◌, ◌||◌, if◌then◌else◌,
}
use relyt_ingest.Common.Int.{ℤ, pos, negsuc}
use relyt_ingest.Common.Text.{Bytes, codes, bytes_eq, strip_prefix, strip_suffix, split}
use relyt_ingest.Common.Decimal.{parse_uint, parse_i64}
use relyt_ingest.Errors.{Result, ok, err, unsupported_type}
use relyt_ingest.Arrow.{
  DataType, boolean, int16, int32, int64, float32, float64, utf8, date32, binary, timestamp_micros,
  decimal128,
}

-- `char::is_whitespace`
abbrev pub is_whitespace : ℕ → Bool
is_whitespace c =
    (leb 9 c && leb c 13)
    || (c == 32)
    || (c == 133)
    || (c == 160)
    || (c == 5760)
    || (leb 8192 c && leb c 8202)
    || (c == 8232)
    || (c == 8233)
    || (c == 8239)
    || (c == 8287)
    || (c == 12_288)

unfoldable pub trim_start : Bytes → Bytes
trim_start [] = []
trim_start (c ∷ s) = let rest = trim_start s in if is_whitespace c then rest else c ∷ s

-- What stands before the white space at the end.
unfoldable pub trim_end : Bytes → Bytes
trim_end [] = []
trim_end (c ∷ s) =
    let rest = trim_end s in
    elim rest [ [] ↦ if is_whitespace c then [] else c ∷ [] | d ∷ t ↦ c ∷ d ∷ t ]

unfoldable pub trim : Bytes → Bytes
unfolding trim_start trim_end
trim s = trim_end (trim_start s)

abbrev pub to_i8 : Option ℤ → Option ℤ
to_i8 none = none
to_i8 (some (pos n)) = if leb n 127 then some (pos n) else none
to_i8 (some (negsuc n)) = if leb n 127 then some (negsuc n) else none

abbrev pub reject : {T : Type 0} → Result T
reject = err (unsupported_type "column" "outside the supported type whitelist")

abbrev pub precision_of : List Bytes → Option ℕ
precision_of [] = none
precision_of (p ∷ ps) = parse_uint 255 (trim p)

-- A lone precision means scale 0.
abbrev pub scale_of : List Bytes → Option ℤ
scale_of [] = some (pos 0)
scale_of (p ∷ []) = some (pos 0)
scale_of (p ∷ s ∷ more) = to_i8 (parse_i64 (trim s))

abbrev pub checked_decimal : Option ℕ → Option ℤ → Result DataType
checked_decimal none scale = reject
checked_decimal (some p) none = reject
checked_decimal (some p) (some s) = if leb 1 p && leb p 38 then ok (decimal128 p s) else reject

unfoldable pub numeric_type : Bytes → Result DataType
unfolding split trim parse_uint parse_i64
numeric_type params =
    checked_decimal (precision_of (split b',' params)) (scale_of (split b',' params))

-- `split_once`: what stands after the first separator.
unfoldable pub after_first : ℕ → Bytes → Option Bytes
after_first sep [] = none
after_first sep (c ∷ s) = let rest = after_first sep s in if c == sep then some s else rest

abbrev pub without_zone : Bytes
without_zone = codes "without time zone"

abbrev pub with_zone : Bytes
with_zone = codes "with time zone"

unfoldable pub zone_type : Option Bytes → Option DataType
unfolding trim bytes_eq
zone_type none = none
zone_type (some tail) =
    if bytes_eq (trim tail) without_zone
    then some (timestamp_micros false)
    else if bytes_eq (trim tail) with_zone
    then some (timestamp_micros true)
    else none

abbrev pub timestamp_type : Option Bytes → Option DataType
timestamp_type none = none
timestamp_type (some rest) = zone_type (after_first b')' rest)

-- The names of the types without parameters.
abbrev pub named_types : List (Bytes × DataType)
named_types =
    (codes "boolean", boolean)
    ∷ (codes "smallint", int16)
    ∷ (codes "integer", int32)
    ∷ (codes "bigint", int64)
    ∷ (codes "real", float32)
    ∷ (codes "double precision", float64)
    ∷ (codes "text", utf8)
    ∷ (codes "character varying", utf8)
    ∷ (codes "date", date32)
    ∷ (codes "bytea", binary)
    ∷ (codes "timestamp without time zone", timestamp_micros false)
    ∷ (codes "timestamp with time zone", timestamp_micros true)
    ∷ []

abbrev pub starts_with : Bytes → Bytes → Bool
starts_with prefix s = elim (strip_prefix prefix s) [ none ↦ false | some rest ↦ true ]

unfoldable pub character_type : Bytes → Result DataType
unfolding strip_prefix
character_type pg =
    if starts_with (codes "character varying(") pg
    then ok utf8
    else if starts_with (codes "character(") pg
    then ok utf8
    else reject

unfoldable pub match_name : Bytes → List (Bytes × DataType) → Result DataType
unfolding character_type bytes_eq
match_name pg [] = character_type pg
match_name pg ((name, t) ∷ types) =
    let rest = match_name pg types in if bytes_eq pg name then ok t else rest

abbrev pub inner : Option Bytes → Option Bytes
inner none = none
inner (some s) = strip_suffix (codes ")") s

abbrev pub otherwise : Option DataType → Result DataType → Result DataType
otherwise none rest = rest
otherwise (some t) rest = ok t

abbrev pub after_numeric : Bytes → Option Bytes → Result DataType
after_numeric pg (some params) = numeric_type params
after_numeric pg none =
    if bytes_eq pg (codes "numeric")
    then reject
    else otherwise (timestamp_type (strip_prefix (codes "timestamp(") pg))
        (match_name pg named_types)

unfoldable pub pg_type_to_arrow : Bytes → Result DataType
unfolding numeric_type zone_type match_name strip_prefix strip_suffix after_first
pg_type_to_arrow pg = after_numeric pg (inner (strip_prefix (codes "numeric(") pg))
