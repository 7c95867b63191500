-- ===== src/Csv/Reader.antt =====
-- The dialect that the server's loader reads, as functions independent of the writer: a quoted field with
-- doubled quotes, or a bare empty one for NULL; the delimiter between fields; a newline after a record.
use relyt_ingest.Common.{
  ℕ, suc, zero, ◌≡◌, ◌≢◌, refl, Bool, true, false, Option, none, some, List, [], ◌∷◌, ◌++◌,
  append_assoc, arith, ◌==◌, if◌then◌else◌, keep_if, not,
}
use relyt_ingest.Common.Text.{Bytes}
use relyt_ingest.Csv.Text.{escape, quote_into}
use relyt_ingest.Csv.Plain.{ArePlain}

-- Inside a quoted field; the flag says that the last character was a quote. The value, and the rest.
unfoldable pub read_quoted : Bool → Bytes → Bytes × Bytes
read_quoted seen [] = ([], [])
read_quoted false (c ∷ s) =
    let inside = read_quoted false s in
    let after = read_quoted true s in if c == b'"' then after else (c ∷ inside.0, inside.1)
read_quoted true (c ∷ s) =
    let inside = read_quoted false s in
    if c == b'"' then (b'"' ∷ inside.0, inside.1) else ([], c ∷ s)

unfoldable pub read_field : Bytes → Option Bytes × Bytes
unfolding read_quoted
read_field [] = (none, [])
read_field (c ∷ s) =
    if c == b'"' then (some (read_quoted false s).0, (read_quoted false s).1) else (none, c ∷ s)

unfoldable pub expect : ℕ → Bytes → Option Bytes
expect c [] = none
expect c (x ∷ s) = if x == c then some s else none

abbrev pub then_field :
    Option Bytes → Option (List (Option Bytes) × Bytes) → Option (List (Option Bytes) × Bytes)
then_field f none = none
then_field f (some (fs, s)) = some (f ∷ fs, s)

abbrev pub and_then : {V W : Type 0} → Option V → (V → Option W) → Option W
and_then none f = none
and_then (some v) f = f v

-- `n` fields with the delimiter between them.
unfoldable pub read_fields : ℕ → ℕ → Bytes → Option (List (Option Bytes) × Bytes)
unfolding read_field expect
read_fields delimiter zero s = some ([], s)
read_fields delimiter (suc zero) s = some ((read_field s).0 ∷ [], (read_field s).1)
read_fields delimiter (suc (suc n)) s =
    and_then (expect delimiter (read_field s).1)
      (λ t. then_field (read_field s).0 (read_fields delimiter (suc n) t))

abbrev pub then_record :
    List (Option Bytes) → Option (List (List (Option Bytes))) → Option (List (List (Option Bytes)))
then_record r none = none
then_record r (some rs) = some (r ∷ rs)

-- `count` records of `n` fields, and nothing after them.
unfoldable pub read_records : ℕ → ℕ → ℕ → Bytes → Option (List (List (Option Bytes)))
unfolding read_fields expect
read_records delimiter n zero [] = some []
read_records delimiter n zero (c ∷ s) = none
read_records delimiter n (suc count) s =
    and_then (read_fields delimiter n s) (λ (fs, t).
      and_then (expect b'\n' t) (λ u. then_record fs (read_records delimiter n count u)))

-- What a cell is read back as: text loses its NULs.
abbrev pub without_nul : Bytes → Bytes
without_nul = keep_if (λ c. not (c == 0))

-- The next character is there and is no quote.
abbrev pub GoesOn : Bytes → Type 0
GoesOn [] = ⊥
GoesOn (c ∷ s) = c ≢ b'"'

read-escape :
    (v rest : Bytes)
    → GoesOn rest
    → read_quoted false (escape v ++ b'"' ∷ rest) ≡ (without_nul v, rest)
unfolding read_quoted escape
read-escape [] [] h = absurd h
read-escape [] (c ∷ rest) h = ground (arith, h)
read-escape (c ∷ v) rest h = ground (arith, read-escape v rest h)

pub read-quoted :
    (v rest : Bytes)
    → GoesOn rest
    → read_field (quote_into v ++ rest) ≡ (some (without_nul v), rest)
unfolding read_field quote_into
read-quoted v rest h = rw (append_assoc (escape v) (b'"' ∷ []) rest, read-escape v rest h) refl

pub without_nul-ArePlain : (s : Bytes) → ArePlain s → without_nul s ≡ s
without_nul-ArePlain [] h = refl
without_nul-ArePlain (c ∷ s) h = ground (arith, h.0.0, without_nul-ArePlain s h.1)
