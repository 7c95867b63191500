-- ===== src/Dedup/Key/Injective.antt =====
-- src/dedup.rs: two rows have one key only where the cells of their key columns are the same.
use mathlib.Core.Path.{subst}
use relyt_ingest.Common.{
  ℕ, ◌≡◌, refl, sym, ap, ◌∙◌, List, [], ◌∷◌, ◌++◌, arith, append_assoc, map, All, Option, none,
  some, ◌≢◌,
}
use relyt_ingest.Common.Text.{Bytes}
use relyt_ingest.Errors.{Result, ok, err, >>=-eq-ok, ok_injective, is_ok}
use relyt_ingest.Arrow.{
  DataType, boolean, int8, int16, int32, int64, float32, float64, utf8, large_utf8, date32, binary,
  large_binary, timestamp_micros, timestamp_millis, decimal128, other_type, ValueOf, Column, Batch,
  cell_at,
}
use relyt_ingest.Dedup.Key.{
  is_supported_pk_type, append_value_bytes, unsupported_pk, cell_key, column_at, pk_key,
}
use relyt_ingest.Dedup.Key.Values.{IsValue, value_injective}

abbrev pub IsCell : (F : Type 0) (t : DataType) → Option (ValueOf F t) → Type 0
IsCell F t none = Unit
IsCell F t (some v) = IsValue F t v

unsupported_pk-ok : {T : Type 0} (r : Result T) {v : T} → unsupported_pk r ≡ ok v → r ≡ ok v
unsupported_pk-ok (err e) h = cc h
unsupported_pk-ok (ok v) h = h

cell_key-some :
    (F : Type 0) (t : DataType) (v : ValueOf F t) {b : Bytes}
    → cell_key F t (some v) ≡ ok b
    → (bytes : Bytes) × (append_value_bytes F t v ≡ ok bytes) × (b ≡ 1 ∷ (bytes ++ 255 ∷ []))
unfolding cell_key
cell_key-some F t v h =
    let step = >>=-eq-ok (unsupported_pk (append_value_bytes F t v)) _ h in
    (step.0, unsupported_pk-ok (append_value_bytes F t v) step.1, sym (ok_injective step.2))

cell_key-none : (F : Type 0) (t : DataType) {b : Bytes} → cell_key F t none ≡ ok b → b ≡ 0 ∷ []
unfolding cell_key
cell_key-none F t h = sym (ok_injective h)

swap : (r s : Bytes) {b c x y : Bytes} → b ++ r ≡ c ++ s → b ≡ x → c ≡ y → x ++ r ≡ y ++ s
swap r s e hb hc = ap (λ z. z ++ r) (sym hb) ∙ e ∙ ap (λ z. z ++ s) hc

cons_tail : (x y : ℕ) (r s : Bytes) → x ∷ r ≡ y ∷ s → r ≡ s
cons_tail x y r s e = cc e

tags_differ : (r s : Bytes) → 0 ∷ r ≢ 1 ∷ s
tags_differ r s e = ground (arith, e)

cell_injective :
    (F : Type 0) (t : DataType) (o p : Option (ValueOf F t)) (b c r s : Bytes)
    → IsCell F t o
    → IsCell F t p
    → cell_key F t o ≡ ok b
    → cell_key F t p ≡ ok c
    → b ++ r ≡ c ++ s
    → (o ≡ p) × (r ≡ s)
cell_injective F t none none b c r s ho hp hb hc e =
    (refl, cons_tail 0 0 r s (swap r s e (cell_key-none F t hb) (cell_key-none F t hc)))
cell_injective F t none (some w) b c r s ho hp hb hc e =
    let (bw, aw, ew) = cell_key-some F t w hc in
    absurd (tags_differ _ _ (swap r s e (cell_key-none F t hb) ew))
cell_injective F t (some v) none b c r s ho hp hb hc e =
    let (bv, av, ev) = cell_key-some F t v hb in
    absurd (tags_differ _ _ (sym (swap r s e ev (cell_key-none F t hc))))
cell_injective F t (some v) (some w) b c r s ho hp hb hc e =
    let (bv, av, ev) = cell_key-some F t v hb in
    let (bw, aw, ew) = cell_key-some F t w hc in
    let tails = cons_tail 1 1 _ _ (swap r s e ev ew) in
    let (values, rest) =
      value_injective F t v w bv bw (255 ∷ r) (255 ∷ s) ho hp av aw
        (sym (append_assoc bv (255 ∷ []) r) ∙ tails ∙ append_assoc bw (255 ∷ []) s) in
    (ap some values, cons_tail 255 255 r s rest)

-- A cell with its type.
abbrev pub Cell : Type 0 → Type 0
Cell F = (t : DataType) × Option (ValueOf F t)

abbrev pub IsWellTyped : (F : Type 0) → Cell F → Type 0
IsWellTyped F c = IsCell F c.0 c.1

typed_cell_injective :
    (F : Type 0) (x y : Cell F) (b c r s : Bytes)
    → x.0 ≡ y.0
    → IsWellTyped F x
    → IsWellTyped F y
    → cell_key F x.0 x.1 ≡ ok b
    → cell_key F y.0 y.1 ≡ ok c
    → b ++ r ≡ c ++ s
    → (x ≡ y) × (r ≡ s)
typed_cell_injective F (t, o) (u, p) b c r s same hx hy hb hc e =
    subst
      (λ u.
        (p : Option (ValueOf F u))
        → IsCell F u p
        → cell_key F u p ≡ ok c
        → (◌≡◌ {A = Cell F} (t, o) (u, p)) × (r ≡ s))
      same
      (λ p hp hc.
        let (cells, rest) = cell_injective F t o p b c r s hx hp hb hc e in
        (ap (λ z. (t, z)) cells, rest))
      p hy hc

cons_heads : {A : Type 0} {x y : A} {xs ys : List A} → x ∷ xs ≡ y ∷ ys → x ≡ y
cons_heads e = cc e

cons_tails : {A : Type 0} {x y : A} {xs ys : List A} → x ∷ xs ≡ y ∷ ys → xs ≡ ys
cons_tails e = cc e

cong_cons : {A : Type 0} {x y : A} {xs ys : List A} → x ≡ y → xs ≡ ys → x ∷ xs ≡ y ∷ ys
cong_cons e f = cc (e, f)

module _ {F : Type 0} where
  abbrev with_cell : Result (Column F) → ℕ → List (Cell F) → List (Cell F)
  with_cell (err e) row rest = rest
  with_cell (ok column) row rest = (column.data_type, cell_at row column.cells) ∷ rest

  -- The cells of a row in the key columns.
  abbrev pub key_cells : Batch F → List ℕ → ℕ → List (Cell F)
  key_cells batch [] row = []
  key_cells batch (col ∷ cols) row =
      with_cell (column_at col batch.columns) row (key_cells batch cols row)

  abbrev pub types_of : List (Cell F) → List DataType
  types_of = map (λ c. c.0)

  pk_key_step :
      (batch : Batch F) (col : ℕ) (cols : List ℕ) (row : ℕ) {k : Bytes}
      → pk_key batch (col ∷ cols) row ≡ ok k
      → (column : Column F) × (head : Bytes) × (rest : Bytes) × (key_cells batch (col ∷ cols) row
          ≡ (column.data_type, cell_at row column.cells) ∷ key_cells batch cols row)
        × (cell_key F column.data_type (cell_at row column.cells) ≡ ok head)
        × (pk_key batch cols row ≡ ok rest)
        × (k ≡ head ++ rest)
  unfolding pk_key
  pk_key_step batch col cols row h =
      let (column, found, h₁) = >>=-eq-ok (column_at col batch.columns) _ h in
      let (head, written, h₂) =
        >>=-eq-ok (cell_key F column.data_type (cell_at row column.cells)) _ h₁ in
      let (rest, more, h₃) = >>=-eq-ok (pk_key batch cols row) _ h₂ in
      (
        column,
        head,
        rest,
        ap (λ c. with_cell c row (key_cells batch cols row)) found,
        written,
        more,
        sym (ok_injective h₃),
      )

  keys_injective :
      (a b : Batch F) (pk : List ℕ) (i j : ℕ) (k l : Bytes)
      → types_of (key_cells a pk i) ≡ types_of (key_cells b pk j)
      → All (IsWellTyped F) (key_cells a pk i)
      → All (IsWellTyped F) (key_cells b pk j)
      → pk_key a pk i ≡ ok k
      → pk_key b pk j ≡ ok l
      → k ≡ l
      → key_cells a pk i ≡ key_cells b pk j
  keys_injective a b [] i j k l same ha hb ka kb e = refl
  keys_injective a b (col ∷ cols) i j k l same ha hb ka kb e =
      let (ca, heada, resta, cella, keya, morea, ea) = pk_key_step a col cols i ka in
      let (cb, headb, restb, cellb, keyb, moreb, eb) = pk_key_step b col cols j kb in
      let types = sym (ap types_of cella) ∙ same ∙ ap types_of cellb in
      let wella = subst (All (IsWellTyped F)) cella ha in
      let wellb = subst (All (IsWellTyped F)) cellb hb in
      let (heads, tails) =
        typed_cell_injective F (ca.data_type, cell_at i ca.cells) (cb.data_type, cell_at j cb.cells)
          heada headb resta restb (cons_heads types) wella.0 wellb.0 keya keyb (sym ea ∙ e ∙ eb) in
      cella
      ∙ cong_cons heads (
          keys_injective a b cols i j resta restb (cons_tails types) wella.1 wellb.1 morea moreb
            tails)
      ∙ sym cellb

-- Rows of two batches whose key columns have the same types have the same key only where they have the
-- same cells there, a null for a null: no two different keys are merged. A value is one of its type, and
-- a text or a binary value has fewer than 2^32 bytes, as its length is written in four.
pub pk_key_injective :
    {F : Type 0} (a b : Batch F) (pk : List ℕ) (i j : ℕ) {k : Bytes}
    → types_of (key_cells a pk i) ≡ types_of (key_cells b pk j)
    → All (IsWellTyped F) (key_cells a pk i)
    → All (IsWellTyped F) (key_cells b pk j)
    → pk_key a pk i ≡ ok k
    → pk_key b pk j ≡ ok k
    → key_cells a pk i ≡ key_cells b pk j
pk_key_injective a b pk i j {k} same ha hb ka kb =
    keys_injective a b pk i j k k same ha hb ka kb refl

-- A type can be in a primary key exactly where each of its values is turned into key bytes.
pub append_value_bytes-is_ok :
    (F : Type 0) (t : DataType) (v : ValueOf F t)
    → is_ok (append_value_bytes F t v) ≡ is_supported_pk_type t
unfolding append_value_bytes is_supported_pk_type
append_value_bytes-is_ok F boolean v = refl
append_value_bytes-is_ok F int8 v = refl
append_value_bytes-is_ok F int16 v = refl
append_value_bytes-is_ok F int32 v = refl
append_value_bytes-is_ok F int64 v = refl
append_value_bytes-is_ok F date32 v = refl
append_value_bytes-is_ok F (timestamp_micros tz) v = refl
append_value_bytes-is_ok F (timestamp_millis tz) v = refl
append_value_bytes-is_ok F (decimal128 p q) v = refl
append_value_bytes-is_ok F utf8 v = refl
append_value_bytes-is_ok F large_utf8 v = refl
append_value_bytes-is_ok F binary v = refl
append_value_bytes-is_ok F large_binary v = refl
append_value_bytes-is_ok F float32 v = refl
append_value_bytes-is_ok F float64 v = refl
append_value_bytes-is_ok F (other_type t) v = refl
