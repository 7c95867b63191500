-- ===== src/Client/Admission.antt =====
-- Which tables `open_table_inner` lets through to the lease.
use mathlib.Core.Path.{subst}
use relyt_ingest.Common.{
  ℕ, ◌≡◌, ◌≢◌, refl, ap, ◌∙◌, ◌↔◌, true, Option, some, none, List, [], ◌∷◌, All, is_empty,
  Bool-cases, inl, inr, false,
}
use relyt_ingest.Common.Text.{Bytes}
use relyt_ingest.Errors.{Result, ok, err, err, guard-eq-ok, >>=-eq-ok, ◌>>=◌, ok_injective}
use relyt_ingest.Naming.{validate_writer_id}
use relyt_ingest.Config.{StreamMode, upsert, insert_only}
use relyt_ingest.Dedup.Key.{is_supported_pk_type}
use relyt_ingest.Schema.{
  Field, TableSchema, IndexOf, found, indices_of, pk_indices, field_at, check_key, check_keys,
  validate_pk_for_dedup,
}
use relyt_ingest.Client.{keyed, check_table}

-- A column that is in the schema, of a type that can be a key.
abbrev pub IsKey : IndexOf → List Field → Bytes → Type 0
IsKey index_of fields name =
    (i : ℕ) × (f : Field) × (index_of fields name ≡ some i)
    × (field_at i fields ≡ some f)
    × (is_supported_pk_type f.field_type ≡ true)

-- A writer that upserts needs a key, of such columns.
abbrev pub HasKey : IndexOf → StreamMode → TableSchema → Type 0
HasKey index_of upsert s = (s.pk ≢ []) × All (IsKey index_of s.fields) s.pk
HasKey index_of insert_only s = Unit

-- The writer's name is accepted and the schema is what the server gave, with a key where one is needed.
abbrev pub IsAdmitted : IndexOf → StreamMode → Bytes → Result TableSchema → TableSchema → Type 0
IsAdmitted index_of mode writer_id fetched s =
    (validate_writer_id writer_id ≡ ok tt) × (fetched ≡ ok s) × HasKey index_of mode s

found_sound : (o : Option ℕ) (i : ℕ) → found o ≡ ok i → o ≡ some i
found_sound none i h = cc
found_sound (some j) i h = ap some (ok_injective h)

key_sound :
    (o : Option Field)
    → check_key o ≡ ok tt
    → (f : Field) × (o ≡ some f) × (is_supported_pk_type f.field_type ≡ true)
key_sound none h = cc
key_sound (some f) h = (f, refl, guard-eq-ok (is_supported_pk_type f.field_type) _ h)

keys_sound :
    (index_of : IndexOf) (fields : List Field) (names : List Bytes) (is : List ℕ)
    → indices_of index_of fields names ≡ ok is
    → check_keys fields is ≡ ok tt
    → All (IsKey index_of fields) names
unfolding indices_of check_keys
keys_sound index_of fields [] is h checked = tt
keys_sound index_of fields (name ∷ names) is h checked =
    let (i, first, h₁) = >>=-eq-ok (found (index_of fields name)) _ h in
    let (js, later, h₂) = >>=-eq-ok (indices_of index_of fields names) _ h₁ in
    let each : check_keys fields (i ∷ js) ≡ ok tt =
      ap (check_keys fields) (ok_injective h₂) ∙ checked in
    let (u, one, others) = >>=-eq-ok (check_key (field_at i fields)) _ each in
    let (f, at_i, fits) = key_sound (field_at i fields) one in
    (
      (i, f, found_sound (index_of fields name) i first, at_i, fits),
      keys_sound index_of fields names js later others,
    )

keys_complete :
    (index_of : IndexOf) (fields : List Field) (names : List Bytes)
    → All (IsKey index_of fields) names
    → (is : List ℕ) × (indices_of index_of fields names ≡ ok is) × (check_keys fields is ≡ ok tt)
unfolding indices_of check_keys
keys_complete index_of fields [] h = ([], refl, refl)
keys_complete index_of fields (name ∷ names) ((i, f, known, at_i, fits), h) =
    let (js, later, checked) = keys_complete index_of fields names h in
    (i ∷ js, rw (known, later) refl, rw (at_i, fits) checked)

full_iff : {A : Type 0} (xs : List A) → (is_empty xs ≡ false) ↔ (xs ≢ [])
full_iff [] = (λ h. cc, λ full. absurd (full refl))
full_iff (x ∷ xs) = (λ h e. cc, λ full. refl)

keyed_iff :
    (index_of : IndexOf) (s : TableSchema) → (keyed index_of s ≡ ok tt) ↔ HasKey index_of upsert s
unfolding keyed validate_pk_for_dedup pk_indices
keyed_iff index_of s = elim (Bool-cases (is_empty s.pk)) [
  | inl bare ↦ (
    λ h. let refused : ◌≡◌ {A = Result (Unit {0})} (err _) (ok tt) = rw bare at h in absurd (cc),
    λ (full, keys). let held = (full_iff s.pk).1 full in absurd (cc),
  )
  | inr full ↦ (
    λ h.
        let checked : (indices_of index_of s.fields s.pk >>= λ is. check_keys s.fields is) ≡ ok tt =
          rw full at h in
        let (is, known, fits) = >>=-eq-ok (indices_of index_of s.fields s.pk) _ checked in
        ((full_iff s.pk).0 full, keys_sound index_of s.fields s.pk is known fits),
    λ (held, keys).
        let (is, known, fits) = keys_complete index_of s.fields s.pk keys in rw (full, known) fits,
  )
]

-- The checks before the lease let a table through exactly where it is admitted.
pub check_table_iff :
    (index_of : IndexOf) (mode : StreamMode) (writer_id : Bytes) (fetched : Result TableSchema)
    (s : TableSchema)
    → (check_table index_of mode writer_id fetched ≡ ok s)
      ↔ IsAdmitted index_of mode writer_id fetched s
unfolding check_table
check_table_iff index_of upsert writer_id fetched s = (
  λ h.
      let (u, named, h₁) = >>=-eq-ok (validate_writer_id writer_id) _ h in
      let (t, got, h₂) = >>=-eq-ok fetched _ h₁ in
      let (v, good, same) = >>=-eq-ok (keyed index_of t) _ h₂ in
      let equal : t ≡ s = ok_injective same in
      (
        named,
        got ∙ ap ok equal,
        subst (HasKey index_of upsert) equal ((keyed_iff index_of t).0 good),
      ),
  λ (named, got, key). let good = (keyed_iff index_of s).1 key in rw (named, got) (rw good refl),
)
check_table_iff index_of insert_only writer_id fetched s = (
  λ h.
      let (u, named, h₁) = >>=-eq-ok (validate_writer_id writer_id) _ h in
      let (t, got, same) = >>=-eq-ok fetched _ h₁ in (named, got ∙ ap ok (ok_injective same), tt),
  λ (named, got, key). rw (named, got) refl,
)
