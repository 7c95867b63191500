-- ===== src/Dedup/Survivors.antt =====
-- src/dedup.rs: what the map holds after all insertions, in the order of the rows.
use mathlib.Core.List.{Perm, perm_middle}
use mathlib.Core.List.Perm
use relyt_ingest.Common.{
  ℕ, suc, ◌≤◌, ◌<◌, ◌≡◌, refl, ap, ◌∙◌, true, false, List, [], ◌∷◌, ◌++◌, map, append-nil, arith,
  All, inl, inr, ◌⊎◌, Bool-cases, if◌then◌else◌,
}
use relyt_ingest.Common.Text.{Bytes, bytes_eq}
use relyt_ingest.Dedup.Reference.{occurs, concat, last_rows}
use relyt_ingest.Dedup.Sorting.{Before, IsAscending}
use relyt_ingest.Dedup.{Position, Latest, without_key, insert_latest}

-- The entries in the order of their insertion.
abbrev pub insert_all : Latest → Latest → Latest
insert_all [] latest = latest
insert_all (e ∷ es) latest = insert_all es (insert_latest e.0 e.1 latest)

abbrev pub values : Latest → List Position
values = map (λ e. e.1)

abbrev keys_of : Latest → List Bytes
keys_of = map (λ e. e.0)

-- What the later entries leave of the earlier ones.
abbrev without_keys : List Bytes → Latest → Latest
without_keys ks [] = []
without_keys ks (e ∷ es) = if occurs e.0 ks then without_keys ks es else e ∷ without_keys ks es

abbrev pub survivors : Latest → List Position
survivors [] = []
survivors (e ∷ es) = if occurs e.0 (keys_of es) then survivors es else e.1 ∷ survivors es

without_nothing : (latest : Latest) → without_keys [] latest ≡ latest
without_nothing [] = refl
without_nothing (e ∷ es) = rw (without_nothing es)

bytes_eq_comm : (a b : Bytes) → bytes_eq a b ≡ bytes_eq b a
unfolding bytes_eq
bytes_eq_comm [] [] = refl
bytes_eq_comm [] (b ∷ u) = refl
bytes_eq_comm (a ∷ t) [] = refl
bytes_eq_comm (a ∷ t) (b ∷ u) = ground (arith, bytes_eq_comm t u)

without_two :
    (k : Bytes) (ks : List Bytes) (latest : Latest)
    → without_keys ks (without_key k latest) ≡ without_keys (k ∷ ks) latest
without_two k ks [] = refl
without_two k ks (e ∷ es) = elim (Bool-cases (bytes_eq e.0 k)) [
  | inl same ↦ rw (bytes_eq_comm k e.0, same) (without_two k ks es)
  | inr other ↦ rw (bytes_eq_comm k e.0, other) (rw (without_two k ks es))
]

pub insert_all-perm :
    (es latest : Latest)
    → Perm
        (values (insert_all es latest))
        (values (without_keys (keys_of es) latest) ++ survivors es)
insert_all-perm [] latest = rw (without_nothing latest, append-nil (values latest)) Perm.rfl
insert_all-perm (e ∷ es) latest =
    Perm.trans (insert_all-perm es (insert_latest e.0 e.1 latest))
      (moved (Bool-cases (occurs e.0 (keys_of es))))
  where
    moved :
        (occurs e.0 (keys_of es) ≡ true) ⊎ (occurs e.0 (keys_of es) ≡ false)
        → Perm
            (values (without_keys (keys_of es) (insert_latest e.0 e.1 latest)) ++ survivors es)
            (values (without_keys (e.0 ∷ keys_of es) latest) ++ survivors (e ∷ es))
    moved (inl again) = rw (again, without_two e.0 (keys_of es) latest) Perm.rfl
    moved (inr last) =
        rw (last, without_two e.0 (keys_of es) latest)
          (Perm.symm (perm_middle (values (without_keys (e.0 ∷ keys_of es) latest)) (survivors es)))

abbrev pub entries_of : ℕ → ℕ → List Bytes → Latest
entries_of bi row [] = []
entries_of bi row (key ∷ keys) = (key, (bi, row)) ∷ entries_of bi (suc row) keys

abbrev pub all_entries : ℕ → List (List Bytes) → Latest
all_entries bi [] = []
all_entries bi (keys ∷ rest) = entries_of bi 0 keys ++ all_entries (suc bi) rest

pub insert_all-append :
    (es fs latest : Latest) → insert_all (es ++ fs) latest ≡ insert_all fs (insert_all es latest)
insert_all-append [] fs latest = refl
insert_all-append (e ∷ es) fs latest = insert_all-append es fs (insert_latest e.0 e.1 latest)

keys_of_rows :
    (bi row : ℕ) (keys : List Bytes) (es : Latest)
    → keys_of (entries_of bi row keys ++ es) ≡ keys ++ keys_of es
keys_of_rows bi row [] es = refl
keys_of_rows bi row (key ∷ keys) es = rw (keys_of_rows bi (suc row) keys es)

keys_of_all : (bi : ℕ) (kss : List (List Bytes)) → keys_of (all_entries bi kss) ≡ concat kss
keys_of_all bi [] = refl
keys_of_all bi (keys ∷ rest) =
    rw (keys_of_rows bi 0 keys (all_entries (suc bi) rest), keys_of_all (suc bi) rest)

survivors_of_rows :
    (bi row : ℕ) (keys : List Bytes) (es : Latest)
    → survivors (entries_of bi row keys ++ es)
      ≡ map (λ r. (bi, r)) (last_rows row keys (keys_of es)) ++ survivors es
unfolding last_rows
survivors_of_rows bi row [] es = refl
survivors_of_rows bi row (key ∷ keys) es =
    rw (keys_of_rows bi (suc row) keys es, survivors_of_rows bi (suc row) keys es)
      (elim (Bool-cases (occurs key (keys ++ keys_of es))) [
        | inl again ↦ rw again refl
        | inr last ↦ rw last refl
      ])

pub survivors_of_all :
    (bi : ℕ) (keys : List Bytes) (rest : List (List Bytes))
    → survivors (all_entries bi (keys ∷ rest))
      ≡ map (λ r. (bi, r)) (last_rows 0 keys (concat rest)) ++ survivors (all_entries (suc bi) rest)
survivors_of_all bi keys rest =
    survivors_of_rows bi 0 keys (all_entries (suc bi) rest)
    ∙ ap
        (λ later.
          map (λ r. (bi, r)) (last_rows 0 keys later) ++ survivors (all_entries (suc bi) rest))
        (keys_of_all (suc bi) rest)

All-survivors : (P : Position → Type 0) (es : Latest) → All P (values es) → All P (survivors es)
All-survivors P [] h = tt
All-survivors P (e ∷ es) h = elim (Bool-cases (occurs e.0 (keys_of es))) [
  | inl again ↦ rw again (All-survivors P es h.1)
  | inr last ↦ rw last (h.0, All-survivors P es h.1)
]

pub survivors-IsAscending : (es : Latest) → IsAscending (values es) → IsAscending (survivors es)
survivors-IsAscending [] h = tt
survivors-IsAscending (e ∷ es) h = elim (Bool-cases (occurs e.0 (keys_of es))) [
  | inl again ↦ rw again (survivors-IsAscending es h.1)
  | inr last ↦ rw last (All-survivors (Before e.1) es h.0, survivors-IsAscending es h.1)
]

-- The rows of one batch, and those of later ones behind them.
rows-All :
    (P : Position → Type 0) (bi row : ℕ) (keys : List Bytes) (es : Latest)
    → ((r : ℕ) → row ≤ r → P (bi, r))
    → All P (values es)
    → All P (values (entries_of bi row keys ++ es))
rows-All P bi row [] es here later = later
rows-All P bi row (key ∷ keys) es here later = (
  here row (omega arith),
  rows-All P bi (suc row) keys es (λ r h. here r (omega (arith, h))) later,
)

rows-IsAscending :
    (bi row : ℕ) (keys : List Bytes) (es : Latest)
    → ((r : ℕ) → All (Before (bi, r)) (values es))
    → IsAscending (values es)
    → IsAscending (values (entries_of bi row keys ++ es))
rows-IsAscending bi row [] es later h = h
rows-IsAscending bi row (key ∷ keys) es later h = (
  rows-All (Before (bi, row)) bi (suc row) keys es (λ r lt. inr (refl, lt)) (later row),
  rows-IsAscending bi (suc row) keys es later h,
)

later-All :
    (b r bi : ℕ) (kss : List (List Bytes))
    → b < bi
    → All (Before (b, r)) (values (all_entries bi kss))
later-All b r bi [] h = tt
later-All b r bi (keys ∷ rest) h =
    rows-All (Before (b, r)) bi 0 keys _ (λ s le. inl h)
      (later-All b r (suc bi) rest (omega (arith, h)))

pub all-IsAscending : (bi : ℕ) (kss : List (List Bytes)) → IsAscending (values (all_entries bi kss))
all-IsAscending bi [] = tt
all-IsAscending bi (keys ∷ rest) =
    rows-IsAscending bi 0 keys _ (λ r. later-All bi r (suc bi) rest (omega arith))
      (all-IsAscending (suc bi) rest)
