-- ===== src/Staging/Listing.antt =====
-- src/staging.rs: `list_staged`, `read_state` and `read_lock` on what the object store answers. The
-- parsers of the JSON objects are a library's and are parameters.
use relyt_ingest.Common.{
  ◌≡◌, refl, ap, Bool, true, false, Option, none, some, List, [], ◌∷◌, map, All, if◌then◌else◌,
}
use relyt_ingest.Common.Text.{Bytes}
use relyt_ingest.Errors.{Error, config, storage, not_found, Result, ok, err, ◌>>=◌}
use relyt_ingest.Naming.{StagedFile, basename, parse_basename}
use relyt_ingest.Naming.Basename.{IsNameable, parse_basename-basename}
use relyt_ingest.State.{StateFile}
use relyt_ingest.Lock.{LockFile}

-- An entry of the listing of a directory.
pub record Entry : Type 0 where
  pub is_dir : Bool
  pub name : Bytes

abbrev pub add_name :
    Bytes → Option StagedFile → List StagedFile × List Bytes → List StagedFile × List Bytes
add_name name none (staged, unknown) = (staged, name ∷ unknown)
add_name name (some f) (staged, unknown) = (f ∷ staged, unknown)

unfoldable pub list_entries : List Entry → List StagedFile × List Bytes
unfolding parse_basename
list_entries [] = ([], [])
list_entries (e ∷ es) =
    let rest = list_entries es in
    if e.is_dir then rest else add_name e.name (parse_basename e.name) rest

unfoldable pub list_staged : Result (List Entry) → Result (List StagedFile × List Bytes)
unfolding list_entries
list_staged listed = listed >>= λ entries. ok (list_entries entries)

module _ {T : Type 0} (from_bytes : Bytes → Option T) (corrupt : Error) where
  parsed_object : Option T → Result (Option T)
  parsed_object none = err corrupt
  parsed_object (some t) = ok (some t)

  unfoldable pub read_object : Result Bytes → Result (Option T)
  unfolding parsed_object
  read_object (ok bytes) = parsed_object (from_bytes bytes)
  read_object (err (storage not_found m)) = ok none
  read_object (err e) = err e

unfoldable pub read_state : (Bytes → Option StateFile) → Result Bytes → Result (Option StateFile)
unfolding read_object
read_state from_bytes = read_object from_bytes (config "corrupt writer state: refusing to guess")

unfoldable pub read_lock : (Bytes → Option LockFile) → Result Bytes → Result (Option LockFile)
unfolding read_object
read_lock from_bytes = read_object from_bytes (config "corrupt writer lock: refusing to guess")

-- What can stand below a staging directory.
pub data Object : Type 0 where
  directory : Bytes → Object
  staged_file : StagedFile → Object
  foreign : Bytes → Object

abbrev pub entry_of : Object → Entry
entry_of (directory name) = record { is_dir = true; name = name }
entry_of (staged_file f) = record { is_dir = false; name = basename f }
entry_of (foreign name) = record { is_dir = false; name = name }

abbrev pub IsProper : Object → Type 0
IsProper (directory name) = Unit
IsProper (staged_file f) = IsNameable f
IsProper (foreign name) = parse_basename name ≡ none

abbrev pub staged_among : List Object → List StagedFile
staged_among [] = []
staged_among (directory name ∷ os) = staged_among os
staged_among (staged_file f ∷ os) = f ∷ staged_among os
staged_among (foreign name ∷ os) = staged_among os

abbrev pub foreign_among : List Object → List Bytes
foreign_among [] = []
foreign_among (directory name ∷ os) = foreign_among os
foreign_among (staged_file f ∷ os) = foreign_among os
foreign_among (foreign name ∷ os) = name ∷ foreign_among os

list_entries-objects :
    (os : List Object)
    → All IsProper os
    → list_entries (map entry_of os) ≡ (staged_among os, foreign_among os)
unfolding list_entries
list_entries-objects [] h = refl
list_entries-objects (directory name ∷ os) h = list_entries-objects os h.1
list_entries-objects (staged_file f ∷ os) h =
    rw (parse_basename-basename f h.0, list_entries-objects os h.1) refl
list_entries-objects (foreign name ∷ os) h = rw (h.0, list_entries-objects os h.1) refl

-- A listing of directories, of staged files whose fields are in range and whose offsets are not
-- negative, and of names that are none of a staged file, is read as those files, in the order of the
-- listing and each with its own fields, and the foreign names apart from them; the directories are
-- left out.
pub list_staged_objects :
    (os : List Object)
    → All IsProper os
    → list_staged (ok (map entry_of os)) ≡ ok (staged_among os, foreign_among os)
unfolding list_staged
list_staged_objects os h = ap (λ out. ok out) (list_entries-objects os h)
