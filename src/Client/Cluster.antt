-- ===== src/Client/Cluster.antt =====
-- The cluster identity that a client works under.
use mathlib.Core.Path.{subst, ap}
use relyt_ingest.Common.{
  ◌≡◌, ◌≢◌, arith, refl, ◌⊎◌, inl, inr, Bool, true, false, Option, none, some, if◌then◌else◌,
  Bool-cases,
}
use relyt_ingest.Common.Text.{Bytes, codes, bytes_eq, bytes_eq_iff}
use relyt_ingest.Errors.{config, Result, ok, err, ◌>>◌, >>=-eq-ok}
use relyt_ingest.Naming.{validate_cluster_id}
use relyt_ingest.Naming.Segments.{IsSegment, validate_path_segment_sound}
use relyt_ingest.Config.{cluster_id_is_unset}
use relyt_ingest.Client.{
  Row, got, refused, server_id, rechecked, from_server, resolve_cluster_id, is_undefined_function,
  database,
}

-- A text that is a path segment, hence not empty, and not "-1": neither word for a missing identity.
abbrev pub IsUsable : Bytes → Type 0
IsUsable v = (v ≢ codes "-1") × IsSegment v

usable : (v : Bytes) → cluster_id_is_unset v ≡ false → validate_cluster_id v ≡ ok tt → IsUsable v
unfolding cluster_id_is_unset validate_cluster_id
usable v e f = (
  λ same.
      let word = (bytes_eq_iff v (codes "-1")).1 same in
      let other : bytes_eq v (codes "-1") ≡ false = ground arith in cc,
  validate_path_segment_sound v f,
)

from_server-IsUsable :
    (answer : Option Bytes) (v : Bytes) → from_server answer ≡ ok v → (answer ≡ some v) × IsUsable v
unfolding from_server rechecked
from_server-IsUsable none v h = cc
from_server-IsUsable (some w) v h = on (cluster_id_is_unset w) (validate_cluster_id w) refl refl h
  where
    on :
        (unset : Bool) (valid : Result (Unit {0}))
        → cluster_id_is_unset w ≡ unset
        → validate_cluster_id w ≡ valid
        → (if unset then err (config "cluster identity unavailable") else rechecked w valid) ≡ ok v
        → (some w ≡ some v) × IsUsable v
    on true valid e f h = cc
    on false (err x) e f h = cc
    on false (ok u) e f h =
        let same : w ≡ v = cc in
        subst (λ x. (some w ≡ some x) × IsUsable x) same (refl, usable w e f)

-- The cluster identity of a client is never empty or "-1", which stand for a missing one, and always a path
-- segment: at most 64 bytes, without a slash or a colon, and no name of a directory; it is the configured one where there is one, and else the one that the server gives.
pub resolve_cluster_id-IsUsable :
    (configured : Option Bytes) (server : Row (Option Bytes)) (v : Bytes)
    → resolve_cluster_id configured server ≡ ok v
    → IsUsable v × ((configured ≡ some v) ⊎ ((configured ≡ none) × (server ≡ got (some v))))
unfolding resolve_cluster_id
resolve_cluster_id-IsUsable (some c) server v h =
    on (cluster_id_is_unset c) (validate_cluster_id c) refl refl h
  where
    on :
        (unset : Bool) (valid : Result (Unit {0}))
        → cluster_id_is_unset c ≡ unset
        → validate_cluster_id c ≡ valid
        → (if unset
            then err
                (config "cfg.cluster_id is set to an 'unset' sentinel; provide a real identifier")
            else valid >> ok c)
          ≡ ok v
        → IsUsable v × ((some c ≡ some v) ⊎ ((some c ≡ none) × (server ≡ got (some v))))
    on true valid e f h = cc
    on false (err x) e f h = cc
    on false (ok u) e f h =
        let same : c ≡ v = cc in
        subst (λ x. IsUsable x × ((some c ≡ some x) ⊎ ((some c ≡ none) × (server ≡ got (some x)))))
          same (usable c e f, inl refl)
resolve_cluster_id-IsUsable none server v h =
    let (answer, asked, used) = >>=-eq-ok (server_id server) _ h in
    let (found, usable) = from_server-IsUsable answer v used in
    (usable, inr (refl, rowed server answer asked found))
  where
    rowed :
        (server : Row (Option Bytes)) (answer : Option Bytes)
        → server_id server ≡ ok answer
        → answer ≡ some v
        → server ≡ got (some v)
    rowed (got w) answer e found = unfold server_id in let same : w ≡ some v = cc in ap got same
    rowed (refused x) answer e found =
        unfold server_id in
        elim (Bool-cases (is_undefined_function x)) [
          | inl old ↦ let none_given : ok none ≡ ok answer = rw old at e in cc
          | inr other ↦ let failed : err (database x) ≡ ok answer = rw other at e in cc
        ]
