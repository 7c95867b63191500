-- ===== src/Naming/Segments.antt =====
-- Lemmas on the path segments that are accepted, and on the keys of two writers.
use relyt_ingest.Common.{
  ℕ, ◌≤◌, ◌≡◌, refl, sym, ap, ◌∙◌, ◌≢◌, true, false, [], ◌∷◌, ◌++◌, ◌==◌, arith, length, all,
  is_empty, append_assoc,
}
use relyt_ingest.Common.Text.{Bytes, Lacks, codes, split}
use relyt_ingest.Common.Text.Split.{split-append}
use relyt_ingest.Common.Decimal.{display, max_u32}
use relyt_ingest.Common.Decimal.RoundTrip.{display-injective}
use relyt_ingest.Errors.{ok, >>=-eq-ok}
use relyt_ingest.Naming.{
  is_allowed, validate_path_segment, validate_writer_id, validate_cluster_id, WriterIdentity,
  staging_dir, state_key, lock_key, writer_path, writer_id_max_len,
}
use relyt_ingest.Naming.Basename.{display-Lacks}

-- A name that is safe as a path segment and between the colons of an identifier.
pub record IsSegment (s : Bytes) : Type 0 where
  pub nonempty : s ≢ []
  pub short : length s ≤ writer_id_max_len
  pub no_slash : Lacks b'/' s
  pub no_colon : Lacks b':' s
  pub no_dot : s ≢ codes "."
  pub no_dots : s ≢ codes ".."

allowed-Lacks :
    (sep : ℕ) → is_allowed sep ≡ false → (s : Bytes) → all is_allowed s ≡ true → Lacks sep s
allowed-Lacks sep out [] h = tt
allowed-Lacks sep out (c ∷ s) h =
    (λ e. first e (ground arith), allowed-Lacks sep out s (ground arith))
  where
    first : c ≡ sep → is_allowed c ≡ true → ⊥
    first e yes_c = ground (arith, ap is_allowed e)

-- An accepted segment is not empty, at most 64 bytes long, holds neither a slash nor a colon, and is
-- neither of the two directory names `.` and `..`.
pub validate_path_segment_sound : (s : Bytes) → validate_path_segment s ≡ ok tt → IsSegment s
unfolding validate_path_segment
validate_path_segment_sound s h =
    let checks : (is_empty s ≡ false)
        × (length s ≤ writer_id_max_len)
        × (all (λ c. c == b'.') s ≡ false)
        × (all is_allowed s ≡ true) =
      ground arith in
    record {
      nonempty = λ e. ground (arith, ap is_empty e, checks.0);
      short = checks.1;
      no_slash = allowed-Lacks b'/' refl s checks.3;
      no_colon = allowed-Lacks b':' refl s checks.3;
      no_dot = λ e. ground (arith, ap (all (λ c. c == b'.')) e, checks.2);
      no_dots = λ e. ground (arith, ap (all (λ c. c == b'.')) e, checks.2);
    }

-- The checks that `open_table` makes, and OIDs of type u32.
pub record IsIdentity (w : WriterIdentity) : Type 0 where
  pub cluster_valid : validate_cluster_id w.cluster_id ≡ ok tt
  pub writer_valid : validate_writer_id w.writer_id ≡ ok tt
  pub db_fits : w.db_oid ≤ max_u32
  pub rel_fits : w.rel_oid ≤ max_u32

pub cluster-IsSegment : {w : WriterIdentity} → IsIdentity w → IsSegment w.cluster_id
unfolding validate_cluster_id
cluster-IsSegment {w} v = validate_path_segment_sound w.cluster_id v.cluster_valid

pub writer-IsSegment : {w : WriterIdentity} → IsIdentity w → IsSegment w.writer_id
unfolding validate_writer_id
writer-IsSegment {w} v =
    let (u, seg, last) = >>=-eq-ok (validate_path_segment w.writer_id) _ v.writer_valid in
    validate_path_segment_sound w.writer_id seg

-- The parts of a key between its slashes.
parts :
    (w : WriterIdentity) (r : Bytes)
    → IsIdentity w
    → split b'/' (writer_path w ++ r)
      ≡ w.cluster_id ∷ display w.db_oid ∷ display w.rel_oid ∷ w.writer_id ∷ split b'/' r
unfolding writer_path
parts w r v = simp append_assoc (
    rw (
      split-append b'/' w.cluster_id _ (cluster-IsSegment v).no_slash,
      split-append b'/' (display w.db_oid) _ (display-Lacks b'/' w.db_oid (λ d. omega arith)),
      split-append b'/' (display w.rel_oid) _ (display-Lacks b'/' w.rel_oid (λ d. omega arith)),
      split-append b'/' w.writer_id r (writer-IsSegment v).no_slash,
    ))

-- The path of a writer tells its identity, and where the names below it are cut.
same_writer :
    (v w : WriterIdentity) (r t : Bytes)
    → IsIdentity v
    → IsIdentity w
    → writer_path v ++ r ≡ writer_path w ++ t
    → (v ≡ w) × (split b'/' r ≡ split b'/' t)
same_writer v w r t hv hw e =
    let lists = sym (parts v r hv) ∙ ap (split b'/') e ∙ parts w t hw in
    let dbs = display-injective v.db_oid w.db_oid (ground arith) in
    let rels = display-injective v.rel_oid w.rel_oid (ground arith) in (ground arith, ground arith)

-- Of two accepted identities, no key below the staging directory of one lies below that of the
-- other, and neither the state keys nor the lock keys are equal, unless the identities are equal.
-- No state key is a lock key, and none of these keys is a staged one.
pub keys_disjoint :
    (v w : WriterIdentity)
    → IsIdentity v
    → IsIdentity w
    → ((r t : Bytes) → staging_dir v ++ r ≡ staging_dir w ++ t → v ≡ w)
      × (state_key v ≡ state_key w → v ≡ w)
      × (lock_key v ≡ lock_key w → v ≡ w)
      × (state_key v ≢ lock_key w)
      × ((r : Bytes) → staging_dir v ++ r ≢ state_key w)
      × ((r : Bytes) → staging_dir v ++ r ≢ lock_key w)
unfolding staging_dir state_key lock_key
keys_disjoint v w hv hw = (
  λ r t e. (same_writer v w r t hv hw (ground arith)).0,
  λ e. (same_writer v w (codes "state.json") (codes "state.json") hv hw (ground arith)).0,
  λ e. (same_writer v w (codes "lock") (codes "lock") hv hw (ground arith)).0,
  λ e. names_differ (same_writer v w (codes "state.json") (codes "lock") hv hw (ground arith)).1,
  λ r e. ground arith,
  λ r e. ground arith,
)
  where
    names_differ : split b'/' (codes "state.json") ≢ split b'/' (codes "lock")
    names_differ e = unfold split in cc
