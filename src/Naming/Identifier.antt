-- ===== src/Naming/Identifier.antt =====
-- Job identifiers and serial groups: their length, and that they tell what they name.
use relyt_ingest.Common.{
  ℕ, ◌+◌, ◌≤◌, ◌<◌, ◌≡◌, sym, ap, ◌∙◌, [], ◌∷◌, ◌++◌, arith, length, length-append,
}
use relyt_ingest.Common.Int.{ℤ}
use relyt_ingest.Common.Text.{Bytes, split}
use relyt_ingest.Common.Text.Split.{split-append, split_last}
use relyt_ingest.Common.Decimal.{display, max_u32}
use relyt_ingest.Common.Decimal.RoundTrip.{display-injective}
use relyt_ingest.Common.Decimal.Width.{length-display, length-display_pos}
use relyt_ingest.Errors.{ok}
use relyt_ingest.Naming.{WriterIdentity, StagedFile, serial_group, identifier, job_id, serial_seq}
use relyt_ingest.Naming.SerialSeq.{encode_sound}
use relyt_ingest.Naming.Basename.{display-Lacks}
use relyt_ingest.Naming.Segments.{IsIdentity, writer-IsSegment}

oid_length : (n : ℕ) → n ≤ max_u32 → length (display n) ≤ 10
oid_length n h = length-display 9 n (omega arith)

length-serial_group :
    (w : WriterIdentity)
    → length (serial_group w)
      ≡ length (display w.db_oid) + 1 + (length (display w.rel_oid) + 1 + length w.writer_id)
unfolding serial_group
length-serial_group w = omega (
  arith,
  length-append (display w.db_oid) (b':' ∷ (display w.rel_oid ++ b':' ∷ w.writer_id)),
  length-append (display w.rel_oid) (b':' ∷ w.writer_id),
)

-- The serial group of an accepted identity has at most 86 bytes, so the assertion of 88 holds; and
-- it is at least four bytes longer than the writer id, so a writer id of 61 bytes or more takes it
-- past 64 bytes.
pub serial_group_bounds :
    (w : WriterIdentity)
    → IsIdentity w
    → (length (serial_group w) ≤ 86)
      × (length w.writer_id + 4 ≤ length (serial_group w))
      × (61 ≤ length w.writer_id → 64 < length (serial_group w))
serial_group_bounds w v =
    let db = oid_length w.db_oid v.db_fits in
    let rel = oid_length w.rel_oid v.rel_fits in
    let seg = (writer-IsSegment v).short in
    let db' = length-display_pos w.db_oid in
    let rel' = length-display_pos w.rel_oid in omega (arith, length-serial_group w)

length-joint : (p rest : Bytes) → length (p ++ b':' ∷ rest) ≡ length p + 1 + length rest
length-joint p rest = omega (arith, length-append p (b':' ∷ rest))

length-job_id :
    (f : StagedFile) (w : WriterIdentity)
    → length (job_id f w)
      ≡ length (display w.db_oid)
        + 1
        + (length (display w.rel_oid)
            + 1
            + (length w.writer_id + 1 + (length (display f.epoch_ms) + 1 + length (display f.seq))))
unfolding job_id
length-job_id f w = rw (
  length-joint (display w.db_oid),
  length-joint (display w.rel_oid),
  length-joint w.writer_id,
  length-joint (display f.epoch_ms),
)

-- An accepted identity and a file with a serial seq have an identifier: it has at most 108 bytes,
-- so the check of its length never fails.
pub identifier_total :
    (f : StagedFile) (w : WriterIdentity) (v : ℤ)
    → IsIdentity w
    → serial_seq f ≡ ok v
    → (id : Bytes) × (identifier f w ≡ ok id) × (length id ≤ 108)
unfolding identifier serial_seq
identifier_total f w v hw h = (job_id f w, ground (arith, bound), bound)
  where
    bound : length (job_id f w) ≤ 108
    bound =
        let (he, hs, eq) = encode_sound f.epoch_ms f.seq v h in
        let db = oid_length w.db_oid hw.db_fits in
        let rel = oid_length w.rel_oid hw.rel_fits in
        let seg = (writer-IsSegment hw).short in
        let epoch = length-display 12 f.epoch_ms (omega arith) in
        let seq = length-display 6 f.seq (omega arith) in omega (arith, length-job_id f w)

identifier-job_id :
    (f : StagedFile) (w : WriterIdentity) (id : Bytes) → identifier f w ≡ ok id → job_id f w ≡ id
unfolding identifier
identifier-job_id f w id h = ground arith

fields :
    (f : StagedFile) (w : WriterIdentity)
    → IsIdentity w
    → split b':' (job_id f w)
      ≡ display w.db_oid ∷ display w.rel_oid ∷ w.writer_id ∷ display f.epoch_ms ∷ display f.seq ∷ []
unfolding job_id
fields f w v = rw (
  split-append b':' (display w.db_oid) _ (display-Lacks b':' w.db_oid (λ d. omega arith)),
  split-append b':' (display w.rel_oid) _ (display-Lacks b':' w.rel_oid (λ d. omega arith)),
  split-append b':' w.writer_id _ (writer-IsSegment v).no_colon,
  split-append b':' (display f.epoch_ms) _ (display-Lacks b':' f.epoch_ms (λ d. omega arith)),
  split_last b':' (display f.seq) (display-Lacks b':' f.seq (λ d. omega arith)),
)

-- Equal identifiers of accepted identities name the same table, writer, epoch and seq.
pub identifier_injective :
    (f g : StagedFile) (v w : WriterIdentity) (id : Bytes)
    → IsIdentity v
    → IsIdentity w
    → identifier f v ≡ ok id
    → identifier g w ≡ ok id
    → (v.db_oid ≡ w.db_oid)
      × (v.rel_oid ≡ w.rel_oid)
      × (v.writer_id ≡ w.writer_id)
      × (f.epoch_ms ≡ g.epoch_ms)
      × (f.seq ≡ g.seq)
identifier_injective f g v w id hv hw ef eg =
    let same = identifier-job_id f v id ef ∙ sym (identifier-job_id g w id eg) in
    let lists = sym (fields f v hv) ∙ ap (split b':') same ∙ fields g w hw in
    (
      display-injective v.db_oid w.db_oid (ground arith),
      display-injective v.rel_oid w.rel_oid (ground arith),
      ground arith,
      display-injective f.epoch_ms g.epoch_ms (ground arith),
      display-injective f.seq g.seq (ground arith),
    )
