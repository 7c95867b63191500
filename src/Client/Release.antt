-- ===== src/Client/Release.antt =====
-- What a failed opening leaves of the lease.
use relyt_ingest.Common.{
  ◌≡◌, refl, ◌⊎◌, inl, inr, ◌↔◌, Bool, true, false, Option, none, some, ap, ◌∙◌,
}
use relyt_ingest.Common.Text.{Bytes, bytes_eq_iff}
use relyt_ingest.Errors.{Error, Result, ok, err}
use relyt_ingest.Naming.{WriterIdentity}
use relyt_ingest.Config.{StreamMode}
use relyt_ingest.Lock.{LockFile}
use relyt_ingest.Schema.{TableSchema, IndexOf}
use relyt_ingest.Client.Admission.{IsAdmitted, check_table_iff}
use relyt_ingest.Client.{
  check_table, identity_of, cleans_up, under_lease, leased, after_checks, open_table_inner,
}

cleans_up_iff :
    (uuid : Bytes) (found : Result (Option LockFile))
    → (cleans_up uuid found ≡ true)
      ↔ ((l : LockFile) × (found ≡ ok (some l)) × (l.instance_uuid ≡ uuid))
unfolding cleans_up
cleans_up_iff uuid (ok (some l)) = (
  λ h. (l, refl, (bytes_eq_iff l.instance_uuid uuid).0 h),
  λ (k, e, own).
      let same : l ≡ k = cc in
      (bytes_eq_iff l.instance_uuid uuid).1 (ap (λ x. x.instance_uuid) same ∙ own),
)
cleans_up_iff uuid (ok none) = (λ h. cc, λ (k, e, own). cc)
cleans_up_iff uuid (err x) = (λ h. cc, λ (k, e, own). cc)

module _ {Opened : Type 0} (index_of : IndexOf) (mode : StreamMode)
    (cluster_id writer_id uuid : Bytes) (fetched : Result TableSchema) (lease : Result (Unit {0}))
    (opening : WriterIdentity → TableSchema → Result Opened)
    (found : Result (Option LockFile)) where
  abbrev out : Result Opened × Bool
  out = open_table_inner index_of mode cluster_id writer_id uuid fetched lease opening found

  abbrev checks : Result TableSchema
  checks = check_table index_of mode writer_id fetched

  abbrev Admitted : TableSchema → Type 0
  Admitted = IsAdmitted index_of mode writer_id fetched

  -- No schema of the table is admitted, or the lease was not acquired for the one that is; the opening
  -- reports an error and deletes no lock.
  abbrev pub NotLeased : Type 0
  NotLeased =
      (e : Error) × (out ≡ (err e, false))
      × (((s : TableSchema) → ¬ Admitted s) ⊎ ((s : TableSchema) × Admitted s × (lease ≡ err e)))

  -- The opening failed under the lease; the lock was deleted exactly where it is still this one's.
  abbrev pub Released : Type 0
  Released =
      (s : TableSchema) × (e : Error) × Admitted s
      × (lease ≡ ok tt)
      × (opening (identity_of cluster_id s writer_id) s ≡ err e)
      × (out.0 ≡ err e)
      × ((out.1 ≡ true) ↔ ((l : LockFile) × (found ≡ ok (some l)) × (l.instance_uuid ≡ uuid)))

  -- The writer is open and keeps its lock.
  abbrev pub Kept : Type 0
  Kept =
      (s : TableSchema) × (o : Opened) × Admitted s
      × (lease ≡ ok tt)
      × (opening (identity_of cluster_id s writer_id) s ≡ ok o)
      × (out ≡ (ok o, false))

  admitted : (s : TableSchema) → checks ≡ ok s → Admitted s
  admitted s c = (check_table_iff index_of mode writer_id fetched s).0 c

  -- Opening a table ends in one of three ways. Where the table is not admitted, or the lease is not
  -- acquired, it fails and deletes no lock. Where the opening fails under the lease, the lock is deleted again
  -- exactly where it still is the one of this instance. Else the writer is open and its lock stays.
  -- A table is admitted where the writer's name is accepted, the server gives its schema, and, for a
  -- writer that upserts, the schema has a primary key whose columns are all in it and of types that
  -- can be a key.
  pub open_table_inner_cases : NotLeased ⊎ Released ⊎ Kept
  unfolding open_table_inner after_checks leased under_lease
  open_table_inner_cases = on checks refl
    where
      opened :
          (s : TableSchema) (r : Result Opened)
          → checks ≡ ok s
          → lease ≡ ok tt
          → opening (identity_of cluster_id s writer_id) s ≡ r
          → NotLeased ⊎ Released ⊎ Kept
      opened s (err e) c l o = inr (
          inl
            (s, e, admitted s c, l, o, rw (c, l, o) refl, rw (c, l, o) (cleans_up_iff uuid found)))
      opened s (ok v) c l o = inr (inr (s, v, admitted s c, l, o, rw (c, l, o) refl))

      with_lease :
          (s : TableSchema) (answer : Result (Unit {0}))
          → checks ≡ ok s
          → lease ≡ answer
          → NotLeased ⊎ Released ⊎ Kept
      with_lease s (err e) c l = inl (e, rw (c, l) refl, inr (s, admitted s c, l))
      with_lease s (ok u) c l = opened s (opening (identity_of cluster_id s writer_id) s) c l refl

      refused : (e : Error) (s : TableSchema) → checks ≡ err e → ¬ Admitted s
      refused e s c h = let good = (check_table_iff index_of mode writer_id fetched s).1 h in cc

      on : (r : Result TableSchema) → checks ≡ r → NotLeased ⊎ Released ⊎ Kept
      on (err e) c = inl (e, rw c refl, inl (λ s. refused e s c))
      on (ok s) c = with_lease s lease c refl
