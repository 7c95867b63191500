-- ===== src/Client.antt =====
-- src/client.rs: `resolve_cluster_id`, `resolve_staging`, `fetch_managed_staging` and
-- `open_table_inner`. The answers of the server and of the store are arguments; what happens under the
-- lease is Recovery/Open and stands here as its result.
pub mod Cluster
pub mod Admission
pub mod Release
pub mod Tests
use relyt_ingest.Common.{Bool, true, false, not, Option, none, some, is_empty, if◌then◌else◌}
use relyt_ingest.Common.Text.{Bytes, bytes_eq}
use relyt_ingest.Errors.{
  Error, PgError, DbError, SqlState, insufficient_privilege, config, schema, database, Result, ok,
  err, ◌>>=◌, ◌>>◌, guard,
}
use relyt_ingest.Naming.{WriterIdentity, validate_writer_id, validate_cluster_id}
use relyt_ingest.Config.{
  StreamMode, upsert, insert_only, StagingConfig, Staging, relyt, customer, cluster_id_is_unset,
}
use relyt_ingest.Config.Validate.{validate_staging}
use relyt_ingest.Lock.{LockFile}
use relyt_ingest.Recovery.Open.{is_undefined_function}
use relyt_ingest.Schema.{TableSchema, IndexOf, validate_pk_for_dedup}
use relyt_ingest.Staging.{parse_staging_url}

-- A query of one row: the row, or the error.
pub data Row (V : Type 0) : Type 0 where
  got : V → Row V
  refused : PgError → Row V

abbrev pub is_insufficient : SqlState → Bool
is_insufficient insufficient_privilege = true
is_insufficient _ = false

abbrev pub is_insufficient_privilege : PgError → Bool
is_insufficient_privilege e = elim e.as_db_error [
  | none ↦ false
  | some db ↦ is_insufficient db.code
]

server_id : Row (Option Bytes) → Result (Option Bytes)
server_id (got v) = ok v
server_id (refused e) = if is_undefined_function e then ok none else err (database e)

rechecked : Bytes → Result (Unit {0}) → Result Bytes
rechecked v (ok u) = ok v
rechecked v (err e) =
    err (config "server-provided instance id is unusable as a staging path segment")

from_server : Option Bytes → Result Bytes
unfolding rechecked cluster_id_is_unset validate_cluster_id
from_server none = err (config "cluster identity unavailable")
from_server (some v) =
    if cluster_id_is_unset v
    then err (config "cluster identity unavailable")
    else rechecked v (validate_cluster_id v)

-- The configured identity first, then the server's.
unfoldable pub resolve_cluster_id : Option Bytes → Row (Option Bytes) → Result Bytes
unfolding server_id from_server cluster_id_is_unset validate_cluster_id
resolve_cluster_id (some c) server =
    if cluster_id_is_unset c
    then err (config "cfg.cluster_id is set to an 'unset' sentinel; provide a real identifier")
    else validate_cluster_id c >> ok c
resolve_cluster_id none server = server_id server >>= λ v. from_server v

fetch_error : PgError → Error
fetch_error e =
    if is_undefined_function e
    then config "this server has no relyt_get_ingest_staging_config()"
    else if is_insufficient_privilege e
    then config "the ingest account may not execute relyt_get_ingest_staging_config()"
    else database e

-- A row is a url, an access key id and its secret.
unfoldable pub fetch_managed_staging : Row (Bytes × Bytes × Bytes) → Result StagingConfig
unfolding fetch_error parse_staging_url validate_staging
fetch_managed_staging (refused e) = err (fetch_error e)
fetch_managed_staging (got (url, access_key_id, secret_access_key)) =
    parse_staging_url url access_key_id secret_access_key >>= λ staging.
    validate_staging staging >> ok staging

unfoldable pub resolve_staging : Staging → Row (Bytes × Bytes × Bytes) → Result StagingConfig
unfolding fetch_managed_staging
resolve_staging (customer s) row = ok s
resolve_staging relyt row = fetch_managed_staging row

keyed : IndexOf → TableSchema → Result (Unit {0})
unfolding validate_pk_for_dedup
keyed index_of s =
    if is_empty s.pk
    then err (schema "upsert mode requires the target table to have a primary key")
    else validate_pk_for_dedup index_of s

-- The checks before the lease; the answer for the schema of the table comes with its queries.
unfoldable pub check_table : IndexOf → StreamMode → Bytes → Result TableSchema → Result TableSchema
unfolding keyed validate_writer_id
check_table index_of upsert writer_id fetched =
    validate_writer_id writer_id >> (fetched >>= λ s. keyed index_of s >> ok s)
check_table index_of insert_only writer_id fetched =
    validate_writer_id writer_id >> (fetched >>= λ s. ok s)

unfoldable pub identity_of : Bytes → TableSchema → Bytes → WriterIdentity
identity_of cluster_id s writer_id = record {
  cluster_id = cluster_id;
  db_oid = s.db_oid;
  rel_oid = s.rel_oid;
  writer_id = writer_id;
}

-- Whether the lock that is found is deleted after a failure under the lease.
cleans_up : Bytes → Result (Option LockFile) → Bool
cleans_up instance_uuid (ok (some l)) = bytes_eq l.instance_uuid instance_uuid
cleans_up instance_uuid (ok none) = false
cleans_up instance_uuid (err e) = false

module _ {Opened : Type 0} where
  under_lease : Bytes → Result Opened → Result (Option LockFile) → Result Opened × Bool
  unfolding cleans_up
  under_lease instance_uuid (ok opened) found = (ok opened, false)
  under_lease instance_uuid (err e) found = (err e, cleans_up instance_uuid found)

  leased :
      Bytes
      → WriterIdentity
      → Result (Unit {0})
      → (WriterIdentity → TableSchema → Result Opened)
      → TableSchema
      → Result (Option LockFile)
      → Result Opened × Bool
  unfolding under_lease
  leased instance_uuid ident (err e) opening s found = (err e, false)
  leased instance_uuid ident (ok u) opening s found =
      under_lease instance_uuid (opening ident s) found

  after_checks :
      Bytes
      → Bytes
      → Bytes
      → Result (Unit {0})
      → (WriterIdentity → TableSchema → Result Opened)
      → Result (Option LockFile)
      → Result TableSchema
      → Result Opened × Bool
  unfolding leased identity_of
  after_checks cluster_id writer_id instance_uuid lease opening found (err e) = (err e, false)
  after_checks cluster_id writer_id instance_uuid lease opening found (ok s) =
      leased instance_uuid (identity_of cluster_id s writer_id) lease opening s found

  -- The result, and whether this instance's lock is deleted again. The answer of `acquire_writer_lease`,
  -- which may have written its lock and fail all the same, the opening under the lease, and the lock
  -- that is found after a failure are arguments.
  unfoldable pub open_table_inner :
      IndexOf
      → StreamMode
      → Bytes
      → Bytes
      → Bytes
      → Result TableSchema
      → Result (Unit {0})
      → (WriterIdentity → TableSchema → Result Opened)
      → Result (Option LockFile)
      → Result Opened × Bool
  unfolding check_table after_checks
  open_table_inner index_of mode cluster_id writer_id instance_uuid fetched lease opening found =
      after_checks cluster_id writer_id instance_uuid lease opening found
        (check_table index_of mode writer_id fetched)
