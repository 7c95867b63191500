-- ===== src/Config.antt =====
-- src/config.rs: the client's configuration, its defaults and its checks. A duration is a number of
-- nanoseconds. What the `Debug` forms print is not modelled.
pub mod Endpoint
pub mod Validate
pub mod Mask
pub mod Tests
use relyt_ingest.Common.{ℕ, ◌*◌, Bool, true, false, Option, none, some, List, [], ◌∷◌}
use relyt_ingest.Common.Int.{ℤ, pos}
use relyt_ingest.Common.Text.{Bytes, bytes_eq, codes}
use relyt_ingest.Common.{◌||◌, is_empty}

pub data StreamMode : Type 0 where
  upsert insert_only : StreamMode

pub data StagingService : Type 0 where
  oss s3 : StagingService

pub data StagingCompression : Type 0 where
  gzip plain : StagingCompression

pub record StagingConfig : Type 0 where
  pub endpoint : Bytes
  pub bucket : Bytes
  pub prefix : Bytes
  pub access_key_id : Bytes
  pub secret_access_key : Bytes
  pub service : StagingService
  pub region : Option Bytes

pub data Staging : Type 0 where
  relyt : Staging
  customer : StagingConfig → Staging

abbrev pub Duration : Type 0
Duration = ℕ

abbrev pub from_secs : ℕ → Duration
from_secs secs = secs * 1_000_000_000

pub record ClientConfig : Type 0 where
  pub staging : Staging
  pub control_dsn : Bytes
  pub rotate_size_bytes : ℕ
  pub rotate_interval_max : Duration
  pub stream_mode : StreamMode
  pub staging_compression : StagingCompression
  pub cluster_id : Option Bytes
  pub gc_interval : Duration
  pub gc_retain_days : ℕ
  pub gc_retain_min_files : ℕ
  pub lock_heartbeat_interval : Duration
  pub lock_lease_timeout : Duration
  pub retry_max : Option ℤ
  pub delimiter : ℕ
  pub staging_refresh_interval : Duration
  pub rotation_queue_depth : ℕ
  pub staging_error_after_attempts : ℕ
  pub lag_sample_interval : Duration
  pub state_heartbeat_interval : Duration
  pub bypass_range_checks : Bool

unfoldable pub cluster_id_is_unset : Bytes → Bool
unfolding bytes_eq
cluster_id_is_unset v = is_empty v || bytes_eq v (codes "-1")

unfoldable pub with_staging : Staging → Bytes → ClientConfig
with_staging staging control_dsn = record {
  staging = staging;
  control_dsn = control_dsn;
  rotate_size_bytes = 64 * 1024 * 1024;
  rotate_interval_max = from_secs 15;
  stream_mode = upsert;
  staging_compression = gzip;
  cluster_id = none;
  gc_interval = from_secs 3600;
  gc_retain_days = 7;
  gc_retain_min_files = 50_000;
  lock_heartbeat_interval = from_secs 30;
  lock_lease_timeout = from_secs 180;
  retry_max = some (pos 15);
  delimiter = b',';
  staging_refresh_interval = from_secs (5 * 60);
  rotation_queue_depth = 3;
  staging_error_after_attempts = 3;
  lag_sample_interval = from_secs 30;
  state_heartbeat_interval = from_secs (4 * 3600);
  bypass_range_checks = false;
}
