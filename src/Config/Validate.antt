-- ===== src/Config/Validate.antt =====
-- src/config.rs: the checks of a configuration.
pub mod Ranges
pub mod Accepted
use relyt_ingest.Common.{
  ℕ, suc, ◌*◌, Bool, true, false, Option, none, some, List, [], ◌∷◌, ◌==◌, ◌&&◌, ◌||◌, not, ltb,
  leb, all, is_empty, if◌then◌else◌, String,
}
use relyt_ingest.Common.Int.{ℤ, pos, negsuc}
use relyt_ingest.Common.Text.{Bytes}
use relyt_ingest.Errors.{Result, ok, err, guard, ◌>>=◌, ◌>>◌, config}
use relyt_ingest.Config.{
  StagingService, oss, s3, StagingConfig, Staging, relyt, customer, ClientConfig, Duration,
  from_secs,
}
use relyt_ingest.Config.Endpoint.{resolve_region}

abbrev pub is_listable : ℕ → Bool
is_listable c = not (c == b',') && not (c == b'"')

unfoldable pub validate_credential : Bytes → Result (Unit {0})
validate_credential value =
    guard (not (is_empty value)) (config "staging is empty")
    >> guard (all is_listable value)
        (config "staging contains what would corrupt the job options list")

abbrev pub is_some : {V : Type 0} → Option V → Bool
is_some none = false
is_some (some v) = true

abbrev pub is_s3 : StagingService → Bool
is_s3 s3 = true
is_s3 oss = false

unfoldable pub validate_staging : StagingConfig → Result (Unit {0})
unfolding validate_credential resolve_region
validate_staging s =
    validate_credential s.access_key_id
    >> validate_credential s.secret_access_key
    >> guard (not (is_empty s.bucket || is_empty s.endpoint))
        (config "staging bucket/endpoint must be set")
    >> guard (not (is_s3 s.service && not (is_some (resolve_region s))))
        (config "staging service is S3 but no region was given and none can be derived")

abbrev pub max_rotate_size : ℕ
max_rotate_size = 512 * 1024 * 1024

unfoldable pub range_check : String → ℕ → ℕ → ℕ → Result (Unit {0})
range_check message v least most = guard (not (ltb v least || ltb most v)) (config message)

abbrev pub non_negative : Option ℤ → Bool
non_negative (some (negsuc n)) = false
non_negative _ = true

unfoldable pub validate_ranges : ClientConfig → Result (Unit {0})
unfolding range_check
validate_ranges c =
    guard (not (ltb max_rotate_size c.rotate_size_bytes))
      (config "rotate_size_bytes exceeds the maximum")
    >> range_check "rotate_interval_max is outside the allowed range" c.rotate_interval_max
        (from_secs 1) (from_secs (6 * 3600))
    >> range_check "gc_interval is outside the allowed range" c.gc_interval (from_secs (15 * 60))
        (from_secs (7 * 24 * 3600))
    >> range_check "gc_retain_days is outside the allowed range" c.gc_retain_days 1 365
    >> range_check "gc_retain_min_files is outside the allowed range" c.gc_retain_min_files 3
        1_000_000
    >> range_check "lock_heartbeat_interval is outside the allowed range" c.lock_heartbeat_interval
        (from_secs 1) (from_secs 600)
    >> range_check "staging_refresh_interval is outside the allowed range"
        c.staging_refresh_interval (from_secs 30) (from_secs (24 * 3600))
    >> range_check "rotation_queue_depth is outside the allowed range" c.rotation_queue_depth 1 16
    >> range_check "staging_error_after_attempts is outside the allowed range"
        c.staging_error_after_attempts 1 10_000
    >> range_check "lock_lease_timeout is outside the allowed range" c.lock_lease_timeout
        (c.lock_heartbeat_interval * 3) (from_secs (24 * 3600))
    >> guard (non_negative c.retry_max) (config "retry_max is negative")

abbrev pub validate_location : Staging → Result (Unit {0})
validate_location relyt = ok tt
validate_location (customer s) = validate_staging s

unfoldable pub validate : ClientConfig → Result (Unit {0})
unfolding validate_staging validate_ranges
validate c =
    validate_location c.staging
    >> guard (not ((c.delimiter == b'"') || (c.delimiter == b'\n') || (c.delimiter == b'\r')))
        (config "csv delimiter collides with the quoting/record syntax")
    >> guard (not (c.rotate_size_bytes == 0)) (config "rotate_size_bytes must be > 0")
    >> (if c.bypass_range_checks then ok tt else validate_ranges c)
