-- ===== src/Staging.antt =====
-- src/staging.rs and src/client.rs: the location of the staged files and the credentials for it, which a
-- running process may change. The object store is a library's: building it and what it answers are
-- parameters.
pub mod Url
pub mod Handed
pub mod Location
pub mod Listing
pub mod Tests
use relyt_ingest.Common.{
  ℕ, Bool, true, false, not, ◌&&◌, ◌||◌, Option, none, some, List, [], ◌∷◌, ◌++◌, ◌==◌, is_empty,
  if◌then◌else◌,
}
use relyt_ingest.Common.Text.{Bytes, codes, bytes_eq, strip_prefix}
use relyt_ingest.Errors.{
  Error, config, database, storage, not_found, StorageKind, PgError, Result, ok, err, ◌>>=◌, ◌>>◌,
}
use relyt_ingest.Config.{StagingService, oss, s3, StagingConfig, Staging, relyt, customer}
use relyt_ingest.Config.Endpoint.{classify_endpoint}
use relyt_ingest.Config.Validate.{validate_staging}

-- `str::trim_start_matches`, `trim_end_matches` and `trim_matches` at one character.
unfoldable pub trim_start : ℕ → Bytes → Bytes
trim_start c [] = []
trim_start c (x ∷ xs) = let rest = trim_start c xs in if x == c then rest else x ∷ xs

unfoldable pub trim_end : ℕ → Bytes → Bytes
trim_end c [] = []
trim_end c (x ∷ xs) = let rest = trim_end c xs in if is_empty rest && (x == c) then [] else x ∷ rest

unfoldable pub trim : ℕ → Bytes → Bytes
unfolding trim_start trim_end
trim c s = trim_end c (trim_start c s)

abbrev pub behind : ℕ → Option (Bytes × Bytes) → Option (Bytes × Bytes)
behind x none = none
behind x (some (a, b)) = some (x ∷ a, b)

-- `str::split_once` at one character.
unfoldable pub split_once : ℕ → Bytes → Option (Bytes × Bytes)
split_once c [] = none
split_once c (x ∷ xs) =
    let rest = split_once c xs in if x == c then some ([], xs) else behind x rest

unfoldable pub normalize_root : Bytes → Bytes
unfolding trim
normalize_root prefix =
    let trimmed = trim b'/' prefix in
    if is_empty trimmed then b'/' ∷ [] else b'/' ∷ (trimmed ++ b'/' ∷ [])

unfoldable pub staging_url_base : StagingConfig → Bytes
unfolding trim
staging_url_base cfg =
    let prefix = trim b'/' cfg.prefix in
    let base = codes "s3://" ++ (cfg.endpoint ++ b'/' ∷ cfg.bucket) in
    if is_empty prefix then base else base ++ b'/' ∷ prefix

abbrev pub bucket_and_prefix : Bytes → Option (Bytes × Bytes) → Bytes × Bytes
bucket_and_prefix after_host none = (after_host, [])
bucket_and_prefix after_host (some (b, p)) = (b, p)

with_service :
    Bytes
    → Bytes
    → Bytes
    → Bytes
    → Bytes
    → Option (StagingService × Option Bytes)
    → Result StagingConfig
unfolding trim
with_service endpoint bucket prefix access_key_id secret_access_key none =
    err (config "the staging url names an endpoint the client cannot sign for")
with_service endpoint bucket prefix access_key_id secret_access_key (some (service, region)) =
    ok (record {
      endpoint = endpoint;
      bucket = bucket;
      prefix = trim b'/' prefix;
      access_key_id = access_key_id;
      secret_access_key = secret_access_key;
      service = service;
      region = region;
    })

addressed : Bytes → Bytes × Bytes → Bytes → Bytes → Result StagingConfig
unfolding with_service classify_endpoint
addressed endpoint (bucket, prefix) access_key_id secret_access_key =
    if is_empty endpoint || is_empty bucket
    then err (config "staging url from the server has an empty endpoint or bucket")
    else with_service endpoint bucket prefix access_key_id secret_access_key
        (classify_endpoint endpoint)

hosted : Option (Bytes × Bytes) → Bytes → Bytes → Result StagingConfig
unfolding addressed split_once trim_start
hosted none access_key_id secret_access_key =
    err (config "staging url from the server has no bucket")
hosted (some (endpoint, path)) access_key_id secret_access_key =
    let after_host = trim_start b'/' path in
    addressed endpoint (bucket_and_prefix after_host (split_once b'/' after_host)) access_key_id
      secret_access_key

schemed : Option Bytes → Bytes → Bytes → Result StagingConfig
unfolding hosted
schemed none access_key_id secret_access_key =
    err (config "staging url from the server must start with `s3://`")
schemed (some rest) access_key_id secret_access_key =
    hosted (split_once b'/' rest) access_key_id secret_access_key

unfoldable pub parse_staging_url : Bytes → Bytes → Bytes → Result StagingConfig
unfolding schemed strip_prefix
parse_staging_url url access_key_id secret_access_key =
    schemed (strip_prefix (codes "s3://") url) access_key_id secret_access_key

abbrev pub service_eq : StagingService → StagingService → Bool
service_eq oss oss = true
service_eq s3 s3 = true
service_eq oss s3 = false
service_eq s3 oss = false

abbrev pub region_eq : Option Bytes → Option Bytes → Bool
region_eq none none = true
region_eq none (some b) = false
region_eq (some a) none = false
region_eq (some a) (some b) = bytes_eq a b

-- The snapshot in use, its store, and the url that every object url starts with.
pub record StagingLive (Store : Type 0) : Type 0 where
  pub cfg : StagingConfig
  pub store : Store
  pub url_base : Bytes

pub record StagingHandle (Store : Type 0) : Type 0 where
  pub live : StagingLive Store
  pub managed_dsn : Option Bytes

unfoldable pub is_moved : StagingConfig → StagingConfig → Bool
unfolding bytes_eq
is_moved fresh cur =
    not (bytes_eq fresh.endpoint cur.endpoint)
    || not (bytes_eq fresh.bucket cur.bucket)
    || not (bytes_eq fresh.prefix cur.prefix)
    || not (service_eq fresh.service cur.service)

unfoldable pub same_credentials : StagingConfig → StagingConfig → Bool
unfolding bytes_eq
same_credentials fresh cur =
    bytes_eq fresh.access_key_id cur.access_key_id
    && bytes_eq fresh.secret_access_key cur.secret_access_key
    && region_eq fresh.region cur.region

module _ {Store : Type 0} (build_store : StagingConfig → Result Store) where
  unfoldable pub build : StagingConfig → Result (StagingLive Store)
  unfolding staging_url_base
  build cfg = build_store cfg >>= λ store.
      ok (record { cfg = cfg; store = store; url_base = staging_url_base cfg })

  unfoldable pub new_handle : StagingConfig → Option Bytes → Result (StagingHandle Store)
  unfolding build
  new_handle cfg managed_dsn =
      build cfg >>= λ live. ok (record { live = live; managed_dsn = managed_dsn })

  installed : StagingHandle Store → Result (StagingLive Store) → StagingHandle Store × Result Bool
  installed h (err e) = (h, err e)
  installed h (ok live) = (record h { live = live }, ok true)

  -- The handle after it, and whether the credentials were installed.
  unfoldable pub apply : StagingConfig → StagingHandle Store → StagingHandle Store × Result Bool
  unfolding is_moved same_credentials build installed
  apply fresh h =
      if is_moved fresh h.live.cfg
      then (h, err (config "staging location changed on the server"))
      else if same_credentials fresh h.live.cfg
      then (h, ok false)
      else installed h (build fresh)

  refreshed_with : StagingHandle Store → Result StagingConfig → StagingHandle Store × Result Bool
  unfolding apply
  refreshed_with h (err e) = (h, err e)
  refreshed_with h (ok fresh) = apply fresh h

  refreshed_by :
      StagingHandle Store → Result StagingConfig → Option Bytes → StagingHandle Store × Result Bool
  unfolding refreshed_with
  refreshed_by h fetched none = (h, ok false)
  refreshed_by h fetched (some dsn) = refreshed_with h fetched

  -- What the server answers, through `connect_control` and `fetch_managed_staging`, is an argument.
  unfoldable pub refresh_managed_staging :
      Result StagingConfig → StagingHandle Store → StagingHandle Store × Result Bool
  unfolding refreshed_by
  refresh_managed_staging fetched h = refreshed_by h fetched h.managed_dsn

  -- The refreshes of a process, one after the other: the periodic ones and those of denied uploads.
  unfoldable pub refresh_all :
      List (Result StagingConfig) → StagingHandle Store → StagingHandle Store
  unfolding refresh_managed_staging
  refresh_all [] h = h
  refresh_all (fetched ∷ more) h = refresh_all more (refresh_managed_staging fetched h).0
