-- ===== src/Staging/Tests.antt =====
-- A managed staging location, its refreshes, and a listing.
use relyt_ingest.Common.{◌≡◌, refl, none, some, List, [], ◌∷◌, map}
use relyt_ingest.Common.Text.{codes, Bytes, strip_suffix}
use relyt_ingest.Errors.{ok, err, config, Result}
use relyt_ingest.Naming.{parse_basename}
use relyt_ingest.Naming.Tests.{staged, staged-IsNameable}
use relyt_ingest.Config.{oss, StagingConfig}
use relyt_ingest.Config.Endpoint.{classify_endpoint}
use relyt_ingest.Staging.{
  StagingHandle, new_handle, refresh_all, parse_staging_url, staging_url_base,
}
use relyt_ingest.Staging.Url.{IsAddress}
use relyt_ingest.Staging.Handed.{parse_staging_url_stable}
use relyt_ingest.Staging.Location.{IsLocated, refresh_all-IsLocated}
use relyt_ingest.Staging.Listing.{
  Object, directory, staged_file, foreign, entry_of, list_staged, list_staged_objects,
}

abbrev location : Bytes → Bytes → StagingConfig
location key prefix = record {
  endpoint = codes "oss-cn-hangzhou.aliyuncs.com";
  bucket = codes "b";
  prefix = prefix;
  access_key_id = key;
  secret_access_key = codes "sk";
  service = oss;
  region = none;
}

-- A store is the key that it was built with.
abbrev build_store : StagingConfig → Result Bytes
build_store c = ok c.access_key_id

abbrev handle : StagingHandle Bytes
handle = record {
  live = record {
    cfg = location (codes "ak1") (codes "p");
    store = codes "ak1";
    url_base = codes "s3://oss-cn-hangzhou.aliyuncs.com/b/p";
  };
  managed_dsn = some (codes "host=h");
}

made :
    new_handle build_store (location (codes "ak1") (codes "p")) (some (codes "host=h")) ≡ ok handle
unfolding new_handle
made = refl

-- A new key, a failure, another place, and the key again.
abbrev fetches : List (Result StagingConfig)
fetches =
    ok (location (codes "ak2") (codes "p"))
    ∷ err (config "timeout")
    ∷ ok (location (codes "ak3") (codes "other"))
    ∷ ok (location (codes "ak2") (codes "p"))
    ∷ []

swapped_run : (refresh_all build_store fetches handle).live.store ≡ codes "ak2"
unfolding refresh_all
swapped_run = refl

refresh_all-IsLocated_example :
    IsLocated build_store
      (location (codes "ak1") (codes "p"))
      (some (codes "host=h"))
      (refresh_all build_store fetches handle)
refresh_all-IsLocated_example =
    refresh_all-IsLocated build_store (location (codes "ak1") (codes "p")) (some (codes "host=h"))
      handle fetches made

known : classify_endpoint (codes "oss-cn-hangzhou.aliyuncs.com") ≡ some (oss, none)
unfolding classify_endpoint
known = refl

read_run :
    parse_staging_url (codes "s3://oss-cn-hangzhou.aliyuncs.com/b/p/") (codes "ak1") (codes "sk")
    ≡ ok (location (codes "ak1") (codes "p"))
unfolding parse_staging_url
read_run = refl

parse_staging_url_stable_example :
    IsAddress (location (codes "ak1") (codes "p"))
    × (parse_staging_url
          (staging_url_base (location (codes "ak1") (codes "p")))
          (codes "ak1")
          (codes "sk")
        ≡ ok (location (codes "ak1") (codes "p")))
parse_staging_url_stable_example =
    parse_staging_url_stable (codes "s3://oss-cn-hangzhou.aliyuncs.com/b/p/") (codes "ak1")
      (codes "sk") (location (codes "ak1") (codes "p")) read_run

abbrev objects : List Object
objects = directory (codes "old/") ∷ staged_file staged ∷ foreign (codes "notes.txt") ∷ []

unnamed : parse_basename (codes "notes.txt") ≡ none
unfolding parse_basename strip_suffix
unnamed = refl

listing_run : list_staged (ok (map entry_of objects)) ≡ ok (staged ∷ [], codes "notes.txt" ∷ [])
listing_run = list_staged_objects objects (tt, (staged-IsNameable, (unnamed, tt)))
