-- ===== src/Config/Endpoint.antt =====
-- src/config.rs: the store and the region that an endpoint's host names.
pub mod Region
use relyt_ingest.Common.{
  ℕ, zero, suc, Bool, true, false, Option, none, some, List, [], ◌∷◌, ◌++◌, ◌==◌, ◌&&◌, ◌||◌, leb,
  all, is_empty, if◌then◌else◌,
}
use relyt_ingest.Common.Text.{Bytes, codes, strip_prefix, strip_suffix}
use relyt_ingest.Config.{StagingService, oss, s3, StagingConfig}

abbrev pub KnownEndpoint : Type 0
KnownEndpoint = Bytes × List Bytes × StagingService

abbrev pub known_endpoints : List KnownEndpoint
known_endpoints =
    (codes "s3", codes ".amazonaws.com" ∷ codes ".amazonaws.com.cn" ∷ [], s3)
    ∷ (codes "internal.s3", codes ".amazonaws.com" ∷ codes ".amazonaws.com.cn" ∷ [], s3)
    ∷ (codes "oss", codes ".aliyuncs.com" ∷ [], oss)
    ∷ (codes "cos", codes ".myqcloud.com" ∷ [], s3)
    ∷ (codes "ks3", codes ".ksyuncs.com" ∷ [], s3)
    ∷ (codes "s3", codes ".ufileos.com" ∷ [], s3)
    ∷ (codes "tos-s3", codes ".volces.com" ∷ codes ".ivolces.com" ∷ [], s3)
    ∷ []

-- What stands before the last separator, where there is one: `rsplit_once`.
unfoldable pub before_last : ℕ → Bytes → Option Bytes
before_last sep [] = none
before_last sep (c ∷ s) =
    let rest = before_last sep s in
    elim rest [ some t ↦ some (c ∷ t) | none ↦ if c == sep then some [] else none ]

abbrev pub or_else : {V : Type 0} → Option V → Option V → Option V
or_else none other = other
or_else (some v) other = some v

abbrev pub unwrap_or : {V : Type 0} → Option V → V → V
unwrap_or none v = v
unwrap_or (some w) v = w

unfoldable pub host_of : Bytes → Bytes
unfolding before_last strip_prefix
host_of endpoint =
    let host =
      unwrap_or
        (or_else (strip_prefix (codes "https://") endpoint)
          (strip_prefix (codes "http://") endpoint))
        endpoint in
    unwrap_or (before_last b':' host) host

abbrev pub is_region_char : ℕ → Bool
is_region_char b =
    (leb b'0' b && leb b b'9')
    || (leb b'a' b && leb b b'z')
    || (leb b'A' b && leb b b'Z')
    || (b == b'-')

abbrev pub Found : Type 0
Found = Option (StagingService × Option Bytes)

abbrev pub checked_region : StagingService → Bytes → Found
checked_region service region =
    if is_empty region
    then none
    else if all is_region_char region
    then some (service, some region)
    else none

-- The match of the host's middle. It returns from the function, one way or the other.
unfoldable pub middle_found : StagingService → Bytes → Found
middle_found oss middle = some (oss, none)
middle_found s3 [] = checked_region s3 (codes "us-east-1")
middle_found s3 (c ∷ m) = if (c == b'.') || (c == b'-') then checked_region s3 m else none

abbrev pub suffix_step : StagingService → Option Bytes → Option Found → Option Found
suffix_step service none rest = rest
suffix_step service (some middle) rest = some (middle_found service middle)

-- The two loops: `none` goes on to the next row, `some r` returns r.
unfoldable pub match_suffixes : StagingService → Bytes → List Bytes → Option Found
unfolding strip_suffix middle_found
match_suffixes service after_prefix [] = none
match_suffixes service after_prefix (suffix ∷ suffixes) =
    let rest = match_suffixes service after_prefix suffixes in
    suffix_step service (strip_suffix suffix after_prefix) rest

abbrev pub row_step : List Bytes → StagingService → Option Bytes → Found → Found
row_step suffixes service none rest = rest
row_step suffixes service (some after_prefix) rest =
    unwrap_or (match_suffixes service after_prefix suffixes) rest

unfoldable pub match_rows : Bytes → List KnownEndpoint → Found
unfolding strip_prefix match_suffixes
match_rows host [] = none
match_rows host ((prefix, suffixes, service) ∷ rows) =
    let rest = match_rows host rows in row_step suffixes service (strip_prefix prefix host) rest

unfoldable pub classify_endpoint : Bytes → Found
unfolding host_of match_rows
classify_endpoint endpoint = match_rows (host_of endpoint) known_endpoints

abbrev pub region_in : Found → Option Bytes
region_in none = none
region_in (some found) = found.1

unfoldable pub derive_region : Bytes → Option Bytes
unfolding classify_endpoint
derive_region endpoint = region_in (classify_endpoint endpoint)

unfoldable pub resolve_region : StagingConfig → Option Bytes
unfolding derive_region
resolve_region s = or_else s.region (derive_region s.endpoint)
