-- ===== src/Config/Endpoint/Region.antt =====
-- src/config.rs: the region of an AWS endpoint.
use relyt_ingest.Common.{
  ℕ, ◌≡◌, ◌≢◌, refl, ap, ◌∙◌, true, Option, none, some, List, [], ◌∷◌, ◌++◌, ◌==◌, all, arith,
  All-append, not,
}
use relyt_ingest.Common.Text.{Bytes, codes, strip_prefix, strip_suffix, Lacks}
use relyt_ingest.Common.Text.Affix.{strip_suffix-append}
use relyt_ingest.Config.{StagingService, s3}
use relyt_ingest.Config.Endpoint.{
  before_last, host_of, is_region_char, checked_region, middle_found, match_suffixes, match_rows,
  classify_endpoint, derive_region, known_endpoints, KnownEndpoint, Found,
}

before_last-none : (sep : ℕ) (s : Bytes) → Lacks sep s → before_last sep s ≡ none
unfolding before_last
before_last-none sep [] h = refl
before_last-none sep (c ∷ s) h = ground (arith, h.0, before_last-none sep s h.1)

Lacks-region : (r : Bytes) → all is_region_char r ≡ true → Lacks b':' r
Lacks-region [] h = tt
Lacks-region (c ∷ r) h = ground (arith, Lacks-region r)

checked_region-some :
    (r : Bytes) → r ≢ [] → all is_region_char r ≡ true → checked_region s3 r ≡ some (s3, some r)
checked_region-some [] ne h = absurd (ne refl)
checked_region-some (c ∷ r) ne h = rw h refl

Lacks-of : (s : Bytes) → all (λ c. not (c == b':')) s ≡ true → Lacks b':' s
Lacks-of [] h = tt
Lacks-of (c ∷ s) h = ground (arith, Lacks-of s)

abbrev aws : Bytes
aws = codes ".amazonaws.com"

host :
    (r : Bytes)
    → all is_region_char r ≡ true
    → host_of (codes "https://s3." ++ (r ++ aws)) ≡ codes "s3." ++ (r ++ aws)
unfolding host_of strip_prefix
host r h = rw (before_last-none b':' (codes "s3." ++ (r ++ aws)) lacks) refl
  where
    lacks : Lacks b':' (codes "s3." ++ (r ++ aws))
    lacks =
        All-append (λ c. c ≢ b':') (codes "s3.") (r ++ aws) (Lacks-of (codes "s3.") refl)
          (All-append (λ c. c ≢ b':') r aws (Lacks-region r h) (Lacks-of aws refl))

middle :
    (r : Bytes)
    → r ≢ []
    → all is_region_char r ≡ true
    → middle_found s3 (b'.' ∷ r) ≡ some (s3, some r)
unfolding middle_found
middle r ne h = checked_region-some r ne h

suffix_found :
    (service : StagingService) (s suffix t : Bytes) (suffixes : List Bytes)
    → strip_suffix suffix s ≡ some t
    → match_suffixes service s (suffix ∷ suffixes) ≡ some (middle_found service t)
unfolding match_suffixes
suffix_found service s suffix t suffixes e = rw e refl

row_found :
    (name prefix after : Bytes) (suffixes : List Bytes) (service : StagingService)
    (rows : List KnownEndpoint) (found : Found)
    → strip_prefix prefix name ≡ some after
    → match_suffixes service after suffixes ≡ some found
    → match_rows name ((prefix, suffixes, service) ∷ rows) ≡ found
unfolding match_rows
row_found name prefix after suffixes service rows found e f = rw e (rw f refl)

region_of :
    (endpoint : Bytes) {service : StagingService} {region : Option Bytes}
    → match_rows (host_of endpoint) known_endpoints ≡ some (service, region)
    → derive_region endpoint ≡ region
unfolding derive_region classify_endpoint
region_of endpoint e = rw e refl

-- The region between `s3.` and `.amazonaws.com` of an https endpoint is what requests are signed with,
-- where it is a text of letters, digits and dashes that is not empty.
pub derive_region_aws :
    (r : Bytes)
    → r ≢ []
    → all is_region_char r ≡ true
    → derive_region (codes "https://s3." ++ (r ++ codes ".amazonaws.com")) ≡ some r
unfolding strip_prefix
derive_region_aws r ne h = region_of (codes "https://s3." ++ (r ++ aws)) (
    ap (λ t. match_rows t known_endpoints) (host r h)
    ∙ row_found (codes "s3." ++ (r ++ aws)) (codes "s3") (b'.' ∷ (r ++ aws)) _ s3 _ _ refl (
        suffix_found s3 (b'.' ∷ (r ++ aws)) aws (b'.' ∷ r) _
          (strip_suffix-append aws (b'.' ∷ r) (λ e. cc e)))
    ∙ middle r ne h)
