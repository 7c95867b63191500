-- ===== src/Staging/Handed.antt =====
-- A staging url that the server hands out.
use mathlib.Core.Path.{subst, ap₂}
use relyt_ingest.Common.{
  ◌≡◌, refl, sym, ap, ◌∙◌, Bool, true, false, ◌||◌, Option, none, some, [], is_empty, if◌then◌else◌,
}
use relyt_ingest.Common.Text.{Bytes, codes, strip_prefix, Lacks}
use relyt_ingest.Errors.{ok, err, config}
use relyt_ingest.Config.{StagingService, StagingConfig}
use relyt_ingest.Config.Endpoint.{classify_endpoint}
use relyt_ingest.Staging.{
  trim_start, trim, split_once, staging_url_base, bucket_and_prefix, with_service, addressed,
  hosted, schemed, parse_staging_url,
}
use relyt_ingest.Staging.Url.{
  IsAddress, trim-trim, split_once_sound, split_once_missing, parse_staging_url-staging_url_base,
}

-- What a url was read as: an address with a tight prefix, and the credentials beside it.
abbrev IsRead : Bytes → Bytes → StagingConfig → Type 0
IsRead ak sk c =
    IsAddress c
    × (trim b'/' c.prefix ≡ c.prefix)
    × (c.access_key_id ≡ ak)
    × (c.secret_access_key ≡ sk)

module _ (ak sk : Bytes) (c : StagingConfig) where
  with_service-IsRead :
      (endpoint bucket prefix : Bytes) (found : Option (StagingService × Option Bytes))
      → classify_endpoint endpoint ≡ found
      → is_empty endpoint ≡ false
      → Lacks b'/' endpoint
      → is_empty bucket ≡ false
      → Lacks b'/' bucket
      → with_service endpoint bucket prefix ak sk found ≡ ok c
      → IsRead ak sk c
  unfolding with_service
  with_service-IsRead endpoint bucket prefix none e he le hb lb h = cc
  with_service-IsRead endpoint bucket prefix (some (service, region)) e he le hb lb h =
      let made : StagingConfig = record {
        endpoint = endpoint;
        bucket = bucket;
        prefix = trim b'/' prefix;
        access_key_id = ak;
        secret_access_key = sk;
        service = service;
        region = region;
      } in
      let this : made ≡ c = cc in
      subst (IsRead ak sk) this (
        record {
          has_endpoint = he;
          endpoint_plain = le;
          has_bucket = hb;
          bucket_plain = lb;
          is_known = e;
        },
        trim-trim b'/' prefix,
        refl,
        refl,
      )

  addressed-IsRead :
      (endpoint bucket prefix : Bytes)
      → Lacks b'/' endpoint
      → Lacks b'/' bucket
      → addressed endpoint (bucket, prefix) ak sk ≡ ok c
      → IsRead ak sk c
  unfolding addressed
  addressed-IsRead endpoint bucket prefix le lb h =
      on (is_empty endpoint) (is_empty bucket) refl refl h
    where
      on :
          (e b : Bool)
          → is_empty endpoint ≡ e
          → is_empty bucket ≡ b
          → (if e || b
              then err (config "staging url from the server has an empty endpoint or bucket")
              else with_service endpoint bucket prefix ak sk (classify_endpoint endpoint))
            ≡ ok c
          → IsRead ak sk c
      on true b he hb h = cc
      on false true he hb h = cc
      on false false he hb h =
          with_service-IsRead endpoint bucket prefix (classify_endpoint endpoint) refl he le hb lb h

  hosted-IsRead :
      (split : Option (Bytes × Bytes)) (rest : Bytes)
      → split_once b'/' rest ≡ split
      → hosted split ak sk ≡ ok c
      → IsRead ak sk c
  unfolding hosted
  hosted-IsRead none rest e h = cc
  hosted-IsRead (some (endpoint, path)) rest e h =
      on (split_once b'/' (trim_start b'/' path)) refl h
    where
      on :
          (parts : Option (Bytes × Bytes))
          → split_once b'/' (trim_start b'/' path) ≡ parts
          → addressed endpoint (bucket_and_prefix (trim_start b'/' path) parts) ak sk ≡ ok c
          → IsRead ak sk c
      on none same h =
          addressed-IsRead endpoint (trim_start b'/' path) []
            (split_once_sound b'/' rest endpoint path e)
            (split_once_missing b'/' (trim_start b'/' path) same) h
      on (some (bucket, prefix)) same h =
          addressed-IsRead endpoint bucket prefix (split_once_sound b'/' rest endpoint path e)
            (split_once_sound b'/' (trim_start b'/' path) bucket prefix same) h

  schemed-IsRead : (rest : Option Bytes) → schemed rest ak sk ≡ ok c → IsRead ak sk c
  unfolding schemed
  schemed-IsRead none h = cc
  schemed-IsRead (some rest) h = hosted-IsRead (split_once b'/' rest) rest refl h

-- A url that was accepted from the server names an endpoint that the client can sign for, and an
-- endpoint and a bucket that are not empty and hold no slash; and the url base made from what it was
-- read as, which every announced object url starts with, is read back as the same configuration.
pub parse_staging_url_stable :
    (url ak sk : Bytes) (c : StagingConfig)
    → parse_staging_url url ak sk ≡ ok c
    → IsAddress c × (parse_staging_url (staging_url_base c) ak sk ≡ ok c)
unfolding parse_staging_url
parse_staging_url_stable url ak sk c h =
    let (address, tight, a, s) = schemed-IsRead ak sk c (strip_prefix (codes "s3://") url) h in
    (
      address,
      ap₂ (λ x y. parse_staging_url (staging_url_base c) x y) (sym a) (sym s)
          ∙ parse_staging_url-staging_url_base c address
          ∙ ap (λ p. ok (record c { prefix = p })) tight,
    )
