-- ===== src/Staging/Location.antt =====
-- What a refresh of the credentials can change of a handle.
use mathlib.Core.Path.{subst}
use relyt_ingest.Common.{
  ◌≡◌, refl, sym, ap, ◌∙◌, ◌⊎◌, inl, inr, Bool, true, false, not, ◌||◌, Option, none, some, List,
  [], ◌∷◌, Bool-cases, ◌≢◌,
}
use relyt_ingest.Common.Text.{Bytes, bytes_eq, bytes_eq_iff}
use relyt_ingest.Errors.{Result, ok, err, >>=-eq-ok}
use relyt_ingest.Config.{StagingService, oss, s3, StagingConfig}
use relyt_ingest.Staging.{
  StagingLive, StagingHandle, service_eq, is_moved, same_credentials, staging_url_base, build,
  new_handle, installed, apply, refreshed_with, refreshed_by, refresh_managed_staging, refresh_all,
}

-- Two configurations name one place.
abbrev SamePlace : StagingConfig → StagingConfig → Type 0
SamePlace a b =
    (a.endpoint ≡ b.endpoint)
    × (a.bucket ≡ b.bucket)
    × (a.prefix ≡ b.prefix)
    × (a.service ≡ b.service)

staging_url_base-SamePlace :
    (a b : StagingConfig) → SamePlace a b → staging_url_base a ≡ staging_url_base b
unfolding staging_url_base
staging_url_base-SamePlace a b (endpoint, bucket, prefix, service) =
    rw (endpoint, bucket, prefix) refl

service_eq_sound : (a b : StagingService) → service_eq a b ≡ true → a ≡ b
service_eq_sound oss oss h = refl
service_eq_sound s3 s3 h = refl
service_eq_sound oss s3 h = cc
service_eq_sound s3 oss h = cc

all_false :
    (a b c d : Bool)
    → (not a || not b || not c || not d) ≡ false
    → (a ≡ true) × (b ≡ true) × (c ≡ true) × (d ≡ true)
all_false true true true true h = (refl, refl, refl, refl)
all_false true true true false h = cc
all_false true true false d h = cc
all_false true false c d h = cc
all_false false b c d h = cc

is_moved-SamePlace : (fresh cur : StagingConfig) → is_moved fresh cur ≡ false → SamePlace fresh cur
unfolding is_moved
is_moved-SamePlace fresh cur h =
    let (e, b, p, s) =
      all_false (bytes_eq fresh.endpoint cur.endpoint) (bytes_eq fresh.bucket cur.bucket)
        (bytes_eq fresh.prefix cur.prefix) (service_eq fresh.service cur.service) h in
    (
      (bytes_eq_iff fresh.endpoint cur.endpoint).0 e,
      (bytes_eq_iff fresh.bucket cur.bucket).0 b,
      (bytes_eq_iff fresh.prefix cur.prefix).0 p,
      service_eq_sound fresh.service cur.service s,
    )

some_present : (dsn : Bytes) → some dsn ≡ none → ⊥
some_present dsn e = cc

module _ {Store : Type 0} (build_store : StagingConfig → Result Store) (cfg : StagingConfig)
    (managed_dsn : Option Bytes) where
  -- A handle for the place of the configuration it was made from, with the store of the credentials
  -- that it shows.
  pub record IsLocated (h : StagingHandle Store) : Type 0 where
    pub endpoint : h.live.cfg.endpoint ≡ cfg.endpoint
    pub bucket : h.live.cfg.bucket ≡ cfg.bucket
    pub prefix : h.live.cfg.prefix ≡ cfg.prefix
    pub service : h.live.cfg.service ≡ cfg.service
    pub url_base : h.live.url_base ≡ staging_url_base cfg
    pub store : build_store h.live.cfg ≡ ok h.live.store
    pub dsn : h.managed_dsn ≡ managed_dsn
    pub own_bucket : (managed_dsn ≢ none) ⊎ (h.live.cfg ≡ cfg)

  build_inversion :
      (c : StagingConfig) (live : StagingLive Store)
      → build build_store c ≡ ok live
      → (live.cfg ≡ c) × (build_store c ≡ ok live.store) × (live.url_base ≡ staging_url_base c)
  unfolding build
  build_inversion c live h =
      let (store, built, made) = >>=-eq-ok (build_store c) _ h in
      let this : record { cfg = c; store = store; url_base = staging_url_base c } ≡ live = cc in
      (
        ap (λ l. l.cfg) (sym this),
        built ∙ ap (λ l. ok l.store) this,
        ap (λ l. l.url_base) (sym this),
      )

  apply-IsLocated :
      (fresh : StagingConfig) (h : StagingHandle Store)
      → managed_dsn ≢ none
      → IsLocated h
      → IsLocated (apply build_store fresh h).0
  unfolding apply installed
  apply-IsLocated fresh h managed at = elim (Bool-cases (is_moved fresh h.live.cfg)) [
    | inl moved ↦ rw moved at
    | inr stays ↦ elim (Bool-cases (same_credentials fresh h.live.cfg)) [
      | inl same ↦ rw (stays, same) at
      | inr new ↦
          rw (stays, new)
            (on (build build_store fresh) refl (is_moved-SamePlace fresh h.live.cfg stays))
    ]
  ]
    where
      on :
          (built : Result (StagingLive Store))
          → build build_store fresh ≡ built
          → SamePlace fresh h.live.cfg
          → IsLocated (installed build_store h built).0
      on (err e) made place = at
      on (ok live) made (e, b, p, s) =
          let (named, built, url) = build_inversion fresh live made in
          record {
            endpoint = ap (λ c. c.endpoint) named ∙ e ∙ at.endpoint;
            bucket = ap (λ c. c.bucket) named ∙ b ∙ at.bucket;
            prefix = ap (λ c. c.prefix) named ∙ p ∙ at.prefix;
            service = ap (λ c. c.service) named ∙ s ∙ at.service;
            url_base =
                url
                ∙ staging_url_base-SamePlace fresh cfg
                    (e ∙ at.endpoint, b ∙ at.bucket, p ∙ at.prefix, s ∙ at.service);
            store = ap build_store named ∙ built;
            dsn = at.dsn;
            own_bucket = inl managed;
          }

  refresh-IsLocated :
      (fetched : Result StagingConfig) (h : StagingHandle Store)
      → IsLocated h
      → IsLocated (refresh_managed_staging build_store fetched h).0
  unfolding refresh_managed_staging refreshed_by refreshed_with
  refresh-IsLocated fetched h at = on h.managed_dsn refl fetched
    where
      on :
          (dsn : Option Bytes)
          → h.managed_dsn ≡ dsn
          → (answer : Result StagingConfig) → IsLocated (refreshed_by build_store h answer dsn).0
      on none e answer = at
      on (some dsn) e (err failure) = at
      on (some dsn) e (ok fresh) =
          apply-IsLocated fresh h (λ missing. some_present dsn (sym e ∙ at.dsn ∙ missing)) at

  all-IsLocated :
      (fetches : List (Result StagingConfig)) (h : StagingHandle Store)
      → IsLocated h
      → IsLocated (refresh_all build_store fetches h)
  unfolding refresh_all
  all-IsLocated [] h at = at
  all-IsLocated (f ∷ fetches) h at =
      all-IsLocated fetches (refresh_managed_staging build_store f h).0 (refresh-IsLocated f h at)

  -- However often the credentials are refreshed, and whatever the server then answers, a handle stays
  -- at the endpoint, bucket, prefix and service that it was made for, so that the url base of every
  -- announced object is the one of that configuration; its store is the one built from the
  -- credentials that it shows; and without a DSN to fetch from, as for a customer's own bucket, the
  -- configuration never changes.
  pub refresh_all-IsLocated :
      (h : StagingHandle Store) (fetches : List (Result StagingConfig))
      → new_handle build_store cfg managed_dsn ≡ ok h
      → IsLocated (refresh_all build_store fetches h)
  unfolding new_handle
  refresh_all-IsLocated h fetches made =
      let (live, built, whole) = >>=-eq-ok (build build_store cfg) _ made in
      let (named, stored, url) = build_inversion cfg live built in
      let this : record { live = live; managed_dsn = managed_dsn } ≡ h = cc in
      all-IsLocated fetches h (
        subst IsLocated this (record {
          endpoint = ap (λ c. c.endpoint) named;
          bucket = ap (λ c. c.bucket) named;
          prefix = ap (λ c. c.prefix) named;
          service = ap (λ c. c.service) named;
          url_base = url;
          store = ap build_store named ∙ stored;
          dsn = refl;
          own_bucket = inr named;
        }))
