-- ===== src/Config/Validate/Accepted.antt =====
-- src/config.rs: which configurations the checks accept.
use relyt_ingest.Common.{
  inl, inr, ◌⊎◌, ◌≡◌, ◌≢◌, ◌↔◌, refl, Bool, true, false, Option, none, some, [], ◌∷◌, ◌&&◌, ◌||◌,
  not, is_empty, if◌then◌else◌, arith,
}
use relyt_ingest.Common.Text.{Bytes}
use relyt_ingest.Errors.{ok}
use relyt_ingest.Config.{
  StagingService, oss, s3, StagingConfig, Staging, relyt, customer, ClientConfig, with_staging,
}
use relyt_ingest.Config.Endpoint.{resolve_region}
use relyt_ingest.Config.Validate.{
  is_some, is_s3, validate_staging, validate_ranges, validate_location, validate,
}
use relyt_ingest.Config.Validate.Ranges.{
  IsStaging, IsLocation, IsRanged, IsAccepted, then_iff, guard_iff, IsCredential-iff, ranges_iff,
}

IsStaging-iff : (s : StagingConfig) → (validate_staging s ≡ ok tt) ↔ IsStaging s
unfolding validate_staging
IsStaging-iff s = (
  (λ h₁.
      let (h₂, signed) = (then_iff _ _).0 h₁ in
      let (h₃, named) = (then_iff _ _).0 h₂ in
      let (key, secret) = (then_iff _ _).0 h₃ in
      let (bucket, endpoint) = (named_iff s.bucket s.endpoint).0 ((guard_iff _ _).0 named) in
      (
        (IsCredential-iff s.access_key_id).0 key,
        (IsCredential-iff s.secret_access_key).0 secret,
        bucket,
        endpoint,
        (signed_iff s.service (resolve_region s)).0 ((guard_iff _ _).0 signed),
      )),
  λ (key, secret, bucket, endpoint, signed). (then_iff _ _).1 (
    (then_iff _ _).1 (
      (then_iff _ _).1 (
        (IsCredential-iff s.access_key_id).1 key,
        (IsCredential-iff s.secret_access_key).1 secret,
      ),
      (guard_iff _ _).1 ((named_iff s.bucket s.endpoint).1 (bucket, endpoint)),
    ),
    (guard_iff _ _).1 ((signed_iff s.service (resolve_region s)).1 signed),
  ),
)
  where
    named_iff : (b e : Bytes) → (not (is_empty b || is_empty e) ≡ true) ↔ ((b ≢ []) × (e ≢ []))
    named_iff [] e = ((λ h. cc h), λ h. absurd (h.0 refl))
    named_iff (c ∷ b) [] = ((λ h. cc h), λ h. absurd (h.1 refl))
    named_iff (c ∷ b) (d ∷ e) = ((λ h. ((λ x. cc x), λ x. cc x)), λ h. refl)

    signed_iff :
        (service : StagingService) (region : Option Bytes)
        → (not (is_s3 service && not (is_some region)) ≡ true) ↔ ((service ≡ oss) ⊎ (region ≢ none))
    signed_iff oss none = ((λ h. inl refl), λ h. refl)
    signed_iff oss (some r) = ((λ h. inl refl), λ h. refl)
    signed_iff s3 none = ((λ h. cc h), λ h. elim h [ inl e ↦ cc e | inr e ↦ absurd (e refl) ])
    signed_iff s3 (some r) = ((λ h. inr λ x. cc x), λ h. refl)

IsLocation-iff : (s : Staging) → (validate_location s ≡ ok tt) ↔ IsLocation s
IsLocation-iff relyt = ((λ h. tt), λ h. refl)
IsLocation-iff (customer s) = IsStaging-iff s

-- A configuration is accepted exactly where all of this holds: a customer's staging has a bucket, an
-- endpoint, credentials without comma and quote and, on S3, a region; the delimiter is no quote and no
-- line break; a file has a size; and unless the range checks are bypassed every tunable is in its range,
-- the lease within three heartbeats and a day.
pub validate_iff : (c : ClientConfig) → (validate c ≡ ok tt) ↔ IsAccepted c
unfolding validate
validate_iff c = (
  (λ h₁.
      let (h₂, ranged) = (then_iff _ _).0 h₁ in
      let (h₃, sized) = (then_iff _ _).0 h₂ in
      let (located, delimited) = (then_iff _ _).0 h₃ in
      let d = (guard_iff _ _).0 delimited in
      (
        (IsLocation-iff c.staging).0 located,
        (λ e. ground (arith, d, e)),
        (λ e. ground (arith, d, e)),
        (λ e. ground (arith, d, e)),
        (λ e. ground (arith, (guard_iff _ _).0 sized, e)),
        (bypass_iff c.bypass_range_checks).0 ranged,
      )),
  λ (located, quote, line, return, sized, ranged). (then_iff _ _).1 (
    (then_iff _ _).1 (
      (then_iff _ _).1 (
        (IsLocation-iff c.staging).1 located,
        (guard_iff _ _).1 (ground (arith, quote, line, return)),
      ),
      (guard_iff _ _).1 (ground (arith, sized)),
    ),
    (bypass_iff c.bypass_range_checks).1 ranged,
  ),
)
  where
    bypass_iff :
        (b : Bool) → ((if b then ok tt else validate_ranges c) ≡ ok tt) ↔ ((b ≡ true) ⊎ IsRanged c)
    bypass_iff true = ((λ h. inl refl), λ h. refl)
    bypass_iff false =
        ((λ h. inr ((ranges_iff c).0 h)), λ h. elim h [ inl e ↦ cc e | inr e ↦ (ranges_iff c).1 e ])

-- The defaults are accepted wherever the staging location is.
pub validate-with_staging :
    (staging : Staging) (dsn : Bytes)
    → IsLocation staging
    → validate (with_staging staging dsn) ≡ ok tt
unfolding with_staging
validate-with_staging staging dsn located = (validate_iff (with_staging staging dsn)).1 (
  located,
  (λ e. omega arith),
  (λ e. omega arith),
  (λ e. omega arith),
  (λ e. omega arith),
  inr ranged,
)
  where
    ranged : IsRanged (with_staging staging dsn)
    ranged = (
      omega arith,
      (omega arith, omega arith),
      (omega arith, omega arith),
      (omega arith, omega arith),
      (omega arith, omega arith),
      (omega arith, omega arith),
      (omega arith, omega arith),
      (omega arith, omega arith),
      (omega arith, omega arith),
      (omega arith, omega arith),
      (15, refl),
    )
