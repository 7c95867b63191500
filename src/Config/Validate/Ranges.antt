-- ===== src/Config/Validate/Ranges.antt =====
-- src/config.rs: the conditions of the checks, and that of the ranges.
use relyt_ingest.Common.{
  ◌⊎◌, ℕ, ◌*◌, ◌≤◌, ◌≡◌, ◌≢◌, ◌↔◌, refl, Bool, true, false, Option, none, some, [], ◌∷◌, not, ltb,
  all, is_empty, All, arith, String,
}
use relyt_ingest.Common.Int.{ℤ, pos, negsuc}
use relyt_ingest.Common.Text.{Bytes}
use relyt_ingest.Errors.{Result, ok, err, guard, ◌>>◌, config}
use relyt_ingest.Config.{oss, StagingConfig, Staging, relyt, customer, ClientConfig, from_secs}
use relyt_ingest.Config.Endpoint.{resolve_region}
use relyt_ingest.Config.Validate.{
  is_listable, validate_credential, max_rotate_size, range_check, non_negative, validate_ranges,
}

-- No comma and no quote, as the list of options has no escape for them.
abbrev pub IsCredential : Bytes → Type 0
IsCredential v = (v ≢ []) × All (λ c. (c ≢ b',') × (c ≢ b'"')) v

abbrev pub IsStaging : StagingConfig → Type 0
IsStaging s =
    IsCredential s.access_key_id
    × IsCredential s.secret_access_key
    × (s.bucket ≢ [])
    × (s.endpoint ≢ [])
    × ((s.service ≡ oss) ⊎ (resolve_region s ≢ none))

abbrev pub IsLocation : Staging → Type 0
IsLocation relyt = Unit
IsLocation (customer s) = IsStaging s

abbrev pub IsBetween : ℕ → ℕ → ℕ → Type 0
IsBetween least most v = (least ≤ v) × (v ≤ most)

abbrev pub IsRetryMax : Option ℤ → Type 0
IsRetryMax none = Unit
IsRetryMax (some n) = (k : ℕ) × (n ≡ pos k)

-- The lease outlives three heartbeats and is at most a day.
abbrev pub IsRanged : ClientConfig → Type 0
IsRanged c =
    (c.rotate_size_bytes ≤ max_rotate_size)
    × IsBetween (from_secs 1) (from_secs 21_600) c.rotate_interval_max
    × IsBetween (from_secs 900) (from_secs 604_800) c.gc_interval
    × IsBetween 1 365 c.gc_retain_days
    × IsBetween 3 1_000_000 c.gc_retain_min_files
    × IsBetween (from_secs 1) (from_secs 600) c.lock_heartbeat_interval
    × IsBetween (from_secs 30) (from_secs 86_400) c.staging_refresh_interval
    × IsBetween 1 16 c.rotation_queue_depth
    × IsBetween 1 10_000 c.staging_error_after_attempts
    × IsBetween (3 * c.lock_heartbeat_interval) (from_secs 86_400) c.lock_lease_timeout
    × IsRetryMax c.retry_max

abbrev pub IsAccepted : ClientConfig → Type 0
IsAccepted c =
    IsLocation c.staging
    × (c.delimiter ≢ b'"')
    × (c.delimiter ≢ b'\n')
    × (c.delimiter ≢ b'\r')
    × (c.rotate_size_bytes ≢ 0)
    × ((c.bypass_range_checks ≡ true) ⊎ IsRanged c)

pub then_iff : (a b : Result (Unit {0})) → (a >> b ≡ ok tt) ↔ ((a ≡ ok tt) × (b ≡ ok tt))
then_iff (err e) b = ((λ h. cc h), λ h. h.0)
then_iff (ok tt) b = ((λ h. (refl, h)), λ h. h.1)

pub guard_iff : (b : Bool) (message : String) → (guard b (config message) ≡ ok tt) ↔ (b ≡ true)
guard_iff true message = ((λ h. refl), λ h. refl)
guard_iff false message = ((λ h. cc h), λ h. cc h)

range_iff :
    (message : String) (v least most : ℕ)
    → (range_check message v least most ≡ ok tt) ↔ IsBetween least most v
unfolding range_check
range_iff message v least most =
    ((λ h. ground (arith, (guard_iff _ _).0 h)), λ h. (guard_iff _ message).1 (ground (arith, h)))

listable_iff : (v : Bytes) → (all is_listable v ≡ true) ↔ All (λ c. (c ≢ b',') × (c ≢ b'"')) v
listable_iff [] = ((λ h. tt), λ h. refl)
listable_iff (c ∷ v) = ground (arith, listable_iff v)

retry_iff : (n : Option ℤ) → (non_negative n ≡ true) ↔ IsRetryMax n
retry_iff none = ((λ h. tt), λ h. refl)
retry_iff (some (pos n)) = ((λ h. (n, refl)), λ h. refl)
retry_iff (some (negsuc n)) = ((λ h. cc h), λ h. cc h.1)

pub IsCredential-iff : (v : Bytes) → (validate_credential v ≡ ok tt) ↔ IsCredential v
unfolding validate_credential
IsCredential-iff v = (
  (λ h.
      let (filled, listed) = (then_iff _ _).0 h in
      (filled_of v ((guard_iff _ _).0 filled), (listable_iff v).0 ((guard_iff _ _).0 listed))),
  λ h.
      (then_iff _ _).1
        ((guard_iff _ _).1 (of_filled v h.0), (guard_iff _ _).1 ((listable_iff v).1 h.1)),
)
  where
    filled_of : (v : Bytes) → not (is_empty v) ≡ true → v ≢ []
    filled_of [] h = cc h
    filled_of (c ∷ v) h = λ e. cc e

    of_filled : (v : Bytes) → v ≢ [] → not (is_empty v) ≡ true
    of_filled [] h = absurd (h refl)
    of_filled (c ∷ v) h = refl

size_iff : (v : ℕ) → (not (ltb max_rotate_size v) ≡ true) ↔ (v ≤ max_rotate_size)
size_iff v = ground arith

pub ranges_iff : (c : ClientConfig) → (validate_ranges c ≡ ok tt) ↔ IsRanged c
unfolding validate_ranges
ranges_iff c = (
  (λ h₁.
      let (h₂, retry) = (then_iff _ _).0 h₁ in
      let (h₃, lease) = (then_iff _ _).0 h₂ in
      let (h₄, attempts) = (then_iff _ _).0 h₃ in
      let (h₅, depth) = (then_iff _ _).0 h₄ in
      let (h₆, refresh) = (then_iff _ _).0 h₅ in
      let (h₇, beat) = (then_iff _ _).0 h₆ in
      let (h₈, files) = (then_iff _ _).0 h₇ in
      let (h₉, days) = (then_iff _ _).0 h₈ in
      let (h₁₀, collect) = (then_iff _ _).0 h₉ in
      let (size, interval) = (then_iff _ _).0 h₁₀ in
      (
        (size_iff c.rotate_size_bytes).0 ((guard_iff _ _).0 size),
        (range_iff _ _ _ _).0 interval,
        (range_iff _ _ _ _).0 collect,
        (range_iff _ _ _ _).0 days,
        (range_iff _ _ _ _).0 files,
        (range_iff _ _ _ _).0 beat,
        (range_iff _ _ _ _).0 refresh,
        (range_iff _ _ _ _).0 depth,
        (range_iff _ _ _ _).0 attempts,
        lease_of c.lock_heartbeat_interval c.lock_lease_timeout (from_secs 86_400)
            ((range_iff _ _ _ _).0 lease),
        (retry_iff c.retry_max).0 ((guard_iff _ _).0 retry),
      )),
  λ (size, interval, collect, days, files, beat, refresh, depth, attempts, lease, retry).
      both
        (both
          (both
            (both
              (both
                (both
                  (both
                    (both
                      (both
                        (both ((guard_iff _ _).1 ((size_iff c.rotate_size_bytes).1 size))
                          ((range_iff _ _ _ _).1 interval))
                        ((range_iff _ _ _ _).1 collect))
                      ((range_iff _ _ _ _).1 days))
                    ((range_iff _ _ _ _).1 files))
                  ((range_iff _ _ _ _).1 beat))
                ((range_iff _ _ _ _).1 refresh))
              ((range_iff _ _ _ _).1 depth))
            ((range_iff _ _ _ _).1 attempts))
          ((range_iff _ _ _ _).1
            (of_lease c.lock_heartbeat_interval c.lock_lease_timeout (from_secs 86_400) lease)))
        ((guard_iff _ _).1 ((retry_iff c.retry_max).1 retry)),
)
  where
    both : {a b : Result (Unit {0})} → a ≡ ok tt → b ≡ ok tt → (a >> b) ≡ ok tt
    both ha hb = (then_iff _ _).1 (ha, hb)

    lease_of : (l v m : ℕ) → IsBetween (l * 3) m v → IsBetween (3 * l) m v
    lease_of l v m h = (omega (arith, h.0), h.1)

    of_lease : (l v m : ℕ) → IsBetween (3 * l) m v → IsBetween (l * 3) m v
    of_lease l v m h = (omega (arith, h.0), h.1)
