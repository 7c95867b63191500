-- ===== src/Staging/Url.antt =====
-- A staging url that is printed is read back.
use mathlib.Core.Path.{subst}
use relyt_ingest.Common.{
  ℕ, ◌≡◌, refl, sym, ap, ◌∙◌, inl, inr, false, ◌&&◌, Option, none, some, [], ◌∷◌, ◌++◌, ◌==◌,
  is_empty, arith, Bool-cases, append_assoc, append-nil, if◌then◌else◌,
}
use relyt_ingest.Common.Text.{Bytes, codes, strip_prefix, Lacks}
use relyt_ingest.Errors.{ok}
use relyt_ingest.Config.{StagingConfig}
use relyt_ingest.Config.Endpoint.{classify_endpoint}
use relyt_ingest.Staging.{
  trim_start, trim_end, trim, split_once, staging_url_base, bucket_and_prefix, with_service,
  addressed, hosted, schemed, parse_staging_url, behind,
}

trim_end-cons_ne :
    (c x : ℕ) (xs : Bytes) → (x == c) ≡ false → trim_end c (x ∷ xs) ≡ x ∷ trim_end c xs
unfolding trim_end
trim_end-cons_ne c x xs h = ground (arith, h)

trim_end-trim_end : (c : ℕ) (xs : Bytes) → trim_end c (trim_end c xs) ≡ trim_end c xs
unfolding trim_end
trim_end-trim_end c [] = refl
trim_end-trim_end c (x ∷ xs) = elim (Bool-cases (is_empty (trim_end c xs) && (x == c))) [
  | inl e ↦ rw e refl
  | inr e ↦ rw e (rw (trim_end-trim_end c xs) (rw e refl))
]

-- A text starts with another character, or is empty.
abbrev StartsClear : ℕ → Bytes → Type 0
StartsClear c [] = Unit
StartsClear c (x ∷ xs) = (x == c) ≡ false

trim_start-StartsClear : (c : ℕ) (xs : Bytes) → StartsClear c (trim_start c xs)
unfolding trim_start
trim_start-StartsClear c [] = tt
trim_start-StartsClear c (x ∷ xs) = elim (Bool-cases (x == c)) [
  | inl e ↦ rw e (trim_start-StartsClear c xs)
  | inr e ↦ rw e e
]

StartsClear-trim_end : (c : ℕ) (xs : Bytes) → StartsClear c xs → StartsClear c (trim_end c xs)
unfolding trim_end
StartsClear-trim_end c [] h = tt
StartsClear-trim_end c (x ∷ xs) h = rw (trim_end-cons_ne c x xs h) h

StartsClear-trim_start : (c : ℕ) (xs : Bytes) → StartsClear c xs → trim_start c xs ≡ xs
unfolding trim_start
StartsClear-trim_start c [] h = refl
StartsClear-trim_start c (x ∷ xs) h = rw h refl

pub trim-trim : (c : ℕ) (s : Bytes) → trim c (trim c s) ≡ trim c s
unfolding trim
trim-trim c s =
    ap (trim_end c) (
      StartsClear-trim_start c (trim_end c (trim_start c s))
        (StartsClear-trim_end c (trim_start c s) (trim_start-StartsClear c s)))
    ∙ trim_end-trim_end c (trim_start c s)

split_once-append :
    (c : ℕ) (xs ys : Bytes) → Lacks c xs → split_once c (xs ++ c ∷ ys) ≡ some (xs, ys)
unfolding split_once
split_once-append c [] ys h = ground arith
split_once-append c (x ∷ xs) ys h =
    let other : (x == c) ≡ false = ground (arith, h.0) in
    rw (other, split_once-append c xs ys h.1) refl

split_once-Lacks : (c : ℕ) (xs : Bytes) → Lacks c xs → split_once c xs ≡ none
unfolding split_once
split_once-Lacks c [] h = refl
split_once-Lacks c (x ∷ xs) h =
    let other : (x == c) ≡ false = ground (arith, h.0) in rw (other, split_once-Lacks c xs h.1) refl

-- What the server hands out: a host that the client can sign for, and a bucket.
pub record IsAddress (cfg : StagingConfig) : Type 0 where
  pub has_endpoint : is_empty cfg.endpoint ≡ false
  pub endpoint_plain : Lacks b'/' cfg.endpoint
  pub has_bucket : is_empty cfg.bucket ≡ false
  pub bucket_plain : Lacks b'/' cfg.bucket
  pub is_known : classify_endpoint cfg.endpoint ≡ some (cfg.service, cfg.region)

Lacks-StartsClear :
    (c : ℕ) (xs ys : Bytes) → is_empty xs ≡ false → Lacks c xs → StartsClear c (xs ++ ys)
Lacks-StartsClear c [] ys e h = cc
Lacks-StartsClear c (x ∷ xs) ys e h = ground (arith, h.0)

-- The part behind the host.
read_path :
    (cfg : StagingConfig) (path prefix : Bytes)
    → IsAddress cfg
    → StartsClear b'/' path
    → bucket_and_prefix path (split_once b'/' path) ≡ (cfg.bucket, prefix)
    → parse_staging_url
        (codes "s3://" ++ (cfg.endpoint ++ b'/' ∷ path))
        cfg.access_key_id
        cfg.secret_access_key
      ≡ ok (record cfg { prefix = trim b'/' prefix })
unfolding parse_staging_url schemed hosted addressed with_service strip_prefix
read_path cfg path prefix v clear parts =
    rw
      (
        split_once-append b'/' cfg.endpoint path v.endpoint_plain,
        StartsClear-trim_start b'/' path clear,
        parts,
        v.has_endpoint,
        v.has_bucket,
        v.is_known,
      )
      refl

trim-nil : trim b'/' [] ≡ []
unfolding trim trim_start trim_end
trim-nil = refl

-- The url base of a configuration whose endpoint the client knows, with an endpoint and a bucket
-- that are not empty and hold no slash, is read back as that configuration, its prefix without the
-- slashes around it.
pub parse_staging_url-staging_url_base :
    (cfg : StagingConfig)
    → IsAddress cfg
    → parse_staging_url (staging_url_base cfg) cfg.access_key_id cfg.secret_access_key
      ≡ ok (record cfg { prefix = trim b'/' cfg.prefix })
unfolding staging_url_base
parse_staging_url-staging_url_base cfg v = on (trim b'/' cfg.prefix) refl
  where
    on :
        (trimmed : Bytes)
        → trim b'/' cfg.prefix ≡ trimmed
        → parse_staging_url
            (if is_empty trimmed
              then codes "s3://" ++ (cfg.endpoint ++ b'/' ∷ cfg.bucket)
              else (codes "s3://" ++ (cfg.endpoint ++ b'/' ∷ cfg.bucket)) ++ b'/' ∷ trimmed)
            cfg.access_key_id
            cfg.secret_access_key
          ≡ ok (record cfg { prefix = trimmed })
    on [] e =
        read_path cfg cfg.bucket [] v
          (subst (StartsClear b'/') (append-nil cfg.bucket)
            (Lacks-StartsClear b'/' cfg.bucket [] v.has_bucket v.bucket_plain))
          (ap (bucket_and_prefix cfg.bucket) (split_once-Lacks b'/' cfg.bucket v.bucket_plain))
        ∙ ap (λ q. ok (record cfg { prefix = q })) trim-nil
    on (x ∷ p) e =
        let path = cfg.bucket ++ b'/' ∷ x ∷ p in
        let one : (cfg.endpoint ++ b'/' ∷ cfg.bucket) ++ b'/' ∷ x ∷ p
            ≡ cfg.endpoint ++ b'/' ∷ path =
          append_assoc cfg.endpoint (b'/' ∷ cfg.bucket) (b'/' ∷ x ∷ p) in
        let tight : trim b'/' (x ∷ p) ≡ x ∷ p =
          ap (trim b'/') (sym e) ∙ trim-trim b'/' cfg.prefix ∙ e in
        ap (λ l. parse_staging_url (codes "s3://" ++ l) cfg.access_key_id cfg.secret_access_key) one
        ∙ read_path cfg path (x ∷ p) v
            (Lacks-StartsClear b'/' cfg.bucket (b'/' ∷ x ∷ p) v.has_bucket v.bucket_plain)
            (ap (bucket_and_prefix path) (split_once-append b'/' cfg.bucket (x ∷ p) v.bucket_plain))
        ∙ ap (λ q. ok (record cfg { prefix = q })) tight

pub split_once_sound : (c : ℕ) (xs a b : Bytes) → split_once c xs ≡ some (a, b) → Lacks c a
unfolding split_once
split_once_sound c [] a b h = cc
split_once_sound c (x ∷ xs) a b h = elim (Bool-cases (x == c)) [
  | inl e ↦
      let found : ◌≡◌ {A = Option (Bytes × Bytes)} (some ([], xs)) (some (a, b)) = rw e at h in
      let none_before : [] ≡ a = cc in subst (Lacks c) none_before tt
  | inr e ↦ on e (split_once c xs) (λ p q. split_once_sound c xs p q) (rw e at h)
]
  where
    on :
        (x == c) ≡ false
        → (rest : Option (Bytes × Bytes)) → ((p q : Bytes) → rest ≡ some (p, q) → Lacks c p)
        → behind x rest ≡ some (a, b)
        → Lacks c a
    on e none later found = cc
    on e (some (p, q)) later found =
        let first : x ∷ p ≡ a = cc in
        subst (Lacks c) first ((λ same. ground (arith, e, same)), later p q refl)

pub split_once_missing : (c : ℕ) (xs : Bytes) → split_once c xs ≡ none → Lacks c xs
unfolding split_once
split_once_missing c [] h = tt
split_once_missing c (x ∷ xs) h = elim (Bool-cases (x == c)) [
  | inl e ↦ let found : ◌≡◌ {A = Option (Bytes × Bytes)} (some ([], xs)) none = rw e at h in cc
  | inr e ↦ on e (split_once c xs) (split_once_missing c xs) (rw e at h)
]
  where
    on :
        (x == c) ≡ false
        → (rest : Option (Bytes × Bytes)) → (rest ≡ none → Lacks c xs)
        → behind x rest ≡ none
        → Lacks c (x ∷ xs)
    on e none later found = ((λ same. ground (arith, e, same)), later refl)
    on e (some (p, q)) later found = cc
