-- ===== src/Config/Mask.antt =====
-- src/config.rs: `mask_dsn`, which the `Debug` form of a configuration prints its DSN with.
use relyt_ingest.Common.{
  ℕ, zero, suc, ◌+◌, ◌≡◌, ◌≢◌, sym, ap, ◌∙◌, arith, Bool, true, false, Option, none, some, [], ◌∷◌,
  ◌++◌, ◌==◌, leb, ◌&&◌, not, if◌then◌else◌, length, take, drop, All-append, append_assoc,
}
use relyt_ingest.Common.Text.{Bytes, codes, strip_prefix, Lacks}
use relyt_ingest.Schema.Declaration.{is_whitespace}

-- What stands before the first of a character, and the text from there on.
unfoldable pub cut_at : ℕ → Bytes → Option (Bytes × Bytes)
cut_at sep [] = none
cut_at sep (c ∷ s) =
    let rest = cut_at sep s in
    if c == sep
    then some ([], c ∷ s)
    else elim rest [ none ↦ none | some (before, after) ↦ some (c ∷ before, after) ]

-- The text through the first `://`, and what follows it.
unfoldable pub cut_scheme : Bytes → Option (Bytes × Bytes)
unfolding strip_prefix
cut_scheme [] = none
cut_scheme (c ∷ s) =
    let rest = cut_scheme s in
    elim (strip_prefix (codes "://") (c ∷ s)) [
      | some after ↦ some (codes "://", after)
      | none ↦ elim rest [ none ↦ none | some (before, after) ↦ some (c ∷ before, after) ]
    ]

abbrev pub mask_user : Bytes → Bytes → Option (Bytes × Bytes) → Bytes → Bytes
mask_user dsn scheme none at = dsn
mask_user dsn scheme (some (user, password)) at = scheme ++ (user ++ (codes ":***" ++ at))

abbrev pub mask_host : Bytes → Bytes → Option (Bytes × Bytes) → Bytes
mask_host dsn scheme none = dsn
mask_host dsn scheme (some (login, at)) = mask_user dsn scheme (cut_at b':' login) at

abbrev pub lower : ℕ → ℕ
lower c = if leb b'A' c && leb c b'Z' then c + 32 else c

abbrev pub key : Bytes
key = codes "password="

-- The text starts with the key, in ASCII letters of either case.
unfoldable pub starts_key : Bytes → Bytes → Bool
starts_key [] s = true
starts_key (k ∷ ks) [] = false
starts_key (k ∷ ks) (c ∷ s) = (lower c == k) && starts_key ks s

-- The position of the closing quote.
unfoldable pub quoted_end : Bool → Bytes → Option ℕ
quoted_end escaped [] = none
quoted_end escaped (c ∷ s) =
    let rest = quoted_end ((c == b'\\') && not escaped) s in
    if (c == b'\'') && not escaped
    then some 0
    else elim rest [ none ↦ none | some j ↦ some (suc j) ]

unfoldable pub bare_length : Bytes → ℕ
bare_length [] = 0
bare_length (c ∷ s) = let rest = bare_length s in if is_whitespace c then 0 else suc rest

-- How much of the text the value takes.
unfoldable pub consumed : Bytes → ℕ
unfolding quoted_end bare_length
consumed [] = 0
consumed (c ∷ s) =
    if c == b'\''
    then elim (quoted_end false s) [ none ↦ suc (length s) | some j ↦ 1 + j + 1 ]
    else bare_length (c ∷ s)

-- The loop over the keys, character by character; the first argument counts what is still to be skipped.
unfoldable pub mask_values : ℕ → Bytes → Bytes
unfolding starts_key consumed
mask_values skip [] = []
mask_values (suc skip) (c ∷ s) = mask_values skip s
mask_values zero (c ∷ s) = elim (starts_key key (c ∷ s)) [
  | true ↦ take 9 (c ∷ s) ++ (codes "***" ++ mask_values (8 + consumed (drop 8 s)) s)
  | false ↦ c ∷ mask_values zero s
]

abbrev pub mask_either : Bytes → Option (Bytes × Bytes) → Bytes
mask_either dsn (some (scheme, rest)) = mask_host dsn scheme (cut_at b'@' rest)
mask_either dsn none = mask_values 0 dsn

unfoldable pub mask_dsn : Bytes → Bytes
unfolding cut_at cut_scheme mask_values
mask_dsn dsn = mask_either dsn (cut_scheme dsn)

cut_at-append :
    (sep : ℕ) (s t : Bytes) → Lacks sep s → cut_at sep (s ++ sep ∷ t) ≡ some (s, sep ∷ t)
unfolding cut_at
cut_at-append sep [] t h = ground arith
cut_at-append sep (c ∷ s) t h = ground (arith, h.0, cut_at-append sep s t h.1)

-- Whatever the password of a URL is, without an `@` in it, its masked form does not show it: the user and the
-- host, between which it stands, stay. The user has neither a colon nor an `@`.
pub mask_dsn_url :
    (user password host : Bytes)
    → Lacks b':' user
    → Lacks b'@' user
    → Lacks b'@' password
    → mask_dsn (codes "postgresql://" ++ (user ++ b':' ∷ (password ++ b'@' ∷ host)))
      ≡ codes "postgresql://" ++ (user ++ (codes ":***" ++ b'@' ∷ host))
unfolding mask_dsn cut_scheme
mask_dsn_url user password host colon at₁ at₂ =
    let login = user ++ b':' ∷ password in
    let lacks : Lacks b'@' login =
      All-append (λ c. c ≢ b'@') user (b':' ∷ password) at₁ ((λ e. omega arith), at₂) in
    let dsn = codes "postgresql://" ++ (user ++ b':' ∷ (password ++ b'@' ∷ host)) in
    ap (λ rest. mask_host dsn (codes "postgresql://") (cut_at b'@' rest))
      (sym (append_assoc user (b':' ∷ password) (b'@' ∷ host)))
    ∙ ap (mask_host dsn (codes "postgresql://")) (cut_at-append b'@' login host lacks)
    ∙ ap (λ o. mask_user dsn (codes "postgresql://") o (b'@' ∷ host))
        (cut_at-append b':' user password colon)
