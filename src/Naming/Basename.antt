-- ===== src/Naming/Basename.antt =====
-- Lemmas on `object_key` and `parse_basename`.
use relyt_ingest.Common.{
  ℕ, ◌≤◌, ◌≡◌, refl, sym, ap, ◌∙◌, ◌≢◌, Bool, true, false, none, some, [], ◌∷◌, ◌++◌, arith, All,
  last, inl, inr, Option-cases, List, Option,
}
use relyt_ingest.Common.Int.{ℤ, pos, negsuc, max_i64}
use relyt_ingest.Common.Text.{Bytes, Lacks, codes, strip_prefix, strip_suffix, split}
use relyt_ingest.Common.Text.Split.{split-append, split-Lacks, split_last}
use relyt_ingest.Common.Text.Affix.{strip_suffix-append, strip_suffix_sound, last-append}
use relyt_ingest.Common.Decimal.{
  display, display_i64, pad, parse_uint, parse_i64, max_u64, max_u32, IsDigit,
}
use relyt_ingest.Common.Decimal.RoundTrip.{
  display-IsDigit, pad-IsDigit, parse_uint-pad, parse_i64-display_i64,
}
use relyt_ingest.Common.Decimal.Bounds.{parse_uint_bound, parse_i64_bound}
use relyt_ingest.Naming.{
  StagedFile, epoch_pad, seq_pad, stem, ext, basename, ◌&>◌, parse_parts, parse_stem,
  parse_basename,
}

-- A Kafka offset that `append` accepts.
abbrev pub IsOffset : ℤ → Type 0
IsOffset (pos n) = n ≤ max_i64
IsOffset (negsuc n) = ⊥

-- The fields are of their types, and no offset is negative.
pub record IsNameable (f : StagedFile) : Type 0 where
  pub epoch_fits : f.epoch_ms ≤ max_u64
  pub seq_fits : f.seq ≤ max_u32
  pub start_fits : IsOffset f.start_offset
  pub end_fits : IsOffset f.end_offset

digits-Lacks : (sep : ℕ) (s : Bytes) → (IsDigit sep → ⊥) → All IsDigit s → Lacks sep s
digits-Lacks sep [] out h = tt
digits-Lacks sep (c ∷ s) out h = ((λ e. out (rw e at h.0)), digits-Lacks sep s out h.1)

pub display-Lacks : (sep n : ℕ) → (IsDigit sep → ⊥) → Lacks sep (display n)
display-Lacks sep n out = digits-Lacks sep (display n) out (display-IsDigit n)

offset-Lacks : (z : ℤ) → IsOffset z → Lacks b'-' (display_i64 z)
unfolding display_i64
offset-Lacks (pos n) h = display-Lacks b'-' n (λ d. omega arith)
offset-Lacks (negsuc n) h = absurd h

parse_i64_offset : (z : ℤ) → IsOffset z → parse_i64 (display_i64 z) ≡ some z
parse_i64_offset (pos n) h = parse_i64-display_i64 n h
parse_i64_offset (negsuc n) h = absurd h

split-stem :
    (f : StagedFile)
    → IsNameable f
    → split b'-' (stem f)
      ≡ pad epoch_pad (display f.epoch_ms)
        ∷ pad seq_pad (display f.seq)
        ∷ (b'o' ∷ display_i64 f.start_offset)
        ∷ display_i64 f.end_offset
        ∷ []
unfolding stem
split-stem f v = rw (
  split-append b'-' (pad epoch_pad (display f.epoch_ms)) _ (padded epoch_pad f.epoch_ms),
  split-append b'-' (pad seq_pad (display f.seq)) _ (padded seq_pad f.seq),
  split-append b'-' (b'o' ∷ display_i64 f.start_offset) _
      ((λ e. omega arith), offset-Lacks f.start_offset v.start_fits),
  split_last b'-' (display_i64 f.end_offset) (offset-Lacks f.end_offset v.end_fits),
)
  where
    padded : (w n : ℕ) → Lacks b'-' (pad w (display n))
    padded w n = digits-Lacks b'-' _ (λ d. omega arith) (pad-IsDigit w n)

parse_parts-stem :
    (f : StagedFile) (c : Bool)
    → IsNameable f
    → parse_parts (split b'-' (stem f)) c ≡ some (record f { compressed = c })
unfolding parse_parts strip_prefix
parse_parts-stem f c v = rw (
  split-stem f v,
  parse_uint-pad max_u64 epoch_pad f.epoch_ms v.epoch_fits,
  parse_uint-pad max_u32 seq_pad f.seq v.seq_fits,
  parse_i64_offset f.start_offset v.start_fits,
  parse_i64_offset f.end_offset v.end_fits,
)

ends-differ : (s t : Bytes) → s ++ codes ".csv" ≢ t ++ codes ".csv.gz"
ends-differ s t e =
    let same : ◌≡◌ {A = Option ℕ} (some b'v') (some b'z') =
      sym (last-append s b'.' (codes "csv")) ∙ ap last e ∙ last-append t b'.' (codes "csv.gz") in
    ground arith

not_gzip : (s : Bytes) → strip_suffix (codes ".csv.gz") (s ++ codes ".csv") ≡ none
not_gzip s = elim (Option-cases (strip_suffix (codes ".csv.gz") (s ++ codes ".csv"))) [
  | inl e ↦ e
  | inr (t, e) ↦ absurd (ends-differ s t (strip_suffix_sound _ _ t e))
]

parse_named : (s : Bytes) (c : Bool) → parse_basename (s ++ ext c) ≡ parse_parts (split b'-' s) c
unfolding parse_basename
parse_named s true = rw (strip_suffix-append (codes ".csv.gz") s (cc))
parse_named s false = rw (not_gzip s, strip_suffix-append (codes ".csv") s (cc))

-- A staged file whose fields are in range and whose offsets are not negative is read back from its
-- basename, compressed or not.
pub parse_basename-basename : (f : StagedFile) → IsNameable f → parse_basename (basename f) ≡ some f
unfolding basename
parse_basename-basename f v = parse_named (stem f) f.compressed ∙ parse_parts-stem f f.compressed v

&>-eq-some :
    {A B : Type 0} (m : Option A) (g : A → Option B) {b : B}
    → (m &> g) ≡ some b
    → (a : A) × (m ≡ some a) × (g a ≡ some b)
&>-eq-some none g h = cc
&>-eq-some (some a) g h = (a, refl, h)

strip_prefix-Lacks :
    (sep : ℕ) (s t : Bytes) → Lacks sep s → strip_prefix (b'o' ∷ []) s ≡ some t → Lacks sep t
unfolding strip_prefix
strip_prefix-Lacks sep [] t lacks h = ground arith
strip_prefix-Lacks sep (c ∷ s) t lacks h =
    let e : (c ≡ b'o') × (s ≡ t) = ground arith in rw (← e.1) lacks.1

IsOffset-parsed : (s : Bytes) (z : ℤ) → Lacks b'-' s → parse_i64 s ≡ some z → IsOffset z
IsOffset-parsed s z lacks h = let (n, e, fits) = parse_i64_bound s z lacks h in rw e fits

parse_parts_sound :
    (ps : List Bytes) (c : Bool) (f : StagedFile)
    → All (Lacks b'-') ps
    → parse_parts ps c ≡ some f
    → IsNameable f
unfolding parse_parts
parse_parts_sound (e ∷ s ∷ start ∷ end ∷ []) c f lacks h =
    let (epoch, epoch_read, h₁) = &>-eq-some (parse_uint max_u64 e) _ h in
    let (seq, seq_read, h₂) = &>-eq-some (parse_uint max_u32 s) _ h₁ in
    let (offset, start_cut, h₃) = &>-eq-some (strip_prefix (b'o' ∷ []) start) _ h₂ in
    let (from, from_read, h₄) = &>-eq-some (parse_i64 offset) _ h₃ in
    let (to, to_read, h₅) = &>-eq-some (parse_i64 end) _ h₄ in
    let built : f ≡ record {
      epoch_ms = epoch;
      seq = seq;
      start_offset = from;
      end_offset = to;
      compressed = c;
    } =
      ground (arith, h₅) in
    rw built (record {
      epoch_fits = parse_uint_bound e max_u64 epoch epoch_read;
      seq_fits = parse_uint_bound s max_u32 seq seq_read;
      start_fits =
          IsOffset-parsed offset from (strip_prefix-Lacks b'-' start offset lacks.1.1.0 start_cut)
            from_read;
      end_fits = IsOffset-parsed end to lacks.1.1.1.0 to_read;
    })
parse_parts_sound _ c f lacks h = cc

parse_stem_sound :
    (gzip plain : Option Bytes) (f : StagedFile) → parse_stem gzip plain ≡ some f → IsNameable f
unfolding parse_stem
parse_stem_sound (some s) plain f h = parse_parts_sound _ true f (split-Lacks b'-' s) h
parse_stem_sound none (some s) f h = parse_parts_sound _ false f (split-Lacks b'-' s) h
parse_stem_sound none none f h = cc

-- Whatever `parse_basename` accepts is in range, and has no negative offset.
pub parse_basename_sound :
    (name : Bytes) (f : StagedFile) → parse_basename name ≡ some f → IsNameable f
unfolding parse_basename
parse_basename_sound name f h = parse_stem_sound _ _ f h
