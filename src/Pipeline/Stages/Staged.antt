-- ===== src/Pipeline/Stages/Staged.antt =====
-- What the render and gzip stages hand to the put stage.
use mathlib.Core.Path.{subst}
use relyt_ingest.Common.{
  ℕ, ◌≡◌, refl, sym, ap, ◌∙◌, true, false, some, List, [], ◌∷◌, Bool-cases, inl, inr, ◌⊎◌, map,
  Option, Bool, if◌then◌else◌,
}
use relyt_ingest.Common.Text.{Bytes}
use relyt_ingest.Arrow.{Batch}
use relyt_ingest.Errors.{Result, ok, err, >>=-eq-ok}
use relyt_ingest.Writer.{Sealed}
use relyt_ingest.Stopping.{Shared}
use relyt_ingest.Pipeline.{StageTask, Verdict, done, ended, unfinished, attempts}
use relyt_ingest.Pipeline.Stages.{
  Handing, Renderer, Rendered, Compressed, render_once, render_file, rendered, render_stage,
  gzip_once, gzip_file, gzipped, gzip_stage, handed, packed, with_answer, key_columns,
}
use relyt_ingest.Pipeline.Stages.Prefix.{Matches, stage_run-Matches, worked-answered}

abbrev IsRendered : {F Avg : Type 0} → Renderer F Avg → Sealed (Batch F) → Rendered → Type 0
IsRendered r sealed o =
    (o.meta ≡ sealed.meta) × (render_once r sealed.batches (ok tt) ≡ ok (o.body, o.rows))

module _ {F Avg : Type 0} (r : Renderer F Avg) (after : ℕ) where
  joined_ok :
      (batches : List (Batch F)) (joined : Result (Unit {0})) (out : Bytes × ℕ)
      → render_once r batches joined ≡ ok out
      → render_once r batches (ok tt) ≡ ok out
  unfolding render_once
  joined_ok batches (ok u) out h = h
  joined_ok batches (err e) out h = let (pk, on, bad) = >>=-eq-ok (key_columns r) _ h in cc

  render_file-IsRendered :
      (sealed : Sealed (Batch F)) (h : Handing (Unit {0})) (s : Shared × Option Avg) (o : Rendered)
      → (render_file r after sealed h s).1 ≡ some o
      → IsRendered r sealed o
  unfolding render_file
  render_file-IsRendered sealed h (s, avg) o got =
      on
        (attempts task sealed.meta.seq_no 0
          (map (with_answer true (render_once r sealed.batches)) h.tries) s)
        (λ out.
          worked-answered task sealed.meta.seq_no true (render_once r sealed.batches)
            (λ u. render_once r sealed.batches (ok tt) ≡ ok u) h.tries s out
            (λ joined u. joined_ok sealed.batches joined u))
        got
    where
      task : StageTask
      task = record { after = after; name = "render" }

      on :
          (ran : Shared × Verdict (Bytes × ℕ))
          → ((out : Bytes × ℕ) → ran.1 ≡ done out → render_once r sealed.batches (ok tt) ≡ ok out)
          → (rendered r after sealed.meta h avg ran).1 ≡ some o
          → IsRendered r sealed o
      on (s', done (body, rows)) made got =
          unfold rendered in
          elim (Bool-cases h.is_taken) [
            | inl e ↦
                let same = rw e at got in
                let out : Rendered = record { meta = sealed.meta; body = body; rows = rows } in
                let this : out ≡ o = cc in
                subst (IsRendered r sealed) this (refl, made (body, rows) refl)
            | inr e ↦ let same = rw e at got in cc
          ]
      on (s', ended) made got = cc
      on (s', unfinished) made got = cc

-- A payload is what the compressor makes of the text, or the text itself.
abbrev pub IsPayload : (Bytes → Result Bytes) → Bool → Bytes → Bytes → Type 0
IsPayload gzip is_gzip body payload =
    ((is_gzip ≡ true) × (gzip body ≡ ok payload)) ⊎ ((is_gzip ≡ false) × (payload ≡ body))

abbrev IsPacked : (Bytes → Result Bytes) → Rendered → Compressed → Type 0
IsPacked gzip r c =
    (c.meta ≡ r.meta) × (c.rows ≡ r.rows) × IsPayload gzip r.meta.file.compressed r.body c.payload

module _ (gzip : Bytes → Result Bytes) (after : ℕ) where
  handed-packed :
      (r : Rendered) (is_taken : Bool) (payload : Bytes) (c : Compressed)
      → IsPayload gzip r.meta.file.compressed r.body payload
      → handed is_taken (packed r payload) ≡ some c
      → IsPacked gzip r c
  handed-packed r true payload c good got =
      let this : packed r payload ≡ c = cc in subst (IsPacked gzip r) this (refl, refl, good)
  handed-packed r false payload c good got = cc

  gzip_once_ok :
      (body : Bytes) (joined : Result (Unit {0})) (u : Bytes)
      → gzip_once gzip body joined ≡ ok u
      → gzip body ≡ ok u
  gzip_once_ok body (ok v) u h = h
  gzip_once_ok body (err e) u h = cc

  gzip_file-IsPacked :
      (r : Rendered) (h : Handing (Unit {0})) (s : Shared) (c : Compressed)
      → (gzip_file gzip after r h s).1 ≡ some c
      → IsPacked gzip r c
  unfolding gzip_file
  gzip_file-IsPacked r h s c got = by_kind r.meta.file.compressed refl got
    where
      task : StageTask
      task = record { after = after; name = "gzip" }

      on :
          r.meta.file.compressed ≡ true
          → (ran : Shared × Verdict Bytes) → ((u : Bytes) → ran.1 ≡ done u → gzip r.body ≡ ok u)
          → (gzipped gzip after r h.is_taken ran).1 ≡ some c
          → IsPacked gzip r c
      on zipped (s', done payload) made sent =
          unfold gzipped in
          handed-packed r h.is_taken payload c (inl (zipped, made payload refl)) sent
      on zipped (s', ended) made sent = cc
      on zipped (s', unfinished) made sent = cc

      by_kind :
          (is_gzip : Bool)
          → r.meta.file.compressed ≡ is_gzip
          → (if is_gzip
              then gzipped gzip after r h.is_taken (
                  attempts task r.meta.seq_no 0
                    (map (with_answer false (gzip_once gzip r.body)) h.tries)
                    s)
              else (s, handed h.is_taken (packed r r.body))).1
            ≡ some c
          → IsPacked gzip r c
      by_kind false plain sent = handed-packed r h.is_taken r.body c (inr (plain, refl)) sent
      by_kind true zipped sent =
          on zipped
            (attempts task r.meta.seq_no 0 (map (with_answer false (gzip_once gzip r.body)) h.tries)
              s)
            (λ u.
              worked-answered task r.meta.seq_no false (gzip_once gzip r.body)
                (λ v. gzip r.body ≡ ok v) h.tries s u (λ joined v. gzip_once_ok r.body joined v))
            sent

Matches-trans :
    {X Y Z : Type 0} (P : X → Y → Type 0) (Q : Y → Z → Type 0) (R : X → Z → Type 0)
    → ((x : X) (y : Y) (z : Z) → P x y → Q y z → R x z)
    → (xs : List X) (ys : List Y) (zs : List Z) → Matches P xs ys
    → Matches Q ys zs
    → Matches R xs zs
Matches-trans P Q R join xs ys [] p q = tt
Matches-trans P Q R join xs [] (z ∷ zs) p q = absurd q
Matches-trans P Q R join [] (y ∷ ys) (z ∷ zs) p q = absurd p
Matches-trans P Q R join (x ∷ xs) (y ∷ ys) (z ∷ zs) p q =
    (join x y z p.0 q.0, Matches-trans P Q R join xs ys zs p.1 q.1)

-- What the put stage receives for a sealed file: its name and numbers, and its rendered rows.
abbrev pub IsStaged :
    {F Avg : Type 0}
    → Renderer F Avg
    → (Bytes → Result Bytes)
    → Sealed (Batch F)
    → Compressed
    → Type 0
IsStaged r gzip sealed c =
    (c.meta ≡ sealed.meta)
    × ((body : Bytes) × (render_once r sealed.batches (ok tt) ≡ ok (body, c.rows))
        × IsPayload gzip sealed.meta.file.compressed body c.payload)

-- Whatever the render and gzip stages meet, and however often their attempts fail, what reaches the
-- put stage are the first of the sealed files, one for one and in their order, none skipped or
-- doubled; each with the name and numbers it was sealed with, with the text that rendering its
-- batches gives, compressed where the file is, and with the number of rows of that text.
pub received_files :
    {F Avg : Type 0} (r : Renderer F Avg) (gzip : Bytes → Result Bytes) (after : ℕ)
    (files : List (Sealed (Batch F))) (at_render at_gzip : List (Handing (Unit {0})))
    (s s' : Shared) (avg : Option Avg)
    → Matches
        (IsStaged r gzip)
        files
        (gzip_stage gzip after (render_stage r after files at_render (s, avg)).1 at_gzip s').1
unfolding render_stage gzip_stage
received_files {F} r gzip after files at_render at_gzip s s' avg =
    let bodies = (render_stage r after files at_render (s, avg)).1 in
    Matches-trans (IsRendered r) (IsPacked gzip) (IsStaged r gzip) join files bodies
      (gzip_stage gzip after bodies at_gzip s').1
      (stage_run-Matches (render_file r after) (IsRendered r) (render_file-IsRendered r after) files
        at_render (s, avg))
      (stage_run-Matches (gzip_file gzip after) (IsPacked gzip) (gzip_file-IsPacked gzip after)
        bodies at_gzip s')
  where
    join :
        (f : Sealed (Batch F)) (o : Rendered) (c : Compressed)
        → IsRendered r f o
        → IsPacked gzip o c
        → IsStaged r gzip f c
    join f o c (same, made) (kept, rows, payload) = (
      kept ∙ same,
      (
        o.body,
        made ∙ ap (λ n. ok (o.body, n)) (sym rows),
        subst (λ m. IsPayload gzip m.file.compressed o.body c.payload) same payload,
      ),
    )
