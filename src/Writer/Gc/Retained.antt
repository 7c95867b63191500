-- ===== src/Writer/Gc/Retained.antt =====
-- What a pass of the reclaiming leaves in the staging directory.
use mathlib.Core.List.{Perm}
use mathlib.Core.Path.{subst}
use mathlib.Core.List.Perm
use relyt_ingest.Common.{
  ℕ, suc, zero, ◌-◌, ◌≤◌, ◌<◌, ◌≡◌, refl, sym, ◌∙◌, ap, inl, inr, ◌⊎◌, Bool, true, not, Option,
  none, some, List, [], ◌∷◌, ◌++◌, append_assoc, arith, keep_if, take, drop, length, All,
  Bool-cases, ltb, leb, ◌&&◌, All-take, take-append-drop, length-take, length-drop, length-append,
}
use relyt_ingest.Common.Int.{ℤ, ◌≤ℤ◌}
use relyt_ingest.Common.Permuted.{keep-split, keep-lengths}
use relyt_ingest.Common.Text.{Bytes}
use relyt_ingest.Errors.{Result, ok, err, is_ok}
use relyt_ingest.Naming.{StagedFile, serial_seq}
use relyt_ingest.Naming.SerialSeq.{encode_sound}
use relyt_ingest.Recovery.{sort_by_key}
use relyt_ingest.Recovery.Sorting.{IsSorted, sort-IsSorted, sort-perm, KeyLe, All-unsort}
use relyt_ingest.Recovery.Plan.{rank}
use relyt_ingest.Writer.Gc.{
  Retention, GcMeeting, min_age_ms, is_consumed, is_deletable, deletable, delete_until_failure,
  pass_sorted, pass_listed, pass_connected, gc_pass,
}

-- A file that the watermark covers and that is older than the time to retain it.
abbrev pub IsConsumed : Retention → ℤ → ℕ → StagedFile → Type 0
IsConsumed r watermark now_ms f =
    (serial_seq f ≡ ok (rank f)) × (rank f ≤ℤ watermark) × (min_age_ms r < now_ms - f.epoch_ms)

-- The files whose deletion was asked for are consumed ones; the others with the newest stay, and
-- they are at least as many as have to be retained.
pub record IsSafePass (r : Retention) (watermark : ℤ) (now_ms : ℕ) (staged gone : List StagedFile)
    : Type 0 where
  pub others : List StagedFile
  pub newest : StagedFile
  pub split : Perm (gone ++ (others ++ newest ∷ [])) staged
  pub consumed : All (IsConsumed r watermark now_ms) gone
  pub is_newest : All (λ f. KeyLe f newest) staged
  pub floor : r.gc_retain_min_files ≤ length (others ++ newest ∷ [])

-- The deletions asked for are a start of the candidates.
asked :
    (delete_staged : StagedFile → Result (Unit {0})) (fs : List StagedFile)
    → (rest : List StagedFile) × ((delete_until_failure delete_staged fs).0 ++ rest ≡ fs)
unfolding delete_until_failure
asked delete_staged [] = ([], refl)
asked delete_staged (f ∷ fs) = elim (Bool-cases (is_ok (delete_staged f))) [
  | inl e ↦ let (rest, same) = asked delete_staged fs in rw e (rest, ap (λ l. f ∷ l) same)
  | inr e ↦ rw e (fs, refl)
]

deletable-IsConsumed :
    (r : Retention) (w : ℤ) (now_ms : ℕ) (f : StagedFile)
    → is_deletable r w now_ms f ≡ true
    → IsConsumed r w now_ms f
unfolding is_deletable serial_seq
deletable-IsConsumed r w now_ms f h = on (serial_seq f) refl h
  where
    on :
        (coded : Result ℤ)
        → serial_seq f ≡ coded
        → (is_consumed w coded && ltb (min_age_ms r) (now_ms - f.epoch_ms)) ≡ true
        → IsConsumed r w now_ms f
    on (err e) coded h = cc
    on (ok seq) coded h =
        let (he, hs, value) = encode_sound f.epoch_ms f.seq seq coded in
        let below : seq ≤ℤ w = ground arith in (rw value at coded, rw value at below, ground arith)

All-keep :
    (P : StagedFile → Type 0) (p : StagedFile → Bool) (fs : List StagedFile)
    → ((f : StagedFile) → p f ≡ true → P f)
    → All P (keep_if p fs)
All-keep P p [] h = tt
All-keep P p (f ∷ fs) h = elim (Bool-cases (p f)) [
  | inl e ↦ rw e (h f e, All-keep P p fs h)
  | inr e ↦ rw e (All-keep P p fs h)
]

pub All-start : (P : StagedFile → Type 0) (xs ys : List StagedFile) → All P (xs ++ ys) → All P xs
All-start P [] ys h = tt
All-start P (x ∷ xs) ys h = (h.0, All-start P xs ys h.1)

-- The last of a list that is not empty.
pub end_of :
    (n : ℕ) (fs : List StagedFile)
    → length fs ≡ suc n
    → (top : StagedFile) × (fs ≡ take n fs ++ top ∷ [])
end_of n [] h = absurd (omega arith)
end_of zero (f ∷ []) h = (f, refl)
end_of (suc n) (f ∷ []) h = absurd (omega arith)
end_of zero (f ∷ g ∷ fs) h = absurd (omega arith)
end_of (suc n) (f ∷ g ∷ fs) h =
    let (top, same) = end_of n (g ∷ fs) (omega arith) in (top, ap (λ l. f ∷ l) same)

pub All-end : (P : StagedFile → Type 0) (xs ys : List StagedFile) → All P (xs ++ ys) → All P ys
All-end P [] ys h = h
All-end P (x ∷ xs) ys h = All-end P xs ys h.1

pub top-KeyLe :
    (fs : List StagedFile) (top : StagedFile)
    → IsSorted (fs ++ top ∷ [])
    → All (λ f. KeyLe f top) (fs ++ top ∷ [])
top-KeyLe [] top h = (ground arith, tt)
top-KeyLe (f ∷ fs) top h = ((All-end (KeyLe f) fs (top ∷ []) h.0).0, top-KeyLe fs top h.1)

module _ (r : Retention) (m : GcMeeting) (w : ℤ) (staged : List StagedFile) where
  abbrev candidates : List StagedFile → List StagedFile
  candidates sorted = take (length sorted - 1) sorted

  abbrev dropped : List StagedFile → List StagedFile
  dropped sorted =
      drop (length sorted - r.gc_retain_min_files)
        (keep_if (is_deletable r w m.now_ms) (candidates sorted))

  abbrev unfit : List StagedFile → List StagedFile
  unfit sorted = keep_if (λ f. not (is_deletable r w m.now_ms f)) (candidates sorted)

  regroup :
      (sorted gone rest : List StagedFile) (top : StagedFile)
      → gone ++ rest ≡ deletable r w m.now_ms sorted
      → sorted ≡ candidates sorted ++ top ∷ []
      → Perm (gone ++ ((rest ++ (dropped sorted ++ unfit sorted)) ++ top ∷ [])) sorted
  unfolding deletable
  regroup sorted gone rest top start ends =
      let all = keep_if (is_deletable r w m.now_ms) (candidates sorted) in
      let budget = length sorted - r.gc_retain_min_files in
      let moved : gone ++ ((rest ++ (dropped sorted ++ unfit sorted)) ++ top ∷ [])
          ≡ (((gone ++ rest) ++ dropped sorted) ++ unfit sorted) ++ top ∷ [] =
        simp append_assoc in
      let whole : (gone ++ rest) ++ dropped sorted ≡ all =
        ap (λ l. l ++ dropped sorted) start ∙ take-append-drop budget all in
      let same : gone ++ ((rest ++ (dropped sorted ++ unfit sorted)) ++ top ∷ [])
          ≡ (all ++ unfit sorted) ++ top ∷ [] =
        moved ∙ ap (λ l. (l ++ unfit sorted) ++ top ∷ []) whole in
      let joined : Perm ((all ++ unfit sorted) ++ top ∷ []) (candidates sorted ++ top ∷ []) =
        Perm.append_right (top ∷ []) (keep-split (is_deletable r w m.now_ms) (candidates sorted)) in
      subst (λ l. Perm l sorted) (sym same)
        (subst (λ l. Perm ((all ++ unfit sorted) ++ top ∷ []) l) (sym ends) joined)

  kept_enough :
      (sorted gone rest : List StagedFile) (top : StagedFile)
      → gone ++ rest ≡ deletable r w m.now_ms sorted
      → sorted ≡ candidates sorted ++ top ∷ []
      → r.gc_retain_min_files < length sorted
      → r.gc_retain_min_files ≤ length ((rest ++ (dropped sorted ++ unfit sorted)) ++ top ∷ [])
  unfolding deletable
  kept_enough sorted gone rest top start ends many =
      let all = keep_if (is_deletable r w m.now_ms) (candidates sorted) in
      let budget = length sorted - r.gc_retain_min_files in
      omega (
        arith,
        length-append (rest ++ (dropped sorted ++ unfit sorted)) (top ∷ []),
        length-append rest (dropped sorted ++ unfit sorted),
        length-append (dropped sorted) (unfit sorted),
        keep-lengths (is_deletable r w m.now_ms) (candidates sorted),
        ap length start,
        length-append gone rest,
        length-take budget all,
        length-drop budget all,
        ap length ends,
        length-append (candidates sorted) (top ∷ []),
      )

  deletable-AllConsumed :
      (sorted : List StagedFile) → All (IsConsumed r w m.now_ms) (deletable r w m.now_ms sorted)
  unfolding deletable
  deletable-AllConsumed sorted = All-take _ _ _ (
      All-keep _ (is_deletable r w m.now_ms) (candidates sorted)
        (λ f h. deletable-IsConsumed r w m.now_ms f h))

  listed-IsSafePass :
      r.gc_retain_min_files < length (sort_by_key staged)
      → IsSafePass r w m.now_ms staged
          (delete_until_failure m.delete_staged (deletable r w m.now_ms (sort_by_key staged))).0
  listed-IsSafePass many =
      let sorted = sort_by_key staged in
      let (top, ends) = end_of (length sorted - 1) sorted (omega arith) in
      let (rest, start) = asked m.delete_staged (deletable r w m.now_ms sorted) in
      let gone = (delete_until_failure m.delete_staged (deletable r w m.now_ms sorted)).0 in
      let fit : All (IsConsumed r w m.now_ms) (deletable r w m.now_ms sorted) =
        deletable-AllConsumed sorted in
      record {
        others = rest ++ (dropped sorted ++ unfit sorted);
        newest = top;
        split = Perm.trans (regroup sorted gone rest top start ends) (sort-perm staged);
        consumed = All-start _ gone rest (subst (All (IsConsumed r w m.now_ms)) (sym start) fit);
        is_newest = All-unsort _ staged (
            subst (All (λ f. KeyLe f top)) (sym ends)
              (top-KeyLe (candidates sorted) top (subst IsSorted ends (sort-IsSorted staged))));
        floor = kept_enough sorted gone rest top start ends many;
      }

-- Deletions are asked for only on a watermark and a listing, and then only safe ones.
abbrev pub IsWarranted : Retention → GcMeeting → List StagedFile → Type 0
IsWarranted r m gone =
    (gone ≡ [])
    ⊎ ((w : ℤ) × (staged : List StagedFile) × (unknown : List Bytes) × (m.watermark ≡ ok (some w))
        × (m.listing ≡ ok (staged, unknown))
        × IsSafePass r w m.now_ms staged gone)

sorted-IsSafePass :
    (r : Retention) (m : GcMeeting) (w : ℤ) (staged : List StagedFile)
    → ((pass_sorted r m w (sort_by_key staged)).0 ≡ [])
      ⊎ IsSafePass r w m.now_ms staged (pass_sorted r m w (sort_by_key staged)).0
unfolding pass_sorted
sorted-IsSafePass r m w staged =
    elim (Bool-cases (leb (length (sort_by_key staged)) r.gc_retain_min_files)) [
      | inl e ↦ rw e (inl refl)
      | inr e ↦ rw e (inr (listed-IsSafePass r m w staged (ground arith)))
    ]

-- Where a pass asks for any deletion at all, the server gave a watermark and the listing arrived;
-- the files that it asks to delete are consumed ones that are old enough, at least
-- `gc_retain_min_files` files stay, and the newest of the listing is one of them. This holds wherever
-- a deletion fails.
pub gc_pass-IsSafePass : (r : Retention) (m : GcMeeting) → IsWarranted r m (gc_pass r m).0
unfolding gc_pass pass_connected pass_listed
gc_pass-IsSafePass r m = elim (Bool-cases (is_ok m.connected)) [
  | inr e ↦ rw e (inl refl)
  | inl e ↦ rw e (on m.watermark refl)
]
  where
    listed :
        (w : ℤ) (got : Result (List StagedFile × List Bytes))
        → m.listing ≡ got
        → m.watermark ≡ ok (some w)
        → IsWarranted r m (pass_listed r m w got).0
    listed w (err e) same known = inl refl
    listed w (ok (staged, unknown)) same known = elim (sorted-IsSafePass r m w staged) [
      | inl none_gone ↦ inl none_gone
      | inr safe ↦ inr (w, staged, unknown, known, same, safe)
    ]

    on :
        (answer : Result (Option ℤ))
        → m.watermark ≡ answer
        → IsWarranted r m (pass_connected r m answer).0
    on (err e) same = inl refl
    on (ok none) same = inl refl
    on (ok (some w)) same = listed w m.listing refl same
