-- ===== src/Writer/Gc/Recovered.antt =====
-- A recovery after a pass of the reclaiming against one before it.
use mathlib.Core.Path.{subst, ap₂}
use native.Mathlib.Bridge.{le_prop}
use mathlib.Core.List.{Perm}
use mathlib.Core.List.Perm
use relyt_ingest.Common.{
  ℕ, ◌≡◌, refl, sym, ◌∙◌, ap, inl, inr, ◌⊎◌, Bool, true, false, some, List, [], ◌∷◌, ◌++◌,
  append_assoc, arith, keep_if, All, Bool-cases, last, length, All-imply, take,
}
use relyt_ingest.Common.Int.{ℤ, ◌≤ℤ◌}
use relyt_ingest.Common.Permuted.{keep-perm, All-perm}
use relyt_ingest.Common.Text.{Bytes}
use relyt_ingest.Errors.{ok}
use relyt_ingest.Naming.{StagedFile}
use relyt_ingest.Naming.KeyOrder.{IsEncodable}
use relyt_ingest.Recovery.{RecoveryPlan, plan_recovery, sort_by_key, key_leb, key_of}
use relyt_ingest.Recovery.Sorting.{
  IsSorted, sort-IsSorted, KeyLe, All-unsort, All-sort, insert_some, sort-perm,
}
use relyt_ingest.Recovery.Plan.{is_owed, plan_inversion, plan_recovery_backfill}
use relyt_ingest.Writer.Gc.{Retention, GcMeeting, gc_pass}
use relyt_ingest.Writer.Gc.Retained.{
  IsConsumed, gc_pass-IsSafePass, end_of, top-KeyLe, All-end, IsWarranted, All-start,
}

abbrev IsBelow : StagedFile → StagedFile → Type 0
IsBelow top f = key_leb f top ≡ true

KeyLe-IsBelow : (top f : StagedFile) → KeyLe f top → IsBelow top f
KeyLe-IsBelow top f h = ground arith

All-IsBelow :
    (top : StagedFile) (fs : List StagedFile) → All (λ f. KeyLe f top) fs → All (IsBelow top) fs
All-IsBelow top fs = All-imply _ _ fs (KeyLe-IsBelow top)

IsBelow-prop : (top f : StagedFile) → IsProp (IsBelow top f)
IsBelow-prop top f = hlevel

IsEncodable-prop : (f : StagedFile) → IsProp (IsEncodable f)
IsEncodable-prop f = hlevel le_prop

same_key :
    (f g : StagedFile) → IsBelow g f → IsBelow f g → (f.epoch_ms ≡ g.epoch_ms) × (f.seq ≡ g.seq)
same_key f g a b = ground arith

last_snoc : (fs : List StagedFile) (top : StagedFile) → last (fs ++ top ∷ []) ≡ some top
last_snoc [] top = refl
last_snoc (f ∷ []) top = refl
last_snoc (f ∷ g ∷ fs) top = last_snoc (g ∷ fs) top

newest_of :
    (fs others : List StagedFile) (top : StagedFile)
    → sort_by_key fs ≡ others ++ top ∷ []
    → All (λ f. KeyLe f top) fs
newest_of fs others top whole = All-unsort _ fs (
    subst (All (λ f. KeyLe f top)) (sym whole)
      (top-KeyLe others top (subst IsSorted whole (sort-IsSorted fs))))

-- The highest pair is that of any file of the listing that no other is above.
highest :
    (xs fs : List StagedFile) (top : StagedFile)
    → Perm (xs ++ top ∷ []) fs
    → All (IsBelow top) fs
    → key_of (last (sort_by_key fs)) ≡ some (top.epoch_ms, top.seq)
highest xs fs top split below = on (sort_by_key fs) refl
  where
    on :
        (sorted : List StagedFile)
        → sort_by_key fs ≡ sorted
        → key_of (last sorted) ≡ some (top.epoch_ms, top.seq)
    on [] same = absurd (empty fs same split)
      where
        unsorted : (fs : List StagedFile) → sort_by_key fs ≡ [] → fs ≡ []
        unsorted [] e = refl
        unsorted (f ∷ fs) e = absurd (unfold sort_by_key in insert_some f (sort_by_key fs) e)

        some_left : (xs : List StagedFile) → xs ++ top ∷ [] ≡ [] → ⊥
        some_left [] e = cc
        some_left (x ∷ xs) e = cc

        empty : (fs : List StagedFile) → sort_by_key fs ≡ [] → Perm (xs ++ top ∷ []) fs → ⊥
        empty fs e h =
            some_left xs (Perm.eq-nil (subst (λ l. Perm (xs ++ top ∷ []) l) (unsorted fs e) h))
    on (f ∷ gs) same =
        let (t, ends) = end_of (length gs) (f ∷ gs) refl in
        let whole = same ∙ ends in
        let under : All (λ g. KeyLe g t) fs = newest_of fs (take (length gs) (f ∷ gs)) t whole in
        let above : All (IsBelow t) (xs ++ top ∷ []) =
          All-perm (IsBelow t) (IsBelow-prop t) (Perm.symm split) (All-IsBelow t fs under) in
        let over : All (IsBelow top) (take (length gs) (f ∷ gs) ++ t ∷ []) =
          subst (All (IsBelow top)) whole (All-sort (IsBelow top) fs below) in
        let (e, q) =
          same_key t top (All-end (IsBelow top) (take (length gs) (f ∷ gs)) (t ∷ []) over).0
            (All-end (IsBelow t) xs (top ∷ []) above).0 in
        ap (λ l. key_of (last l)) ends
        ∙ ap key_of (last_snoc (take (length gs) (f ∷ gs)) t)
        ∙ ap (λ k. some k) (ap₂ (λ a b. (a, b)) e q)

keep_if-append :
    (p : StagedFile → Bool) (xs ys : List StagedFile)
    → keep_if p (xs ++ ys) ≡ keep_if p xs ++ keep_if p ys
keep_if-append p [] ys = refl
keep_if-append p (x ∷ xs) ys = elim (Bool-cases (p x)) [
  | inl e ↦ rw e (ap (λ l. x ∷ l) (keep_if-append p xs ys))
  | inr e ↦ rw e (keep_if-append p xs ys)
]

-- A consumed file is owed under no later watermark.
consumed-not-owed :
    (r : Retention) (w w' : ℤ) (now_ms : ℕ) (fs : List StagedFile)
    → w ≤ℤ w'
    → All (IsConsumed r w now_ms) fs
    → keep_if (is_owed (some w')) fs ≡ []
consumed-not-owed r w w' now_ms [] le h = refl
consumed-not-owed r w w' now_ms (f ∷ fs) le h =
    let paid : is_owed (some w') f ≡ false = ground (arith, h.0.1) in
    rw paid (consumed-not-owed r w w' now_ms fs le h.1)

cancel : (xs ys zs : List StagedFile) → Perm (xs ++ ys) (xs ++ zs) → Perm ys zs
cancel [] ys zs h = h
cancel (x ∷ xs) ys zs h = cancel xs ys zs (Perm.cons_inv h)

start_nil : (xs ys : List StagedFile) → xs ++ ys ≡ [] → xs ≡ []
start_nil [] ys e = refl
start_nil (x ∷ xs) ys e = cc

-- The newest of a listing.
top_of :
    (fs : List StagedFile)
    → (fs ≡ [])
      ⊎ ((others : List StagedFile) × (top : StagedFile) × Perm (others ++ top ∷ []) fs
          × All (λ f. KeyLe f top) fs)
top_of fs = on (sort_by_key fs) refl
  where
    on :
        (sorted : List StagedFile)
        → sort_by_key fs ≡ sorted
        → (fs ≡ [])
          ⊎ ((others : List StagedFile) × (top : StagedFile) × Perm (others ++ top ∷ []) fs
              × All (λ f. KeyLe f top) fs)
    on [] same = inl (sym (Perm.nil-eq (subst (λ l. Perm l fs) same (sort-perm fs))))
    on (f ∷ gs) same =
        let (t, ends) = end_of (length gs) (f ∷ gs) refl in
        let whole = same ∙ ends in
        inr (
          take (length gs) (f ∷ gs),
          t,
          subst (λ l. Perm l fs) whole (sort-perm fs),
          newest_of fs (take (length gs) (f ∷ gs)) t whole,
        )

-- The listings with and without the deleted files have the same highest pair.
same_highest :
    (staged deleted left others : List StagedFile) (top : StagedFile)
    → Perm (deleted ++ left) staged
    → Perm (deleted ++ (others ++ top ∷ [])) staged
    → All (λ f. KeyLe f top) staged
    → key_of (last (sort_by_key left)) ≡ key_of (last (sort_by_key staged))
same_highest staged deleted left others top split whole newest =
    let under : All (IsBelow top) staged = All-IsBelow top staged newest in
    let under_left : All (IsBelow top) left =
      All-end (IsBelow top) deleted left
        (All-perm (IsBelow top) (IsBelow-prop top) (Perm.symm split) under) in
    let here : Perm (others ++ top ∷ []) left =
      cancel deleted (others ++ top ∷ []) left (Perm.trans whole (Perm.symm split)) in
    highest others left top here under_left
    ∙ sym (
        highest (deleted ++ others) staged top
          (subst (λ l. Perm l staged) (sym (append_assoc deleted others (top ∷ []))) whole) under)

relisted :
    (staged left : List StagedFile)
    → Perm left staged
    → key_of (last (sort_by_key left)) ≡ key_of (last (sort_by_key staged))
relisted staged left split = elim (top_of staged) [
  | inl none_staged ↦
      let none_left : left ≡ [] = Perm.eq-nil (subst (Perm left) none_staged split) in
      ap (λ l. key_of (last (sort_by_key l))) (none_left ∙ sym none_staged)
  | inr (others, top, whole, newest) ↦ same_highest staged [] left others top split whole newest
]

-- Two listings that differ by consumed files owe the same.
same_owed :
    (staged deleted left : List StagedFile) (w : ℤ)
    → Perm (deleted ++ left) staged
    → keep_if (is_owed (some w)) deleted ≡ []
    → Perm (keep_if (is_owed (some w)) left) (keep_if (is_owed (some w)) staged)
same_owed staged deleted left w split paid =
    subst (λ l. Perm l (keep_if (is_owed (some w)) staged))
      (keep_if-append (is_owed (some w)) deleted left
        ∙ ap (λ l. l ++ keep_if (is_owed (some w)) left) paid)
      (keep-perm (is_owed (some w)) split)

replanned :
    (staged deleted left : List StagedFile) (w : ℤ) (plan : RecoveryPlan)
    → Perm (deleted ++ left) staged
    → keep_if (is_owed (some w)) deleted ≡ []
    → (key_of (last (sort_by_key left)) ≡ key_of (last (sort_by_key staged)))
    → (plan_recovery staged (some w)).1 ≡ ok plan
    → (after : RecoveryPlan) × ((plan_recovery left (some w)).1 ≡ ok after)
      × Perm after.backfill plan.backfill
      × (after.max_staged ≡ plan.max_staged)
replanned staged deleted left w plan split paid top planned =
    let (enc, owed, sorted) = (plan_recovery_backfill staged (some w)).1 plan planned in
    let enc_left =
      All-end IsEncodable deleted left
        (All-perm IsEncodable IsEncodable-prop (Perm.symm split) enc) in
    let (after, planned') = (plan_recovery_backfill left (some w)).0 enc_left in
    let (enc', owed', sorted') = (plan_recovery_backfill left (some w)).1 after planned' in
    (
      after,
      planned',
      Perm.trans owed' (Perm.trans (same_owed staged deleted left w split paid) (Perm.symm owed)),
      (plan_inversion left (some w) after planned').2
          ∙ top
          ∙ sym (plan_inversion staged (some w) plan planned).2,
    )

-- After any part of a pass (`deleted`, where it was cut off or a deletion failed before `kept`), the
-- plan of a recovery from any listing of what is left, under the watermark of the pass or a later
-- one, exists where the plan before the pass does; it announces the same files, and it has the same
-- highest pair, which the next epoch has to exceed.
pub gc_pass-recovery :
    (r : Retention) (m : GcMeeting) (staged deleted kept left : List StagedFile)
    (unknown : List Bytes) (w w' : ℤ) (plan : RecoveryPlan)
    → m.listing ≡ ok (staged, unknown)
    → m.watermark ≡ ok (some w)
    → (gc_pass r m).0 ≡ deleted ++ kept
    → Perm (deleted ++ left) staged
    → w ≤ℤ w'
    → (plan_recovery staged (some w')).1 ≡ ok plan
    → (after : RecoveryPlan) × ((plan_recovery left (some w')).1 ≡ ok after)
      × Perm after.backfill plan.backfill
      × (after.max_staged ≡ plan.max_staged)
gc_pass-recovery r m staged deleted kept left unknown w w' plan listing known asked split le
      planned =
    replanned staged deleted left w' plan split (paid warranted) (top warranted) planned
  where
    warranted : IsWarranted r m (deleted ++ kept)
    warranted = subst (IsWarranted r m) asked (gc_pass-IsSafePass r m)

    paid : IsWarranted r m (deleted ++ kept) → keep_if (is_owed (some w')) deleted ≡ []
    paid (inl none_gone) = rw (start_nil deleted kept none_gone) refl
    paid (inr (w₁, staged₁, unknown₁, known₁, listing₁, safe)) =
        let same : w₁ ≡ w = ground arith in
        consumed-not-owed r w w' m.now_ms deleted le (
          All-start _ deleted kept
            (subst (λ v. All (IsConsumed r v m.now_ms) (deleted ++ kept)) same safe.consumed))

    top :
        IsWarranted r m (deleted ++ kept)
        → key_of (last (sort_by_key left)) ≡ key_of (last (sort_by_key staged))
    top (inl none_gone) =
        relisted staged left
          (subst (λ l. Perm (l ++ left) staged) (start_nil deleted kept none_gone) split)
    top (inr (w₁, staged₁, unknown₁, known₁, listing₁, safe)) =
        let same : staged₁ ≡ staged = ground arith in
        same_highest staged deleted left (kept ++ safe.others) safe.newest split
          (subst (Perm (deleted ++ ((kept ++ safe.others) ++ safe.newest ∷ []))) same
            (subst (λ l. Perm l staged₁) regrouped safe.split))
          (subst (All (λ f. KeyLe f safe.newest)) same safe.is_newest)
      where
        regrouped :
            (deleted ++ kept) ++ (safe.others ++ safe.newest ∷ [])
            ≡ deleted ++ ((kept ++ safe.others) ++ safe.newest ∷ [])
        regrouped = simp append_assoc
