-- ===== src/Recovery/Plan.antt =====
-- The plan of a recovery: its backfill, its resume offset and its highest pair.
use mathlib.Core.List.{Perm}
use relyt_ingest.Common.{
  ◌+◌, ◌*◌, ◌^◌, ◌≡◌, refl, sym, ◌∙◌, inl, inr, Bool, true, false, Option, none, some, List, [],
  ◌∷◌, arith, keep_if, All, last, Bool-cases, ◌↔◌, Option-cases,
}
use relyt_ingest.Common.Int.{ℤ, pos, ◌≤ℤ◌, next_i64, max_ℤ}
use relyt_ingest.Errors.{ok, >>=-eq-ok}
use relyt_ingest.Naming.{StagedFile, serial_seq}
use relyt_ingest.Naming.SerialSeq.{encode_sound, encode_in_range}
use relyt_ingest.Naming.KeyOrder.{IsEncodable}
use relyt_ingest.Recovery.{
  RecoveryPlan, sort_by_key, resume_of, above, backfill_of, plan_recovery, key_of,
}
use relyt_ingest.Recovery.Sorting.{
  IsSorted, sort-IsSorted, All-sort, All-unsort, keep-sort, keep-IsSorted, insert_some,
}

-- The number that a file is known by, and whether the watermark leaves it to be announced.
abbrev pub rank : StagedFile → ℤ
rank f = pos (f.epoch_ms * 2 ^ 20 + f.seq)

abbrev pub is_owed : Option ℤ → StagedFile → Bool
is_owed watermark f = above watermark (rank f)

backfill_sound :
    (w : Option ℤ) (fs : List StagedFile) (bs : List StagedFile)
    → backfill_of w fs ≡ ok bs
    → All IsEncodable fs × (bs ≡ keep_if (is_owed w) fs)
unfolding backfill_of serial_seq
backfill_sound w [] bs h = (tt, ground arith)
backfill_sound w (f ∷ fs) bs h =
    let (seq, coded, rest) = >>=-eq-ok (serial_seq f) _ h in
    let (he, hs, value) = encode_sound f.epoch_ms f.seq seq coded in
    elim (Bool-cases (above w seq)) [
      | inl e ↦
          let kept = rw e at rest in
          let (ks, on, done) = >>=-eq-ok (backfill_of w fs) _ kept in
          let (enc, eq) = backfill_sound w fs ks on in
          let owed : is_owed w f ≡ true = rw (← value) e in
          (((he, hs), enc), rw owed (rw (← eq) (ground arith)))
      | inr e ↦
          let (enc, eq) = backfill_sound w fs bs (rw e at rest) in
          let owed : is_owed w f ≡ false = rw (← value) e in (((he, hs), enc), rw owed eq)
    ]

backfill_complete :
    (w : Option ℤ) (fs : List StagedFile)
    → All IsEncodable fs
    → backfill_of w fs ≡ ok (keep_if (is_owed w) fs)
unfolding backfill_of serial_seq
backfill_complete w [] h = refl
backfill_complete w (f ∷ fs) h =
    rw (encode_in_range f.epoch_ms f.seq h.0.0 h.0.1, backfill_complete w fs h.1)
      (elim (Bool-cases (is_owed w f)) [ inl e ↦ rw e refl | inr e ↦ rw e refl ])

-- What a successful plan was built from.
pub plan_inversion :
    (staged : List StagedFile) (w : Option ℤ) (plan : RecoveryPlan)
    → (plan_recovery staged w).1 ≡ ok plan
    → (backfill_of w (sort_by_key staged) ≡ ok plan.backfill)
      × (plan.kafka_resume_offset ≡ resume_of (sort_by_key staged))
      × (plan.max_staged ≡ key_of (last (sort_by_key staged)))
unfolding plan_recovery
plan_inversion staged w plan h =
    let (bs, on, done) = >>=-eq-ok (backfill_of w (sort_by_key staged)) _ h in
    (on ∙ ground arith, ground arith, ground arith)

-- A plan exists exactly when every staged file has a serial seq. Its backfill is then the staged
-- files above the watermark (all of them where there is none), each as often as it was listed, and
-- no file of it stands before one with a smaller pair (epoch, seq).
pub plan_recovery_backfill :
    (staged : List StagedFile) (w : Option ℤ)
    → (All IsEncodable staged → (plan : RecoveryPlan) × ((plan_recovery staged w).1 ≡ ok plan))
      × ((plan : RecoveryPlan)
          → (plan_recovery staged w).1 ≡ ok plan
          → All IsEncodable staged
            × Perm plan.backfill (keep_if (is_owed w) staged)
            × IsSorted plan.backfill)
plan_recovery_backfill staged w = (
  planned,
  λ plan h.
      let (on, resume, highest) = plan_inversion staged w plan h in
      let (coded, kept) = backfill_sound w (sort_by_key staged) plan.backfill on in
      (
        All-unsort IsEncodable staged coded,
        rw kept (keep-sort (is_owed w) staged),
        rw kept (keep-IsSorted (is_owed w) (sort_by_key staged) (sort-IsSorted staged)),
      ),
)
  where
    planned :
        All IsEncodable staged → (plan : RecoveryPlan) × ((plan_recovery staged w).1 ≡ ok plan)
    planned h =
        unfold plan_recovery in
        rw (backfill_complete w (sort_by_key staged) (All-sort IsEncodable staged h)) (_, refl)

resume_least :
    (fs : List StagedFile)
    → (resume_of fs ≡ none → fs ≡ [])
      × ((z : ℤ)
          → resume_of fs ≡ some z
          → (b : ℤ) → (z ≤ℤ b) ↔ All (λ f. next_i64 f.end_offset ≤ℤ b) fs)
unfolding resume_of
resume_least [] = (λ h. refl, λ z h. ground arith)
resume_least (f ∷ fs) = elim (Option-cases (resume_of fs)) [
  | inl e ↦
      let rest : fs ≡ [] = (resume_least fs).0 e in
      rw e (λ h. ground arith, λ z h b. rw rest (λ le. ((ground arith), tt), λ all. ground arith))
  | inr (y, e) ↦
      let (to, from) : ((b : ℤ) → (y ≤ℤ b) → All (λ f. next_i64 f.end_offset ≤ℤ b) fs)
          × ((b : ℤ) → All (λ f. next_i64 f.end_offset ≤ℤ b) fs → y ≤ℤ b) =
        (λ b. ((resume_least fs).1 y e b).0, λ b. ((resume_least fs).1 y e b).1) in
      rw e (
        λ h. ground arith,
        λ z h b. (
          λ le. (ground arith, to b (ground arith)),
          λ all. join b z (next_i64 f.end_offset) y h all.0 (from b all.1),
        ),
      )
]
  where
    join : (b z x y : ℤ) → some (max_ℤ x y) ≡ some z → x ≤ℤ b → y ≤ℤ b → z ≤ℤ b
    join b z x y h hx hy = ground arith

-- The offset to resume at is the least one that is not below the successor of any staged file's end
-- offset, whatever the watermark is; only an empty listing has none.
pub plan_recovery_resume :
    (staged : List StagedFile) (w : Option ℤ) (plan : RecoveryPlan)
    → (plan_recovery staged w).1 ≡ ok plan
    → (plan.kafka_resume_offset ≡ none → staged ≡ [])
      × ((z : ℤ)
          → plan.kafka_resume_offset ≡ some z
          → (b : ℤ) → (z ≤ℤ b) ↔ All (λ f. next_i64 f.end_offset ≤ℤ b) staged)
plan_recovery_resume staged w plan h =
    let (on, resume, highest) = plan_inversion staged w plan h in
    let (empty, least) = resume_least (sort_by_key staged) in
    (
      λ e. sort_nil staged (empty (sym resume ∙ e)),
      λ z e b. (
        λ le. All-unsort _ staged ((least z (sym resume ∙ e) b).0 le),
        λ all. (least z (sym resume ∙ e) b).1 (All-sort _ staged all),
      ),
    )
  where
    sort_nil : (fs : List StagedFile) → sort_by_key fs ≡ [] → fs ≡ []
    sort_nil [] e = refl
    sort_nil (f ∷ fs) e = absurd (unfold sort_by_key in insert_some f (sort_by_key fs) e)
