-- ===== src/Pipeline/Put/Delivery.antt =====
-- When the put stage makes every file durable.
use mathlib.Core.Path.{subst}
use relyt_ingest.Common.{
  ℕ, ◌+◌, ◌%◌, ◌^◌, ◌≡◌, refl, sym, ap, ◌∙◌, ◌⊎◌, inl, inr, Bool, true, false, none, some, List, [],
  ◌∷◌, map, All, Bool-cases, arith, length, ltb, if◌then◌else◌,
}
use relyt_ingest.Common.Int.{ℤ}
use relyt_ingest.Errors.{Error, ok, err}
use relyt_ingest.Progress.{is_permanent}
use relyt_ingest.Writer.Order.{check_order}
use relyt_ingest.Stopping.{Shared, happen_all, is_fenced}
use relyt_ingest.Stopping.Calm.{IsCalm, Unfenced, happen_all-Unfenced}
use relyt_ingest.Pipeline.{
  Look, Try, done, StageTask, look_in, fenced_exit, enter_writer, after_try, entered_try, reported,
  cleared, attempts,
}
use relyt_ingest.Pipeline.Stages.{Compressed, stage_run, go_on, with_answer}
use relyt_ingest.Pipeline.Put.{
  Announcer, PutState, PutMeeting, answer_put, key_of_file, settled, landing, putting, checked,
  entered, after_store, put_file, put_stage,
}
use relyt_ingest.Pipeline.Put.Order.{InOrder}

-- A look that finds the writer there, and no lease lost.
abbrev pub IsCalmLook : Look → Type 0
IsCalmLook look = (look.is_alive ≡ true) × All IsCalm look.meanwhile

is_fenced-Unfenced : (s : Shared) → Unfenced s → is_fenced s ≡ false
is_fenced-Unfenced s free = ap (λ o. elim o [ none ↦ false | some reason ↦ true ]) free

look_in-IsCalmLook :
    (after : ℕ) (look : Look) (s : Shared)
    → IsCalmLook look
    → Unfenced s
    → look_in after look s ≡ (happen_all after s look.meanwhile, true)
unfolding look_in fenced_exit enter_writer
look_in-IsCalmLook after look s (alive, calm) free =
    let still =
      is_fenced-Unfenced (happen_all after s look.meanwhile)
        (happen_all-Unfenced after s look.meanwhile calm free) in
    rw (alive, still) refl

module _ {T : Type 0} where
  -- The attempts fail for passing reasons until one succeeds, and meet no fence until then.
  abbrev pub SucceedsAtLast : List (Try T) → Type 0
  SucceedsAtLast [] = ⊥
  SucceedsAtLast (t ∷ ts) =
      IsCalmLook t.look
      × All IsCalm t.during
      × (((v : T) × (t.answer ≡ ok v))
          ⊎ (((e : Error) × (t.answer ≡ err e) × (is_permanent e ≡ false)) × SucceedsAtLast ts))

  attempts-SucceedsAtLast :
      (task : StageTask) (seq : ℤ) (n : ℕ) (ts : List (Try T)) (s : Shared)
      → SucceedsAtLast ts
      → Unfenced s
      → (s' : Shared) × (v : T) × (attempts task seq n ts s ≡ (s', done v)) × Unfenced s'
  unfolding attempts entered_try after_try
  attempts-SucceedsAtLast task seq n [] s h free = absurd h
  attempts-SucceedsAtLast task seq n (t ∷ ts) s (calm, quiet, inl (v, e)) free =
      let seen = happen_all task.after s t.look.meanwhile in
      let ran = happen_all task.after seen t.during in
      let still =
        happen_all-Unfenced task.after seen t.during quiet
          (happen_all-Unfenced task.after s t.look.meanwhile calm.1 free) in
      (
        cleared seq n ran,
        v,
        rw (look_in-IsCalmLook task.after t.look s calm free, e) refl,
        cleared-Unfenced ran still,
      )
    where
      cleared-Unfenced : (ran : Shared) → Unfenced ran → Unfenced (cleared seq n ran)
      cleared-Unfenced ran h = elim (Bool-cases (ltb 0 n)) [ inl e ↦ rw e h | inr e ↦ rw e h ]
  attempts-SucceedsAtLast task seq n (t ∷ ts) s (calm, quiet, inr ((x, e, passing), later)) free =
      let seen = happen_all task.after s t.look.meanwhile in
      let ran = happen_all task.after seen t.during in
      let still =
        happen_all-Unfenced task.after seen t.during quiet
          (happen_all-Unfenced task.after s t.look.meanwhile calm.1 free) in
      let (s', v, same, ends) =
        attempts-SucceedsAtLast task seq ((n + 1) % 2 ^ 32) ts
          (reported task seq ((n + 1) % 2 ^ 32) x ran) later still in
      (
        s',
        v,
        rw (look_in-IsCalmLook task.after t.look s calm free, e) (if_false _ _ passing ∙ same),
        ends,
      )
    where
      if_false : {A : Type 0} {b : Bool} (x y : A) → b ≡ false → (if b then x else y) ≡ y
      if_false x y h = rw h refl

module _ {Batch Avg : Type 0} (a : Announcer) (after : ℕ) where
  -- At a file the stage meets no fence and a writer that stays, and an attempt succeeds at last.
  pub record Delivers (m : PutMeeting Batch Avg) : Type 0 where
    pub at_entry : IsCalmLook m.entry
    pub at_tries : SucceedsAtLast (map (with_answer true answer_put) m.tries)
    pub at_landing : IsCalmLook m.after_put
    pub at_settling : All IsCalm m.settling

  put_file-Delivers :
      (c : Compressed) (m : PutMeeting Batch Avg) (s : PutState Batch Avg)
      → Delivers m
      → Unfenced s.shared
      → check_order s.prev c.meta.file ≡ none
      → (s' : PutState Batch Avg) × (put_file a after c m s ≡ (s', some c.meta))
        × Unfenced s'.shared
        × (s'.prev ≡ some (key_of_file c.meta))
  unfolding put_file entered checked putting landing settled
  put_file-Delivers c m s d free passed =
      let seen = happen_all after s.shared m.entry.meanwhile in
      let (ran, u, same, still) =
        attempts-SucceedsAtLast (record { after = after; name = "put" }) c.meta.seq_no 0
          (map (with_answer true answer_put) m.tries) seen d.at_tries
          (happen_all-Unfenced after s.shared m.entry.meanwhile d.at_entry.1 free) in
      let landed = happen_all after ran m.after_put.meanwhile in
      (
        settled a after c m (record (after_store c s) { shared = landed }),
        rw
            (
              look_in-IsCalmLook after m.entry s.shared d.at_entry free,
              passed,
              same,
              look_in-IsCalmLook after m.after_put ran d.at_landing still,
            )
            refl,
        happen_all-Unfenced after landed m.settling d.at_settling
            (happen_all-Unfenced after ran m.after_put.meanwhile d.at_landing.1 still),
        refl,
      )

  -- A stage that starts unfenced makes every file durable that it receives, where the files pass the
  -- order tripwire one behind the other and where, at each, it meets a writer that stays and is not
  -- fenced, and attempts that fail only for passing reasons, however often, until one succeeds.
  pub put_stage-Delivers :
      (files : List Compressed) (ms : List (PutMeeting Batch Avg)) (s : PutState Batch Avg)
      → All Delivers ms
      → length ms ≡ length files
      → Unfenced s.shared
      → InOrder s.prev files
      → (put_stage a after files ms s).1 ≡ map (λ c. c.meta) files
  unfolding put_stage stage_run
  put_stage-Delivers [] ms s d e free order = refl
  put_stage-Delivers (c ∷ files) [] s d e free order = absurd (omega (arith, e))
  put_stage-Delivers (c ∷ files) (m ∷ ms) s d e free order =
      let (s', same, still, prev) = put_file-Delivers c m s d.0 free order.0 in
      ap (λ turn. (go_on (put_file a after) turn (stage_run (put_file a after) files ms)).1) same
      ∙ ap (λ l. c.meta ∷ l)
          (put_stage-Delivers files ms s' d.1 (omega (arith, e)) still
            (subst (λ p. InOrder p files) (sym prev) order.1))
