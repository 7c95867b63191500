-- ===== src/Pipeline/Put/Order.antt =====
-- What the put stage has made visible after any run.
use mathlib.Core.Path.{subst, ap₂}
use relyt_ingest.Common.{
  ℕ, ◌≡◌, refl, sym, ap, ◌∙◌, ◌⊎◌, inl, inr, String, Bool, true, false, Option, none, some, List,
  [], ◌∷◌, ◌++◌, map, append_assoc, append-nil,
}
use relyt_ingest.Common.Int.{ℤ}
use relyt_ingest.Writer.{FileMeta}
use relyt_ingest.Writer.Order.{check_order}
use relyt_ingest.Stopping.{Shared}
use relyt_ingest.Pipeline.{Verdict, done, ended, unfinished, look_in}
use relyt_ingest.Pipeline.Stages.{Compressed, stage_run, go_on}
use relyt_ingest.Pipeline.Put.{
  Announcer, Effect, stored, landed, PutState, PutMeeting, key_of_file, announcement, settled,
  landing, putting, checked, entered, put_file, put_stage, after_store,
}

-- Each file passes the tripwire behind the one before it.
abbrev pub InOrder : Option (ℕ × ℕ × ℤ) → List Compressed → Type 0
InOrder prev [] = Unit
InOrder prev (c ∷ cs) =
    (check_order prev c.meta.file ≡ none) × InOrder (some (key_of_file c.meta)) cs

abbrev pub last_key : Option (ℕ × ℕ × ℤ) → List Compressed → Option (ℕ × ℕ × ℤ)
last_key prev [] = prev
last_key prev (c ∷ cs) = last_key (some (key_of_file c.meta)) cs

-- A durable file was stored, then announced where the queue is open, and then shown in the progress.
abbrev pub durable_effects : Announcer → Compressed → Bool → List Effect
durable_effects a c is_open =
    stored c.meta.key c.payload ∷ (announcement a c.meta is_open ++ landed c.meta.seq_no ∷ [])

module _ {Batch Avg : Type 0} (a : Announcer) (after : ℕ) where
  abbrev pub effects_of : List Compressed → List (PutMeeting Batch Avg) → List Effect
  effects_of [] ms = []
  effects_of (c ∷ cs) [] = []
  effects_of (c ∷ cs) (m ∷ ms) = durable_effects a c m.is_open ++ effects_of cs ms

  -- What one turn leaves, with or without a file that it made durable.
  abbrev IsTurn :
      Compressed
      → PutMeeting Batch Avg
      → PutState Batch Avg
      → PutState Batch Avg × Option FileMeta
      → Type 0
  IsTurn c m s (s', none) =
      (s'.prev ≡ s.prev)
      × ((s'.effects ≡ s.effects) ⊎ (s'.effects ≡ s.effects ++ stored c.meta.key c.payload ∷ []))
  IsTurn c m s (s', some meta) =
      (meta ≡ c.meta)
      × (check_order s.prev c.meta.file ≡ none)
      × (s'.prev ≡ some (key_of_file c.meta))
      × (s'.effects ≡ s.effects ++ durable_effects a c m.is_open)

  put_file-IsTurn :
      (c : Compressed) (m : PutMeeting Batch Avg) (s : PutState Batch Avg)
      → IsTurn c m s (put_file a after c m s)
  unfolding put_file entered checked putting landing settled
  put_file-IsTurn c m s = entering (look_in after m.entry s.shared)
    where
      landed_turn :
          check_order s.prev c.meta.file ≡ none
          → (look : Shared × Bool) → IsTurn c m s (landing a after c m (after_store c s) look)
      landed_turn passed (shared, false) = (refl, inr refl)
      landed_turn passed (shared, true) =
          (refl, passed, refl, append_assoc s.effects (stored c.meta.key c.payload ∷ []) _)

      put_turn :
          check_order s.prev c.meta.file ≡ none
          → (ran : Shared × Verdict (Unit {0})) → IsTurn c m s (putting a after c m s ran)
      put_turn passed (shared, ended) = (refl, inl refl)
      put_turn passed (shared, unfinished) = (refl, inl refl)
      put_turn passed (shared, done u) = landed_turn passed (look_in after m.after_put shared)

      checking :
          (shared : Shared) (detail : Option String)
          → check_order s.prev c.meta.file ≡ detail
          → IsTurn c m s (checked a after c m s shared detail)
      checking shared (some detail) e = (refl, inl refl)
      checking shared none e = put_turn e _

      entering : (look : Shared × Bool) → IsTurn c m s (entered a after c m s look)
      entering (shared, false) = (refl, inl refl)
      entering (shared, true) = checking shared (check_order s.prev c.meta.file) refl

  -- The files that a run made durable are the first it received, one for one; where it stopped, at
  -- most the next file was stored as well, but neither announced nor shown in the progress.
  pub record IsPutRun (files : List Compressed) (ms : List (PutMeeting Batch Avg))
      (s : PutState Batch Avg) (out : PutState Batch Avg × List FileMeta) : Type 0 where
    pub durable : List Compressed
    pub rest : List Compressed
    pub orphan : List Effect
    pub split : files ≡ durable ++ rest
    pub metas : out.1 ≡ map (λ c. c.meta) durable
    pub in_order : InOrder s.prev durable
    pub last : out.0.prev ≡ last_key s.prev durable
    pub visible : out.0.effects ≡ s.effects ++ (effects_of durable ms ++ orphan)
    pub one_orphan :
        (orphan ≡ [])
        ⊎ ((c : Compressed) × (more : List Compressed) × (rest ≡ c ∷ more)
            × (orphan ≡ stored c.meta.key c.payload ∷ []))

  idle :
      (files : List Compressed) (ms : List (PutMeeting Batch Avg)) (s : PutState Batch Avg)
      → IsPutRun files ms s (s, [])
  idle files ms s = record {
    durable = [];
    rest = files;
    orphan = [];
    split = refl;
    metas = refl;
    in_order = tt;
    last = refl;
    visible = sym (append-nil s.effects);
    one_orphan = inl refl;
  }

  turned :
      (c : Compressed) (m : PutMeeting Batch Avg) (files : List Compressed)
      (ms : List (PutMeeting Batch Avg)) (s : PutState Batch Avg)
      (turn : PutState Batch Avg × Option FileMeta)
      → IsTurn c m s turn
      → ((s' : PutState Batch Avg) → IsPutRun files ms s' (put_stage a after files ms s'))
      → IsPutRun
          (c ∷ files)
          (m ∷ ms)
          s
          (go_on (put_file a after) turn (stage_run (put_file a after) files ms))
  unfolding put_stage
  turned c m files ms s (s', none) (same, effects) later = record {
    durable = [];
    rest = c ∷ files;
    orphan = orphan_of effects;
    split = refl;
    metas = refl;
    in_order = tt;
    last = same;
    visible = seen effects;
    one_orphan = single effects;
  }
    where
      Either : Type 0
      Either =
          (s'.effects ≡ s.effects) ⊎ (s'.effects ≡ s.effects ++ stored c.meta.key c.payload ∷ [])

      orphan_of : Either → List Effect
      orphan_of (inl e) = []
      orphan_of (inr e) = stored c.meta.key c.payload ∷ []

      seen : (e : Either) → s'.effects ≡ s.effects ++ orphan_of e
      seen (inl e) = e ∙ sym (append-nil s.effects)
      seen (inr e) = e

      single :
          (e : Either)
          → (orphan_of e ≡ [])
            ⊎ ((d : Compressed) × (more : List Compressed) × (c ∷ files ≡ d ∷ more)
                × (orphan_of e ≡ stored d.meta.key d.payload ∷ []))
      single (inl e) = inl refl
      single (inr e) = inr (c, files, refl, refl)
  turned c m files ms s (s', some meta) (named, passed, prev, effects) later =
      let run = later s' in
      record {
        durable = c ∷ run.durable;
        rest = run.rest;
        orphan = run.orphan;
        split = ap (λ l. c ∷ l) run.split;
        metas = ap₂ (λ x l. x ∷ l) named run.metas;
        in_order = (passed, subst (λ p. InOrder p run.durable) prev run.in_order);
        last = run.last ∙ ap (λ p. last_key p run.durable) prev;
        visible =
            run.visible
            ∙ ap (λ l. l ++ (effects_of run.durable ms ++ run.orphan)) effects
            ∙ regroup s.effects (durable_effects a c m.is_open) (effects_of run.durable ms)
                run.orphan;
        one_orphan = run.one_orphan;
      }
    where
      regroup : (w x y z : List Effect) → (w ++ x) ++ (y ++ z) ≡ w ++ ((x ++ y) ++ z)
      regroup w x y z = simp append_assoc

  -- Whatever the put stage meets (fences, a dropped writer, failing attempts, other tasks, a closed
  -- queue), a run has made durable a start of the files it received, none skipped; these pass the
  -- order tripwire one behind the other, each was stored before it was announced and announced
  -- before the progress showed it, and beyond them at most one further object is in the store.
  pub put_stage-IsPutRun :
      (files : List Compressed) (ms : List (PutMeeting Batch Avg)) (s : PutState Batch Avg)
      → IsPutRun files ms s (put_stage a after files ms s)
  unfolding put_stage stage_run
  put_stage-IsPutRun [] ms s = idle [] ms s
  put_stage-IsPutRun (c ∷ files) [] s = idle (c ∷ files) [] s
  put_stage-IsPutRun (c ∷ files) (m ∷ ms) s =
      turned c m files ms s (put_file a after c m s) (put_file-IsTurn c m s)
        (put_stage-IsPutRun files ms)
