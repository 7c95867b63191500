-- ===== src/Pipeline/Put/Durable.antt =====
-- The durable seq of the progress against the files that the put stage made durable.
use relyt_ingest.Common.{
  ℕ, ◌≡◌, refl, ap, ◌∙◌, String, Bool, true, false, Option, none, some, List, [], ◌∷◌, map, All,
}
use relyt_ingest.Common.Int.{ℤ}
use relyt_ingest.Progress.{land}
use relyt_ingest.Writer.{FileMeta}
use relyt_ingest.Writer.Order.{check_order}
use relyt_ingest.Stopping.{Shared}
use relyt_ingest.Stopping.Durable.{IsOther, durable_of, durable-trip}
use relyt_ingest.Pipeline.{Verdict, done, ended, unfinished, attempts, look_in, Try, StageTask}
use relyt_ingest.Pipeline.Stages.{Compressed, stage_run, go_on, with_answer}
use relyt_ingest.Pipeline.Put.{
  Announcer, PutState, PutMeeting, settled, landing, putting, checked, entered, put_file, put_stage,
  answer_put, PutAnswers, land, after_store,
}
use relyt_ingest.Pipeline.Put.Landing.{OthersTry, durable-attempts, durable-look_in}

abbrev pub last_seq : Option ℤ → List FileMeta → Option ℤ
last_seq d [] = d
last_seq d (m ∷ ms) = last_seq (some m.seq_no) ms

module _ {Batch Avg : Type 0} (a : Announcer) (after : ℕ) where
  -- Only the stage itself shows files as durable while it is at this one.
  pub record OthersMeeting (m : PutMeeting Batch Avg) : Type 0 where
    pub at_entry : All IsOther m.entry.meanwhile
    pub at_tries : All OthersTry m.tries
    pub at_landing : All IsOther m.after_put.meanwhile
    pub at_settling : All IsOther m.settling

  abbrev Shows : PutState Batch Avg → PutState Batch Avg × Option FileMeta → Type 0
  Shows s (s', none) = durable_of s'.shared ≡ durable_of s.shared
  Shows s (s', some meta) = durable_of s'.shared ≡ some meta.seq_no

  put_file-Shows :
      (c : Compressed) (m : PutMeeting Batch Avg) (s : PutState Batch Avg)
      → OthersMeeting m
      → Shows s (put_file a after c m s)
  unfolding put_file entered checked putting landing settled
  put_file-Shows c m s others =
      entering (look_in after m.entry s.shared)
        (durable-look_in after m.entry s.shared others.at_entry)
    where
      put_task : StageTask
      put_task = record { after = after; name = "put" }

      others_worked :
          (ts : List (Try PutAnswers))
          → All OthersTry ts
          → All OthersTry (map (with_answer true answer_put) ts)
      others_worked [] h = tt
      others_worked (t ∷ ts) h = (h.0, others_worked ts h.1)

      landed_shows :
          (s₁ : PutState Batch Avg) (look : Shared × Bool)
          → durable_of look.0 ≡ durable_of s.shared
          → Shows s (landing a after c m s₁ look)
      landed_shows s₁ (shared, false) e = e
      landed_shows s₁ (shared, true) e = unfold land in refl

      put_shows :
          (ran : Shared × Verdict (Unit {0}))
          → durable_of ran.0 ≡ durable_of s.shared
          → Shows s (putting a after c m s ran)
      put_shows (shared, ended) e = e
      put_shows (shared, unfinished) e = e
      put_shows (shared, done u) e =
          landed_shows (after_store c s) (look_in after m.after_put shared)
            (durable-look_in after m.after_put shared others.at_landing ∙ e)

      checking :
          (shared : Shared) (detail : Option String)
          → durable_of shared ≡ durable_of s.shared
          → Shows s (checked a after c m s shared detail)
      checking shared (some detail) e = durable-trip after detail shared ∙ e
      checking shared none e =
          put_shows
            (attempts put_task c.meta.seq_no 0 (map (with_answer true answer_put) m.tries) shared)
            (durable-attempts put_task c.meta.seq_no 0 (map (with_answer true answer_put) m.tries)
                shared (others_worked m.tries others.at_tries)
              ∙ e)

      entering :
          (look : Shared × Bool)
          → durable_of look.0 ≡ durable_of s.shared
          → Shows s (entered a after c m s look)
      entering (shared, false) e = e
      entering (shared, true) e = checking shared (check_order s.prev c.meta.file) e

  pub put_stage-durable :
      (files : List Compressed) (ms : List (PutMeeting Batch Avg)) (s : PutState Batch Avg)
      → All OthersMeeting ms
      → durable_of (put_stage a after files ms s).0.shared
        ≡ last_seq (durable_of s.shared) (put_stage a after files ms s).1
  unfolding put_stage stage_run
  put_stage-durable [] ms s others = refl
  put_stage-durable (c ∷ files) [] s others = refl
  put_stage-durable (c ∷ files) (m ∷ ms) s others =
      on (put_file a after c m s) (put_file-Shows c m s others.0)
        (λ s'. put_stage-durable files ms s' others.1)
    where
      on :
          (turn : PutState Batch Avg × Option FileMeta)
          → Shows s turn
          → ((s' : PutState Batch Avg)
              → durable_of (stage_run (put_file a after) files ms s').0.shared
                ≡ last_seq (durable_of s'.shared) (stage_run (put_file a after) files ms s').1)
          → durable_of
              (go_on (put_file a after) turn (stage_run (put_file a after) files ms)).0.shared
            ≡ last_seq
                (durable_of s.shared)
                (go_on (put_file a after) turn (stage_run (put_file a after) files ms)).1
      on (s', none) e later = e
      on (s', some meta) e later =
          later s' ∙ ap (λ d. last_seq d (stage_run (put_file a after) files ms s').1) e
