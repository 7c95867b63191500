-- ===== src/Pipeline/Flush/Covered.antt =====
-- What a flush that returns has waited for.
use relyt_ingest.Common.{ℕ, ◌≡◌, ◌⊎◌, Option, none, some, List, [], ◌∷◌, ◌++◌, map, All, take}
use relyt_ingest.Common.Int.{ℤ, ◌<ℤ◌}
use relyt_ingest.Progress.{Progress}
use relyt_ingest.Writer.{FileMeta}
use relyt_ingest.Stopping.Durable.{durable_of}
use relyt_ingest.Pipeline.Stages.{Compressed}
use relyt_ingest.Pipeline.Put.{Announcer, PutState, PutMeeting, put_stage}

-- The serial seqs of the files rise.
abbrev pub Ascends : List Compressed → Type 0
Ascends [] = Unit
Ascends (c ∷ cs) = All (λ d. c.meta.seq_no <ℤ d.meta.seq_no) cs × Ascends cs

module _ {Batch Avg : Type 0} (a : Announcer) (after : ℕ) (files : List Compressed)
    (ms : List (PutMeeting Batch Avg)) (s : PutState Batch Avg) where
  -- The run of the put stage after its first `k` meetings.
  abbrev pub run_to : ℕ → PutState Batch Avg × List FileMeta
  run_to k = put_stage a after files (take k ms) s

  -- A value of the progress shows what the stage has landed after that many of its meetings.
  abbrev pub IsShownAt : ℕ → Progress → Type 0
  IsShownAt k p = p.durable_seq ≡ durable_of (run_to k).0.shared

  abbrev pub IsShown : Progress → Type 0
  IsShown p = (k : ℕ) × IsShownAt k p

  -- At that point of its run, the stage has made a first part of the files durable, and all files of
  -- the second part are above the seq.
  abbrev pub HasLandedTo : ℤ → ℕ → Type 0
  HasLandedTo target k =
      (durable : List Compressed) × (rest : List Compressed) × (files ≡ durable ++ rest)
      × ((run_to k).1 ≡ map (λ c. c.meta) durable)
      × All (λ c. target <ℤ c.meta.seq_no) rest

  -- One of the values that were seen shows a point of the run at which the stage has landed all files
  -- up to the seq.
  abbrev pub Reaches : List Progress → ℤ → Type 0
  Reaches seen target =
      (pre : List Progress) × (p : Progress) × (post : List Progress) × (seen ≡ pre ++ p ∷ post)
      × ((k : ℕ) × IsShownAt k p × HasLandedTo target k)

-- Where the hand-over of a flush sealed the buffer, its file is the one to wait for; else it is the last
-- one sealed before, if there is one.
abbrev pub IsTarget : Option ℤ → Option ℤ → ℤ → Type 0
IsTarget sealed last t = (sealed ≡ some t) ⊎ ((sealed ≡ none) × (last ≡ some t))
