-- ===== src/Pipeline/Tests.antt =====
-- Two sealed files: the first upload fails once, and a fence ends the stage before the second.
use relyt_ingest.Common.{◌≡◌, refl, ◌⊎◌, true, false, none, some, List, [], inl, inr, ◌∷◌, ℕ, ◌+◌}
use relyt_ingest.Common.Int.{pos}
use relyt_ingest.Common.Text.{codes, Bytes}
use relyt_ingest.Errors.{ok, err, storage, other_kind, Result}
use relyt_ingest.Arrow.{Batch}
use relyt_ingest.Naming.Tests.{ident}
use relyt_ingest.Render.Tests.{batches, display_float}
use relyt_ingest.Schema.Tests.{table, index_of}
use relyt_ingest.Writer.{FileMeta, Sealed, WriterState}
use relyt_ingest.Writer.Tests.{cfg, clock, full_epoch, names, tick}
use relyt_ingest.Writer.Handover.{available, seal_and_send}
use relyt_ingest.Stopping.{fresh_shared, lease_lost}
use relyt_ingest.Pipeline.{Look, Try}
use relyt_ingest.Pipeline.Put.Delivery.{Delivers, put_stage-Delivers}
use relyt_ingest.Writer.Order.{check_order}
use relyt_ingest.Progress.{is_permanent}
use relyt_ingest.Pipeline.Stages.{Compressed, Handing, Renderer, render_stage, gzip_stage}
use relyt_ingest.Pipeline.Stages.Prefix.{Matches}
use relyt_ingest.Pipeline.Stages.Staged.{IsStaged, received_files}
use relyt_ingest.Pipeline.Put.{
  Announcer, PutAnswers, PutMeeting, PutState, put_stage, stored, landed, announced, notify_request,
  put_once,
}
use relyt_ingest.Pipeline.Put.Order.{IsPutRun, put_stage-IsPutRun}
use relyt_ingest.Lock.Release.{Answer}
use relyt_ingest.Pipeline.Flush.{CloseMeeting, FlushMeeting}
use relyt_ingest.Pipeline.Flush.Closing.{IsRefused, IsDrained, close_cases}

abbrev meta : ℕ → FileMeta
meta n = record {
  file = record {
    epoch_ms = 8;
    seq = n;
    start_offset = pos (10 + n);
    end_offset = pos (10 + n);
    compressed = false;
  };
  seq_no = pos (8_388_608 + n);
  job = codes "job";
  key = codes "key";
  rows_in = 3;
  sealed_at = 100;
}

abbrev quiet : Look
quiet = record { is_alive = true; meanwhile = [] }

abbrev fenced_look : Look
fenced_look = record { is_alive = true; meanwhile = lease_lost "taken over" ∷ [] }

abbrev handing : Handing (Unit {0})
handing = record {
  tries = record { look = quiet; during = []; answer = ok tt; is_held = true } ∷ [];
  is_alive = true;
  is_taken = true;
}

abbrev renderer : Renderer (Unit {0}) ℕ
renderer = record {
  into_order = λ ps. ps;
  display_float = display_float;
  measure = λ bytes rows. bytes;
  is_upsert = true;
  schema = table;
  index_of = index_of;
  names = codes "id" ∷ codes "name" ∷ [];
  delimiter = b',';
}

abbrev gzip : Bytes → Result Bytes
gzip body = ok (31 ∷ body)

abbrev sealed_files : List (Sealed (Batch (Unit {0})))
sealed_files =
    record { meta = meta 0; batches = batches } ∷ record { meta = meta 1; batches = batches } ∷ []

received_files_example :
    Matches
      (IsStaged renderer gzip)
      sealed_files
      (gzip_stage gzip 5
        (render_stage renderer 5 sealed_files (handing ∷ handing ∷ []) (fresh_shared, none)).1
        (handing ∷ handing ∷ [])
        fresh_shared).1
received_files_example =
    received_files renderer gzip 5 sealed_files (handing ∷ handing ∷ []) (handing ∷ handing ∷ [])
      fresh_shared fresh_shared none

abbrev file : ℕ → Compressed
file n = record { meta = meta n; payload = codes "body"; rows = 1; bytes = 4; stored_bytes = 4 }

abbrev answers : Result (Unit {0}) → PutAnswers
answers first = record { first = first; refreshed = ok false; second = ok tt }

abbrev trying : Result (Unit {0}) → Try PutAnswers
trying first = record { look = quiet; during = []; answer = ok (answers first); is_held = true }

abbrev good : PutMeeting ℕ ℕ
good = record {
  entry = quiet;
  tries = trying (err (storage other_kind "timeout")) ∷ trying (ok tt) ∷ [];
  after_put = quiet;
  meanwhile = λ st. st;
  settling = [];
  is_open = true;
}

abbrev cut_short : PutMeeting ℕ ℕ
cut_short = record good { after_put = fenced_look }

abbrev announcer : Announcer
announcer = record {
  serial_group = codes "1:2:w";
  url_base = codes "s3://e/b";
  rel_oid = 2;
  delimiter = b',';
  is_upsert = true;
  retry_max = none;
}

abbrev start : PutState ℕ ℕ
start = record { shared = fresh_shared; writer = full_epoch; prev = none; effects = [] }

-- The second object is stored, but the fence keeps it from being announced.
put_run :
    (put_stage announcer 5 (file 0 ∷ file 1 ∷ []) (good ∷ cut_short ∷ []) start).0.effects
    ≡ stored (codes "key") (codes "body")
      ∷ announced (notify_request announcer (meta 0))
      ∷ landed (pos 8_388_608)
      ∷ stored (codes "key") (codes "body")
      ∷ []
unfolding put_stage
put_run = refl

put_stage-IsPutRun_example :
    IsPutRun announcer 5
      (file 0 ∷ file 1 ∷ [])
      (good ∷ cut_short ∷ [])
      start
      (put_stage announcer 5 (file 0 ∷ file 1 ∷ []) (good ∷ cut_short ∷ []) start)
put_stage-IsPutRun_example =
    put_stage-IsPutRun announcer 5 (file 0 ∷ file 1 ∷ []) (good ∷ cut_short ∷ []) start

abbrev flushing : FlushMeeting ℕ ℕ
flushing = record {
  health = none;
  handover = record {
    stalled_behind = none;
    room = available;
    health = none;
    progress = fresh_shared.progress;
  };
  before_target = λ st. st;
  seen = record { durable_seq = some (pos 8_388_608); failing = none } ∷ [];
  before_offset = λ st. st;
}

-- The last file that was sealed.
abbrev after_handover : WriterState ℕ ℕ
after_handover = (seal_and_send cfg ident clock false flushing.handover full_epoch).state

abbrev lost : Answer
lost = (ok none, ok tt)

-- The heartbeat does not end in time, and the lease is gone at once.
abbrev leaving : CloseMeeting ℕ ℕ
leaving = record {
  tick = tick;
  meanwhile = λ st. st;
  is_joined = false;
  first = lost;
  second = lost;
  third = lost;
}

close_cases_example :
    IsRefused 5 cfg ident names 5000 (codes "me") leaving clock flushing full_epoch
    ⊎ IsDrained 5 cfg ident names 5000 (codes "me") leaving clock flushing full_epoch
close_cases_example =
    close_cases 5 cfg ident names 5000 (codes "me") leaving clock flushing full_epoch

good-Delivers : Delivers announcer 5 good
unfolding put_once is_permanent
good-Delivers = record {
  at_entry = (refl, tt);
  at_tries = (
    (refl, tt),
    tt,
    inr ((storage other_kind "timeout", refl, refl), ((refl, tt), tt, inl (tt, refl))),
  );
  at_landing = (refl, tt);
  at_settling = tt;
}

put_stage-Delivers_example :
    (put_stage announcer 5 (file 0 ∷ file 1 ∷ []) (good ∷ good ∷ []) start).1 ≡ meta 0 ∷ meta 1 ∷ []
unfolding check_order
put_stage-Delivers_example =
    put_stage-Delivers announcer 5 (file 0 ∷ file 1 ∷ []) (good ∷ good ∷ []) start
      (good-Delivers, (good-Delivers, tt)) refl refl (refl, (refl, tt))
