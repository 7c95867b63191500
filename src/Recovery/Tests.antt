-- ===== src/Recovery/Tests.antt =====
-- A recovery of two staged files, one of them above the watermark, and a session opened on it.
use mathlib.Core.List.{Perm}
use relyt_ingest.Common.{
  ℕ, ◌≤◌, ◌≡◌, refl, true, false, Option, none, some, List, [], ◌∷◌, arith, All, keep_if,
}
use relyt_ingest.Common.Int.{ℤ, pos, negsuc, ◌≤ℤ◌, next_i64, prev_i64}
use relyt_ingest.Common.Text.{codes, bytes_eq}
use relyt_ingest.Common.Decimal.{display}
use relyt_ingest.Errors.{Result, ok, err}
use relyt_ingest.Naming.{StagedFile, max_epoch_ms, decode_serial_seq}
use relyt_ingest.Naming.KeyOrder.{IsEncodable}
use relyt_ingest.Naming.Tests.{ident}
use relyt_ingest.State.{StateFile}
use relyt_ingest.Recovery.{RecoveryPlan, plan_recovery, next_epoch}
use relyt_ingest.Recovery.Sorting.{IsSorted}
use relyt_ingest.Recovery.Plan.{is_owed, plan_recovery_backfill}
use relyt_ingest.Recovery.Open.{
  Settings, Answers, Opened, row, open_session, read_watermark, opened,
}
use relyt_ingest.Recovery.Open.Anchors.{MarkFits, StateFits}
use relyt_ingest.Recovery.Open.Session.{Anchored, open_session-epoch, open_session-resume}

abbrev pub file : ℕ → ℕ → ℕ → ℕ → StagedFile
file e s start end = record {
  epoch_ms = e;
  seq = s;
  start_offset = pos start;
  end_offset = pos end;
  compressed = false;
}

-- The old epoch's file comes second and holds the highest offset.
abbrev pub listing : List StagedFile
listing = file 200 0 1000 1499 ∷ file 100 6 1500 1999 ∷ []

abbrev pub mark : ℤ
mark = pos 104857606

abbrev pub plan : RecoveryPlan
plan = record {
  kafka_resume_offset = some (pos 2000);
  backfill = file 200 0 1000 1499 ∷ [];
  max_staged = some (200, 0);
}

planned : (plan_recovery listing (some mark)).1 ≡ ok plan
unfolding plan_recovery
planned = refl

plan_recovery_backfill_example :
    (All IsEncodable listing → (p : RecoveryPlan) × ((plan_recovery listing (some mark)).1 ≡ ok p))
    × ((p : RecoveryPlan)
        → (plan_recovery listing (some mark)).1 ≡ ok p
        → All IsEncodable listing
          × Perm p.backfill (keep_if (is_owed (some mark)) listing)
          × IsSorted p.backfill)
plan_recovery_backfill_example = plan_recovery_backfill listing (some mark)

abbrev pub settings : Settings
settings = record { url_base = codes "oss://b"; delimiter = b','; upsert = true; retry_max = none }

abbrev pub recorded_state : StateFile
recorded_state = record {
  v = 1;
  resume_offset = some (pos 2499);
  max_epoch_used = 300;
  cluster_id = codes "1024";
  database = codes "prod";
  schema = codes "public";
  table = codes "t";
  writer_id = codes "w-0";
  updated_at_ms = 5;
}

-- The clock is behind everything that is remembered.
abbrev pub answers : Answers
answers = record {
  state = ok (some recorded_state);
  database_name = ok (codes "prod");
  watermark = row (some mark);
  listing = ok listing;
  now_ms = 150;
  written = ok tt;
  enqueued = ok tt;
}

abbrev pub run : Result Opened
run = open_session (codes "public.t") ident settings answers

abbrev pub failed_default : Opened
failed_default = record {
  plan = plan;
  epoch = 0;
  state_written = recorded_state;
  requests = [];
  staged_offset = none;
}

abbrev pub the : Result Opened → Opened
the (ok o) = o
the (err e) = failed_default

ran : open_session (codes "public.t") ident settings answers ≡ ok (the run)
unfolding open_session bytes_eq next_epoch decode_serial_seq display
ran = refl

resumes : (the run).plan.kafka_resume_offset ≡ some (pos 2500)
unfolding open_session opened bytes_eq next_epoch decode_serial_seq display
resumes = refl

epoch_after : (the run).epoch ≡ 301
unfolding open_session opened bytes_eq next_epoch decode_serial_seq display
epoch_after = refl

mark_fits : (w : Option ℤ) → read_watermark answers.watermark ≡ ok w → MarkFits w
unfolding read_watermark
mark_fits none h = tt
mark_fits (some (pos n)) h = ground (arith, h)
mark_fits (some (negsuc n)) h = ground (arith, h)

state_fits : (st : Option StateFile) → answers.state ≡ ok st → StateFits st
state_fits none h = tt
state_fits (some st) h = ground (arith, h)

open_session-epoch_example :
    ((staged : List StagedFile)
      → answers.listing ≡ ok staged
      → Anchored answers staged (the run).epoch)
    × ((the run).epoch ≤ max_epoch_ms)
    × ((the run).state_written.max_epoch_used ≡ (the run).epoch)
open_session-epoch_example =
    open_session-epoch (codes "public.t") ident settings answers (the run) mark_fits state_fits ran

open_session-resume_example :
    ((staged : List StagedFile)
      → answers.listing ≡ ok staged
      → All (λ f. next_i64 f.end_offset ≤ℤ pos 2500) staged)
    × ((st : StateFile) (rec : ℤ)
        → answers.state ≡ ok (some st)
        → st.resume_offset ≡ some rec
        → next_i64 rec ≤ℤ pos 2500)
    × ((the run).staged_offset ≡ some (prev_i64 (pos 2500)))
open_session-resume_example =
    open_session-resume (codes "public.t") ident settings answers (the run) (pos 2500) ran resumes
