-- ===== src/Writer/Gc/Tests.antt =====
-- Three staged files, of which the server has consumed the first two; the second deletion fails.
use mathlib.Core.List.{Perm}
use mathlib.Core.List.Perm
use relyt_ingest.Common.{◌+◌, ◌≡◌, refl, true, some, List, [], ◌∷◌, arith, ℕ, ◌==◌, if◌then◌else◌}
use relyt_ingest.Common.Int.{pos}
use relyt_ingest.Errors.{ok, err, config, Result}
use relyt_ingest.Naming.{StagedFile}
use relyt_ingest.Recovery.{RecoveryPlan, plan_recovery}
use relyt_ingest.Writer.Gc.{Retention, GcMeeting, gc_pass}
use relyt_ingest.Writer.Gc.Retained.{IsWarranted, gc_pass-IsSafePass}
use relyt_ingest.Writer.Gc.Recovered.{gc_pass-recovery}

abbrev nth : ℕ → StagedFile
nth n = record {
  epoch_ms = 7;
  seq = n;
  start_offset = pos (10 + n);
  end_offset = pos (10 + n);
  compressed = true;
}

abbrev listing : List StagedFile
listing = nth 2 ∷ nth 0 ∷ nth 1 ∷ []

abbrev retention : Retention
retention = record { gc_retain_days = 1; gc_retain_min_files = 1 }

abbrev refuses_one : StagedFile → Result (Unit {0})
refuses_one f = if f.seq == 1 then err (config "delete failed") else ok tt

abbrev meeting : GcMeeting
meeting = record {
  connected = ok tt;
  watermark = ok (some (pos 7_340_033));
  listing = ok (listing, []);
  now_ms = 90_000_000;
  delete_staged = refuses_one;
}

pass_run : gc_pass retention meeting ≡ (nth 0 ∷ nth 1 ∷ [], 1)
unfolding gc_pass
pass_run = refl

gc_pass-IsSafePass_example : IsWarranted retention meeting (gc_pass retention meeting).0
gc_pass-IsSafePass_example = gc_pass-IsSafePass retention meeting

abbrev plan : RecoveryPlan
plan = record {
  kafka_resume_offset = some (pos 13);
  backfill = nth 2 ∷ [];
  max_staged = some (7, 2);
}

planned : (plan_recovery listing (some (pos 7_340_033))).1 ≡ ok plan
unfolding plan_recovery
planned = refl

gc_pass-recovery_example :
    (after : RecoveryPlan) × ((plan_recovery (nth 2 ∷ nth 1 ∷ []) (some (pos 7_340_033))).1
      ≡ ok after)
    × Perm after.backfill plan.backfill
    × (after.max_staged ≡ plan.max_staged)
gc_pass-recovery_example =
    gc_pass-recovery retention meeting listing (nth 0 ∷ []) (nth 1 ∷ []) (nth 2 ∷ nth 1 ∷ []) []
      (pos 7_340_033) (pos 7_340_033) plan refl refl (rw pass_run refl)
      (Perm.trans (Perm.swap (nth 2) (nth 0) (nth 1 ∷ [])) Perm.rfl) (omega arith) planned
