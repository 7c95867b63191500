-- ===== src/Notify/Tests.antt =====
-- A run of the notify loop, and its properties there.
use relyt_ingest.Common.{ℕ, ◌≡◌, refl, true, false, none, some, List, [], ◌∷◌, ◌++◌}
use relyt_ingest.Common.Int.{ℤ, pos}
use relyt_ingest.Common.Text.{Bytes, codes}
use relyt_ingest.Notify.{
  NotifyRequest, LoopState, Attempt, connect_failed, submit_failed, accepted, contract_violation,
  notify_run,
}
use relyt_ingest.Errors.{unique_violation}
use relyt_ingest.Config.Tests.{bucket}
use relyt_ingest.Staging.{StagingLive}
use relyt_ingest.Notify.Submit.Turn.{turn_cases, IsTurn}
use relyt_ingest.Notify.Submit.{Job, Reply, failed, turn}
use relyt_ingest.Notify.Options.{mask_secret}
use relyt_ingest.Notify.Loop.{seqs, ConfirmedFrom, IsFatal, notify_run_order, notify_run_monotone}

abbrev pub request : ℕ → NotifyRequest
request n = record {
  serial_group = codes "1:2:w";
  end_offset = pos n;
  identifier = codes "1:2:w:0:0";
  source_url = codes "oss://bucket/key";
  target = 2;
  delimiter = b',';
  upsert = true;
  serial_seq = pos n;
  retry_max = none;
}

abbrev pub idle : LoopState
idle = record {
  queue = request 7 ∷ request 8 ∷ [];
  connected = false;
  backoff_ms = 200;
  board = record { confirmed = []; fatal = [] };
  submitted = [];
}

abbrev pub attempts : List Attempt
attempts = connect_failed ∷ submit_failed ∷ accepted ∷ contract_violation (codes "gate") ∷ []

backed_off : (notify_run idle (connect_failed ∷ submit_failed ∷ [])).backoff_ms ≡ 800
unfolding notify_run
backed_off = refl

all_settled : (notify_run idle attempts).queue ≡ []
unfolding notify_run
all_settled = refl

notify_run_order_example :
    (notify_run idle attempts).submitted ++ seqs (notify_run idle attempts).queue
    ≡ idle.submitted ++ seqs idle.queue
notify_run_order_example = notify_run_order idle attempts

notify_run_monotone_example :
    ((s : ℤ)
      → ConfirmedFrom (codes "1:2:w") s idle.board
      → ConfirmedFrom (codes "1:2:w") s (notify_run idle attempts).board)
    × ((msg : Bytes)
        → IsFatal (codes "1:2:w") msg idle.board
        → IsFatal (codes "1:2:w") msg (notify_run idle attempts).board)
notify_run_monotone_example = notify_run_monotone idle attempts (codes "1:2:w")

masked : mask_secret (codes "LTAI5tSecretKey99") ≡ codes "LTA***y99"
unfolding mask_secret
masked = refl

abbrev serving : Job → Reply
serving job = failed (record {
  as_db_error = some (record { code = unique_violation; message = "duplicate"; hint = none });
  text = "db error";
})

abbrev live : StagingLive (Unit {0})
live = record { cfg = bucket; store = tt; url_base = codes "oss://bucket" }

confirmed_twice :
    (turn true serving live idle).board.confirmed ≡ (codes "1:2:w", (pos 7, pos 7)) ∷ []
unfolding turn
confirmed_twice = refl

turn_cases_example :
    IsTurn false true serving live.cfg
      (request 7)
      (request 8 ∷ [])
      idle
      (turn true serving live idle)
turn_cases_example = turn_cases serving live idle true (request 7) (request 8 ∷ []) refl
