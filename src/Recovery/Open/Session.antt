-- ===== src/Recovery/Open/Session.antt =====
-- Lemmas on what an opened session starts from: its epoch and its offset.
use relyt_ingest.Common.{
  ℕ, ◌≤◌, ◌<◌, ◌≡◌, sym, ap, ◌∙◌, inl, inr, Option, none, some, List, arith, All, Option-cases,
}
use relyt_ingest.Common.Text.{Bytes}
use relyt_ingest.Common.Int.{ℤ, ◌≤ℤ◌, next_i64, prev_i64}
use relyt_ingest.Errors.{ok, >>=-eq-ok, ok_injective}
use relyt_ingest.Naming.{
  WriterIdentity, StagedFile, max_epoch_ms, encode_serial_seq, decode_serial_seq,
}
use relyt_ingest.Naming.SerialSeq.{encode_sound}
use relyt_ingest.State.{StateFile}
use relyt_ingest.Recovery.{RecoveryPlan, plan_recovery}
use relyt_ingest.Recovery.Plan.{plan_recovery_resume}
use relyt_ingest.Recovery.Epoch.{
  AtLeast, Fits, max_staged-Fits, staged_below, next_epoch-above, next_epoch-now,
}
use relyt_ingest.Recovery.Open.{
  Settings, Answers, Opened, Known, epoch_of, opened, merged_plan, start_session, read_watermark,
  check_state, recorded, merge_resume, anchor_of, decoded, requests_of, split_qualified,
  open_session, new_state, before_offset,
}
use mathlib.Core.Path.{subst}
use relyt_ingest.Recovery.Open.Anchors.{
  mark_keeps, mark_adds, state_keeps, state_adds, anchor-Fits, MarkFits, StateFits,
}

-- The decisions of a session that was opened.
pub record Decisions (ident : WriterIdentity) (cfg : Settings) (a : Answers) (o : Opened)
    : Type 0 where
  pub known : Known
  pub staged : List StagedFile
  pub first : ℤ
  pub state_read : a.state ≡ ok known.state
  pub checked : check_state ident known.db known.state ≡ ok tt
  pub mark_read : read_watermark a.watermark ≡ ok known.watermark
  pub staged_read : a.listing ≡ ok staged
  pub planned : (plan_recovery staged known.watermark).1 ≡ ok known.plan
  pub encoded : encode_serial_seq (epoch_of known a.now_ms) 0 ≡ ok first
  pub requested : requests_of cfg ident a.enqueued (known.plan.backfill) ≡ ok o.requests
  pub result : opened ident known a.now_ms o.requests ≡ o

started :
    (ident : WriterIdentity) (cfg : Settings) (k : Known) (a : Answers) (o : Opened)
    → start_session ident cfg k a ≡ ok o
    → ((first : ℤ) × (encode_serial_seq (epoch_of k a.now_ms) 0 ≡ ok first))
      × (requests_of cfg ident a.enqueued (k.plan.backfill) ≡ ok o.requests)
      × (opened ident k a.now_ms o.requests ≡ o)
unfolding start_session
started ident cfg k a o h =
    let (first, encoded, h₁) = >>=-eq-ok (encode_serial_seq (epoch_of k a.now_ms) 0) _ h in
    let (w, written, h₂) = >>=-eq-ok a.written _ h₁ in
    let (requests, made, h₃) =
      >>=-eq-ok (requests_of cfg ident a.enqueued (k.plan.backfill)) _ h₂ in
    let same : opened ident k a.now_ms requests ≡ o = ok_injective h₃ in
    let sent : requests ≡ o.requests = ap (λ x. x.requests) same in
    ((first, encoded), made ∙ ap ok sent, ap (opened ident k a.now_ms) (sym sent) ∙ same)

pub open_inversion :
    (table : Bytes) (ident : WriterIdentity) (cfg : Settings) (a : Answers) (o : Opened)
    → open_session table ident cfg a ≡ ok o
    → Decisions ident cfg a o
unfolding open_session
open_inversion table ident cfg a o h =
    let (state, state_read, h₁) = >>=-eq-ok a.state _ h in
    let (names, split, h₂) = >>=-eq-ok (split_qualified table) _ h₁ in
    let (db, db_read, h₃) = >>=-eq-ok a.database_name _ h₂ in
    let (u, checked, h₄) = >>=-eq-ok (check_state ident db state) _ h₃ in
    let (watermark, mark_read, h₅) = >>=-eq-ok (read_watermark a.watermark) _ h₄ in
    let (staged, staged_read, h₆) = >>=-eq-ok a.listing _ h₅ in
    let (plan, planned, h₇) = >>=-eq-ok (plan_recovery staged watermark).1 _ h₆ in
    let ((first, encoded), made, same) = started ident cfg _ a o h₇ in
    record {
      known = record {
        state = state;
        schema_name = names.0;
        table_name = names.1;
        db = db;
        watermark = watermark;
        plan = plan;
      };
      staged = staged;
      first = first;
      state_read = state_read;
      checked = checked;
      mark_read = mark_read;
      staged_read = staged_read;
      planned = planned;
      encoded = encoded;
      requested = made;
      result = same;
    }

-- What the session's epoch is above, in terms of what was read.
pub record Anchored (a : Answers) (staged : List StagedFile) (epoch : ℕ) : Type 0 where
  pub above_clock : a.now_ms ≤ epoch
  pub above_staged : All (λ f. f.epoch_ms < epoch) staged
  pub above_state : (st : StateFile) → a.state ≡ ok (some st) → st.max_epoch_used < epoch
  pub above_mark :
      (w : ℤ) → read_watermark a.watermark ≡ ok (some w) → (decode_serial_seq w).0 < epoch

known_epoch :
    (ident : WriterIdentity) (cfg : Settings) (a : Answers) (o : Opened)
    (d : Decisions ident cfg a o)
    → MarkFits d.known.watermark
    → StateFits d.known.state
    → Anchored a d.staged (epoch_of d.known a.now_ms)
unfolding epoch_of anchor_of
known_epoch ident cfg a o d hw hs =
    let k = d.known in
    let top : Fits (k.plan.max_staged) = max_staged-Fits d.staged k.watermark k.plan d.planned in
    let fits = anchor-Fits (k.plan.max_staged) k.watermark k.state top hw hs in
    let above : (e : ℕ)
        → AtLeast e (anchor_of (k.plan.max_staged) k.watermark k.state)
        → e < epoch_of k a.now_ms =
      λ e h. next_epoch-above a.now_ms e _ fits h in
    record {
      above_clock = next_epoch-now a.now_ms _ fits;
      above_staged = staged_below d.staged k.watermark k.plan _ d.planned (λ e s h.
          above e (
            state_keeps e _ k.state (mark_keeps e _ (decoded k.watermark) (e, s, h, omega arith))));
      above_state = λ st h.
          let same : k.state ≡ some st = ok_injective (sym d.state_read ∙ h) in
          above st.max_epoch_used (rw same (state_adds _ st));
      above_mark = λ w h.
          let same : k.watermark ≡ some w = ok_injective (sym d.mark_read ∙ h) in
          above (decode_serial_seq w).0 (
            state_keeps _ _ k.state
              (rw same (mark_adds _ (decode_serial_seq w).1 (k.plan.max_staged))));
    }

-- Where `open_table` succeeds, the answered watermark is an i64 and the recorded epoch, if any, is
-- one of 43 bits, the session's epoch is not before the clock, and is above the epoch of every staged
-- file, of the recorded state and of the watermark. It has 43 bits, and it is the epoch written into
-- the new state, so the condition on the recorded epoch holds again for the next session.
pub open_session-epoch :
    (table : Bytes) (ident : WriterIdentity) (cfg : Settings) (a : Answers) (o : Opened)
    → ((w : Option ℤ) → read_watermark a.watermark ≡ ok w → MarkFits w)
    → ((st : Option StateFile) → a.state ≡ ok st → StateFits st)
    → open_session table ident cfg a ≡ ok o
    → ((staged : List StagedFile) → a.listing ≡ ok staged → Anchored a staged o.epoch)
      × (o.epoch ≤ max_epoch_ms)
      × (o.state_written.max_epoch_used ≡ o.epoch)
unfolding opened new_state
open_session-epoch table ident cfg a o hw hs h =
    let d = open_inversion table ident cfg a o h in
    let epochs : epoch_of d.known a.now_ms ≡ o.epoch = ap (λ x. x.epoch) d.result in
    let written : epoch_of d.known a.now_ms ≡ o.state_written.max_epoch_used =
      ap (λ x. x.state_written.max_epoch_used) d.result in
    let anchored : Anchored a d.staged o.epoch =
      subst (Anchored a d.staged) epochs
        (known_epoch ident cfg a o d (hw _ d.mark_read) (hs _ d.state_read)) in
    let (fits, seq_fits, value) = encode_sound _ 0 d.first d.encoded in
    (
      λ staged read. rw (ok_injective (sym read ∙ d.staged_read)) anchored,
      rw (← epochs) fits,
      sym written ∙ epochs,
    )

-- A writer's own number for an offset it owns: recorded or staged.
abbrev pub IsAfter : ℤ → ℤ → Type 0
IsAfter rec z = next_i64 rec ≤ℤ z

merge_least :
    (x y : Option ℤ) (z : ℤ)
    → merge_resume x y ≡ some z
    → ((v : ℤ) → x ≡ some v → v ≤ℤ z) × ((rec : ℤ) → y ≡ some rec → IsAfter rec z)
unfolding merge_resume
merge_least none none z h = (λ v e. cc, λ rec e. cc)
merge_least (some v) none z h = (λ v e. ground arith, λ rec e. cc)
merge_least none (some rec) z h = (λ v e. cc, λ rec e. ground arith)
merge_least (some v) (some rec) z h = (λ u e. ground arith, λ r e. ground arith)

-- Where `open_table` succeeds and there is a position to resume at, the position is at or after the
-- successor of the end offset of every staged file, and at or after that of the recorded offset. The
-- staged offset that the writer starts with is the one before it.
pub open_session-resume :
    (table : Bytes) (ident : WriterIdentity) (cfg : Settings) (a : Answers) (o : Opened) (z : ℤ)
    → open_session table ident cfg a ≡ ok o
    → o.plan.kafka_resume_offset ≡ some z
    → ((staged : List StagedFile)
        → a.listing ≡ ok staged
        → All (λ f. next_i64 f.end_offset ≤ℤ z) staged)
      × ((st : StateFile) (rec : ℤ)
          → a.state ≡ ok (some st)
          → st.resume_offset ≡ some rec
          → next_i64 rec ≤ℤ z)
      × (o.staged_offset ≡ some (prev_i64 z))
unfolding opened merged_plan
open_session-resume table ident cfg a o z h resumes =
    let d = open_inversion table ident cfg a o h in
    let k = d.known in
    let merged : merge_resume (k.plan.kafka_resume_offset) (recorded k.state) ≡ some z =
      ap (λ x. x.plan.kafka_resume_offset) d.result ∙ resumes in
    let offset : before_offset (some z) ≡ o.staged_offset =
      ap before_offset (sym merged) ∙ ap (λ x. x.staged_offset) d.result in
    let (listed, after) = merge_least _ _ z merged in
    (
      λ staged read.
          rw (ok_injective (sym read ∙ d.staged_read))
            (staged_before d.staged k.watermark k.plan z d.planned listed),
      λ st rec read eq. after rec (ap recorded (ok_injective (sym d.state_read ∙ read)) ∙ eq),
      sym offset,
    )
  where
    staged_before :
        (staged : List StagedFile) (w : Option ℤ) (plan : RecoveryPlan) (z : ℤ)
        → (plan_recovery staged w).1 ≡ ok plan
        → ((v : ℤ) → plan.kafka_resume_offset ≡ some v → v ≤ℤ z)
        → All (λ f. next_i64 f.end_offset ≤ℤ z) staged
    staged_before staged w plan z planned le =
        let (empty, least) = plan_recovery_resume staged w plan planned in
        elim (Option-cases plan.kafka_resume_offset) [
          | inl e ↦ rw (empty e) tt
          | inr (v, e) ↦ (least v e z).0 (le v e)
        ]
