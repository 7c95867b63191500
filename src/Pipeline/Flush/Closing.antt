-- ===== src/Pipeline/Flush/Closing.antt =====
-- What `close` does, and in which order.
use mathlib.Core.Path.{subst}
use mathlib.Core.Option.{some-injective}
use relyt_ingest.Common.{
  ℕ, ◌≡◌, refl, sym, ◌⊎◌, inl, inr, Bool, false, Bool-cases, Option, none, some, List, [], ◌∷◌,
  ◌++◌,
}
use relyt_ingest.Common.Int.{ℤ}
use relyt_ingest.Common.Text.{Bytes}
use relyt_ingest.Errors.{Error, Result, ok, err}
use relyt_ingest.Naming.{WriterIdentity}
use relyt_ingest.State.{StateFile}
use relyt_ingest.Lock.Release.{IsGone, release_lease, release_lease_iff}
use relyt_ingest.Writer.{WriterConfig, WriterState, Clock}
use relyt_ingest.Writer.Handover.{Outcome}
use relyt_ingest.Writer.Persist.{
  Names, NotBelow, IsTick, persist_state_if_due, persist_state_if_due-IsSafeTick,
}
use relyt_ingest.Pipeline.Flush.{
  FlushMeeting, CloseMeeting, Closed, Act, wrote, heartbeat_stopped, released, writing,
  flush_pipeline, closing, checked_close, close,
}

module _ {Batch Avg : Type 0} (me : Bytes) (c : CloseMeeting Batch Avg) where
  -- The release says that nothing is left only where an attempt saw no lock, saw another's, or
  -- deleted its own.
  abbrev pub IsReleased : Bool → Type 0
  IsReleased gone = (gone ≡ false) ⊎ (IsGone me c.first ⊎ IsGone me c.second ⊎ IsGone me c.third)

  -- The state object of a writer that is not fenced, which does not go back and keeps the epoch.
  abbrev pub IsLastState : WriterState Batch Avg → StateFile → Type 0
  IsLastState st file =
      (c.tick.fenced_before ≡ false)
      × (c.tick.fenced_at_write ≡ false)
      × NotBelow st.resume_persisted file.resume_offset
      × (file.max_epoch_used ≡ st.epoch_ms)

  -- First the state object, if it is written at all; then the wait for the heartbeat; and the
  -- release of the lease last. Each happens once.
  abbrev pub InTurn : WriterState Batch Avg → List Act → Type 0
  InTurn st (wrote file ∷ heartbeat_stopped joined ∷ released gone ∷ []) =
      IsLastState st file × (joined ≡ c.is_joined) × IsReleased gone
  InTurn st (heartbeat_stopped joined ∷ released gone ∷ []) =
      (joined ≡ c.is_joined) × IsReleased gone
  InTurn st _ = ⊥

  release_lease-IsReleased : IsReleased (release_lease me c.first c.second c.third)
  release_lease-IsReleased = elim (Bool-cases (release_lease me c.first c.second c.third)) [
    | inl gone ↦ inr ((release_lease_iff me c.first c.second c.third).0 gone)
    | inr left ↦ inl left
  ]

  acts-InTurn :
      (st later st' : WriterState Batch Avg) (object : Option StateFile) (gone : Bool)
      → IsTick c.tick st later (st', object)
      → IsReleased gone
      → InTurn st (writing object ++ heartbeat_stopped c.is_joined ∷ released gone ∷ [])
  acts-InTurn st later st' none gone h left = (refl, left)
  acts-InTurn st later st' (some file) gone (inl (x, e, safe)) left =
      let same : x ≡ file = some-injective _ _ (sym e) in
      (
        subst (IsLastState st) same
            (safe.unfenced.0, safe.unfenced.1, safe.offset_moves_on, safe.epoch_kept),
        refl,
        left,
      )
  acts-InTurn st later st' (some file) gone (inr (e, kept)) left = absurd (cc)

module _ {Batch Avg : Type 0} (after : ℕ) (cfg : WriterConfig) (ident : WriterIdentity)
    (names : Names) (heartbeat_every : ℕ) (me : Bytes) (c : CloseMeeting Batch Avg) (clock : Clock)
    (f : FlushMeeting Batch Avg) (st : WriterState Batch Avg) where
  abbrev shut : Closed
  shut = close after cfg ident names heartbeat_every me c clock f st

  -- The stopped writer or the failed flush is reported, and nothing else is done.
  abbrev pub IsRefused : Type 0
  IsRefused =
      (e : Error) × (shut.result ≡ err e)
      × (shut.acts ≡ [])
      × ((f.health ≡ some e)
          ⊎ ((f.health ≡ none) × ((flush_pipeline after cfg ident clock f st).result ≡ err e)))

  -- The flush returned well before anything else was done, in turn.
  abbrev pub IsDrained : Type 0
  IsDrained =
      let o = flush_pipeline after cfg ident clock f st in
      (f.health ≡ none)
      × (o.result ≡ ok tt)
      × ((offset : Option ℤ) × (shut.result ≡ ok offset))
      × InTurn me c o.state shut.acts

  -- `close` either refuses, with the error of the stopped writer or of the flush, and then writes no
  -- state, stops no heartbeat and releases no lease; or its flush has returned well, and then it writes
  -- the state object, if at all, before it waits for the heartbeat, and releases the lease after that,
  -- whether the heartbeat has ended in time or not. The object is that of a writer that is not
  -- fenced, does not go back behind the recorded offset and keeps the epoch; and the release says that
  -- nothing is left only where one of its attempts saw no lock, saw another's or deleted its own.
  pub close_cases : IsRefused ⊎ IsDrained
  unfolding close checked_close closing
  close_cases = on f.health refl
    where
      o : Outcome Batch Avg (Unit {0})
      o = flush_pipeline after cfg ident clock f st

      persisted : WriterState Batch Avg × Option StateFile
      persisted = persist_state_if_due ident names heartbeat_every c.tick c.meanwhile o.state

      turns : InTurn me c o.state (
          writing persisted.1
          ++ heartbeat_stopped c.is_joined
            ∷ released (release_lease me c.first c.second c.third)
            ∷ [])
      turns =
          acts-InTurn me c o.state (c.meanwhile o.state) persisted.0 persisted.1
            (release_lease me c.first c.second c.third)
            (persist_state_if_due-IsSafeTick ident names heartbeat_every c.tick c.meanwhile o.state)
            (release_lease-IsReleased me c)

      flushed :
          (answer : Result (Unit {0})) → o.result ≡ answer → f.health ≡ none → IsRefused ⊎ IsDrained
      flushed (err e) failed well =
          inl (e, rw (well, failed) refl, rw (well, failed) refl, inr (well, failed))
      flushed (ok u) good well = inr (
        well,
        good,
        ((f.before_offset persisted.0).staged_offset, rw (well, good) refl),
        rw (well, good) turns,
      )

      on : (health : Option Error) → f.health ≡ health → IsRefused ⊎ IsDrained
      on (some e) ill = inl (e, rw ill refl, rw ill refl, inl ill)
      on none well = flushed o.result refl well
