-- ===== src/Writer/Persist.antt =====
-- src/table.rs, `persist_state_if_due`: the state object of a running writer. The fence is looked at
-- twice, and another task may set it in between; the write is the store's. The state is locked twice, and
-- what other tasks do to it in between is an argument.
use mathlib.Core.Path.{subst}
use relyt_ingest.Common.{
  ℕ, ◌-◌, ◌≡◌, refl, sym, ◌⊎◌, inl, inr, Bool, true, false, ◌||◌, Option, none, some, leb,
  if◌then◌else◌, arith, Bool-cases,
}
use relyt_ingest.Common.Int.{ℤ, ◌≤ℤ◌, ltb_ℤ, max_ℤ}
use relyt_ingest.Common.Text.{Bytes}
use relyt_ingest.Errors.{Error, Result, ok, err}
use relyt_ingest.Naming.{WriterIdentity}
use relyt_ingest.State.{StateFile, state_version}
use relyt_ingest.Writer.{WriterState, Clock}

pub record Names : Type 0 where
  pub database : Bytes
  pub schema : Bytes
  pub table : Bytes

-- What a tick finds: the fence before and right before the write, the end offset that the server
-- confirmed last, the clocks, the answer of the store, and the clock once the store has answered.
pub record Tick : Type 0 where
  pub fenced_before : Bool
  pub fenced_at_write : Bool
  pub confirmed_end : Option ℤ
  pub clock : Clock
  pub written : Result (Unit {0})
  pub recorded_at : ℕ

abbrev pub is_advanced : Option ℤ → Option ℤ → Bool
is_advanced (some c) (some p) = ltb_ℤ p c
is_advanced (some c) none = true
is_advanced none p = false

abbrev pub forward : Option ℤ → Option ℤ → Option ℤ
forward (some c) (some p) = some (max_ℤ c p)
forward (some c) none = some c
forward none p = p

-- Nothing that is recorded is below what was recorded before.
abbrev pub NotBelow : Option ℤ → Option ℤ → Type 0
NotBelow none new = Unit
NotBelow (some old) none = ⊥
NotBelow (some old) (some new) = old ≤ℤ new

NotBelow-refl : (o : Option ℤ) → NotBelow o o
NotBelow-refl none = tt
NotBelow-refl (some o) = omega arith

forward-NotBelow : (c p : Option ℤ) → NotBelow p (forward c p)
forward-NotBelow none p = NotBelow-refl p
forward-NotBelow (some c) none = tt
forward-NotBelow (some c) (some p) = ground arith

forward_source : (c p : Option ℤ) → (forward c p ≡ c) ⊎ (forward c p ≡ p)
forward_source none p = inr refl
forward_source (some c) none = inl refl
forward_source (some c) (some p) = ground arith

module _ {Batch Avg : Type 0} where
  unfoldable pub state_file : WriterIdentity → Names → Tick → WriterState Batch Avg → StateFile
  state_file ident names t st = record {
    v = state_version;
    resume_offset = forward t.confirmed_end st.resume_persisted;
    max_epoch_used = st.epoch_ms;
    cluster_id = ident.cluster_id;
    database = names.database;
    schema = names.schema;
    table = names.table;
    writer_id = ident.writer_id;
    updated_at_ms = t.clock.wall_ms;
  }

  unfoldable pub is_due : ℕ → Tick → WriterState Batch Avg → Bool
  is_due heartbeat_every t st =
      is_advanced t.confirmed_end st.resume_persisted
      || leb heartbeat_every (t.clock.now - st.state_written_at)

  -- The second section under the lock: what was read in the first is recorded, over whatever the
  -- state has become.
  recorded_write :
      Tick → Option ℤ → WriterState Batch Avg → Result (Unit {0}) → WriterState Batch Avg
  recorded_write t resume later (err e) = later
  recorded_write t resume later (ok u) = record later {
    resume_persisted = resume;
    state_written_at = t.recorded_at;
  }

  -- The state after a tick, and the object that it wrote or tried to write.
  unfoldable pub persist_state_if_due :
      WriterIdentity
      → Names
      → ℕ
      → Tick
      → (WriterState Batch Avg → WriterState Batch Avg)
      → WriterState Batch Avg
      → WriterState Batch Avg × Option StateFile
  unfolding state_file is_due recorded_write
  persist_state_if_due ident names heartbeat_every t meanwhile st =
      if t.fenced_before
      then (st, none)
      else if is_due heartbeat_every t st
      then if t.fenced_at_write then (meanwhile st, none) else (
        recorded_write t (forward t.confirmed_end st.resume_persisted) (meanwhile st) t.written,
        some (state_file ident names t st),
      )
      else (st, none)

  -- What is recorded after the store has answered.
  abbrev pub IsRecorded : Tick → WriterState Batch Avg → StateFile → WriterState Batch Avg → Type 0
  IsRecorded t later file after =
      ((t.written ≡ ok tt) × (after.resume_persisted ≡ file.resume_offset))
      ⊎ ((e : Error) × (t.written ≡ err e) × (after ≡ later))

  recorded_write-IsRecorded :
      (t : Tick) (later : WriterState Batch Avg) (file : StateFile) (r : Result (Unit {0}))
      → t.written ≡ r
      → IsRecorded t later file (recorded_write t file.resume_offset later r)
  unfolding recorded_write
  recorded_write-IsRecorded t later file (ok u) e = inl (e, refl)
  recorded_write-IsRecorded t later file (err x) e = inr (x, e, refl)

  -- What a tick may write, and what it leaves recorded; `later` is the state that others have left.
  pub record IsSafeTick (t : Tick) (st later st' : WriterState Batch Avg) (file : StateFile)
      : Type 0 where
    pub unfenced : (t.fenced_before ≡ false) × (t.fenced_at_write ≡ false)
    pub offset_moves_on : NotBelow st.resume_persisted file.resume_offset
    pub offset_source :
        (file.resume_offset ≡ t.confirmed_end) ⊎ (file.resume_offset ≡ st.resume_persisted)
    pub epoch_kept : file.max_epoch_used ≡ st.epoch_ms
    pub recorded : IsRecorded t later file st'

  -- The tick wrote an object, or tried to; or it left the state to the others.
  abbrev pub IsTick :
      Tick
      → WriterState Batch Avg
      → WriterState Batch Avg
      → WriterState Batch Avg × Option StateFile
      → Type 0
  IsTick t st later (st', object) =
      ((file : StateFile) × (object ≡ some file) × IsSafeTick t st later st' file)
      ⊎ ((object ≡ none) × ((st' ≡ st) ⊎ (st' ≡ later)))

  written_tick :
      (ident : WriterIdentity) (names : Names) (t : Tick) (st later : WriterState Batch Avg)
      → t.fenced_before ≡ false
      → t.fenced_at_write ≡ false
      → IsSafeTick t st later
          (recorded_write t (forward t.confirmed_end st.resume_persisted) later t.written)
          (state_file ident names t st)
  unfolding state_file
  written_tick ident names t st later f g = record {
    unfenced = (f, g);
    offset_moves_on = forward-NotBelow t.confirmed_end st.resume_persisted;
    offset_source = forward_source t.confirmed_end st.resume_persisted;
    epoch_kept = refl;
    recorded = recorded_write-IsRecorded t later (state_file ident names t st) t.written refl;
  }

  -- An object that a tick writes is written by a writer that is not fenced, at either check. Its resume
  -- offset is the one that the server confirmed last or the one recorded before, and not below the
  -- latter; its epoch is the one the writer seals under. Where the store took it, the writer then holds its
  -- offset as recorded, whatever others did to the state while the store was at work; where the store
  -- refused it, the state is as others left it. A tick that writes nothing changes nothing itself.
  pub persist_state_if_due-IsSafeTick :
      (ident : WriterIdentity) (names : Names) (heartbeat_every : ℕ) (t : Tick)
      (meanwhile : WriterState Batch Avg → WriterState Batch Avg) (st : WriterState Batch Avg)
      → IsTick t st (meanwhile st) (persist_state_if_due ident names heartbeat_every t meanwhile st)
  unfolding persist_state_if_due
  persist_state_if_due-IsSafeTick ident names heartbeat_every t meanwhile st =
      elim (Bool-cases t.fenced_before) [
        | inl f ↦ rw f (inr (refl, inl refl))
        | inr f ↦ elim (Bool-cases (is_due heartbeat_every t st)) [
          | inl d ↦ elim (Bool-cases t.fenced_at_write) [
            | inl g ↦ rw (f, d, g) (inr (refl, inr refl))
            | inr g ↦ if_written f d g
          ]
          | inr d ↦ rw (f, d) (inr (refl, inl refl))
        ]
      ]
    where
      if_written :
          t.fenced_before ≡ false
          → is_due heartbeat_every t st ≡ true
          → t.fenced_at_write ≡ false
          → IsTick t st
              (meanwhile st)
              (persist_state_if_due ident names heartbeat_every t meanwhile st)
      if_written f d g =
          let file = state_file ident names t st in
          let run : persist_state_if_due ident names heartbeat_every t meanwhile st ≡ (
            recorded_write t (forward t.confirmed_end st.resume_persisted) (meanwhile st) t.written,
            some file,
          ) =
            rw (f, d, g) refl in
          subst (IsTick t st (meanwhile st)) (sym run)
            (inl (file, refl, written_tick ident names t st (meanwhile st) f g))
