-- ===== src/Lock/Heartbeat.antt =====
-- src/table.rs: `spawn_lock_heartbeat`, the task that renews the lease or fences the writer. Instants and
-- durations are milliseconds; `at` is the monotonic clock, `wall` the one that is written.
use relyt_ingest.Common.{
  ℕ, ◌+◌, ◌-◌, ◌≤◌, ◌<◌, ◌≡◌, ◌⊎◌, inl, inr, refl, ◌≢◌, Option, none, some, ltb, leb, if◌then◌else◌,
  Bool-cases, min, String,
}
use relyt_ingest.Common.Text.{Bytes, bytes_eq, bytes_eq_iff}
use relyt_ingest.Errors.{Result, ok, err}
use relyt_ingest.Lock.{LockFile}

-- What one turn of the task meets: the stop of `close`, a writer that is gone, or a tick of a live one.
pub data Beat : Type 0 where
  stopped : Beat
  dropped : Result (Option LockFile) → Beat
  tick : (read : Result (Option LockFile)) (write : Result (Unit {0})) (wall at : ℕ) → Beat

-- What the turn does to the lock.
pub data Effect : Type 0 where
  nothing : Effect
  renew : LockFile → Effect
  delete : Effect

pub data Task : Type 0 where
  running : (since_beat last_verified : ℕ) → Task
  ended : Task
  fenced : String → Task

pub record Rhythm : Type 0 where
  pub me : Bytes
  pub period : ℕ
  pub lease : ℕ

abbrev pub tick_of : Rhythm → ℕ
tick_of r = min 2000 r.period

abbrev pub renewed : LockFile → ℕ → LockFile
renewed l now = record {
  v = l.v;
  instance_uuid = l.instance_uuid;
  pid = l.pid;
  host = l.host;
  acquired_at_ms = l.acquired_at_ms;
  heartbeat_at_ms = now;
}

-- A failure of the store ends the task once the lease was not verified for all its length.
abbrev pub unverified : Rhythm → String → ℕ → ℕ → ℕ → Task
unverified r reason since last_verified at =
    if leb r.lease (at - last_verified) then fenced reason else running since last_verified

abbrev pub on_write : Rhythm → Result (Unit {0}) → ℕ → ℕ → ℕ → Task
on_write r (ok done) since last_verified at = running 0 at
on_write r (err e) since last_verified at =
    unverified r "could not renew the lease" since last_verified at

unfoldable pub on_read :
    Rhythm → Result (Option LockFile) → Result (Unit {0}) → ℕ → ℕ → ℕ → ℕ → Task × Effect
unfolding bytes_eq
on_read r (ok (some l)) write wall at since last_verified =
    if bytes_eq l.instance_uuid r.me
    then (on_write r write since last_verified at, renew (renewed l wall))
    else (fenced "this writer was preempted and must stop", nothing)
on_read r (ok none) write wall at since last_verified = (fenced "the lease was deleted", nothing)
on_read r (err e) write wall at since last_verified =
    (unverified r "could not verify the lease" since last_verified at, nothing)

abbrev pub on_drop : Rhythm → Result (Option LockFile) → Effect
on_drop r (ok (some l)) = if bytes_eq l.instance_uuid r.me then delete else nothing
on_drop r (ok none) = nothing
on_drop r (err e) = nothing

unfoldable pub heartbeat : Rhythm → Task → Beat → Task × Effect
unfolding on_read
heartbeat r (running since last_verified) stopped = (ended, nothing)
heartbeat r (running since last_verified) (dropped read) = (ended, on_drop r read)
heartbeat r (running since last_verified) (tick read write wall at) =
    let beat = on_read r read write wall at (since + tick_of r) last_verified in
    if ltb (since + tick_of r) r.period
    then (running (since + tick_of r) last_verified, nothing)
    else beat
heartbeat r ended beat = (ended, nothing)
heartbeat r (fenced reason) beat = (fenced reason, nothing)

-- The lock as a turn reads it.
abbrev pub IsRead : Beat → Option LockFile → Type 0
IsRead stopped lock = ⊥
IsRead (dropped read) lock = read ≡ ok lock
IsRead (tick read write wall at) lock = read ≡ ok lock

abbrev pub IsOwn : Rhythm → Beat → Effect → Type 0
IsOwn r beat nothing = Unit
IsOwn r beat delete = (l : LockFile) × IsRead beat (some l) × (l.instance_uuid ≡ r.me)
IsOwn r beat (renew new) =
    (l : LockFile) × IsRead beat (some l) × (l.instance_uuid ≡ r.me) × (new.instance_uuid ≡ r.me)

drop-IsOwn :
    (r : Rhythm) (read : Result (Option LockFile)) → IsOwn r (dropped read) (on_drop r read)
drop-IsOwn r (ok none) = tt
drop-IsOwn r (err e) = tt
drop-IsOwn r (ok (some l)) = elim (Bool-cases (bytes_eq l.instance_uuid r.me)) [
  | inl own ↦ rw own (l, refl, (bytes_eq_iff l.instance_uuid r.me).0 own)
  | inr other ↦ rw other tt
]

read-IsOwn :
    (r : Rhythm) (read : Result (Option LockFile)) (write : Result (Unit {0}))
    (wall at since last_verified : ℕ)
    → IsOwn r (tick read write wall at) (on_read r read write wall at since last_verified).1
unfolding on_read
read-IsOwn r (ok none) write wall at since last_verified = tt
read-IsOwn r (err e) write wall at since last_verified = tt
read-IsOwn r (ok (some l)) write wall at since last_verified =
    elim (Bool-cases (bytes_eq l.instance_uuid r.me)) [
      | inl own ↦ rw own (
        l,
        refl,
        (bytes_eq_iff l.instance_uuid r.me).0 own,
        (bytes_eq_iff l.instance_uuid r.me).0 own,
      )
      | inr other ↦ rw other tt
    ]

-- What a turn may do: a task that goes on writes or deletes only the lock that it read as its own; one
-- that has ended or fenced the writer stays so and leaves the lock alone.
abbrev pub IsOwnTurn : Rhythm → Task → Beat → Task × Effect → Type 0
IsOwnTurn r (running since last_verified) beat turn = IsOwn r beat turn.1
IsOwnTurn r ended beat turn = turn ≡ (ended, nothing)
IsOwnTurn r (fenced reason) beat turn = turn ≡ (fenced reason, nothing)

-- The task writes or deletes the lock only in a turn that has just read it as its own, and what it writes is
-- its own again. Once it has ended or fenced the writer, it does nothing to the lock, whatever it meets,
-- and it stays ended or fenced for the same reason.
pub heartbeat-IsOwn :
    (r : Rhythm) (task : Task) (beat : Beat) → IsOwnTurn r task beat (heartbeat r task beat)
unfolding heartbeat
heartbeat-IsOwn r ended beat = refl
heartbeat-IsOwn r (fenced reason) beat = refl
heartbeat-IsOwn r (running since last_verified) stopped = tt
heartbeat-IsOwn r (running since last_verified) (dropped read) = drop-IsOwn r read
heartbeat-IsOwn r (running since last_verified) (tick read write wall at) =
    elim (Bool-cases (ltb (since + tick_of r) r.period)) [
      | inl early ↦ rw early tt
      | inr due ↦ rw due (read-IsOwn r read write wall at (since + tick_of r) last_verified)
    ]

-- The lock was read as one's own, or could not be read.
abbrev pub IsHeld : Rhythm → Result (Option LockFile) → Type 0
IsHeld r (ok (some l)) = l.instance_uuid ≡ r.me
IsHeld r (ok none) = ⊥
IsHeld r (err e) = Unit

-- The lock was read, and it is gone or another's.
abbrev pub IsForeign : Rhythm → Result (Option LockFile) → Type 0
IsForeign r (ok (some l)) = l.instance_uuid ≢ r.me
IsForeign r (ok none) = Unit
IsForeign r (err e) = ⊥

-- The turn goes on where the lock is held and was verified less than the lease's length ago. It
-- fences where the lock is foreign, or where it is held and was not verified for that long. It never ends
-- the task quietly. `before` is the last verification ahead of the turn.
abbrev pub IsSafe : Rhythm → Result (Option LockFile) → ℕ → ℕ → Task → Type 0
IsSafe r read at before (running since last_verified) =
    IsHeld r read × (at - last_verified < r.lease)
IsSafe r read at before ended = ⊥
IsSafe r read at before (fenced reason) =
    IsForeign r read ⊎ (IsHeld r read × (r.lease ≤ at - before))
