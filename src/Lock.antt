-- ===== src/Lock.antt =====
-- src/lock.rs and src/client.rs: the record of a writer's lease and how a writer takes it. The clock, the
-- host and the store are read from outside: each turn of a loop takes what it read as an argument.
pub mod Turns
pub mod Acquire
pub mod Heartbeat
pub mod Release
pub mod Tests
use relyt_ingest.Common.{
  ℕ, ◌+◌, ◌-◌, ◌*◌, Bool, true, false, Option, none, some, List, [], ◌∷◌, ◌&&◌, ◌||◌, not, ltb, leb,
  if◌then◌else◌,
}
use relyt_ingest.Common.Text.{Bytes, bytes_eq, codes}
use relyt_ingest.Errors.{Result, ok, err, ◌>>=◌, ◌>>◌, writer_locked}

pub record LockFile : Type 0 where
  pub v : ℕ
  pub instance_uuid : Bytes
  pub pid : ℕ
  pub host : Bytes
  pub acquired_at_ms : ℕ
  pub heartbeat_at_ms : ℕ

abbrev pub lock_version : ℕ
lock_version = 1

-- `LockFile::new`, with the process id, the host and the clock that it reads.
abbrev pub new_lock : Bytes → ℕ → Bytes → ℕ → LockFile
new_lock instance_uuid pid host now = record {
  v = lock_version;
  instance_uuid = instance_uuid;
  pid = pid;
  host = host;
  acquired_at_ms = now;
  heartbeat_at_ms = now;
}

-- The subtraction stops at 0.
abbrev pub is_stale : LockFile → ℕ → ℕ → Bool
is_stale lock now lease_timeout_ms = ltb lease_timeout_ms (now - lock.heartbeat_at_ms)

-- What a process can see of its machine: whether it is Linux, its host name, and which ids are in /proc.
pub record Machine : Type 0 where
  pub linux : Bool
  pub hostname : Bytes
  pub pid_exists : ℕ → Bool

unfoldable pub provably_dead_on_this_host : LockFile → Machine → Bool
unfolding bytes_eq
provably_dead_on_this_host lock machine =
    if not machine.linux
    then false
    else if bytes_eq lock.host (codes "unknown-host") || not (bytes_eq lock.host machine.hostname)
    then false
    else not (machine.pid_exists lock.pid)

-- What one turn of the acquire loop reads: the lock, the clock, at each of the two tests of staleness that
-- matter, the machine, and the time since the loop began.
pub record Look : Type 0 where
  pub lock : Result (Option LockFile)
  pub now : ℕ
  pub later : ℕ
  pub machine : Machine
  pub elapsed_ms : ℕ

-- A turn ends the loop, with an error or to take the lease, or goes on.
pub data Turn : Type 0 where
  take : Turn
  wait : Turn
  refuse : Result (Unit {0}) → Turn

abbrev pub acquire_wait_ms : ℕ
acquire_wait_ms = 10_000

abbrev pub is_foreign : Bytes → LockFile → Bool
is_foreign uuid cur = not (bytes_eq cur.instance_uuid uuid)

unfoldable pub turn_on : Bytes → ℕ → Look → LockFile → Turn
unfolding provably_dead_on_this_host bytes_eq
turn_on uuid lease_ms look cur =
    if is_foreign uuid cur
      && not (is_stale cur look.now lease_ms)
      && provably_dead_on_this_host cur look.machine
    then take
    else if is_foreign uuid cur && not (is_stale cur look.later lease_ms)
    then (if leb acquire_wait_ms look.elapsed_ms
        then refuse (err (writer_locked "another process is writing this"))
        else wait)
    else take

abbrev pub turn_of : Bytes → ℕ → Look → Result (Option LockFile) → Turn
turn_of uuid lease_ms look (err e) = refuse (err e)
turn_of uuid lease_ms look (ok none) = take
turn_of uuid lease_ms look (ok (some cur)) = turn_on uuid lease_ms look cur

abbrev pub loop_step : Turn → Option (Result (Unit {0})) → Option (Result (Unit {0}))
loop_step take rest = some (ok tt)
loop_step wait rest = rest
loop_step (refuse r) rest = some r

-- The loop over what its turns read; `none` where it has not ended.
unfoldable pub acquire_loop : Bytes → ℕ → List Look → Option (Result (Unit {0}))
unfolding turn_on
acquire_loop uuid lease_ms [] = none
acquire_loop uuid lease_ms (look ∷ looks) =
    let rest = acquire_loop uuid lease_ms looks in
    loop_step (turn_of uuid lease_ms look look.lock) rest

-- The last step: whose record stands there after the delay.
unfoldable pub read_back : Bytes → Option LockFile → Result (Unit {0})
unfolding bytes_eq
read_back uuid none = err (writer_locked "lock vanished during acquire")
read_back uuid (some l) =
    if bytes_eq l.instance_uuid uuid then ok tt else err (writer_locked "lost the acquire race")

abbrev pub claim :
    Bytes
    → Result (Unit {0})
    → Result (Option LockFile)
    → Option (Result (Unit {0}))
    → Option (Result (Unit {0}))
claim uuid write back none = none
claim uuid write back (some decided) = some (decided >> write >> (back >>= read_back uuid))

-- `write` and `back` are what the store answers to the write and to the read after it.
unfoldable pub acquire_writer_lease :
    Bytes
    → ℕ
    → List Look
    → Result (Unit {0})
    → Result (Option LockFile)
    → Option (Result (Unit {0}))
unfolding acquire_loop read_back
acquire_writer_lease uuid lease_ms looks write back =
    claim uuid write back (acquire_loop uuid lease_ms looks)
