-- ===== src/Lock/Turns.antt =====
-- src/client.rs: what a turn of the acquire loop decides, and why.
use relyt_ingest.Common.{
  ℕ, ◌-◌, ◌≤◌, ◌<◌, ◌≡◌, ◌≢◌, ◌⊎◌, inl, inr, refl, Bool, true, false, none, some, ◌&&◌, not, leb,
  arith, Bool-cases, ltb→lt,
}
use relyt_ingest.Common.Text.{Bytes, codes, bytes_eq_iff}
use relyt_ingest.Errors.{ok, err, writer_locked}
use relyt_ingest.Lock.{
  LockFile, is_stale, Machine, provably_dead_on_this_host, Look, take, wait, refuse,
  acquire_wait_ms, is_foreign, turn_on,
}

-- The holder ran on this host and its process id is gone.
abbrev pub IsDead : LockFile → Machine → Type 0
IsDead lock machine =
    (machine.linux ≡ true)
    × (lock.host ≢ codes "unknown-host")
    × (lock.host ≡ machine.hostname)
    × (machine.pid_exists lock.pid ≡ false)

-- Why a turn may end the wait.
abbrev pub IsFree : Bytes → ℕ → Look → Type 0
IsFree uuid lease_ms look =
    (look.lock ≡ ok none)
    ⊎ ((cur : LockFile) × (look.lock ≡ ok (some cur))
        × ((cur.instance_uuid ≡ uuid)
            ⊎ (lease_ms < look.later - cur.heartbeat_at_ms)
            ⊎ IsDead cur look.machine))

-- Why a turn goes on: a fresh lease of another.
abbrev pub IsHeld : Bytes → ℕ → Look → Type 0
IsHeld uuid lease_ms look =
    (cur : LockFile) × (look.lock ≡ ok (some cur))
    × (cur.instance_uuid ≢ uuid)
    × (look.later - cur.heartbeat_at_ms ≤ lease_ms)

IsDead-of :
    (lock : LockFile) (machine : Machine)
    → provably_dead_on_this_host lock machine ≡ true
    → IsDead lock machine
unfolding provably_dead_on_this_host
IsDead-of lock machine h = ground (
  arith,
  h,
  bytes_eq_iff lock.host (codes "unknown-host"),
  bytes_eq_iff lock.host machine.hostname,
)

foreign_of : (uuid : Bytes) (cur : LockFile) → is_foreign uuid cur ≡ true → cur.instance_uuid ≢ uuid
foreign_of uuid cur h = ground (arith, h, bytes_eq_iff cur.instance_uuid uuid)

own_of : (uuid : Bytes) (cur : LockFile) → is_foreign uuid cur ≡ false → cur.instance_uuid ≡ uuid
own_of uuid cur h = ground (arith, h, bytes_eq_iff cur.instance_uuid uuid)

and_right : (a b : Bool) → (a && b) ≡ true → b ≡ true
and_right true b h = h
and_right false b h = cc h

pub turn_on-cases :
    (uuid : Bytes) (lease_ms : ℕ) (look : Look) (cur : LockFile)
    → (turn_on uuid lease_ms look cur ≡ take)
        × ((cur.instance_uuid ≡ uuid)
            ⊎ (lease_ms < look.later - cur.heartbeat_at_ms)
            ⊎ IsDead cur look.machine)
      ⊎ ((turn_on uuid lease_ms look cur ≡ wait)
          × (cur.instance_uuid ≢ uuid)
          × (look.later - cur.heartbeat_at_ms ≤ lease_ms)
          × (look.elapsed_ms < acquire_wait_ms))
      ⊎ (turn_on uuid lease_ms look cur
          ≡ refuse (err (writer_locked "another process is writing this")))
unfolding turn_on
turn_on-cases uuid lease_ms look cur = elim (Bool-cases (is_foreign uuid cur)) [
  | inr own ↦ rw own (inl (refl, inl (own_of uuid cur own)))
  | inl foreign ↦
      rw foreign
        (elim (Bool-cases
          (not (is_stale cur look.now lease_ms) && provably_dead_on_this_host cur look.machine)) [
            | inl dead ↦ rw dead (
                inl (
                  refl,
                  inr (
                      inr (
                        IsDead-of cur look.machine
                          (and_right (not (is_stale cur look.now lease_ms)) _ dead))),
                ))
            | inr alive ↦ rw alive (elim (Bool-cases (is_stale cur look.later lease_ms)) [
              | inl stale ↦
                  rw stale (
                    inl
                      (refl, inr (inl (ltb→lt lease_ms (look.later - cur.heartbeat_at_ms) stale))))
              | inr fresh ↦ rw fresh (elim (Bool-cases (leb acquire_wait_ms look.elapsed_ms)) [
                | inl over ↦ rw over (inr (inr refl))
                | inr early ↦ rw early (
                    inr (
                      inl (
                        refl,
                        foreign_of uuid cur foreign,
                        ground (arith, fresh),
                        ground (arith, early),
                      )))
              ])
            ])
          ])
]
