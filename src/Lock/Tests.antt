-- ===== src/Lock/Tests.antt =====
-- A writer that finds a fresh lease, then none; a renewal; and a release at the second attempt.
use relyt_ingest.Common.{ℕ, ◌+◌, ◌≡◌, refl, true, false, Option, none, some, List, [], ◌∷◌, arith}
use relyt_ingest.Common.Text.{Bytes, codes, bytes_eq}
use relyt_ingest.Errors.{Result, ok}
use relyt_ingest.Lock.{LockFile, new_lock, Machine, Look, acquire_writer_lease}
use relyt_ingest.Lock.Acquire.{IsTaken, acquire_writer_lease-IsTaken, acquire_writer_lease_ends}
use relyt_ingest.Lock.Heartbeat.{Rhythm, tick, running, heartbeat, IsOwnTurn, heartbeat-IsOwn}

abbrev me : Bytes
me = codes "me"

abbrev mine : LockFile
mine = new_lock me 1 (codes "a") 9000

abbrev other : LockFile
other = new_lock (codes "other") 2 (codes "b") 9000

abbrev machine : Machine
machine = record { linux = true; hostname = codes "a"; pid_exists = λ p. false }

abbrev look : Result (Option LockFile) → ℕ → Look
look read elapsed = record {
  lock = read;
  now = 10000 + elapsed;
  later = 10000 + elapsed;
  machine = machine;
  elapsed_ms = elapsed;
}

abbrev looks : List Look
looks = look (ok (some other)) 0 ∷ look (ok none) 2000 ∷ []

taken : acquire_writer_lease me 180000 looks (ok tt) (ok (some mine)) ≡ some (ok tt)
unfolding acquire_writer_lease bytes_eq
taken = refl

acquire_writer_lease-IsTaken_example :
    IsTaken me 180000 looks
    × (◌≡◌ {A = Result (Unit {0})} (ok tt) (ok tt))
    × ((l : LockFile) × (◌≡◌ {A = Result (Option LockFile)} (ok (some mine)) (ok (some l)))
        × (l.instance_uuid ≡ me))
acquire_writer_lease-IsTaken_example =
    acquire_writer_lease-IsTaken me 180000 looks (ok tt) (ok (some mine)) taken

abbrev held : List Look
held =
    look (ok (some other)) 0
    ∷ look (ok (some other)) 2001
    ∷ look (ok (some other)) 4002
    ∷ look (ok (some other)) 6003
    ∷ look (ok (some other)) 8004
    ∷ look (ok (some other)) 10005
    ∷ []

acquire_writer_lease_ends_example :
    (r : Result (Unit {0})) × (acquire_writer_lease me 180000 held (ok tt) (ok (some mine))
      ≡ some r)
acquire_writer_lease_ends_example =
    acquire_writer_lease_ends me 180000 held (ok tt) (ok (some mine))
      (omega arith, (omega arith, (omega arith, (omega arith, (omega arith, (omega arith, tt))))))
      (omega arith)

abbrev rhythm : Rhythm
rhythm = record { me = me; period = 30000; lease = 180000 }

heartbeat-IsOwn_example :
    IsOwnTurn rhythm
      (running 28000 10000)
      (tick (ok (some mine)) (ok tt) 100000 40000)
      (heartbeat rhythm (running 28000 10000) (tick (ok (some mine)) (ok tt) 100000 40000))
heartbeat-IsOwn_example =
    heartbeat-IsOwn rhythm (running 28000 10000) (tick (ok (some mine)) (ok tt) 100000 40000)
