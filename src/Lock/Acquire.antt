-- ===== src/Lock/Acquire.antt =====
-- src/client.rs: a lease is taken only from no one, from itself, from the stale or from the dead.
use relyt_ingest.Common.{
  ℕ, suc, ◌+◌, ◌*◌, ◌≤◌, ◌<◌, ◌≡◌, ◌≢◌, ◌⊎◌, inl, inr, refl, sym, ap, ◌∙◌, Option, none, some, List,
  [], ◌∷◌, arith, length,
}
use relyt_ingest.Common.Text.{Bytes, bytes_eq_iff}
use relyt_ingest.Errors.{Result, ok, err, ◌>>=◌, ◌>>◌}
use relyt_ingest.Lock.{
  LockFile, Look, Turn, take, wait, refuse, acquire_wait_ms, turn_of, acquire_loop, read_back,
  claim, acquire_writer_lease, loop_step,
}
use relyt_ingest.Lock.Turns.{IsFree, IsHeld, turn_on-cases}

-- What the loop decided at its last look, and the looks before it.
abbrev pub IsTaken : Bytes → ℕ → List Look → Type 0
IsTaken uuid lease_ms [] = ⊥
IsTaken uuid lease_ms (look ∷ looks) =
    IsFree uuid lease_ms look ⊎ (IsHeld uuid lease_ms look × IsTaken uuid lease_ms looks)

turn_of-take :
    (uuid : Bytes) (lease_ms : ℕ) (look : Look) (read : Result (Option LockFile))
    → look.lock ≡ read
    → turn_of uuid lease_ms look read ≡ take
    → IsFree uuid lease_ms look
turn_of-take uuid lease_ms look (err e) same h = cc h
turn_of-take uuid lease_ms look (ok none) same h = inl same
turn_of-take uuid lease_ms look (ok (some cur)) same h =
    elim (turn_on-cases uuid lease_ms look cur) [
      | inl (t, why) ↦ inr (cur, same, why)
      | inr (inl (t, a, b, c)) ↦ cc (h, t)
      | inr (inr t) ↦ cc (h, t)
    ]

turn_of-wait :
    (uuid : Bytes) (lease_ms : ℕ) (look : Look) (read : Result (Option LockFile))
    → look.lock ≡ read
    → turn_of uuid lease_ms look read ≡ wait
    → IsHeld uuid lease_ms look × (look.elapsed_ms < acquire_wait_ms)
turn_of-wait uuid lease_ms look (err e) same h = cc h
turn_of-wait uuid lease_ms look (ok none) same h = cc h
turn_of-wait uuid lease_ms look (ok (some cur)) same h =
    elim (turn_on-cases uuid lease_ms look cur) [
      | inl (t, why) ↦ cc (h, t)
      | inr (inl (t, a, b, c)) ↦ ((cur, same, a, b), c)
      | inr (inr t) ↦ cc (h, t)
    ]

turn_of-refuse :
    (uuid : Bytes) (lease_ms : ℕ) (look : Look) (read : Result (Option LockFile))
    {r : Result (Unit {0})}
    → turn_of uuid lease_ms look read ≡ refuse r
    → r ≢ ok tt
turn_of-refuse uuid lease_ms look (err e) h = λ g. cc (h, g)
turn_of-refuse uuid lease_ms look (ok none) h = cc h
turn_of-refuse uuid lease_ms look (ok (some cur)) h = elim (turn_on-cases uuid lease_ms look cur) [
  | inl (t, why) ↦ cc (h, t)
  | inr (inl (t, a, b, c)) ↦ cc (h, t)
  | inr (inr t) ↦ λ g. cc (h, t, g)
]

Turn-cases : (t : Turn) → (t ≡ take) ⊎ (t ≡ wait) ⊎ ((r : Result (Unit {0})) × (t ≡ refuse r))
Turn-cases take = inl refl
Turn-cases wait = inr (inl refl)
Turn-cases (refuse r) = inr (inr (r, refl))

loop-IsTaken :
    (uuid : Bytes) (lease_ms : ℕ) (looks : List Look)
    → acquire_loop uuid lease_ms looks ≡ some (ok tt)
    → IsTaken uuid lease_ms looks
unfolding acquire_loop
loop-IsTaken uuid lease_ms [] h = cc h
loop-IsTaken uuid lease_ms (look ∷ looks) h =
    let rest = acquire_loop uuid lease_ms looks in
    elim (Turn-cases (turn_of uuid lease_ms look look.lock)) [
      | inl t ↦ inl (turn_of-take uuid lease_ms look look.lock refl t)
      | inr (inl t) ↦ inr (
        (turn_of-wait uuid lease_ms look look.lock refl t).0,
        loop-IsTaken uuid lease_ms looks (ap (λ x. loop_step x rest) (sym t) ∙ h),
      )
      | inr (inr (r, t)) ↦ absurd (
          turn_of-refuse uuid lease_ms look look.lock t
            (some_injective (ap (λ x. loop_step x rest) (sym t) ∙ h)))
    ]
  where
    some_injective : {r s : Result (Unit {0})} → some r ≡ some s → r ≡ s
    some_injective e = cc e

back_own :
    (uuid : Bytes) (l : LockFile)
    → some (read_back uuid (some l)) ≡ some (ok tt)
    → l.instance_uuid ≡ uuid
unfolding read_back
back_own uuid l h = ground (arith, h, bytes_eq_iff l.instance_uuid uuid)

back_none : (uuid : Bytes) → some (read_back uuid none) ≢ some (ok tt)
unfolding read_back
back_none uuid h = cc h

claim_taken :
    (uuid : Bytes) (write : Result (Unit {0})) (back : Result (Option LockFile))
    (decided : Option (Result (Unit {0})))
    → claim uuid write back decided ≡ some (ok tt)
    → (decided ≡ some (ok tt))
      × (write ≡ ok tt)
      × ((l : LockFile) × (back ≡ ok (some l)) × (l.instance_uuid ≡ uuid))
claim_taken uuid write back none h = cc h
claim_taken uuid (ok u) (ok (some l)) (some (ok w)) h = (refl, refl, (l, refl, back_own uuid l h))
claim_taken uuid (ok u) (ok none) (some (ok w)) h = absurd (back_none uuid h)
claim_taken uuid (ok u) (err e) (some (ok w)) h = cc h
claim_taken uuid (err e) back (some (ok w)) h = cc h
claim_taken uuid write back (some (err e)) h = cc h

-- Whoever acquires the lease has read back its own record after writing it, and ended its wait at a look
-- that saw no lock, its own, one whose heartbeat was older than the lease, or one of a process of this host
-- whose id is gone; every look before that one saw a fresh lease of another.
pub acquire_writer_lease-IsTaken :
    (uuid : Bytes) (lease_ms : ℕ) (looks : List Look) (write : Result (Unit {0}))
    (back : Result (Option LockFile))
    → acquire_writer_lease uuid lease_ms looks write back ≡ some (ok tt)
    → IsTaken uuid lease_ms looks
      × (write ≡ ok tt)
      × ((l : LockFile) × (back ≡ ok (some l)) × (l.instance_uuid ≡ uuid))
unfolding acquire_writer_lease
acquire_writer_lease-IsTaken uuid lease_ms looks write back h =
    let (decided, wrote, own) = claim_taken uuid write back (acquire_loop uuid lease_ms looks) h in
    (loop-IsTaken uuid lease_ms looks decided, wrote, own)

-- Two seconds are slept between one look and the next.
abbrev pub IsSpaced : ℕ → List Look → Type 0
IsSpaced n [] = Unit
IsSpaced n (look ∷ looks) = (2000 * n ≤ look.elapsed_ms) × IsSpaced (suc n) looks

loop_ends :
    (uuid : Bytes) (lease_ms n : ℕ) (looks : List Look)
    → n ≤ 5
    → IsSpaced n looks
    → 6 ≤ n + length looks
    → (r : Result (Unit {0})) × (acquire_loop uuid lease_ms looks ≡ some r)
unfolding acquire_loop
loop_ends uuid lease_ms n [] small spaced enough = absurd (omega (arith, small, enough))
loop_ends uuid lease_ms n (look ∷ looks) small spaced enough =
    let rest = acquire_loop uuid lease_ms looks in
    elim (Turn-cases (turn_of uuid lease_ms look look.lock)) [
      | inl t ↦ (ok tt, ap (λ x. loop_step x rest) t)
      | inr (inl t) ↦
          let early = (turn_of-wait uuid lease_ms look look.lock refl t).1 in
          let (r, ends) =
            loop_ends uuid lease_ms (suc n) looks (omega (arith, early, spaced.0)) spaced.1
              (omega (arith, enough)) in
          (r, ap (λ x. loop_step x rest) t ∙ ends)
      | inr (inr (r, t)) ↦ (r, ap (λ x. loop_step x rest) t)
    ]

-- The acquisition ends: of looks that lie two seconds apart, six are enough for a result.
pub acquire_writer_lease_ends :
    (uuid : Bytes) (lease_ms : ℕ) (looks : List Look) (write : Result (Unit {0}))
    (back : Result (Option LockFile))
    → IsSpaced 0 looks
    → 6 ≤ length looks
    → (r : Result (Unit {0})) × (acquire_writer_lease uuid lease_ms looks write back ≡ some r)
unfolding acquire_writer_lease
acquire_writer_lease_ends uuid lease_ms looks write back spaced enough =
    let (r, ends) = loop_ends uuid lease_ms 0 looks (omega arith) spaced (omega (arith, enough)) in
    (r >> write >> (back >>= read_back uuid), ap (claim uuid write back) ends)
