-- ===== src/Stopping/Upgrades.antt =====
-- Which alarms a writer raises, whatever its tasks do.
use relyt_ingest.Common.{
  ℕ, ◌≤◌, ◌<◌, ◌≡◌, refl, inl, inr, ◌⊎◌, Option, none, some, List, [], ◌∷◌, ◌++◌, arith, All,
  Bool-cases, leb, length, min, All-append, String,
}
use relyt_ingest.Errors.{Error, err, ok}
use relyt_ingest.Progress.{fatal_priority}
use relyt_ingest.Writer.Handover.{fatal_state, first_flag, permanent_only}
use relyt_ingest.Stopping.{
  Shared, Happening, raise_for, raise_stream_stopped, fence, trip_order_fatal, happen, happen_all,
  fresh_shared, published, lease_lost, contract_broken, order_broken, noticed, check_health,
  healthy, with_fence, with_trip,
}

-- The alarms after a bound, each more urgent than those before it, down to the last.
abbrev pub Descends : ℕ → List Error → ℕ → Type 0
Descends bound [] last = bound ≡ last
Descends bound (e ∷ es) last = (fatal_priority e < bound) × Descends (fatal_priority e) es last

Descends-snoc :
    (bound last : ℕ) (es : List Error) (e : Error)
    → Descends bound es last
    → fatal_priority e < last
    → Descends bound (es ++ e ∷ []) (fatal_priority e)
Descends-snoc bound last [] e h lt = (omega arith, refl)
Descends-snoc bound last (x ∷ es) e h lt = (h.0, Descends-snoc (fatal_priority x) last es e h.1 lt)

-- A stopped state is one of four kinds.
abbrev pub IsStopped : Error → Type 0
IsStopped e = fatal_priority e ≤ 3

abbrev IsWell : Shared → Type 0
IsWell s = Descends 255 s.alarms s.alarm_raised × All IsStopped s.alarms

permanent_only-IsStopped : (o : Option Error) (e : Error) → permanent_only o ≡ some e → IsStopped e
unfolding fatal_priority
permanent_only-IsStopped none e h = cc
permanent_only-IsStopped (some x) e h = ground arith

first_flag-IsStopped :
    (order fence contract : Option String) (o : Option Error) (e : Error)
    → first_flag order fence contract o ≡ some e
    → IsStopped e
unfolding first_flag fatal_priority
first_flag-IsStopped (some m) fence contract o e h = ground arith
first_flag-IsStopped none (some m) contract o e h = ground arith
first_flag-IsStopped none none (some m) o e h = ground arith
first_flag-IsStopped none none none o e h = permanent_only-IsStopped o e h

raise_for-IsWell :
    (o : Option Error) (s : Shared)
    → ((e : Error) → o ≡ some e → IsStopped e)
    → IsWell s
    → IsWell (raise_for o s)
unfolding raise_for
raise_for-IsWell none s stopped h = h
raise_for-IsWell (some e) s stopped h = elim (Bool-cases (leb s.alarm_raised (fatal_priority e))) [
  | inl quiet ↦ rw quiet h
  | inr louder ↦ rw louder (
    Descends-snoc 255 s.alarm_raised s.alarms e h.0 (ground arith),
    All-append IsStopped s.alarms (e ∷ []) h.1 (stopped e refl, tt),
  )
]

raise-IsWell : (after : ℕ) (s : Shared) → IsWell s → IsWell (raise_stream_stopped after s)
unfolding raise_stream_stopped fatal_state
raise-IsWell after s h =
    raise_for-IsWell (fatal_state after s.flags s.progress) s (λ e. first_flag-IsStopped _ _ _ _ e)
      h

happen-IsWell : (after : ℕ) (s : Shared) (x : Happening) → IsWell s → IsWell (happen after s x)
unfolding happen fence trip_order_fatal
happen-IsWell after s (published e) h = h
happen-IsWell after s (lease_lost reason) h = raise-IsWell after (with_fence reason s) h
happen-IsWell after s (contract_broken msg) h = h
happen-IsWell after s (order_broken detail) h = raise-IsWell after (with_trip detail s) h
happen-IsWell after s noticed h = raise-IsWell after s h

pub happen_all-IsWell :
    (after : ℕ) (s : Shared) (xs : List Happening) → IsWell s → IsWell (happen_all after s xs)
unfolding happen_all
happen_all-IsWell after s [] h = h
happen_all-IsWell after s (x ∷ xs) h =
    happen_all-IsWell after (happen after s x) xs (happen-IsWell after s x h)

Descends-length :
    (bound last : ℕ) (es : List Error)
    → Descends bound es last
    → All IsStopped es
    → length es ≤ min bound 4
Descends-length bound last [] h stops = omega arith
Descends-length bound last (e ∷ es) h stops =
    omega (arith, Descends-length (fatal_priority e) last es h.1 stops.1)

-- The state that is stopped right now is announced: as urgent a cause, or a more urgent one.
raise_for_announces :
    (e : Error) (s : Shared) → (raise_for (some e) s).alarm_raised ≤ fatal_priority e
unfolding raise_for
raise_for_announces e s = ground arith

-- Whatever the tasks of a writer do from fresh_shared on, each alarm is more urgent than all before it
-- and names a stopped state, so that there are never more than four; and once an alarm was asked
-- for while the writer is stopped, one at least as urgent as the state that `append` and `flush`
-- report at that moment has been raised.
pub alarms_upgrade :
    (after : ℕ) (happenings : List Happening)
    → let s = happen_all after fresh_shared happenings in
      Descends 255 s.alarms s.alarm_raised
      × All IsStopped s.alarms
      × (length s.alarms ≤ 4)
      × ((check_health after s ≡ ok tt)
          ⊎ ((e : Error) × (check_health after s ≡ err e)
              × ((happen after s noticed).alarm_raised ≤ fatal_priority e)))
unfolding happen check_health raise_stream_stopped
alarms_upgrade after happenings =
    let s = happen_all after fresh_shared happenings in
    let (descends, stops) = happen_all-IsWell after fresh_shared happenings (refl, tt) in
    (
      descends,
      stops,
      omega (arith, Descends-length 255 s.alarm_raised s.alarms descends stops),
      on (fatal_state after s.flags s.progress) s,
    )
  where
    on :
        (o : Option Error) (s : Shared)
        → (healthy o ≡ ok tt)
          ⊎ ((e : Error) × (healthy o ≡ err e) × ((raise_for o s).alarm_raised ≤ fatal_priority e))
    on none s = inl refl
    on (some x) s = inr (x, refl, raise_for_announces x s)
