-- ===== src/Stopping/Durable.antt =====
-- What the other tasks of a writer do leaves the durable seq as it is.
use relyt_ingest.Common.{ℕ, ◌≡◌, refl, ◌∙◌, Option, none, some, List, [], ◌∷◌, All, arith, String}
use relyt_ingest.Common.Int.{ℤ}
use relyt_ingest.Errors.{Error}
use relyt_ingest.Progress.{order_violation}
use relyt_ingest.Progress.Durable.{IsNoLanding, durable-publish, durable-step}
use relyt_ingest.Writer.Handover.{fatal_state}
use relyt_ingest.Stopping.{
  Shared, Happening, published, lease_lost, contract_broken, order_broken, noticed, raise_for,
  raise_stream_stopped, fence, with_fence, trip_order_fatal, with_trip, happen, happen_all,
}

-- Nothing but the put stage shows a file as durable.
abbrev pub IsOther : Happening → Type 0
IsOther (published e) = IsNoLanding e
IsOther _ = Unit

abbrev pub durable_of : Shared → Option ℤ
durable_of s = s.progress.durable_seq

pub durable-raise :
    (after : ℕ) (s : Shared) → durable_of (raise_stream_stopped after s) ≡ durable_of s
unfolding raise_stream_stopped
durable-raise after s = on (fatal_state after s.flags s.progress)
  where
    on : (o : Option Error) → durable_of (raise_for o s) ≡ durable_of s
    on none = unfold raise_for in refl
    on (some e) = unfold raise_for in ground arith

pub durable-trip :
    (after : ℕ) (detail : String) (s : Shared)
    → durable_of (trip_order_fatal after detail s) ≡ durable_of s
unfolding trip_order_fatal
durable-trip after detail s =
    durable-raise after (with_trip detail s)
    ∙ durable-publish order_violation "pipeline" none detail s.progress

durable-happen :
    (after : ℕ) (s : Shared) (h : Happening)
    → IsOther h
    → durable_of (happen after s h) ≡ durable_of s
unfolding happen fence trip_order_fatal
durable-happen after s (published e) other = durable-step s.progress e other
durable-happen after s (lease_lost reason) other = durable-raise after (with_fence reason s)
durable-happen after s (contract_broken msg) other = refl
durable-happen after s (order_broken detail) other = durable-trip after detail s
durable-happen after s noticed other = durable-raise after s

pub durable-happen_all :
    (after : ℕ) (s : Shared) (hs : List Happening)
    → All IsOther hs
    → durable_of (happen_all after s hs) ≡ durable_of s
unfolding happen_all
durable-happen_all after s [] others = refl
durable-happen_all after s (h ∷ hs) others =
    durable-happen_all after (happen after s h) hs others.1 ∙ durable-happen after s h others.0
