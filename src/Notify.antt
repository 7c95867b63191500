-- ===== src/Notify.antt =====
-- src/notify.rs: the requests that announce staged files, and the loop that submits those of one
-- writer. The outcome of every attempt is an event, as the connection and the server are not part
-- of the program; the queue between `enqueue` and the loop is an unbounded list.
pub mod Loop
pub mod Options
pub mod Submit
pub mod Tests
use relyt_ingest.Common.{
  ℕ, ◌*◌, Bool, true, false, Option, none, some, List, [], ◌∷◌, ◌++◌, min, if◌then◌else◌,
}
use relyt_ingest.Common.Int.{ℤ, leb_ℤ}
use relyt_ingest.Common.Text.{Bytes, bytes_eq}

pub record NotifyRequest : Type 0 where
  pub serial_group : Bytes
  pub end_offset : ℤ
  pub identifier : Bytes
  pub source_url : Bytes
  pub target : ℕ
  pub delimiter : ℕ
  pub upsert : Bool
  pub serial_seq : ℤ
  pub retry_max : Option ℤ

-- A map from serial groups, the entry of a key being the first of that key.
abbrev pub Board : Type 0 → Type 0
Board V = List (Bytes × V)

unfoldable pub lookup : {V : Type 0} → Bytes → Board V → Option V
lookup key [] = none
lookup key ((k, v) ∷ board) = let rest = lookup key board in if bytes_eq k key then some v else rest

unfoldable pub remove : {V : Type 0} → Bytes → Board V → Board V
remove key [] = []
remove key ((k, v) ∷ board) =
    let rest = remove key board in if bytes_eq k key then rest else (k, v) ∷ rest

abbrev pub store : {V : Type 0} → Bytes → V → Board V → Board V
store key v board = (key, v) ∷ board

pub record NotifyState : Type 0 where
  pub confirmed : Board (ℤ × ℤ)
  pub fatal : Board Bytes

abbrev pub is_some : {V : Type 0} → Option V → Bool
is_some none = false
is_some (some v) = true

-- Whether there was an entry, and the state without it.
unfoldable pub clear_fatal : Bytes → NotifyState → Bool × NotifyState
unfolding lookup remove
clear_fatal key st = (is_some (lookup key st.fatal), record st { fatal = remove key st.fatal })

abbrev pub slot_of : Option (ℤ × ℤ) → ℤ × ℤ → ℤ × ℤ
slot_of none fresh = fresh
slot_of (some slot) fresh = slot

abbrev pub newer : ℤ × ℤ → ℤ × ℤ → ℤ × ℤ
newer slot fresh = if leb_ℤ slot.0 fresh.0 then fresh else slot

-- `entry(..).or_insert(..)`, and the replacement by a seq that is not smaller.
unfoldable pub confirm : NotifyRequest → NotifyState → NotifyState
unfolding lookup
confirm req st =
    let fresh : ℤ × ℤ = (req.serial_seq, req.end_offset) in
    record st {
      confirmed =
          store req.serial_group
            (newer (slot_of (lookup req.serial_group st.confirmed) fresh) fresh) st.confirmed;
    }

abbrev pub message_of : Option Bytes → Bytes → Bytes
message_of none msg = msg
message_of (some old) msg = old

-- `entry(..).or_insert_with(..)`: the first message stays.
unfoldable pub violate : NotifyRequest → Bytes → NotifyState → NotifyState
unfolding lookup
violate req msg st = record st {
  fatal = store req.serial_group (message_of (lookup req.serial_group st.fatal) msg) st.fatal;
}

-- What an attempt at the request at hand comes to.
pub data Attempt : Type 0 where
  connect_failed submit_failed : Attempt
  accepted idempotent : Attempt
  contract_violation : Bytes → Attempt

-- The loop between two attempts: the queue (its head is the request at hand), whether a connection
-- is up, the pause before the next retry in milliseconds, the report board, and what was sent.
pub record LoopState : Type 0 where
  pub queue : List NotifyRequest
  pub connected : Bool
  pub backoff_ms : ℕ
  pub board : NotifyState
  pub submitted : List ℤ

abbrev pub first_backoff_ms : ℕ
first_backoff_ms = 200

abbrev pub max_backoff_ms : ℕ
max_backoff_ms = 30_000

-- The request at hand is done with: the next one starts with the first pause.
abbrev pub finish : LoopState → List NotifyRequest → NotifyState → ℤ → LoopState
finish l rest board seq = record l {
  queue = rest;
  connected = true;
  backoff_ms = first_backoff_ms;
  board = board;
  submitted = l.submitted ++ seq ∷ [];
}

-- A failed attempt keeps the request, drops the connection and doubles the pause.
abbrev pub retry : LoopState → LoopState
retry l = record l { connected = false; backoff_ms = min (l.backoff_ms * 2) max_backoff_ms }

attempt_on : LoopState → NotifyRequest → List NotifyRequest → Attempt → LoopState
unfolding confirm violate
attempt_on l req rest connect_failed = if l.connected then l else retry l
attempt_on l req rest submit_failed = retry l
attempt_on l req rest accepted = finish l rest (confirm req l.board) req.serial_seq
attempt_on l req rest idempotent = finish l rest (confirm req l.board) req.serial_seq
attempt_on l req rest (contract_violation msg) =
    finish l rest (violate req msg l.board) req.serial_seq

on_queue : LoopState → Attempt → List NotifyRequest → LoopState
unfolding attempt_on
on_queue l a [] = l
on_queue l a (req ∷ rest) = attempt_on l req rest a

-- One pass of the inner loop of `notify_loop`; an empty queue waits.
unfoldable pub notify_step : LoopState → Attempt → LoopState
unfolding on_queue
notify_step l a = on_queue l a l.queue

unfoldable pub notify_run : LoopState → List Attempt → LoopState
unfolding notify_step
notify_run l [] = l
notify_run l (a ∷ more) = notify_run (notify_step l a) more
