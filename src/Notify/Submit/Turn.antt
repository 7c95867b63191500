-- ===== src/Notify/Submit/Turn.antt =====
-- What a turn of the notify loop leaves.
use mathlib.Core.Path.{subst}
use relyt_ingest.Common.{
  ◌≡◌, refl, sym, ap, ◌⊎◌, inl, inr, ◌*◌, min, Bool, true, false, ◌||◌, Option, none, some, List,
  ◌∷◌, if◌then◌else◌,
}
use relyt_ingest.Common.Text.{Bytes, codes}
use relyt_ingest.Errors.{
  DbError, SqlState, unique_violation, exclusion_violation, undefined_function,
  insufficient_privilege, other_state,
}
use relyt_ingest.Config.{StagingConfig}
use relyt_ingest.Staging.{StagingLive}
use relyt_ingest.Notify.{NotifyRequest, LoopState, attempt_on, retry}
use relyt_ingest.Notify.Submit.{
  Job, Reply, row, failed, job_of, db_outcome, error_outcome, outcome, submit, turn_on, turn,
  code_in,
}
use relyt_ingest.Notify.Submit.Announced.{IsJob, job_of-IsJob}
use relyt_ingest.Notify.Submit.Board.{
  IsConfirmed, IsViolated, confirm-IsConfirmed, violate-IsViolated,
}

-- The server has the job: it took it now, or had it before.
abbrev pub IsOwned : Reply → Type 0
IsOwned row = Unit
IsOwned (failed e) = code_in e.as_db_error ≡ some unique_violation

-- Another job has the serial seq.
abbrev pub IsClash : Reply → Type 0
IsClash row = ⊥
IsClash (failed e) = code_in e.as_db_error ≡ some exclusion_violation

-- The message of the error of the database.
abbrev pub IsMessage : Option DbError → Bytes → Type 0
IsMessage none msg = ⊥
IsMessage (some db) msg = msg ≡ codes db.message

abbrev pub IsSaid : Reply → Bytes → Type 0
IsSaid row msg = ⊥
IsSaid (failed e) msg = IsMessage e.as_db_error msg

abbrev pub IsKept : LoopState → LoopState → Type 0
IsKept l after =
    (after.queue ≡ l.queue)
    × (after.board ≡ l.board)
    × (after.submitted ≡ l.submitted)
    × (after.connected ≡ false)
    × (after.backoff_ms ≡ min (l.backoff_ms * 2) 30_000)

-- The request is confirmed, or the first violation of its group is on the board, or nothing is
-- changed but the pause.
abbrev pub IsTurned :
    Type 0
    → Type 0
    → (Bytes → Type 0)
    → NotifyRequest
    → List NotifyRequest
    → LoopState
    → LoopState
    → Type 0
IsTurned owned clash said req rest l after =
    (owned × (after.queue ≡ rest) × IsConfirmed req l.board after.board)
    ⊎ (clash
        × (after.queue ≡ rest)
        × ((msg : Bytes) × said msg × IsViolated req msg l.board after.board))
    ⊎ (¬ owned × ¬ clash × IsKept l after)

coded :
    (req : NotifyRequest) (rest : List NotifyRequest) (l : LoopState) (db : DbError) (c : SqlState)
    → IsTurned
        (some c ≡ some unique_violation)
        (some c ≡ some exclusion_violation)
        (IsMessage (some db))
        req
        rest
        l
        (attempt_on l req rest (db_outcome db c))
unfolding attempt_on
coded req rest l db unique_violation = inl (refl, refl, confirm-IsConfirmed req l.board)
coded req rest l db exclusion_violation =
    inr (
      inl (refl, refl, (codes db.message, refl, violate-IsViolated req (codes db.message) l.board)))
coded req rest l db undefined_function =
    inr (inr (λ h. cc, λ h. cc, (refl, refl, refl, refl, refl)))
coded req rest l db insufficient_privilege =
    inr (inr (λ h. cc, λ h. cc, (refl, refl, refl, refl, refl)))
coded req rest l db other_state = inr (inr (λ h. cc, λ h. cc, (refl, refl, refl, refl, refl)))

failed_coded :
    (req : NotifyRequest) (rest : List NotifyRequest) (l : LoopState) (d : Option DbError)
    → IsTurned
        (code_in d ≡ some unique_violation)
        (code_in d ≡ some exclusion_violation)
        (IsMessage d)
        req
        rest
        l
        (attempt_on l req rest (error_outcome d))
unfolding attempt_on
failed_coded req rest l none = inr (inr (λ h. cc, λ h. cc, (refl, refl, refl, refl, refl)))
failed_coded req rest l (some db) = coded req rest l db db.code

turned :
    (req : NotifyRequest) (rest : List NotifyRequest) (l : LoopState) (reply : Reply)
    → IsTurned
        (IsOwned reply)
        (IsClash reply)
        (IsSaid reply)
        req
        rest
        l
        (attempt_on l req rest (outcome reply))
unfolding attempt_on
turned req rest l row = inl (tt, refl, confirm-IsConfirmed req l.board)
turned req rest l (failed e) = failed_coded req rest l e.as_db_error

-- A job that announces the request was submitted, and the server replied to it; or no connection
-- came up.
abbrev pub IsTurn :
    Bool
    → Bool
    → (Job → Reply)
    → StagingConfig
    → NotifyRequest
    → List NotifyRequest
    → LoopState
    → LoopState
    → Type 0
IsTurn connected can_connect server cfg req rest l after =
    ((connected || can_connect ≡ true)
      × ((job : Job) × IsJob cfg req job
          × IsTurned (IsOwned (server job)) (IsClash (server job)) (IsSaid (server job)) req rest l
              after))
    ⊎ ((connected ≡ false) × (can_connect ≡ false) × IsKept l after)

module _ {Store : Type 0} (server : Job → Reply) (live : StagingLive Store) (l : LoopState) where
  submitted :
      (req : NotifyRequest) (rest : List NotifyRequest)
      → (job : Job) × IsJob live.cfg req job
        × IsTurned
            (IsOwned (server job))
            (IsClash (server job))
            (IsSaid (server job))
            req
            rest
            l
            (attempt_on l req rest (submit server req live))
  unfolding submit
  submitted req rest =
      let job = job_of live.cfg req in
      (job, job_of-IsJob live.cfg req, turned req rest l (server job))

  attempt_cases :
      (connected can_connect : Bool) (req : NotifyRequest) (rest : List NotifyRequest)
      → l.connected ≡ connected
      → IsTurn connected can_connect server live.cfg req rest l
          (turn_on can_connect server live connected l (req ∷ rest))
  unfolding turn_on attempt_on
  attempt_cases true can_connect req rest e = inl (refl, submitted req rest)
  attempt_cases false true req rest e = inl (refl, submitted req rest)
  attempt_cases false false req rest e = inr (
    refl,
    refl,
    subst (λ s. IsKept l s) (sym (ap (λ b. if b then l else retry l) e))
        (refl, refl, refl, refl, refl),
  )

  -- A turn of the notify loop on a request does one of four things. Where it has a connection, or one
  -- comes up, it submits a job with the request's fields, ready, of a priority above zero, and with
  -- the credentials that are live at the turn. Where the server has the job, a duplicate identifier
  -- included, the request leaves the queue, and the board has its seq and end offset for its group,
  -- unless it had a newer entry. Where another job has the seq, the request leaves the queue and the
  -- server's message is on the board, unless its group had one before, which stays. The entries of
  -- other groups stay. After any other error, and where no connection comes up, the queue, the board
  -- and what was sent are what they were, the connection is down, and the pause is doubled, up to 30
  -- seconds.
  pub turn_cases :
      (can_connect : Bool) (req : NotifyRequest) (rest : List NotifyRequest)
      → l.queue ≡ req ∷ rest
      → IsTurn l.connected can_connect server live.cfg req rest l (turn can_connect server live l)
  unfolding turn
  turn_cases can_connect req rest same =
      subst
        (λ q.
          IsTurn l.connected can_connect server live.cfg req rest l
            (turn_on can_connect server live l.connected l q))
        (sym same) (attempt_cases l.connected can_connect req rest refl)
