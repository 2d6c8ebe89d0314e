-- ===== src/Service/Archives/Restores/Admission.antt =====
-- A restoration that is asked for is admitted after a preflight that finds nothing, or is refused.
use mc_admin.Base.{◌≡◌, ◌⊎◌, ℕ, ◌+◌, Text, codes, true, false, Option, none, some, List, ◌∷◌, ◌++◌}
use mc_admin.Access.{User}
use mc_admin.Service.{
  PendingRestore, BackupResult, Event, State, Error, Env, Backups, safety_trigger,
}
use mc_admin.Service.Archives.Restores.{is_active}
use mc_admin.Service.Archives.Restores.Preflight.{Target, IntegrityAnswer}
use mc_admin.Service.Archives.Restores.Passed.{IsIdle, Findings, passed}
use mc_admin.Service.Archives.Ticks.Triples.{Quiet}
use mc_admin.Service.Archives.Ticks.Known.{asking, Stage, Timely, Preflighted, returned, Knows}

module _ ⦃env : Env⦄ (user : User) (filename : Text) (b0 : Backups) (t0 : List Event) where
  -- The restoration waits for the backup that comes first.
  abbrev pub Asked : Option PendingRestore → Type 0
  Asked q =
      (now : ℕ) × (operation_id : Text) × (before : List Text) × (q
        ≡ some (record {
          filename = filename;
          requested_by = user.username;
          deadline = now + 900;
          operation_id = operation_id;
          safety_archives_before = before;
        }))

  -- What waits is as it was, and an operation that is not over goes on.
  abbrev pub Unasked : Stage
  Unasked q w =
      (q ≡ b0.pending) × ((w ≡ b0.operation) ⊎ ((is_active b0.operation ≡ false) × (w ≡ none)))

  -- The calls of a request start neither the worker nor, before a preflight, a backup.
  pub record Refused (s : State) : Type 0 where
    pub calls : List Event
    pub added : s.trace ≡ calls ++ t0
    pub timely : Timely (asking env filename) calls
    pub waits : Unasked s.backups.pending s.backups.operation

  -- Everything has been found to allow the restoration before the backup has been started, and it
  -- waits.
  pub record Admitted (s : State) : Type 0 where
    pub calls : List Event
    pub added : s.trace ≡ calls ++ t0
    pub timely : Timely (asking env filename) calls
    pub idle : IsIdle b0
    pub result : BackupResult
    pub started : result.started ≡ true
    pub later : List Event
    pub before : List Event
    pub triggered : calls ≡ later ++ (returned safety_trigger result ∷ before)
    pub preflighted : Preflighted env filename before
    pub waits : Asked s.backups.pending
    pub unfollowed : s.backups.operation ≡ none

  abbrev Idle : Stage
  Idle q w =
      (q ≡ b0.pending)
      × (((is_active b0.operation ≡ true) × (w ≡ b0.operation))
          ⊎ ((is_active b0.operation ≡ false) × (w ≡ none)))

  abbrev Queued : Stage
  Queued q w = Asked q × (w ≡ none)

  abbrev R : Error → State → Type 0
  R e s = Refused s ⊎ Admitted s

  -- What a call of `restore_backup` that returns says, and leaves.
  abbrev Q : Text → State → Type 0
  Q word s = (word ≡ codes "pending") × Admitted s

  module _ (i : IsIdle b0) (t : Target filename) (answer : IntegrityAnswer) where
    abbrev Started : State → Type 0
    Started s =
        (r : BackupResult) × ((r.started ≡ true)
          × Knows (asking env filename) t0 Idle
              (returned safety_trigger r ∷ passed filename t answer) s)

    abbrev Triggered : BackupResult → State → Type 0
    Triggered r =
        Knows (asking env filename) t0 Idle (returned safety_trigger r ∷ passed filename t answer)

  -- The tests have all been passed, which is known of the state as it was.
  abbrev Cleared : State → Type 0
  Cleared s =
      (i : IsIdle b0) × ((t : Target filename) × ((answer : IntegrityAnswer) × Knows
            (asking env filename) t0 Idle (passed filename t answer) s))

  abbrev Checked : List Text → State → Type 0
  Checked issues = Findings filename t0 Idle issues

  abbrev Same : Stage
  Same q w = (q ≡ b0.pending) × (w ≡ b0.operation)
