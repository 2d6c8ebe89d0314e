-- ===== src/Service/Archives/Ticks/Known.antt =====
-- What is known of the calls of a tick, and what a restoration's start wants to be known.
use mc_admin.Base.{
  ◌≡◌, ◌⊎◌, inl, inr, ap, subst, ℕ, Text, true, false, Option, none, some, List, [], ◌∷◌, ◌++◌, All,
  Any,
}
use mc_admin.Service.{
  Env, BackupResult, doorman_running, closing_status, profile_backup, restore_worker_issues,
  BackupArchive, ArchiveCheck, PendingRestore, RestoreOperation, Call, Reply, order, restore_start,
  Event, ok, State, safety_backup, maker_running, safety_exit_code, safety_trigger,
  restore_worker_running, archives_list, archive_validate, check_status,
}
use mc_admin.Service.Archives.{find_archive}
use mc_admin.Service.Archives.Restores.{some_issues}
use mc_admin.Service.Archives.Ticks.{new_safety_archive, is_restorable, fits}
use mc_admin.Service.Archives.Ticks.Operation.{is_zero}
use mc_admin.Service.Archives.Ticks.Triples.{Mild}

-- A call that has returned.
abbrev pub returned : (c : Call) → Reply c → Event
returned c a = record { call = c; answer = ok a }

abbrev pub In : Event → List Event → Type 0
In e calls = Any (λ (x : Event). x ≡ e) calls

-- The backup that comes first has been made and checked, as far as the calls tell: its container has
-- stopped without an error, and the newest archive that it added is there as it was validated.
pub record IsBackedUp (p : PendingRestore) (calls : List Event) : Type 0 where
  pub code : Option ℕ
  pub archives : List BackupArchive
  pub archive : BackupArchive
  pub check : ArchiveCheck
  pub later : List BackupArchive
  pub current : BackupArchive
  pub stopped : In (returned (maker_running safety_backup) false) calls
  pub exited : In (returned safety_exit_code code) calls
  pub succeeded : is_zero code ≡ true
  pub listed : In (returned archives_list archives) calls
  pub added : new_safety_archive p archives ≡ some archive
  pub validated : In (returned (archive_validate archive.filename) check) calls
  pub listed_later : In (returned archives_list later) calls
  pub still_there : find_archive archive.filename later ≡ some current
  pub unchanged : fits check current ≡ true
  pub readable : check.is_ok ≡ true
  pub whole : is_restorable check ≡ true

-- The archive to restore is there, and its last verdict is on it as it is and good.
pub record IsTarget (filename : Text) (calls : List Event) : Type 0 where
  pub archives : List BackupArchive
  pub archive : BackupArchive
  pub check : ArchiveCheck
  pub listed : In (returned archives_list archives) calls
  pub found : find_archive filename archives ≡ some archive
  pub verdict : In (returned (check_status filename) (some check)) calls
  pub same_size : check.size_bytes ≡ archive.size_bytes
  pub same_time : check.archive_created_at ≡ archive.created_at
  pub readable : check.is_ok ≡ true
  pub restorable : check.restorable ≡ some true

-- Nothing was found against a restoration of a file, as far as the calls tell.
pub record Preflighted (env : Env) (filename : Text) (calls : List Event) : Type 0 where
  pub worker : In (returned restore_worker_running false) calls
  pub doorman : (env.has_doorman ≡ false) ⊎ In (returned doorman_running false) calls
  pub closing : (env.has_closing ≡ false) ⊎ In (returned closing_status none) calls
  pub target : IsTarget filename calls
  pub safety : In (returned (maker_running safety_backup) false) calls
  pub profile :
      (env.has_profile_backup ≡ false) ⊎ In (returned (maker_running profile_backup) false) calls
  pub integrity :
      (env.has_integrity ≡ false)
      ⊎ ((issues : List Text) × ((some_issues issues ≡ false)
            × In (returned restore_worker_issues issues) calls))

-- What the calls are made for: the request of a restoration, a restoration that waits, or neither.
pub data Aim : Type 0 where
  asking : Env → Text → Aim
  waiting : PendingRestore → Aim
  idle : Aim

abbrev pub aim : Option PendingRestore → Aim
aim none = idle
aim (some p) = waiting p

-- What allows to start the backup that comes first, which only a request does.
abbrev pub Askable : Aim → List Event → Type 0
Askable (asking env filename) calls = Preflighted env filename calls
Askable (waiting p) calls = ⊥
Askable idle calls = ⊥

-- What allows to start the worker of restorations with a file.
abbrev pub Allowed : Aim → Text → List Event → Type 0
Allowed (asking env asked) filename calls = ⊥
Allowed idle filename calls = ⊥
Allowed (waiting p) filename calls =
    (filename ≡ p.filename) × (IsBackedUp p calls × IsTarget p.filename calls)

abbrev pub Fitting : Aim → Call → List Event → Type 0
Fitting o (order (restore_start filename)) calls = Allowed o filename calls
Fitting o safety_trigger calls = Askable o calls
Fitting o _ calls = Unit

-- Every start in the list is allowed by the calls before it.
unfoldable pub Timely : Aim → List Event → Type 0
Timely o [] = Unit
Timely o (e ∷ calls) = Fitting o e.call calls × Timely o calls

pub Mild-Fitting : (o : Aim) (c : Call) (calls : List Event) → Mild c → Fitting o c calls
Mild-Fitting o (order (restore_start filename)) calls h = absurd h
Mild-Fitting o safety_trigger calls h = absurd h
Mild-Fitting o _ calls h = tt

pub Timely-append :
    (o : Aim) (xs calls : List Event)
    → All (λ (e : Event). Mild e.call) xs
    → Timely o calls
    → Timely o (xs ++ calls)
unfolding Timely
Timely-append o [] calls h k = k
Timely-append o (e ∷ xs) calls h k =
    (Mild-Fitting o e.call (xs ++ calls) h.0, Timely-append o xs calls h.1 k)

In-append : (e : Event) (xs calls : List Event) → In e calls → In e (xs ++ calls)
In-append e [] calls h = h
In-append e (x ∷ xs) calls h = inr (In-append e xs calls h)

pub All-In-append :
    (ks xs calls : List Event)
    → All (λ (k : Event). In k calls) ks
    → All (λ (k : Event). In k (xs ++ calls)) ks
All-In-append [] xs calls h = tt
All-In-append (k ∷ ks) xs calls h = (In-append k xs calls h.0, All-In-append ks xs calls h.1)

pub In-All :
    (e : Event) (ks calls : List Event) → All (λ (k : Event). In k calls) ks → In e ks → In e calls
In-All e [] calls h i = absurd i
In-All e (k ∷ ks) calls h (inl same) = subst (λ (x : Event). In x calls) same h.0
In-All e (k ∷ ks) calls h (inr i) = In-All e ks calls h.1 i

-- Some call of the list has started the backup that comes first, and what came before it in the
-- list fits.
pub Timely-trigger :
    (o : Aim) (r : BackupResult) (calls : List Event)
    → Timely o calls
    → In (returned safety_trigger r) calls
    → (later : List Event) × ((before : List Event) × ((calls
            ≡ later ++ (returned safety_trigger r ∷ before))
          × Askable o before))
unfolding Timely
Timely-trigger o r [] timely i = absurd i
Timely-trigger o r (e ∷ calls) timely (inl same) = (
  [],
  (
    calls,
    (
      ap (λ (x : Event). x ∷ calls) same,
      subst (λ (x : Event). Fitting o x.call calls) same timely.0,
    ),
  ),
)
Timely-trigger o r (e ∷ calls) timely (inr i) =
    let (later, (before, (split, fit))) = Timely-trigger o r calls timely.1 i in
    (e ∷ later, (before, (ap (λ (l : List Event). e ∷ l) split, fit)))

-- A property of the restoration that waits and of the one that is followed.
abbrev pub Stage : Type 1
Stage = Option PendingRestore → Option RestoreOperation → Type 0

module _ (o : Aim) (t0 : List Event) where
  -- The calls since a trace: each start is allowed, these have been made, and this holds of the
  -- restorations that wait and are followed.
  pub record Knows (J : Stage) (ks : List Event) (s : State) : Type 0 where
    pub calls : List Event
    pub added : s.trace ≡ calls ++ t0
    pub timely : Timely o calls
    pub known : All (λ (k : Event). In k calls) ks
    pub waits : J s.backups.pending s.backups.operation

  pub Knows-weaken :
      (J J' : Stage) (ks : List Event) (s : State)
      → ((q : Option PendingRestore) (w : Option RestoreOperation) → J q w → J' q w)
      → Knows J ks s
      → Knows J' [] s
  Knows-weaken J J' ks s f k = record {
    calls = k.calls;
    added = k.added;
    timely = k.timely;
    known = tt;
    waits = f s.backups.pending s.backups.operation k.waits;
  }

  pub Knows-tail :
      (J : Stage) (e : Event) (ks : List Event) (s : State) → Knows J (e ∷ ks) s → Knows J ks s
  Knows-tail J e ks s k = record {
    calls = k.calls;
    added = k.added;
    timely = k.timely;
    known = k.known.1;
    waits = k.waits;
  }
