-- ===== src/Restore/Machine.antt =====
-- The disk and the server as app/restore_worker.py sees them, under any faults. An operation
-- that fails leaves what the fault says; the process may also be killed at any operation.
-- A method call is an action that returns, raises or is killed, and leaves a state.
pub mod Rules
use mc_admin.Base.{Text, Bool, true, false, Option, none, some, List, [], ◌∷◌, ◌≡◌, if◌then◌else◌}

-- What the worker does not implement itself (`extract_archive`, `clone_tree` and `sync_tree` are
-- parameters of `restore_transaction`): the result of each on success, and an observation of a
-- world under which writing a copy back gives the world that was copied.
pub record Storage : Type 1 where
  pub World : Type 0
  pub View : Type 0
  pub view : World → View
  pub content : Text → World
  pub clone : World → World
  -- `sync_tree(stage, data_root, protected, remove_absent=False)`
  pub overlay : World → World → World
  -- `sync_tree(rollback, data_root, protected)`
  pub exact : World → World → World
  pub exact-clone : (w v : World) → view (exact (clone w) v) ≡ view w
  -- Removing a directory may be interrupted half way, reading the marker may fail.
  pub torn_removal : Bool
  pub read_faults : Bool

-- The phases that the marker names; `unknown` is any other text, or none.
pub data Phase : Type 0 where
  staged stopping stopped rollback_ready applying applied starting started : Phase
  rolling_back rollback_failed unknown : Phase

-- The content of `.mc-restore-transaction.json`.
pub data Marker : Type 0 where
  valid : Phase → Text → Marker
  invalid : Marker

pub record Disk (W : Type 0) : Type 0 where
  pub live : W
  pub stage : Option W
  pub rollback : Option W
  pub marker : Option Marker
  pub running : Bool

-- What a failing operation left: a directory (none for no directory), the server up or not.
pub record Debris (W : Type 0) : Type 0 where
  pub world : Option W
  pub up : Bool

pub data Fate (W : Type 0) : Type 0 where
  fine : Fate W
  raises : Debris W → Fate W
  killed : Debris W → Fate W

-- The messages of `RestoreWorkerError`, and `fault` for any exception of an operation.
pub data Failure : Type 0 where
  fault bad_root bad_target unreadable_marker : Failure
  undone_on_recovery cancelled_on_recovery rollback_was_absent manual : Failure
  rollback_failed_too cannot_restart : Failure
  undone cancelled : Failure

pub data Out (A : Type 0) : Type 0 where
  ok : A → Out A
  raised : Failure → Out A
  dead : Out A

-- The flags are the variables `stopped` and `rollback_ready` of `restore_transaction`.
pub record State (W : Type 0) : Type 0 where
  pub disk : Disk W
  pub faults : List (Fate W)
  pub server_stopped : Bool
  pub copy_ready : Bool

abbrev pub Action : ⦃st : Storage⦄ → Type 0 → Type 0
Action ⦃st⦄ A = State st.World → Out A × State st.World

module _ ⦃st : Storage⦄ where
  abbrev pub pure : {A : Type 0} → A → Action A
  pure a s = (ok a, s)

  abbrev pub raise : {A : Type 0} → Failure → Action A
  raise e s = (raised e, s)

  abbrev continue :
      {A B : Type 0} → (A → Action B) → Out A × State st.World → Out B × State st.World
  continue f (ok a, s) = f a s
  continue f (raised e, s) = (raised e, s)
  continue f (dead, s) = (dead, s)

  infixr 10 ◌>>=◌ ◌>>◌
  unfoldable pub ◌>>=◌ : {A B : Type 0} → Action A → (A → Action B) → Action B
  ◌>>=◌ m f s = continue f (m s)

  abbrev pub ◌>>◌ : {A B : Type 0} → Action A → Action B → Action B
  m >> n = m >>= λ _. n

  abbrev recover_from :
      {A : Type 0} → (Failure → Action A) → Out A × State st.World → Out A × State st.World
  recover_from handler (ok a, s) = (ok a, s)
  recover_from handler (raised e, s) = handler e s
  recover_from handler (dead, s) = (dead, s)

  -- `try: m except Exception as e: handler`
  unfoldable pub catch : {A : Type 0} → Action A → (Failure → Action A) → Action A
  catch m handler s = recover_from handler (m s)

  -- One operation: its effect if nothing goes wrong, and what is left if it fails.
  unfoldable pub effect :
      (Disk st.World → Disk st.World)
      → (Debris st.World → Disk st.World → Disk st.World)
      → Action Unit
  effect done part s = elim s.faults [
    | [] ↦ (ok tt, record s { disk = done s.disk })
    | fate ∷ fates ↦ elim fate [
      | fine ↦ (ok tt, record s { disk = done s.disk; faults = fates })
      | raises x ↦ (raised fault, record s { disk = part x s.disk; faults = fates })
      | killed x ↦ (dead, record s { disk = part x s.disk; faults = fates })
    ]
  ]

  unfoldable pub get_disk : Action (Disk st.World)
  get_disk s = (ok s.disk, s)

  -- `_write_state`, which replaces the file atomically
  unfoldable pub write_state : Phase → Text → Action Unit
  write_state phase target =
      effect (λ d. record d { marker = some (valid phase target) }) (λ _ d. d)

  -- `_read_state` of a file that exists
  unfoldable pub read_state : Action (Option Marker)
  read_state s =
      if st.read_faults
      then (effect (λ d. d) (λ _ d. d) >> (λ s'. (ok s'.disk.marker, s'))) s
      else (ok s.disk.marker, s)

  unfoldable pub stop : Action Unit
  stop = effect (λ d. record d { running = false }) (λ x d. record d { running = x.up })

  unfoldable pub start : Action Unit
  start = effect (λ d. record d { running = true }) (λ x d. record d { running = x.up })

  unfoldable pub extract_archive : Text → Action Unit
  extract_archive target =
      effect (λ d. record d { stage = some (st.content target) })
        (λ x d. record d { stage = x.world })

  unfoldable pub clone_tree : Action Unit
  clone_tree =
      effect (λ d. record d { rollback = some (st.clone d.live) })
        (λ x d. record d { rollback = x.world })

  abbrev left_in : Option st.World → st.World → st.World
  left_in none w = w
  left_in (some v) w = v

  -- `sync_tree(rollback, data_root, protected)`; with no such directory it raises at once.
  unfoldable pub sync_rollback : Action Unit
  sync_rollback s = elim s.disk.rollback [
    | none ↦ (raised fault, s)
    | some r ↦
        effect (λ d. record d { live = st.exact r d.live })
          (λ x d. record d { live = left_in x.world d.live }) s
  ]

  unfoldable pub sync_stage : Action Unit
  sync_stage s = elim s.disk.stage [
    | none ↦ (raised fault, s)
    | some t ↦
        effect (λ d. record d { live = st.overlay t d.live })
          (λ x d. record d { live = left_in x.world d.live }) s
  ]

  unfoldable pub remove_stage : Action Unit
  remove_stage = effect (λ d. record d { stage = none }) (λ x d. record d { stage = x.world })

  unfoldable pub remove_rollback : Action Unit
  remove_rollback =
      effect (λ d. record d { rollback = none })
        (λ x d. if st.torn_removal then record d { rollback = x.world } else d)

  unfoldable pub unlink_state : Action Unit
  unlink_state = effect (λ d. record d { marker = none }) (λ _ d. d)

  -- The temporary file of `_write_state` is only removed: no operation reads it.
  unfoldable pub unlink_tmp : Action Unit
  unlink_tmp = effect (λ d. d) (λ _ d. d)

  unfoldable pub set_stopped : Bool → Action Unit
  set_stopped b s = (ok tt, record s { server_stopped = b })

  unfoldable pub set_ready : Action Unit
  set_ready s = (ok tt, record s { copy_ready = true })

  unfoldable pub clear_flags : Action Unit
  clear_flags s = (ok tt, record s { server_stopped = false; copy_ready = false })
