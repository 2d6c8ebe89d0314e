-- ===== src/Levels/Machine.antt =====
-- The files and the server as app/op_levels_worker.py sees them, under any faults. A file is
-- replaced atomically, so an operation that fails or is killed has been done or has not.
pub mod Rules
use mc_admin.Base.{Bool, true, false, Option, none, some, List, ◌≡◌, ◌⊎◌, inl, inr, refl}
use mc_admin.Levels.{Item, Levels, Entry, Lower}

-- The phases that the marker names.
pub data Phase : Type 0 where
  claimed stopped rollback_ready applied committed : Phase

-- `.mc-admin-ops-transaction.json`
pub record Marker : Type 0 where
  pub phase : Phase
  pub requested : List Item
  pub unresolved : List Item

-- The flags are the variables `server_may_be_stopped` and `rollback_ready`.
pub record World : Type 0 where
  pub pending : Levels
  pub applying : Levels
  pub ops : List Entry
  pub rollback : Option (List Entry)
  pub marker : Option Marker
  pub running : Bool
  pub may_be_stopped : Bool
  pub copy_ready : Bool

-- The operations of a run that may fail.
pub data Site : Type 0 where
  read_marker claim_read claim_applying claim_pending : Site
  mark_claimed stop_server mark_stopped read_ops copy_ops mark_ready replace_ops mark_applied : Site
  start_server mark_committed complete_read complete_pending complete_applying : Site
  undo_stop undo_write undo_start restart restore_read restore_pending restore_applying : Site
  clean_rollback clean_marker : Site

-- Whether what fails has been done all the same.
pub data Fate : Type 0 where
  fine : Fate
  raises killed : Bool → Fate

-- The messages of `OpLevelsWorkerError`, and `fault` for any other exception.
pub data Failure : Type 0 where
  fault bad_root not_recovered undone_on_recovery both_failed undone cannot_restart cancelled :
      Failure

pub data Out (A : Type 0) : Type 0 where
  ok : A → Out A
  raised : Failure → Out A
  dead : Out A

pub record Faults : Type 0 where
  pub fate : Site → Fate

abbrev pub Action : Type 0 → Type 0
Action A = World → Out A × World

abbrev pub pure : {A : Type 0} → A → Action A
pure a w = (ok a, w)

abbrev pub raise : {A : Type 0} → Failure → Action A
raise e w = (raised e, w)

abbrev pub continue : {A B : Type 0} → (A → Action B) → Out A × World → Out B × World
continue f (ok a, w) = f a w
continue f (raised e, w) = (raised e, w)
continue f (dead, w) = (dead, w)

infixr 10 ◌>>=◌ ◌>>◌
unfoldable pub ◌>>=◌ : {A B : Type 0} → Action A → (A → Action B) → Action B
◌>>=◌ m f w = continue f (m w)

abbrev pub ◌>>◌ : {A B : Type 0} → Action A → Action B → Action B
m >> n = m >>= λ _. n

abbrev pub recover_from : {A : Type 0} → (Failure → Action A) → Out A × World → Out A × World
recover_from handler (ok a, w) = (ok a, w)
recover_from handler (raised e, w) = handler e w
recover_from handler (dead, w) = (dead, w)

-- `try: m except Exception as e: handler`
unfoldable pub catch : {A : Type 0} → Action A → (Failure → Action A) → Action A
catch m handler w = recover_from handler (m w)

abbrev pub if_done : Bool → (World → World) → World → World
if_done true f w = f w
if_done false f w = w

-- One operation.
unfoldable pub effect : ⦃faults : Faults⦄ → Site → (World → World) → Action Unit
effect ⦃faults⦄ site f w = elim (faults.fate site) [
  | fine ↦ (ok tt, f w)
  | raises done ↦ (raised fault, if_done done f w)
  | killed done ↦ (dead, if_done done f w)
]

unfoldable pub get_world : Action World
get_world w = (ok w, w)

-- An assignment of a variable.
unfoldable pub modify : (World → World) → Action Unit
modify f w = (ok tt, f w)
