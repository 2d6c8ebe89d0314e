-- ===== src/Restore/Transaction.antt =====
-- app/restore_worker.py: `_cleanup_transaction`, `_recover_interrupted_transaction` and
-- `restore_transaction`, operation by operation.
mod Invariant
pub mod Recovery
pub mod Run
pub mod Torn
use mc_admin.Base.{Text, Bool, true, false, ◌&&◌, ◌||◌, not, Option, none, some, if◌then◌else◌}
use mc_admin.Restore.Machine.{
  Storage, Phase, Marker, valid, invalid, Disk, Failure, Action, pure, raise, catch, ◌>>=◌, ◌>>◌,
  get_disk, write_state, read_state, stop, start, extract_archive, clone_tree, sync_rollback,
  sync_stage, remove_stage, remove_rollback, unlink_state, unlink_tmp, set_stopped, set_ready,
  clear_flags, ok,
}

abbrev pub is_some : {A : Type 0} → Option A → Bool
is_some none = false
is_some (some _) = true

-- `rollback_phases`
abbrev pub rollback_phase : Phase → Bool
rollback_phase Phase.rollback_ready = true
rollback_phase Phase.applying = true
rollback_phase Phase.applied = true
rollback_phase Phase.starting = true
rollback_phase Phase.rolling_back = true
rollback_phase Phase.rollback_failed = true
rollback_phase _ = false

-- `{"staged", "stopping", "stopped", "rollback_ready"}`
abbrev pub before_phase : Phase → Bool
before_phase Phase.staged = true
before_phase Phase.stopping = true
before_phase Phase.stopped = true
before_phase Phase.rollback_ready = true
before_phase _ = false

-- `{"applied", "starting"}`
abbrev pub after_phase : Phase → Bool
after_phase Phase.applied = true
after_phase Phase.starting = true
after_phase _ = false

abbrev pub is_started : Phase → Bool
is_started Phase.started = true
is_started _ = false

module _ ⦃st : Storage⦄ where
  unfoldable pub cleanup : Action Unit
  cleanup = remove_stage >> remove_rollback >> unlink_state >> unlink_tmp

  -- What is read as the state: none also for an unreadable marker beside a rollback.
  read_or_none : Disk st.World → Action (Option Marker)
  read_or_none d =
      if is_some d.marker
      then catch
          (read_state >>= λ m. elim m [
            | none ↦ pure none
            | some k ↦ elim k [
              | valid p t ↦ pure (some (valid p t))
              | invalid ↦ raise Failure.unreadable_marker
            ]
          ])
          (λ e. if is_some d.rollback then pure none else raise e)
      else pure none

  abbrev phase_of : Option Marker → Phase
  phase_of none = Phase.unknown
  phase_of (some (valid p t)) = p
  phase_of (some invalid) = Phase.unknown

  -- The text « archive inconnue » stands for a target that is not known.
  abbrev target_of : Text → Option Marker → Text
  target_of unknown none = unknown
  target_of unknown (some (valid p t)) = t
  target_of unknown (some invalid) = unknown

  -- The recovery once the state is read.
  pub resume : Text → Bool → Option Marker → Action (Option Text)
  resume unknown has_rollback state =
      let phase = phase_of state in
      if is_started phase
      then cleanup >> pure (some (target_of unknown state))
      else if has_rollback && (not (is_some state) || rollback_phase phase)
      then stop >> sync_rollback >> start >> cleanup >> raise Failure.undone_on_recovery
      else if before_phase phase
      then start >> cleanup >> raise Failure.cancelled_on_recovery
      else if after_phase phase
      then start >> cleanup >> raise Failure.rollback_was_absent
      else raise Failure.manual

  -- `_recover_interrupted_transaction`
  unfoldable pub recover : Text → Action (Option Text)
  unfolding resume read_or_none
  recover unknown s =
      let d = s.disk in
      if not (is_some d.marker) && not (is_some d.rollback)
      then (remove_stage >> unlink_tmp >> pure none) s
      else (read_or_none d >>= resume unknown (is_some d.rollback)) s

  -- The block under `try` of `restore_transaction`.
  body : Text → Action Unit
  body target = do
    write_state Phase.stopping target
    set_stopped true
    stop
    write_state Phase.stopped target
    clone_tree
    set_ready
    write_state Phase.rollback_ready target
    write_state Phase.applying target
    sync_stage
    write_state Phase.applied target
    write_state Phase.starting target
    start
    set_stopped false
    write_state Phase.started target

  undo : Text → Action Unit
  undo target = do
    write_state Phase.rolling_back target
    stop
    sync_rollback
    start
    set_stopped false
    cleanup

  mark_failed : Text → Action Unit
  mark_failed target = catch (write_state Phase.rollback_failed target) (λ _. pure tt)

  restart_server : Action Unit
  restart_server s =
      if s.server_stopped
      then catch (start >> set_stopped false) (λ _. raise Failure.cannot_restart) s
      else (ok tt, s)

  -- The block under `except`.
  on_error : Text → Failure → Action Unit
  unfolding undo mark_failed restart_server
  on_error target e s =
      if s.copy_ready
      then (catch (undo target) (λ _. mark_failed target >> raise Failure.rollback_failed_too)
            >> raise Failure.undone)
          s
      else (restart_server >> cleanup >> raise Failure.cancelled) s

  -- The `try` with its handler, and the cleanup after it, which only warns.
  attempt : Text → Action Text
  unfolding body on_error
  attempt target = do
    catch (body target) (on_error target)
    catch cleanup (λ _. pure tt)
    pure target

  -- From the resolved target: extraction, the first marker, the flags, the transaction.
  carry_out : Text → Action Text
  unfolding attempt
  carry_out target = do
    extract_archive target
    write_state Phase.staged target
    clear_flags
    attempt target

  -- `_resolve_target_archive` is an argument: the target, or none if it was refused.
  proceed : Option Text → Option Text → Action Text
  unfolding carry_out
  proceed resolved (some done) = pure done
  proceed none none = raise Failure.bad_target
  proceed (some target) none = carry_out target

  -- `restore_transaction`; the first argument says that the data root is a directory.
  unfoldable pub restore_transaction : Bool → Text → Option Text → Action Text
  unfolding proceed
  restore_transaction root_ok unknown resolved =
      if root_ok then (recover unknown >>= proceed resolved) else raise Failure.bad_root
