-- ===== src/Levels/Worker.antt =====
-- app/op_levels_worker.py: `_cleanup`, `_recover_interrupted` and `apply_pending_levels`, operation by
-- operation.
pub mod Safe
pub mod Commit
pub mod Laws
pub mod Run
pub mod Recovery
pub mod Forgotten
use mc_admin.Base.{
  ℕ, Text, Bool, true, false, Option, none, some, List, [], ◌∷◌, ◌&&◌, not, ◌==◌, if◌then◌else◌,
  length,
}
use mc_admin.Levels.{Item, Levels, Entry, Lower}
use mc_admin.Levels.Machine.{
  World, Site, Faults, Phase, Marker, Action, ok, pure, raise, Failure, ◌>>=◌, ◌>>◌, catch, effect,
  get_world, modify,
}
use mc_admin.Levels.Store.{claim, complete_claim, restore_claim}
use mc_admin.Levels.Entries.{apply_requested_levels}

abbrev pub is_some : {A : Type 0} → Option A → Bool
is_some none = false
is_some (some _) = true

abbrev pub is_committed : Phase → Bool
is_committed Phase.committed = true
is_committed _ = false

-- The copy written back over ops.json.
abbrev pub written_back : Option (List Entry) → List Entry → List Entry
written_back none entries = entries
written_back (some copy) entries = copy

module _ ⦃lib : Lower⦄ ⦃faults : Faults⦄ where
  unfoldable pub cleanup : Action Unit
  cleanup =
      effect Site.clean_rollback (λ w. record w { rollback = none })
      >> effect Site.clean_marker (λ w. record w { marker = none })

  unfoldable pub write_state : Site → Phase → List Item → List Item → Action Unit
  write_state site phase requested unresolved = effect site (λ w. record w {
    marker = some (record { phase = phase; requested = requested; unresolved = unresolved });
  })

  unfoldable pub stop : Site → Action Unit
  stop site = effect site (λ w. record w { running = false })

  unfoldable pub start : Site → Action Unit
  start site = effect site (λ w. record w { running = true })

  unfoldable pub restore_rollback : Action Unit
  restore_rollback = effect Site.undo_write (λ w. record w { ops = written_back w.rollback w.ops })

  unfoldable pub set_stopped : Bool → Action Unit
  set_stopped flag = modify (λ w. record w { may_be_stopped = flag })

  -- The marker as the recovery reads it: none for an absent or unreadable one.
  read_state : Option Marker → Action (Option Marker)
  read_state none = pure none
  read_state (some m) = catch (effect Site.read_marker (λ w. w) >> pure (some m)) (λ _. pure none)

  requested_of : Option Marker → List Item
  requested_of none = []
  requested_of (some m) = m.requested

  undo_written : Action Unit
  undo_written = get_world >>= λ w.
      if is_some w.rollback then stop Site.undo_stop >> restore_rollback else pure tt

  -- The way back to the original.
  go_back : Option Marker → Action Unit
  unfolding requested_of undo_written
  go_back state =
      catch (undo_written >> start Site.undo_start >> restore_claim (requested_of state) >> cleanup)
        (λ _. raise Failure.not_recovered)
      >> raise Failure.undone_on_recovery

  resume : Option Marker → Action Unit
  unfolding go_back
  resume none = go_back none
  resume (some m) =
      if is_committed m.phase then complete_claim m.unresolved >> cleanup else go_back (some m)

  unfoldable pub recover_interrupted : Action Unit
  unfolding read_state resume
  recover_interrupted w =
      if not (is_some w.rollback) && not (is_some w.marker)
      then (ok tt, w)
      else (read_state w.marker >>= resume) w

  -- From the copy of ops.json on: the levels are written, and the server started.
  write_levels : List Item → List Entry → Action (ℕ × List Item)
  write_levels requested entries =
      let (after, (changed, unresolved)) = apply_requested_levels entries requested in
      (if changed == 0 then pure tt else effect Site.replace_ops (λ w. record w { ops = after }))
      >> write_state Site.mark_applied Phase.applied requested []
      >> start Site.start_server
      >> set_stopped false
      >> write_state Site.mark_committed Phase.committed requested unresolved
      >> complete_claim unresolved
      >> pure (changed, unresolved)

  -- The block under `try`.
  body : List Item → Action (ℕ × List Item)
  unfolding write_levels
  body requested =
      write_state Site.mark_claimed Phase.claimed requested []
      >> set_stopped true
      >> stop Site.stop_server
      >> write_state Site.mark_stopped Phase.stopped requested []
      >> effect Site.read_ops (λ w. w)
      >> (get_world >>= λ w.
          effect Site.copy_ops (λ v. record v { rollback = some w.ops })
          >> modify (λ v. record v { copy_ready = true })
          >> write_state Site.mark_ready Phase.rollback_ready requested []
          >> write_levels requested w.ops)

  -- The two ways of the block under `except`.
  undo : List Item → Action (ℕ × List Item)
  undo requested =
      catch
        (stop Site.undo_stop
          >> restore_rollback
          >> start Site.undo_start
          >> set_stopped false
          >> restore_claim requested
          >> cleanup)
        (λ _. raise Failure.both_failed)
      >> raise Failure.undone

  give_up : List Item → Action (ℕ × List Item)
  give_up requested = get_world >>= λ w.
      (if w.may_be_stopped
        then catch (start Site.restart >> set_stopped false) (λ _. raise Failure.cannot_restart)
        else pure tt)
      >> restore_claim requested
      >> cleanup
      >> raise Failure.cancelled

  pub on_error : List Item → Action (ℕ × List Item)
  unfolding undo give_up
  on_error requested = get_world >>= λ w. if w.copy_ready then undo requested else give_up requested

  carry_out : List Item → Action (ℕ × ℕ)
  unfolding body on_error
  carry_out requested = catch (body requested) (λ _. on_error requested) >>= λ result.
      catch cleanup (λ _. pure tt) >> pure (result.0, length result.1)

  -- The two flags are false at first; `root_is_valid` is the test of the directory.
  unfoldable pub apply_pending_levels : Bool → Action (ℕ × ℕ)
  unfolding carry_out
  apply_pending_levels root_is_valid =
      if root_is_valid
      then (recover_interrupted
          >> modify (λ w. record w { may_be_stopped = false; copy_ready = false })
          >> (claim >>= carry_out))
      else raise Failure.bad_root
