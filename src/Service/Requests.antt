-- ===== src/Service/Requests.antt =====
-- The calls of the service, for what holds of all of them.
pub mod Ordinary
pub mod Names
pub mod Doorman
pub mod Denials
pub mod Exclusion
use mc_admin.Base.{ℕ, Text, Bool, Option}
use mc_admin.Access.{Permission, User}
use mc_admin.Service.{Env, Action, discard, State, Out}
use mc_admin.Service.Moderation.{
  whitelist, whitelist_add, whitelist_remove, ops, pending_op_levels, op_add, op_remove, kick, bans,
  ban, ban_temporary, pending_unbans, pardon,
}
use mc_admin.Service.Actions.{
  restart, start, schedule_restart, cancel_scheduled_restart, scheduled_restart_status,
  set_recurring_restart, clear_recurring_restart, recurring_restart_status,
}
use mc_admin.Service.Maintenance.{
  maintenance_status, enter_maintenance, cancel_pending_maintenance, exit_maintenance,
}

-- A method that a user asks for, with its arguments.
pub data Request : Type 0 where
  read_whitelist read_ops read_op_levels read_bans read_unbans read_restart read_recurring
        read_maintenance :
      Request
  add_to_whitelist remove_from_whitelist remove_op lift_ban : Text → Request
  add_op : Text → ℕ → Request
  exclude banish : Text → Text → Request
  banish_for : Text → ℕ → Text → Request
  restart_now : Option Text → Option Text → Request
  start_now cancel_restart clear_recurring cancel_maintenance leave_maintenance : Request
  schedule : ℕ → Bool → Request
  set_recurring : Text → ℕ → Bool → Request
  begin_maintenance : Text → Text → ℕ → Bool → Request

unfoldable pub permission_of : Request → Permission
permission_of read_whitelist = Permission.whitelist_manage
permission_of (add_to_whitelist _) = Permission.whitelist_manage
permission_of (remove_from_whitelist _) = Permission.whitelist_manage
permission_of read_ops = Permission.op_manage
permission_of read_op_levels = Permission.op_manage
permission_of (add_op _ _) = Permission.op_manage
permission_of (remove_op _) = Permission.op_manage
permission_of (exclude _ _) = Permission.kick
permission_of read_bans = Permission.ban_manage
permission_of read_unbans = Permission.ban_manage
permission_of (banish _ _) = Permission.ban_manage
permission_of (banish_for _ _ _) = Permission.ban_manage
permission_of (lift_ban _) = Permission.ban_manage
permission_of read_restart = Permission.restart
permission_of read_recurring = Permission.restart
permission_of (restart_now _ _) = Permission.restart
permission_of cancel_restart = Permission.restart
permission_of clear_recurring = Permission.restart
permission_of (schedule _ _) = Permission.restart
permission_of (set_recurring _ _ _) = Permission.restart
permission_of start_now = Permission.start
permission_of read_maintenance = Permission.status
permission_of cancel_maintenance = Permission.maintenance
permission_of leave_maintenance = Permission.maintenance
permission_of (begin_maintenance _ _ _ _) = Permission.maintenance

-- The method, without its value.
unfoldable pub perform : ⦃env : Env⦄ → User → Request → Action Unit
perform user read_whitelist = discard (whitelist user)
perform user (add_to_whitelist name) = discard (whitelist_add user name)
perform user (remove_from_whitelist name) = discard (whitelist_remove user name)
perform user read_ops = discard (ops user)
perform user read_op_levels = discard (pending_op_levels user)
perform user (add_op name level) = discard (op_add user name level)
perform user (remove_op name) = discard (op_remove user name)
perform user (exclude name reason) = discard (kick user name reason)
perform user read_bans = discard (bans user)
perform user read_unbans = discard (pending_unbans user)
perform user (banish name reason) = discard (ban user name reason)
perform user (banish_for name hours reason) = discard (ban_temporary user name hours reason)
perform user (lift_ban name) = discard (pardon user name)
perform user read_restart = discard (scheduled_restart_status user)
perform user read_recurring = discard (recurring_restart_status user)
perform user (restart_now operation_id requested_by) =
    discard (restart user operation_id requested_by)
perform user start_now = discard (start user)
perform user (schedule minutes defer) = discard (schedule_restart user minutes defer)
perform user cancel_restart = discard (cancel_scheduled_restart user)
perform user (set_recurring time lead defer) = discard (set_recurring_restart user time lead defer)
perform user clear_recurring = discard (clear_recurring_restart user)
perform user read_maintenance = discard (maintenance_status user)
perform user (begin_maintenance message until grace defer) =
    discard (enter_maintenance user message until grace defer)
perform user cancel_maintenance = discard (cancel_pending_maintenance user)
perform user leave_maintenance = discard (exit_maintenance user)
