-- ===== src/Service/Requests/Ordinary.antt =====
-- The requests that neither start nor stop the server nor send for the doorman: what any
-- property that their calls leave alone is after them.
use mc_admin.Base.{ℕ, List, Text, Bool, true, ◌≡◌, Bool-cases, inl, inr, Option}
use mc_admin.Access.{Permission, User}
use mc_admin.Service.{
  Env, Event, Order, order, tell, container_start, container_restart, container_stop,
  doorman_engage, doorman_release, Call, Action, Command, player_of, game, clock_now, ◌>>=◌, port,
  restore_worker_running, worker_issues, doorman_running, apply_running, list_ops, levels_list,
  whitelist_list, list_bans, temp_bans_pending, restart_status, restart_cancel, recurring_get,
  closing_status, closing_cancel,
}
use mc_admin.Service.Archives.Restores.{restore_in_progress}
use mc_admin.Service.Core.{
  matches_name, authorize, write_audit, validate_player_name, refuse, refuse_if_maintenance,
}
use mc_admin.Service.Moderation.{
  commanded, idle_or_audit, ensure_op_levels_idle, whitelist, whitelist_add, whitelist_remove, ops,
  pending_op_levels, op_add, op_remove, kick, bans, ban, ban_temporary, pending_unbans, pardon,
}
use mc_admin.Service.Actions.{
  begin_op_levels_apply, restart, start, schedule_restart, cancel_scheduled_restart,
  scheduled_restart_status, set_recurring_restart, clear_recurring_restart,
  recurring_restart_status,
}
use mc_admin.Service.Maintenance.{
  is_restoring, doorman_unfit_issues, maintenance_status, enter_maintenance,
  cancel_pending_maintenance, exit_maintenance,
}
use mc_admin.Service.Requests.{
  Request, perform, read_whitelist, read_ops, read_op_levels, read_bans, read_unbans, read_restart,
  read_recurring, read_maintenance, add_to_whitelist, remove_from_whitelist, remove_op, lift_ban,
  add_op, exclude, banish, banish_for, restart_now, start_now, cancel_restart, clear_recurring,
  cancel_maintenance, leave_maintenance, schedule, set_recurring, begin_maintenance,
}
use mc_admin.Service.Rules.{
  Keeps, keeps_rules, Keeps-port, Keeps-tell, Stays, Keeps-bind, Keeps-pure, Keeps-raise_bind,
  Keeps-discard, Keeps-attempt,
}

-- A command names a player by a valid name.
abbrev pub Named : Call → Type 0
Named (game command) = matches_name (player_of command) ≡ true
Named _ = Unit

-- A call that neither asks for the doorman nor sends for it, nor turns the server on or off.
abbrev pub Distant : Call → Type 0
Distant doorman_running = ⊥
Distant (order container_start) = ⊥
Distant (order container_restart) = ⊥
Distant (order (container_stop _)) = ⊥
Distant (order (doorman_engage _ _)) = ⊥
Distant (order doorman_release) = ⊥
Distant _ = Unit

abbrev pub Ordinary : Call → Type 0
Ordinary c = Named c × Distant c

module _ (P : List Event → Type 0) (ordinary : (c : Call) → Ordinary c → Stays P c)
    ⦃env : Env⦄ where
  pub Keeps-Ordinary : (c : Call) → Ordinary c → Keeps P (port c)
  Keeps-Ordinary c fits = Keeps-port P c (ordinary c fits)

  pub Keeps-order : (o : Order) → Ordinary (order o) → Keeps P (tell o)
  Keeps-order o fits = Keeps-tell P o (ordinary (order o) fits)

  pub Keeps-write_audit :
      (user : User) (permission : Permission) (outcome detail : Text)
      → Keeps P (write_audit user permission outcome detail)
  unfolding write_audit
  Keeps-write_audit user permission outcome detail =
      search (keeps_rules, Keeps-order, Keeps-Ordinary clock_now (tt, tt))

  pub Keeps-authorize :
      (user : User) (permission : Permission) → Keeps P (authorize user permission)
  unfolding authorize
  Keeps-authorize user permission = search (keeps_rules, Keeps-write_audit)

  pub Keeps-refuse_if_maintenance :
      (user : User) (permission : Permission) (hint : Text)
      → Keeps P (port doorman_running)
      → Keeps P (refuse_if_maintenance user permission hint)
  unfolding refuse_if_maintenance refuse
  Keeps-refuse_if_maintenance user permission hint watched =
      search (keeps_rules, Keeps-write_audit, watched) depth 12

  pub Keeps-game :
      (command : Command) → matches_name (player_of command) ≡ true → Keeps P (port (game command))
  Keeps-game command valid = Keeps-Ordinary (game command) (valid, tt)

  -- After the validation, the name is valid.
  pub Keeps-validated :
      {A : Type 0} (name : Text) (rest : Unit {0} → Action A)
      → (matches_name name ≡ true → Keeps P (rest tt))
      → Keeps P (validate_player_name name >>= rest)
  unfolding validate_player_name
  Keeps-validated name rest keep = elim (Bool-cases (matches_name name)) [
    | inl valid ↦ rw valid (Keeps-bind P _ _ (Keeps-pure P tt) (λ _. keep valid))
    | inr invalid ↦ rw invalid (Keeps-raise_bind P _ _ rest)
  ]

  pub Keeps-commanded :
      {A : Type 0} (user : User) (permission : Permission) (command : Command) (detail : Text)
      (after : Text → Action A)
      → matches_name (player_of command) ≡ true
      → ((result : Text) → Keeps P (after result))
      → Keeps P (commanded user permission command detail after)
  unfolding commanded
  Keeps-commanded user permission command detail after valid keep =
      Keeps-attempt P _ _ _ (Keeps-game command valid) (search (keeps_rules, Keeps-write_audit))
        keep

  pub Keeps-whitelist_add : (user : User) (name : Text) → Keeps P (whitelist_add user name)
  unfolding whitelist_add
  Keeps-whitelist_add user name =
      search (keeps_rules, Keeps-authorize, Keeps-write_audit, Keeps-validated, Keeps-commanded)
        depth 16

  pub Keeps-whitelist_remove : (user : User) (name : Text) → Keeps P (whitelist_remove user name)
  unfolding whitelist_remove
  Keeps-whitelist_remove user name =
      search (keeps_rules, Keeps-authorize, Keeps-write_audit, Keeps-validated, Keeps-commanded)
        depth 16

  pub Keeps-kick : (user : User) (name : Text) (reason : Text) → Keeps P (kick user name reason)
  unfolding kick
  Keeps-kick user name reason =
      search
        (
          keeps_rules, Keeps-order, Keeps-authorize, Keeps-write_audit, Keeps-validated,
          Keeps-commanded,
        )
        depth 16

  pub Keeps-ban : (user : User) (name : Text) (reason : Text) → Keeps P (ban user name reason)
  unfolding ban
  Keeps-ban user name reason =
      search
        (
          keeps_rules, Keeps-order, Keeps-authorize, Keeps-write_audit, Keeps-validated,
          Keeps-commanded,
        )
        depth 16

  pub Keeps-ban_temporary :
      (user : User) (name : Text) (hours : ℕ) (reason : Text)
      → Keeps P (ban_temporary user name hours reason)
  unfolding ban_temporary
  Keeps-ban_temporary user name hours reason =
      search
        (
          keeps_rules,
          Keeps-order,
          Keeps-authorize,
          Keeps-write_audit,
          Keeps-validated,
          Keeps-commanded,
          Keeps-Ordinary clock_now (tt, tt),
        )
        depth 16

  pub Keeps-pardon : (user : User) (name : Text) → Keeps P (pardon user name)
  unfolding pardon
  Keeps-pardon user name =
      search
        (
          keeps_rules, Keeps-order, Keeps-authorize, Keeps-write_audit, Keeps-validated,
          Keeps-commanded,
        )
        depth 16

  pub Keeps-whitelist : (user : User) → Keeps P (whitelist user)
  unfolding whitelist
  Keeps-whitelist user =
      search (keeps_rules, Keeps-authorize, Keeps-Ordinary whitelist_list (tt, tt)) depth 16

  pub Keeps-ops : (user : User) → Keeps P (ops user)
  unfolding ops
  Keeps-ops user = search (keeps_rules, Keeps-authorize, Keeps-Ordinary list_ops (tt, tt)) depth 16

  pub Keeps-pending_op_levels : (user : User) → Keeps P (pending_op_levels user)
  unfolding pending_op_levels
  Keeps-pending_op_levels user =
      search (keeps_rules, Keeps-authorize, Keeps-Ordinary levels_list (tt, tt)) depth 16

  pub Keeps-bans : (user : User) → Keeps P (bans user)
  unfolding bans
  Keeps-bans user =
      search (keeps_rules, Keeps-authorize, Keeps-Ordinary list_bans (tt, tt)) depth 16

  pub Keeps-pending_unbans : (user : User) → Keeps P (pending_unbans user)
  unfolding pending_unbans
  Keeps-pending_unbans user =
      search (keeps_rules, Keeps-authorize, Keeps-Ordinary temp_bans_pending (tt, tt)) depth 16

  pub Keeps-schedule_restart :
      (user : User) (minutes : ℕ) (defer : Bool) → Keeps P (schedule_restart user minutes defer)
  unfolding schedule_restart
  Keeps-schedule_restart user minutes defer =
      search
        (
          keeps_rules,
          Keeps-order,
          Keeps-authorize,
          Keeps-write_audit,
          Keeps-Ordinary clock_now (tt, tt),
        )
        depth 16

  pub Keeps-cancel_scheduled_restart : (user : User) → Keeps P (cancel_scheduled_restart user)
  unfolding cancel_scheduled_restart
  Keeps-cancel_scheduled_restart user =
      search
        (
          keeps_rules,
          Keeps-authorize,
          Keeps-write_audit,
          Keeps-Ordinary restart_status (tt, tt),
          Keeps-Ordinary restart_cancel (tt, tt),
        )
        depth 16

  pub Keeps-scheduled_restart_status : (user : User) → Keeps P (scheduled_restart_status user)
  unfolding scheduled_restart_status
  Keeps-scheduled_restart_status user =
      search (keeps_rules, Keeps-authorize, Keeps-Ordinary restart_status (tt, tt)) depth 16

  pub Keeps-set_recurring_restart :
      (user : User) (time : Text) (lead : ℕ) (defer : Bool)
      → Keeps P (set_recurring_restart user time lead defer)
  unfolding set_recurring_restart
  Keeps-set_recurring_restart user time lead defer =
      search (keeps_rules, Keeps-order, Keeps-authorize, Keeps-write_audit) depth 16

  pub Keeps-clear_recurring_restart : (user : User) → Keeps P (clear_recurring_restart user)
  unfolding clear_recurring_restart
  Keeps-clear_recurring_restart user =
      search (keeps_rules, Keeps-order, Keeps-authorize, Keeps-write_audit) depth 16

  pub Keeps-recurring_restart_status : (user : User) → Keeps P (recurring_restart_status user)
  unfolding recurring_restart_status
  Keeps-recurring_restart_status user =
      search (keeps_rules, Keeps-authorize, Keeps-Ordinary recurring_get (tt, tt)) depth 16

  pub Keeps-cancel_pending_maintenance : (user : User) → Keeps P (cancel_pending_maintenance user)
  unfolding cancel_pending_maintenance
  Keeps-cancel_pending_maintenance user =
      search
        (
          keeps_rules,
          Keeps-order,
          Keeps-authorize,
          Keeps-write_audit,
          Keeps-Ordinary closing_status (tt, tt),
          Keeps-Ordinary closing_cancel (tt, tt),
        )
        depth 16

  pub Keeps-is_restoring : Keeps P is_restoring
  unfolding is_restoring restore_in_progress
  Keeps-is_restoring = search (keeps_rules, Keeps-Ordinary restore_worker_running (tt, tt)) depth 16

  pub Keeps-doorman_unfit_issues : Keeps P doorman_unfit_issues
  unfolding doorman_unfit_issues
  Keeps-doorman_unfit_issues = search (keeps_rules, Keeps-Ordinary worker_issues (tt, tt))

  pub Keeps-ensure_op_levels_idle : Keeps P ensure_op_levels_idle
  unfolding ensure_op_levels_idle
  Keeps-ensure_op_levels_idle = search (keeps_rules, Keeps-Ordinary apply_running (tt, tt)) depth 16

  pub Keeps-idle_or_audit :
      {A : Type 0} (user : User) (what : Text) (rest : Action A)
      → Keeps P rest
      → Keeps P (idle_or_audit user what rest)
  unfolding idle_or_audit
  Keeps-idle_or_audit user what rest keep =
      search (keeps_rules, Keeps-ensure_op_levels_idle, Keeps-write_audit) depth 16

  pub Keeps-begin_op_levels_apply :
      (user : User) (permission : Permission) (operation_id requested_by : Text)
      → Keeps P (begin_op_levels_apply user permission operation_id requested_by)
  unfolding begin_op_levels_apply
  Keeps-begin_op_levels_apply user permission operation_id requested_by =
      search (keeps_rules, Keeps-order) depth 24

  pub Keeps-op_remove : (user : User) (name : Text) → Keeps P (op_remove user name)
  unfolding op_remove
  Keeps-op_remove user name =
      search
        (
          keeps_rules, Keeps-order, Keeps-authorize, Keeps-write_audit, Keeps-validated,
          Keeps-commanded, Keeps-idle_or_audit,
        )
        depth 24

  pub Keeps-op_add : (user : User) (name : Text) (level : ℕ) → Keeps P (op_add user name level)
  unfolding op_add
  Keeps-op_add user name level =
      search
        (
          keeps_rules,
          Keeps-order,
          Keeps-authorize,
          Keeps-write_audit,
          Keeps-validated,
          Keeps-commanded,
          Keeps-idle_or_audit,
          Keeps-Ordinary list_ops (tt, tt),
        )
        depth 24

  pub Keeps-maintenance_status :
      (user : User) → Keeps P (port doorman_running) → Keeps P (maintenance_status user)
  unfolding maintenance_status
  Keeps-maintenance_status user watched =
      search
        (
          keeps_rules,
          Keeps-authorize,
          Keeps-is_restoring,
          watched,
          Keeps-Ordinary closing_status (tt, tt),
        )
        depth 24

  -- Every request, if the four methods that are not ordinary keep the property.
  module _ (watched : Keeps P (port doorman_running))
      (restarts : (user : User) (operation_id requested_by : Option Text)
        → Keeps P (restart user operation_id requested_by))
      (starts : (user : User) → Keeps P (start user))
      (enters : (user : User) (message until : Text) (grace : ℕ) (defer : Bool)
        → Keeps P (enter_maintenance user message until grace defer))
      (exits : (user : User) → Keeps P (exit_maintenance user)) where
    pub perform-Keeps : (user : User) (request : Request) → Keeps P (perform user request)
    unfolding perform
    perform-Keeps user read_whitelist = Keeps-discard P _ (Keeps-whitelist user)
    perform-Keeps user (add_to_whitelist name) = Keeps-discard P _ (Keeps-whitelist_add user name)
    perform-Keeps user (remove_from_whitelist name) =
        Keeps-discard P _ (Keeps-whitelist_remove user name)
    perform-Keeps user read_ops = Keeps-discard P _ (Keeps-ops user)
    perform-Keeps user read_op_levels = Keeps-discard P _ (Keeps-pending_op_levels user)
    perform-Keeps user (add_op name level) = Keeps-discard P _ (Keeps-op_add user name level)
    perform-Keeps user (remove_op name) = Keeps-discard P _ (Keeps-op_remove user name)
    perform-Keeps user (exclude name reason) = Keeps-discard P _ (Keeps-kick user name reason)
    perform-Keeps user read_bans = Keeps-discard P _ (Keeps-bans user)
    perform-Keeps user read_unbans = Keeps-discard P _ (Keeps-pending_unbans user)
    perform-Keeps user (banish name reason) = Keeps-discard P _ (Keeps-ban user name reason)
    perform-Keeps user (banish_for name hours reason) =
        Keeps-discard P _ (Keeps-ban_temporary user name hours reason)
    perform-Keeps user (lift_ban name) = Keeps-discard P _ (Keeps-pardon user name)
    perform-Keeps user read_restart = Keeps-discard P _ (Keeps-scheduled_restart_status user)
    perform-Keeps user read_recurring = Keeps-discard P _ (Keeps-recurring_restart_status user)
    perform-Keeps user (restart_now operation_id requested_by) =
        Keeps-discard P _ (restarts user operation_id requested_by)
    perform-Keeps user start_now = Keeps-discard P _ (starts user)
    perform-Keeps user (schedule minutes defer) =
        Keeps-discard P _ (Keeps-schedule_restart user minutes defer)
    perform-Keeps user cancel_restart = Keeps-discard P _ (Keeps-cancel_scheduled_restart user)
    perform-Keeps user (set_recurring time lead defer) =
        Keeps-discard P _ (Keeps-set_recurring_restart user time lead defer)
    perform-Keeps user clear_recurring = Keeps-discard P _ (Keeps-clear_recurring_restart user)
    perform-Keeps user read_maintenance = Keeps-discard P _ (Keeps-maintenance_status user watched)
    perform-Keeps user (begin_maintenance message until grace defer) =
        Keeps-discard P _ (enters user message until grace defer)
    perform-Keeps user cancel_maintenance =
        Keeps-discard P _ (Keeps-cancel_pending_maintenance user)
    perform-Keeps user leave_maintenance = Keeps-discard P _ (exits user)
