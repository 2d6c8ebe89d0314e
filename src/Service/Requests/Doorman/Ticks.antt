-- ===== src/Service/Requests/Doorman/Ticks.antt =====
-- The background thread of a maintenance keeps the order too.
use mc_admin.Base.{ℕ, Text}
use mc_admin.Access.{Permission, User}
use mc_admin.Service.{
  Env, State, clock_now, closing_status, closing_cancel, closing_warning, list_players,
}
use mc_admin.Service.Actions.{server_confirmed_empty, note_deferred_once}
use mc_admin.Service.Maintenance.{tick_pending_maintenance}
use mc_admin.Service.Rules.{Keeps, keeps_rules}
use mc_admin.Service.Requests.Ordinary.{
  Keeps-write_audit, Keeps-is_restoring, Keeps-doorman_unfit_issues, Keeps-Ordinary, Keeps-order,
}
use mc_admin.Service.Requests.Doorman.{Orderly, Ordinary-Orderly, engage-Keeps}

module _ ⦃env : Env⦄ where
  empty-Keeps : Keeps Orderly server_confirmed_empty
  unfolding server_confirmed_empty
  empty-Keeps =
      search (keeps_rules, Keeps-Ordinary Orderly Ordinary-Orderly list_players (tt, tt)) depth 12

  note-Keeps :
      (user : User) (permission : Permission) (operation_id label : Text)
      → Keeps Orderly (note_deferred_once user permission operation_id label)
  unfolding note_deferred_once
  note-Keeps user permission operation_id label =
      search
        (
          keeps_rules,
          Keeps-order Orderly Ordinary-Orderly,
          Keeps-write_audit Orderly Ordinary-Orderly,
        )
        depth 16

  tick-Keeps : (system_user : User) → Keeps Orderly (tick_pending_maintenance system_user)
  unfolding tick_pending_maintenance
  tick-Keeps system_user =
      search
        (
          keeps_rules,
          empty-Keeps,
          note-Keeps,
          engage-Keeps,
          Keeps-order Orderly Ordinary-Orderly,
          Keeps-write_audit Orderly Ordinary-Orderly,
          Keeps-is_restoring Orderly Ordinary-Orderly,
          Keeps-doorman_unfit_issues Orderly Ordinary-Orderly,
          Keeps-Ordinary Orderly Ordinary-Orderly clock_now (tt, tt),
          Keeps-Ordinary Orderly Ordinary-Orderly closing_status (tt, tt),
          Keeps-Ordinary Orderly Ordinary-Orderly closing_cancel (tt, tt),
          λ (now : ℕ). Keeps-Ordinary Orderly Ordinary-Orderly (closing_warning now) (tt, tt),
        )
        depth 30

-- A tick over the closing that was announced keeps the order of the calls: if the server was
-- started and the doorman sent for in turn before it, so they were after it.
pub tick_takes_turns :
    ⦃env : Env⦄ (system_user : User) (s : State)
    → Orderly s.trace
    → Orderly (tick_pending_maintenance system_user s).1.trace
unfolding Keeps
tick_takes_turns system_user s h = tick-Keeps system_user s h
