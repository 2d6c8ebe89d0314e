-- ===== src/Tests/Service.antt =====
-- Requests to a service whose ports all answer.
use mc_admin.Base.{Text, ◌/◌, ◌∷◌, ◌≡◌, ◌↔◌, ◌⊎◌, ◌++◌, codes, [], none, some, refl, true, false}
use mc_admin.Access.{Permission, User, can}
use mc_admin.Service.{
  Out, Env, Kind, raised, temp_bans_cancel, Call, Reply, ok, State, order, game, clock_now,
  whitelist_list, list_players, list_ops, list_bans, levels_list, temp_bans_pending, apply_running,
  apply_exit_code, doorman_running, restart_status, restart_cancel, recurring_get, closing_status,
  closing_cancel, closing_warning, worker_issues, archives_list, checks_checking, restore_exit_code,
  container_status, profiles_list, restore_worker_running, safety_trigger, safety_exit_code,
  restore_worker_issues, maker_running, archive_path, archive_delete, archive_validate,
  check_status, profile_get, Backups,
}
use mc_admin.Service.Core.{matches_name}
use mc_admin.Service.Core.Names.{IsName, matches_name-IsName}
use mc_admin.Service.Moderation.Sanctions.{Unaudited, apply_sanction, temporary, sanction-Unaudited}
use mc_admin.Service.Requests.{permission_of, perform, exclude, start_now}
use mc_admin.Service.Maintenance.{tick_pending_maintenance}
use mc_admin.Service.Requests.Doorman.Ticks.{tick_takes_turns}
use mc_admin.Service.Requests.Doorman.{Orderly, requests_take_turns}
use mc_admin.Service.Requests.Denials.{Refused, denied_request}
use mc_admin.Service.Requests.Names.{AllLegible, commands_name_players}

abbrev pub calm : (c : Call) → Reply c
calm (order _) = tt
calm (game _) = codes "ok"
calm clock_now = 7
calm whitelist_list = []
calm list_players = []
calm list_ops = []
calm list_bans = []
calm levels_list = []
calm temp_bans_pending = []
calm apply_running = false
calm apply_exit_code = some 0
calm doorman_running = false
calm restart_status = none
calm restart_cancel = false
calm recurring_get = none
calm closing_status = none
calm closing_cancel = false
calm (closing_warning _) = none
calm worker_issues = []
calm archives_list = []
calm checks_checking = none
calm restore_exit_code = some 0
calm container_status = record { is_running = true; health = none }
calm profiles_list = []
calm restore_worker_running = false
calm safety_trigger = record { started = true; detail = [] }
calm safety_exit_code = some 0
calm restore_worker_issues = []
calm (maker_running _) = false
calm (archive_path _) = none
calm (archive_delete _) = true
calm (archive_validate name) = record {
  filename = name;
  is_ok = true;
  size_bytes = 1;
  detail = [];
  restorable = some true;
  archive_created_at = 1;
}
calm (check_status _) = none
calm (profile_get _) = none

abbrev pub env : Env
env = record {
  container_name = codes "minecraft";
  has_levels = true;
  has_apply = true;
  has_doorman = true;
  has_recurring = true;
  has_closing = true;
  has_integrity = true;
  has_pending_restore = true;
  has_restore = true;
  has_validator = true;
  has_checks = true;
  has_profiles = true;
  has_profile_backup = true;
  answers = λ _ c. ok (calm c);
  isoformat = λ _. codes "2026-01-01T00:00:00";
  is_decimal = λ _. false;
  repr = λ t. t;
  year_month = λ t. (t / 31536000, t / 2678400);
}

abbrev guest : User
guest = record {
  username = codes "eve";
  role = record { name = codes "guest"; permissions = []; grants_all = false };
}

abbrev pub owner : User
owner = record {
  username = codes "ann";
  role = record { name = codes "owner"; permissions = []; grants_all = true };
}

abbrev pub no_backups : Backups
no_backups = record {
  pending = none;
  operation = none;
  started_at = [];
  operation_ids = [];
  progress_max = [];
  outcome = none;
  validating = none;
}

abbrev pub fresh : State
fresh = record { trace = []; operation = none; announced = []; backups = no_backups }

denied_request_example :
    Refused ⦃env = env⦄ guest Permission.kick fresh
      (perform ⦃env = env⦄ guest (exclude (codes "bob") (codes "spam")) fresh)
unfolding can permission_of
denied_request_example =
    denied_request ⦃env = env⦄ guest (exclude (codes "bob") (codes "spam")) fresh refl

commands_name_players_example :
    AllLegible (perform ⦃env = env⦄ owner (exclude (codes "bob") (codes "spam")) fresh).1.trace
commands_name_players_example =
    commands_name_players ⦃env = env⦄ owner (exclude (codes "bob") (codes "spam")) fresh tt

requests_take_turns_example : Orderly (perform ⦃env = env⦄ owner start_now fresh).1.trace
unfolding Orderly
requests_take_turns_example = requests_take_turns ⦃env = env⦄ owner start_now fresh refl tt

-- The file of the timers cannot be written.
abbrev flaky : (c : Call) → Out (Reply c)
flaky (order (temp_bans_cancel _)) =
    raised (record { kind = Kind.fault; message = codes "disk full" })
flaky c = ok (calm c)

abbrev broken_env : Env
broken_env = record env { answers = λ _ c. flaky c }

sanction-Unaudited_example :
    Unaudited fresh
      (apply_sanction ⦃env = broken_env⦄ owner (codes "bob") (temporary 1 (codes "spam")) fresh)
unfolding can matches_name
sanction-Unaudited_example =
    sanction-Unaudited ⦃env = broken_env⦄ owner (codes "bob") refl refl (λ t. (_, refl))
      (temporary 1 (codes "spam")) fresh (codes "ok") refl

matches_name-IsName_example :
    (matches_name (codes "bob\n") ≡ true)
    ↔ (IsName (codes "bob\n") ⊎ ((name : Text) × (codes "bob\n" ≡ name ++ 10 ∷ []) × IsName name))
matches_name-IsName_example = matches_name-IsName (codes "bob\n")

-- A closing has been announced, and its time has come.
abbrev due : (c : Call) → Reply c
due closing_status = some (record {
  engage_at = 5;
  requested_by = codes "ann";
  motd = codes "m";
  kick = codes "k";
  operation_id = codes "maintenance::5";
  defer_if_players = false;
})
due c = calm c

abbrev due_env : Env
due_env = record env { answers = λ _ c. ok (due c) }

tick_takes_turns_example : Orderly (tick_pending_maintenance ⦃env = due_env⦄ owner fresh).1.trace
unfolding Orderly
tick_takes_turns_example = tick_takes_turns ⦃env = due_env⦄ owner fresh tt
