-- ===== src/Service/Archives/Ticks/Operation.antt =====
-- app/domain/services/backups.py: a restoration that has been started, until it is over.
use mc_admin.Base.{
  ℕ, ◌+◌, Text, codes, Bool, true, false, not, ◌&&◌, Option, none, some, List, [], ◌∷◌, ◌++◌, ◌==◌,
  leb, text_eq, if◌then◌else◌,
}
use mc_admin.Base.Strings.{decimal}
use mc_admin.Access.{User}
use mc_admin.Service.{
  RestoreOperation, Phase, restore_running, waiting_minecraft, success, failed, ContainerState, Env,
  Action, Error, Level, pure, ◌>>=◌, ◌>>◌, attempt, match_option, port, get_backups, update_backups,
  clock_now, restore_worker_running, restore_exit_code, container_status, list_players,
}
use mc_admin.Service.Archives.{restore_event, notify_restore}
use mc_admin.Service.Archives.Restores.{is_over, set_restoring}

abbrev pub phase_text : Phase → Text
phase_text restore_running = codes "restore_running"
phase_text waiting_minecraft = codes "waiting_minecraft"
phase_text success = codes "success"
phase_text failed = codes "failed"

-- `exit_code == 0`
unfoldable pub is_zero : Option ℕ → Bool
is_zero none = false
is_zero (some n) = n == 0

unfoldable pub exit_detail : Option ℕ → Text
exit_detail none = codes "code de sortie inconnu"
exit_detail (some n) = codes "code de sortie " ++ decimal n

unfoldable pub finished : Phase → Text → ℕ → RestoreOperation → RestoreOperation
finished phase message now op = record op {
  phase = phase;
  message = message;
  completed_at = some now;
}

-- It is up, and healthy if it says how it is.
unfoldable pub is_up : ContainerState → Bool
is_up state =
    state.is_running && (elim state.health [ none ↦ true | some h ↦ text_eq h (codes "healthy") ])

unfoldable pub health_text : Option Text → Text
health_text none = codes "rcon_ok"
health_text (some []) = codes "rcon_ok"
health_text (some (c ∷ h)) = c ∷ h

module _ ⦃env : Env⦄ where
  -- `_restore_operation_id`
  unfoldable pub id_or_start : RestoreOperation → Text → Text
  id_or_start op [] = env.isoformat op.started_at ++ (codes "::" ++ op.filename)
  id_or_start op (c ∷ operation_id) = c ∷ operation_id

  unfoldable pub restore_operation_id : RestoreOperation → Text
  restore_operation_id op = id_or_start op op.operation_id

  -- `_finish_restore_operation`, of an operation that is there
  unfoldable pub finish_restore_operation : RestoreOperation → Phase → Text → Action (Option Text)
  finish_restore_operation op phase message = port clock_now >>= λ now.
      update_backups (set_restoring (some (finished phase message now op)))
      >> pure (some (phase_text phase))

  unfoldable pub fail_event : User → RestoreOperation → List (Text × Text) → Action Unit
  fail_event user op fields =
      restore_event user (codes "restore_failed") (codes "error") (
        (codes "archive", op.filename) ∷ ((codes "operation_id", restore_operation_id op) ∷ fields))

  unfoldable pub execution_timeout : User → RestoreOperation → Action (Option Text)
  execution_timeout user op = do
    restore_event user (codes "restore_failed") (codes "error") (
        (codes "archive", op.filename)
        ∷ ((codes "requested_by", op.requested_by)
            ∷ ((codes "operation_id", restore_operation_id op)
                ∷ ((codes "reason", codes "execution_timeout") ∷ []))))
    finish_restore_operation op failed
        (codes "Le conteneur de restauration n'a pas terminé dans les temps.")

  unfoldable pub health_timeout : User → RestoreOperation → Action (Option Text)
  health_timeout user op = do
    restore_event user (codes "minecraft_unhealthy_timeout") (codes "error") (
        (codes "archive", op.filename)
        ∷ ((codes "requested_by", op.requested_by)
            ∷ ((codes "operation_id", restore_operation_id op) ∷ [])))
    fail_event user op ((codes "reason", codes "health_timeout") ∷ [])
    finish_restore_operation op failed
        (codes "Le monde a été restauré, mais le serveur n'est pas revenu en ligne dans les temps.")

  unfoldable pub timed_out : User → RestoreOperation → Phase → Action (Option Text)
  timed_out user op restore_running = execution_timeout user op
  timed_out user op waiting_minecraft = health_timeout user op
  timed_out user op success = health_timeout user op
  timed_out user op failed = health_timeout user op

  unfoldable pub healthy : User → RestoreOperation → ContainerState → Action (Option Text)
  healthy user op state = do
    restore_event user (codes "minecraft_healthy") (codes "allowed") (
        (codes "archive", op.filename)
        ∷ ((codes "operation_id", restore_operation_id op)
            ∷ ((codes "health", health_text state.health) ∷ [])))
    restore_event user (codes "restore_completed") (codes "allowed") (
        (codes "archive", op.filename)
        ∷ ((codes "requested_by", op.requested_by)
            ∷ ((codes "operation_id", restore_operation_id op) ∷ [])))
    finish_restore_operation op success
        (codes "Le monde a été restauré, le serveur est de nouveau en ligne.")

  -- The branch of `waiting_minecraft`
  unfoldable pub await_minecraft : User → RestoreOperation → Action (Option Text)
  await_minecraft user op =
      attempt (port container_status) (λ _. pure none)
        (λ state.
          if not (is_up state)
          then pure none
          else attempt (port list_players) (λ _. pure none) (λ _. healthy user op state))

  unfoldable pub exit_unreadable : User → RestoreOperation → Error → Action (Option Text)
  exit_unreadable user op e = do
    fail_event user op ((codes "error", e.message) ∷ [])
    notify_restore (codes "Restauration échouée") e.message Level.error
    finish_restore_operation op failed
        (codes "Le résultat du conteneur de restauration est illisible.")

  unfoldable pub exit_message : Option ℕ → Text
  exit_message exit_code =
      codes "Le conteneur de restauration a échoué (" ++ (exit_detail exit_code ++ codes ").")

  unfoldable pub exit_failed : User → RestoreOperation → Option ℕ → Action (Option Text)
  exit_failed user op exit_code = do
    fail_event user op
        ((codes "reason", codes "container_exit") ∷ ((codes "detail", exit_detail exit_code) ∷ []))
    notify_restore (codes "Restauration échouée") (exit_message exit_code) Level.error
    finish_restore_operation op failed (exit_message exit_code)

  -- The server has five minutes to come back.
  unfoldable pub waiting : ℕ → RestoreOperation → RestoreOperation
  waiting now op = record op {
    phase = waiting_minecraft;
    deadline = now + 300;
    message = codes "Étape 3/3 — redémarrage du serveur.";
    completed_at = none;
  }

  unfoldable pub exit_ok : User → ℕ → RestoreOperation → Action (Option Text)
  exit_ok user now op = do
    restore_event user (codes "restore_done") (codes "allowed")
        ((codes "archive", op.filename) ∷ ((codes "operation_id", restore_operation_id op) ∷ []))
    restore_event user (codes "minecraft_restarting") (codes "allowed")
        ((codes "archive", op.filename) ∷ ((codes "operation_id", restore_operation_id op) ∷ []))
    update_backups (set_restoring (some (waiting now op)))
    await_minecraft user (waiting now op)

  unfoldable pub read_exit : User → ℕ → RestoreOperation → Action (Option Text)
  read_exit user now op =
      attempt (if env.has_restore then port restore_exit_code else pure none)
        (exit_unreadable user op)
        (λ exit_code.
          if is_zero exit_code then exit_ok user now op else exit_failed user op exit_code)

  unfoldable pub state_unreadable : User → RestoreOperation → Error → Action (Option Text)
  state_unreadable user op e =
      fail_event user op ((codes "error", e.message) ∷ [])
      >> finish_restore_operation op failed (codes "État de mc-restore illisible.")

  -- The branch of `restore_running`
  unfoldable pub await_worker : User → ℕ → RestoreOperation → Action (Option Text)
  await_worker user now op =
      attempt (if env.has_restore then port restore_worker_running else pure false)
        (state_unreadable user op) (λ running. if running then pure none else read_exit user now op)

  unfoldable pub by_phase : User → ℕ → RestoreOperation → Phase → Action (Option Text)
  by_phase user now op restore_running = await_worker user now op
  by_phase user now op waiting_minecraft = await_minecraft user op
  by_phase user now op success = pure none
  by_phase user now op failed = pure none

  unfoldable pub tick_operation_of : User → RestoreOperation → Action (Option Text)
  tick_operation_of user op = port clock_now >>= λ now.
      if is_over op.phase
      then pure (some (phase_text op.phase))
      else if leb op.deadline now
      then timed_out user op op.phase
      else by_phase user now op op.phase

  -- `_tick_restore_operation`
  unfoldable pub tick_restore_operation : User → Action (Option Text)
  tick_restore_operation user =
      get_backups >>= λ b. match_option b.operation (pure none) (tick_operation_of user)
