-- ===== src/Service/Actions.antt =====
-- app/domain/services/actions.py: restarting and starting the server, the application of the
-- operator levels, and the restarts that are scheduled once or every day.
use mc_admin.Base.{
  ℕ, ◌+◌, ◌*◌, Text, codes, text_eq, Bool, true, false, ◌&&◌, ◌||◌, not, Option, none, some, List,
  [], ◌∷◌, ◌++◌, leb, ◌==◌, if◌then◌else◌, length, any,
}
use mc_admin.Base.Strings.{decimal}
use mc_admin.Access.{Permission, User}
use mc_admin.Service.{
  Env, Action, pure, raise, reraise, get_state, match_option, set_operation, set_announced,
  Operation, Error, ◌>>=◌, ◌>>◌, attempt, best_effort, port, tell, op_levels_unavailable,
  invalid_duration, server_unavailable, clock_now, levels_list, apply_levels, apply_running,
  apply_exit_code, container_restart, container_start, notify, Level, say, list_players,
  restart_status, restart_cancel, restart_schedule, recurring_get, recurring_set, recurring_clear,
  ScheduledRestart, RecurringRestart,
}
use mc_admin.Service.Core.{authorize, write_audit, refuse_if_maintenance, format_seconds}

-- `pattern.match` of `^([01]\d|2[0-3]):[0-5]\d$`
is_hour : ⦃env : Env⦄ → ℕ → ℕ → Bool
is_hour ⦃env⦄ a b = ((a == 48 || a == 49) && env.is_decimal b) || (a == 50 && leb 48 b && leb b 51)

-- `\d` is any decimal digit of Unicode, and `$` also stands before one newline at the end.
unfoldable pub is_time : ⦃env : Env⦄ → Text → Bool
unfolding is_hour
is_time ⦃env⦄ (a ∷ (b ∷ (c ∷ (d ∷ (e ∷ []))))) =
    is_hour a b && c == 58 && (leb 48 d && leb d 53) && env.is_decimal e
is_time ⦃env⦄ (a ∷ (b ∷ (c ∷ (d ∷ (e ∷ (f ∷ [])))))) =
    is_hour a b && c == 58 && (leb 48 d && leb d 53) && env.is_decimal e && f == 10
is_time _ = false

unfoldable pub without : Text → List Text → List Text
without x [] = []
without x (y ∷ ys) = let rest = without x ys in if text_eq x y then rest else y ∷ rest

abbrev pub is_nil : {A : Type 0} → List A → Bool
is_nil [] = true
is_nil (_ ∷ _) = false

module _ ⦃env : Env⦄ where
  -- `_begin_op_levels_apply`
  unfoldable pub begin_op_levels_apply : User → Permission → Text → Text → Action Unit
  begin_op_levels_apply user permission operation_id requested_by =
      if env.has_apply
      then get_state >>= (λ s.
        match_option s.operation
          (tell apply_levels
            >> set_operation (
                some (record {
                  user = user;
                  permission = permission;
                  operation_id = operation_id;
                  requested_by = requested_by;
                })))
          (λ _.
            raise op_levels_unavailable (codes "une application des niveaux OP est déjà en cours")))
      else raise op_levels_unavailable
          (codes "niveaux OP en attente, mais leur outil d'application n'est pas configuré")

  -- `_tick_op_levels_operation` once the worker has ended.
  conclude : Operation → ℕ → Action Unit
  conclude operation exit_code =
      let common =
        codes "requested_by="
        ++ operation.requested_by
        ++ codes " operation_id="
        ++ operation.operation_id in
      if exit_code == 0
      then (write_audit operation.user operation.permission (codes "allowed")
            (codes "phase=op_levels_applied " ++ common)
          >> tell (
              notify (codes "Niveaux OP appliqués")
                (codes "Minecraft est de nouveau en ligne avec les niveaux demandés.") Level.info))
      else (write_audit operation.user operation.permission (codes "error")
            (codes "phase=op_levels_failed exit_code=" ++ decimal exit_code ++ codes " " ++ common)
          >> tell (
              notify (codes "Niveaux OP non appliqués")
                (codes "L'opération a échoué (code "
                  ++ decimal exit_code
                  ++ codes "). Le retour à la configuration précédente a été tenté.")
                Level.error))

  -- The state and the exit code of the worker; none while it runs or has not ended.
  ended_with : Action (Option ℕ)
  ended_with = port apply_running >>= λ running. if running then pure none else port apply_exit_code

  unfoldable pub tick_op_levels_operation : Action Unit
  unfolding conclude ended_with
  tick_op_levels_operation = get_state >>= λ s. match_option s.operation (pure tt) (λ operation.
      if env.has_apply
      then attempt ended_with (λ _. pure tt)
          (λ code.
            match_option code (pure tt)
              (λ exit_code. set_operation none >> conclude operation exit_code))
      else pure tt)

  -- The operation of `restart` and `start`: the levels if some are pending, else Docker's call.
  -- The number of pending levels is what is left to say of it.
  powered : User → Permission → Text → Text → Action Unit → Action ℕ
  powered user permission operation_id requester turn_on = do
    levels ← (if env.has_levels then port levels_list else pure [])
    if is_nil levels then turn_on else begin_op_levels_apply user permission operation_id requester
    pure (length levels)

  failed_power : User → Permission → Text → Error → Action Unit
  failed_power user permission title e = do
    write_audit user permission (codes "error") e.message
    tell (notify title e.message Level.error)

  levels_detail : ℕ → Text → Text → Text
  levels_detail count requester operation_id =
      if count == 0
      then []
      else codes "phase=op_levels_started count="
        ++ decimal count
        ++ codes " requested_by="
        ++ requester
        ++ codes " operation_id="
        ++ operation_id

  restarted : User → Text → Text → ℕ → Action Bool
  unfolding levels_detail
  restarted user requester operation_id count = do
    write_audit user Permission.restart (codes "allowed")
        (levels_detail count requester operation_id)
    tell (
        notify (if count == 0 then codes "Serveur redémarré" else codes "Redémarrage lancé")
          (codes "Demandé par "
            ++ requester
            ++ codes "."
            ++ (if count == 0 then [] else codes " Les niveaux OP en attente vont être appliqués."))
          Level.info)
    pure (not (count == 0))

  -- `f"op-levels::{self._clock.now().isoformat()}::{requester}"`
  new_identifier : Text → Action Text
  new_identifier requester = port clock_now >>= λ now.
      pure (codes "op-levels::" ++ env.isoformat now ++ codes "::" ++ requester)

  -- `given or ...`: the empty text is as good as none.
  identifier : Option Text → Text → Action Text
  unfolding new_identifier
  identifier given requester =
      match_option given (new_identifier requester)
        (λ id. if is_nil id then new_identifier requester else pure id)

  or_else : Option Text → Text → Text
  or_else none default = default
  or_else (some given) default = if is_nil given then default else given

  unfoldable pub restart : User → Option Text → Option Text → Action Bool
  unfolding powered failed_power restarted identifier or_else
  restart user operation_id requested_by = do
    authorize user Permission.restart
    refuse_if_maintenance user Permission.restart (codes "utilise « Rouvrir le serveur »")
    let requester = or_else requested_by user.username
    op_id ← identifier operation_id requester
    attempt (powered user Permission.restart op_id requester (tell container_restart))
        (λ e. failed_power user Permission.restart (codes "Redémarrage échoué") e >> reraise e)
        (restarted user requester op_id)

  unfoldable pub start : User → Action Unit
  unfolding powered failed_power identifier levels_detail
  start user = do
    authorize user Permission.start
    refuse_if_maintenance user Permission.start (codes "utilise « Rouvrir le serveur »")
    op_id ← identifier none user.username
    attempt (powered user Permission.start op_id user.username (tell container_start))
        (λ e. failed_power user Permission.start (codes "Démarrage échoué") e >> reraise e)
        (λ count.
          write_audit user Permission.start (codes "allowed")
            (levels_detail count user.username op_id))

  -- `_server_confirmed_empty`
  unfoldable pub server_confirmed_empty : Action Bool
  server_confirmed_empty =
      attempt (port list_players) (λ _. pure false) (λ players. pure (is_nil players))

  -- `_note_deferred_once`
  unfoldable pub note_deferred_once : User → Permission → Text → Text → Action Unit
  note_deferred_once user permission operation_id label = get_state >>= λ s.
      if any (text_eq operation_id) s.announced then pure tt else (do
        set_announced (operation_id ∷ s.announced)
        best_effort (
            tell (
              say (
                codes "⏸ "
                ++ label
                ++ codes " reporté : il aura lieu dès que le serveur sera vide.")))
        tell (
            notify (label ++ codes " reporté")
              (codes
                "Des joueurs sont connectés : l'opération programmée attend que le serveur soit vide avant de s'exécuter.")
              Level.info)
        write_audit user permission (codes "allowed")
            (codes "phase=deferred_players_online operation_id=" ++ operation_id))

  restart_id : ℕ → Text
  restart_id restart_at = codes "restart::" ++ env.isoformat restart_at

  unfoldable pub schedule_restart : User → ℕ → Bool → Action Unit
  unfolding restart_id
  schedule_restart user minutes defer_if_players = do
    authorize user Permission.restart
    if minutes == 0
        then raise invalid_duration (codes "délai invalide : 0min (doit être > 0)")
        else (do
          now ← port clock_now
          let restart_at = now + minutes * 60
          let delay = format_seconds (minutes * 60)
          tell (restart_schedule restart_at user.username (minutes * 60) defer_if_players)
          best_effort
              (tell (say (codes "⚠ Redémarrage du serveur programmé dans " ++ delay ++ codes ".")))
          write_audit user Permission.restart (codes "allowed") (
              codes "phase=restart_scheduled delay=\""
              ++ delay
              ++ codes "\" requested_by="
              ++ user.username
              ++ codes " operation_id="
              ++ restart_id restart_at))

  nothing_to_cancel : User → Action Unit
  nothing_to_cancel user =
      write_audit user Permission.restart (codes "allowed") (codes "rien à annuler")

  unfoldable pub cancel_scheduled_restart : User → Action Unit
  unfolding restart_id nothing_to_cancel
  cancel_scheduled_restart user = do
    authorize user Permission.restart
    pending ← port restart_status
    had ← port restart_cancel
    if had
        then match_option pending (nothing_to_cancel user) (λ scheduled. get_state >>= λ s. do
          set_announced (without (restart_id scheduled.restart_at) s.announced)
          write_audit user Permission.restart (codes "allowed") (
              codes "phase=restart_cancelled requested_by="
              ++ user.username
              ++ codes " operation_id="
              ++ restart_id scheduled.restart_at))
        else nothing_to_cancel user

  unfoldable pub scheduled_restart_status : User → Action (Option ScheduledRestart)
  scheduled_restart_status user = authorize user Permission.restart >> port restart_status

  unfoldable pub set_recurring_restart : User → Text → ℕ → Bool → Action Unit
  set_recurring_restart user time_hhmm lead_seconds defer_if_players = do
    authorize user Permission.restart
    if not (is_time time_hhmm)
        then raise invalid_duration
            (codes "heure invalide : " ++ env.repr time_hhmm ++ codes " (attendu HH:MM)")
        else if lead_seconds == 0
        then raise invalid_duration (codes "préavis invalide : 0s (doit être > 0)")
        else if not env.has_recurring
        then raise server_unavailable (codes "redémarrage récurrent non configuré côté serveur")
        else (do
          tell (
              recurring_set (record {
                time_hhmm = time_hhmm;
                lead_seconds = lead_seconds;
                defer_if_players = defer_if_players;
              }))
          write_audit user Permission.restart (codes "allowed") (
              codes "redémarrage récurrent activé : tous les jours à "
              ++ time_hhmm
              ++ codes " (préavis "
              ++ format_seconds lead_seconds
              ++ codes ")"
              ++ (if defer_if_players then codes " · attend le serveur vide" else [])))

  unfoldable pub clear_recurring_restart : User → Action Unit
  clear_recurring_restart user = do
    authorize user Permission.restart
    if env.has_recurring then tell recurring_clear else pure tt
    write_audit user Permission.restart (codes "allowed") (codes "redémarrage récurrent désactivé")

  unfoldable pub recurring_restart_status : User → Action (Option RecurringRestart)
  recurring_restart_status user =
      authorize user Permission.restart
      >> (if env.has_recurring then port recurring_get else pure none)
