-- ===== src/Service/Maintenance.antt =====
-- app/domain/services/maintenance.py: closing the server behind the doorman, now or after a
-- delay of grace, and reopening it.
use mc_admin.Base.{
  ℕ, ◌+◌, ◌*◌, Text, codes, Bool, true, false, not, Option, none, some, List, [], ◌∷◌, ◌++◌, leb,
  ◌==◌, if◌then◌else◌, take, any, text_eq,
}
use mc_admin.Base.Strings.{split, join}
use mc_admin.Access.{Permission, User}
use mc_admin.Service.{
  Env, Action, pure, raise, reraise, get_state, match_option, set_announced, ◌>>=◌, ◌>>◌, attempt,
  best_effort, port, tell, maintenance_unavailable, clock_now, notify, Level, say, save_all,
  container_start, container_stop, doorman_running, doorman_release, doorman_engage, closing_status,
  closing_cancel, closing_schedule, closing_warning, worker_issues, PendingMaintenance,
}
use mc_admin.Service.Archives.Restores.{restore_in_progress}
use mc_admin.Service.Core.{authorize, write_audit, format_seconds, sanitize_reason}
use mc_admin.Service.Actions.{is_nil, without, server_confirmed_empty, note_deferred_once}

-- `" ".join(text.split())[:limit]`
squeeze : ℕ → Text → Text
squeeze limit text = take limit (join (split text))

section_sign : Text → Bool
section_sign [] = false
section_sign (c ∷ _) = c == 167

second_line : Text → Text → Text
second_line [] [] = []
second_line [] (h ∷ horizon) = codes "§7retour prévu : " ++ (h ∷ horizon)
second_line (b ∷ body) [] = b ∷ body
second_line (b ∷ body) (h ∷ horizon) =
    (b ∷ body) ++ codes " §7(retour prévu : " ++ (h ∷ horizon) ++ codes ")"

motd_of : Text → Text
unfolding section_sign
motd_of [] = codes "§e⚙ Maintenance en cours"
motd_of (c ∷ line) =
    codes "§e⚙ Maintenance en cours\n"
    ++ (if section_sign (c ∷ line) then [] else codes "§f")
    ++ (c ∷ line)

body_or_default : Text → Text
body_or_default [] = codes "Le serveur est fermé pour maintenance."
body_or_default (c ∷ body) = c ∷ body

kick_of : Text → Text → Text
unfolding body_or_default
kick_of body [] = body_or_default body
kick_of body (h ∷ horizon) = body_or_default body ++ codes "\n\nRetour prévu : " ++ (h ∷ horizon)

unfoldable pub build_maintenance_messages : Text → Text → Text × Text
unfolding squeeze second_line motd_of kick_of
build_maintenance_messages message until =
    let body = squeeze 120 message in
    let horizon = squeeze 40 until in (motd_of (second_line body horizon), kick_of body horizon)

pub semicolons : List Text → Text
semicolons [] = []
semicolons (x ∷ []) = x
semicolons (x ∷ (y ∷ ys)) = x ++ codes " ; " ++ semicolons (y ∷ ys)

-- `_unfit_message`
pub unfit_message : List Text → Text
unfolding semicolons
unfit_message issues =
    codes "le portier de maintenance ne peut pas prendre le relais, le serveur reste ouvert — "
    ++ semicolons issues

pub record MaintenanceStatus : Type 0 where
  pub active : Bool
  pub pending : Option PendingMaintenance
  pub motd : Text
  pub restoring : Bool

motd_or_empty : Option PendingMaintenance → Text
motd_or_empty none = []
motd_or_empty (some pending) = pending.motd

module _ ⦃env : Env⦄ where
  -- `_restoring`
  unfoldable pub is_restoring : Action Bool
  is_restoring = attempt restore_in_progress (λ _. pure true) pure

  unfoldable pub maintenance_status : User → Action MaintenanceStatus
  unfolding motd_or_empty
  maintenance_status user = do
    authorize user Permission.status
    if not env.has_doorman
        then pure (record { active = false; pending = none; motd = []; restoring = false })
        else (do
          active ← attempt (port doorman_running) (λ _. pure false) pure
          pending ← (if env.has_closing then port closing_status else pure none)
          restoring ← (if active then is_restoring else pure false)
          pure (record {
            active = active;
            pending = pending;
            motd = motd_or_empty pending;
            restoring = restoring;
          }))

  -- `_doorman_unfit_issues`
  unfoldable pub doorman_unfit_issues : Action (List Text)
  doorman_unfit_issues =
      if env.has_integrity then attempt (port worker_issues) (λ _. pure []) pure else pure []

  stop_failed : User → Text → Text → Action Unit
  stop_failed user common message = do
    write_audit user Permission.maintenance (codes "error")
        (codes "phase=maintenance_stop_failed " ++ common)
    tell (notify (codes "Mise en maintenance échouée") message Level.error)

  engage_failed : User → Text → Text → Action Unit
  engage_failed user common message = do
    write_audit user Permission.maintenance (codes "error")
        (codes "phase=maintenance_doorman_failed " ++ common)
    tell (
        notify (codes "Portier de maintenance absent")
          (codes "Le serveur est bien arrêté, mais le portier n'a pas pris son poste ("
            ++ message
            ++ codes
                "). Les joueurs ne verront aucun message. Utilisez « Rouvrir le serveur » pour revenir en ligne.")
          Level.error)

  engaged : User → Text → Text → Action Unit
  engaged user common requested_by = do
    write_audit user Permission.maintenance (codes "allowed")
        (codes "phase=maintenance_engaged " ++ common)
    tell (
        notify (codes "Serveur en maintenance")
          (codes "Fermé par "
            ++ requested_by
            ++ codes ". Le portier répond aux joueurs à sa place.")
          Level.info)

  identifier : Text → Action Text
  identifier given =
      if is_nil given
      then (port clock_now >>= λ now. pure (codes "maintenance::" ++ env.isoformat now))
      else pure given

  -- `_engage_maintenance`
  unfoldable pub engage_maintenance : User → Text → Text → Text → Text → Action Unit
  unfolding stop_failed engage_failed engaged identifier
  engage_maintenance user motd kick requested_by operation_id = do
    op_id ← identifier operation_id
    let common = codes "requested_by=" ++ requested_by ++ codes " operation_id=" ++ op_id
    best_effort (tell (say (codes "⚠ Fermeture du serveur pour maintenance.")) >> tell save_all)
    attempt (tell (container_stop 120)) (λ e. stop_failed user common e.message >> reraise e)
        (λ _.
          attempt (tell (doorman_engage motd kick))
            (λ e. engage_failed user common e.message >> reraise e)
            (λ _. engaged user common requested_by))

  blocked : User → Text → Text → Action Unit
  blocked user reason message =
      write_audit user Permission.maintenance (codes "denied")
        (codes "phase=" ++ reason ++ codes " requested_by=" ++ user.username)
      >> raise maintenance_unavailable message

  -- The announcement of a closing after the delay of grace.
  announce_closing : User → Text → Text → ℕ → Bool → Action Unit
  announce_closing user motd kick grace_minutes defer_if_players =
      if not env.has_closing
      then raise maintenance_unavailable
          (codes "délai de grâce indisponible : aucun suivi d'annonce configuré")
      else (do
        now ← port clock_now
        let engage_at = now + grace_minutes * 60
        let delay = format_seconds (grace_minutes * 60)
        tell (
            closing_schedule engage_at user.username motd kick (grace_minutes * 60)
              defer_if_players)
        best_effort (
            tell
              (say (codes "⚠ Fermeture du serveur pour maintenance dans " ++ delay ++ codes ".")))
        write_audit user Permission.maintenance (codes "allowed") (
            codes "phase=maintenance_scheduled delay=\""
            ++ delay
            ++ codes "\" requested_by="
            ++ user.username
            ++ codes " operation_id=maintenance::"
            ++ env.isoformat engage_at))

  -- `enter_maintenance` once the doorman is known to be fit.
  close : User → Text → Text → ℕ → Bool → Action Unit
  unfolding announce_closing
  close user message until grace_minutes defer_if_players =
      let texts = build_maintenance_messages (sanitize_reason message) (sanitize_reason until) in
      if grace_minutes == 0
      then engage_maintenance user texts.0 texts.1 user.username []
      else announce_closing user texts.0 texts.1 grace_minutes defer_if_players

  when_fit : User → Action Unit → List Text → Action Unit
  unfolding blocked
  when_fit user rest issues =
      if is_nil issues
      then rest
      else blocked user (codes "maintenance_blocked raison=portier-inapte") (unfit_message issues)

  unfoldable pub enter_maintenance : User → Text → Text → ℕ → Bool → Action Unit
  unfolding blocked close when_fit
  enter_maintenance user message until grace_minutes defer_if_players = do
    authorize user Permission.maintenance
    if not env.has_doorman
        then raise maintenance_unavailable
            (codes "mode maintenance indisponible : aucun portier configuré")
        else (is_restoring >>= λ restoring.
            if restoring
            then blocked user (codes "maintenance_blocked raison=restauration-en-cours")
                (codes "une restauration est en cours : réessayer une fois terminée")
            else (port doorman_running >>= λ running.
                if running
                then raise maintenance_unavailable (codes "le serveur est déjà en maintenance")
                else (doorman_unfit_issues
                    >>= when_fit user (close user message until grace_minutes defer_if_players))))

  nothing_to_cancel : User → Action Unit
  nothing_to_cancel user =
      write_audit user Permission.maintenance (codes "allowed") (codes "rien à annuler")

  unfoldable pub cancel_pending_maintenance : User → Action Unit
  unfolding nothing_to_cancel
  cancel_pending_maintenance user = do
    authorize user Permission.maintenance
    pending ← (if env.has_closing then port closing_status else pure none)
    had ← (if env.has_closing then port closing_cancel else pure false)
    if had
        then match_option pending (nothing_to_cancel user) (λ closing. do
          best_effort (tell (say (codes "✅ Maintenance annulée : le serveur reste ouvert.")))
          write_audit user Permission.maintenance (codes "allowed") (
              codes "phase=maintenance_cancelled requested_by="
              ++ user.username
              ++ codes " operation_id="
              ++ closing.operation_id))
        else nothing_to_cancel user

  -- The error of one of the two steps of the reopening.
  reopening_failed : User → Text → Text → Text → Action Unit
  reopening_failed user phase title message = do
    write_audit user Permission.maintenance (codes "error")
        (codes "phase=" ++ phase ++ codes " requested_by=" ++ user.username)
    tell (notify title message Level.error)

  reopened : User → Action Unit
  reopened user = do
    write_audit user Permission.maintenance (codes "allowed")
        (codes "phase=maintenance_ended requested_by=" ++ user.username)
    tell (
        notify (codes "Serveur rouvert")
          (codes "La maintenance est terminée ("
            ++ user.username
            ++ codes "). Le serveur redémarre.")
          Level.info)

  -- `exit_maintenance` from the cancelling of the announced closing on.
  reopen : User → Action Unit
  unfolding reopening_failed reopened
  reopen user = do
    if env.has_closing then port closing_cancel >> pure tt else pure tt
    attempt (tell doorman_release)
        (λ e.
          reopening_failed user (codes "maintenance_release_failed")
            (codes "Réouverture impossible") e.message
          >> reraise e)
        (λ _.
          attempt (tell container_start)
            (λ e.
              reopening_failed user (codes "maintenance_restart_failed")
                (codes "Réouverture échouée") e.message
              >> reraise e)
            (λ _. reopened user))

  unfoldable pub exit_maintenance : User → Action Unit
  unfolding reopen blocked
  exit_maintenance user = do
    authorize user Permission.maintenance
    if not env.has_doorman
        then raise maintenance_unavailable
            (codes "mode maintenance indisponible : aucun portier configuré")
        else (is_restoring >>= λ restoring.
            if restoring
            then blocked user (codes "maintenance_release_blocked raison=restauration-en-cours") (
                codes
                  "le serveur est fermé pour une restauration en cours : il rouvrira de lui-même une fois celle-ci terminée")
            else reopen user)

  -- `tick_maintenance` at the time of a closing: it waits for a restoration to end.
  hold_for_restore : User → PendingMaintenance → Action Unit
  hold_for_restore system_user pending = get_state >>= λ s.
      let hold_key = pending.operation_id ++ codes "::restauration" in
      if any (text_eq hold_key) s.announced then pure tt else (do
        set_announced (hold_key ∷ s.announced)
        write_audit system_user Permission.maintenance (codes "allowed") (
            codes "phase=maintenance_deferred raison=restauration-en-cours operation_id="
            ++ pending.operation_id)
        tell (
            notify (codes "Maintenance reportée")
              (codes
                "Une restauration est en cours : la fermeture aura lieu dès qu'elle sera terminée.")
              Level.info))

  close_or_call_off : User → PendingMaintenance → List Text → Action Unit
  close_or_call_off system_user pending issues =
      if is_nil issues
      then engage_maintenance system_user pending.motd pending.kick pending.requested_by
          pending.operation_id
      else (do
        best_effort (tell (say (codes "✅ Maintenance annulée : le serveur reste ouvert.")))
        write_audit system_user Permission.maintenance (codes "denied") (
            codes "phase=maintenance_blocked raison=portier-inapte requested_by="
            ++ pending.requested_by
            ++ codes " operation_id="
            ++ pending.operation_id)
        tell (notify (codes "Maintenance annulée") (unfit_message issues) Level.error))

  fall_due : User → PendingMaintenance → Action Unit
  unfolding close_or_call_off
  fall_due system_user pending = get_state >>= λ s. do
    set_announced (
        without (pending.operation_id ++ codes "::restauration")
          (without pending.operation_id s.announced))
    port closing_cancel
    issues ← doorman_unfit_issues
    close_or_call_off system_user pending issues

  warn : ℕ → Action Unit
  warn now = port (closing_warning now) >>= λ threshold.
      match_option threshold (pure tt) (λ seconds.
        best_effort
          (tell (say (codes "⚠ Fermeture pour maintenance dans " ++ format_seconds seconds))))

  -- `tick_maintenance` after `_tick_scheduled_maintenance`
  unfoldable pub tick_pending_maintenance : User → Action Unit
  unfolding hold_for_restore fall_due warn
  tick_pending_maintenance system_user =
      if not env.has_closing
      then pure tt
      else (port closing_status >>= λ closing. match_option closing (pure tt) (λ pending.
          port clock_now >>= λ now.
          if leb pending.engage_at now
          then (is_restoring >>= λ restoring.
              if restoring
              then hold_for_restore system_user pending
              else ((if pending.defer_if_players then server_confirmed_empty else pure true)
                  >>= λ free.
                      if free
                      then fall_due system_user pending
                      else note_deferred_once system_user Permission.maintenance
                          pending.operation_id (codes "Maintenance")))
          else warn now))
