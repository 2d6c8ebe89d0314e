-- ===== src/Service/Archives/Restores.antt =====
-- app/domain/services/backups.py: a restoration is asked for.
pub mod Preflight
pub mod Passed
pub mod Answers
pub mod Admission
use mc_admin.Base.{
  ℕ, ◌+◌, Text, codes, Bool, true, false, not, ◌&&◌, Option, none, some, List, [], ◌∷◌, ◌++◌, map,
  ◌==◌, text_eq, if◌then◌else◌,
}
use mc_admin.Base.Dict.{put, pop, text_Eq}
use mc_admin.Base.Strings.{strip}
use mc_admin.Access.{Permission, User}
use mc_admin.Service.{
  BackupArchive, ArchiveCheck, PendingRestore, RestoreOperation, Phase, restore_running,
  waiting_minecraft, success, failed, Maker, safety_backup, profile_backup, Backups, Env, Action,
  Error, Level, pure, raise, reraise, ◌>>=◌, ◌>>◌, attempt, match_option, port, get_backups,
  update_backups, backup_archive_not_found, backup_unavailable, restore_unavailable, clock_now,
  archives_list, archive_path, check_status, checks_checking, restore_worker_running,
  doorman_running, closing_status, maker_running, restore_worker_issues, safety_trigger,
}
use mc_admin.Service.Core.{authorize}
use mc_admin.Service.Archives.{under, find_archive, join_by, restore_event, notify_restore}

unfoldable pub is_over : Phase → Bool
is_over success = true
is_over failed = true
is_over restore_running = false
is_over waiting_minecraft = false

-- A restoration is followed and is not over.
unfoldable pub is_active : Option RestoreOperation → Bool
is_active none = false
is_active (some op) = not (is_over op.phase)

unfoldable pub is_pending : Option PendingRestore → Bool
is_pending none = false
is_pending (some p) = true

unfoldable pub when : Bool → Text → List Text
when true issue = issue ∷ []
when false issue = []

-- `detail.strip() or otherwise`
unfoldable pub detail_or : Text → Text → Text
detail_or [] otherwise = otherwise
detail_or (c ∷ detail) otherwise = c ∷ detail

unfoldable pub names_file : Text → Option Text → Bool
names_file filename none = false
names_file filename (some other) = text_eq other filename

-- The verdict on the archive, from `if not check.ok` on
unfoldable pub restorable_issues : ArchiveCheck → Option Bool → List Text
restorable_issues check restorable =
    if not check.is_ok
    then (codes "archive illisible ou dangereuse : "
        ++ detail_or (strip check.detail) (codes "erreur de lecture"))
      ∷ []
    else elim restorable [
      | none ↦ codes "ancien verdict incomplet ; nouvelle vérification requise" ∷ []
      | some true ↦ []
      | some false ↦
          (codes "archive non restaurable : "
            ++ detail_or (strip check.detail) (codes "monde Minecraft complet absent"))
          ∷ []
    ]

-- `_restore_archive_issues` from the verdict on
unfoldable pub verdict_issues : Text → BackupArchive → Option ArchiveCheck → Option Text → List Text
verdict_issues filename archive none checking =
    if names_file filename checking
    then codes "vérification complète de l'archive en cours" ∷ []
    else codes "archive pas encore vérifiée ; attendre le badge « vérifiée »" ∷ []
verdict_issues filename archive (some check) checking =
    if not
      (check.size_bytes == archive.size_bytes && check.archive_created_at == archive.created_at)
    then (if names_file filename checking
        then codes "archive modifiée ; nouvelle vérification en cours" ∷ []
        else codes "archive modifiée depuis son dernier contrôle ; nouvelle vérification requise"
          ∷ [])
    else restorable_issues check check.restorable

unfoldable pub some_issues : List Text → Bool
some_issues [] = false
some_issues (i ∷ issues) = true

unfoldable pub set_pending : Option PendingRestore → Backups → Backups
set_pending p b = record b { pending = p }

unfoldable pub set_restoring : Option RestoreOperation → Backups → Backups
set_restoring op b = record b { operation = op }

unfoldable pub drop_if_over : Option RestoreOperation → Backups → Backups
drop_if_over none b = b
drop_if_over (some op) b = if is_over op.phase then set_restoring none b else b

-- A result that is still shown gives way.
unfoldable pub drop_over : Backups → Backups
drop_over b = drop_if_over b.operation b

unfoldable pub safety_started : ℕ → Backups → Backups
safety_started now b = record b {
  started_at = put (codes "safety") now b.started_at;
  progress_max = pop (codes "safety") b.progress_max;
}

module _ ⦃env : Env⦄ where
  -- `_restore_archive_issues`
  unfoldable pub checked_issues : Text → BackupArchive → Action (List Text)
  checked_issues filename archive =
      if not env.has_checks
      then pure (codes "vérification d'intégrité des archives non configurée" ∷ [])
      else attempt {A = Option ArchiveCheck × Option Text}
          (port (check_status filename) >>= λ check.
            port checks_checking >>= λ checking. pure (check, checking))
          (λ e. pure ((codes "verdict d'intégrité illisible : " ++ e.message) ∷ []))
          (λ found. pure (verdict_issues filename archive found.0 found.1))

  unfoldable pub located_issues : Text → Option BackupArchive → Option Text → Action (List Text)
  located_issues filename none path = pure ((codes "archive introuvable : " ++ filename) ∷ [])
  located_issues filename (some archive) none =
      pure ((codes "archive introuvable : " ++ filename) ∷ [])
  located_issues filename (some archive) (some path) = checked_issues filename archive

  unfoldable pub restore_archive_issues : Text → Action (List Text)
  restore_archive_issues filename =
      attempt {A = Option BackupArchive × Option Text}
        (port archives_list >>= λ archives.
          port (archive_path filename) >>= λ path. pure (find_archive filename archives, path))
        (λ e. pure ((codes "accès aux sauvegardes impossible : " ++ e.message) ∷ []))
        (λ found. located_issues filename found.0 found.1)

  -- `_restore_in_progress`: a state that cannot be read counts as one that goes on.
  unfoldable pub restore_in_progress : Action Bool
  restore_in_progress = get_backups >>= λ b.
      if env.has_pending_restore && is_pending b.pending
      then pure true
      else if is_active b.operation
      then pure true
      else if not env.has_restore
      then pure false
      else attempt (port restore_worker_running) (λ _. pure true) pure

  -- `_port_running`
  unfoldable pub port_running : Action Bool → Text → Action Bool
  port_running m label =
      attempt m
        (λ e.
          raise restore_unavailable
            (codes "état " ++ (label ++ (codes " illisible : " ++ e.message))))
        pure

  unfoldable pub pending_issues : Backups → List Text
  pending_issues b =
      if env.has_pending_restore
      then when (is_pending b.pending)
          (codes "une restauration attend déjà sa sauvegarde de sécurité")
      else codes "coordinateur de restauration non configuré" ∷ []

  unfoldable pub worker_state_issues : Action (List Text)
  worker_state_issues =
      if env.has_restore
      then (port_running (port restore_worker_running) (codes "restauration") >>= λ running.
          pure (when running (codes "le conteneur de restauration est déjà en cours")))
      else pure (codes "conteneur de restauration non configuré" ∷ [])

  unfoldable pub doorman_issues : Action (List Text)
  doorman_issues =
      if env.has_doorman
      then attempt (port doorman_running)
          (λ _. pure (codes "état du mode maintenance illisible" ∷ []))
          (λ running.
            pure (
              when running (codes "le serveur est en maintenance : le rouvrir avant de restaurer")))
      else pure []

  unfoldable pub closing_issues : Action (List Text)
  closing_issues =
      if env.has_closing
      then (port closing_status >>= λ status. match_option status (pure []) (λ _. pure (
          codes
            "une fermeture pour maintenance est annoncée : l'annuler ou attendre qu'elle soit terminée"
          ∷ [])))
      else pure []

  unfoldable pub maker_issues : Maker → Text → Action (List Text)
  maker_issues maker label = port_running (port (maker_running maker)) label >>= λ running.
      pure (when running (label ++ codes " déjà en cours"))

  -- `_restore_preflight_issues`
  unfoldable pub restore_preflight_issues : Text → Action (List Text)
  restore_preflight_issues filename = do
    b ← get_backups
    worker ← worker_state_issues
    doorman ← doorman_issues
    closing ← closing_issues
    archive ← restore_archive_issues filename
    safety ← maker_issues safety_backup (codes "sauvegarde de sécurité")
    profile ←
        (if env.has_profile_backup
          then maker_issues profile_backup (codes "sauvegarde de profil")
          else pure [])
    integrity ← (if env.has_integrity then port restore_worker_issues else pure [])
    pure (
        when (is_active b.operation) (codes "une restauration est déjà en cours")
        ++ (pending_issues b
            ++ (worker
                ++ (when (not env.has_validator)
                      (codes "validation immédiate des archives non configurée")
                    ++ (doorman ++ (closing ++ (archive ++ (safety ++ (profile ++ integrity)))))))))

  unfoldable pub restore_preflight : User → Text → Action (List Text)
  restore_preflight user filename =
      authorize user Permission.backup_restore >> restore_preflight_issues filename

  -- `_new_restore_operation_id`
  unfoldable pub new_restore_operation_id : Text → Action Text
  new_restore_operation_id filename =
      port clock_now >>= λ now. pure (env.isoformat now ++ (codes "::" ++ filename))

  -- The body of the `try` of `_restore_backup_locked`
  unfoldable pub start_safety_backup : User → Text → Text → Action Unit
  start_safety_backup user filename operation_id = do
    result ← port safety_trigger
    (if result.started
        then pure tt
        else raise backup_unavailable
            (detail_or result.detail (codes "le conteneur n'a pas démarré")))
    now ← port clock_now
    update_backups (safety_started now)
    restore_event user (codes "security_backup_started") (codes "allowed") (
        (codes "archive", filename)
        ∷ ((codes "operation_id", operation_id) ∷ ((codes "detail", result.detail) ∷ [])))

  unfoldable pub safety_refused : User → Text → Text → Error → Action Unit
  safety_refused user filename operation_id e = do
    restore_event user (codes "security_backup_failed") (codes "error") (
        (codes "archive", filename)
        ∷ ((codes "operation_id", operation_id) ∷ ((codes "error", e.message) ∷ [])))
    notify_restore (codes "Restauration annulée")
        (filename
          ++ codes
              " : la sauvegarde de sécurité n'a pas pu démarrer. Le monde n'a pas été modifié.")
        Level.error
    raise restore_unavailable (
        codes "sauvegarde de sécurité impossible : "
        ++ (e.message ++ codes "; restauration annulée"))

  -- From the deadline on, which is fifteen minutes away
  unfoldable pub remember_pending : User → Text → Text → List Text → Action Text
  remember_pending user filename operation_id before = do
    now ← port clock_now
    update_backups (
        set_pending (
          some (record {
            filename = filename;
            requested_by = user.username;
            deadline = now + 900;
            operation_id = operation_id;
            safety_archives_before = before;
          })))
    restore_event user (codes "restore_pending") (codes "allowed") (
        (codes "archive", filename)
        ∷ ((codes "requested_by", user.username)
            ∷ ((codes "operation_id", operation_id)
                ∷ ((codes "deadline", env.isoformat (now + 900)) ∷ []))))
    notify_restore (codes "Restauration programmée")
        (filename ++ codes " — démarrera dès la fin de la sauvegarde de sécurité.") Level.info
    pure (codes "pending")

  unfoldable pub request_restore : User → Text → Action Text
  request_restore user filename = do
    operation_id ← new_restore_operation_id filename
    restore_event user (codes "restore_requested") (codes "allowed") (
        (codes "archive", filename)
        ∷ ((codes "requested_by", user.username) ∷ ((codes "operation_id", operation_id) ∷ [])))
    archives ← port archives_list
    attempt (start_safety_backup user filename operation_id)
        (λ e. safety_refused user filename operation_id e >> reraise e)
        (λ _.
          remember_pending user filename operation_id
            (map (λ a. a.filename) (under (codes "restore-safety/") archives)))

  unfoldable pub reject : User → Text → Text → Action Unit
  reject user filename detail =
      restore_event user (codes "restore_rejected") (codes "error") (
        (codes "archive", filename)
        ∷ ((codes "reason", codes "preflight_failed") ∷ ((codes "detail", detail) ∷ [])))
      >> raise restore_unavailable (codes "préflight échoué : " ++ detail)

  unfoldable pub reject_missing : User → Text → Action Text
  reject_missing user filename =
      restore_event user (codes "restore_rejected") (codes "error")
        ((codes "archive", filename) ∷ ((codes "reason", codes "archive_not_found") ∷ []))
      >> raise backup_archive_not_found (codes "archive introuvable : " ++ filename)

  -- `restore_backup`, with `_restore_backup_locked`
  unfoldable pub restore_backup : User → Text → Action Text
  restore_backup user filename = do
    authorize user Permission.backup_restore
    update_backups drop_over
    path ← port (archive_path filename)
    match_option path (reject_missing user filename) (λ _.
        restore_preflight_issues filename >>= λ issues.
        (if some_issues issues then reject user filename (join_by (codes "; ") issues) else pure tt)
        >> request_restore user filename)

  unfoldable pub pending_restore_status : User → Action (Option PendingRestore)
  pending_restore_status user =
      authorize user Permission.backup_restore
      >> (if env.has_pending_restore then get_backups >>= (λ b. pure b.pending) else pure none)
