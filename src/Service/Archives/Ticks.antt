-- ===== src/Service/Archives/Ticks.antt =====
-- app/domain/services/backups.py: the tick that leads a restoration from the backup that comes
-- first to the server's return.
pub mod Operation
pub mod Triples
pub mod Quiet
pub mod Known
pub mod Calls
pub mod Target
pub mod Safety
pub mod Cleared
pub mod Progress
pub mod Whole
use mc_admin.Base.{
  ℕ, ◌+◌, ◌-◌, Text, codes, Bool, true, false, not, ◌&&◌, ◌||◌, Option, none, some, List, [], ◌∷◌,
  ◌++◌, keep, ◌==◌, leb, text_eq, if◌then◌else◌,
}
use mc_admin.Base.Strings.{strip, decimal}
use mc_admin.Access.{Permission, User}
use mc_admin.Service.{
  BackupArchive, ArchiveCheck, PendingRestore, RestoreOperation, Phase, restore_running, failed,
  safety_backup, Backups, Env, Action, Error, Level, pure, raise, reraise, ◌>>=◌, ◌>>◌, attempt,
  best_effort, match_option, port, tell, get_backups, update_backups, restore_unavailable,
  clock_now, archives_list, archive_validate, maker_running, safety_exit_code, doorman_prime,
  restore_start,
}
use mc_admin.Service.Core.{authorize}
use mc_admin.Service.Archives.{
  under, newest, find_archive, is_member, join_by, restore_event, notify_restore,
}
use mc_admin.Service.Archives.Outcomes.{scan_backup_outcomes}
use mc_admin.Service.Archives.Restores.{
  detail_or, some_issues, set_pending, set_restoring, restore_archive_issues,
  new_restore_operation_id,
}
use mc_admin.Service.Archives.Ticks.Operation.{tick_restore_operation, exit_detail, is_zero}

-- `_restore_doorman_consigne`
abbrev pub restore_motd : Text
restore_motd = codes "§e⚙ Restauration en cours\n§fLe serveur revient dans quelques minutes."

abbrev pub restore_kick : Text
restore_kick = codes "Une sauvegarde est en cours de restauration. Reviens dans quelques minutes."

unfoldable pub set_validating : Option Text → Backups → Backups
set_validating name b = record b { validating = name }

-- `_new_safety_archive`, of the archives that are there
unfoldable pub new_safety_archive : PendingRestore → List BackupArchive → Option BackupArchive
new_safety_archive p archives = newest (
    keep (λ a. not (is_member a.filename p.safety_archives_before))
      (under (codes "restore-safety/") archives))

unfoldable pub is_restorable : ArchiveCheck → Bool
is_restorable check = elim check.restorable [ none ↦ false | some b ↦ b ]

-- The verdict is on the archive as it is.
unfoldable pub fits : ArchiveCheck → BackupArchive → Bool
fits check current =
    text_eq check.filename current.filename
    && check.size_bytes == current.size_bytes
    && check.archive_created_at == current.created_at

module _ ⦃env : Env⦄ where
  -- The end of `_validate_new_safety_archive`
  unfoldable pub accept : ArchiveCheck → Option BackupArchive → Action BackupArchive
  accept check none =
      raise restore_unavailable
        (codes "la sauvegarde de sécurité a disparu pendant sa vérification")
  accept check (some current) =
      if not (fits check current)
      then raise restore_unavailable
          (codes "la sauvegarde de sécurité a changé pendant sa vérification")
      else if not check.is_ok
      then raise restore_unavailable (
          codes "sauvegarde de sécurité illisible : "
          ++ detail_or (strip check.detail) (codes "erreur de lecture"))
      else if not (is_restorable check)
      then raise restore_unavailable (
          codes "sauvegarde de sécurité non restaurable : "
          ++ detail_or (strip check.detail) (codes "monde Minecraft complet absent"))
      else pure current

  -- With the `finally`
  unfoldable pub validate : Text → Action ArchiveCheck
  validate filename = do
    update_backups (set_validating (some filename))
    attempt (port (archive_validate filename))
        (λ e. update_backups (set_validating none) >> reraise e)
        (λ check. update_backups (set_validating none) >> pure check)

  unfoldable pub validate_found : Option BackupArchive → Action BackupArchive
  validate_found none =
      raise restore_unavailable
        (codes "le conteneur s'est terminé sans produire de nouvelle archive de sécurité")
  validate_found (some archive) =
      if not env.has_validator
      then raise restore_unavailable (codes "validation immédiate des archives non configurée")
      else (validate archive.filename >>= λ check.
          port archives_list >>= λ archives. accept check (find_archive archive.filename archives))

  -- `_validate_new_safety_archive`
  unfoldable pub validate_new_safety_archive : PendingRestore → Action BackupArchive
  validate_new_safety_archive p =
      port archives_list >>= λ archives. validate_found (new_safety_archive p archives)

  -- `_remember_pending_restore_failure`; the backup had fifteen minutes
  unfoldable pub remember_pending_restore_failure : PendingRestore → Text → Action Unit
  remember_pending_restore_failure p message = port clock_now >>= λ now. update_backups (
      set_restoring (
        some (record {
          filename = p.filename;
          requested_by = p.requested_by;
          phase = failed;
          started_at = p.deadline - 900;
          deadline = now;
          message = message;
          completed_at = some now;
          operation_id = p.operation_id;
        })))

  -- What the four branches that give up have in common; `fields` ends the audit entry.
  unfoldable pub abandon :
      User → PendingRestore → Text → List (Text × Text) → Text → Text → Action (Option Text)
  abandon user p phase fields message title = do
    update_backups (set_pending none)
    restore_event user phase (codes "error") (
        (codes "archive", p.filename)
        ∷ ((codes "requested_by", p.requested_by)
            ∷ ((codes "operation_id", p.operation_id) ∷ fields)))
    remember_pending_restore_failure p message
    notify_restore title message Level.error
    pure (some (codes "abandoned"))

  unfoldable pub abandon_late : User → PendingRestore → Action (Option Text)
  abandon_late user p =
      abandon user p (codes "security_backup_timeout") []
        (p.filename
          ++ codes
              " : la sauvegarde de sécurité n'a pas terminé dans les temps. Le monde n'a pas été modifié.")
        (codes "Restauration abandonnée")

  unfoldable pub abandon_exit : User → PendingRestore → Option ℕ → Action (Option Text)
  abandon_exit user p exit_code =
      abandon user p (codes "security_backup_failed")
        ((codes "reason", codes "container_exit") ∷ ((codes "detail", exit_detail exit_code) ∷ []))
        (p.filename
          ++ (codes " : la sauvegarde de sécurité a échoué ("
              ++ (exit_detail exit_code ++ codes "). Le monde n'a pas été modifié.")))
        (codes "Restauration annulée")

  unfoldable pub abandon_invalid : User → PendingRestore → Error → Action (Option Text)
  abandon_invalid user p e =
      abandon user p (codes "security_backup_failed")
        ((codes "reason", codes "archive_validation") ∷ ((codes "detail", e.message) ∷ []))
        (p.filename
          ++ (codes " : "
              ++ (e.message
                  ++ codes ". La restauration est annulée et le monde n'a pas été modifié.")))
        (codes "Restauration annulée")

  unfoldable pub abandon_target : User → PendingRestore → Text → Action (Option Text)
  abandon_target user p detail =
      abandon user p (codes "restore_failed")
        ((codes "reason", codes "target_revalidation") ∷ ((codes "detail", detail) ∷ []))
        (p.filename
          ++ (codes " n'est plus utilisable : "
              ++ (detail
                  ++ codes ". La restauration est annulée et le monde n'a pas été modifié.")))
        (codes "Restauration annulée")

  unfoldable pub operation_id_or_new : Text → Text → Action Text
  operation_id_or_new filename [] = new_restore_operation_id filename
  operation_id_or_new filename (c ∷ operation_id) = pure (c ∷ operation_id)

  -- What follows the start of the container; it has thirty minutes.
  unfoldable pub follow : User → PendingRestore → Action Unit
  follow user p = do
    now ← port clock_now
    operation_id ← operation_id_or_new p.filename p.operation_id
    update_backups (
        set_restoring (
          some (record {
            filename = p.filename;
            requested_by = p.requested_by;
            phase = restore_running;
            started_at = now;
            deadline = now + 1800;
            message = codes "Étape 2/3 — remplacement du monde par l'archive.";
            completed_at = none;
            operation_id = operation_id;
          })))
    restore_event user (codes "restore_started") (codes "allowed") (
        (codes "archive", p.filename)
        ∷ ((codes "requested_by", p.requested_by) ∷ ((codes "operation_id", operation_id) ∷ [])))

  unfoldable pub prime_doorman : Action Unit
  prime_doorman =
      if env.has_doorman
      then best_effort (tell (doorman_prime restore_motd restore_kick))
      else pure tt

  -- `_start_restore_after_backup`
  unfoldable pub start_restore_after_backup : User → PendingRestore → Action Unit
  start_restore_after_backup user p =
      prime_doorman >> tell (restore_start p.filename) >> follow user p

  -- The body of the last `try` of `tick_pending_restore`
  unfoldable pub launch_body : User → PendingRestore → BackupArchive → Action Unit
  launch_body user p safety_archive = do
    restore_event user (codes "security_backup_done") (codes "allowed") (
        (codes "archive", p.filename)
        ∷ ((codes "security_archive", safety_archive.filename)
            ∷ ((codes "requested_by", p.requested_by)
                ∷ ((codes "operation_id", p.operation_id) ∷ []))))
    start_restore_after_backup user p
    update_backups (set_pending none)

  unfoldable pub launch_failed : User → PendingRestore → Error → Action (Option Text)
  launch_failed user p e = do
    update_backups (set_pending none)
    restore_event user (codes "restore_failed") (codes "error") (
        (codes "archive", p.filename)
        ∷ ((codes "operation_id", p.operation_id) ∷ ((codes "error", e.message) ∷ [])))
    notify_restore (codes "Restauration échouée") e.message Level.error
    reraise e

  unfoldable pub launch : User → PendingRestore → BackupArchive → Action (Option Text)
  launch user p safety_archive =
      attempt (launch_body user p safety_archive) (launch_failed user p) (λ _.
        notify_restore (codes "Restauration lancée")
          (p.filename ++ codes " — le serveur va redémarrer.") Level.info
        >> pure (some (codes "restored")))

  unfoldable pub revalidate : User → PendingRestore → BackupArchive → Action (Option Text)
  revalidate user p safety_archive = restore_archive_issues p.filename >>= λ issues.
      if some_issues issues
      then abandon_target user p (join_by (codes "; ") issues)
      else launch user p safety_archive

  unfoldable pub after_exit : User → PendingRestore → Option ℕ → Action (Option Text)
  after_exit user p exit_code =
      if not (is_zero exit_code)
      then abandon_exit user p exit_code
      else attempt (validate_new_safety_archive p) (abandon_invalid user p) (revalidate user p)

  -- `tick_pending_restore` from the test of the deadline on
  unfoldable pub tick_pending : User → PendingRestore → Action (Option Text)
  tick_pending user p = port clock_now >>= λ now.
      if leb p.deadline now
      then abandon_late user p
      else attempt (port (maker_running safety_backup)) (λ _. pure none)
          (λ running.
            if running
            then pure none
            else attempt (port safety_exit_code) (λ _. pure none) (after_exit user p))

  unfoldable pub tick_with : User → Option PendingRestore → Action (Option Text)
  tick_with user none = tick_restore_operation user
  tick_with user (some p) = tick_pending user p

  unfoldable pub tick_pending_restore : User → Action (Option Text)
  tick_pending_restore user = do
    authorize user Permission.backup_restore
    scan_backup_outcomes
    if env.has_pending_restore
        then (get_backups >>= λ b. tick_with user b.pending)
        else tick_restore_operation user
