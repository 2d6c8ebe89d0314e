-- ===== src/Service/Archives/Ticks/Quiet.antt =====
-- The parts of a tick that start no restoration and leave what is kept of one: the audit, the
-- results of backups, and the retention.
use mc_admin.Base.{ℕ, Text, List, [], ◌∷◌}
use mc_admin.Access.{Permission, User}
use mc_admin.Service.{
  Env, Level, notify, clock_now, archives_list, archive_delete, profile_get, profiles_list,
  maker_running, best_effort, Action, BackupArchive, BackupProfile,
}
use mc_admin.Service.Core.{write_audit, authorize}
use mc_admin.Service.Archives.{restore_event, notify_restore}
use mc_admin.Service.Archives.Retention.{
  backup_retention_plan, RetentionItem, Deletions, delete_all, retain_profile, auto_retention,
}
use mc_admin.Service.Archives.Outcomes.{
  Watched, backup_done, backup_failed, finalize_from, finalize_backup, ended, scan_one, scan_all,
  scan_backup_outcomes, forget_start, forget_operation, keep_outcome,
}
use mc_admin.Service.Archives.Ticks.Triples.{
  Quiet, quiet_rules, Quiet-pure, Quiet-bind, Quiet-port, Quiet-tell, Quiet-update_backups,
}

module _ ⦃env : Env⦄ where
  pub Quiet-write_audit :
      (user : User) (permission : Permission) (outcome detail : Text)
      → Quiet (write_audit user permission outcome detail)
  unfolding write_audit
  Quiet-write_audit user permission outcome detail =
      search (quiet_rules, Quiet-port clock_now tt, Quiet-tell)

  pub Quiet-authorize : (user : User) (permission : Permission) → Quiet (authorize user permission)
  unfolding authorize
  Quiet-authorize user permission = search (quiet_rules, Quiet-write_audit)

  pub Quiet-restore_event :
      (user : User) (phase outcome : Text) (fields : List (Text × Text))
      → Quiet (restore_event user phase outcome fields)
  unfolding restore_event
  Quiet-restore_event user phase outcome fields = search (Quiet-write_audit)

  pub Quiet-notify_restore :
      (title message : Text) (level : Level) → Quiet (notify_restore title message level)
  unfolding notify_restore
  Quiet-notify_restore title message level = Quiet-tell (notify title message level) tt

  pub Quiet-best_effort : {A : Type 0} (m : Action A) → Quiet m → Quiet (best_effort m)
  unfolding best_effort
  Quiet-best_effort m p = search (quiet_rules, p)

  Quiet-delete_all : (items : List RetentionItem) (d : Deletions) → Quiet (delete_all items d)
  unfolding delete_all
  Quiet-delete_all [] d = Quiet-pure d
  Quiet-delete_all (i ∷ items) d =
      Quiet-bind _ _ (Quiet-port (archive_delete i.archive.filename) tt)
        (λ done. Quiet-delete_all items _)

  Quiet-retain_profile :
      (user : User) (profile : BackupProfile) (kind operation_id : Text)
      → Quiet (retain_profile user profile kind operation_id)
  unfolding retain_profile backup_retention_plan
  Quiet-retain_profile user profile kind operation_id =
      search
        (
          quiet_rules,
          Quiet-write_audit,
          Quiet-authorize,
          Quiet-delete_all,
          Quiet-port clock_now tt,
          Quiet-port archives_list tt,
        )
        depth 14

  Quiet-auto_retention :
      (user : User) (kind operation_id : Text) → Quiet (auto_retention user kind operation_id)
  unfolding auto_retention
  Quiet-auto_retention user kind operation_id =
      search
        (quiet_rules, Quiet-best_effort, Quiet-retain_profile, Quiet-port (profile_get kind) tt)
        depth 14

  Quiet-backup_done :
      (kind label operation_id : Text) (a : BackupArchive)
      → Quiet (backup_done kind label operation_id a)
  unfolding backup_done
  Quiet-backup_done kind label operation_id a =
      search
        (
          quiet_rules,
          Quiet-write_audit,
          Quiet-auto_retention,
          Quiet-tell (notify _ _ Level.info) tt,
        )
        depth 14

  Quiet-backup_failed : (kind operation_id : Text) → Quiet (backup_failed kind operation_id)
  unfolding backup_failed
  Quiet-backup_failed kind operation_id =
      search (quiet_rules, Quiet-write_audit, Quiet-tell (notify _ _ Level.error) tt)

  Quiet-finalize_from :
      (kind prefix label : Text) (started_at : ℕ)
      → Quiet (finalize_from kind prefix label started_at)
  unfolding finalize_from forget_start forget_operation keep_outcome
  Quiet-finalize_from kind prefix label started_at =
      search
        (
          quiet_rules,
          Quiet-backup_done,
          Quiet-backup_failed,
          Quiet-port clock_now tt,
          Quiet-port archives_list tt,
          Quiet-update_backups,
        )
        depth 20

  Quiet-ended : (w : Watched) → Quiet (ended w)
  unfolding ended finalize_backup forget_start forget_operation
  Quiet-ended w = search (quiet_rules, Quiet-finalize_from, Quiet-update_backups) depth 14

  Quiet-scan_one : (w : Watched) → Quiet (scan_one w)
  unfolding scan_one
  Quiet-scan_one w =
      search (quiet_rules, Quiet-ended, Quiet-port (maker_running w.maker) tt) depth 14

  Quiet-scan_all : (ws : List Watched) → Quiet (scan_all ws)
  unfolding scan_all
  Quiet-scan_all [] = Quiet-pure tt
  Quiet-scan_all (w ∷ ws) = Quiet-bind _ _ (Quiet-scan_one w) (λ _. Quiet-scan_all ws)

  pub Quiet-scan_backup_outcomes : Quiet scan_backup_outcomes
  unfolding scan_backup_outcomes
  Quiet-scan_backup_outcomes =
      search (quiet_rules, Quiet-scan_all, Quiet-port profiles_list tt) depth 14
