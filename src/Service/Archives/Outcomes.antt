-- ===== src/Service/Archives/Outcomes.antt =====
-- app/domain/services/backups.py: a backup that has ended becomes a result.
use mc_admin.Base.{
  ℕ, ◌/◌, Text, codes, Bool, true, false, ◌&&◌, Option, none, some, List, [], ◌∷◌, ◌++◌, leb, keep,
  text_eq, if◌then◌else◌,
}
use mc_admin.Base.Dict.{get, pop, text_Eq}
use mc_admin.Base.Strings.{decimal}
use mc_admin.Access.{Permission, User}
use mc_admin.Service.{
  BackupArchive, BackupProfile, BackupOutcome, Maker, safety_backup, profile_backup, Backups, Env,
  Action, pure, ◌>>=◌, ◌>>◌, attempt, match_option, port, tell, notify, Level, get_backups,
  update_backups, clock_now, archives_list, profiles_list, maker_running,
}
use mc_admin.Service.Core.{write_audit}
use mc_admin.Service.Archives.{newest, starts_with}
use mc_admin.Service.Archives.Retention.{auto_retention}

-- `_BACKUP_WATCH_USER`
abbrev pub watch_user : User
watch_user = record {
  username = codes "backup-watch";
  role = record {
    name = codes "automation";
    permissions = Permission.backup_trigger ∷ (Permission.backup_retention ∷ []);
    grants_all = false;
  };
}

pub record Watched : Type 0 where
  pub kind : Text
  pub prefix : Text
  pub maker : Maker
  pub label : Text

abbrev pub safety_watched : Watched
safety_watched = record {
  kind = codes "safety";
  prefix = codes "restore-safety/";
  maker = safety_backup;
  label = [];
}

unfoldable pub watched_profiles : List BackupProfile → List Watched
watched_profiles [] = []
watched_profiles (p ∷ profiles) =
    (record { kind = p.id; prefix = p.dest ++ codes "/"; maker = profile_backup; label = p.name })
    ∷ watched_profiles profiles

-- Three changes of the state; only the first of `_finalize_backup` reads what it takes away.
unfoldable pub forget_start : Text → Backups → Backups
forget_start kind b = record b {
  started_at = pop kind b.started_at;
  progress_max = pop kind b.progress_max;
}

unfoldable pub forget_operation : Text → Backups → Backups
forget_operation kind b = record b { operation_ids = pop kind b.operation_ids }

unfoldable pub keep_outcome : BackupOutcome → Backups → Backups
keep_outcome o b = record b { outcome = some o }

unfoldable pub or_empty : Option Text → Text
or_empty none = []
or_empty (some s) = s

unfoldable pub name_of : Option BackupArchive → Option Text
name_of none = none
name_of (some a) = some a.filename

unfoldable pub is_found : Option BackupArchive → Bool
is_found none = false
is_found (some a) = true

unfoldable pub label_or_kind : Text → Text → Text
label_or_kind [] kind = kind
label_or_kind (c ∷ label) kind = c ∷ label

-- The archives that a backup since a time has made.
unfoldable pub produced : Text → ℕ → List BackupArchive → List BackupArchive
produced prefix started_at archives =
    keep (λ a. starts_with prefix a.filename && leb started_at a.created_at) archives

module _ ⦃env : Env⦄ where
  unfoldable pub backup_done : Text → Text → Text → BackupArchive → Action Unit
  backup_done kind label operation_id a = do
    write_audit watch_user Permission.backup_trigger (codes "allowed") (
        codes "phase=backup_done kind="
        ++ (kind
            ++ (codes " archive="
                ++ (a.filename
                    ++ (codes " size_mio="
                        ++ (decimal (a.size_bytes / 1048576)
                            ++ (codes " operation_id=" ++ operation_id)))))))
    tell (
        notify (codes "Sauvegarde terminée")
          (codes "« "
            ++ (label_or_kind label kind
                ++ (codes " » — " ++ (decimal (a.size_bytes / 1048576) ++ codes " Mio."))))
          Level.info)
    auto_retention watch_user kind operation_id

  unfoldable pub backup_failed : Text → Text → Action Unit
  backup_failed kind operation_id = do
    write_audit watch_user Permission.backup_trigger (codes "error")
        (codes "phase=backup_failed kind=" ++ (kind ++ (codes " operation_id=" ++ operation_id)))
    tell (
        notify (codes "Sauvegarde échouée")
          (codes "La sauvegarde " ++ (kind ++ codes " n'a produit aucune archive.")) Level.error)

  -- `_finalize_backup` from the time that it has taken from the dict
  unfoldable pub finalize_from : Text → Text → Text → ℕ → Action Unit
  finalize_from kind prefix label started_at = do
    update_backups (forget_start kind)
    archives ← port archives_list
    b ← get_backups
    update_backups (forget_operation kind)
    now ← port clock_now
    let made = newest (produced prefix started_at archives)
    let operation_id = or_empty (get kind b.operation_ids)
    update_backups (
        keep_outcome (record {
          kind = kind;
          succeeded = is_found made;
          finished_at = now;
          archive = name_of made;
          label = label;
        }))
    match_option made (backup_failed kind operation_id) (backup_done kind label operation_id)

  unfoldable pub finalize_backup : Text → Text → Text → Action Unit
  finalize_backup kind prefix label = get_backups >>= λ b.
      match_option (get kind b.started_at) (pure tt) (finalize_from kind prefix label)

  -- What follows when the container of a watched backup has stopped.
  unfoldable pub ended : Watched → Action Unit
  ended w =
      if text_eq w.kind (codes "safety")
      then (update_backups (forget_start w.kind) >> update_backups (forget_operation w.kind))
      else finalize_backup w.kind w.prefix w.label

  -- The body of the loop
  unfoldable pub scan_one : Watched → Action Unit
  scan_one w = get_backups >>= λ b. match_option (get w.kind b.started_at) (pure tt) (λ _.
      attempt (port (maker_running w.maker)) (λ _. pure tt)
        (λ running. if running then pure tt else ended w))

  unfoldable pub scan_all : List Watched → Action Unit
  scan_all [] = pure tt
  scan_all (w ∷ ws) = scan_one w >> scan_all ws

  -- `_scan_backup_outcomes`
  unfoldable pub scan_backup_outcomes : Action Unit
  scan_backup_outcomes = do
    profiles ← (if env.has_profiles && env.has_profile_backup then port profiles_list else pure [])
    scan_all (safety_watched ∷ watched_profiles profiles)
