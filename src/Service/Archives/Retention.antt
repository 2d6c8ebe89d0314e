-- ===== src/Service/Archives/Retention.antt =====
-- app/domain/services/backups.py: the plan of the retention, and its application.
pub mod Order
pub mod Laws
use mc_admin.Base.{
  ℕ, ◌+◌, ◌-◌, ◌*◌, ◌/◌, Text, codes, Bool, true, false, not, ◌||◌, ◌&&◌, Option, none, some, List,
  [], ◌∷◌, ◌++◌, leb, ltb, ◌==◌, any, text_eq, if◌then◌else◌,
}
use mc_admin.Base.Strings.{decimal}
use mc_admin.Access.{Permission, User}
use mc_admin.Service.{
  BackupArchive, BackupProfile, Env, Action, pure, ◌>>=◌, ◌>>◌, attempt, best_effort, match_option,
  port, clock_now, archives_list, archive_delete, profile_get,
}
use mc_admin.Service.Core.{authorize, write_audit}
use mc_admin.Service.Archives.{starts_with, ends_in_slash, under, by_newest, join_by}

pub record RetentionItem : Type 0 where
  pub archive : BackupArchive
  pub reason : Text

pub record RetentionPlan : Type 0 where
  pub kept : List RetentionItem
  pub deleted : List RetentionItem

abbrev pub Month : Type 0
Month = ℕ × ℕ

unfoldable pub same_month : Month → Month → Bool
same_month m n = m.0 == n.0 && m.1 == n.1

-- What the loop decides of an archive.
pub data Verdict : Type 0 where
  recent monthly duplicate expired : Verdict

unfoldable pub is_kept : Verdict → Bool
is_kept recent = true
is_kept monthly = true
is_kept duplicate = false
is_kept expired = false

unfoldable pub max_of : ℕ → ℕ → ℕ
max_of a b = if ltb a b then b else a

module _ ⦃env : Env⦄ where
  unfoldable pub month_key : BackupArchive → Month
  month_key a = env.year_month a.created_at

  -- The tests of the loop, with ages in seconds.
  unfoldable pub judge : ℕ → ℕ → ℕ → List Month → BackupArchive → Verdict
  judge daily_days monthly_months now monthly_kept a =
      let age = now - a.created_at in
      if leb age (daily_days * 86400)
      then recent
      else if leb age (max_of daily_days (monthly_months * 31) * 86400)
      then (if any (same_month (month_key a)) monthly_kept then duplicate else monthly)
      else expired

  unfoldable pub reason_of : ℕ → ℕ → Verdict → Text
  reason_of daily_days monthly_months recent =
      codes "journalier (< " ++ (decimal daily_days ++ codes " jours)")
  reason_of daily_days monthly_months monthly =
      codes "mensuel conservé (" ++ (decimal monthly_months ++ codes " mois)")
  reason_of daily_days monthly_months duplicate = codes "doublon mensuel"
  reason_of daily_days monthly_months expired =
      codes "> " ++ (decimal monthly_months ++ codes " mois")

  -- `monthly_kept.add`, of an archive that is kept
  unfoldable pub months_after : BackupArchive → Verdict → List Month → List Month
  months_after a v monthly_kept = if is_kept v then month_key a ∷ monthly_kept else monthly_kept

  -- `keep.append` and `delete.append`; the plan is that of the archives that follow.
  unfoldable pub place : Bool → RetentionItem → RetentionPlan → RetentionPlan
  place true i p = record p { kept = i ∷ p.kept }
  place false i p = record p { deleted = i ∷ p.deleted }

  unfoldable pub plan_from : ℕ → ℕ → ℕ → List Month → List BackupArchive → RetentionPlan
  plan_from daily_days monthly_months now monthly_kept [] = record { kept = []; deleted = [] }
  plan_from daily_days monthly_months now monthly_kept (a ∷ archives) =
      let v = judge daily_days monthly_months now monthly_kept a in
      place (is_kept v) (record { archive = a; reason = reason_of daily_days monthly_months v })
        (plan_from daily_days monthly_months now (months_after a v monthly_kept) archives)

  unfoldable pub with_slash : Text → Text
  with_slash prefix = if ends_in_slash prefix then prefix else prefix ++ codes "/"

  -- The plan of a list of archives: `continue` passes over those that are not under the prefix.
  unfoldable pub retention_plan : ℕ → ℕ → Text → ℕ → List BackupArchive → RetentionPlan
  retention_plan daily_days monthly_months prefix now archives =
      plan_from (max_of 1 daily_days) monthly_months now []
        (under (with_slash prefix) (by_newest archives))

  unfoldable pub backup_retention_plan : User → ℕ → ℕ → Text → Action RetentionPlan
  backup_retention_plan user daily_days monthly_months prefix = do
    authorize user Permission.backup_retention
    now ← port clock_now
    archives ← port archives_list
    pure (retention_plan daily_days monthly_months prefix now archives)

  pub record Deletions : Type 0 where
    pub deleted : ℕ
    pub freed : ℕ
    pub failed : List Text

  -- The loop of `apply_backup_retention`
  unfoldable pub delete_all : List RetentionItem → Deletions → Action Deletions
  delete_all [] d = pure d
  delete_all (i ∷ items) d = do
    done ← port (archive_delete i.archive.filename)
    delete_all items (
        if done
        then record d { deleted = d.deleted + 1; freed = d.freed + i.archive.size_bytes }
        else record d { failed = d.failed ++ (i.archive.filename ∷ []) })

  unfoldable pub failures : List Text → Text
  failures [] = []
  failures (f ∷ failed) = codes " — échecs : " ++ join_by (codes ", ") (f ∷ failed)

  unfoldable pub outcome_of : List Text → Text
  outcome_of [] = codes "allowed"
  outcome_of (f ∷ failed) = codes "error"

  unfoldable pub apply_backup_retention : User → ℕ → ℕ → Text → Action ℕ
  apply_backup_retention user daily_days monthly_months prefix = do
    plan ← backup_retention_plan user daily_days monthly_months prefix
    d ← delete_all plan.deleted (record { deleted = 0; freed = 0; failed = [] })
    write_audit user Permission.backup_retention (outcome_of d.failed) (
        codes "rétention appliquée ("
        ++ (decimal daily_days
            ++ (codes " j / "
                ++ (decimal monthly_months
                    ++ (codes " mois) : "
                        ++ (decimal d.deleted
                            ++ (codes " supprimée(s), "
                                ++ (decimal (d.freed / 1048576)
                                    ++ (codes " Mio libérés" ++ failures d.failed)))))))))
    pure d.deleted

  is_deletable : Text → Bool
  is_deletable dest = starts_with (codes "profiles/") dest || text_eq dest (codes "scheduled")

  -- The body of the `try` of `_auto_retention`
  unfoldable pub retain_profile : User → BackupProfile → Text → Text → Action Unit
  retain_profile user profile kind operation_id = do
    plan ←
        backup_retention_plan user profile.retention_daily_days profile.retention_monthly_months
          (profile.dest ++ codes "/")
    d ← delete_all plan.deleted (record { deleted = 0; freed = 0; failed = [] })
    if d.deleted == 0
        then pure tt
        else write_audit user Permission.backup_trigger (codes "allowed") (
            codes "phase=retention_applied kind="
            ++ (kind
                ++ (codes " deleted="
                    ++ (decimal d.deleted ++ (codes " operation_id=" ++ operation_id)))))

  -- `_auto_retention`, for the user of the watch
  unfoldable pub auto_retention : User → Text → Text → Action Unit
  unfolding is_deletable
  auto_retention user kind operation_id =
      if not env.has_profiles
      then pure tt
      else (port (profile_get kind) >>= λ found. match_option found (pure tt) (λ profile.
          if profile.retention_daily_days == 0 || not (is_deletable profile.dest)
          then pure tt
          else best_effort (retain_profile user profile kind operation_id)))
