-- ===== src/Service/Archives.antt =====
-- app/domain/services/backups.py: lists of archives, and the audit of a restoration.
pub mod Retention
pub mod Outcomes
pub mod Restores
pub mod Ticks
use mc_admin.Base.{
  ℕ, Text, codes, Bool, true, false, ◌&&◌, Option, none, some, List, [], ◌∷◌, ◌++◌, map, leb, ltb,
  ◌==◌, any, keep, text_eq, if◌then◌else◌,
}
use mc_admin.Base.Strings.{strip}
use mc_admin.Access.{Permission, User}
use mc_admin.Service.{BackupArchive, Env, Action, Level, notify, tell, Backups, update_backups}
use mc_admin.Service.Core.{write_audit}

-- `text.startswith(prefix)`
unfoldable pub starts_with : Text → Text → Bool
starts_with [] s = true
starts_with (c ∷ p) [] = false
starts_with (c ∷ p) (d ∷ s) = c == d && starts_with p s

unfoldable pub ends_in_slash : Text → Bool
ends_in_slash [] = false
ends_in_slash (c ∷ []) = c == 47
ends_in_slash (c ∷ (d ∷ s)) = ends_in_slash (d ∷ s)

unfoldable pub under : Text → List BackupArchive → List BackupArchive
under prefix archives = keep (λ a. starts_with prefix a.filename) archives

unfoldable pub newer_of : BackupArchive → BackupArchive → BackupArchive
newer_of best a = if ltb best.created_at a.created_at then a else best

unfoldable pub newest_from : BackupArchive → List BackupArchive → BackupArchive
newest_from best [] = best
newest_from best (a ∷ archives) = newest_from (newer_of best a) archives

-- `max(archives, key=created_at, default=None)`, the first of the greatest
unfoldable pub newest : List BackupArchive → Option BackupArchive
newest [] = none
newest (a ∷ archives) = some (newest_from a archives)

unfoldable pub insert_newest : BackupArchive → List BackupArchive → List BackupArchive
insert_newest a [] = a ∷ []
insert_newest a (b ∷ archives) =
    let rest = insert_newest a archives in
    if leb b.created_at a.created_at then a ∷ (b ∷ archives) else b ∷ rest

-- `sorted(archives, key=created_at, reverse=True)`, which is stable
unfoldable pub by_newest : List BackupArchive → List BackupArchive
by_newest [] = []
by_newest (a ∷ archives) = insert_newest a (by_newest archives)

-- `next((item for item in archives if item.filename == filename), None)`
unfoldable pub find_archive : Text → List BackupArchive → Option BackupArchive
find_archive filename [] = none
find_archive filename (a ∷ archives) =
    let rest = find_archive filename archives in
    if text_eq a.filename filename then some a else rest

unfoldable pub is_member : Text → List Text → Bool
is_member name names = any (λ other. text_eq other name) names

-- What is written between the separator of a list of words: `separator.join(words)`.
unfoldable pub join_by : Text → List Text → Text
join_by separator [] = []
join_by separator (w ∷ []) = w
join_by separator (w ∷ (v ∷ ws)) = w ++ (separator ++ join_by separator (v ∷ ws))

unfoldable pub substitute : ℕ → ℕ → Text → Text
substitute old new s = map (λ c. if c == old then new else c) s

quoted : Text → Text
quoted s = if any (λ c. c == 32) s then (34 ∷ []) ++ (substitute 34 39 s ++ (34 ∷ [])) else s

fields_text : List (Text × Text) → Text
unfolding quoted
fields_text [] = []
fields_text ((key, s) ∷ fields) =
    (32 ∷ key) ++ ((61 ∷ []) ++ (quoted (strip (substitute 10 32 s)) ++ fields_text fields))

module _ ⦃env : Env⦄ where
  -- `_restore_event` of app/domain/services/base.py
  unfoldable pub restore_event : User → Text → Text → List (Text × Text) → Action Unit
  unfolding fields_text
  restore_event user phase outcome fields =
      write_audit user Permission.backup_restore outcome
        (codes "phase=" ++ (phase ++ fields_text fields))

  -- `_notify_restore`
  unfoldable pub notify_restore : Text → Text → Level → Action Unit
  notify_restore title message level = tell (notify title message level)
