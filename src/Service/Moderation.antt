-- ===== src/Service/Moderation.antt =====
-- app/domain/services/moderation.py: the whitelist, the operators, kicks and bans.
pub mod Sanctions
use mc_admin.Base.{
  ℕ, ◌+◌, ◌*◌, Text, codes, text_eq, Bool, false, ◌&&◌, Option, none, some, List, [], ◌∷◌, ◌++◌,
  leb, ◌==◌, if◌then◌else◌, map,
}
use mc_admin.Base.Strings.{decimal}
use mc_admin.Access.{Permission, User}
use mc_admin.Service.{
  Env, Action, pure, raise, reraise, get_state, match_option, ◌>>=◌, ◌>>◌, attempt, port, tell,
  OpEntry, invalid_op_level, invalid_duration, op_levels_unavailable, clock_now, game,
  whitelist_add_command, whitelist_remove_command, op_command, deop_command, pardon_command,
  kick_command, ban_command, Command, whitelist_list, list_ops, list_bans, levels_list, levels_set,
  levels_remove, temp_bans_cancel, temp_bans_schedule, temp_bans_pending, apply_running, notify,
  Level,
}
use mc_admin.Service.Core.{authorize, write_audit, validate_player_name, sanitize_reason}

module _ ⦃env : Env⦄ where
  -- `try: result = command` of which both ends are audited; then the rest.
  unfoldable pub commanded :
      {A : Type 0} → User → Permission → Command → Text → (Text → Action A) → Action A
  commanded user permission command detail after =
      attempt (port (game command))
        (λ e. write_audit user permission (codes "error") detail >> reraise e) after

  unfoldable pub whitelist : User → Action (List Text)
  whitelist user = authorize user Permission.whitelist_manage >> port whitelist_list

  unfoldable pub whitelist_add : User → Text → Action Text
  whitelist_add user name = do
    authorize user Permission.whitelist_manage
    validate_player_name name
    commanded user Permission.whitelist_manage (whitelist_add_command name) (codes "add " ++ name)
        (λ result.
          write_audit user Permission.whitelist_manage (codes "allowed") (codes "add " ++ name)
          >> pure result)

  unfoldable pub whitelist_remove : User → Text → Action Text
  whitelist_remove user name = do
    authorize user Permission.whitelist_manage
    validate_player_name name
    commanded user Permission.whitelist_manage (whitelist_remove_command name)
        (codes "remove " ++ name)
        (λ result.
          write_audit user Permission.whitelist_manage (codes "allowed") (codes "remove " ++ name)
          >> pure result)

  unfoldable pub ops : User → Action (List OpEntry)
  ops user = authorize user Permission.op_manage >> port list_ops

  unfoldable pub pending_op_levels : User → Action (List OpEntry)
  pending_op_levels user =
      authorize user Permission.op_manage >> (if env.has_levels then port levels_list else pure [])

  busy : Action Unit
  busy = raise op_levels_unavailable (
      codes
        "les niveaux OP sont en cours d'application ; réessayez lorsque Minecraft sera de nouveau en ligne")

  -- `_ensure_op_levels_idle` of app/domain/services/actions.py
  unfoldable pub ensure_op_levels_idle : Action Unit
  unfolding busy
  ensure_op_levels_idle = get_state >>= λ s.
      match_option s.operation
        (if env.has_apply
          then attempt (port apply_running)
              (λ _.
                raise op_levels_unavailable
                  (codes "impossible de vérifier l'état de l'application des niveaux OP"))
              (λ running. if running then busy else pure tt)
          else pure tt)
        (λ _. busy)

  -- The `_ensure_op_levels_idle` of `op_add` and `op_remove`, whose refusal is audited.
  unfoldable pub idle_or_audit : {A : Type 0} → User → Text → Action A → Action A
  idle_or_audit user what rest =
      attempt ensure_op_levels_idle
        (λ e.
          write_audit user Permission.op_manage (codes "error")
            (what ++ codes " refusé : " ++ e.message)
          >> reraise e)
        (λ _. rest)

lower_char : ℕ → ℕ
lower_char c = if leb 65 c && leb c 90 then c + 32 else c

-- `name.lower()` of a valid name, and of the file's names, which are ASCII
lower : Text → Text
unfolding lower_char
lower name = map lower_char name

-- The level of the first entry with the name.
current_level : Text → List OpEntry → Option ℕ
unfolding lower
current_level name [] = none
current_level name (entry ∷ entries) =
    if text_eq (lower entry.name) (lower name) then some entry.level else current_level name entries

-- `immediate`: the server's level is already the one asked; `none` is a list that failed.
is_immediate : ℕ → Option (Option ℕ) → Bool
is_immediate level none = false
is_immediate level (some none) = level == 4
is_immediate level (some (some current)) = current == level

module _ ⦃env : Env⦄ where
  -- The pending level after the promotion.
  store_level : Text → ℕ → Bool → Action Unit
  store_level name level immediate =
      if env.has_levels
      then (if immediate then tell (levels_remove name) else tell (levels_set name level))
      else (if immediate
          then pure tt
          else raise op_levels_unavailable (codes "persistance des niveaux OP non configurée"))

  promoted : User → Text → ℕ → Bool → Text → Action Text
  promoted user name level immediate result = do
    write_audit user Permission.op_manage (codes "allowed") (
        codes "op "
        ++ name
        ++ codes " niveau "
        ++ decimal level
        ++ (if immediate
            then codes " (effectif immédiatement)"
            else codes " (op immédiat, niveau au prochain redémarrage)"))
    tell (
        notify (codes "Modération")
          (if immediate
            then user.username
              ++ codes " a promu "
              ++ name
              ++ codes " opérateur (niveau "
              ++ decimal level
              ++ codes ")."
            else user.username
              ++ codes " a promu "
              ++ name
              ++ codes " opérateur. Niveau "
              ++ decimal level
              ++ codes " prévu au prochain redémarrage.")
          Level.info)
    pure result

  -- From the `/op` on, with what was known of the level before it.
  promote : User → Text → ℕ → Option (Option ℕ) → Action Text
  unfolding store_level promoted is_immediate
  promote user name level current =
      let immediate = is_immediate level current in
      commanded user Permission.op_manage (op_command name) (codes "op " ++ name) (λ result.
        attempt (store_level name level immediate)
          (λ _.
            write_audit user Permission.op_manage (codes "error") (
              codes "op "
              ++ name
              ++ codes " réussi, mais niveau "
              ++ decimal level
              ++ codes " non enregistré")
            >> raise op_levels_unavailable (
                name
                ++ codes " est opérateur, mais le niveau "
                ++ decimal level
                ++ codes " n'a pas pu être enregistré"))
          (λ _. promoted user name level immediate result))

  unfoldable pub op_add : User → Text → ℕ → Action Text
  unfolding promote current_level
  op_add user name level = do
    authorize user Permission.op_manage
    validate_player_name name
    if leb 1 level && leb level 4
        then idle_or_audit user (codes "op " ++ name) (
            attempt (port list_ops) (λ _. promote user name level none)
              (λ entries. promote user name level (some (current_level name entries))))
        else raise invalid_op_level
            (codes "niveau invalide : " ++ decimal level ++ codes " (doit être 1 à 4)")

  demoted : User → Text → Text → Action Text
  demoted user name result =
      write_audit user Permission.op_manage (codes "allowed") (codes "deop " ++ name) >> pure result

  unfoldable pub op_remove : User → Text → Action Text
  unfolding demoted
  op_remove user name = do
    authorize user Permission.op_manage
    validate_player_name name
    idle_or_audit user (codes "deop " ++ name) (
        commanded user Permission.op_manage (deop_command name) (codes "deop " ++ name) (λ result.
          if env.has_levels
          then attempt (tell (levels_remove name))
              (λ _.
                write_audit user Permission.op_manage (codes "error") (
                  codes "deop "
                  ++ name
                  ++ codes " réussi, annulation du niveau en attente impossible")
                >> raise op_levels_unavailable (
                    name
                    ++ codes
                        " n'est plus opérateur, mais son niveau en attente n'a pas pu être supprimé"))
              (λ _. demoted user name result)
          else demoted user name result))

  in_parentheses : Text → Text
  in_parentheses [] = []
  in_parentheses (c ∷ reason) = codes " (" ++ (c ∷ reason) ++ codes ")"

  -- The line of `kick`, `ban` and `pardon` in the channel of moderation.
  announce : User → Text → Text → Text → Action Unit
  unfolding in_parentheses
  announce user verb name reason = tell (
      notify (codes "Modération")
        (user.username ++ verb ++ name ++ in_parentheses reason ++ codes ".") Level.info)

  unfoldable pub kick : User → Text → Text → Action Text
  unfolding in_parentheses announce
  kick user name raw = do
    authorize user Permission.kick
    validate_player_name name
    let reason = sanitize_reason raw
    let detail = codes "kick " ++ name ++ in_parentheses reason
    commanded user Permission.kick (kick_command name reason) detail (λ result. do
      write_audit user Permission.kick (codes "allowed") detail
      announce user (codes " a exclu ") name reason
      pure result)

  unfoldable pub bans : User → Action (List Text)
  bans user = authorize user Permission.ban_manage >> port list_bans

  unfoldable pub ban : User → Text → Text → Action Text
  unfolding in_parentheses announce
  ban user name raw = do
    authorize user Permission.ban_manage
    validate_player_name name
    let reason = sanitize_reason raw
    let detail = codes "ban " ++ name ++ in_parentheses reason
    commanded user Permission.ban_manage (ban_command name reason) detail (λ result. do
      tell (temp_bans_cancel name)
      write_audit user Permission.ban_manage (codes "allowed") detail
      announce user (codes " a banni ") name reason
      pure result)

  unfoldable pub ban_temporary : User → Text → ℕ → Text → Action Text
  unfolding in_parentheses
  ban_temporary user name hours raw = do
    authorize user Permission.ban_manage
    validate_player_name name
    if hours == 0 then raise invalid_duration (codes "durée invalide : 0h (doit être > 0)") else (do
      let reason = sanitize_reason raw
      let detail =
          codes "ban "
          ++ name
          ++ codes " pendant "
          ++ decimal hours
          ++ codes "h"
          ++ in_parentheses reason
      commanded user Permission.ban_manage (ban_command name reason) detail (λ result. do
        now ← port clock_now
        tell (temp_bans_cancel name)
        tell (temp_bans_schedule name (now + hours * 3600))
        write_audit user Permission.ban_manage (codes "allowed") detail
        pure result))

  unfoldable pub pending_unbans : User → Action (List Text)
  pending_unbans user = authorize user Permission.ban_manage >> port temp_bans_pending

  unfoldable pub pardon : User → Text → Action Text
  unfolding announce
  pardon user name = do
    authorize user Permission.ban_manage
    validate_player_name name
    commanded user Permission.ban_manage (pardon_command name) (codes "pardon " ++ name) (λ result.
        do
          tell (temp_bans_cancel name)
          write_audit user Permission.ban_manage (codes "allowed") (codes "pardon " ++ name)
          announce user (codes " a débanni ") name []
          pure result)
