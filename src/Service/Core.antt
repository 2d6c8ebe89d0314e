-- ===== src/Service/Core.antt =====
-- app/domain/services/base.py: the audit, the barrier of the roles, and the refusal while the
-- doorman holds the server's address; and the validation of names and reasons.
pub mod Names
use mc_admin.Base.{
  ℕ, ◌/◌, Text, codes, Bool, ◌&&◌, ◌||◌, [], ◌∷◌, ◌++◌, leb, ◌==◌, length, take, all, if◌then◌else◌,
}
use mc_admin.Base.Strings.{split, join, decimal}
use mc_admin.Access.{Permission, value, User, can}
use mc_admin.Service.{
  Env, Action, pure, raise, permission_denied, invalid_player_name, maintenance_unavailable, ◌>>=◌,
  ◌>>◌, attempt, port, tell, audit_record, clock_now, doorman_running,
}

-- The class `[A-Za-z0-9_]`.
unfoldable pub is_word : ℕ → Bool
is_word c = (leb 65 c && leb c 90) || (leb 97 c && leb c 122) || (leb 48 c && leb c 57) || c == 95

drop_newline : Text → Text
drop_newline [] = []
drop_newline (c ∷ []) = if c == 10 then [] else c ∷ []
drop_newline (c ∷ (x ∷ s)) = c ∷ drop_newline (x ∷ s)

-- `re.match(r"^[A-Za-z0-9_]{3,16}$", name)`: `$` also stands before one newline at the end.
unfoldable pub matches_name : Text → Bool
unfolding is_word drop_newline
matches_name name =
    let word = drop_newline name in all is_word word && leb 3 (length word) && leb (length word) 16

-- `_sanitize_reason`
unfoldable pub sanitize_reason : Text → Text
sanitize_reason reason = take 200 (join (split reason))

module _ ⦃env : Env⦄ where
  unfoldable pub format_seconds : ℕ → Text
  format_seconds seconds =
      if leb 60 seconds
      then decimal (seconds / 60) ++ codes " minute(s)"
      else decimal seconds ++ codes " seconde(s)"

  -- `_record`
  unfoldable pub write_audit : User → Permission → Text → Text → Action Unit
  write_audit user permission outcome detail = do
    now ← port clock_now
    tell (
        audit_record (record {
          timestamp = now;
          username = user.username;
          role = user.role.name;
          action = value permission;
          target = env.container_name;
          outcome = outcome;
          detail = detail;
        }))

  -- `_authorize`
  unfoldable pub authorize : User → Permission → Action Unit
  authorize user permission =
      if can user permission
      then pure tt
      else (write_audit user permission (codes "denied") []
          >> raise permission_denied (
              codes "user '"
              ++ user.username
              ++ codes "' n'a pas la permission "
              ++ value permission))

  unfoldable pub refuse : User → Permission → Text → Action Unit
  refuse user permission hint =
      write_audit user permission (codes "denied") (codes "bloqué : serveur en maintenance")
      >> raise maintenance_unavailable (
          codes "Le serveur est en maintenance : "
          ++ hint
          ++ codes " (le portier occupe son adresse réseau).")

  -- `_refuse_if_maintenance`
  unfoldable pub refuse_if_maintenance : User → Permission → Text → Action Unit
  refuse_if_maintenance user permission hint =
      if env.has_doorman
      then attempt (port doorman_running) (λ _. pure tt)
          (λ running. if running then refuse user permission hint else pure tt)
      else pure tt

  -- `_validate_player_name`
  unfoldable pub validate_player_name : Text → Action Unit
  validate_player_name name =
      if matches_name name
      then pure tt
      else raise invalid_player_name (codes "pseudo invalide : " ++ env.repr name)
