-- ===== src/Access/Defaults.antt =====
-- app/domain/rbac.py: the roles of an installation with no roles.yml.
use mc_admin.Base.{
  Text, codes, List, [], ◌∷◌, Bool, true, false, not, none, some, ◌≡◌, refl, text_eq, arith,
}
use mc_admin.Base.Dict.{Dict, get, text_Eq}
use mc_admin.Base.Strings.{strip}
use mc_admin.Access.{Permission, allows, find_value, perm_eq}
use mc_admin.Access.Build.{build_roles, ok, err}

abbrev pub moderator_names : List Text
moderator_names =
    codes "STATUS"
    ∷ codes "LOGS_VIEW"
    ∷ codes "AUDIT_VIEW"
    ∷ codes "KICK"
    ∷ codes "BAN_MANAGE"
    ∷ codes "WHITELIST_MANAGE"
    ∷ []

abbrev pub admin_names : List Text
admin_names =
    codes "STATUS"
    ∷ codes "LOGS_VIEW"
    ∷ codes "AUDIT_VIEW"
    ∷ codes "KICK"
    ∷ codes "BAN_MANAGE"
    ∷ codes "WHITELIST_MANAGE"
    ∷ codes "RESTART"
    ∷ codes "START"
    ∷ codes "MAINTENANCE"
    ∷ codes "BACKUP_TRIGGER"
    ∷ codes "BACKUP_DOWNLOAD"
    ∷ codes "GAME_SETTINGS"
    ∷ codes "OP_MANAGE"
    ∷ []

abbrev pub default_roles_spec : Dict Text (List Text)
default_roles_spec =
    (codes "owner", codes "*" ∷ [])
    ∷ (codes "admin", admin_names)
    ∷ (codes "moderator", moderator_names)
    ∷ (codes "viewer", codes "STATUS" ∷ codes "LOGS_VIEW" ∷ [])
    ∷ []

-- What a role of that name allows, once the default roles are built.
pub default_allows : Text → Permission → Bool
unfolding build_roles allows
default_allows name p = elim (build_roles default_roles_spec) [
  | err _ ↦ false
  | ok roles ↦ elim (get name roles) [ none ↦ false | some role ↦ allows role p ]
]

-- The permissions that no default role but the owner's has.
abbrev pub owner_only : Permission → Bool
owner_only Permission.backup_restore = true
owner_only Permission.backup_retention = true
owner_only Permission.backup_manage = true
owner_only Permission.rcon_raw = true
owner_only Permission.stop = true
owner_only Permission.update = true
owner_only Permission.server_manage = true
owner_only Permission.user_manage = true
owner_only _ = false

abbrev Ladder : Permission → Type 0
Ladder p =
    (default_allows (codes "viewer") p ≡ true → default_allows (codes "moderator") p ≡ true)
    × (default_allows (codes "moderator") p ≡ true → default_allows (codes "admin") p ≡ true)
    × (default_allows (codes "owner") p ≡ true)
    × (default_allows (codes "admin") p ≡ not (owner_only p))

-- The default roles form a ladder: what the viewer may do the moderator may, what the moderator
-- may do the administrator may, the owner may do all, and the administrator all but eight
-- permissions: restoring, retention and the profiles of backups, raw RCON commands, stopping,
-- updating, and managing servers or users.
default_allows-Ladder : (p : Permission) → Ladder p
unfolding default_allows get strip find_value text_eq perm_eq
default_allows-Ladder Permission.status = (λ h. refl, λ h. refl, refl, refl)
default_allows-Ladder _ = ground arith
