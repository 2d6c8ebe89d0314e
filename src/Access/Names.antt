-- ===== src/Access/Names.antt =====
-- app/domain/model.py: the enumeration `Permission`, whose members are also their texts.
use mc_admin.Base.{
  Text, codes, text_eq, text_eq_iff, Bool, true, Option, none, some, List, [], ◌∷◌, ◌≡◌, refl, ◌↔◌,
  ap, if◌then◌else◌, arith,
}

pub data Permission : Type 0 where
  status logs_view restart start backup_trigger backup_download backup_restore : Permission
  backup_retention rcon_raw op_manage stop update audit_view whitelist_manage kick : Permission
  ban_manage game_settings backup_manage server_manage user_manage maintenance : Permission

-- `permission.value`
abbrev pub value : Permission → Text
value status = codes "STATUS"
value logs_view = codes "LOGS_VIEW"
value restart = codes "RESTART"
value start = codes "START"
value backup_trigger = codes "BACKUP_TRIGGER"
value backup_download = codes "BACKUP_DOWNLOAD"
value backup_restore = codes "BACKUP_RESTORE"
value backup_retention = codes "BACKUP_RETENTION"
value rcon_raw = codes "RCON_RAW"
value op_manage = codes "OP_MANAGE"
value stop = codes "STOP"
value update = codes "UPDATE"
value audit_view = codes "AUDIT_VIEW"
value whitelist_manage = codes "WHITELIST_MANAGE"
value kick = codes "KICK"
value ban_manage = codes "BAN_MANAGE"
value game_settings = codes "GAME_SETTINGS"
value backup_manage = codes "BACKUP_MANAGE"
value server_manage = codes "SERVER_MANAGE"
value user_manage = codes "USER_MANAGE"
value maintenance = codes "MAINTENANCE"

abbrev pub members : List Permission
members =
    status ∷ logs_view ∷ restart ∷ start ∷ backup_trigger ∷ backup_download ∷ backup_restore
    ∷ backup_retention ∷ rcon_raw ∷ op_manage ∷ stop ∷ update ∷ audit_view ∷ whitelist_manage ∷ kick
    ∷ ban_manage ∷ game_settings ∷ backup_manage ∷ server_manage ∷ user_manage ∷ maintenance ∷ []

find_member : List Permission → Text → Option Permission
find_member [] token = none
find_member (p ∷ ps) token = if text_eq (value p) token then some p else find_member ps token

-- `Permission(token)`: the member of that value, or `none` for the `ValueError`.
unfoldable pub find_value : Text → Option Permission
unfolding find_member
find_value token = find_member members token

-- Members are compared as their texts.
unfoldable pub perm_eq : Permission → Permission → Bool
perm_eq p q = text_eq (value p) (value q)

pub find_value-value : (p : Permission) → find_value (value p) ≡ some p
unfolding find_value text_eq
find_value-value status = refl
find_value-value _ = refl

find_member-value :
    (ps : List Permission) (token : Text) {p : Permission}
    → find_member ps token ≡ some p
    → value p ≡ token
unfolding find_member
find_member-value [] token h = cc
find_member-value (q ∷ ps) token {p} h =
    ground (arith, text_eq_iff (value q) token, find_member-value ps token {p = p})

-- What is found has the value that was looked up.
pub value-find_value : (token : Text) {p : Permission} → find_value token ≡ some p → value p ≡ token
unfolding find_value
value-find_value token h = find_member-value members token h

pub value-injective : (p q : Permission) → value p ≡ value q → p ≡ q
value-injective p q h = cc (find_value-value p, find_value-value q, ap find_value h)

pub perm_eq_iff : (p q : Permission) → (perm_eq p q ≡ true) ↔ (p ≡ q)
unfolding perm_eq
perm_eq_iff p q = (
  λ h. value-injective p q ((text_eq_iff (value p) (value q)).0 h),
  λ e. (text_eq_iff (value p) (value q)).1 (ap value e),
)
