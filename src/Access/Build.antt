-- ===== src/Access/Build.antt =====
-- app/domain/rbac.py: `build_role`, `build_roles`, `build_users`.
pub mod Laws
use mc_admin.Base.{
  Text, codes, text_eq, true, false, Option, none, some, List, [], ◌∷◌, if◌then◌else◌,
}
use mc_admin.Base.Strings.{strip}
use mc_admin.Base.Dict.{Dict, get, text_Eq}
use mc_admin.Access.{Role, User, find_value}

-- The messages of `ConfigError`, with the names that they quote.
pub data ConfigError : Type 0 where
  unknown_permission : Text → Text → ConfigError
  no_role : Text → ConfigError
  unknown_role : Text → Text → ConfigError

pub data Result (A : Type 0) : Type 0 where
  ok : A → Result A
  err : ConfigError → Result A

infixl 10 ◌>>=◌
abbrev pub ◌>>=◌ : {A B : Type 0} → Result A → (A → Result B) → Result B
ok a >>= f = f a
err e >>= f = err e

abbrev pub wildcard : Text
wildcard = codes "*"

-- One round of the loop over the names of the permissions.
grant : Text → Role → Text → Result Role
grant name role token =
    if text_eq token wildcard
    then ok (record role { grants_all = true })
    else elim (find_value token) [
      | some p ↦ ok (record role { permissions = p ∷ role.permissions })
      | none ↦ err (unknown_permission name token)
    ]

pub grant_each : Text → Role → List Text → Result Role
unfolding grant
grant_each name role [] = ok role
grant_each name role (raw ∷ raws) = grant name role (strip raw) >>= λ r. grant_each name r raws

unfoldable pub build_role : Text → List Text → Result Role
unfolding grant_each
build_role name permission_names =
    grant_each name (record { name = name; permissions = []; grants_all = false }) permission_names

-- `spec` is a dict, so its keys are distinct and the items keep their order.
unfoldable pub build_roles : Dict Text (List Text) → Result (Dict Text Role)
unfolding build_role
build_roles [] = ok []
build_roles ((name, perms) ∷ spec) = do
  role ← build_role name perms
  roles ← build_roles spec
  ok ((name, role) ∷ roles)

-- One entry of the section `users`: the text of its field `role`, if it has one.
user_entry : Dict Text Role → Text → Option Text → Result User
user_entry roles username none = err (no_role username)
user_entry roles username (some role_name) = elim (get role_name roles) [
  | none ↦ err (unknown_role username role_name)
  | some role ↦ ok (record { username = username; role = role })
]

unfoldable pub build_users : Dict Text (Option Text) → Dict Text Role → Result (Dict Text User)
unfolding user_entry
build_users [] roles = ok []
build_users ((username, cfg) ∷ spec) roles = do
  user ← user_entry roles username cfg
  users ← build_users spec roles
  ok ((username, user) ∷ users)
