-- ===== src/Access.antt =====
-- app/domain/model.py (permissions, roles, users) and app/domain/rbac.py (roles from the
-- configuration). A `frozenset` of permissions is a list that is only searched. The texts of
-- a `ConfigError` are constructors of the values that they name.
mod Names
pub mod Build
pub mod Defaults
pub use Names.{Permission, value, members}
unfoldable pub use Names.{find_value, perm_eq}
use mc_admin.Base.{Text, Bool, ◌||◌, List, any}

-- The model's `Role`, a group of permissions.
pub record Role : Type 0 where
  pub name : Text
  pub permissions : List Permission
  pub grants_all : Bool

unfoldable pub allows : Role → Permission → Bool
allows role permission = role.grants_all || any (perm_eq permission) role.permissions

pub record User : Type 0 where
  pub username : Text
  pub role : Role

unfoldable pub can : User → Permission → Bool
unfolding allows
can user permission = allows user.role permission
