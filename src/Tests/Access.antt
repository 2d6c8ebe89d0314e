-- ===== src/Tests/Access.antt =====
-- Roles: the default ones and one with a misspelt permission.
use mc_admin.Base.{codes, List, [], ◌∷◌, Text, false, ◌≡◌, refl, text_eq}
use mc_admin.Base.Strings.{strip}
use mc_admin.Access.{find_value}
use mc_admin.Access.Build.{build_role, err, unknown_permission}
use mc_admin.Access.Build.Laws.{Built, build_role-Built}

abbrev helper_names : List Text
helper_names = codes "STATUS" ∷ codes " KICK\n" ∷ codes "KICKS" ∷ []

build_role_unknown :
    build_role (codes "helper") helper_names
    ≡ err (unknown_permission (codes "helper") (codes "KICKS"))
unfolding build_role strip find_value text_eq
build_role_unknown = refl

build_role-Built_example :
    Built
      (codes "helper")
      (record { name = codes "helper"; permissions = []; grants_all = false })
      helper_names
      (build_role (codes "helper") helper_names)
build_role-Built_example = build_role-Built (codes "helper") helper_names
