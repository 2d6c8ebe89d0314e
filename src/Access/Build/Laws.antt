-- ===== src/Access/Build/Laws.antt =====
-- What a built role allows (app/domain/rbac.py, `build_role`).
use mc_admin.Base.{
  Text, text_eq, text_eq_iff, Bool, true, false, ◌||◌, none, some, List, [], ◌∷◌, ◌≡◌, refl, ap,
  any, arith, Bool-cases, inl, inr, ◌⊎◌, Option-cases, ◌≢◌, text_eq_self,
}
use mc_admin.Base.Strings.{strip}
use mc_admin.Access.{Role, allows, Permission, value, find_value, perm_eq}
use mc_admin.Access.Names.{value-find_value, find_value-value}
use mc_admin.Access.Build.{
  Result, ok, err, wildcard, grant, grant_each, build_role, ConfigError, unknown_permission,
}

-- A name in the configuration speaks for a permission: it is the wildcard or the permission's own.
abbrev pub speaks_for : Permission → Text → Bool
speaks_for p raw = text_eq (strip raw) wildcard || text_eq (value p) (strip raw)

perm_eq-find_value :
    (token : Text) (p q : Permission)
    → find_value token ≡ some q
    → perm_eq p q ≡ text_eq (value p) token
unfolding perm_eq
perm_eq-find_value token p q h = rw (value-find_value token h)

not-value :
    (token : Text) (p : Permission) → find_value token ≡ none → text_eq (value p) token ≡ false
not-value token p h = elim (Bool-cases (text_eq (value p) token)) [
  | inl same ↦ cc (h, find_value-value p, ap find_value ((text_eq_iff (value p) token).0 same))
  | inr other ↦ other
]

value-wildcard : (p : Permission) → text_eq (value p) wildcard ≡ false
unfolding text_eq
value-wildcard Permission.status = refl
value-wildcard _ = refl

allows-grant :
    (name token : Text) (role : Role) (p : Permission) {r : Role}
    → grant name role token ≡ ok r
    → allows r p ≡ (allows role p || (text_eq token wildcard || text_eq (value p) token))
unfolding grant allows
allows-grant name token role p h = elim (Option-cases (find_value token)) [
  | inl unknown ↦ ground arith
  | inr (q, known) ↦ ground (arith, perm_eq-find_value token p q known)
]

grant-err :
    (name token : Text) (role : Role) {e : ConfigError}
    → grant name role token ≡ err e
    → (e ≡ unknown_permission name token) × (find_value token ≡ none) × (token ≢ wildcard)
unfolding grant
grant-err name token role h =
    (ground arith, ground arith, λ same. ground (arith, text_eq_iff token wildcard, same))

Result-cases :
    {A : Type 0} (m : Result A) → ((a : A) × (m ≡ ok a)) ⊎ ((e : ConfigError) × (m ≡ err e))
Result-cases (ok a) = inl (a, refl)
Result-cases (err e) = inr (e, refl)

-- What building a role from the listed names has done, by how it ended.
abbrev pub Built : Text → Role → List Text → Result Role → Type 0
Built name role raws (ok r) =
    (p : Permission) → allows r p ≡ (allows role p || any (speaks_for p) raws)
Built name role raws (err e) =
    (token : Text) × (e ≡ unknown_permission name token)
    × (find_value token ≡ none)
    × (token ≢ wildcard)
    × (any (λ raw. text_eq (strip raw) token) raws ≡ true)

grant_each-Built :
    (name : Text) (role : Role) (raws : List Text)
    → Built name role raws (grant_each name role raws)
unfolding grant_each
grant_each-Built name role [] = λ p. ground arith
grant_each-Built name role (raw ∷ raws) = elim (Result-cases (grant name role (strip raw))) [
  | inl (r, e) ↦ rw e (onwards r e (grant_each name r raws) (grant_each-Built name r raws))
  | inr (e, h) ↦ rw h (
      let (a, b, c) = grant-err name (strip raw) role h in
      (strip raw, a, b, c, rw (text_eq_self (strip raw))))
]
  where
    onwards :
        (r : Role)
        → grant name role (strip raw) ≡ ok r
        → (m : Result Role) → Built name r raws m
        → Built name role (raw ∷ raws) m
    onwards r e (ok r') h = λ p. ground (arith, allows-grant name (strip raw) role p e, h p)
    onwards r e (err x) (token, a, b, c, d) = (token, a, b, c, ground (arith, d))

-- A role that is built allows exactly the permissions that its names speak for: each by its own
-- name, after stripping white space, or all by the wildcard. Where building fails, the error
-- quotes the role and a listed name that is neither the wildcard nor a permission.
pub build_role-Built :
    (name : Text) (raws : List Text)
    → Built name
        (record { name = name; permissions = []; grants_all = false })
        raws
        (build_role name raws)
unfolding build_role
build_role-Built name raws = grant_each-Built name _ raws
