-- ===== src/Sessions/Lists.antt =====
-- app/api/sessions.py: removing several sessions, and the order by age.
use mc_admin.Base.{
  ◌≡◌, inl, inr, refl, sym, ap, ◌∙◌, arith, Text, Bool, true, false, Option, none, some, [], ◌∷◌,
  ◌&&◌, not, text_eq, text_eq_iff, if◌then◌else◌, Bool-cases,
}
use mc_admin.Base.Dict.{get, pop, text_Eq, IsDict, get-pop}
use mc_admin.Sessions.{Session, Sessions, is_of, pop_all, others}

-- Whether a dict has a key.
abbrev pub is_some : Option Session → Bool
is_some none = false
is_some (some _) = true

pub get-pop_all :
    (j : Text) (victims d : Sessions)
    → get j (pop_all victims d) ≡ (if is_some (get j victims) then none else get j d)
unfolding pop_all get
get-pop_all j [] d = refl
get-pop_all j ((sid, s) ∷ victims) d =
    ground (arith, get-pop_all j victims (pop sid d), get-pop j sid d)

-- A session if it is one of the user, and not the one to keep.
abbrev pub target : Text → Text → Text → Option Session → Option Session
target keep_sid username sid none = none
target keep_sid username sid (some s) =
    if is_of username s && not (text_eq sid keep_sid) then some s else none

pub get-others :
    (j keep_sid username : Text) (d : Sessions)
    → IsDict d
    → get j (others keep_sid username d) ≡ target keep_sid username j (get j d)
unfolding others get
get-others j keep_sid username [] h = refl
get-others j keep_sid username ((sid, s) ∷ d) h = elim (Bool-cases (text_eq j sid)) [
  | inl same ↦
      let e = (text_eq_iff j sid).0 same in
      let absent : get j d ≡ none = ap (λ (i : Text). get i d) e ∙ h.0 in
      let rest : get j (others keep_sid username d) ≡ none =
        get-others j keep_sid username d h.1 ∙ ap (target keep_sid username j) absent in
      rw same (
        first (is_of username s) (text_eq sid keep_sid) (text_eq j keep_sid)
          (ap (λ (i : Text). text_eq i keep_sid) (sym e)) same rest)
  | inr other ↦ rw other (
      later (is_of username s && not (text_eq sid keep_sid)) other
      ∙ get-others j keep_sid username d h.1)
]
  where
    tail : Sessions
    tail = others keep_sid username d

    first :
        (mine kept kept' : Bool)
        → kept ≡ kept'
        → text_eq j sid ≡ true
        → get j tail ≡ none
        → get j (if mine && not kept then (sid, s) ∷ tail else tail)
          ≡ (if mine && not kept' then some s else none)
    first true true kept' e same rest = rw (sym e) rest
    first true false kept' e same rest = rw (sym e, same) refl
    first false kept kept' e same rest = rest

    later :
        (mine : Bool)
        → text_eq j sid ≡ false
        → get j (if mine then (sid, s) ∷ tail else tail) ≡ get j tail
    later true other = rw other refl
    later false other = refl
