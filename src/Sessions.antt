-- ===== src/Sessions.antt =====
-- app/api/sessions.py: `SessionRegistry`. Times are whole numbers, and every method holds the lock. A
-- write of the file may raise, before or after the file has changed; an argument says what it does.
pub mod Lists
pub mod Revoking
pub mod Capping
pub mod Loading
use mc_admin.Base.{
  ℕ, ◌-◌, Text, Bool, true, false, Option, none, some, List, [], ◌∷◌, ◌&&◌, ◌||◌, not, leb, ltb,
  ◌==◌, length, take, keep, any, if◌then◌else◌, text_eq,
}
use mc_admin.Base.Files.{Writing, completed, unchanged, unsynced}
use mc_admin.Base.Dict.{Dict, get, put, pop, text_Eq}

pub record Session : Type 0 where
  pub username : Text
  pub created_at : ℕ
  pub ip : Text
  pub user_agent : Text
  pub last_seen : ℕ

abbrev pub Sessions : Type 0
Sessions = Dict Text Session

pub record Registry : Type 0 where
  pub ttl : ℕ
  pub max_per_user : ℕ
  -- in memory, and in the file
  pub sessions : Sessions
  pub saved : Sessions

-- What a method returns, if it does, and the registry that it leaves.
abbrev pub Result : Type 0 → Type 0
Result A = Option A × Registry

-- `_persist`, and then the return.
unfoldable pub persist : {A : Type 0} → Writing → A → Registry → Result A
persist completed a r = (some a, record r { saved = r.sessions })
persist unchanged a r = (none, r)
persist unsynced a r = (none, record r { saved = r.sessions })

unfoldable pub is_of : Text → Session → Bool
is_of username s = text_eq s.username username

unfoldable pub is_expired : ℕ → ℕ → Session → Bool
is_expired ttl now s = not (ttl == 0) && ltb ttl (now - s.created_at)

-- The sessions of a user, with their identifiers.
unfoldable pub owned : Text → Sessions → Sessions
owned username [] = []
owned username ((sid, s) ∷ d) =
    let rest = owned username d in if is_of username s then (sid, s) ∷ rest else rest

insert_by_age : Text → Session → Sessions → Sessions
insert_by_age sid s [] = (sid, s) ∷ []
insert_by_age sid s ((j, u) ∷ d) =
    let rest = insert_by_age sid s d in
    if leb s.created_at u.created_at then (sid, s) ∷ ((j, u) ∷ d) else (j, u) ∷ rest

-- `owned.sort(key=created_at)`, which is stable
unfoldable pub by_age : Sessions → Sessions
unfolding insert_by_age
by_age [] = []
by_age ((sid, s) ∷ d) = insert_by_age sid s (by_age d)

-- Removing the sessions of a list.
unfoldable pub pop_all : Sessions → Sessions → Sessions
pop_all [] d = d
pop_all ((sid, s) ∷ victims) d = pop_all victims (pop sid d)

unfoldable pub enforce_cap : ℕ → Text → Sessions → Sessions
unfolding owned by_age pop_all is_of
enforce_cap max_per_user username d =
    let mine = owned username d in
    if leb (length mine) max_per_user
    then d
    else pop_all (take (length mine - max_per_user) (by_age mine)) d

-- `register`; `sid` is what `secrets.token_urlsafe` gives.
unfoldable pub register : Writing → Text → ℕ → Text → Text → Text → Registry → Result Text
unfolding enforce_cap persist
register w sid now username ip user_agent r = persist w sid (record r {
  sessions = enforce_cap r.max_per_user username (
      put sid
        (record {
          username = username;
          created_at = now;
          ip = take 64 ip;
          user_agent = take 256 user_agent;
          last_seen = now;
        })
        r.sessions);
})

-- An expired session is removed when it is asked for.
check_age : Writing → ℕ → Text → Session → Registry → Result Bool
unfolding persist is_expired
check_age w now sid s r =
    if is_expired r.ttl now s
    then persist w false (record r { sessions = pop sid r.sessions })
    else (some true, r)

unfoldable pub is_valid : Writing → ℕ → Text → Text → Registry → Result Bool
unfolding check_age is_of
is_valid w now sid username r =
    if length sid == 0 then (some false, r) else elim (get sid r.sessions) [
      | none ↦ (some false, r)
      | some s ↦ if is_of username s then check_age w now sid s r else (some false, r)
    ]

unfoldable pub touch : ℕ → Text → Registry → Registry
touch now sid r = elim (get sid r.sessions) [
  | none ↦ r
  | some s ↦ record r { sessions = put sid (record s { last_seen = now }) r.sessions }
]

unfoldable pub revoke : Writing → Text → Text → Registry → Result Bool
unfolding persist is_of
revoke w sid username r = elim (get sid r.sessions) [
  | none ↦ (some false, r)
  | some s ↦
      if is_of username s
      then persist w true (record r { sessions = pop sid r.sessions })
      else (some false, r)
]

-- The sessions of a user but one.
unfoldable pub others : Text → Text → Sessions → Sessions
unfolding is_of
others keep_sid username [] = []
others keep_sid username ((sid, s) ∷ d) =
    let rest = others keep_sid username d in
    if is_of username s && not (text_eq sid keep_sid) then (sid, s) ∷ rest else rest

unfoldable pub revoke_others : Writing → Text → Text → Registry → Result ℕ
unfolding persist
revoke_others w keep_sid username r =
    let targets = others keep_sid username r.sessions in
    if length targets == 0
    then (some 0, r)
    else persist w (length targets) (record r { sessions = pop_all targets r.sessions })

unfoldable pub revoke_all : Writing → Text → Registry → Result ℕ
unfolding revoke_others
revoke_all w username = revoke_others w [] username

insert_by_activity : Text → Session → Sessions → Sessions
insert_by_activity sid s [] = (sid, s) ∷ []
insert_by_activity sid s ((j, u) ∷ d) =
    let rest = insert_by_activity sid s d in
    if leb u.last_seen s.last_seen then (sid, s) ∷ ((j, u) ∷ d) else (j, u) ∷ rest

by_activity : Sessions → Sessions
unfolding insert_by_activity
by_activity [] = []
by_activity ((sid, s) ∷ d) = insert_by_activity sid s (by_activity d)

-- `list_for`: a `SessionInfo` is a session with its identifier.
unfoldable pub list_for : Text → Registry → Sessions
unfolding by_activity
list_for username r = by_activity (owned username r.sessions)
