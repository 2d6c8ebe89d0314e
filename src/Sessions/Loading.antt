-- ===== src/Sessions/Loading.antt =====
-- app/api/sessions.py: `_load_into_memory`, and sessions over a restart of the program. A field of the
-- file is none where Python cannot take it for a text or a number; a `last_seen` that is no number raises,
-- and is left out.
use mc_admin.Base.{
  ℕ, ◌<◌, ◌≡◌, refl, ap, ◌∙◌, arith, Text, Bool, true, false, Option, none, some, [], ◌∷◌, length,
  ◌==◌, if◌then◌else◌, Bool-cases, inl, inr, All, text_eq, text_eq_self,
}
use mc_admin.Base.Files.{Writing, completed, unchanged, unsynced}
use mc_admin.Base.Dict.{Dict, get, pop, text_Eq, get-pop}
use mc_admin.Sessions.{
  Session, Sessions, Registry, Result, is_of, is_expired, is_valid, check_age, persist, revoke,
}

-- An entry of the file: an absent number counts as zero.
pub record Raw : Type 0 where
  pub username : Option Text
  pub created_at : Option ℕ
  pub ip : Text
  pub user_agent : Text
  pub last_seen : ℕ

-- The entry of a session as `_persist` writes it.
abbrev pub written : Session → Raw
written s = record {
  username = some s.username;
  created_at = some s.created_at;
  ip = s.ip;
  user_agent = s.user_agent;
  last_seen = s.last_seen;
}

abbrev pub dump : Sessions → Dict Text (Option Raw)
dump [] = []
dump ((sid, s) ∷ d) = (sid, some (written s)) ∷ dump d

-- `float(record.get("last_seen") or created)`
or_created : ℕ → ℕ → ℕ
or_created created seen = if seen == 0 then created else seen

with_times : ℕ → ℕ → Raw → Text → ℕ → Option Session
unfolding or_created is_expired
with_times ttl now raw username created =
    let s : Session = record {
      username = username;
      created_at = created;
      ip = raw.ip;
      user_agent = raw.user_agent;
      last_seen = or_created created raw.last_seen;
    } in
    if is_expired ttl now s then none else some s

load_entry : ℕ → ℕ → Text → Option Raw → Option Session
unfolding with_times
load_entry ttl now sid none = none
load_entry ttl now sid (some raw) = if length sid == 0 then none else elim raw.username [
  | none ↦ none
  | some username ↦ if length username == 0 then none else elim raw.created_at [
    | none ↦ none
    | some created ↦ with_times ttl now raw username created
  ]
]

abbrev add_entry : Text → Option Session → Sessions → Sessions
add_entry sid none d = d
add_entry sid (some s) d = (sid, s) ∷ d

-- An entry that is no object is none here.
unfoldable pub load : ℕ → ℕ → Dict Text (Option Raw) → Sessions
unfolding load_entry
load ttl now [] = []
load ttl now ((sid, raw) ∷ d) = add_entry sid (load_entry ttl now sid raw) (load ttl now d)

-- The sessions that are still alive.
unfoldable pub alive : ℕ → ℕ → Sessions → Sessions
alive ttl now [] = []
alive ttl now ((sid, s) ∷ d) =
    let rest = alive ttl now d in if is_expired ttl now s then rest else (sid, s) ∷ rest

-- As `register` makes them, at a time after zero.
abbrev pub IsRegistered : Text × Session → Type 0
IsRegistered (sid, s) = (0 < length sid) × (0 < length s.username) × (0 < s.last_seen)

not_zero : (n : ℕ) → 0 < n → (n == 0) ≡ false
not_zero n h = ground arith

-- What the program has saved is what it loads when it starts again, without the sessions that have
-- expired meanwhile.
pub load-dump :
    (ttl now : ℕ) (d : Sessions) → All IsRegistered d → load ttl now (dump d) ≡ alive ttl now d
unfolding load load_entry with_times or_created alive
load-dump ttl now [] h = refl
load-dump ttl now ((sid, s) ∷ d) ((some_sid, some_name, seen), h) =
    rw
      (
        not_zero (length sid) some_sid,
        not_zero (length s.username) some_name,
        not_zero s.last_seen seen,
      )
      (by_expiry (load-dump ttl now d h) (is_expired ttl now s))
  where
    by_expiry :
        load ttl now (dump d) ≡ alive ttl now d
        → (expired : Bool)
        → add_entry sid (if expired then none else some s) (load ttl now (dump d))
          ≡ (if expired then alive ttl now d else (sid, s) ∷ alive ttl now d)
    by_expiry e true = e
    by_expiry e false = ap (λ (l : Sessions). (sid, s) ∷ l) e

absent_stays :
    (ttl now : ℕ) (sid : Text) (d : Sessions)
    → get sid d ≡ none
    → get sid (load ttl now (dump d)) ≡ none
unfolding load get
absent_stays ttl now sid [] h = refl
absent_stays ttl now sid ((j, s) ∷ d) h = elim (Bool-cases (text_eq sid j)) [
  | inl same ↦ cc (rw same at h)
  | inr other ↦
      by_entry other (absent_stays ttl now sid d (rw other at h))
        (load_entry ttl now j (some (written s)))
]
  where
    by_entry :
        text_eq sid j ≡ false
        → get sid (load ttl now (dump d)) ≡ none
        → (o : Option Session) → get sid (add_entry j o (load ttl now (dump d))) ≡ none
    by_entry other rest none = rest
    by_entry other rest (some u) = rw other rest

-- A revocation that has returned True has taken the session out of the memory and of the file.
revoke-removed :
    (w : Writing) (sid username : Text) (r : Registry)
    → (revoke w sid username r).0 ≡ some true
    → (get sid (revoke w sid username r).1.sessions ≡ none)
      × (get sid (revoke w sid username r).1.saved ≡ none)
unfolding revoke persist
revoke-removed w sid username r h = go (get sid r.sessions) w h
  where
    popped : Registry
    popped = record r { sessions = pop sid r.sessions }

    gone : get sid popped.sessions ≡ none
    gone = get-pop sid sid r.sessions ∙ rw (text_eq_self sid) refl

    Removed : Result Bool → Type 0
    Removed result = (get sid result.1.sessions ≡ none) × (get sid result.1.saved ≡ none)

    by_owner :
        (mine : Bool) (w : Writing)
        → (if mine then persist w true popped else (some false, r)).0 ≡ some true
        → Removed (if mine then persist w true popped else (some false, r))
    by_owner true completed h = (gone, gone)
    by_owner true unchanged h = cc h
    by_owner true unsynced h = cc h
    by_owner false w h = ground (arith, h)

    go :
        (o : Option Session) (w : Writing)
        → (elim o as (λ _. Result Bool) [
          | none ↦ (some false, r)
          | some s ↦ if is_of username s then persist w true popped else (some false, r)
        ]).0
          ≡ some true
        → Removed (elim o as (λ _. Result Bool) [
          | none ↦ (some false, r)
          | some s ↦ if is_of username s then persist w true popped else (some false, r)
        ])
    go none w h = ground (arith, h)
    go (some s) w h = by_owner (is_of username s) w h

-- An absent session is valid for nobody.
absent_invalid :
    (w : Writing) (now : ℕ) (sid username : Text) (r : Registry)
    → get sid r.sessions ≡ none
    → is_valid w now sid username r ≡ (some false, r)
unfolding is_valid
absent_invalid w now sid username r gone = by_sid (length sid == 0) gone
  where
    by_sid :
        (empty : Bool)
        → get sid r.sessions ≡ none
        → (if empty then (some false, r) else elim (get sid r.sessions) as (λ _. Result Bool) [
          | none ↦ (some false, r)
          | some s ↦ if is_of username s then check_age w now sid s r else (some false, r)
        ])
          ≡ (some false, r)
    by_sid true e = refl
    by_sid false e = rw e refl

-- A session whose revocation has returned True is valid for nobody at any time, in the registry that it
-- leaves and in the one that the program loads from the file when it starts again.
pub revoke-Gone :
    (w later : Writing) (sid username other : Text) (start now : ℕ) (r : Registry)
    → (revoke w sid username r).0 ≡ some true
    → let after = (revoke w sid username r).1 in
      let restarted = record after { sessions = load after.ttl start (dump after.saved) } in
      (is_valid later now sid other after ≡ (some false, after))
      × (is_valid later now sid other restarted ≡ (some false, restarted))
revoke-Gone w later sid username other start now r h =
    let after = (revoke w sid username r).1 in
    let (gone, unsaved) = revoke-removed w sid username r h in
    (
      absent_invalid later now sid other after gone,
      absent_invalid later now sid other
          (record after { sessions = load after.ttl start (dump after.saved) })
          (absent_stays after.ttl start sid after.saved unsaved),
    )
