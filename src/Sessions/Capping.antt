-- ===== src/Sessions/Capping.antt =====
-- app/api/sessions.py: `register` and the bound on the sessions of a user.
use mc_admin.Base.{
  ℕ, zero, suc, ◌+◌, ◌-◌, ◌≤◌, ◌≡◌, ◌⊎◌, Option, not, inl, inr, refl, sym, subst, ap, ◌∙◌, arith,
  Text, Bool, true, false, none, some, [], ◌∷◌, leb, length, take, text_eq, text_eq_iff, Bool-cases,
  length-take,
}
use mc_admin.Base.Files.{Writing}
use mc_admin.Base.Dict.{
  get, put, pop, text_Eq, IsDict, IsDict-pop, IsDict-put, get-pop, get-put, count, count-pop,
}
use mc_admin.Sessions.{
  Session, Sessions, Registry, is_of, owned, insert_by_age, by_age, pop_all, enforce_cap, register,
}
use mc_admin.Sessions.Lists.{get-pop_all}
use mc_admin.Sessions.Revoking.{IsSaved, IsSaved-persist, persist-sessions}

-- The list's sessions are the dict's under the same keys, and all of the user.
Within : Text → Sessions → Sessions → Type 0
Within username d [] = Unit
Within username d ((sid, s) ∷ l) =
    (get sid d ≡ some s) × (is_of username s ≡ true) × Within username d l

text_eq-swap : (a b : Text) → text_eq a b ≡ false → text_eq b a ≡ false
text_eq-swap a b e = ground (arith, text_eq_iff a b, text_eq_iff b a)

Within-pop :
    (username sid : Text) (d l : Sessions)
    → get sid l ≡ none
    → Within username d l
    → Within username (pop sid d) l
unfolding Within get
Within-pop username sid d [] n h = tt
Within-pop username sid d ((j, u) ∷ l) n h = elim (Bool-cases (text_eq sid j)) [
  | inl same ↦ cc (rw same at n)
  | inr other ↦ (
    get-pop j sid d ∙ rw (text_eq-swap sid j other) h.0,
    h.1,
    Within-pop username sid d l (rw other at n) h.2,
  )
]

count-pop_all :
    (username : Text) (victims d : Sessions)
    → IsDict victims
    → IsDict d
    → Within username d victims
    → count (is_of username) (pop_all victims d) + length victims ≡ count (is_of username) d
unfolding Within pop_all
count-pop_all username [] d hv hd h = omega arith
count-pop_all username ((sid, s) ∷ victims) d hv hd h =
    let rest =
      count-pop_all username victims (pop sid d) hv.1 (IsDict-pop sid d hd)
        (Within-pop username sid d victims hv.0 h.2) in
    let one = count-pop (is_of username) sid s d hd h.0 in ground (arith, rest, one, h.1)

count-owned :
    (username : Text) (d : Sessions) → length (owned username d) ≡ count (is_of username) d
unfolding owned count
count-owned username [] = refl
count-owned username ((sid, s) ∷ d) = ground (arith, count-owned username d)

get-owned :
    (username sid : Text) (d : Sessions) → get sid d ≡ none → get sid (owned username d) ≡ none
unfolding owned get
get-owned username sid [] h = refl
get-owned username sid ((j, s) ∷ d) h = ground (arith, get-owned username sid d)

IsDict-owned : (username : Text) (d : Sessions) → IsDict d → IsDict (owned username d)
unfolding owned
IsDict-owned username [] h = tt
IsDict-owned username ((sid, s) ∷ d) h = elim (Bool-cases (is_of username s)) [
  | inl mine ↦ rw mine (get-owned username sid d h.0, IsDict-owned username d h.1)
  | inr other ↦ rw other (IsDict-owned username d h.1)
]

Within-more :
    (username sid : Text) (s : Session) (d l : Sessions)
    → get sid l ≡ none
    → Within username d l
    → Within username ((sid, s) ∷ d) l
unfolding Within get
Within-more username sid s d [] n h = tt
Within-more username sid s d ((j, u) ∷ l) n h = elim (Bool-cases (text_eq sid j)) [
  | inl same ↦ cc (rw same at n)
  | inr other ↦
      (rw (text_eq-swap sid j other) h.0, h.1, Within-more username sid s d l (rw other at n) h.2)
]

Within-owned : (username : Text) (d : Sessions) → IsDict d → Within username d (owned username d)
unfolding owned Within get
Within-owned username [] h = tt
Within-owned username ((sid, s) ∷ d) h =
    let more =
      Within-more username sid s d (owned username d) (get-owned username sid d h.0)
        (Within-owned username d h.1) in
    elim (Bool-cases (is_of username s)) [
      | inl mine ↦ rw mine (ground (arith, text_eq_iff sid sid), mine, more)
      | inr other ↦ rw other more
    ]

get-insert_by_age :
    (j sid : Text) (s : Session) (d : Sessions)
    → get j d ≡ none
    → text_eq j sid ≡ false
    → get j (insert_by_age sid s d) ≡ none
unfolding insert_by_age get
get-insert_by_age j sid s [] n o = ground arith
get-insert_by_age j sid s ((i, u) ∷ d) n o = ground (arith, get-insert_by_age j sid s d)

IsDict-insert_by_age :
    (sid : Text) (s : Session) (d : Sessions)
    → get sid d ≡ none
    → IsDict d
    → IsDict (insert_by_age sid s d)
unfolding insert_by_age get
IsDict-insert_by_age sid s [] n h = (refl, tt)
IsDict-insert_by_age sid s ((i, u) ∷ d) n h = elim (Bool-cases (leb s.created_at u.created_at)) [
  | inl older ↦ rw older (n, h)
  | inr younger ↦ rw younger (
    get-insert_by_age i sid s d h.0 (text_eq-swap sid i (ground arith)),
    IsDict-insert_by_age sid s d (ground arith) h.1,
  )
]

Within-insert_by_age :
    (username sid : Text) (s : Session) (d l : Sessions)
    → get sid d ≡ some s
    → is_of username s ≡ true
    → Within username d l
    → Within username d (insert_by_age sid s l)
unfolding insert_by_age Within
Within-insert_by_age username sid s d [] g m h = (g, m, tt)
Within-insert_by_age username sid s d ((i, u) ∷ l) g m h =
    elim (Bool-cases (leb s.created_at u.created_at)) [
      | inl older ↦ rw older (g, m, h)
      | inr younger ↦ rw younger (h.0, h.1, Within-insert_by_age username sid s d l g m h.2)
    ]

length-insert_by_age :
    (sid : Text) (s : Session) (d : Sessions) → length (insert_by_age sid s d) ≡ suc (length d)
unfolding insert_by_age
length-insert_by_age sid s [] = refl
length-insert_by_age sid s ((i, u) ∷ d) = ground (arith, length-insert_by_age sid s d)

length-by_age : (d : Sessions) → length (by_age d) ≡ length d
unfolding by_age
length-by_age [] = refl
length-by_age ((sid, s) ∷ d) = length-insert_by_age sid s (by_age d) ∙ ap suc (length-by_age d)

get-by_age : (j : Text) (d : Sessions) → get j d ≡ none → get j (by_age d) ≡ none
unfolding by_age get
get-by_age j [] n = refl
get-by_age j ((sid, s) ∷ d) n =
    get-insert_by_age j sid s (by_age d) (get-by_age j d (ground arith)) (ground arith)

IsDict-by_age : (d : Sessions) → IsDict d → IsDict (by_age d)
unfolding by_age
IsDict-by_age [] h = tt
IsDict-by_age ((sid, s) ∷ d) h =
    IsDict-insert_by_age sid s (by_age d) (get-by_age sid d h.0) (IsDict-by_age d h.1)

Within-by_age :
    (username : Text) (d l : Sessions) → Within username d l → Within username d (by_age l)
unfolding by_age Within
Within-by_age username d [] h = tt
Within-by_age username d ((sid, s) ∷ l) h =
    Within-insert_by_age username sid s d (by_age l) h.0 h.1 (Within-by_age username d l h.2)

get-take : (j : Text) (n : ℕ) (d : Sessions) → get j d ≡ none → get j (take n d) ≡ none
unfolding get
get-take j zero d h = refl
get-take j (suc n) [] h = refl
get-take j (suc n) ((sid, s) ∷ d) h = ground (arith, get-take j n d)

IsDict-take : (n : ℕ) (d : Sessions) → IsDict d → IsDict (take n d)
IsDict-take zero d h = tt
IsDict-take (suc n) [] h = tt
IsDict-take (suc n) ((sid, s) ∷ d) h = (get-take sid n d h.0, IsDict-take n d h.1)

Within-take :
    (username : Text) (d : Sessions) (n : ℕ) (l : Sessions)
    → Within username d l
    → Within username d (take n l)
unfolding Within
Within-take username d zero l h = tt
Within-take username d (suc n) [] h = tt
Within-take username d (suc n) ((sid, s) ∷ l) h = (h.0, h.1, Within-take username d n l h.2)

-- No session of another user is within.
Within-other :
    (username sid : Text) (d l : Sessions) (s : Session)
    → Within username d l
    → get sid d ≡ some s
    → is_of username s ≡ false
    → get sid l ≡ none
unfolding Within get
Within-other username sid d [] s h g o = refl
Within-other username sid d ((j, u) ∷ l) s h g o = elim (Bool-cases (text_eq sid j)) [
  | inl same ↦ ground (arith, ap (λ (i : Text). get i d) ((text_eq_iff sid j).0 same), h.0, h.1)
  | inr other ↦ rw other (Within-other username sid d l s h.2 g o)
]

-- The bound holds of the user's sessions, and the others' are as they were.
enforce_cap-count :
    (max_per_user : ℕ) (username : Text) (d : Sessions)
    → IsDict d
    → (count (is_of username) (enforce_cap max_per_user username d) ≤ max_per_user)
      × ((j : Text) (s : Session)
          → get j d ≡ some s
          → is_of username s ≡ false
          → get j (enforce_cap max_per_user username d) ≡ some s)
unfolding enforce_cap
enforce_cap-count max_per_user username d hd = elim (Bool-cases (leb (length mine) max_per_user)) [
  | inl few ↦ rw few (ground (arith, count-owned username d), λ j s g o. g)
  | inr many ↦ rw many (
    ground (
      arith,
      count-owned username d,
      count-pop_all username victims d
          (IsDict-take excess (by_age mine) (IsDict-by_age mine (IsDict-owned username d hd))) hd
          within,
      length-take excess (by_age mine),
      length-by_age mine,
    ),
    λ j s g o. get-pop_all j victims d ∙ rw (Within-other username j d victims s within g o) g,
  )
]
  where
    mine : Sessions
    mine = owned username d

    excess : ℕ
    excess = length mine - max_per_user

    victims : Sessions
    victims = take excess (by_age mine)

    within : Within username d victims
    within =
        Within-take username d excess (by_age mine)
          (Within-by_age username d mine (Within-owned username d hd))

differs :
    (j sid : Text) (d : Sessions) (s : Session)
    → get j d ≡ some s
    → get sid d ≡ none
    → text_eq j sid ≡ false
differs j sid d s g n = elim (Bool-cases (text_eq j sid)) [
  | inl same ↦ cc (g, n, ap (λ (i : Text). get i d) ((text_eq_iff j sid).0 same))
  | inr other ↦ other
]

-- Whether a session is there and another user's.
abbrev pub is_foreign : Text → Option Session → Bool
is_foreign username none = false
is_foreign username (some s) = not (is_of username s)

foreign_kept :
    (max_per_user : ℕ) (username sid j : Text) (new : Session) (d : Sessions)
    → get sid d ≡ none
    → ((s : Session)
        → get j (put sid new d) ≡ some s
        → is_of username s ≡ false
        → get j (enforce_cap max_per_user username (put sid new d)) ≡ some s)
    → (o : Option Session) → get j d ≡ o
    → (is_foreign username o ≡ false)
      ⊎ (get j (enforce_cap max_per_user username (put sid new d)) ≡ o)
foreign_kept max_per_user username sid j new d fresh keeps none g = inl refl
foreign_kept max_per_user username sid j new d fresh keeps (some s) g =
    elim (Bool-cases (is_of username s)) [
      | inl mine ↦ inl (ground (arith, mine))
      | inr other ↦ inr (keeps s (get-put j sid new d ∙ rw (differs j sid d s g fresh) g) other)
    ]

-- Opening a session under a new identifier leaves its user at most the maximal number of sessions,
-- whoever else has any, and what stands under any key j as it was if it is another user's session,
-- however the write of the file ends; if the method returns, the file agrees with the memory.
pub register-Capped :
    (w : Writing) (sid : Text) (now : ℕ) (username ip user_agent : Text) (r : Registry) (j : Text)
    → IsDict r.sessions
    → get sid r.sessions ≡ none
    → let after = register w sid now username ip user_agent r in
      (count (is_of username) after.1.sessions ≤ r.max_per_user)
      × ((is_foreign username (get j r.sessions) ≡ false)
          ⊎ (get j after.1.sessions ≡ get j r.sessions))
      × IsSaved after
unfolding register
register-Capped w sid now username ip user_agent r j hd fresh =
    let new : Session = record {
      username = username;
      created_at = now;
      ip = take 64 ip;
      user_agent = take 256 user_agent;
      last_seen = now;
    } in
    let opened = put sid new r.sessions in
    let capped : Registry = record r { sessions = enforce_cap r.max_per_user username opened } in
    let (bound, rest) =
      enforce_cap-count r.max_per_user username opened (IsDict-put sid new r.sessions hd) in
    let same = persist-sessions w sid capped in
    (
      subst (λ (d : Sessions). count (is_of username) d ≤ r.max_per_user) (sym same) bound,
      subst
          (λ (d : Sessions).
            (is_foreign username (get j r.sessions) ≡ false) ⊎ (get j d ≡ get j r.sessions))
          (sym same)
          (foreign_kept r.max_per_user username sid j new r.sessions fresh (rest j)
            (get j r.sessions) refl),
      IsSaved-persist w sid capped,
    )
