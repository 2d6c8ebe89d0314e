-- ===== src/Tests/Sessions.antt =====
-- Two sessions of Bob and one of Ann.
use mc_admin.Base.{ℕ, codes, Text, false, some, [], ◌∷◌, ◌≡◌, ◌⊎◌, refl, arith, ◌≤◌, text_eq}
use mc_admin.Base.Files.{completed, unchanged}
use mc_admin.Base.Dict.{get, put, pop, text_Eq, count, IsDict}
use mc_admin.Sessions.{
  Session, Sessions, Registry, is_of, is_valid, register, revoke, revoke_others, enforce_cap, owned,
  by_age, pop_all, persist, list_for,
}
use mc_admin.Sessions.Lists.{target}
use mc_admin.Sessions.Revoking.{IsSaved, IsSavedIfAny, left_of, revoke_others-Exact}
use mc_admin.Sessions.Capping.{is_foreign, register-Capped}
use mc_admin.Sessions.Loading.{load, dump, alive, load-dump, revoke-Gone}

abbrev session : Text → ℕ → Session
session username created_at = record {
  username = username;
  created_at = created_at;
  ip = codes "::1";
  user_agent = codes "Firefox";
  last_seen = created_at;
}

abbrev bob : Text
bob = codes "bob"

abbrev ann : Text
ann = codes "ann"

abbrev three : Sessions
three =
    (codes "s1", session bob 20)
    ∷ ((codes "s2", session ann 5) ∷ ((codes "s3", session bob 10) ∷ []))

abbrev registry : Registry
registry = record { ttl = 100; max_per_user = 2; sessions = three; saved = three }

three-IsDict : IsDict three
unfolding get text_eq
three-IsDict = (refl, (refl, (refl, tt)))

-- The oldest session of Bob makes room.
oldest_goes :
    (register completed (codes "s4") 30 bob (codes "::1") (codes "Opera") registry).1.sessions
    ≡ (codes "s1", session bob 20)
      ∷ ((codes "s2", session ann 5)
          ∷ ((codes "s4", record (session bob 30) { user_agent = codes "Opera" }) ∷ []))
unfolding register enforce_cap owned by_age pop_all persist is_of put pop text_eq
oldest_goes = refl

latest_first :
    list_for bob registry ≡ (codes "s1", session bob 20) ∷ ((codes "s3", session bob 10) ∷ [])
unfolding list_for owned is_of text_eq
latest_first = refl

revoke_others-Exact_example :
    (get (codes "s3") (revoke_others unchanged (codes "s1") bob registry).1.sessions
      ≡ left_of
          (target (codes "s1") bob (codes "s3") (get (codes "s3") three))
          (get (codes "s3") three))
    × IsSavedIfAny registry (revoke_others unchanged (codes "s1") bob registry)
revoke_others-Exact_example =
    revoke_others-Exact unchanged (codes "s1") bob registry (codes "s3") three-IsDict

register-Capped_example :
    let after = register completed (codes "s4") 30 bob (codes "::1") (codes "Opera") registry in
    (count (is_of bob) after.1.sessions ≤ 2)
    × ((is_foreign bob (get (codes "s2") three) ≡ false)
        ⊎ (get (codes "s2") after.1.sessions ≡ get (codes "s2") three))
    × IsSaved after
unfolding get text_eq
register-Capped_example =
    register-Capped completed (codes "s4") 30 bob (codes "::1") (codes "Opera") registry
      (codes "s2") three-IsDict refl

load-dump_example : load 100 110 (dump three) ≡ alive 100 110 three
load-dump_example = load-dump 100 110 three (
  (omega arith, omega arith, omega arith),
  ((omega arith, omega arith, omega arith), ((omega arith, omega arith, omega arith), tt)),
)

revoke-Gone_example :
    let after = (revoke completed (codes "s1") bob registry).1 in
    let restarted = record after { sessions = load after.ttl 40 (dump after.saved) } in
    (is_valid completed 50 (codes "s1") bob after ≡ (some false, after))
    × (is_valid completed 50 (codes "s1") bob restarted ≡ (some false, restarted))
unfolding revoke persist is_of get text_eq
revoke-Gone_example = revoke-Gone completed completed (codes "s1") bob bob 40 50 registry refl
