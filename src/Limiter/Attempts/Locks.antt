-- ===== src/Limiter/Attempts/Locks.antt =====
-- A pair that has failed too often is refused for as long as its lock lasts.
use mc_admin.Base.{
  ℕ, ◌+◌, ◌≤◌, ◌<◌, ◌≡◌, Option, none, some, [], ◌∷◌, Text, length, length-append, arith,
  Option-cases, inl, inr, ◌∙◌, sym, subst,
}
use mc_admin.Base.Dict.{get, put, text_Eq}
use mc_admin.Limiter.Buckets.Laws.{locked_prepare, until-put}
use mc_admin.Limiter.Attempts.Locked.{
  IsLocked, Kept, Kept-cleanup_if_due, Meanwhile, Meanwhile-IsLocked,
}
use mc_admin.Limiter.Keys.{
  normalize_ip, normalize_username, Library, pair_beq_iff, Settings, PairKey, pair_Eq, token_Eq,
  text_Ordered, pair_Ordered,
}
use mc_admin.Limiter.Buckets.{Bucket, release_bucket, prepare, get_or_create}
use mc_admin.Limiter.Attempts.{
  cleanup_if_due, begin, Limiter, Lease, admit, reserve, seen, add_failure, failure,
}
use mc_admin.Limiter.Attempts.Balance.{
  IsBalanced, Returns, cleanup_if_due-IsBalanced, lease-Buckets,
}
use mc_admin.Limiter.Attempts.Steps.{settled, finish-settled}
use mc_admin.Limiter.Attempts.Calls.{failure_call, called, run, Reachable, Reachable-IsBalanced}

reserve_locked :
    (c : Settings) (now : ℕ) (k : PairKey) (i : Text) (b a : Bucket) (s : Limiter)
    → now < b.blocked_until
    → (reserve c now k i (seen c.window_seconds now b) a s).0 ≡ none
unfolding reserve
reserve_locked c now k i b a s locked = ground (arith, locked_prepare c.window_seconds now b locked)

admit_locked :
    (c : Settings) (now : ℕ) (k : PairKey) (i : Text) (s : Limiter) (b : Bucket)
    → get k s.pair_buckets ≡ some b
    → now < b.blocked_until
    → (admit c now k i s).0 ≡ none
unfolding admit get_or_create
admit_locked c now k i s b found locked =
    elim (Option-cases (get_or_create c.max_ip_keys now i s.ip_buckets).0) [
      | inl full ↦ rw (found, full, admit)
      | inr (a, other) ↦ rw (found, other, admit) (reserve_locked c now k i b _ _ locked)
    ]

-- The pair that `begin` looks for.
abbrev pub pair_of : Library → Text → Text → PairKey
pair_of lib client_ip username = record {
  ip = normalize_ip lib client_ip;
  name = normalize_username lib username;
}

-- Reaching the limit sets the lock.
lock_add_failure :
    (limit lock window now : ℕ) (b : Bucket)
    → limit ≤ length (prepare window now b).failures + 1
    → now + lock ≤ (add_failure limit lock window now b).blocked_until
unfolding add_failure
lock_add_failure limit lock window now b reached =
    ground (arith, length-append (prepare window now b).failures (now ∷ []))

-- A call of `begin` returns, and admits nothing.
abbrev pub Refuses : Option (Option ℕ × Limiter) → Type 0
Refuses none = ⊥
Refuses (some r) = r.0 ≡ none

module _ (lib : Library) (c : Settings) where
  locked_found :
      (k : PairKey) (i : Text) (now t : ℕ) (s : Limiter)
      → now < t
      → IsLocked c k t s
      → (admit c now k i s).0 ≡ none
  locked_found k i now t s early h = elim (Option-cases (get k s.pair_buckets)) [
    | inl absent ↦ absurd (ground (arith, absent, h, early))
    | inr (b, found) ↦ admit_locked c now k i s b found (ground (arith, found, h, early))
  ]

  begin_locked :
      (now t : ℕ) (client_ip username : Text) (s : Limiter)
      → now < t
      → Reachable lib c s
      → IsLocked c (pair_of lib client_ip username) t s
      → Refuses (begin lib c now client_ip username s)
  unfolding begin
  begin_locked now t client_ip username s early before h =
      let balanced = Reachable-IsBalanced lib c s before in
      elim (Option-cases (cleanup_if_due c now s)) [
        | inl raised ↦
            absurd
              (subst (Returns (IsBalanced c)) raised (cleanup_if_due-IsBalanced c now s balanced))
        | inr (s', e) ↦
            rw (e, Refuses)
              (locked_found (pair_of lib client_ip username) (normalize_ip lib client_ip) now t s'
                early
                (subst (Kept c (pair_of lib client_ip username) t) e
                  (Kept-cleanup_if_due c (pair_of lib client_ip username) t now s early h)))
      ]

  module _ (s s' : Limiter) (token now : ℕ) (lease : Lease) (b : Bucket)
      (before : Reachable lib c s) (live : get token s.leases ≡ some lease)
      (found : get lease.pair_key s.pair_buckets ≡ some b)
      (reached : c.pair_max_failures
        ≤ length (prepare c.window_seconds now (release_bucket now b)).failures + 1)
      (failed : failure c now token s ≡ some s') where
    failure-IsLocked : IsLocked c lease.pair_key (now + c.pair_lock_seconds) s'
    unfolding failure
    failure-IsLocked =
        let h = Reachable-IsBalanced lib c s before in
        let bs = lease-Buckets c s h token lease live in
        let same : some bs.pair ≡ some b = sym bs.pair_found ∙ found in
        let f = add_failure c.pair_max_failures c.pair_lock_seconds c.window_seconds now in
        let g = add_failure c.ip_max_failures c.ip_lock_seconds c.window_seconds now in
        let left : some s' ≡ some (settled c f g now token s lease bs) =
          sym failed ∙ finish-settled c f g (λ _ t. t) now token s lease live bs in
        let locked =
          lock_add_failure c.pair_max_failures c.pair_lock_seconds c.window_seconds now
            (release_bucket now b) reached in
        let at_end : s' ≡ settled c f g now token s lease bs = cc left in
        let one : b ≡ bs.pair = cc same in
        let now_locked : now + c.pair_lock_seconds
            ≤ (f (release_bucket now bs.pair)).blocked_until =
          subst
            (λ (x : Bucket). now + c.pair_lock_seconds ≤ (f (release_bucket now x)).blocked_until)
            one locked in
        subst (IsLocked c lease.pair_key (now + c.pair_lock_seconds)) (sym at_end) (
          ground (
            arith,
            until-put lease.pair_key lease.pair_key (f (release_bucket now bs.pair))
                (put lease.pair_key (release_bucket now bs.pair) s.pair_buckets),
            pair_beq_iff lease.pair_key lease.pair_key,
            now_locked,
          ))

    -- An attempt fails and is at least the last one that its pair may fail. Then, whatever calls are
    -- made until the lock of the pair ends, if none of them is the success of another attempt of the
    -- pair, `begin` returns for the pair and admits no attempt, as long as the lock lasts.
    pub failed_pair_refused :
        (s'' : Limiter) (later : ℕ) (client_ip username : Text)
        → Meanwhile c lease.pair_key (now + c.pair_lock_seconds) lib s' s''
        → later < now + c.pair_lock_seconds
        → pair_of lib client_ip username ≡ lease.pair_key
        → Refuses (begin lib c later client_ip username s'')
    unfolding run
    failed_pair_refused s'' later client_ip username calls early same =
        let (before'', h) =
          Meanwhile-IsLocked c lease.pair_key (now + c.pair_lock_seconds) lib s' s''
            (called (failure_call now token) s s' before failed) failure-IsLocked calls in
        begin_locked later (now + c.pair_lock_seconds) client_ip username s'' early before''
          (subst (λ (k : PairKey). IsLocked c k (now + c.pair_lock_seconds) s'') (sym same) h)
