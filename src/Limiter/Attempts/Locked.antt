-- ===== src/Limiter/Attempts/Locked.antt =====
-- The lock of a pair stands under every call made before it ends, but a success of the pair.
use mc_admin.Base.{
  ℕ, ◌+◌, ◌≤◌, ◌<◌, ◌≡◌, true, false, Option, none, some, List, [], ◌∷◌, Text, arith, ltb,
  Bool-cases, Option-cases, inl, inr, subst,
}
use mc_admin.Base.Dict.{get, put, pop, text_Eq}
use mc_admin.Limiter.Keys.{
  Settings, PairKey, Library, pair_beq, pair_beq_iff, pair_Eq, token_Eq, text_Ordered, pair_Ordered,
}
use mc_admin.Limiter.Buckets.{Bucket, release_bucket, update, get_or_create}
use mc_admin.Limiter.Buckets.Laws.{until, until-put, until-drop_empty, locked_prepare}
use mc_admin.Limiter.Buckets.Sound.{until-get_or_create, get_or_create-get}
use mc_admin.Limiter.Buckets.Sweeping.{until-sweep}
use mc_admin.Limiter.Attempts.{
  Limiter, Lease, begin, admit, reserve, drop_both, seen, add_failure, clear_bucket, drop_lease,
  finish, after_release, release_lease, end_lease, expire, stale_tokens, sweep_both, cleanup_if_due,
  failure, success, cancel, ◌>>=◌,
}
use mc_admin.Limiter.Attempts.Balance.{IsBalanced, Returns, cleanup_if_due-IsBalanced}
use mc_admin.Limiter.Attempts.Calls.{
  Call, begin_call, failure_call, success_call, cancel_call, run, Reachable, called,
  Reachable-IsBalanced,
}

-- When a call is made.
unfoldable pub moment : Call → ℕ
moment (begin_call now client_ip username) = now
moment (failure_call now token) = now
moment (success_call now token) = now
moment (cancel_call now token) = now

module _ (c : Settings) (k : PairKey) (t : ℕ) where
  -- The pair is locked until a time, at least.
  abbrev pub IsLocked : Limiter → Type 0
  IsLocked s = t ≤ until k s.pair_buckets

  -- So it is if a call returns.
  abbrev pub Kept : Option Limiter → Type 0
  Kept none = Unit
  Kept (some s) = IsLocked s

  Kept-bind :
      (o : Option Limiter) (f : Limiter → Option Limiter)
      → Kept o
      → ((s : Limiter) → IsLocked s → Kept (f s))
      → Kept (o >>= f)
  Kept-bind none f h rest = tt
  Kept-bind (some s) f h rest = rest s h

  -- The change of a bucket, if it is the one of the pair, keeps the lock.
  Keeps : PairKey → (Bucket → Bucket) → Type 0
  Keeps j f = pair_beq k j ≡ true → (b : Bucket) → t ≤ b.blocked_until → t ≤ (f b).blocked_until

  Kept-update :
      (f g : Bucket → Bucket) (lease : Lease) (s : Limiter)
      → Keeps lease.pair_key f
      → IsLocked s
      → Kept (after_release f g lease s)
  unfolding after_release update Keeps
  Kept-update f g lease s keeps h = elim (Option-cases (get lease.pair_key s.pair_buckets)) [
    | inl absent ↦ rw (absent, Kept) tt
    | inr (b, found) ↦ elim (Option-cases (get lease.ip_key s.ip_buckets)) [
      | inl absent ↦ rw (found, absent, Kept) tt
      | inr (a, found') ↦
          rw (found, found', Kept)
            (elim (Bool-cases (pair_beq k lease.pair_key)) [
              | inl same ↦ ground (
                arith,
                until-put k lease.pair_key (f b) s.pair_buckets,
                keeps same b,
                pair_beq_iff k lease.pair_key,
                found,
                h,
                same,
              )
              | inr other ↦
                  ground (arith, until-put k lease.pair_key (f b) s.pair_buckets, h, other)
            ])
    ]
  ]

  Kept-release :
      (now : ℕ) (lease : Lease) (s : Limiter) → IsLocked s → Kept (release_lease now lease s)
  unfolding release_lease after_release release_bucket Keeps
  Kept-release now lease s h =
      Kept-update (release_bucket now) (release_bucket now) lease s (λ _ b locked. locked) h

  Kept-expire : (now : ℕ) (tokens : List ℕ) (s : Limiter) → IsLocked s → Kept (expire now tokens s)
  unfolding expire end_lease
  Kept-expire now [] s h = h
  Kept-expire now (token ∷ tokens) s h =
      Kept-bind (end_lease now token s) (expire now tokens) ended (Kept-expire now tokens)
    where
      ended : Kept (end_lease now token s)
      ended = elim (Option-cases (get token s.leases)) [
        | inl absent ↦ rw (absent, Kept) tt
        | inr (lease, found) ↦ rw (found, Kept) (Kept-release now lease _ h)
      ]

  pub Kept-cleanup_if_due :
      (now : ℕ) (s : Limiter) → now < t → IsLocked s → Kept (cleanup_if_due c now s)
  unfolding cleanup_if_due sweep_both
  Kept-cleanup_if_due now s early h =
      elim (Bool-cases (ltb now (s.last_cleanup + c.cleanup_interval_seconds))) [
        | inl soon ↦ rw (soon, Kept) h
        | inr due ↦ rw due (
            Kept-bind
              (expire now (stale_tokens c.lease_timeout_seconds now s.leases)
                (record s { last_cleanup = now }))
              (λ s'. some (sweep_both c now s')) (Kept-expire now _ _ h) swept)
      ]
    where
      swept : (s' : Limiter) → IsLocked s' → IsLocked (sweep_both c now s')
      swept s' h' =
          omega (
            arith,
            h',
            until-sweep c.window_seconds now k s'.pair_buckets (omega (arith, early, h')),
          )

  module _ (now : ℕ) (early : now < t) where
    Kept-reserve :
        (j : PairKey) (i : Text) (b a : Bucket) (s : Limiter)
        → get j s.pair_buckets ≡ some b
        → IsLocked s
        → IsLocked (reserve c now j i (seen c.window_seconds now b) a s).1
    unfolding reserve drop_both
    Kept-reserve j i b a s found h = ground (
      arith,
      until-put k j (seen c.window_seconds now b) s.pair_buckets,
      until-put k j
          (record (seen c.window_seconds now b) {
            in_flight = (seen c.window_seconds now b).in_flight + 1;
          })
          s.pair_buckets,
      until-drop_empty k j (put j (seen c.window_seconds now b) s.pair_buckets),
      locked_prepare c.window_seconds now b,
      pair_beq_iff k j,
      found,
      h,
      early,
    )

    Kept-drop_both :
        (j : PairKey) (i : Text) (s : Limiter) → IsLocked s → IsLocked (drop_both j i s)
    unfolding drop_both
    Kept-drop_both j i s h = omega (arith, until-drop_empty k j s.pair_buckets, h)

    Kept-admit :
        (j : PairKey) (i : Text) (s : Limiter)
        → IsBalanced c s
        → IsLocked s
        → IsLocked (admit c now j i s).1
    unfolding admit
    Kept-admit j i s balanced h =
        elim (Option-cases (get_or_create c.max_pair_keys now j s.pair_buckets).0) [
          | inl full ↦ rw (full, admit) (Kept-drop_both j i made looked)
          | inr (b, found) ↦
              elim (Option-cases (get_or_create c.max_ip_keys now i s.ip_buckets).0) [
                | inl full ↦ rw (found, full, admit) (Kept-drop_both j i made looked)
                | inr (a, other) ↦
                    rw (found, other, admit)
                      (Kept-reserve j i b _ made
                        (get_or_create-get c.max_pair_keys c.pair_max_failures now j s.pair_buckets
                          balanced.pair_sound found)
                        looked)
              ]
        ]
      where
        made : Limiter
        made = record s {
          pair_buckets = (get_or_create c.max_pair_keys now j s.pair_buckets).1;
          ip_buckets = (get_or_create c.max_ip_keys now i s.ip_buckets).1;
        }

        looked : IsLocked made
        looked = omega (
          arith,
          h,
          until-get_or_create c.max_pair_keys c.pair_max_failures now k j s.pair_buckets
              balanced.pair_sound (omega (arith, early, h)),
        )

    Kept-begin :
        (lib : Library) (client_ip username : Text) (s : Limiter)
        → IsBalanced c s
        → IsLocked s
        → Kept (begin lib c now client_ip username s >>= λ r. some r.1)
    unfolding begin
    Kept-begin lib client_ip username s balanced h = elim (Option-cases (cleanup_if_due c now s)) [
      | inl raised ↦ rw (raised, Kept) tt
      | inr (s', e) ↦
          rw (e, Kept)
            (Kept-admit _ _ s'
              (subst (Returns (IsBalanced c)) e (cleanup_if_due-IsBalanced c now s balanced))
              (subst Kept e (Kept-cleanup_if_due now s early h)))
    ]

  Kept-finish :
      (f g : Bucket → Bucket) (last : Lease → Limiter → Limiter) (now token : ℕ) (s : Limiter)
      → ((lease : Lease) → get token s.leases ≡ some lease → Keeps lease.pair_key f)
      → ((lease : Lease) (s : Limiter) → IsLocked s → IsLocked (last lease s))
      → IsLocked s
      → Kept (finish f g last now token s)
  unfolding finish
  Kept-finish f g last now token s keeps ends h = elim (Option-cases (get token s.leases)) [
    | inl unknown ↦ rw (unknown, Kept) h
    | inr (lease, found) ↦
        rw (found, Kept)
          (Kept-bind (release_lease now lease (record s { leases = pop token s.leases })) _
            (Kept-release now lease _ h)
            (λ s'. λ h'.
              Kept-bind (after_release f g lease s') _
                (Kept-update f g lease s' (keeps lease found) h') (ends lease)))
  ]

  Kept-drop_lease : (lease : Lease) (s : Limiter) → IsLocked s → IsLocked (drop_lease lease s)
  unfolding drop_lease drop_both
  Kept-drop_lease lease s h = omega (arith, until-drop_empty k lease.pair_key s.pair_buckets, h)

  lock_kept :
      (now limit lock window : ℕ) (b : Bucket)
      → now < t
      → t ≤ b.blocked_until
      → t ≤ (add_failure limit lock window now b).blocked_until
  unfolding add_failure
  lock_kept now limit lock window b early h =
      ground (arith, locked_prepare window now b (omega (arith, early, h)), h)

  -- The call is not the success of an attempt of the pair.
  abbrev pub IsForeign : Limiter → Call → Type 0
  IsForeign s (success_call now token) =
      (lease : Lease) → get token s.leases ≡ some lease → pair_beq k lease.pair_key ≡ false
  IsForeign s _ = Unit

  Kept-run :
      (lib : Library) (call : Call) (s : Limiter)
      → moment call < t
      → IsForeign s call
      → IsBalanced c s
      → IsLocked s
      → Kept (run lib c call s)
  unfolding run moment failure success cancel Keeps clear_bucket
  Kept-run lib (begin_call now client_ip username) s early foreign balanced h =
      Kept-begin now early lib client_ip username s balanced h
  Kept-run lib (failure_call now token) s early foreign balanced h =
      Kept-finish _ _ _ now token s
        (λ _ _ _ b locked.
          lock_kept now c.pair_max_failures c.pair_lock_seconds c.window_seconds b early locked)
        (λ _ _ h. h) h
  Kept-run lib (success_call now token) s early foreign balanced h =
      Kept-finish _ _ _ now token s
        (λ lease found same. absurd (ground (arith, same, foreign lease found))) Kept-drop_lease h
  Kept-run lib (cancel_call now token) s early foreign balanced h =
      Kept-finish _ _ _ now token s (λ _ _ _ b locked. locked) Kept-drop_lease h

  -- What the callers do before the lock ends: any calls, but a success of the pair.
  pub data Meanwhile (lib : Library) (s : Limiter) : Limiter → Type 0 where
    nothing : Meanwhile lib s s
    then :
        (call : Call) (s' s'' : Limiter)
        → Meanwhile lib s s'
        → moment call < t
        → IsForeign s' call
        → run lib c call s' ≡ some s''
        → Meanwhile lib s s''

  -- After such calls the lock stands, in a state that calls bring about.
  pub Meanwhile-IsLocked :
      (lib : Library) (s s' : Limiter)
      → Reachable lib c s
      → IsLocked s
      → Meanwhile lib s s'
      → Reachable lib c s' × IsLocked s'
  Meanwhile-IsLocked lib s s' before h nothing = (before, h)
  Meanwhile-IsLocked lib s s' before h (then call s1 _ calls early foreign e) =
      let (before', h') = Meanwhile-IsLocked lib s s1 before h calls in
      (
        called call s1 s' before' e,
        subst Kept e
            (Kept-run lib call s1 early foreign (Reachable-IsBalanced lib c s1 before') h'),
      )
