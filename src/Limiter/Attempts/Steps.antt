-- ===== src/Limiter/Attempts/Steps.antt =====
-- Every method of the limiter returns, without a `KeyError`, and keeps its balance.
use mc_admin.Base.{
  ℕ, ◌+◌, ◌≤◌, ◌<◌, ◌≡◌, refl, ◌||◌, Option, none, some, [], ◌∷◌, Text, arith, ltb, Bool-cases,
  Option-cases, inl, inr, ◌∙◌, text_eq_iff, ==_iff, all, subst, length-append,
}
use mc_admin.Base.Dict.{Dict, get, put, pop, get-put, IsDict-put, count, count-put_new, text_Eq}
use mc_admin.Limiter.Keys.{
  Settings, PairKey, Library, pair_Eq, pair_beq_iff, token_Eq, text_Ordered, pair_Ordered,
}
use mc_admin.Limiter.Buckets.{Bucket, prepare, get_or_create, release_bucket, update}
use mc_admin.Limiter.Buckets.Laws.{
  load, flight, flight-put, load-prepare, in_flight-prepare, flight-drop_empty,
}
use mc_admin.Limiter.Buckets.Sound.{
  IsSound, put-IsSound, drop_empty-IsSound, get_or_create-IsSound, flight-get_or_create,
  get_or_create-get,
}
use mc_admin.Limiter.Buckets.Releasing.{settled-IsSound, flight-settled}
use mc_admin.Limiter.Attempts.{
  Lease, Limiter, create, release_lease, after_release, finish, begin, admit, reserve, drop_both,
  at_limit, seen, failure, success, cancel, add_failure, clear_bucket, drop_lease, ◌>>=◌,
}
use mc_admin.Limiter.Attempts.Balance.{
  IsBalanced, of_pair, of_ip, Returns, cleanup_if_due-IsBalanced, lease-Buckets, Buckets,
  popped-IsBalanced,
}

module _ (c : Settings) where
  drop_both-IsBalanced :
      (k : PairKey) (i : Text) (s : Limiter) → IsBalanced c s → IsBalanced c (drop_both k i s)
  unfolding drop_both
  drop_both-IsBalanced k i s h = record {
    tokens = h.tokens;
    unused = h.unused;
    pairs = λ j. flight-drop_empty j k s.pair_buckets ∙ h.pairs j;
    ips = λ j. flight-drop_empty j i s.ip_buckets ∙ h.ips j;
    pair_sound =
        drop_empty-IsSound c.max_pair_keys c.pair_max_failures k s.pair_buckets h.pair_sound;
    ip_sound = drop_empty-IsSound c.max_ip_keys c.ip_max_failures i s.ip_buckets h.ip_sound;
  }

  Each : (Limiter → Type 0) → Option Limiter → Type 0
  Each P none = Unit
  Each P (some s) = P s

  new_IsBalanced :
      IsBalanced c (record {
        pair_buckets = [];
        ip_buckets = [];
        leases = [];
        next_token = 1;
        last_cleanup = 0;
      })
  unfolding get count
  new_IsBalanced = record {
    tokens = tt;
    unused = λ t le. refl;
    pairs = λ k. refl;
    ips = λ k. refl;
    pair_sound = record { distinct = tt; few = omega arith; fits = λ k. tt };
    ip_sound = record { distinct = tt; few = omega arith; fits = λ k. tt };
  }

  pub create-IsBalanced : (s : Limiter) → create c ≡ some s → IsBalanced c s
  unfolding create Each
  create-IsBalanced s h =
      let arguments =
        c.pair_max_failures ∷ c.ip_max_failures ∷ c.window_seconds ∷ c.pair_lock_seconds
        ∷ c.ip_lock_seconds ∷ c.max_pair_keys ∷ c.max_ip_keys ∷ c.lease_timeout_seconds ∷ [] in
      elim (Bool-cases (all (ltb 0) arguments)) [
        | inl positive ↦ subst (Each (IsBalanced c)) (rw positive at h) new_IsBalanced
        | inr refused ↦ let q : none ≡ some s = rw refused at h in absurd (ground (arith, q))
      ]

  -- Other buckets with the same attempts in flight.
  rebucketed-IsBalanced :
      (pairs : Dict PairKey Bucket) (ips : Dict Text Bucket) (s : Limiter)
      → ((j : PairKey) → flight j pairs ≡ flight j s.pair_buckets)
      → ((j : Text) → flight j ips ≡ flight j s.ip_buckets)
      → IsSound c.max_pair_keys c.pair_max_failures pairs
      → IsSound c.max_ip_keys c.ip_max_failures ips
      → IsBalanced c s
      → IsBalanced c (record s { pair_buckets = pairs; ip_buckets = ips })
  rebucketed-IsBalanced pairs ips s p q ps is h = record {
    tokens = h.tokens;
    unused = h.unused;
    pairs = λ j. p j ∙ h.pairs j;
    ips = λ j. q j ∙ h.ips j;
    pair_sound = ps;
    ip_sound = is;
  }

  module _ (now : ℕ) (k : PairKey) (i : Text) (s : Limiter) (b a : Bucket)
      (found : get k s.pair_buckets ≡ some b) (found' : get i s.ip_buckets ≡ some a) where
    -- The state as `begin` has looked at the two buckets.
    looked-IsBalanced :
        (b' a' : Bucket)
        → b'.in_flight ≡ b.in_flight
        → a'.in_flight ≡ a.in_flight
        → load b' ≤ c.pair_max_failures
        → load a' ≤ c.ip_max_failures
        → IsBalanced c s
        → IsBalanced c (record s {
          pair_buckets = put k b' s.pair_buckets;
          ip_buckets = put i a' s.ip_buckets;
        })
    looked-IsBalanced b' a' e e' small small' h =
        rebucketed-IsBalanced _ _ s
          (λ j. ground (arith, flight-put j k b' s.pair_buckets, pair_beq_iff j k, found))
          (λ j. ground (arith, flight-put j i a' s.ip_buckets, text_eq_iff j i, found'))
          (put-IsSound c.max_pair_keys c.pair_max_failures k b b' s.pair_buckets found small
            h.pair_sound)
          (put-IsSound c.max_ip_keys c.ip_max_failures i a a' s.ip_buckets found' small' h.ip_sound)
          h

    reserved-IsBalanced :
        (b' a' : Bucket)
        → b'.in_flight ≡ b.in_flight + 1
        → a'.in_flight ≡ a.in_flight + 1
        → load b' ≤ c.pair_max_failures
        → load a' ≤ c.ip_max_failures
        → IsBalanced c s
        → IsBalanced c (record s {
          pair_buckets = put k b' s.pair_buckets;
          ip_buckets = put i a' s.ip_buckets;
          leases =
              put s.next_token (record { pair_key = k; ip_key = i; started_at = now }) s.leases;
          next_token = s.next_token + 1;
        })
    reserved-IsBalanced b' a' e e' small small' h =
        let lease : Lease = record { pair_key = k; ip_key = i; started_at = now } in
        let fresh = h.unused s.next_token (omega arith) in
        record {
          tokens = IsDict-put s.next_token lease s.leases h.tokens;
          unused = λ t le. ground (
            arith,
            get-put t s.next_token lease s.leases,
            ==_iff t s.next_token,
            h.unused t (omega (arith, le)),
          );
          pairs = λ j. ground (
            arith,
            flight-put j k b' s.pair_buckets,
            pair_beq_iff j k,
            found,
            h.pairs j,
            count-put_new (of_pair j) s.next_token lease s.leases fresh,
          );
          ips = λ j. ground (
            arith,
            flight-put j i a' s.ip_buckets,
            text_eq_iff j i,
            found',
            h.ips j,
            count-put_new (of_ip j) s.next_token lease s.leases fresh,
          );
          pair_sound =
              put-IsSound c.max_pair_keys c.pair_max_failures k b b' s.pair_buckets found small
                h.pair_sound;
          ip_sound =
              put-IsSound c.max_ip_keys c.ip_max_failures i a a' s.ip_buckets found' small'
                h.ip_sound;
        }

    pair_load : (window : ℕ) → IsBalanced c s → load (prepare window now b) ≤ c.pair_max_failures
    pair_load window h =
        let q : load b ≤ c.pair_max_failures = rw found at (h.pair_sound.fits k) in
        omega (arith, load-prepare window now b, q)

    ip_load : (window : ℕ) → IsBalanced c s → load (prepare window now a) ≤ c.ip_max_failures
    ip_load window h =
        let q : load a ≤ c.ip_max_failures = rw found' at (h.ip_sound.fits i) in
        omega (arith, load-prepare window now a, q)

    reserve-IsBalanced :
        (window : ℕ)
        → IsBalanced c s
        → IsBalanced c (reserve c now k i (seen window now b) (seen window now a) s).1
    unfolding reserve at_limit
    reserve-IsBalanced window h =
        let b' = seen window now b in
        let a' = seen window now a in
        let e = in_flight-prepare window now b in
        let e' = in_flight-prepare window now a in
        let locked = ltb now b'.blocked_until || ltb now a'.blocked_until in
        let full = at_limit c.pair_max_failures b' || at_limit c.ip_max_failures a' in
        elim (Bool-cases (locked || full)) [
          | inl refused ↦ rw refused (
              drop_both-IsBalanced k i _
                (looked-IsBalanced b' a' e e' (pair_load window h) (ip_load window h) h))
          | inr free ↦ rw free (
              reserved-IsBalanced _ _ (omega (arith, e)) (omega (arith, e')) (ground (arith, free))
                (ground (arith, free)) h)
        ]

  admit-IsBalanced :
      (now : ℕ) (k : PairKey) (i : Text) (s : Limiter)
      → IsBalanced c s
      → IsBalanced c (admit c now k i s).1
  unfolding admit
  admit-IsBalanced now k i s h =
      let pair = get_or_create c.max_pair_keys now k s.pair_buckets in
      let ip = get_or_create c.max_ip_keys now i s.ip_buckets in
      let made =
        rebucketed-IsBalanced pair.1 ip.1 s
          (λ j.
            flight-get_or_create c.max_pair_keys c.pair_max_failures now j k s.pair_buckets
              h.pair_sound)
          (λ j.
            flight-get_or_create c.max_ip_keys c.ip_max_failures now j i s.ip_buckets h.ip_sound)
          (get_or_create-IsSound c.max_pair_keys c.pair_max_failures now k s.pair_buckets
            h.pair_sound)
          (get_or_create-IsSound c.max_ip_keys c.ip_max_failures now i s.ip_buckets h.ip_sound) h in
      elim (Option-cases pair.0) [
        | inl full ↦ rw (full, admit) (drop_both-IsBalanced k i _ made)
        | inr (b, found) ↦ elim (Option-cases ip.0) [
          | inl full ↦ rw (found, full, admit) (drop_both-IsBalanced k i _ made)
          | inr (a, found') ↦
              rw (found, found', admit)
                (reserve-IsBalanced now k i _ b a
                  (get_or_create-get c.max_pair_keys c.pair_max_failures now k s.pair_buckets
                    h.pair_sound found)
                  (get_or_create-get c.max_ip_keys c.ip_max_failures now i s.ip_buckets h.ip_sound
                    found')
                  c.window_seconds made)
        ]
      ]

  -- `begin` returns, and its state is balanced.
  unfoldable pub Begun : Option (Option ℕ × Limiter) → Type 0
  Begun none = ⊥
  Begun (some r) = IsBalanced c r.1

  Begun-some :
      (f : Limiter → Option ℕ × Limiter) (o : Option Limiter)
      → ((s : Limiter) → IsBalanced c s → IsBalanced c (f s).1)
      → Returns (IsBalanced c) o
      → Begun (o >>= λ s. some (f s))
  unfolding Begun
  Begun-some f none keep h = absurd h
  Begun-some f (some s) keep h = keep s h

  pub begin-Begun :
      (lib : Library) (now : ℕ) (client_ip username : Text) (s : Limiter)
      → IsBalanced c s
      → Begun (begin lib c now client_ip username s)
  unfolding begin
  begin-Begun lib now client_ip username s h =
      Begun-some (admit c now _ _) _ (admit-IsBalanced now _ _)
        (cleanup_if_due-IsBalanced c now s h)

  -- The state after the two buckets of a lease have been released and changed.
  abbrev pub settled :
      (f g : Bucket → Bucket) (now token : ℕ) (s : Limiter) (lease : Lease)
      → Buckets s lease
      → Limiter
  settled f g now token s lease b = record s {
    pair_buckets =
        put lease.pair_key (f (release_bucket now b.pair))
          (put lease.pair_key (release_bucket now b.pair) s.pair_buckets);
    ip_buckets =
        put lease.ip_key (g (release_bucket now b.ip))
          (put lease.ip_key (release_bucket now b.ip) s.ip_buckets);
    leases = pop token s.leases;
  }

  pub finish-settled :
      (f g : Bucket → Bucket) (last : Lease → Limiter → Limiter) (now token : ℕ) (s : Limiter)
      (lease : Lease)
      → get token s.leases ≡ some lease
      → (b : Buckets s lease)
      → finish f g last now token s ≡ some (last lease (settled f g now token s lease b))
  unfolding finish after_release release_lease update
  finish-settled f g last now token s lease live b = rw (
    finish,
    live,
    release_lease,
    update,
    b.pair_found,
    b.ip_found,
    after_release,
    get-put lease.pair_key lease.pair_key (release_bucket now b.pair) s.pair_buckets,
    (pair_beq_iff lease.pair_key lease.pair_key).1 refl,
    get-put lease.ip_key lease.ip_key (release_bucket now b.ip) s.ip_buckets,
    (text_eq_iff lease.ip_key lease.ip_key).1 refl,
  )

  -- The common end of a lease, for changes of its buckets that keep the attempts in flight.
  module _ (f g : Bucket → Bucket) (last : Lease → Limiter → Limiter) (now : ℕ)
      (f_keeps : (b : Bucket) → (f b).in_flight ≡ b.in_flight)
      (g_keeps : (b : Bucket) → (g b).in_flight ≡ b.in_flight)
      (f_fits : (b : Bucket) → 0 < b.in_flight → load (f (release_bucket now b)) ≤ load b)
      (g_fits : (b : Bucket) → 0 < b.in_flight → load (g (release_bucket now b)) ≤ load b)
      (last_keeps : (lease : Lease) (s : Limiter)
        → IsBalanced c s
        → IsBalanced c (last lease s)) where
    settled-IsBalanced :
        (token : ℕ) (s : Limiter) (lease : Lease)
        → IsBalanced c s
        → get token s.leases ≡ some lease
        → (b : Buckets s lease) → IsBalanced c (settled f g now token s lease b)
    settled-IsBalanced token s lease h live b =
        popped-IsBalanced c s h token lease live _ _
          (flight-settled c.max_pair_keys c.pair_max_failures now lease.pair_key b.pair
            s.pair_buckets b.pair_found f f_keeps)
          (flight-settled c.max_ip_keys c.ip_max_failures now lease.ip_key b.ip s.ip_buckets
            b.ip_found g g_keeps)
          (settled-IsSound c.max_pair_keys c.pair_max_failures now lease.pair_key b.pair
            s.pair_buckets b.pair_found f f_keeps (f_fits b.pair b.pair_busy) h.pair_sound)
          (settled-IsSound c.max_ip_keys c.ip_max_failures now lease.ip_key b.ip s.ip_buckets
            b.ip_found g g_keeps (g_fits b.ip b.ip_busy) h.ip_sound)

    finish-IsBalanced :
        (token : ℕ) (s : Limiter)
        → IsBalanced c s
        → Returns (IsBalanced c) (finish f g last now token s)
    unfolding finish
    finish-IsBalanced token s h = elim (Option-cases (get token s.leases)) [
      | inl unknown ↦ rw (unknown, finish) h
      | inr (lease, live) ↦
          let b = lease-Buckets c s h token lease live in
          rw (finish-settled f g last now token s lease live b)
            (last_keeps lease _ (settled-IsBalanced token s lease h live b))
    ]

  pub cancel-IsBalanced :
      (now token : ℕ) (s : Limiter) → IsBalanced c s → Returns (IsBalanced c) (cancel now token s)
  unfolding cancel drop_lease release_bucket
  cancel-IsBalanced now =
      finish-IsBalanced (λ b. b) (λ b. b) drop_lease now (λ b. refl) (λ b. refl)
        (λ b busy. omega arith) (λ b busy. omega arith)
        (λ lease. drop_both-IsBalanced lease.pair_key lease.ip_key)

  pub success-IsBalanced :
      (now token : ℕ) (s : Limiter)
      → IsBalanced c s
      → Returns (IsBalanced c) (success c now token s)
  unfolding success drop_lease release_bucket clear_bucket
  success-IsBalanced now =
      finish-IsBalanced clear_bucket (prepare c.window_seconds now) drop_lease now (λ b. refl)
        (in_flight-prepare c.window_seconds now) (λ b busy. omega arith)
        (λ b busy. omega (arith, load-prepare c.window_seconds now (release_bucket now b)))
        (λ lease. drop_both-IsBalanced lease.pair_key lease.ip_key)

  -- A failure takes the place of the attempt in flight.
  load-add_failure :
      (limit lock window now : ℕ) (b : Bucket)
      → 0 < b.in_flight
      → load (add_failure limit lock window now (release_bucket now b)) ≤ load b
  unfolding add_failure release_bucket
  load-add_failure limit lock window now b busy =
      let r = release_bucket now b in
      ground (
        arith,
        load-prepare window now r,
        in_flight-prepare window now r,
        length-append (prepare window now r).failures (now ∷ []),
      )

  in_flight-add_failure :
      (limit lock window now : ℕ) (b : Bucket)
      → (add_failure limit lock window now b).in_flight ≡ b.in_flight
  unfolding add_failure
  in_flight-add_failure limit lock window now b = ground (arith, in_flight-prepare window now b)

  pub failure-IsBalanced :
      (now token : ℕ) (s : Limiter)
      → IsBalanced c s
      → Returns (IsBalanced c) (failure c now token s)
  unfolding failure
  failure-IsBalanced now =
      finish-IsBalanced _ _ (λ _ s. s) now
        (in_flight-add_failure c.pair_max_failures c.pair_lock_seconds c.window_seconds now)
        (in_flight-add_failure c.ip_max_failures c.ip_lock_seconds c.window_seconds now)
        (load-add_failure c.pair_max_failures c.pair_lock_seconds c.window_seconds now)
        (load-add_failure c.ip_max_failures c.ip_lock_seconds c.window_seconds now) (λ lease s h. h)
