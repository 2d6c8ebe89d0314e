-- ===== src/Limiter/Attempts/Balance.antt =====
-- The invariant of the limiter: each bucket counts exactly the leases of its key, and stays
-- within its budget; and the steps that end leases keep it.
use mc_admin.Base.{
  ℕ, ◌+◌, ◌-◌, ◌≤◌, ◌<◌, ◌≡◌, refl, Bool, Option, none, some, List, [], ◌∷◌, Text, arith, leb, ltb,
  if◌then◌else◌, ==_iff, ◌==◌, Bool-cases, subst, inl, inr, ◌∙◌, ap, sym,
}
use mc_admin.Base.Dict.{
  Dict, get, put, pop, get-pop, IsDict, IsDict-pop, count, count-pop, pop-none, text_Eq,
}
use mc_admin.Limiter.Keys.{
  Settings, PairKey, pair_beq, pair_Eq, pair_beq_iff, token_Eq, text_Ordered, pair_Ordered,
}
use mc_admin.Base.{text_eq, text_eq_iff}
use mc_admin.Limiter.Buckets.{Bucket, release_bucket, update}
use mc_admin.Limiter.Buckets.Laws.{flight}
use mc_admin.Limiter.Buckets.Sound.{IsSound, sweep-IsSound}
use mc_admin.Limiter.Buckets.Sweeping.{flight_pos, flight-sweep}
use mc_admin.Limiter.Buckets.Releasing.{release-IsSound, flight-release}
use mc_admin.Limiter.Attempts.{
  Lease, Limiter, ◌>>=◌, sweep_both, cleanup_if_due, release_lease, end_lease, expire, stale_tokens,
}

abbrev pub of_pair : PairKey → Lease → Bool
of_pair k lease = pair_beq k lease.pair_key

abbrev pub of_ip : Text → Lease → Bool
of_ip k lease = text_eq k lease.ip_key

pub record IsBalanced (c : Settings) (s : Limiter) : Type 0 where
  pub tokens : IsDict s.leases
  pub unused : (t : ℕ) → s.next_token ≤ t → get t s.leases ≡ none
  pub pairs : (k : PairKey) → flight k s.pair_buckets ≡ count (of_pair k) s.leases
  pub ips : (k : Text) → flight k s.ip_buckets ≡ count (of_ip k) s.leases
  pub pair_sound : IsSound c.max_pair_keys c.pair_max_failures s.pair_buckets
  pub ip_sound : IsSound c.max_ip_keys c.ip_max_failures s.ip_buckets

-- The buckets of a lease, both with an attempt in flight.
pub record Buckets (s : Limiter) (lease : Lease) : Type 0 where
  pub pair : Bucket
  pub ip : Bucket
  pub pair_found : get lease.pair_key s.pair_buckets ≡ some pair
  pub ip_found : get lease.ip_key s.ip_buckets ≡ some ip
  pub pair_busy : 0 < pair.in_flight
  pub ip_busy : 0 < ip.in_flight

module _ (c : Settings) (s : Limiter) (h : IsBalanced c s) (token : ℕ) (lease : Lease)
    (live : get token s.leases ≡ some lease) where
  pub lease-Buckets : Buckets s lease
  lease-Buckets =
      let p =
        flight_pos lease.pair_key s.pair_buckets
          (count (of_pair lease.pair_key) (pop token s.leases))
          (h.pairs lease.pair_key
            ∙ count-pop (of_pair lease.pair_key) token lease s.leases h.tokens live
            ∙ ap
                (λ (b : Bool).
                  count (of_pair lease.pair_key) (pop token s.leases) + (if b then 1 else 0))
                ((pair_beq_iff lease.pair_key lease.pair_key).1 refl)) in
      let q =
        flight_pos lease.ip_key s.ip_buckets (count (of_ip lease.ip_key) (pop token s.leases)) (
          h.ips lease.ip_key
          ∙ count-pop (of_ip lease.ip_key) token lease s.leases h.tokens live
          ∙ ap
              (λ (b : Bool). count (of_ip lease.ip_key) (pop token s.leases) + (if b then 1 else 0))
              ((text_eq_iff lease.ip_key lease.ip_key).1 refl)) in
      record {
        pair = p.0;
        ip = q.0;
        pair_found = p.1;
        ip_found = q.1;
        pair_busy = omega (arith, p.2);
        ip_busy = omega (arith, q.2);
      }

  -- Popping the lease and taking one attempt from each of its buckets keeps the balance.
  pub popped-IsBalanced :
      (pairs : Dict PairKey Bucket) (ips : Dict Text Bucket)
      → ((j : PairKey)
          → flight j pairs ≡ flight j s.pair_buckets - (if pair_beq j lease.pair_key then 1 else 0))
      → ((j : Text)
          → flight j ips ≡ flight j s.ip_buckets - (if text_eq j lease.ip_key then 1 else 0))
      → IsSound c.max_pair_keys c.pair_max_failures pairs
      → IsSound c.max_ip_keys c.ip_max_failures ips
      → IsBalanced c
          (record s { pair_buckets = pairs; ip_buckets = ips; leases = pop token s.leases })
  popped-IsBalanced pairs ips p q ps is = record {
    tokens = IsDict-pop token s.leases h.tokens;
    unused = λ t le. ground (arith, get-pop t token s.leases, h.unused t le);
    pairs = λ k.
        omega (arith, p k, h.pairs k, count-pop (of_pair k) token lease s.leases h.tokens live);
    ips = λ k. omega (arith, q k, h.ips k, count-pop (of_ip k) token lease s.leases h.tokens live);
    pair_sound = ps;
    ip_sound = is;
  }

  abbrev ended : ℕ → Buckets s lease → Limiter
  ended now b = record s {
    pair_buckets = put lease.pair_key (release_bucket now b.pair) s.pair_buckets;
    ip_buckets = put lease.ip_key (release_bucket now b.ip) s.ip_buckets;
    leases = pop token s.leases;
  }

  end_lease-ended : (now : ℕ) (b : Buckets s lease) → end_lease now token s ≡ some (ended now b)
  unfolding end_lease release_lease update
  end_lease-ended now b = ground (arith, live, b.pair_found, b.ip_found)

  ended-IsBalanced : (now : ℕ) (b : Buckets s lease) → IsBalanced c (ended now b)
  ended-IsBalanced now b =
      popped-IsBalanced _ _
        (flight-release c.max_pair_keys c.pair_max_failures now lease.pair_key b.pair s.pair_buckets
          b.pair_found)
        (flight-release c.max_ip_keys c.ip_max_failures now lease.ip_key b.ip s.ip_buckets
          b.ip_found)
        (release-IsSound c.max_pair_keys c.pair_max_failures now lease.pair_key b.pair
          s.pair_buckets b.pair_found h.pair_sound)
        (release-IsSound c.max_ip_keys c.ip_max_failures now lease.ip_key b.ip s.ip_buckets
          b.ip_found h.ip_sound)

-- What a step that can raise gives: no `KeyError`, and a limiter with a property.
abbrev pub Returns : (Limiter → Type 0) → Option Limiter → Type 0
Returns P none = ⊥
Returns P (some s) = P s

module _ (c : Settings) (now : ℕ) where
  -- Each of the tokens is live, whichever have been popped before it.
  AllLive : List ℕ → Dict ℕ Lease → Type 0
  AllLive [] d = Unit
  AllLive (t ∷ ts) d = ((lease : Lease) × (get t d ≡ some lease)) × AllLive ts (pop t d)

  -- A live token is not the one that the dict does not have.
  cons_live :
      (u t : ℕ) (lease found : Lease) (d : Dict ℕ Lease)
      → get t d ≡ none
      → get u d ≡ some found
      → (get u ((t, lease) ∷ d) ≡ some found) × (pop u ((t, lease) ∷ d) ≡ (t, lease) ∷ pop u d)
  unfolding get pop
  cons_live u t lease found d fresh live = elim (Bool-cases (u == t)) [
    | inl same ↦ absurd (clash ((==_iff u t).0 same))
    | inr other ↦ rw (other, live) (refl, refl)
  ]
    where
      clash : u ≡ t → ⊥
      clash e =
          let q : none ≡ some found = sym fresh ∙ ap (λ x. get x d) (sym e) ∙ live in ground arith

  AllLive-cons :
      (ts : List ℕ) (t : ℕ) (lease : Lease) (d : Dict ℕ Lease)
      → get t d ≡ none
      → AllLive ts d
      → AllLive ts ((t, lease) ∷ d)
  unfolding AllLive
  AllLive-cons [] t lease d fresh live = tt
  AllLive-cons (u ∷ us) t lease d fresh live =
      let q = cons_live u t lease live.0.0 d fresh live.0.1 in
      (
        (live.0.0, q.0),
        subst (AllLive us) (sym q.1)
            (AllLive-cons us t lease (pop u d) (ground (arith, get-pop t u d, fresh)) live.1),
      )

  AllLive-head :
      (ts : List ℕ) (t : ℕ) (lease : Lease) (d : Dict ℕ Lease)
      → get t d ≡ none
      → AllLive ts d
      → AllLive (t ∷ ts) ((t, lease) ∷ d)
  unfolding AllLive get pop
  AllLive-head ts t lease d fresh live =
      rw ((==_iff t t).1 refl, pop-none t d fresh) ((lease, refl), live)

  stale_tokens-AllLive :
      (timeout : ℕ) (d : Dict ℕ Lease) → IsDict d → AllLive (stale_tokens timeout now d) d
  unfolding stale_tokens AllLive
  stale_tokens-AllLive timeout [] h = tt
  stale_tokens-AllLive timeout ((t, lease) ∷ d) h =
      let later = stale_tokens-AllLive timeout d h.1 in
      elim (Bool-cases (leb (lease.started_at + timeout) now)) [
        | inl old ↦ rw old (AllLive-head _ t lease d h.0 later)
        | inr fresh ↦ rw fresh (AllLive-cons _ t lease d h.0 later)
      ]

  expire-IsBalanced :
      (tokens : List ℕ) (s : Limiter)
      → AllLive tokens s.leases
      → IsBalanced c s
      → Returns (IsBalanced c) (expire now tokens s)
  unfolding expire AllLive
  expire-IsBalanced [] s live h = h
  expire-IsBalanced (t ∷ ts) s live h =
      let lease = live.0.0 in
      let b = lease-Buckets c s h t lease live.0.1 in
      rw (end_lease-ended c s h t lease live.0.1 now b)
        (expire-IsBalanced ts _ live.1 (ended-IsBalanced c s h t lease live.0.1 now b))

  expire_stale-IsBalanced :
      (timeout : ℕ) (s : Limiter)
      → IsBalanced c s
      → Returns (IsBalanced c) (expire now (stale_tokens timeout now s.leases) s)
  expire_stale-IsBalanced timeout s h =
      expire-IsBalanced _ s (stale_tokens-AllLive timeout s.leases h.tokens) h

  sweep_both-IsBalanced : (s : Limiter) → IsBalanced c s → IsBalanced c (sweep_both c now s)
  unfolding sweep_both
  sweep_both-IsBalanced s h = record {
    tokens = h.tokens;
    unused = h.unused;
    pairs = λ k. flight-sweep c.window_seconds now k s.pair_buckets ∙ h.pairs k;
    ips = λ k. flight-sweep c.window_seconds now k s.ip_buckets ∙ h.ips k;
    pair_sound =
        sweep-IsSound c.max_pair_keys c.pair_max_failures c.window_seconds now s.pair_buckets
          h.pair_sound;
    ip_sound =
        sweep-IsSound c.max_ip_keys c.ip_max_failures c.window_seconds now s.ip_buckets h.ip_sound;
  }

  Returns-some :
      (f : Limiter → Limiter) (o : Option Limiter)
      → ((s : Limiter) → IsBalanced c s → IsBalanced c (f s))
      → Returns (IsBalanced c) o
      → Returns (IsBalanced c) (o >>= λ s. some (f s))
  Returns-some f none keep h = h
  Returns-some f (some s) keep h = keep s h

  dated-IsBalanced : (s : Limiter) → IsBalanced c s → IsBalanced c (record s { last_cleanup = now })
  dated-IsBalanced s h = record {
    tokens = h.tokens;
    unused = h.unused;
    pairs = h.pairs;
    ips = h.ips;
    pair_sound = h.pair_sound;
    ip_sound = h.ip_sound;
  }

  pub cleanup_if_due-IsBalanced :
      (s : Limiter) → IsBalanced c s → Returns (IsBalanced c) (cleanup_if_due c now s)
  unfolding cleanup_if_due
  cleanup_if_due-IsBalanced s h =
      elim (Bool-cases (ltb now (s.last_cleanup + c.cleanup_interval_seconds))) [
        | inl early ↦ rw early h
        | inr due ↦ rw due (
            Returns-some (sweep_both c now) _ sweep_both-IsBalanced
              (expire_stale-IsBalanced c.lease_timeout_seconds _ (dated-IsBalanced s h)))
      ]
