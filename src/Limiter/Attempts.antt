-- ===== src/Limiter/Attempts.antt =====
-- app/api/login_security.py, the methods of `LoginAttemptLimiter`. The lock is held by each of
-- them, so a method is one step. `none` is a `KeyError`. The standard library's reading of an IP
-- address and its folding of case are parameters.
pub mod Balance
pub mod Steps
pub mod Calls
pub mod Locked
pub mod Locks
use mc_admin.Base.{
  ℕ, ◌+◌, ◌-◌, ◌<◌, Bool, true, false, ◌&&◌, ◌||◌, Option, none, some, List, [], ◌∷◌, ◌++◌, Text,
  codes, text_eq, length, take, all, leb, ltb, ◌==◌, ==_iff, if◌then◌else◌, ◌≡◌, ◌↔◌, arith,
  text_eq_iff, ap,
}
use mc_admin.Base.Dict.{Dict, Eq, get, put, pop, text_Eq}
use mc_admin.Limiter.Keys.{
  Settings, PairKey, pair_Eq, token_Eq, text_Ordered, pair_Ordered, Library, normalize_ip,
  normalize_username,
}
use mc_admin.Limiter.Buckets.{
  Bucket, prepare, release_bucket, Ordered, drop_empty, update, get_or_create, sweep, is_nil,
}

pub record Lease : Type 0 where
  pub pair_key : PairKey
  pub ip_key : Text
  pub started_at : ℕ

pub record Limiter : Type 0 where
  pub pair_buckets : Dict PairKey Bucket
  pub ip_buckets : Dict Text Bucket
  pub leases : Dict ℕ Lease
  pub next_token : ℕ
  pub last_cleanup : ℕ

-- `__init__` refuses an argument that is not positive; only the interval may be 0.
unfoldable pub create : Settings → Option Limiter
create c =
    if all (ltb 0) (
      c.pair_max_failures ∷ c.ip_max_failures ∷ c.window_seconds ∷ c.pair_lock_seconds
      ∷ c.ip_lock_seconds ∷ c.max_pair_keys ∷ c.max_ip_keys ∷ c.lease_timeout_seconds ∷ [])
    then some (record {
      pair_buckets = [];
      ip_buckets = [];
      leases = [];
      next_token = 1;
      last_cleanup = 0;
    })
    else none

infixl 10 ◌>>=◌
abbrev pub ◌>>=◌ : {A B : Type 0} → Option A → (A → Option B) → Option B
none >>= f = none
some a >>= f = f a

-- `_release_lease`
unfoldable pub release_lease : ℕ → Lease → Limiter → Option Limiter
release_lease now lease s = do
  pairs ← update lease.pair_key (release_bucket now) s.pair_buckets
  ips ← update lease.ip_key (release_bucket now) s.ip_buckets
  some (record s { pair_buckets = pairs; ip_buckets = ips })

stale_tokens : ℕ → ℕ → Dict ℕ Lease → List ℕ
stale_tokens timeout now [] = []
stale_tokens timeout now ((t, lease) ∷ leases) =
    let rest = stale_tokens timeout now leases in
    if leb (lease.started_at + timeout) now then t ∷ rest else rest

-- `self._leases.pop(token)` and the release, for one token.
end_lease : ℕ → ℕ → Limiter → Option Limiter
end_lease now token s = do
  lease ← get token s.leases
  release_lease now lease (record s { leases = pop token s.leases })

expire : ℕ → List ℕ → Limiter → Option Limiter
unfolding end_lease
expire now [] s = some s
expire now (token ∷ tokens) s = end_lease now token s >>= λ s'. expire now tokens s'

sweep_both : Settings → ℕ → Limiter → Limiter
sweep_both c now s = record s {
  pair_buckets = sweep c.window_seconds now s.pair_buckets;
  ip_buckets = sweep c.window_seconds now s.ip_buckets;
}

-- `_cleanup_if_due`
unfoldable pub cleanup_if_due : Settings → ℕ → Limiter → Option Limiter
unfolding stale_tokens expire sweep_both
cleanup_if_due c now s =
    if ltb now (s.last_cleanup + c.cleanup_interval_seconds) then some s else (do
      s' ←
          expire now (stale_tokens c.lease_timeout_seconds now s.leases)
            (record s { last_cleanup = now })
      some (sweep_both c now s'))

drop_both : PairKey → Text → Limiter → Limiter
drop_both pair_key ip_key s = record s {
  pair_buckets = drop_empty pair_key s.pair_buckets;
  ip_buckets = drop_empty ip_key s.ip_buckets;
}

-- The bucket as `begin` looks at it: prepared, and seen now.
abbrev pub seen : ℕ → ℕ → Bucket → Bucket
seen window now b = record (prepare window now b) { last_seen = now }

at_limit : ℕ → Bucket → Bool
at_limit limit b = leb limit (length b.failures + b.in_flight)

-- The tests of `begin` on the two buckets, and the reservation.
reserve : Settings → ℕ → PairKey → Text → Bucket → Bucket → Limiter → Option ℕ × Limiter
unfolding drop_both at_limit
reserve c now pair_key ip_key pair_bucket ip_bucket s =
    let looked = record s {
      pair_buckets = put pair_key pair_bucket s.pair_buckets;
      ip_buckets = put ip_key ip_bucket s.ip_buckets;
    } in
    if (ltb now pair_bucket.blocked_until || ltb now ip_bucket.blocked_until)
      || (at_limit c.pair_max_failures pair_bucket || at_limit c.ip_max_failures ip_bucket)
    then (none, drop_both pair_key ip_key looked)
    else (
      some s.next_token,
      record {
        pair_buckets =
            put pair_key (record pair_bucket { in_flight = pair_bucket.in_flight + 1 })
              s.pair_buckets;
        ip_buckets =
            put ip_key (record ip_bucket { in_flight = ip_bucket.in_flight + 1 }) s.ip_buckets;
        leases =
            put s.next_token (record { pair_key = pair_key; ip_key = ip_key; started_at = now })
              s.leases;
        next_token = s.next_token + 1;
        last_cleanup = s.last_cleanup;
      },
    )

-- `begin` once the keys are normal and the cleanup is done.
pub admit : Settings → ℕ → PairKey → Text → Limiter → Option ℕ × Limiter
unfolding reserve drop_both
admit c now pair_key ip_key s =
    let (pair, pairs) = get_or_create c.max_pair_keys now pair_key s.pair_buckets in
    let (ip, ips) = get_or_create c.max_ip_keys now ip_key s.ip_buckets in
    let s' = record s { pair_buckets = pairs; ip_buckets = ips } in
    elim pair [
      | none ↦ (none, drop_both pair_key ip_key s')
      | some b ↦ elim ip [
        | none ↦ (none, drop_both pair_key ip_key s')
        | some a ↦
            reserve c now pair_key ip_key (seen c.window_seconds now b)
              (seen c.window_seconds now a) s'
      ]
    ]

-- `begin`: the token, or none if the attempt is refused, and the state.
unfoldable pub begin : Library → Settings → ℕ → Text → Text → Limiter → Option (Option ℕ × Limiter)
unfolding admit
begin lib c now client_ip username s =
    let ip_key = normalize_ip lib client_ip in
    let pair_key : PairKey = record { ip = ip_key; name = normalize_username lib username } in
    cleanup_if_due c now s >>= λ s'. some (admit c now pair_key ip_key s')

-- A failure is added, and the lock set when the limit is reached.
unfoldable pub add_failure : ℕ → ℕ → ℕ → ℕ → Bucket → Bucket
add_failure limit lock window now b =
    let failed = record (prepare window now b) {
      failures = (prepare window now b).failures ++ now ∷ [];
    } in
    if leb limit (length failed.failures)
    then record failed {
      blocked_until =
          if ltb failed.blocked_until (now + lock) then now + lock else failed.blocked_until;
    }
    else failed

-- What the methods do to the two buckets of a lease after its release.
after_release : (Bucket → Bucket) → (Bucket → Bucket) → Lease → Limiter → Option Limiter
after_release f g lease s = do
  pairs ← update lease.pair_key f s.pair_buckets
  ips ← update lease.ip_key g s.ip_buckets
  some (record s { pair_buckets = pairs; ip_buckets = ips })

-- The common form of `failure`, `success` and `cancel`; an unknown token changes nothing.
pub finish :
    (Bucket → Bucket)
    → (Bucket → Bucket)
    → (Lease → Limiter → Limiter)
    → ℕ
    → ℕ
    → Limiter
    → Option Limiter
unfolding after_release
finish f g last now token s = elim (get token s.leases) [
  | none ↦ some s
  | some lease ↦ (do
    s' ← release_lease now lease (record s { leases = pop token s.leases })
    s'' ← after_release f g lease s'
    some (last lease s''))
]

unfoldable pub failure : Settings → ℕ → ℕ → Limiter → Option Limiter
unfolding finish
failure c now =
    finish (add_failure c.pair_max_failures c.pair_lock_seconds c.window_seconds now)
      (add_failure c.ip_max_failures c.ip_lock_seconds c.window_seconds now) (λ _ s. s) now

drop_lease : Lease → Limiter → Limiter
unfolding drop_both
drop_lease lease = drop_both lease.pair_key lease.ip_key

-- `failures.clear()` and `blocked_until = 0.0`
unfoldable pub clear_bucket : Bucket → Bucket
clear_bucket b = record b { failures = []; blocked_until = 0 }

unfoldable pub success : Settings → ℕ → ℕ → Limiter → Option Limiter
unfolding finish drop_lease
success c now = finish clear_bucket (prepare c.window_seconds now) drop_lease now

unfoldable pub cancel : ℕ → ℕ → Limiter → Option Limiter
unfolding finish drop_lease
cancel now = finish (λ b. b) (λ b. b) drop_lease now
