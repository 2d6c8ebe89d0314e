-- ===== src/Tests/Limiter.antt =====
-- A limiter after one attempt has begun.
use mc_admin.Base.{ℕ, arith, Text, take, codes, [], ◌∷◌, none, some, ◌≡◌, refl, text_eq}
use mc_admin.Base.Dict.{get, put, pop}
use mc_admin.Base.Strings.{strip}
use mc_admin.Limiter.Keys.{Settings, Library, PairKey, pair_beq, normalize_ip, normalize_username}
use mc_admin.Limiter.Addresses.{Addresses, resolve}
use mc_admin.Limiter.Addresses.Laws.{Resolved, resolve-Resolved}
use mc_admin.Limiter.Buckets.{
  update, release_bucket, Bucket, get_or_create, prepare, is_idle, drop_empty,
}
use mc_admin.Limiter.Attempts.Locks.{Refuses, failed_pair_refused}
use mc_admin.Limiter.Attempts.Locked.{Meanwhile, nothing, then, moment}
use mc_admin.Limiter.Attempts.{
  failure, release_lease, add_failure, Limiter, create, begin, cleanup_if_due,
}
use mc_admin.Limiter.Attempts.Balance.{IsBalanced}
use mc_admin.Limiter.Attempts.Calls.{
  Call, begin_call, failure_call, run, Reachable, created, called, Reachable-IsBalanced,
  calls_return,
}

abbrev lib : Library
lib = record { parse_ip = λ t. none; casefold = λ t. t }

abbrev settings : Settings
settings = record {
  pair_max_failures = 5;
  ip_max_failures = 20;
  window_seconds = 600;
  pair_lock_seconds = 300;
  ip_lock_seconds = 600;
  max_pair_keys = 4096;
  max_ip_keys = 1024;
  lease_timeout_seconds = 120;
  cleanup_interval_seconds = 30;
}

abbrev empty_limiter : Limiter
empty_limiter = record {
  pair_buckets = [];
  ip_buckets = [];
  leases = [];
  next_token = 1;
  last_cleanup = 0;
}

abbrev busy : Bucket
busy = record { failures = []; blocked_until = 0; last_seen = 5; in_flight = 1 }

abbrev key : PairKey
key = record { ip = codes "::1"; name = codes "bob" }

abbrev one_attempt : Limiter
one_attempt = record {
  pair_buckets = (key, busy) ∷ [];
  ip_buckets = (codes "::1", busy) ∷ [];
  leases = (1, record { pair_key = key; ip_key = codes "::1"; started_at = 5 }) ∷ [];
  next_token = 2;
  last_cleanup = 0;
}

created_limiter : Reachable lib settings empty_limiter
unfolding create
created_limiter = created empty_limiter refl

one_attempt-Reachable : Reachable lib settings one_attempt
unfolding run begin cleanup_if_due get_or_create get put prepare pair_beq text_eq normalize_ip
    normalize_username strip
one_attempt-Reachable =
    called (begin_call 5 (codes "::1") (codes "bob")) empty_limiter one_attempt created_limiter refl

Reachable-IsBalanced_example : IsBalanced settings one_attempt
Reachable-IsBalanced_example = Reachable-IsBalanced lib settings one_attempt one_attempt-Reachable

calls_return_example :
    (s' : Limiter) × (run lib settings (failure_call 9 1) one_attempt ≡ some s')
    × Reachable lib settings s'
calls_return_example =
    calls_return lib settings one_attempt (failure_call 9 1) one_attempt-Reachable

-- Addresses are texts, and 10. is the network of the proxies.
abbrev addresses : Addresses
addresses = record {
  Address = Text;
  Network = Text;
  parse = some;
  str = λ t. t;
  parse_network = some;
  has = λ network address. text_eq network (take 3 address);
  casefold = λ t. t;
}

resolve-Resolved_example :
    Resolved addresses
      (codes "10." ∷ [])
      (codes "10.0.0.1")
      (codes "8.8.8.8, 10.0.0.2")
      (resolve addresses (codes "10." ∷ []) (codes "10.0.0.1") (codes "8.8.8.8, 10.0.0.2"))
unfolding strip
resolve-Resolved_example =
    resolve-Resolved addresses (codes "10." ∷ []) (codes "10.0.0.1") (codes "8.8.8.8, 10.0.0.2")
      (codes "10.0.0.1") refl

-- One failure of a pair is already too many.
abbrev strict : Settings
strict = record settings { pair_max_failures = 1 }

strict_attempt-Reachable : Reachable lib strict one_attempt
unfolding create run begin cleanup_if_due get_or_create get put prepare pair_beq text_eq
    normalize_ip normalize_username strip
strict_attempt-Reachable =
    called (begin_call 5 (codes "::1") (codes "bob")) empty_limiter one_attempt
      (created empty_limiter refl) refl

abbrev failed_bucket : ℕ → Bucket
failed_bucket blocked_until = record {
  failures = 9 ∷ [];
  blocked_until = blocked_until;
  last_seen = 9;
  in_flight = 0;
}

abbrev after_failure : Limiter
after_failure = record {
  pair_buckets = (key, failed_bucket 309) ∷ [];
  ip_buckets = (codes "::1", failed_bucket 0) ∷ [];
  leases = [];
  next_token = 2;
  last_cleanup = 0;
}

abbrev after_failure_seen : Limiter
after_failure_seen = record after_failure {
  pair_buckets = (key, record (failed_bucket 309) { last_seen = 10 }) ∷ [];
  ip_buckets = (codes "::1", record (failed_bucket 0) { last_seen = 10 }) ∷ [];
}

-- Another attempt of the pair has been refused in between.
abbrev refused_call : Call
refused_call = begin_call 10 (codes "::1") (codes "bob")

in_between : Meanwhile strict key 309 lib after_failure after_failure_seen
unfolding run begin cleanup_if_due get_or_create get put pop prepare is_idle pair_beq text_eq
    normalize_ip normalize_username strip moment drop_empty
in_between = then refused_call after_failure after_failure_seen nothing (omega arith) tt refl

failed_pair_refused_example :
    Refuses (begin lib strict 20 (codes "::1") (codes "bob") after_failure_seen)
unfolding failure release_lease update get put pop prepare release_bucket add_failure pair_beq
    text_eq normalize_ip normalize_username strip
failed_pair_refused_example =
    failed_pair_refused lib strict one_attempt after_failure 1 9
      (record { pair_key = key; ip_key = codes "::1"; started_at = 5 }) busy
      strict_attempt-Reachable refl refl (omega arith) refl after_failure_seen 20 (codes "::1")
      (codes "bob") in_between (omega arith) refl
