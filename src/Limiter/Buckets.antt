-- ===== src/Limiter/Buckets.antt =====
-- app/api/login_security.py: one dict of `_Bucket`, by the pair (IP, name) or by the IP. Times are
-- readings of a monotonic clock in whole units; `0` in `blocked_until` is « not blocked », as the
-- source has it, and a difference of times is tested as a sum.
pub mod Laws
pub mod Evicting
pub mod Sound
pub mod Sweeping
pub mod Releasing
use mc_admin.Base.{
  ℕ, ◌+◌, ◌-◌, Bool, true, false, ◌&&◌, ◌||◌, not, Option, none, some, List, [], ◌∷◌, ◌++◌, Text,
  length, leb, ltb, ◌==◌, if◌then◌else◌,
}
use mc_admin.Base.Dict.{Dict, Eq, get, put, pop}

pub record Bucket : Type 0 where
  -- oldest first
  pub failures : List ℕ
  pub blocked_until : ℕ
  pub last_seen : ℕ
  pub in_flight : ℕ

abbrev pub new_bucket : ℕ → Bucket
new_bucket now = record { failures = []; blocked_until = 0; last_seen = now; in_flight = 0 }

-- The `popleft` loop: what is at most as old as the cutoff, `now - window`, goes.
abbrev pub recent : ℕ → ℕ → List ℕ → List ℕ
recent window now [] = []
recent window now (t ∷ ts) =
    let rest = recent window now ts in if leb (t + window) now then rest else t ∷ ts

-- `_prepare_bucket`
unfoldable pub prepare : ℕ → ℕ → Bucket → Bucket
prepare window now b =
    if b.blocked_until == 0
    then record b { failures = recent window now b.failures }
    else if ltb now b.blocked_until
    then b
    else record b { blocked_until = 0; failures = [] }

abbrev pub is_nil : {A : Type 0} → List A → Bool
is_nil [] = true
is_nil (_ ∷ _) = false

-- The test of `_drop_empty_bucket`.
unfoldable pub is_idle : Bucket → Bool
is_idle b = is_nil b.failures && b.blocked_until == 0 && b.in_flight == 0

-- `max(0, in_flight - 1)`, as `-` on the natural numbers stops at 0.
unfoldable pub release_bucket : ℕ → Bucket → Bucket
release_bucket now b = record b { in_flight = b.in_flight - 1; last_seen = now }

abbrev pub same_bool : Bool → Bool → Bool
same_bool true b = b
same_bool false b = not b

may_evict : ℕ → Bucket → Bool
may_evict now b = b.in_flight == 0 && leb b.blocked_until now

-- The order of two keys, as tuples and texts are compared.
pub record Ordered (K : Type 0) : Type 0 where
  pub before : K → K → Bool

-- What `min` compares: whether there are failures, the last use, the key.
pub record Candidate (K : Type 0) : Type 0 where
  pub has_failures : Bool
  pub last_seen : ℕ
  pub key : K

module _ {K : Type 0} ⦃e : Eq K⦄ ⦃o : Ordered K⦄ where
  -- `_drop_empty_bucket`
  unfoldable pub drop_empty : K → Dict K Bucket → Dict K Bucket
  drop_empty k d = elim (get k d) [ none ↦ d | some b ↦ if is_idle b then pop k d else d ]

  -- A change of the bucket of a key; none for a `KeyError`.
  unfoldable pub update : K → (Bucket → Bucket) → Dict K Bucket → Option (Dict K Bucket)
  update k f d = elim (get k d) [ none ↦ none | some b ↦ some (put k (f b) d) ]

  pub candidates : ℕ → Dict K Bucket → List (Candidate K)
  unfolding may_evict
  candidates now [] = []
  candidates now ((k, b) ∷ d) =
      let rest = candidates now d in
      if may_evict now b
      then (record { has_failures = not (is_nil b.failures); last_seen = b.last_seen; key = k })
        ∷ rest
      else rest

  less : Candidate K → Candidate K → Bool
  less a b =
      (not a.has_failures && b.has_failures)
      || (same_bool a.has_failures b.has_failures
          && (ltb a.last_seen b.last_seen || (a.last_seen == b.last_seen && o.before a.key b.key)))

  -- `min(candidates)`: the first of the least.
  least : Candidate K → List (Candidate K) → Candidate K
  unfolding less
  least best [] = best
  least best (c ∷ cs) = least (if less c best then c else best) cs

  pub evict : List (Candidate K) → Dict K Bucket → Option (Dict K Bucket)
  unfolding least
  evict [] d = none
  evict (c ∷ cs) d = some (pop (least c cs).key d)

  -- The dict with room for one more key, or none when it is full of busy ones.
  make_room : ℕ → ℕ → Dict K Bucket → Option (Dict K Bucket)
  unfolding candidates evict
  make_room limit now d = if leb limit (length d) then evict (candidates now d) d else some d

  abbrev with_new : ℕ → K → Dict K Bucket → Option (Dict K Bucket) → Option Bucket × Dict K Bucket
  with_new now k d none = (none, d)
  with_new now k d (some roomy) = (some (new_bucket now), put k (new_bucket now) roomy)

  -- `_get_or_create`: the bucket, or none, and the dict.
  unfoldable pub get_or_create : ℕ → ℕ → K → Dict K Bucket → Option Bucket × Dict K Bucket
  unfolding make_room
  get_or_create limit now k d = elim (get k d) [
    | some b ↦ (some b, d)
    | none ↦ with_new now k d (make_room limit now d)
  ]

  prepare_at : ℕ → ℕ → K → Dict K Bucket → Dict K Bucket
  prepare_at window now k d = elim (get k d) [ none ↦ d | some b ↦ put k (prepare window now b) d ]

  -- The loop of `_cleanup_if_due` over the keys that the dict had.
  sweep_keys : ℕ → ℕ → List K → Dict K Bucket → Dict K Bucket
  unfolding prepare_at
  sweep_keys window now [] d = d
  sweep_keys window now (k ∷ ks) d =
      sweep_keys window now ks (drop_empty k (prepare_at window now k d))

  keys : Dict K Bucket → List K
  keys [] = []
  keys ((k, b) ∷ d) = k ∷ keys d

  unfoldable pub sweep : ℕ → ℕ → Dict K Bucket → Dict K Bucket
  unfolding sweep_keys keys
  sweep window now d = sweep_keys window now (keys d) d
