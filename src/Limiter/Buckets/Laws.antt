-- ===== src/Limiter/Buckets/Laws.antt =====
-- The attempts in flight of a bucket and of a dict of buckets, and the budget of a key.
use mc_admin.Base.{
  ℕ, ◌+◌, ◌≤◌, ◌<◌, ◌≡◌, true, Option, none, some, List, [], ◌∷◌, length, arith, if◌then◌else◌,
  Option-cases, inl, inr,
}
use mc_admin.Base.Dict.{Dict, Eq, get, put, get-put, get-pop}
use mc_admin.Limiter.Buckets.{Bucket, recent, prepare, is_idle, Ordered, drop_empty}

-- The failures that count and the attempts in flight.
abbrev pub load : Bucket → ℕ
load b = length b.failures + b.in_flight

length-recent : (window now : ℕ) (ts : List ℕ) → length (recent window now ts) ≤ length ts
length-recent window now [] = omega arith
length-recent window now (t ∷ ts) = ground (arith, length-recent window now ts)

pub load-prepare : (window now : ℕ) (b : Bucket) → load (prepare window now b) ≤ load b
unfolding prepare
load-prepare window now b = ground (arith, length-recent window now b.failures)

pub locked_prepare :
    (window now : ℕ) (b : Bucket)
    → now < b.blocked_until
    → (prepare window now b).blocked_until ≡ b.blocked_until
unfolding prepare
locked_prepare window now b locked = ground arith

pub in_flight-prepare :
    (window now : ℕ) (b : Bucket) → (prepare window now b).in_flight ≡ b.in_flight
unfolding prepare
in_flight-prepare window now b = ground arith

pub in_flight_idle : (b : Bucket) → is_idle b ≡ true → b.in_flight ≡ 0
unfolding is_idle
in_flight_idle b h = ground arith

unlocked_idle : (b : Bucket) → is_idle b ≡ true → b.blocked_until ≡ 0
unfolding is_idle
unlocked_idle b h = ground arith

abbrev pub lock_end : Option Bucket → ℕ
lock_end none = 0
lock_end (some b) = b.blocked_until

abbrev pub carried : Option Bucket → ℕ
carried none = 0
carried (some b) = b.in_flight

abbrev pub Fits : ℕ → Option Bucket → Type 0
Fits limit none = Unit
Fits limit (some b) = load b ≤ limit

module _ {K : Type 0} ⦃e : Eq K⦄ ⦃o : Ordered K⦄ where
  -- The attempts in flight of a key.
  abbrev pub flight : K → Dict K Bucket → ℕ
  flight k d = carried (get k d)

  pub flight-put :
      (j k : K) (b : Bucket) (d : Dict K Bucket)
      → flight j (put k b d) ≡ (if e.beq j k then b.in_flight else flight j d)
  flight-put j k b d = ground (arith, get-put j k b d)

  -- Until when a key is locked.
  abbrev pub until : K → Dict K Bucket → ℕ
  until k d = lock_end (get k d)

  pub until-put :
      (j k : K) (b : Bucket) (d : Dict K Bucket)
      → until j (put k b d) ≡ (if e.beq j k then b.blocked_until else until j d)
  until-put j k b d = ground (arith, get-put j k b d)

  pub until-drop_empty : (j k : K) (d : Dict K Bucket) → until j (drop_empty k d) ≡ until j d
  unfolding drop_empty
  until-drop_empty j k d = elim (Option-cases (get k d)) [
    | inl absent ↦ ground arith
    | inr (b, found) ↦ ground (arith, get-pop j k d, e.beq_iff j k, unlocked_idle b)
  ]

  pub flight-drop_empty : (j k : K) (d : Dict K Bucket) → flight j (drop_empty k d) ≡ flight j d
  unfolding drop_empty
  flight-drop_empty j k d = elim (Option-cases (get k d)) [
    | inl absent ↦ ground arith
    | inr (b, found) ↦ ground (arith, get-pop j k d, e.beq_iff j k, in_flight_idle b)
  ]
