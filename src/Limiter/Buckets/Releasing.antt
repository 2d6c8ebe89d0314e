-- ===== src/Limiter/Buckets/Releasing.antt =====
-- The end of an attempt in a dict of buckets.
use mc_admin.Base.{ℕ, ◌-◌, ◌≤◌, ◌≡◌, some, arith, if◌then◌else◌}
use mc_admin.Base.Dict.{Dict, Eq, get, put, get-put}
use mc_admin.Limiter.Buckets.{Bucket, release_bucket, Ordered}
use mc_admin.Limiter.Buckets.Laws.{load, flight, flight-put, Fits}
use mc_admin.Limiter.Buckets.Sound.{IsSound, put-IsSound}

module _ {K : Type 0} ⦃e : Eq K⦄ ⦃o : Ordered K⦄ where
  module _ (limit budget now : ℕ) (k : K) (b : Bucket) (d : Dict K Bucket)
      (found : get k d ≡ some b) where
    within : IsSound limit budget d → load b ≤ budget
    within h = let q : Fits budget (some b) = rw found at (h.fits k) in q

    pub release-IsSound :
        IsSound limit budget d → IsSound limit budget (put k (release_bucket now b) d)
    unfolding release_bucket
    release-IsSound h =
        put-IsSound limit budget k b (release_bucket now b) d found (omega (arith, within h)) h

    pub flight-release :
        (j : K)
        → flight j (put k (release_bucket now b) d) ≡ flight j d - (if e.beq j k then 1 else 0)
    unfolding release_bucket
    flight-release j = ground (arith, flight-put j k (release_bucket now b) d, e.beq_iff j k, found)

    -- A release and then a change that keeps the attempts in flight.
    module _ (f : Bucket → Bucket) (keeps : (x : Bucket) → (f x).in_flight ≡ x.in_flight) where
      pub settled-IsSound :
          load (f (release_bucket now b)) ≤ load b
          → IsSound limit budget d
          → IsSound limit budget (put k (f (release_bucket now b)) (put k (release_bucket now b) d))
      settled-IsSound small h =
          put-IsSound limit budget k (release_bucket now b) (f (release_bucket now b)) _
            (ground (arith, get-put k k (release_bucket now b) d, e.beq_iff k k))
            (omega (arith, within h, small)) (release-IsSound h)

      pub flight-settled :
          (j : K)
          → flight j (put k (f (release_bucket now b)) (put k (release_bucket now b) d))
            ≡ flight j d - (if e.beq j k then 1 else 0)
      unfolding release_bucket
      flight-settled j = ground (
        arith,
        flight-put j k (f (release_bucket now b)) (put k (release_bucket now b) d),
        keeps (release_bucket now b),
        flight-release j,
        e.beq_iff j k,
        found,
      )
