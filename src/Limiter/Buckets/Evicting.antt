-- ===== src/Limiter/Buckets/Evicting.antt =====
-- What an eviction removes from a dict of buckets.
use mc_admin.Base.{
  ℕ, ◌≤◌, ◌≡◌, Bool, true, none, some, List, [], ◌∷◌, All, arith, Bool-cases, inl, inr,
}
use mc_admin.Base.Dict.{Dict, Eq, get, pop, IsDict}
use mc_admin.Limiter.Buckets.{Bucket, Ordered, Candidate, may_evict, candidates, less, least, evict}

module _ {K : Type 0} ⦃e : Eq K⦄ ⦃o : Ordered K⦄ where
  pub IsEvictable : ℕ → Dict K Bucket → Candidate K → Type 0
  IsEvictable now d c =
      (b : Bucket) × (get c.key d ≡ some b) × (b.in_flight ≡ 0) × (b.blocked_until ≤ now)

  IsEvictable-cons :
      (now : ℕ) (k : K) (b : Bucket) (d : Dict K Bucket) (c : Candidate K)
      → get k d ≡ none
      → IsEvictable now d c
      → IsEvictable now ((k, b) ∷ d) c
  unfolding IsEvictable get
  IsEvictable-cons now k b d c fresh (b', found, idle, unlocked) =
      (b', ground (arith, e.beq_iff c.key k), idle, unlocked)

  All-cons :
      (now : ℕ) (k : K) (b : Bucket) (d : Dict K Bucket) (cs : List (Candidate K))
      → get k d ≡ none
      → All (IsEvictable now d) cs
      → All (IsEvictable now ((k, b) ∷ d)) cs
  All-cons now k b d [] fresh h = tt
  All-cons now k b d (c ∷ cs) fresh h =
      (IsEvictable-cons now k b d c fresh h.0, All-cons now k b d cs fresh h.1)

  IsEvictable-head :
      (now : ℕ) (k : K) (b : Bucket) (d : Dict K Bucket) (failures : Bool)
      → may_evict now b ≡ true
      → IsEvictable now
          ((k, b) ∷ d)
          (record { has_failures = failures; last_seen = b.last_seen; key = k })
  unfolding IsEvictable get may_evict
  IsEvictable-head now k b d failures h =
      (b, ground (arith, e.beq_iff k k), ground arith, ground arith)

  pub candidates-IsEvictable :
      (now : ℕ) (d : Dict K Bucket) → IsDict d → All (IsEvictable now d) (candidates now d)
  unfolding candidates may_evict
  candidates-IsEvictable now [] h = tt
  candidates-IsEvictable now ((k, b) ∷ d) h = elim (Bool-cases (may_evict now b)) [
    | inl evictable ↦ rw evictable (
      IsEvictable-head now k b d _ evictable,
      All-cons now k b d (candidates now d) h.0 (candidates-IsEvictable now d h.1),
    )
    | inr busy ↦
        rw busy (All-cons now k b d (candidates now d) h.0 (candidates-IsEvictable now d h.1))
  ]

  least-IsEvictable :
      (now : ℕ) (d : Dict K Bucket) (best : Candidate K) (cs : List (Candidate K))
      → IsEvictable now d best
      → All (IsEvictable now d) cs
      → IsEvictable now d (least best cs)
  unfolding least
  least-IsEvictable now d best [] h hs = h
  least-IsEvictable now d best (c ∷ cs) h hs = elim (Bool-cases (less c best)) [
    | inl smaller ↦ rw smaller (least-IsEvictable now d c cs hs.0 hs.1)
    | inr other ↦ rw other (least-IsEvictable now d best cs h hs.1)
  ]

  -- What an eviction removes carries nothing and is not locked.
  pub evict-cases :
      (now : ℕ) (d d' : Dict K Bucket) (cs : List (Candidate K))
      → All (IsEvictable now d) cs
      → evict cs d ≡ some d'
      → (k : K) × (b : Bucket) × (get k d ≡ some b)
        × (b.in_flight ≡ 0)
        × (b.blocked_until ≤ now)
        × (d' ≡ pop k d)
  unfolding evict IsEvictable
  evict-cases now d d' [] h g = cc g
  evict-cases now d d' (c ∷ cs) h g =
      let (b, found, idle, unlocked) = least-IsEvictable now d c cs h.0 h.1 in
      ((least c cs).key, b, found, idle, unlocked, cc g)
