-- ===== src/Limiter/Buckets/Sweeping.antt =====
-- The sweep of a dict of buckets leaves every attempt in flight.
use mc_admin.Base.{ℕ, ◌+◌, ◌<◌, ◌≡◌, refl, some, List, [], ◌∷◌, arith, Option-cases, inl, inr, ◌∙◌}
use mc_admin.Base.Dict.{Dict, Eq, get}
use mc_admin.Limiter.Buckets.{Bucket, prepare, Ordered, prepare_at, sweep_keys, keys, sweep}
use mc_admin.Limiter.Buckets.Laws.{
  until, until-put, until-drop_empty, locked_prepare, flight, flight-put, flight-drop_empty,
  in_flight-prepare,
}

module _ {K : Type 0} ⦃e : Eq K⦄ ⦃o : Ordered K⦄ where
  flight-prepare_at :
      (window now : ℕ) (j k : K) (d : Dict K Bucket)
      → flight j (prepare_at window now k d) ≡ flight j d
  unfolding prepare_at
  flight-prepare_at window now j k d = elim (Option-cases (get k d)) [
    | inl absent ↦ rw (absent, prepare_at)
    | inr (b, found) ↦
        rw (found, prepare_at)
          (ground (
            arith,
            flight-put j k (prepare window now b) d,
            in_flight-prepare window now b,
            e.beq_iff j k,
            found,
          ))
  ]

  flight-sweep_keys :
      (window now : ℕ) (j : K) (ks : List K) (d : Dict K Bucket)
      → flight j (sweep_keys window now ks d) ≡ flight j d
  unfolding sweep_keys
  flight-sweep_keys window now j [] d = refl
  flight-sweep_keys window now j (k ∷ ks) d =
      flight-sweep_keys window now j ks _
      ∙ flight-drop_empty j k (prepare_at window now k d)
      ∙ flight-prepare_at window now j k d

  pub flight-sweep :
      (window now : ℕ) (j : K) (d : Dict K Bucket) → flight j (sweep window now d) ≡ flight j d
  unfolding sweep
  flight-sweep window now j d = flight-sweep_keys window now j (keys d) d

  -- A bucket is found where attempts are in flight.
  pub flight_pos :
      (k : K) (d : Dict K Bucket) (n : ℕ)
      → flight k d ≡ n + 1
      → (b : Bucket) × (get k d ≡ some b) × (b.in_flight ≡ n + 1)
  flight_pos k d n h = elim (Option-cases (get k d)) [
    | inl absent ↦ absurd (ground (arith, h, absent))
    | inr (b, found) ↦ (b, found, ground (arith, h, found))
  ]

  until-prepare_at :
      (window now : ℕ) (j k : K) (d : Dict K Bucket)
      → now < until j d
      → until j (prepare_at window now k d) ≡ until j d
  unfolding prepare_at
  until-prepare_at window now j k d locked = elim (Option-cases (get k d)) [
    | inl absent ↦ rw (absent, prepare_at)
    | inr (b, found) ↦
        rw (found, prepare_at)
          (ground (
            arith,
            until-put j k (prepare window now b) d,
            locked_prepare window now b,
            e.beq_iff j k,
            found,
            locked,
          ))
  ]

  until-sweep_keys :
      (window now : ℕ) (j : K) (ks : List K) (d : Dict K Bucket)
      → now < until j d
      → until j (sweep_keys window now ks d) ≡ until j d
  unfolding sweep_keys
  until-sweep_keys window now j [] d locked = refl
  until-sweep_keys window now j (k ∷ ks) d locked =
      let same =
        until-drop_empty j k (prepare_at window now k d)
        ∙ until-prepare_at window now j k d locked in
      until-sweep_keys window now j ks _ (omega (arith, same, locked)) ∙ same

  -- The sweep leaves a lock that still lasts.
  pub until-sweep :
      (window now : ℕ) (j : K) (d : Dict K Bucket)
      → now < until j d
      → until j (sweep window now d) ≡ until j d
  unfolding sweep
  until-sweep window now j d = until-sweep_keys window now j (keys d) d
