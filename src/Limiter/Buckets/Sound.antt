-- ===== src/Limiter/Buckets/Sound.antt =====
-- A dict of buckets keeps within its number of keys and each key within its budget.
use mc_admin.Base.{
  ℕ, ◌≤◌, ◌<◌, ◌≡◌, refl, false, Option, none, some, List, [], ◌∷◌, length, arith, leb, Bool-cases,
  Option-cases, inl, inr, ap,
}
use mc_admin.Base.Dict.{
  Dict, Eq, get, put, pop, get-put, get-pop, IsDict, IsDict-put, IsDict-pop, length-pop,
  length-pop_lt, length-put, length-put_old,
}
use mc_admin.Limiter.Buckets.{
  Bucket, new_bucket, prepare, is_idle, Ordered, drop_empty, candidates, make_room, with_new,
  prepare_at, evict, get_or_create, sweep_keys, keys, sweep,
}
use mc_admin.Limiter.Buckets.Laws.{load, flight, until, until-put, flight-put, Fits, load-prepare}
use mc_admin.Limiter.Buckets.Evicting.{evict-cases, candidates-IsEvictable}

module _ {K : Type 0} ⦃e : Eq K⦄ ⦃o : Ordered K⦄ where
  -- A dict with distinct keys, at most `limit` of them, each within its budget.
  pub record IsSound (limit budget : ℕ) (d : Dict K Bucket) : Type 0 where
    pub distinct : IsDict d
    pub few : length d ≤ limit
    pub fits : (k : K) → Fits budget (get k d)

  module _ (limit budget : ℕ) where
    -- A change of a bucket that is there.
    pub put-IsSound :
        (k : K) (b b' : Bucket) (d : Dict K Bucket)
        → get k d ≡ some b
        → load b' ≤ budget
        → IsSound limit budget d
        → IsSound limit budget (put k b' d)
    put-IsSound k b b' d found small h = record {
      distinct = IsDict-put k b' d h.distinct;
      few = omega (arith, length-put_old k b' d found, h.few);
      fits = λ j. ground (arith, get-put j k b' d, h.fits j);
    }

    pub pop-IsSound :
        (k : K) (d : Dict K Bucket) → IsSound limit budget d → IsSound limit budget (pop k d)
    pop-IsSound k d h = record {
      distinct = IsDict-pop k d h.distinct;
      few = omega (arith, length-pop k d, h.few);
      fits = λ j. ground (arith, get-pop j k d, h.fits j);
    }

    pub drop_empty-IsSound :
        (k : K) (d : Dict K Bucket) → IsSound limit budget d → IsSound limit budget (drop_empty k d)
    unfolding drop_empty
    drop_empty-IsSound k d h = elim (Option-cases (get k d)) [
      | inl absent ↦ rw (absent, drop_empty) h
      | inr (b, found) ↦
          rw (found, drop_empty)
            (elim (Bool-cases (is_idle b)) [
              | inl idle ↦ rw idle (pop-IsSound k d h)
              | inr busy ↦ rw busy h
            ])
    ]

    prepared-IsSound :
        (window now : ℕ) (k : K) (d : Dict K Bucket)
        → IsSound limit budget d
        → IsSound limit budget (prepare_at window now k d)
    unfolding prepare_at
    prepared-IsSound window now k d h = elim (Option-cases (get k d)) [
      | inl absent ↦ rw (absent, prepare_at) h
      | inr (b, found) ↦
          rw (found, prepare_at) (put-IsSound k b (prepare window now b) d found (small b found) h)
    ]
      where
        small : (b : Bucket) → get k d ≡ some b → load (prepare window now b) ≤ budget
        small b found =
            let q : Fits budget (some b) = rw found at (h.fits k) in
            omega (arith, load-prepare window now b)

    add-IsSound :
        (now : ℕ) (k : K) (d : Dict K Bucket)
        → length d < limit
        → IsSound limit budget d
        → IsSound limit budget (put k (new_bucket now) d)
    add-IsSound now k d room h = record {
      distinct = IsDict-put k (new_bucket now) d h.distinct;
      few = omega (arith, length-put k (new_bucket now) d);
      fits = λ j. ground (arith, get-put j k (new_bucket now) d, h.fits j);
    }

    -- A dict with room for one more key, which carries what the other carries.
    pub record HasRoom (now : ℕ) (d d' : Dict K Bucket) : Type 0 where
      sound : IsSound limit budget d'
      room : length d' < limit
      same : (j : K) → flight j d' ≡ flight j d
      locks : (j : K) → now < until j d → until j d' ≡ until j d

    evict-HasRoom :
        (now : ℕ) (d d' : Dict K Bucket)
        → IsSound limit budget d
        → evict (candidates now d) d ≡ some d'
        → HasRoom now d d'
    evict-HasRoom now d d' h g =
        let (k, b, found, idle, unlocked, popped) =
          evict-cases now d d' (candidates now d) (candidates-IsEvictable now d h.distinct) g in
        rw popped (record {
          sound = pop-IsSound k d h;
          room = omega (arith, length-pop_lt k d found, h.few);
          same = λ j. ground (arith, get-pop j k d, e.beq_iff j k, found, idle);
          locks = λ j locked. ground (arith, get-pop j k d, e.beq_iff j k, found, unlocked, locked);
        })

    make_room-HasRoom :
        (now : ℕ) (d d' : Dict K Bucket)
        → IsSound limit budget d
        → make_room limit now d ≡ some d'
        → HasRoom now d d'
    unfolding make_room
    make_room-HasRoom now d d' h g = elim (Bool-cases (leb limit (length d))) [
      | inl crowded ↦ evict-HasRoom now d d' h (rw crowded at g)
      | inr roomy ↦
          rw (← (kept roomy))
            (record { sound = h; room = ground arith; same = λ j. refl; locks = λ j _. refl })
    ]
      where
        kept : leb limit (length d) ≡ false → d ≡ d'
        kept roomy = let q : some d ≡ some d' = rw roomy at g in cc q

    -- What `get_or_create` may return.
    pub data Got (now : ℕ) (k : K) (d : Dict K Bucket) (r : Option Bucket × Dict K Bucket)
        : Type 0 where
      old : (b : Bucket) → get k d ≡ some b → r ≡ (some b, d) → Got now k d r
      full : get k d ≡ none → r ≡ (none, d) → Got now k d r
      made :
          (d' : Dict K Bucket)
          → get k d ≡ none
          → HasRoom now d d'
          → r ≡ (some (new_bucket now), put k (new_bucket now) d')
          → Got now k d r

    pub get_or_create-Got :
        (now : ℕ) (k : K) (d : Dict K Bucket)
        → IsSound limit budget d
        → Got now k d (get_or_create limit now k d)
    unfolding get_or_create
    get_or_create-Got now k d h = elim (Option-cases (get k d)) [
      | inr (b, found) ↦ old b found (rw (found, get_or_create))
      | inl absent ↦ elim (Option-cases (make_room limit now d)) [
        | inl stuck ↦ full absent (rw (absent, get_or_create) (ap (with_new now k d) stuck))
        | inr (d', roomy) ↦
            made d' absent (make_room-HasRoom now d d' h roomy)
              (rw (absent, get_or_create) (ap (with_new now k d) roomy))
      ]
    ]

    pub get_or_create-IsSound :
        (now : ℕ) (k : K) (d : Dict K Bucket)
        → IsSound limit budget d
        → IsSound limit budget (get_or_create limit now k d).1
    get_or_create-IsSound now k d h = elim (get_or_create-Got now k d h) [
      | old b found r ↦ rw r h
      | full absent r ↦ rw r h
      | made d' absent room r ↦ rw r (add-IsSound now k d' room.room room.sound)
    ]

    pub flight-get_or_create :
        (now : ℕ) (j k : K) (d : Dict K Bucket)
        → IsSound limit budget d
        → flight j (get_or_create limit now k d).1 ≡ flight j d
    flight-get_or_create now j k d h = elim (get_or_create-Got now k d h) [
      | old b found r ↦ rw r
      | full absent r ↦ rw r
      | made d' absent room r ↦
          rw r
            (ground (arith, flight-put j k (new_bucket now) d', room.same j, e.beq_iff j k, absent))
    ]

    pub get_or_create-get :
        (now : ℕ) (k : K) (d : Dict K Bucket) {b : Bucket}
        → IsSound limit budget d
        → (get_or_create limit now k d).0 ≡ some b
        → get k (get_or_create limit now k d).1 ≡ some b
    get_or_create-get now k d {b} h g = elim (get_or_create-Got now k d h) [
      | old b' found r ↦ rw r (ground (arith, found, r, g))
      | full absent r ↦ ground (arith, r, g)
      | made d' absent room r ↦
          rw r (ground (arith, r, g, get-put k k (new_bucket now) d', e.beq_iff k k))
    ]

    -- A key that is locked stays so.
    pub until-get_or_create :
        (now : ℕ) (j k : K) (d : Dict K Bucket)
        → IsSound limit budget d
        → now < until j d
        → until j (get_or_create limit now k d).1 ≡ until j d
    until-get_or_create now j k d h locked = elim (get_or_create-Got now k d h) [
      | old b found r ↦ rw r
      | full absent r ↦ rw r
      | made d' absent room r ↦ rw r (
          ground (
            arith,
            until-put j k (new_bucket now) d',
            room.locks j locked,
            e.beq_iff j k,
            absent,
            locked,
          ))
    ]

    -- The sweep over any keys.
    sweep_keys-IsSound :
        (window now : ℕ) (ks : List K) (d : Dict K Bucket)
        → IsSound limit budget d
        → IsSound limit budget (sweep_keys window now ks d)
    unfolding sweep_keys
    sweep_keys-IsSound window now [] d h = h
    sweep_keys-IsSound window now (k ∷ ks) d h =
        sweep_keys-IsSound window now ks _
          (drop_empty-IsSound k _ (prepared-IsSound window now k d h))

    pub sweep-IsSound :
        (window now : ℕ) (d : Dict K Bucket)
        → IsSound limit budget d
        → IsSound limit budget (sweep window now d)
    unfolding sweep
    sweep-IsSound window now d h = sweep_keys-IsSound window now (keys d) d h
