-- ===== src/Schedule/Warnings.antt =====
-- The warnings before a deadline, over any sequence of polls and for any clock.
use mc_admin.Base.{
  ℕ, ◌+◌, ◌<◌, ◌≤◌, ◌≡◌, ◌⊎◌, inl, inr, refl, sym, subst, ap, ◌∙◌, arith, Bool, true, false, Option,
  none, some, List, [], ◌∷◌, ◌&&◌, not, keep, All, length, leb, ltb, ◌==◌, ==_iff, if◌then◌else◌,
  Bool-cases, Option-cases,
}
use mc_admin.Schedule.{Plan, insert, sorted, is_in, is_due, first_due, plan_for, announce, take_due}

-- From the largest to the smallest.
abbrev pub Descending : List ℕ → Type 0
Descending [] = Unit
Descending (t ∷ ts) = All (λ u. u ≤ t) ts × Descending ts

All-insert : (R : ℕ → Type 0) (t : ℕ) (us : List ℕ) → R t → All R us → All R (insert t us)
unfolding insert
All-insert R t [] r h = (r, tt)
All-insert R t (u ∷ us) r h = elim (Bool-cases (leb u t)) [
  | inl below ↦ rw below (r, h)
  | inr above ↦ rw above (h.0, All-insert R t us r h.1)
]

All-below : (t u : ℕ) (us : List ℕ) → u ≤ t → All (λ v. v ≤ u) us → All (λ v. v ≤ t) us
All-below t u [] h a = tt
All-below t u (v ∷ us) h a = (omega (arith, a.0), All-below t u us h a.1)

Descending-insert : (t : ℕ) (us : List ℕ) → Descending us → Descending (insert t us)
unfolding insert
Descending-insert t [] h = (tt, tt)
Descending-insert t (u ∷ us) h = elim (Bool-cases (leb u t)) [
  | inl below ↦ rw below ((ground arith, All-below t u us (ground arith) h.0), h)
  | inr above ↦
      rw above (All-insert (λ v. v ≤ u) t us (ground arith) h.0, Descending-insert t us h.1)
]

Descending-sorted : (ts : List ℕ) → Descending (sorted ts)
unfolding sorted
Descending-sorted [] = tt
Descending-sorted (t ∷ ts) = Descending-insert t (sorted ts) (Descending-sorted ts)

All-map : (R S : ℕ → Type 0) (ts : List ℕ) → ((t : ℕ) → R t → S t) → All R ts → All S ts
All-map R S [] f h = tt
All-map R S (t ∷ ts) f h = (f t h.0, All-map R S ts f h.1)

All-both : (R S : ℕ → Type 0) (ts : List ℕ) → All R ts → All S ts → All (λ t. R t × S t) ts
All-both R S [] r s = tt
All-both R S (t ∷ ts) r s = ((r.0, s.0), All-both R S ts r.1 s.1)

All-is_in : (R : ℕ → Type 0) (t : ℕ) (ts : List ℕ) → is_in t ts ≡ true → All R ts → R t
All-is_in R t [] i h = ground arith
All-is_in R t (u ∷ us) i h = elim (Bool-cases (t == u)) [
  | inl same ↦ subst R (sym ((==_iff t u).0 same)) h.0
  | inr other ↦ All-is_in R t us (rw other at i) h.1
]

-- A due threshold is found before the smaller ones.
first_due-larger :
    (due : ℕ → Bool) (ts : List ℕ) (t : ℕ)
    → Descending ts
    → first_due due ts ≡ some t
    → (due t ≡ true) × (is_in t ts ≡ true) × All (λ u. (due u ≡ false) ⊎ (u ≤ t)) ts
unfolding first_due
first_due-larger due [] t d h = cc h
first_due-larger due (u ∷ us) t d h = elim (Bool-cases (due u)) [
  | inl is ↦
      subst Found (found is h)
        (is, ground arith, (inr (omega arith), All-map _ _ us (λ v b. inr b) d.0))
  | inr isnt ↦
      let (due_t, is_there, larger) = first_due-larger due us t d.1 (rw isnt at h) in
      (due_t, ground arith, (inl isnt, larger))
]
  where
    Found : ℕ → Type 0
    Found v =
        (due v ≡ true) × (is_in v (u ∷ us) ≡ true) × All (λ w. (due w ≡ false) ⊎ (w ≤ v)) (u ∷ us)

    found : due u ≡ true → (if due u then some u else first_due due us) ≡ some t → u ≡ t
    found e h =
        ap (λ (o : Option ℕ). elim o as (λ _. ℕ) [ none ↦ u | some v ↦ v ])
          (sym (ap (λ b. if b then some u else first_due due us) e) ∙ h)

-- Just the thresholds from `bound` on have been announced.
abbrev pub Announced : ℕ → List ℕ → List ℕ → Type 0
Announced bound thresholds announced = All (λ t. is_in t announced ≡ leb bound t) thresholds

-- The next warning is below the bound, and becomes the bound.
announce_next :
    (at now bound : ℕ) (ts announced : List ℕ) (t : ℕ)
    → Descending ts
    → Announced bound ts announced
    → first_due (is_due at now announced) ts ≡ some t
    → (t < bound) × (at ≤ now + t) × Announced t ts (t ∷ announced)
unfolding is_due
announce_next at now bound ts announced t d a h =
    let (due, there, larger) = first_due-larger (is_due at now announced) ts t d h in
    let here = All-is_in _ t ts there a in
    (
      ground (arith, here),
      ground (arith, due),
      All-map _ _ ts (λ u x. step u (ground (arith, here)) x.0 x.1) (All-both _ _ ts a larger),
    )
  where
    step :
        (u : ℕ)
        → (t < bound) × (at ≤ now + t)
        → is_in u announced ≡ leb bound u
        → ((leb at (now + u) && not (is_in u announced)) ≡ false) ⊎ (u ≤ t)
        → is_in u (t ∷ announced) ≡ leb t u
    step u below known larger = ground arith

first_due-none :
    (due : ℕ → Bool) (ts : List ℕ) → first_due due ts ≡ none → All (λ u. due u ≡ false) ts
unfolding first_due
first_due-none due [] h = tt
first_due-none due (u ∷ us) h = elim (Bool-cases (due u)) [
  | inl is ↦ cc (rw is at h)
  | inr isnt ↦ (isnt, first_due-none due us (rw isnt at h))
]

All-from : (R : ℕ → Type 0) (ts : List ℕ) → ((t : ℕ) → is_in t ts ≡ true → R t) → All R ts
All-from R [] f = tt
All-from R (t ∷ ts) f = (f t (ground arith), All-from R ts (λ u i. f u (ground arith)))

is_in-keep : (f : ℕ → Bool) (t : ℕ) (ts : List ℕ) → is_in t (keep f ts) ≡ (is_in t ts && f t)
is_in-keep f t [] = refl
is_in-keep f t (u ∷ us) = elim (Bool-cases (t == u)) [
  | inl same ↦ ground (arith, is_in-keep f t us, ap f ((==_iff t u).0 same))
  | inr other ↦ ground (arith, is_in-keep f t us)
]

planned_Announced :
    (total_seconds : ℕ) (ts : List ℕ)
    → Announced (total_seconds + 1) ts (keep (λ t. ltb total_seconds t) ts)
planned_Announced total_seconds ts =
    All-from _ ts (λ t i. ground (arith, is_in-keep (λ u. ltb total_seconds u) t ts))

-- How many thresholds from `least` on have not been announced.
is_open : ℕ → List ℕ → ℕ → Bool
is_open least announced t = leb least t && not (is_in t announced)

open_count : ℕ → List ℕ → List ℕ → ℕ
open_count least announced [] = 0
open_count least announced (t ∷ ts) =
    (if is_open least announced t then 1 else 0) + open_count least announced ts

open_count-length : (least : ℕ) (announced ts : List ℕ) → open_count least announced ts ≤ length ts
unfolding open_count
open_count-length least announced [] = omega arith
open_count-length least announced (t ∷ ts) = ground (arith, open_count-length least announced ts)

open_count-more :
    (least t : ℕ) (announced ts : List ℕ)
    → open_count least (t ∷ announced) ts ≤ open_count least announced ts
unfolding open_count is_open
open_count-more least t announced [] = omega arith
open_count-more least t announced (u ∷ us) = ground (arith, open_count-more least t announced us)

open_count-less :
    (least t : ℕ) (announced ts : List ℕ)
    → is_in t ts ≡ true
    → is_open least announced t ≡ true
    → open_count least (t ∷ announced) ts < open_count least announced ts
unfolding open_count is_open
open_count-less least t announced [] i n = cc i
open_count-less least t announced (u ∷ us) i n = elim (Bool-cases (t == u)) [
  | inl same ↦ ground (
    arith,
    open_count-more least t announced us,
    ap (λ (v : ℕ). is_in v announced) ((==_iff t u).0 same),
    ap (λ (v : ℕ). leb least v) ((==_iff t u).0 same),
  )
  | inr other ↦ ground (arith, open_count-less least t announced us)
]

none_open :
    (least : ℕ) (announced ts : List ℕ)
    → open_count least announced ts ≤ 0
    → All (λ t. false ≡ is_open least announced t) ts
unfolding open_count
none_open least announced [] h = tt
none_open least announced (t ∷ ts) h = (ground arith, none_open least announced ts (ground arith))

-- Where every threshold from `least` on is announced or not due, and they are due, none is open.
nothing_open :
    (at now least : ℕ) (announced ts : List ℕ)
    → at ≤ now + least
    → All (λ u. (is_due at now announced u ≡ false) ⊎ (u < least)) ts
    → open_count least announced ts ≤ 0
unfolding open_count is_due is_open
nothing_open at now least announced [] h a = omega arith
nothing_open at now least announced (t ∷ ts) h a =
    ground (arith, nothing_open at now least announced ts h a.1, a.0)

still_open :
    (at now : ℕ) (announced : List ℕ) (t : ℕ)
    → is_due at now announced t ≡ true
    → is_in t announced ≡ false
unfolding is_due
still_open at now announced t h = ground arith

given :
    (least t u : ℕ) (announced later : List ℕ)
    → is_in t announced ≡ false
    → (leb least u && is_in u later) ≡ is_open least (t ∷ announced) u
    → (leb least u && is_in u (t ∷ later)) ≡ is_open least announced u
unfolding is_open
given least t u announced later closed h = elim (Bool-cases (u == t)) [
  | inl same ↦ ground (arith, ap (λ (v : ℕ). is_in v announced) ((==_iff u t).0 same))
  | inr other ↦ ground arith
]

collect : Option ℕ → List ℕ → List ℕ
collect none later = later
collect (some t) later = t ∷ later

note : ℕ → Option ℕ → List (ℕ × ℕ) → List (ℕ × ℕ)
note now none later = later
note now (some t) later = (now, t) ∷ later

-- Each below the bound and below those before it.
unfoldable pub Descends : ℕ → List ℕ → Type 0
Descends bound [] = Unit
Descends bound (w ∷ ws) = (w < bound) × Descends w ws

-- When a warning is given, no more is left than it says.
abbrev pub IsTimely : ℕ → ℕ × ℕ → Type 0
IsTimely at g = at ≤ g.0 + g.1

module _ {P : Type 0} where
  -- The warnings that polls at these times take.
  unfoldable pub warnings : List ℕ → Plan P → List ℕ
  unfolding collect
  warnings [] p = []
  warnings (now ∷ nows) p =
      let (warning, after) = take_due now p in collect warning (warnings nows after)

  take_due-warn :
      (at now : ℕ) (what : P) (p : Plan P) (o : Option ℕ)
      → p.deadline ≡ some (at, what)
      → first_due (is_due at now p.announced) p.thresholds ≡ o
      → take_due now p ≡ announce p o
  unfolding take_due
  take_due-warn at now what p o d e = rw (d, e) refl

  Descends-warnings :
      (nows : List ℕ) (at bound : ℕ) (what : P) (p : Plan P)
      → Descending p.thresholds
      → p.deadline ≡ some (at, what)
      → Announced bound p.thresholds p.announced
      → Descends bound (warnings nows p)
  unfolding warnings collect Descends
  Descends-warnings [] at bound what p sorted_ts d a = tt
  Descends-warnings (now ∷ nows) at bound what p sorted_ts d a =
      elim (Option-cases (first_due (is_due at now p.announced) p.thresholds)) [
        | inl e ↦
            rw (take_due-warn at now what p none d e)
              (Descends-warnings nows at bound what p sorted_ts d a)
        | inr (t, e) ↦
            let (below, due, next) =
              announce_next at now bound p.thresholds p.announced t sorted_ts a e in
            rw (take_due-warn at now what p (some t) d e) (
              below,
              Descends-warnings nows at t what (record p { announced = t ∷ p.announced }) sorted_ts
                  d next,
            )
      ]

  -- A warning from `least` on is one less to come; after a smaller one, none is to come.
  fewer :
      (at now least t : ℕ) (p : Plan P) (n : ℕ)
      → at ≤ now + least
      → is_in t p.thresholds ≡ true
      → is_in t p.announced ≡ false
      → All (λ u. (is_due at now p.announced u ≡ false) ⊎ (u ≤ t)) p.thresholds
      → open_count least p.announced p.thresholds ≤ n + 1
      → open_count least (t ∷ p.announced) p.thresholds ≤ n
  unfolding is_open
  fewer at now least t p n late there closed larger enough = elim (Bool-cases (leb least t)) [
    | inl counted ↦ omega (
      arith,
      enough,
      open_count-less least t p.announced p.thresholds there (ground (arith, counted, closed)),
    )
    | inr small ↦
        let smaller : t < least = ground (arith, small) in
        omega (
          arith,
          open_count-more least t p.announced p.thresholds,
          nothing_open at now least p.announced p.thresholds late
              (All-map _ _ p.thresholds (λ u x. beyond u smaller x) larger),
        )
  ]
    where
      beyond :
          (u : ℕ)
          → t < least
          → (is_due at now p.announced u ≡ false) ⊎ (u ≤ t)
          → (is_due at now p.announced u ≡ false) ⊎ (u < least)
      beyond u smaller (inl quiet) = inl quiet
      beyond u smaller (inr below) = inr (omega (arith, smaller, below))

  complete_from :
      (nows : List ℕ) (at least bound : ℕ) (what : P) (p : Plan P)
      → Descending p.thresholds
      → p.deadline ≡ some (at, what)
      → Announced bound p.thresholds p.announced
      → All (λ now. at ≤ now + least) nows
      → open_count least p.announced p.thresholds ≤ length nows
      → All
          (λ t. (leb least t && is_in t (warnings nows p)) ≡ is_open least p.announced t)
          p.thresholds
  unfolding warnings collect
  complete_from [] at least bound what p sorted_ts d a late enough =
      All-map _ _ p.thresholds (λ t h. ground (arith, h))
        (none_open least p.announced p.thresholds enough)
  complete_from (now ∷ nows) at least bound what p sorted_ts d a late enough =
      elim (Option-cases (first_due (is_due at now p.announced) p.thresholds)) [
        | inl e ↦ rw (take_due-warn at now what p none d e) (
            complete_from nows at least bound what p sorted_ts d a late.1 (
              ground (
                arith,
                nothing_open at now least p.announced p.thresholds late.0
                    (All-map _ _ p.thresholds (λ u x. inl x) (first_due-none _ _ e)),
              )))
        | inr (t, e) ↦
            let (below, due, next) =
              announce_next at now bound p.thresholds p.announced t sorted_ts a e in
            let (is, there, larger) = first_due-larger _ p.thresholds t sorted_ts e in
            let closed = still_open at now p.announced t is in
            let more =
              complete_from nows at least t what (record p { announced = t ∷ p.announced })
                sorted_ts d next late.1
                (fewer at now least t p (length nows) late.0 there closed larger
                  (omega (arith, enough))) in
            rw (take_due-warn at now what p (some t) d e)
              (All-map _ _ p.thresholds (λ u h. given least t u p.announced _ closed h) more)
      ]

  -- The polls that take a warning, each with its warning.
  unfoldable pub given_at : List ℕ → Plan P → List (ℕ × ℕ)
  unfolding note
  given_at [] p = []
  given_at (now ∷ nows) p =
      let (warning, after) = take_due now p in note now warning (given_at nows after)

  given_at-IsTimely :
      (nows : List ℕ) (at : ℕ) (what : P) (p : Plan P)
      → Descending p.thresholds
      → p.deadline ≡ some (at, what)
      → All (IsTimely at) (given_at nows p)
  unfolding given_at note is_due
  given_at-IsTimely [] at what p sorted_ts d = tt
  given_at-IsTimely (now ∷ nows) at what p sorted_ts d =
      elim (Option-cases (first_due (is_due at now p.announced) p.thresholds)) [
        | inl e ↦
            subst (λ (r : Option ℕ × Plan P). All (IsTimely at) (note now r.0 (given_at nows r.1)))
              (sym (take_due-warn at now what p none d e))
              (given_at-IsTimely nows at what p sorted_ts d)
        | inr (t, e) ↦
            let (is, there, larger) = first_due-larger _ p.thresholds t sorted_ts e in
            subst (λ (r : Option ℕ × Plan P). All (IsTimely at) (note now r.0 (given_at nows r.1)))
              (sym (take_due-warn at now what p (some t) d e))
              (
                ground (arith, is),
                given_at-IsTimely nows at what (record p { announced = t ∷ p.announced }) sorted_ts
                    d,
              )
      ]

  -- After a plan, the warnings that any polls take descend strictly, whatever the clock does, so that
  -- none is given twice, and none is for more than the delay that was planned. None is given while more
  -- time is left than it says.
  pub warnings-Descend :
      (warning_thresholds nows : List ℕ) (at total_seconds : ℕ) (what : P) (p : Plan P)
      → p.thresholds ≡ sorted warning_thresholds
      → Descends (total_seconds + 1) (warnings nows (plan_for at what total_seconds p))
        × All (IsTimely at) (given_at nows (plan_for at what total_seconds p))
  unfolding plan_for
  warnings-Descend warning_thresholds nows at total_seconds what p e =
      let descending = subst Descending (sym e) (Descending-sorted warning_thresholds) in
      (
        Descends-warnings nows at (total_seconds + 1) what (plan_for at what total_seconds p)
            descending refl (planned_Announced total_seconds p.thresholds),
        given_at-IsTimely nows at what (plan_for at what total_seconds p) descending refl,
      )

  -- As many polls as there are thresholds, at times when no more than `least` is left, give every warning
  -- from `least` up to the delay that was planned, and none for more than that delay.
  pub warnings-Complete :
      (warning_thresholds nows : List ℕ) (at least total_seconds : ℕ) (what : P) (p : Plan P)
      → p.thresholds ≡ sorted warning_thresholds
      → All (λ now. at ≤ now + least) nows
      → length p.thresholds ≤ length nows
      → All
          (λ t.
            (t < least)
            ⊎ (is_in t (warnings nows (plan_for at what total_seconds p)) ≡ leb t total_seconds))
          p.thresholds
  unfolding plan_for is_open
  warnings-Complete warning_thresholds nows at least total_seconds what p e late enough =
      let descending = subst Descending (sym e) (Descending-sorted warning_thresholds) in
      let announced = keep (λ t. ltb total_seconds t) p.thresholds in
      let start = planned_Announced total_seconds p.thresholds in
      All-map _ _ p.thresholds (λ t h. by_least t h.0 h.1)
        (All-both _ _ p.thresholds start (
          complete_from nows at least (total_seconds + 1) what (plan_for at what total_seconds p)
            descending refl start late
            (omega (arith, enough, open_count-length least announced p.thresholds))))
    where
      by_least :
          (t : ℕ)
          → is_in t (keep (λ u. ltb total_seconds u) p.thresholds) ≡ leb (total_seconds + 1) t
          → (leb least t && is_in t (warnings nows (plan_for at what total_seconds p)))
            ≡ (leb least t && not (is_in t (keep (λ u. ltb total_seconds u) p.thresholds)))
          → (t < least)
            ⊎ (is_in t (warnings nows (plan_for at what total_seconds p)) ≡ leb t total_seconds)
      by_least t known h = elim (Bool-cases (leb least t)) [
        | inl counted ↦ inr (ground (arith, known, h, counted))
        | inr small ↦ inl (ground (arith, small))
      ]
