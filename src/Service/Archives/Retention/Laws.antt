-- ===== src/Service/Archives/Retention/Laws.antt =====
-- What the plan of the retention keeps and deletes.
use mc_admin.Base.{
  ◌≡◌, refl, ap, ◌∙◌, ◌⊎◌, inl, inr, arith, ℕ, ◌-◌, ◌*◌, ◌≤◌, ◌<◌, Text, Bool, true, false, List,
  [], ◌∷◌, ◌++◌, map, leb, any, All, Any, Bool-cases,
}
use mathlib.Core.List.{Perm, perm_middle}
use mathlib.Core.List.Perm
use mc_admin.Service.{BackupArchive, Env}
use mc_admin.Service.Archives.{under, by_newest}
use mc_admin.Service.Archives.Retention.{
  RetentionItem, RetentionPlan, Month, same_month, Verdict, is_kept, max_of, month_key, judge,
  reason_of, months_after, place, plan_from, with_slash, retention_plan,
}
use mc_admin.Service.Archives.Retention.Order.{
  IsSorted, Bounded, IsSorted-by_newest, IsSorted-under, by_newest_sorted, Inside-under,
  under-Inside, under-by_newest-perm,
}

abbrev pub archives_of : List RetentionItem → List BackupArchive
archives_of items = map (λ (i : RetentionItem). i.archive) items

-- The archives that come before are at least as new as the rest.
abbrev Before : List BackupArchive → List BackupArchive → Type 0
Before pre l =
    All (λ (b : BackupArchive). All (λ (x : BackupArchive). b.created_at ≤ x.created_at) pre) l

Before-cons :
    (a : BackupArchive) (pre l : List BackupArchive)
    → Bounded a.created_at l
    → Before pre l
    → Before (a ∷ pre) l
Before-cons a pre [] h hs = tt
Before-cons a pre (b ∷ l) h hs = ((h.0, hs.0), Before-cons a pre l h.1 hs.1)

module _ ⦃env : Env⦄ (daily_days monthly_months now : ℕ) where
  -- Some archive of a list is of the month of a given one, and not older.
  abbrev pub Covered : BackupArchive → List BackupArchive → Type 0
  Covered a ks =
      Any
        (λ (k : BackupArchive).
          (same_month (month_key a) (month_key k) ≡ true) × (a.created_at ≤ k.created_at))
        ks

  -- Older than the days of which all is kept, and older than the months too or covered.
  abbrev pub Spared : List BackupArchive → RetentionItem → Type 0
  Spared ks i =
      (daily_days * 86400 < now - i.archive.created_at)
      × ((max_of daily_days (monthly_months * 31) * 86400 < now - i.archive.created_at)
          ⊎ Covered i.archive ks)

  partition :
      (seen : List Month) (l : List BackupArchive)
      → Perm
          (archives_of (plan_from daily_days monthly_months now seen l).kept
            ++ archives_of (plan_from daily_days monthly_months now seen l).deleted)
          l
  unfolding plan_from place
  partition seen [] = Perm.rfl
  partition seen (a ∷ l) = by_verdict (is_kept v) (partition (months_after a v seen) l)
    where
      v : Verdict
      v = judge daily_days monthly_months now seen a

      item : RetentionItem
      item = record { archive = a; reason = reason_of daily_days monthly_months v }

      rest : RetentionPlan
      rest = plan_from daily_days monthly_months now (months_after a v seen) l

      by_verdict :
          (b : Bool)
          → Perm (archives_of rest.kept ++ archives_of rest.deleted) l
          → Perm
              (archives_of (place b item rest).kept ++ archives_of (place b item rest).deleted)
              (a ∷ l)
      by_verdict true h = Perm.cons a h
      by_verdict false h =
          Perm.trans (perm_middle (archives_of rest.kept) (archives_of rest.deleted))
            (Perm.cons a h)

  -- A second plan at the same time, of what the first keeps, deletes nothing.
  replan :
      (seen : List Month) (l : List BackupArchive)
      → (plan_from daily_days monthly_months now seen
          (archives_of (plan_from daily_days monthly_months now seen l).kept)).deleted
        ≡ []
  unfolding plan_from place months_after
  replan seen [] = refl
  replan seen (a ∷ l) = elim (Bool-cases (is_kept (judge daily_days monthly_months now seen a))) [
    | inl kept ↦ rw (kept, kept) (replan (month_key a ∷ seen) l)
    | inr deleted ↦ rw deleted (replan seen l)
  ]

  judge_deleted :
      (seen : List Month) (a : BackupArchive)
      → is_kept (judge daily_days monthly_months now seen a) ≡ false
      → (daily_days * 86400 < now - a.created_at)
        × ((max_of daily_days (monthly_months * 31) * 86400 < now - a.created_at)
            ⊎ (any (same_month (month_key a)) seen ≡ true))
  unfolding is_kept judge
  judge_deleted seen a h =
      let bound = max_of daily_days (monthly_months * 31) * 86400 in
      elim (Bool-cases (leb (now - a.created_at) (daily_days * 86400))) [
        | inl young ↦ ground (arith, h, young)
        | inr old ↦ elim (Bool-cases (leb (now - a.created_at) bound)) [
          | inr ancient ↦ (ground arith, inl (ground arith))
          | inl within ↦ elim (Bool-cases (any (same_month (month_key a)) seen)) [
            | inl double ↦ (ground arith, inr double)
            | inr alone ↦ ground (arith, h, old, within, alone)
          ]
        ]
      ]

  Covered-by :
      (a : BackupArchive) (pre : List BackupArchive)
      → any (same_month (month_key a)) (map month_key pre) ≡ true
      → All (λ (x : BackupArchive). a.created_at ≤ x.created_at) pre
      → Covered a pre
  Covered-by a [] h hs = ground (arith, h)
  Covered-by a (x ∷ pre) h hs = elim (Bool-cases (same_month (month_key a) (month_key x))) [
    | inl same ↦ inl (same, hs.0)
    | inr other ↦ inr (Covered-by a pre (rw other at h) hs.1)
  ]

  Covered-append :
      (a : BackupArchive) (pre ks : List BackupArchive) → Covered a pre → Covered a (pre ++ ks)
  Covered-append a [] ks h = absurd h
  Covered-append a (x ∷ pre) ks (inl h) = inl h
  Covered-append a (x ∷ pre) ks (inr h) = inr (Covered-append a pre ks h)

  Covered-middle :
      (a x : BackupArchive) (pre ks : List BackupArchive)
      → Covered a ((x ∷ pre) ++ ks)
      → Covered a (pre ++ (x ∷ ks))
  Covered-middle a x [] ks h = h
  Covered-middle a x (y ∷ pre) ks (inl h) = inr (Covered-middle a x pre ks (inl h))
  Covered-middle a x (y ∷ pre) ks (inr (inl h)) = inl h
  Covered-middle a x (y ∷ pre) ks (inr (inr h)) = inr (Covered-middle a x pre ks (inr h))

  All-middle :
      (x : BackupArchive) (pre ks : List BackupArchive) (items : List RetentionItem)
      → All (Spared ((x ∷ pre) ++ ks)) items
      → All (Spared (pre ++ (x ∷ ks))) items
  All-middle x pre ks [] h = tt
  All-middle x pre ks (i ∷ items) ((old, inl ancient), hs) =
      ((old, inl ancient), All-middle x pre ks items hs)
  All-middle x pre ks (i ∷ items) ((old, inr covered), hs) =
      ((old, inr (Covered-middle i.archive x pre ks covered)), All-middle x pre ks items hs)

  spares :
      (pre l : List BackupArchive)
      → IsSorted l
      → Before pre l
      → All
          (Spared (
            pre
            ++ archives_of (plan_from daily_days monthly_months now (map month_key pre) l).kept))
          (plan_from daily_days monthly_months now (map month_key pre) l).deleted
  unfolding plan_from place months_after IsSorted
  spares pre [] h before = tt
  spares pre (a ∷ l) h before =
      elim (Bool-cases (is_kept (judge daily_days monthly_months now (map month_key pre) a))) [
        | inl kept ↦
            rw kept
              (All-middle a pre _ _ (spares (a ∷ pre) l h.1 (Before-cons a pre l h.0 before.1)))
        | inr deleted ↦
            let (old, why) = judge_deleted (map month_key pre) a deleted in
            rw deleted ((old, spared why), spares pre l h.1 before.1)
      ]
    where
      spared :
          (max_of daily_days (monthly_months * 31) * 86400 < now - a.created_at)
            ⊎ (any (same_month (month_key a)) (map month_key pre) ≡ true)
          → (max_of daily_days (monthly_months * 31) * 86400 < now - a.created_at)
            ⊎ Covered a (
                pre
                ++ archives_of (plan_from daily_days monthly_months now (map month_key pre) l).kept)
      spared (inl ancient) = inl ancient
      spared (inr double) = inr (Covered-append a pre _ (Covered-by a pre double before.0))

  All-kept :
      (P : BackupArchive → Type 0) (seen : List Month) (l : List BackupArchive)
      → All P l
      → All P (archives_of (plan_from daily_days monthly_months now seen l).kept)
  unfolding plan_from place months_after
  All-kept P seen [] h = tt
  All-kept P seen (a ∷ l) h =
      elim (Bool-cases (is_kept (judge daily_days monthly_months now seen a))) [
        | inl kept ↦ rw kept (h.0, All-kept P (month_key a ∷ seen) l h.1)
        | inr deleted ↦ rw deleted (All-kept P seen l h.1)
      ]

  IsSorted-kept :
      (seen : List Month) (l : List BackupArchive)
      → IsSorted l
      → IsSorted (archives_of (plan_from daily_days monthly_months now seen l).kept)
  unfolding plan_from place months_after IsSorted
  IsSorted-kept seen [] h = tt
  IsSorted-kept seen (a ∷ l) h =
      elim (Bool-cases (is_kept (judge daily_days monthly_months now seen a))) [
        | inl kept ↦
            rw kept
              (All-kept _ (month_key a ∷ seen) l h.0, IsSorted-kept (month_key a ∷ seen) l h.1)
        | inr deleted ↦ rw deleted (IsSorted-kept seen l h.1)
      ]

module _ ⦃env : Env⦄ (daily_days monthly_months : ℕ) (prefix : Text) (now : ℕ) where
  retention_plan_again :
      (archives : List BackupArchive)
      → (retention_plan daily_days monthly_months prefix now
          (archives_of (retention_plan daily_days monthly_months prefix now archives).kept)).deleted
        ≡ []
  unfolding retention_plan
  retention_plan_again archives =
      ap
        (λ (l : List BackupArchive).
          (plan_from (max_of 1 daily_days) monthly_months now [] l).deleted)
        (ap (under (with_slash prefix)) (
            by_newest_sorted _
              (IsSorted-kept (max_of 1 daily_days) monthly_months now [] scope sorted_scope))
          ∙ under-Inside (with_slash prefix) _ (
              All-kept (max_of 1 daily_days) monthly_months now _ [] scope
                (Inside-under (with_slash prefix) (by_newest archives))))
      ∙ replan (max_of 1 daily_days) monthly_months now [] scope
    where
      scope : List BackupArchive
      scope = under (with_slash prefix) (by_newest archives)

      sorted_scope : IsSorted scope
      sorted_scope =
          IsSorted-under (with_slash prefix) (by_newest archives) (IsSorted-by_newest archives)

  -- The plan of the retention sorts the archives of the directory into those to keep and those to
  -- delete. Each of the latter is older than the days of which all is kept, counted as one at least,
  -- and older than the months too, unless an archive of its month that is not older is kept. The plan
  -- of what a plan keeps, at the same time, deletes nothing.
  pub retention_plan-Spares :
      (archives : List BackupArchive)
      → Perm
          (archives_of (retention_plan daily_days monthly_months prefix now archives).kept
            ++ archives_of (retention_plan daily_days monthly_months prefix now archives).deleted)
          (under (with_slash prefix) archives)
        × All
            (Spared
              (max_of 1 daily_days)
              monthly_months
              now
              (archives_of (retention_plan daily_days monthly_months prefix now archives).kept))
            (retention_plan daily_days monthly_months prefix now archives).deleted
        × ((retention_plan daily_days monthly_months prefix now (
              archives_of
                (retention_plan daily_days monthly_months prefix now archives).kept)).deleted
            ≡ [])
  unfolding retention_plan
  retention_plan-Spares archives = (
    Perm.trans (partition (max_of 1 daily_days) monthly_months now [] scope)
        (under-by_newest-perm (with_slash prefix) archives),
    spares (max_of 1 daily_days) monthly_months now [] scope
        (IsSorted-under (with_slash prefix) (by_newest archives) (IsSorted-by_newest archives))
        (nothing scope),
    retention_plan_again archives,
  )
    where
      scope : List BackupArchive
      scope = under (with_slash prefix) (by_newest archives)

      nothing : (l : List BackupArchive) → Before [] l
      nothing [] = tt
      nothing (b ∷ l) = (tt, nothing l)
