-- ===== src/Schedule.antt =====
-- app/adapters/restart_schedule.py and app/adapters/maintenance_state.py: a deadline in memory, and the
-- warnings before it. Times and thresholds are whole numbers of one unit, and `remaining <= threshold`
-- is written without the difference, which may be negative.
pub mod Warnings
pub mod Restarts
pub mod Closings
use mc_admin.Base.{
  ℕ, ◌+◌, Text, Bool, true, false, Option, none, some, List, [], ◌∷◌, ◌&&◌, not, any, keep, leb,
  ltb, ◌==◌, if◌then◌else◌,
}

-- A deadline with what is planned for it, and the thresholds announced already, as a list for the set.
pub record Plan (P : Type 0) : Type 0 where
  pub thresholds : List ℕ
  pub deadline : Option (ℕ × P)
  pub announced : List ℕ

insert : ℕ → List ℕ → List ℕ
insert t [] = t ∷ []
insert t (u ∷ us) = let rest = insert t us in if leb u t then t ∷ (u ∷ us) else u ∷ rest

-- `sorted(warning_thresholds, reverse=True)`
unfoldable pub sorted : List ℕ → List ℕ
unfolding insert
sorted [] = []
sorted (t ∷ ts) = insert t (sorted ts)

abbrev pub is_in : ℕ → List ℕ → Bool
is_in t ts = any (λ u. t == u) ts

unfoldable pub is_due : ℕ → ℕ → List ℕ → ℕ → Bool
is_due at now announced threshold = leb at (now + threshold) && not (is_in threshold announced)

unfoldable pub first_due : (ℕ → Bool) → List ℕ → Option ℕ
first_due due [] = none
first_due due (t ∷ ts) = let rest = first_due due ts in if due t then some t else rest

module _ {P : Type 0} where
  unfoldable pub create : List ℕ → Plan P
  unfolding sorted
  create warning_thresholds = record {
    thresholds = sorted warning_thresholds;
    deadline = none;
    announced = [];
  }

  -- The thresholds that lie beyond the delay count as announced.
  unfoldable pub plan_for : ℕ → P → ℕ → Plan P → Plan P
  plan_for at what total_seconds p = record p {
    deadline = some (at, what);
    announced = keep (λ t. ltb total_seconds t) p.thresholds;
  }

  unfoldable pub drop_plan : Plan P → Bool × Plan P
  drop_plan p = (
    elim p.deadline [ none ↦ false | some _ ↦ true ],
    record p { deadline = none; announced = [] },
  )

  abbrev announce : Plan P → Option ℕ → Option ℕ × Plan P
  announce p none = (none, p)
  announce p (some t) = (some t, record p { announced = t ∷ p.announced })

  abbrev warn : ℕ → Plan P → Option (ℕ × P) → Option ℕ × Plan P
  warn now p none = (none, p)
  warn now p (some (at, what)) = announce p (first_due (is_due at now p.announced) p.thresholds)

  -- `take_due_warning`
  unfoldable pub take_due : ℕ → Plan P → Option ℕ × Plan P
  take_due now p = warn now p p.deadline
