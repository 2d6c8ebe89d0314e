-- ===== src/Tests/Schedule.antt =====
-- A restart planned for time 1000, 200 seconds ahead.
use mc_admin.Base.{ℕ, ◌<◌, ◌⊎◌, codes, false, none, List, [], ◌∷◌, ◌≡◌, refl, arith, All, leb}
use mc_admin.Service.{ScheduledRestart}
use mc_admin.Schedule.{
  Plan, sorted, create, drop_plan, plan_for, is_in, is_due, first_due, take_due,
}
use mc_admin.Schedule.Restarts.{default_thresholds, schedule, cancel}
use mc_admin.Schedule.Warnings.{
  Descends, IsTimely, given_at, warnings, warnings-Descend, warnings-Complete,
}

abbrev restart : ScheduledRestart
restart = record { restart_at = 1000; scheduled_by = codes "bob"; defer_if_players = false }

abbrev idle : Plan ScheduledRestart
idle = record { thresholds = default_thresholds; deadline = none; announced = [] }

abbrev polls : List ℕ
polls = 970 ∷ (975 ∷ (980 ∷ (985 ∷ (990 ∷ []))))

created_idle : create default_thresholds ≡ idle
unfolding create
created_idle = refl

-- The clock goes back between the polls.
three_warnings :
    warnings (990 ∷ (945 ∷ (930 ∷ (970 ∷ [])))) (schedule 1000 (codes "bob") 200 false idle)
    ≡ 60 ∷ (30 ∷ [])
unfolding warnings schedule plan_for take_due first_due is_due
three_warnings = refl

cancelled : (cancel (schedule 1000 (codes "bob") 200 false idle)).1 ≡ idle
unfolding cancel schedule plan_for drop_plan
cancelled = refl

warnings-Descend_example :
    Descends 201 (warnings (990 ∷ (945 ∷ [])) (plan_for 1000 restart 200 idle))
    × All (IsTimely 1000) (given_at (990 ∷ (945 ∷ [])) (plan_for 1000 restart 200 idle))
unfolding sorted
warnings-Descend_example =
    warnings-Descend default_thresholds (990 ∷ (945 ∷ [])) 1000 200 restart idle refl

warnings-Complete_example :
    All
      (λ t. (t < 30) ⊎ (is_in t (warnings polls (plan_for 1000 restart 200 idle)) ≡ leb t 200))
      default_thresholds
unfolding sorted
warnings-Complete_example =
    warnings-Complete default_thresholds polls 1000 30 200 restart idle refl
      (omega arith, (omega arith, (omega arith, (omega arith, (omega arith, tt))))) (omega arith)
