-- ===== src/Schedule/Restarts.antt =====
-- app/adapters/restart_schedule.py: `InMemoryRestartSchedule`.
use mc_admin.Base.{ℕ, Text, Bool, Option, none, some, List, [], ◌∷◌}
use mc_admin.Service.{ScheduledRestart}
use mc_admin.Schedule.{Plan, plan_for, drop_plan, take_due}

abbrev pub default_thresholds : List ℕ
default_thresholds = 600 ∷ (300 ∷ (60 ∷ (30 ∷ (10 ∷ []))))

unfoldable pub schedule : ℕ → Text → ℕ → Bool → Plan ScheduledRestart → Plan ScheduledRestart
schedule restart_at username total_seconds defer_if_players =
    plan_for restart_at
      (record {
        restart_at = restart_at;
        scheduled_by = username;
        defer_if_players = defer_if_players;
      })
      total_seconds

unfoldable pub cancel : Plan ScheduledRestart → Bool × Plan ScheduledRestart
cancel = drop_plan

abbrev planned : {P : Type 0} → Option (ℕ × P) → Option P
planned none = none
planned (some (at, what)) = some what

unfoldable pub status : Plan ScheduledRestart → Option ScheduledRestart
status p = planned p.deadline

unfoldable pub take_due_warning : ℕ → Plan ScheduledRestart → Option ℕ × Plan ScheduledRestart
take_due_warning = take_due
