-- ===== src/Schedule/Closings.antt =====
-- app/adapters/maintenance_state.py: `InMemoryPendingMaintenance`.
use mc_admin.Base.{ℕ, Text, codes, Bool, Option, none, some, ◌++◌}
use mc_admin.Service.{PendingMaintenance}
use mc_admin.Schedule.{Plan, plan_for, drop_plan, take_due}

unfoldable pub schedule :
    (ℕ → Text)
    → ℕ
    → Text
    → Text
    → Text
    → ℕ
    → Bool
    → Plan PendingMaintenance
    → Plan PendingMaintenance
schedule isoformat engage_at username motd kick total_seconds defer_if_players =
    plan_for engage_at
      (record {
        engage_at = engage_at;
        requested_by = username;
        motd = motd;
        kick = kick;
        operation_id = codes "maintenance::" ++ isoformat engage_at;
        defer_if_players = defer_if_players;
      })
      total_seconds

unfoldable pub cancel : Plan PendingMaintenance → Bool × Plan PendingMaintenance
cancel = drop_plan

abbrev planned : {P : Type 0} → Option (ℕ × P) → Option P
planned none = none
planned (some (at, what)) = some what

unfoldable pub status : Plan PendingMaintenance → Option PendingMaintenance
status p = planned p.deadline

unfoldable pub take_due_warning : ℕ → Plan PendingMaintenance → Option ℕ × Plan PendingMaintenance
take_due_warning = take_due
