-- ===== src/Tests/Archives.antt =====
-- Archives of several months, and a restoration that is asked for, waits or has been started.
use mc_admin.Base.{◌≡◌, refl, ℕ, true, false, Text, codes, none, some, List, [], ◌∷◌, ◌++◌, All}
use mathlib.Core.List.{Perm}
use mc_admin.Service.{
  BackupArchive, PendingRestore, RestoreOperation, Phase, State, Env, Call, Reply, archives_list,
  archive_path, check_status, ok,
}
use mc_admin.Service.Archives.{under}
use mc_admin.Service.Archives.Retention.{retention_plan, max_of, with_slash}
use mc_admin.Service.Archives.Retention.Laws.{archives_of, Spared, retention_plan-Spares}
use mc_admin.Service.Archives.Ticks.{tick_pending_restore}
use mc_admin.Service.Archives.Ticks.Triples.{Ends}
use mc_admin.Service.Archives.Ticks.Cleared.{Settles, Fails}
use mc_admin.Service.Archives.Ticks.Progress.{Progress}
use mc_admin.Service.Archives.Ticks.Whole.{tick-Settles, tick_progresses}
use mc_admin.Service.Archives.Restores.{is_pending}
use mc_admin.Service.Maintenance.{enter_maintenance, exit_maintenance, tick_pending_maintenance}
use mc_admin.Service.Requests.Exclusion.{is_busy, Held, restoration-Excludes}
use mc_admin.Tests.Service.{calm, env, owner, fresh, no_backups}

abbrev archive : Text → ℕ → BackupArchive
archive name created_at = record {
  filename = codes "scheduled/" ++ name;
  size_bytes = 1;
  created_at = created_at;
}

abbrev archives : List BackupArchive
archives =
    archive (codes "a") 8000000
    ∷ (archive (codes "b") 1000000
        ∷ (archive (codes "c") 2000000
            ∷ (record { filename = codes "manual/d"; size_bytes = 1; created_at = 1 } ∷ [])))

retention_plan-Spares_example :
    Perm
      (archives_of (retention_plan ⦃env = env⦄ 7 3 (codes "scheduled") 8100000 archives).kept
        ++ archives_of
            (retention_plan ⦃env = env⦄ 7 3 (codes "scheduled") 8100000 archives).deleted)
      (under (with_slash ⦃env = env⦄ (codes "scheduled")) archives)
    × All
        (Spared ⦃env = env⦄
          (max_of 1 7)
          3
          8100000
          (archives_of (retention_plan ⦃env = env⦄ 7 3 (codes "scheduled") 8100000 archives).kept))
        (retention_plan ⦃env = env⦄ 7 3 (codes "scheduled") 8100000 archives).deleted
    × ((retention_plan ⦃env = env⦄ 7 3 (codes "scheduled") 8100000 (
          archives_of
            (retention_plan ⦃env = env⦄ 7 3 (codes "scheduled") 8100000 archives).kept)).deleted
        ≡ [])
retention_plan-Spares_example =
    retention_plan-Spares ⦃env = env⦄ 7 3 (codes "scheduled") 8100000 archives

-- The archive to restore is there and verified, and the backup that comes first has added one.
abbrev ready : (c : Call) → Reply c
ready archives_list =
    archive (codes "a") 1
    ∷ ((record { filename = codes "restore-safety/s"; size_bytes = 1; created_at = 1 }) ∷ [])
ready (archive_path name) = some name
ready (check_status name) = some (record {
  filename = name;
  is_ok = true;
  size_bytes = 1;
  detail = [];
  restorable = some true;
  archive_created_at = 1;
})
ready c = calm c

abbrev ready_env : Env
ready_env = record env { answers = λ _ c. ok (ready c) }

abbrev pending : PendingRestore
pending = record {
  filename = codes "scheduled/a";
  requested_by = codes "ann";
  deadline = 900;
  operation_id = codes "x";
  safety_archives_before = [];
}

abbrev waits : State
waits = record fresh { backups = record no_backups { pending = some pending } }

tick-Settles_example :
    Ends
      (Settles ⦃env = ready_env⦄ owner pending [])
      (Fails ⦃env = ready_env⦄ owner pending [])
      (tick_pending_restore ⦃env = ready_env⦄ owner waits)
tick-Settles_example = tick-Settles ⦃env = ready_env⦄ owner waits pending refl refl

abbrev operation : RestoreOperation
operation = record {
  filename = codes "scheduled/a";
  requested_by = codes "ann";
  phase = Phase.restore_running;
  started_at = 1;
  deadline = 1801;
  message = [];
  completed_at = none;
  operation_id = codes "x";
}

abbrev runs : State
runs = record fresh { backups = record no_backups { operation = some operation } }

tick_progresses_example :
    Ends
      (λ _. Progress operation none [])
      (λ _. Progress operation none [])
      (tick_pending_restore ⦃env = ready_env⦄ owner runs)
tick_progresses_example = tick_progresses ⦃env = ready_env⦄ owner runs operation refl refl

restoration-Excludes_example :
    Ends
      (λ _ _. ⊥)
      (λ _. Held ⦃env = ready_env⦄ [])
      (enter_maintenance ⦃env = ready_env⦄ owner (codes "later") [] 0 false waits)
    × Ends
        (λ _ _. ⊥)
        (λ _. Held ⦃env = ready_env⦄ [])
        (exit_maintenance ⦃env = ready_env⦄ owner waits)
    × Ends
        (λ _. Held ⦃env = ready_env⦄ [])
        (λ _. Held ⦃env = ready_env⦄ [])
        (tick_pending_maintenance ⦃env = ready_env⦄ owner waits)
unfolding is_busy is_pending
restoration-Excludes_example =
    restoration-Excludes ⦃env = ready_env⦄ owner waits (codes "later") [] 0 false refl
