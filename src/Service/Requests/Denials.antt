-- ===== src/Service/Requests/Denials.antt =====
-- What a user without the permission can bring about.
use mc_admin.Base.{ℕ, codes, false, ◌≡◌, refl, List, [], ◌∷◌, ◌++◌, inl, inr, arith}
use mc_admin.Access.{Permission, value, User, can}
use mc_admin.Service.{
  Out-cases, Env, AuditEntry, Action, State, Error, Out, ok, raised, Event, order, audit_record,
  clock_now, ◌>>=◌, discard, raise, port, tell, continue, pure,
}
use mc_admin.Service.Core.{authorize, write_audit}
use mc_admin.Service.Moderation.{
  whitelist, whitelist_add, whitelist_remove, ops, pending_op_levels, op_add, op_remove, kick, bans,
  ban, ban_temporary, pending_unbans, pardon,
}
use mc_admin.Service.Actions.{
  restart, start, schedule_restart, cancel_scheduled_restart, scheduled_restart_status,
  set_recurring_restart, clear_recurring_restart, recurring_restart_status,
}
use mc_admin.Service.Maintenance.{
  maintenance_status, enter_maintenance, cancel_pending_maintenance, exit_maintenance,
}
use mc_admin.Service.Requests.{
  Request, permission_of, perform, read_whitelist, read_ops, read_op_levels, read_bans, read_unbans,
  read_restart, read_recurring, read_maintenance, add_to_whitelist, remove_from_whitelist,
  remove_op, lift_ban, add_op, exclude, banish, banish_for, restart_now, start_now, cancel_restart,
  clear_recurring, cancel_maintenance, leave_maintenance, schedule, set_recurring,
  begin_maintenance,
}

-- The entry of the audit for a refusal.
abbrev pub denial : ⦃env : Env⦄ → User → Permission → ℕ → AuditEntry
denial ⦃env⦄ user permission now = record {
  timestamp = now;
  username = user.username;
  role = user.role.name;
  action = value permission;
  target = env.container_name;
  outcome = codes "denied";
  detail = [];
}

-- What a refusal calls, the last first: the clock, and then the audit with the one entry of the refusal,
-- however the audit answers. The entry is missing only where the clock has raised.
pub data Trail ⦃env : Env⦄ (user : User) (permission : Permission) : List Event → Type 0 where
  without_time :
      (e : Error) → Trail user permission ((record { call = clock_now; answer = raised e }) ∷ [])
  with_entry :
      (now : ℕ) (answer : Out (Unit {0}))
      → Trail user permission (
          (record { call = order (audit_record (denial user permission now)); answer = answer })
          ∷ ((record { call = clock_now; answer = ok now }) ∷ []))

-- The call has raised, its calls of ports are those of a refusal, and the service is as before.
pub record Refused ⦃env : Env⦄ {A : Type 0} (user : User) (permission : Permission) (s : State)
    (r : Out A × State) : Type 0 where
  pub reason : Error
  pub raises : r.0 ≡ raised reason
  pub calls : List Event
  pub added : r.1.trace ≡ calls ++ s.trace
  pub trail : Trail user permission calls
  pub same_operation : r.1.operation ≡ s.operation
  pub same_announced : r.1.announced ≡ s.announced
  pub same_backups : r.1.backups ≡ s.backups

module _ ⦃env : Env⦄ (user : User) (permission : Permission) (h : can user permission ≡ false) where
  denied :
      {A : Type 0} (rest : Unit {0} → Action A) (s : State)
      → Refused user permission s ((authorize user permission >>= rest) s)
  unfolding authorize write_audit ◌>>=◌ port tell raise
  denied rest s = elim (Out-cases (env.answers s.trace clock_now)) [
    | inr (e, failed) ↦
        rw (h, failed)
          (record {
            reason = e;
            raises = refl;
            calls = (record { call = clock_now; answer = raised e }) ∷ [];
            added = refl;
            trail = without_time e;
            same_operation = refl;
            same_announced = refl;
            same_backups = refl;
          })
    | inl (now, given) ↦
        let asked : Event = record { call = clock_now; answer = ok now } in
        let entry = denial user permission now in
        elim (Out-cases (env.answers (asked ∷ s.trace) (order (audit_record entry)))) [
          | inr (e, failed) ↦
              rw (h, given, failed)
                (record {
                  reason = e;
                  raises = refl;
                  calls =
                      (record { call = order (audit_record entry); answer = raised e })
                      ∷ asked
                      ∷ [];
                  added = refl;
                  trail = with_entry now (raised e);
                  same_operation = refl;
                  same_announced = refl;
                  same_backups = refl;
                })
          | inl (_, written) ↦
              rw (h, given, written)
                (record {
                  reason = _;
                  raises = refl;
                  calls =
                      (record { call = order (audit_record entry); answer = ok tt }) ∷ asked ∷ [];
                  added = refl;
                  trail = with_entry now (ok tt);
                  same_operation = refl;
                  same_announced = refl;
                  same_backups = refl;
                })
        ]
  ]

discard_case :
    ⦃env : Env⦄ {A : Type 0} (user : User) (permission : Permission) (s t : State) (r : Out A)
    → Refused user permission s (r, t)
    → Refused user permission s (continue {A = A} (λ _. pure tt) (r, t))
unfolding pure
discard_case user permission s t (raised e) q = record {
  reason = e;
  raises = refl;
  calls = q.calls;
  added = q.added;
  trail = q.trail;
  same_operation = q.same_operation;
  same_announced = q.same_announced;
  same_backups = q.same_backups;
}
discard_case user permission s t (ok a) q =
    let e : ok a ≡ raised q.reason = q.raises in ground arith

discarded :
    ⦃env : Env⦄ {A : Type 0} (user : User) (permission : Permission) (m : Action A) (s : State)
    → Refused user permission s (m s)
    → Refused user permission s (discard m s)
unfolding discard ◌>>=◌
discarded user permission m s q = discard_case user permission s (m s).1 (m s).0 q

-- Of a user who may not do what they ask for, a request raises and leaves the service as it was,
-- whatever the ports answer. It asks the clock and then, unless the clock raises, hands the audit one
-- entry that names the user, the permission and « denied »; it calls nothing else.
pub denied_request :
    ⦃env : Env⦄ (user : User) (request : Request) (s : State)
    → can user (permission_of request) ≡ false
    → Refused user (permission_of request) s (perform user request s)
unfolding permission_of perform whitelist whitelist_add whitelist_remove ops pending_op_levels
    op_add op_remove kick bans ban ban_temporary pending_unbans pardon restart start
    schedule_restart cancel_scheduled_restart scheduled_restart_status set_recurring_restart
    clear_recurring_restart recurring_restart_status maintenance_status enter_maintenance
    cancel_pending_maintenance exit_maintenance
denied_request user read_whitelist s h = discarded user _ _ s (denied user _ h _ s)
denied_request user (add_to_whitelist name) s h = discarded user _ _ s (denied user _ h _ s)
denied_request user (remove_from_whitelist name) s h = discarded user _ _ s (denied user _ h _ s)
denied_request user read_ops s h = discarded user _ _ s (denied user _ h _ s)
denied_request user read_op_levels s h = discarded user _ _ s (denied user _ h _ s)
denied_request user (add_op name level) s h = discarded user _ _ s (denied user _ h _ s)
denied_request user (remove_op name) s h = discarded user _ _ s (denied user _ h _ s)
denied_request user (exclude name reason) s h = discarded user _ _ s (denied user _ h _ s)
denied_request user read_bans s h = discarded user _ _ s (denied user _ h _ s)
denied_request user read_unbans s h = discarded user _ _ s (denied user _ h _ s)
denied_request user (banish name reason) s h = discarded user _ _ s (denied user _ h _ s)
denied_request user (banish_for name hours reason) s h = discarded user _ _ s (denied user _ h _ s)
denied_request user (lift_ban name) s h = discarded user _ _ s (denied user _ h _ s)
denied_request user read_restart s h = discarded user _ _ s (denied user _ h _ s)
denied_request user read_recurring s h = discarded user _ _ s (denied user _ h _ s)
denied_request user (restart_now operation_id requested_by) s h =
    discarded user _ _ s (denied user _ h _ s)
denied_request user start_now s h = discarded user _ _ s (denied user _ h _ s)
denied_request user (schedule minutes defer) s h = discarded user _ _ s (denied user _ h _ s)
denied_request user cancel_restart s h = discarded user _ _ s (denied user _ h _ s)
denied_request user (set_recurring time lead defer) s h = discarded user _ _ s (denied user _ h _ s)
denied_request user clear_recurring s h = discarded user _ _ s (denied user _ h _ s)
denied_request user read_maintenance s h = discarded user _ _ s (denied user _ h _ s)
denied_request user (begin_maintenance message until grace defer) s h =
    discarded user _ _ s (denied user _ h _ s)
denied_request user cancel_maintenance s h = discarded user _ _ s (denied user _ h _ s)
denied_request user leave_maintenance s h = discarded user _ _ s (denied user _ h _ s)
