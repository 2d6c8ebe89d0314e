-- ===== src/Service/Requests/Exclusion.antt =====
-- Restorations and maintenances exclude each other: what app/domain/services/maintenance.py does while
-- a restoration of app/domain/services/backups.py waits or goes on.
use mc_admin.Base.{
  ◌≡◌, refl, ap, arith, ℕ, Text, codes, not, leb, Bool, true, ◌&&◌, ◌||◌, Option, none, some, List,
  [], ◌∷◌, ◌++◌, All, if◌then◌else◌,
}
use mc_admin.Access.{Permission, User}
use mc_admin.Service.{
  Call, Event, Kind, raise, ◌>>◌, Out, ok, raised, Error, Backups, State, Env, Action, get_backups,
  port, ◌>>=◌, clock_now, closing_status, closing_warning, get_state, set_announced, match_option,
}
use mc_admin.Service.Rules.{Keeps, keeps_rules, Stays}
use mc_admin.Service.Core.{authorize, write_audit}
use mc_admin.Service.Maintenance.{
  is_restoring, enter_maintenance, exit_maintenance, tick_pending_maintenance,
}
use mc_admin.Service.Archives.Restores.{is_active, is_pending, restore_in_progress}
use mc_admin.Service.Archives.Restores.Passed.{Leads-fact}
use mc_admin.Service.Archives.Ticks.Triples.{
  Leads, Ends, Leads-pure, Leads-raise, Leads-if, Leads-bind, Leads-attempt, Leads-post, Quiet,
  quiet_rules, Quiet-port, Quiet-tell, Mildly, Mildly-refl, Mild,
}
use mc_admin.Service.Archives.Ticks.Quiet.{Quiet-authorize, Quiet-write_audit, Quiet-best_effort}
use mc_admin.Service.Requests.Ordinary.{
  Ordinary, Distant, Keeps-authorize, Keeps-write_audit, Keeps-Ordinary, Keeps-order,
}

module _ ⦃env : Env⦄ where
  -- A restoration waits for the backup that comes first, or has been started and is not over.
  unfoldable pub is_busy : Backups → Bool
  is_busy b = (env.has_pending_restore && is_pending b.pending) || is_active b.operation

  Quiet-get_state : Quiet get_state
  unfolding Quiet get_state
  Quiet-get_state s = Mildly-refl s

  Quiet-set_announced : (l : List Text) → Quiet (set_announced l)
  unfolding Quiet set_announced
  Quiet-set_announced l s = record {
    calls = [];
    added = refl;
    mild = tt;
    same_pending = refl;
    same_operation = refl;
  }

  module _ (t0 : List Event) where
    -- Calls have been made since a trace, none of which is to the doorman or turns the server on or off.
    unfoldable pub Away : List Event → Type 0
    Away t = (calls : List Event) × ((t ≡ calls ++ t0) × All (λ (e : Event). Distant e.call) calls)

    Ordinary-Away : (c : Call) → Ordinary c → Stays Away c
    unfolding Away
    Ordinary-Away c fits answer t (calls, (added, all)) = (
      (record { call = c; answer = answer }) ∷ calls,
      (ap (λ (l : List Event). (record { call = c; answer = answer }) ∷ l) added, (fits.1, all)),
    )

    abbrev pub Held : State → Type 0
    Held s = (is_busy s.backups ≡ true) × Away s.trace

    Held-Ends :
        {A : Type 0} (r : Out A) (s : State) → Held s → Ends (λ (_ : A). Held) (λ _. Held) (r, s)
    Held-Ends (ok a) s h = h
    Held-Ends (raised e) s h = h

    still_busy : (s s' : State) → Mildly s s' → is_busy s.backups ≡ true → is_busy s'.backups ≡ true
    unfolding is_busy
    still_busy s s' m h = rw (m.same_pending, m.same_operation) h

    Leads-Held :
        {A : Type 0} (m : Action A) → Quiet m → Keeps Away m → Leads Held m (λ _. Held) (λ _. Held)
    unfolding Leads Quiet Keeps
    Leads-Held m q k s (busy, away) =
        Held-Ends (m s).0 (m s).1 (still_busy s (m s).1 (q s) busy, k s away)

    abbrev Never : Error → State → Type 0
    Never e s = ⊥

    Leads-get_backups : Leads Held get_backups (λ b s. (is_busy b ≡ true) × Held s) Never
    unfolding Leads get_backups
    Leads-get_backups s h = (h.0, h)

    -- It is seen that the restoration waits or goes on.
    Leads-is_restoring : Leads Held is_restoring (λ restoring s. (restoring ≡ true) × Held s) Never
    unfolding is_restoring restore_in_progress is_busy
    Leads-is_restoring =
        Leads-attempt _ (λ restoring s. (restoring ≡ true) × Held s) _ Never Never _ _ _
          (Leads-bind _ _ _ _ Never _ _ Leads-get_backups (λ b. Leads-fact _ _ _ _ _ (λ busy.
            Leads-if _ _ _ (env.has_pending_restore && is_pending b.pending) _ _
              (λ _. Leads-pure _ _ _ _ (λ s h. (refl, h)))
              (λ idle.
                Leads-if _ _ _ (is_active b.operation) _ _
                  (λ _. Leads-pure _ _ _ _ (λ s h. (refl, h)))
                  (λ over. ground (arith, busy, idle, over))))))
          (λ e. Leads-pure _ _ _ _ (λ s never. absurd never))
          (λ restoring. Leads-pure _ _ _ _ (λ s h. h))

    -- What follows is what is done while a restoration goes on.
    Leads-seen :
        {A : Type 0} (m n : Action A) (Q : A → State → Type 0)
        → Leads Held m Q (λ _. Held)
        → Leads Held (is_restoring >>= λ restoring. if restoring then m else n) Q (λ _. Held)
    Leads-seen m n Q h =
        Leads-bind _ (λ restoring s. (restoring ≡ true) × Held s) Q (λ _. Held) (λ _. Held) _ _
          (Leads-post _ _ _ _ _ _ (λ _ _ h. h) (λ _ _ never. absurd never) Leads-is_restoring)
          (λ restoring. Leads-fact _ _ _ _ _ (λ seen.
            Leads-if _ _ _ restoring _ _ (λ _. h) (λ unseen. ground (arith, seen, unseen))))

    abbrev Nothing : {A : Type 0} → A → State → Type 0
    Nothing a s = ⊥

    Leads-authorized :
        {A : Type 0} (user : User) (m : Action A) (Q : A → State → Type 0)
        → Leads Held m Q (λ _. Held)
        → Leads Held (authorize user Permission.maintenance >>= λ _. m) Q (λ _. Held)
    Leads-authorized user m Q h =
        Leads-bind _ (λ _. Held) Q (λ _. Held) (λ _. Held) _ _
          (Leads-Held _ (Quiet-authorize user Permission.maintenance)
            (Keeps-authorize Away Ordinary-Away user Permission.maintenance))
          (λ _. h)

    -- A refusal is audited, and raises.
    Leads-blocked :
        (user : User) (detail : Text) (kind : Kind) (message : Text)
        → Leads Held
            (write_audit user Permission.maintenance (codes "denied") detail
              >> raise {A = Unit {0}} kind message)
            (λ _ _. ⊥)
            (λ _. Held)
    Leads-blocked user detail kind message =
        Leads-bind _ (λ _. Held) _ (λ _. Held) (λ _. Held) _ _
          (Leads-Held _ (Quiet-write_audit user _ _ _)
            (Keeps-write_audit Away Ordinary-Away user _ _ _))
          (λ _. Leads-raise _ _ _ _ _ (λ _ _ h. h))

    Leads-enter :
        (user : User) (message until : Text) (grace : ℕ) (defer : Bool)
        → Leads Held (enter_maintenance user message until grace defer) (λ _ _. ⊥) (λ _. Held)
    unfolding enter_maintenance
    Leads-enter user message until grace defer = Leads-authorized user _ _ (
        Leads-if _ _ _ (not env.has_doorman) _ _ (λ _. Leads-raise _ _ _ _ _ (λ _ _ h. h))
          (λ _. Leads-seen _ _ _ (Leads-blocked user _ _ _)))

    Leads-exit : (user : User) → Leads Held (exit_maintenance user) (λ _ _. ⊥) (λ _. Held)
    unfolding exit_maintenance
    Leads-exit user = Leads-authorized user _ _ (
        Leads-if _ _ _ (not env.has_doorman) _ _ (λ _. Leads-raise _ _ _ _ _ (λ _ _ h. h))
          (λ _. Leads-seen _ _ _ (Leads-blocked user _ _ _)))

    Leads-port : (c : Call) → Mild c → Ordinary c → Leads Held (port c) (λ _. Held) (λ _. Held)
    Leads-port c mild fits =
        Leads-Held (port c) (Quiet-port c mild) (Keeps-Ordinary Away Ordinary-Away c fits)

    Leads-match_option :
        {A B : Type 0} (o : Option B) (m : Action A) (f : B → Action A)
        → Leads Held m (λ _. Held) (λ _. Held)
        → ((b : B) → Leads Held (f b) (λ _. Held) (λ _. Held))
        → Leads Held (match_option o m f) (λ _. Held) (λ _. Held)
    unfolding match_option
    Leads-match_option none m f p q = p
    Leads-match_option (some b) m f p q = q b

    Leads-tick : (user : User) → Leads Held (tick_pending_maintenance user) (λ _. Held) (λ _. Held)
    unfolding tick_pending_maintenance
    Leads-tick user =
        Leads-if _ _ _ (not env.has_closing) _ _ (λ _. Leads-pure _ _ _ _ (λ _ h. h))
          (λ _.
            Leads-bind _ (λ _. Held) _ (λ _. Held) (λ _. Held) _ _
              (Leads-port closing_status tt (tt, tt))
              (λ closing. Leads-match_option closing _ _ (Leads-pure _ _ _ _ (λ _ h. h)) (λ pending.
                Leads-bind _ (λ _. Held) _ (λ _. Held) (λ _. Held) _ _
                  (Leads-port clock_now tt (tt, tt))
                  (λ now.
                    Leads-if _ _ _ (leb pending.engage_at now) _ _
                      (λ _. Leads-seen _ _ _ (
                        Leads-Held _
                          (search
                            (
                              quiet_rules, Quiet-get_state, Quiet-set_announced, Quiet-write_audit,
                              Quiet-tell,
                            )
                            depth 16)
                          (search
                            (
                              keeps_rules,
                              Keeps-write_audit Away Ordinary-Away,
                              Keeps-order Away Ordinary-Away,
                            )
                            depth 16)))
                      (λ _.
                        Leads-Held _
                          (search
                            (
                              quiet_rules,
                              Quiet-port (closing_warning now) tt,
                              Quiet-best_effort,
                              Quiet-tell,
                            )
                            depth 16)
                          (search
                            (
                              keeps_rules,
                              Keeps-order Away Ordinary-Away,
                              Keeps-Ordinary Away Ordinary-Away (closing_warning now) (tt, tt),
                            )
                            depth 16))))))

module _ ⦃env : Env⦄ (user : User) (s : State) where
  -- While a restoration waits or goes on, a maintenance is neither begun nor ended: both requests
  -- raise, and neither they nor the tick of an announced closing send for the doorman, ask for it or
  -- turn the server on or off. The restoration still waits or goes on after each.
  pub restoration-Excludes :
      (message until : Text) (grace : ℕ) (defer : Bool)
      → is_busy s.backups ≡ true
      → Ends (λ _ _. ⊥) (λ _. Held s.trace) (enter_maintenance user message until grace defer s)
        × Ends (λ _ _. ⊥) (λ _. Held s.trace) (exit_maintenance user s)
        × Ends (λ _. Held s.trace) (λ _. Held s.trace) (tick_pending_maintenance user s)
  unfolding Leads Away
  restoration-Excludes message until grace defer busy =
      let held : Held s.trace s = (busy, ([], (refl, tt))) in
      (
        Leads-enter s.trace user message until grace defer s held,
        Leads-exit s.trace user s held,
        Leads-tick s.trace user s held,
      )
