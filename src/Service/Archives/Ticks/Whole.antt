-- ===== src/Service/Archives/Ticks/Whole.antt =====
-- A whole tick: what it may start, how it settles what waits, and how far it brings what is followed.
use mc_admin.Base.{
  ◌≡◌, inl, refl, sym, subst, arith, Text, Bool, true, false, Option, none, some, List, [],
}
use mc_admin.Access.{Permission, User}
use mc_admin.Service.{
  PendingRestore, RestoreOperation, Event, Backups, State, Error, Env, Action, pure, ◌>>=◌,
  match_option, get_backups,
}
use mc_admin.Service.Archives.Ticks.{tick_with, tick_pending_restore}
use mc_admin.Service.Archives.Ticks.Operation.{tick_operation_of, tick_restore_operation}
use mc_admin.Service.Archives.Ticks.Triples.{
  Leads, Ends, Leads-pure, Leads-if, Leads-bind, Leads-post, Leads-pre, Quiet,
}
use mc_admin.Service.Archives.Ticks.Quiet.{Quiet-authorize, Quiet-scan_backup_outcomes}
use mc_admin.Service.Archives.Ticks.Known.{aim, waiting, Stage, Timely, Knows, Knows-weaken}
use mc_admin.Service.Archives.Ticks.Calls.{Leads-Quiet}
use mc_admin.Service.Archives.Ticks.Cleared.{Settles, Fails, tick_pending-Settles}
use mc_admin.Service.Archives.Ticks.Progress.{Progress, unchanged, tick_operation_of-Progress}

Leads-at :
    {X A : Type 0} (x y : X) (P : State → Type 0) (m : X → Action A) (Q : A → State → Type 0)
    (R : Error → State → Type 0)
    → Leads P (m y) Q R
    → Leads (λ s. (x ≡ y) × P s) (m x) Q R
unfolding Leads
Leads-at x y P m Q R body s h = subst (λ (z : _). Ends Q R (m z s)) (sym h.0) (body s h.1)

module _ ⦃env : Env⦄ (user : User) (o : Option PendingRestore) (w0 : Option RestoreOperation)
    (t0 : List Event) where
  -- What waits and what is followed are as they were.
  abbrev Kept : Stage
  Kept q w = (q ≡ o) × (w ≡ w0)

  abbrev Begun : State → Type 0
  Begun s = Knows (aim o) t0 Kept [] s

  -- What is read of the service's state is as it was.
  Leads-get_backups :
      (R : Error → State → Type 0)
      → Leads Begun get_backups (λ b s. Kept b.pending b.operation × Begun s) R
  unfolding Leads get_backups
  Leads-get_backups R s k = (k.waits, k)

  -- Where nothing is followed, the tick of what is followed does nothing.
  Leads-tick_operation :
      (Q : Option Text → State → Type 0) (R : Error → State → Type 0)
      → ((s : State) → Begun s → Q none s)
      → ((op : RestoreOperation) → w0 ≡ some op → Leads Begun (tick_operation_of user op) Q R)
      → Leads Begun (tick_restore_operation user) Q R
  unfolding tick_restore_operation match_option
  Leads-tick_operation Q R idle busy = Leads-bind _ _ _ _ R _ _ (Leads-get_backups R) (λ b.
      Leads-pre _ _ _ _ _ (λ s h. (h.0.1, h.1))
        (Leads-at b.operation w0 Begun (λ w. match_option w (pure none) (tick_operation_of user)) Q
          R (by_operation w0 refl)))
    where
      by_operation :
          (w : Option RestoreOperation)
          → w0 ≡ w
          → Leads Begun (match_option w (pure none) (tick_operation_of user)) Q R
      by_operation none e = Leads-pure _ _ _ _ idle
      by_operation (some op) e = busy op e

  -- A tick ends in a way if both of its branches do.
  module _ (Q : Option Text → State → Type 0) (R : Error → State → Type 0)
      (fails : (e : Error) (s : State) → Begun s → R e s)
      (with_pending : env.has_pending_restore ≡ true → Leads Begun (tick_with user o) Q R)
      (without : env.has_pending_restore ≡ false
        → Leads Begun (tick_restore_operation user) Q R) where
    first :
        {A B : Type 0} (m : Action A) (f : A → Action B) (Q' : B → State → Type 0)
        → Quiet m
        → ((a : A) → Leads Begun (f a) Q' R)
        → Leads Begun (m >>= f) Q' R
    first m f Q' q rest =
        Leads-bind _ (λ _. Begun) _ _ R _ _
          (Leads-post _ _ _ _ _ _ (λ _ _ k. k) (λ e s k. fails e s k)
            (Leads-Quiet (aim o) t0 Kept [] m q))
          rest

    Leads-tick : Leads Begun (tick_pending_restore user) Q R
    unfolding tick_pending_restore
    Leads-tick = first _ _ Q (Quiet-authorize user Permission.backup_restore) (λ _.
        first _ _ Q Quiet-scan_backup_outcomes (λ _.
          Leads-if _ _ _ env.has_pending_restore _ _
            (λ has. Leads-bind _ _ _ _ R _ _ (Leads-get_backups R) (λ b. read b has)) without))
      where
        read :
            (b : Backups)
            → env.has_pending_restore ≡ true
            → Leads (λ s. Kept b.pending b.operation × Begun s) (tick_with user b.pending) Q R
        read b has =
            Leads-pre _ _ _ _ _ (λ s h. (h.0.0, h.1))
              (Leads-at b.pending o Begun (tick_with user) Q R (with_pending has))

module _ ⦃env : Env⦄ (user : User) (o : Option PendingRestore) (op : RestoreOperation)
    (t0 : List Event) where
  Leads-followed :
      Leads
        (Begun user o (some op) t0)
        (tick_restore_operation user)
        (λ _. Progress op o t0)
        (λ _. Progress op o t0)
  Leads-followed =
      Leads-tick_operation user o (some op) t0 _ _ (λ s k. unchanged k) (λ op' e. busy op' (cc e))
    where
      busy :
          (op' : RestoreOperation)
          → op ≡ op'
          → Leads
              (Begun user o (some op) t0)
              (tick_operation_of user op')
              (λ _. Progress op o t0)
              (λ _. Progress op o t0)
      busy op' e =
          subst
            (λ (x : RestoreOperation).
              Leads (Begun user o (some op) t0) (tick_operation_of user x) (λ _. Progress op o t0)
                (λ _. Progress op o t0))
            e (tick_operation_of-Progress op o t0 user)

module _ ⦃env : Env⦄ (user : User) (s : State) where
  abbrev Begins : Option PendingRestore → Option RestoreOperation → Type 0
  Begins o w = Begun user o w s.trace s

  begins :
      (o : Option PendingRestore) (w : Option RestoreOperation)
      → s.backups.pending ≡ o
      → s.backups.operation ≡ w
      → Begins o w
  unfolding Timely
  begins o w p q = record { calls = []; added = refl; timely = tt; known = tt; waits = (p, q) }

  -- A tick that finds a restoration waiting returns nothing and leaves it there while its deadline has
  -- not come; or nothing waits any more when it returns a word. It starts the worker only for the
  -- archive that waits, and only after the backup that comes first has ended without an error and been
  -- found whole, and the archive's verdict is good. An exception changes what waits at most to nothing.
  pub tick-Settles :
      (p : PendingRestore)
      → env.has_pending_restore ≡ true
      → s.backups.pending ≡ some p
      → Ends (Settles user p s.trace) (Fails user p s.trace) (tick_pending_restore user s)
  unfolding Leads tick_with
  tick-Settles p has waits =
      Leads-tick user (some p) s.backups.operation s.trace (Settles user p s.trace)
        (Fails user p s.trace)
        (λ e t k. Knows-weaken (waiting p) s.trace _ _ [] t (λ _ _ h. inl h.0) k)
        (λ _ t k.
          tick_pending-Settles user p s.trace t
            (Knows-weaken (waiting p) s.trace _ _ [] t (λ _ _ h. h.0) k))
        (λ hasnt. absurd (clash _ has hasnt)) s (begins (some p) s.backups.operation waits refl)
    where
      clash : (b : Bool) → b ≡ true → b ≡ false → ⊥
      clash b h k = ground (arith, h, k)

  -- A tick that finds no restoration waiting and one that has been started leaves it where it was, or
  -- as failed, or as waiting for the server once its worker has ended without an error, or as a success
  -- once, from there, the server has been found up and answering. It starts no worker.
  pub tick_progresses :
      (op : RestoreOperation)
      → s.backups.pending ≡ none
      → s.backups.operation ≡ some op
      → Ends
          (λ _. Progress op none s.trace)
          (λ _. Progress op none s.trace)
          (tick_pending_restore user s)
  unfolding Leads tick_with
  tick_progresses op idle followed =
      Leads-tick user none (some op) s.trace _ _ (λ e t k. unchanged k) (λ _. ticked) (λ _. ticked)
        s (begins none (some op) idle followed)
    where
      ticked :
          Leads
            (Begun user none (some op) s.trace)
            (tick_restore_operation user)
            (λ _. Progress op none s.trace)
            (λ _. Progress op none s.trace)
      ticked = Leads-followed user none op s.trace
