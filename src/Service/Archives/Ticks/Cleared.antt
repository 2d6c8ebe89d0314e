-- ===== src/Service/Archives/Ticks/Cleared.antt =====
-- A tick starts the worker of restorations only after the backup that comes first, and settles what
-- waits or keeps it until its deadline.
use mc_admin.Base.{
  ◌≡◌, ◌⊎◌, inl, inr, refl, arith, ℕ, ◌<◌, Text, Bool, true, false, not, Option, none, some, List,
  [], ◌∷◌, All, leb,
}
use mc_admin.Access.{User}
use mc_admin.Service.{
  BackupArchive, PendingRestore, Event, State, Error, Env, Action, Level, pure, attempt, port,
  clock_now, maker_running, safety_backup, safety_exit_code, doorman_prime, archives_list,
  archive_validate,
}
use mc_admin.Service.Archives.Restores.{
  some_issues, set_pending, set_restoring, new_restore_operation_id,
}
use mc_admin.Service.Archives.Ticks.Operation.{is_zero}
use mc_admin.Service.Archives.Ticks.{
  abandon, abandon_late, abandon_exit, abandon_invalid, abandon_target,
  remember_pending_restore_failure, operation_id_or_new, follow, prime_doorman,
  start_restore_after_backup, launch_body, launch_failed, launch, revalidate, after_exit,
  tick_pending,
}
use mc_admin.Service.Archives.Ticks.Triples.{
  Leads, Ends, Leads-pure, Leads-reraise, Leads-if, Leads-bind, Leads-attempt, Leads-post,
  Leads-pre, Quiet, quiet_rules, Quiet-port, Quiet-tell,
}
use mc_admin.Service.Archives.Ticks.Quiet.{
  Quiet-restore_event, Quiet-notify_restore, Quiet-best_effort,
}
use mc_admin.Service.Archives.Ticks.Known.{
  waiting, Stage, returned, In, IsBackedUp, Allowed, Knows, Knows-weaken, Knows-tail,
}
use mc_admin.Service.Archives.Ticks.Calls.{
  Leads-call, Leads-port, Leads-calm, Leads-update, Leads-start,
}
use mc_admin.Service.Archives.Ticks.Target.{Checked, against, good, Leads-restore_archive_issues}
use mc_admin.Service.Archives.Ticks.Safety.{Validated, Leads-validate_new_safety_archive}

not-false : (b : Bool) → not b ≡ false → b ≡ true
not-false b h = ground (arith, h)

clash : (b : Bool) → b ≡ true → b ≡ false → ⊥
clash b h k = ground (arith, h, k)

module _ ⦃env : Env⦄ (user : User) (p : PendingRestore) (t0 : List Event) where
  abbrev Waiting : Stage
  Waiting q w = q ≡ some p

  abbrev Gone : Stage
  Gone q w = q ≡ none

  abbrev Either : Stage
  Either q w = (q ≡ some p) ⊎ (q ≡ none)

  abbrev pub Fails : Error → State → Type 0
  Fails e s = Knows (waiting p) t0 Either [] s

  -- What a tick returns: nothing while the restoration waits, before its deadline, or a word when
  -- nothing waits any more.
  abbrev pub Settles : Option Text → State → Type 0
  Settles none s =
      (now : ℕ) × ((now < p.deadline)
        × Knows (waiting p) t0 Waiting (returned clock_now now ∷ []) s)
  Settles (some word) s = Knows (waiting p) t0 Gone [] s

  fails_waiting :
      (ks : List Event) (s : State)
      → Knows (waiting p) t0 Waiting ks s
      → Knows (waiting p) t0 Either [] s
  fails_waiting ks s k = Knows-weaken (waiting p) t0 Waiting Either ks s (λ _ _ h. inl h) k

  fails_gone :
      (ks : List Event) (s : State)
      → Knows (waiting p) t0 Gone ks s
      → Knows (waiting p) t0 Either [] s
  fails_gone ks s k = Knows-weaken (waiting p) t0 Gone Either ks s (λ _ _ h. inr h) k

  Leads-gone :
      {A : Type 0} (ks : List Event) (m : Action A)
      → Quiet m
      → Leads (Knows (waiting p) t0 Gone ks) m (λ _. Knows (waiting p) t0 Gone ks) Fails
  Leads-gone ks m q =
      Leads-post _ _ _ _ _ m (λ _ _ h. h) (λ _ s h. fails_gone _ s h)
        (Leads-calm (waiting p) t0 Gone ks m q)

  Leads-remember :
      (message : Text)
      → Leads
          (Knows (waiting p) t0 Gone [])
          (remember_pending_restore_failure p message)
          (λ _. Knows (waiting p) t0 Gone [])
          Fails
  unfolding remember_pending_restore_failure set_restoring
  Leads-remember message =
      Leads-bind _ _ _ _ Fails _ _ (Leads-gone [] (port clock_now) (Quiet-port clock_now tt))
        (λ now. Leads-update (waiting p) t0 Gone [] Gone Fails _ (λ b h. h))

  Leads-abandon :
      (ks : List Event) (phase : Text) (fields : List (Text × Text)) (message title : Text)
      → Leads
          (Knows (waiting p) t0 Waiting ks)
          (abandon user p phase fields message title)
          Settles
          Fails
  unfolding abandon set_pending
  Leads-abandon ks phase fields message title =
      Leads-bind _ _ _ _ Fails _ _
        (Leads-update (waiting p) t0 Waiting ks Gone Fails _ (λ b h. refl))
        (λ _.
          Leads-bind _ _ _ _ Fails _ _ (Leads-gone ks _ (Quiet-restore_event user phase _ _)) (λ _.
            Leads-bind _ (λ _. Knows (waiting p) t0 Gone []) _ _ Fails _ _
              (drop (Leads-remember message))
              (λ _.
                Leads-bind _ _ _ _ Fails _ _
                  (Leads-gone [] _ (Quiet-notify_restore title message Level.error))
                  (λ _. Leads-pure _ _ _ _ (λ s k. k)))))
    where
      drop :
          Leads
            (Knows (waiting p) t0 Gone [])
            (remember_pending_restore_failure p message)
            (λ _. Knows (waiting p) t0 Gone [])
            Fails
          → Leads
              (Knows (waiting p) t0 Gone ks)
              (remember_pending_restore_failure p message)
              (λ _. Knows (waiting p) t0 Gone [])
              Fails
      drop h =
          Leads-pre _ _ _ _ _ (λ s k. Knows-weaken (waiting p) t0 Gone Gone ks s (λ _ _ j. j) k) h

  abbrev Stuck : Error → State → Type 0
  Stuck e s = Knows (waiting p) t0 Waiting [] s

  forget :
      (ks : List Event) (s : State)
      → Knows (waiting p) t0 Waiting ks s
      → Knows (waiting p) t0 Waiting [] s
  forget ks s k = Knows-weaken (waiting p) t0 Waiting Waiting ks s (λ _ _ h. h) k

  calm :
      {A : Type 0} (ks : List Event) (m : Action A)
      → Quiet m
      → Leads (Knows (waiting p) t0 Waiting ks) m (λ _. Knows (waiting p) t0 Waiting ks) Stuck
  calm ks m q = Leads-calm (waiting p) t0 Waiting ks m q

  Quiet-operation_id_or_new :
      (filename operation_id : Text) → Quiet (operation_id_or_new filename operation_id)
  unfolding operation_id_or_new new_restore_operation_id
  Quiet-operation_id_or_new filename [] = search (quiet_rules, Quiet-port clock_now tt)
  Quiet-operation_id_or_new filename (c ∷ operation_id) = search (quiet_rules)

  Quiet-prime_doorman : Quiet prime_doorman
  unfolding prime_doorman
  Quiet-prime_doorman = search (quiet_rules, Quiet-best_effort, Quiet-tell (doorman_prime _ _) tt)

  Leads-follow :
      (ks : List Event)
      → Leads
          (Knows (waiting p) t0 Waiting ks)
          (follow user p)
          (λ _. Knows (waiting p) t0 Waiting [])
          (λ _. Knows (waiting p) t0 Waiting [])
  unfolding follow set_restoring
  Leads-follow ks = Leads-bind _ _ _ _ Stuck _ _ (calm ks _ (Quiet-port clock_now tt)) (λ now.
      Leads-bind _ _ _ _ Stuck _ _ (calm ks _ (Quiet-operation_id_or_new p.filename p.operation_id))
        (λ i.
          Leads-bind _ _ _ _ Stuck _ _
            (Leads-update (waiting p) t0 Waiting ks Waiting Stuck _ (λ b h. h))
            (λ _.
              Leads-post _ _ _ _ _ _ (λ _ s k. forget ks s k) (λ _ s k. k)
                (calm ks _ (Quiet-restore_event user _ _ _)))))

  Leads-launch :
      (ks : List Event) (safety_archive : BackupArchive)
      → ((calls : List Event)
          → All (λ (k : Event). In k calls) ks
          → Allowed (waiting p) p.filename calls)
      → Leads (Knows (waiting p) t0 Waiting ks) (launch user p safety_archive) Settles Fails
  unfolding launch launch_body launch_failed start_restore_after_backup set_pending
  Leads-launch ks safety_archive allowed =
      Leads-attempt _ (λ _. Knows (waiting p) t0 Gone []) _ _ Stuck _ _ _
        (Leads-bind _ _ _ _ Stuck _ _ (calm ks _ (Quiet-restore_event user _ _ _)) (λ _.
          Leads-bind _ _ _ _ Stuck _ _ started
            (λ _. Leads-update (waiting p) t0 Waiting [] Gone Stuck _ (λ b h. refl))))
        (λ e.
          Leads-bind _ _ _ _ Fails _ _
            (Leads-update (waiting p) t0 Waiting [] Gone Fails _ (λ b h. refl))
            (λ _.
              Leads-bind _ _ _ _ Fails _ _ (Leads-gone [] _ (Quiet-restore_event user _ _ _)) (λ _.
                Leads-bind _ _ _ _ Fails _ _
                  (Leads-gone [] _ (Quiet-notify_restore _ _ Level.error))
                  (λ _. Leads-reraise _ _ _ e (λ s k. fails_gone [] s k)))))
        (λ _.
          Leads-bind _ _ _ _ Fails _ _ (Leads-gone [] _ (Quiet-notify_restore _ _ Level.info))
            (λ _. Leads-pure _ _ _ _ (λ s k. k)))
    where
      started :
          Leads
            (Knows (waiting p) t0 Waiting ks)
            (start_restore_after_backup user p)
            (λ _. Knows (waiting p) t0 Waiting [])
            Stuck
      started = Leads-bind _ _ _ _ Stuck _ _ (calm ks _ Quiet-prime_doorman) (λ _.
          Leads-bind _ _ _ _ Stuck _ _
            (Leads-post _ _ _ _ _ _ (λ _ _ k. k) (λ _ s k. forget ks s k)
              (Leads-start (waiting p) t0 Waiting ks p.filename allowed))
            (λ _. Leads-follow ks))

  -- Before a start, the backup has ended well, its archive is validated, and the archive to restore
  -- is good.
  module _ (code : Option ℕ) (ks : List Event) (zero : is_zero code ≡ true)
      (current : BackupArchive) (s : State)
      (v : Validated
        (waiting p)
        t0
        Waiting
        p
        (returned safety_exit_code code ∷ (returned (maker_running safety_backup) false ∷ ks))
        current
        s) where
    known_before : List Event
    known_before =
        returned archives_list v.later
        ∷ (returned (archive_validate v.archive.filename) v.check
            ∷ (returned archives_list v.archives
                ∷ (returned safety_exit_code code
                    ∷ (returned (maker_running safety_backup) false ∷ ks))))

    IsBackedUp-known :
        (calls : List Event) → All (λ (k : Event). In k calls) known_before → IsBackedUp p calls
    unfolding known_before
    IsBackedUp-known calls known = record {
      code = code;
      archives = v.archives;
      archive = v.archive;
      check = v.check;
      later = v.later;
      current = current;
      stopped = known.1.1.1.1.0;
      exited = known.1.1.1.0;
      succeeded = zero;
      listed = known.1.1.0;
      added = v.added;
      validated = known.1.0;
      listed_later = known.0;
      still_there = v.still_there;
      unchanged = v.unchanged;
      readable = v.readable;
      whole = v.whole;
    }

    launched :
        (issues : List Text)
        → some_issues issues ≡ false
        → (t : State) → Checked (waiting p) t0 Waiting p.filename known_before issues t
        → Ends Settles Fails (launch user p current t)
    unfolding Leads
    launched issues none_left t (against found k) = absurd (clash _ found none_left)
    launched issues none_left t (good archives archive check found g k) =
        Leads-launch _ current
          (λ calls known. (
            refl,
            (
              IsBackedUp-known calls known.1.1,
              record {
                archives = archives;
                archive = archive;
                check = check;
                listed = known.1.0;
                found = found;
                verdict = known.0;
                same_size = g.same_size;
                same_time = g.same_time;
                readable = g.readable;
                restorable = g.restorable;
              },
            ),
          ))
          t k

    Leads-launched :
        (issues : List Text)
        → some_issues issues ≡ false
        → Leads
            (Checked (waiting p) t0 Waiting p.filename known_before issues)
            (launch user p current)
            Settles
            Fails
    unfolding Leads
    Leads-launched issues none_left = launched issues none_left

    given_up :
        (issues : List Text) (t : State)
        → Checked (waiting p) t0 Waiting p.filename known_before issues t
        → Knows (waiting p) t0 Waiting [] t
    given_up issues t (against found k) = k
    given_up issues t (good archives archive check found g k) = forget _ t k

    revalidating :
        Leads (Knows (waiting p) t0 Waiting known_before) (revalidate user p current) Settles Fails
    unfolding revalidate abandon_target
    revalidating =
        Leads-bind _ (Checked (waiting p) t0 Waiting p.filename known_before) _ _ Fails _ _
          (Leads-post _ _ _ _ _ _ (λ _ _ c. c) (λ _ t k. fails_waiting [] t k)
            (Leads-restore_archive_issues (waiting p) t0 Waiting p.filename known_before))
          (λ issues.
            Leads-if _ _ _ (some_issues issues) _ _
              (λ _. Leads-pre _ _ _ _ _ (given_up issues) (Leads-abandon [] _ _ _ _))
              (λ none_left. Leads-launched issues none_left))

    revalidated : Ends Settles Fails (revalidate user p current s)
    unfolding Leads known_before
    revalidated = revalidating s v.knows

  Leads-revalidate :
      (code : Option ℕ) (ks : List Event)
      → is_zero code ≡ true
      → (current : BackupArchive)
      → Leads
          (Validated
            (waiting p)
            t0
            Waiting
            p
            (returned safety_exit_code code ∷ (returned (maker_running safety_backup) false ∷ ks))
            current)
          (revalidate user p current)
          Settles
          Fails
  unfolding Leads
  Leads-revalidate code ks zero current s v = revalidated code ks zero current s v

  Leads-after_exit :
      (code : Option ℕ) (ks : List Event)
      → Leads
          (Knows
            (waiting p)
            t0
            Waiting
            (returned safety_exit_code code ∷ (returned (maker_running safety_backup) false ∷ ks)))
          (after_exit user p code)
          Settles
          Fails
  unfolding after_exit abandon_exit abandon_invalid
  Leads-after_exit code ks =
      Leads-if _ _ _ (not (is_zero code)) _ _ (λ _. Leads-abandon _ _ _ _ _)
        (λ zero.
          Leads-attempt _ _ _ _ Stuck _ _ _
            (Leads-validate_new_safety_archive (waiting p) t0 Waiting p _)
            (λ e. Leads-abandon [] _ _ _ _)
            (λ current. Leads-revalidate code ks (not-false _ zero) current))

  pub tick_pending-Settles :
      Leads (Knows (waiting p) t0 Waiting []) (tick_pending user p) Settles Fails
  unfolding tick_pending abandon_late
  tick_pending-Settles =
      Leads-bind _ _ _ _ Fails _ _
        (Leads-post _ _ _ _ _ _ (λ _ _ k. k) (λ _ s k. fails_waiting [] s k)
          (Leads-call (waiting p) t0 Waiting [] clock_now tt))
        (λ now.
          Leads-if _ _ _ (leb p.deadline now) _ _ (λ _. Leads-abandon _ _ _ _ _)
            (λ early.
              Leads-attempt _ _ _ _
                (λ _. Knows (waiting p) t0 Waiting (returned clock_now now ∷ [])) _ _ _
                (Leads-port (waiting p) t0 Waiting _ (maker_running safety_backup) tt)
                (λ e. waits now early)
                (λ running.
                  Leads-if _ _ _ running _ _
                    (λ _.
                      Leads-pre _ _ _ _ _ (λ s k. Knows-tail (waiting p) t0 Waiting _ _ s k)
                        (waits now early))
                    (λ stopped. by_exit now early running stopped))))
    where
      waits :
          (now : ℕ)
          → leb p.deadline now ≡ false
          → Leads
              (Knows (waiting p) t0 Waiting (returned clock_now now ∷ []))
              (pure none)
              Settles
              Fails
      waits now early = Leads-pure _ _ _ _ (λ s k. (now, (ground (arith, early), k)))

      by_exit :
          (now : ℕ)
          → leb p.deadline now ≡ false
          → (running : Bool) → running ≡ false
          → Leads
              (Knows
                (waiting p)
                t0
                Waiting
                (returned (maker_running safety_backup) running ∷ (returned clock_now now ∷ [])))
              (attempt (port safety_exit_code) (λ _. pure none) (after_exit user p))
              Settles
              Fails
      by_exit now early true stopped = absurd (clash true refl stopped)
      by_exit now early false stopped =
          Leads-attempt _ _ _ _
            (λ _.
              Knows (waiting p) t0 Waiting
                (returned (maker_running safety_backup) false ∷ (returned clock_now now ∷ [])))
            _ _ _ (Leads-port (waiting p) t0 Waiting _ safety_exit_code tt)
            (λ e.
              Leads-pre _ _ _ _ _ (λ s k. Knows-tail (waiting p) t0 Waiting _ _ s k)
                (waits now early))
            (λ code. Leads-after_exit code (returned clock_now now ∷ []))
