-- ===== src/Service/Archives/Ticks/Progress.antt =====
-- How far a tick brings a restoration that has been started.
use mc_admin.Base.{
  ◌≡◌, ◌⊎◌, inl, inr, refl, arith, ℕ, Text, Bool, true, false, not, Option, none, some, List, [],
  ◌∷◌, leb,
}
use mc_admin.Access.{User}
use mc_admin.Service.{
  PendingRestore, RestoreOperation, Phase, restore_running, waiting_minecraft, success, failed,
  ContainerState, Event, State, Env, Action, Level, ◌>>=◌, port, clock_now, restore_worker_running,
  restore_exit_code, container_status, list_players,
}
use mc_admin.Service.Archives.Restores.{is_over, set_restoring}
use mc_admin.Service.Archives.Ticks.Operation.{
  is_zero, is_up, finished, finish_restore_operation, fail_event, execution_timeout, health_timeout,
  timed_out, healthy, await_minecraft, exit_unreadable, exit_failed, waiting, exit_ok, read_exit,
  state_unreadable, await_worker, by_phase, tick_operation_of,
}
use mc_admin.Service.Archives.Ticks.Triples.{
  Leads, Leads-pure, Leads-if, Leads-bind, Leads-attempt, Leads-post, Leads-pre, Quiet, Quiet-port,
}
use mc_admin.Service.Archives.Ticks.Quiet.{Quiet-restore_event, Quiet-notify_restore}
use mc_admin.Service.Archives.Ticks.Known.{aim, Stage, returned, Knows, Knows-weaken, Knows-tail}
use mc_admin.Service.Archives.Ticks.Calls.{Leads-port, Leads-Quiet, Leads-update}

-- What a restoration that waits for the server has behind it since the tick began.
pub data Route (op : RestoreOperation) : List Event → Type 0 where
  from_waiting : op.phase ≡ waiting_minecraft → Route op []
  from_running :
      (code : Option ℕ)
      → op.phase ≡ restore_running
      → is_zero code ≡ true
      → Route op (returned restore_exit_code code ∷ [])

module _ (op : RestoreOperation) (q0 : Option PendingRestore) (t0 : List Event) where
  -- Nothing has changed of what waits, and this is what is followed.
  abbrev pub At : RestoreOperation → Stage
  At w' q w = (q ≡ q0) × (w ≡ some w')

  abbrev pub Same : RestoreOperation → Type 0
  Same w = (w.filename ≡ op.filename) × (w.operation_id ≡ op.operation_id)

  -- The restoration is where it was; or it has failed; or its worker has ended without an error and
  -- it waits for the server; or, from there, the server has been found up and answering.
  pub data Progress (s : State) : Type 0 where
    unchanged : Knows (aim q0) t0 (At op) [] s → Progress s
    failing :
        (w : RestoreOperation)
        → is_over op.phase ≡ false
        → w.phase ≡ failed
        → Same w
        → Knows (aim q0) t0 (At w) [] s
        → Progress s
    advancing :
        (w : RestoreOperation) (code : Option ℕ)
        → op.phase ≡ restore_running
        → is_zero code ≡ true
        → w.phase ≡ waiting_minecraft
        → Same w
        → Knows (aim q0) t0 (At w) (returned restore_exit_code code ∷ []) s
        → Progress s
    succeeding :
        (w : RestoreOperation) (state : ContainerState) (players : List Text) (ks : List Event)
        → Route op ks
        → is_up state ≡ true
        → w.phase ≡ success
        → Same w
        → Knows
            (aim q0)
            t0
            (At w)
            (returned list_players players ∷ (returned container_status state ∷ ks))
            s
        → Progress s

  forget :
      (w : RestoreOperation) (ks : List Event) (s : State)
      → Knows (aim q0) t0 (At w) ks s
      → Knows (aim q0) t0 (At w) [] s
  forget w ks s k = Knows-weaken (aim q0) t0 (At w) (At w) ks s (λ _ _ h. h) k

  module _ ⦃env : Env⦄ (user : User) where
    Leads-finish :
        (w : RestoreOperation) (ks : List Event) (phase : Phase) (message : Text)
        → ((s : State) → Knows (aim q0) t0 (At w) ks s → Progress s)
        → ((now : ℕ) (s : State)
            → Knows (aim q0) t0 (At (finished phase message now w)) ks s
            → Progress s)
        → Leads
            (Knows (aim q0) t0 (At w) ks)
            (finish_restore_operation w phase message)
            (λ _. Progress)
            (λ _. Progress)
    unfolding finish_restore_operation set_restoring
    Leads-finish w ks phase message stays ends =
        Leads-bind _ (λ _. Knows (aim q0) t0 (At w) ks) _ _ (λ _. Progress) _ _
          (Leads-post _ _ _ _ _ _ (λ _ _ k. k) (λ _ s k. stays s k)
            (Leads-Quiet (aim q0) t0 (At w) ks (port clock_now) (Quiet-port clock_now tt)))
          (λ now.
            Leads-bind _ (λ _. Knows (aim q0) t0 (At (finished phase message now w)) ks) _ _
              (λ _. Progress) _ _
              (Leads-update (aim q0) t0 (At w) ks (At (finished phase message now w)) _ _
                (λ b h. (h.0, refl)))
              (λ _. Leads-pure _ _ _ _ (λ s k. ends now s k)))

    -- A part that changes nothing, where an exception leaves the restoration as it was.
    Leads-first :
        {A B : Type 0} (w : RestoreOperation) (ks : List Event) (m : Action A) (f : A → Action B)
        → Quiet m
        → ((s : State) → Knows (aim q0) t0 (At w) ks s → Progress s)
        → ((a : A) → Leads (Knows (aim q0) t0 (At w) ks) (f a) (λ _. Progress) (λ _. Progress))
        → Leads (Knows (aim q0) t0 (At w) ks) (m >>= f) (λ _. Progress) (λ _. Progress)
    Leads-first w ks m f quiet stays rest =
        Leads-bind _ (λ _. Knows (aim q0) t0 (At w) ks) _ _ (λ _. Progress) _ _
          (Leads-post _ _ _ _ _ _ (λ _ _ k. k) (λ _ s k. stays s k)
            (Leads-Quiet (aim q0) t0 (At w) ks m quiet))
          rest

    Quiet-fail_event :
        (w : RestoreOperation) (fields : List (Text × Text)) → Quiet (fail_event user w fields)
    unfolding fail_event
    Quiet-fail_event w fields = Quiet-restore_event user _ _ _

    module _ (w : RestoreOperation) (ks : List Event) (route : Route op ks) (same : Same w)
        (stays : (s : State) → Knows (aim q0) t0 (At w) ks s → Progress s) where
      Leads-await_minecraft :
          Leads
            (Knows (aim q0) t0 (At w) ks)
            (await_minecraft user w)
            (λ _. Progress)
            (λ _. Progress)
      unfolding await_minecraft healthy finished
      Leads-await_minecraft =
          Leads-attempt _ _ _ _ (λ _. Knows (aim q0) t0 (At w) ks) _ _ _
            (Leads-port (aim q0) t0 (At w) ks container_status tt) (λ e. Leads-pure _ _ _ _ stays)
            (λ state.
              Leads-if _ _ _ (not (is_up state)) _ _ (λ _. Leads-pure _ _ _ _ (still state))
                (λ up.
                  Leads-attempt _ _ _ _
                    (λ _. Knows (aim q0) t0 (At w) (returned container_status state ∷ ks)) _ _ _
                    (Leads-port (aim q0) t0 (At w) _ list_players tt)
                    (λ e. Leads-pure _ _ _ _ (still state))
                    (λ players.
                      Leads-first w _ _ _ (Quiet-restore_event user _ _ _) (later state players)
                        (λ _.
                          Leads-first w _ _ _ (Quiet-restore_event user _ _ _) (later state players)
                            (λ _. Leads-finish w _ success _ (later state players) (λ now s k.
                              succeeding (finished success _ now w) state players ks route
                                (not-false _ up) refl same k))))))
        where
          not-false : (b : Bool) → not b ≡ false → b ≡ true
          not-false b h = ground (arith, h)

          still :
              (state : ContainerState) (s : State)
              → Knows (aim q0) t0 (At w) (returned container_status state ∷ ks) s
              → Progress s
          still state s k = stays s (Knows-tail (aim q0) t0 (At w) _ ks s k)

          later :
              (state : ContainerState) (players : List Text) (s : State)
              → Knows
                  (aim q0)
                  t0
                  (At w)
                  (returned list_players players ∷ (returned container_status state ∷ ks))
                  s
              → Progress s
          later state players s k = still state s (Knows-tail (aim q0) t0 (At w) _ _ s k)

    module _ (active : is_over op.phase ≡ false) where
      at_op : (ks : List Event) (s : State) → Knows (aim q0) t0 (At op) ks s → Progress s
      at_op ks s k = unchanged (forget op ks s k)

      -- The restoration is given up, after calls that change nothing.
      Leads-fail :
          (ks : List Event) (message : Text)
          → Leads
              (Knows (aim q0) t0 (At op) ks)
              (finish_restore_operation op failed message)
              (λ _. Progress)
              (λ _. Progress)
      unfolding finished
      Leads-fail ks message = Leads-finish op ks failed message (at_op ks) (λ now s k.
          failing (finished failed message now op) active refl (refl, refl) (forget _ ks s k))

      Leads-timed_out :
          (phase : Phase)
          → Leads
              (Knows (aim q0) t0 (At op) [])
              (timed_out user op phase)
              (λ _. Progress)
              (λ _. Progress)
      unfolding timed_out execution_timeout health_timeout
      Leads-timed_out restore_running =
          Leads-first op [] _ _ (Quiet-restore_event user _ _ _) (at_op []) (λ _. Leads-fail [] _)
      Leads-timed_out waiting_minecraft =
          Leads-first op [] _ _ (Quiet-restore_event user _ _ _) (at_op [])
            (λ _. Leads-first op [] _ _ (Quiet-fail_event op _) (at_op []) (λ _. Leads-fail [] _))
      Leads-timed_out success =
          Leads-first op [] _ _ (Quiet-restore_event user _ _ _) (at_op [])
            (λ _. Leads-first op [] _ _ (Quiet-fail_event op _) (at_op []) (λ _. Leads-fail [] _))
      Leads-timed_out failed =
          Leads-first op [] _ _ (Quiet-restore_event user _ _ _) (at_op [])
            (λ _. Leads-first op [] _ _ (Quiet-fail_event op _) (at_op []) (λ _. Leads-fail [] _))

      module _ (now : ℕ) (running : op.phase ≡ restore_running) where
        Leads-exit_ok :
            (code : Option ℕ)
            → is_zero code ≡ true
            → Leads
                (Knows (aim q0) t0 (At op) (returned restore_exit_code code ∷ []))
                (exit_ok user now op)
                (λ _. Progress)
                (λ _. Progress)
        unfolding exit_ok set_restoring waiting
        Leads-exit_ok code zero =
            Leads-first op _ _ _ (Quiet-restore_event user _ _ _) (at_op _) (λ _.
              Leads-first op _ _ _ (Quiet-restore_event user _ _ _) (at_op _) (λ _.
                Leads-bind _
                  (λ _.
                    Knows (aim q0) t0 (At (waiting now op)) (returned restore_exit_code code ∷ []))
                  _ _ (λ _. Progress) _ _
                  (Leads-update (aim q0) t0 (At op) _ (At (waiting now op)) _ _
                    (λ b h. (h.0, refl)))
                  (λ _.
                    Leads-await_minecraft (waiting now op) _ (from_running code running zero)
                      (refl, refl)
                      (λ s k. advancing (waiting now op) code running zero refl (refl, refl) k))))

        -- The exit code has been read, or there is no container to ask.
        abbrev Read : Option ℕ → State → Type 0
        Read code s =
            ((is_zero code ≡ false) × Knows (aim q0) t0 (At op) [] s)
            ⊎ Knows (aim q0) t0 (At op) (returned restore_exit_code code ∷ []) s

        read_forget : (code : Option ℕ) (s : State) → Read code s → Knows (aim q0) t0 (At op) [] s
        read_forget code s (inl (nonzero, k)) = k
        read_forget code s (inr k) = forget op _ s k

        read_zero :
            (code : Option ℕ)
            → is_zero code ≡ true
            → (s : State) → Read code s
            → Knows (aim q0) t0 (At op) (returned restore_exit_code code ∷ []) s
        read_zero code zero s (inl (nonzero, k)) = absurd (clash _ zero nonzero)
          where
            clash : (b : Bool) → b ≡ true → b ≡ false → ⊥
            clash b h k = ground (arith, h, k)
        read_zero code zero s (inr k) = k

        Leads-read_exit :
            Leads
              (Knows (aim q0) t0 (At op) [])
              (read_exit user now op)
              (λ _. Progress)
              (λ _. Progress)
        unfolding read_exit exit_unreadable exit_failed is_zero
        Leads-read_exit =
            Leads-attempt _ Read _ _ (λ _. Knows (aim q0) t0 (At op) []) _ _ _
              (Leads-if _ _ _ env.has_restore _ _
                (λ _.
                  Leads-post _ _ _ _ _ _ (λ _ _ k. inr k) (λ _ _ k. k)
                    (Leads-port (aim q0) t0 (At op) [] restore_exit_code tt))
                (λ _. Leads-pure _ _ _ none (λ s k. inl (refl, k))))
              (λ e. Leads-first op [] _ _ (Quiet-fail_event op _) (at_op []) (λ _.
                Leads-first op [] _ _ (Quiet-notify_restore _ _ Level.error) (at_op [])
                  (λ _. Leads-fail [] _)))
              (λ code.
                Leads-if _ _ _ (is_zero code) _ _
                  (λ zero. Leads-pre _ _ _ _ _ (read_zero code zero) (Leads-exit_ok code zero))
                  (λ _. Leads-pre _ _ _ _ _ (read_forget code) (
                    Leads-first op [] _ _ (Quiet-fail_event op _) (at_op []) (λ _.
                      Leads-first op [] _ _ (Quiet-notify_restore _ _ Level.error) (at_op [])
                        (λ _. Leads-fail [] _)))))

        Leads-await_worker :
            Leads
              (Knows (aim q0) t0 (At op) [])
              (await_worker user now op)
              (λ _. Progress)
              (λ _. Progress)
        unfolding await_worker state_unreadable
        Leads-await_worker =
            Leads-attempt _ (λ _. Knows (aim q0) t0 (At op) []) _ _
              (λ _. Knows (aim q0) t0 (At op) []) _ _ _
              (Leads-if _ _ _ env.has_restore _ _
                (λ _. Leads-Quiet (aim q0) t0 (At op) [] _ (Quiet-port restore_worker_running tt))
                (λ _. Leads-pure _ _ _ false (λ s k. k)))
              (λ e. Leads-first op [] _ _ (Quiet-fail_event op _) (at_op []) (λ _. Leads-fail [] _))
              (λ busy.
                Leads-if _ _ _ busy _ _ (λ _. Leads-pure _ _ _ _ (at_op [])) (λ _. Leads-read_exit))

      Leads-by_phase :
          (now : ℕ) (phase : Phase)
          → op.phase ≡ phase
          → Leads
              (Knows (aim q0) t0 (At op) [])
              (by_phase user now op phase)
              (λ _. Progress)
              (λ _. Progress)
      unfolding by_phase
      Leads-by_phase now restore_running e = Leads-await_worker now e
      Leads-by_phase now waiting_minecraft e =
          Leads-await_minecraft op [] (from_waiting e) (refl, refl) (at_op [])
      Leads-by_phase now success e = Leads-pure _ _ _ _ (at_op [])
      Leads-by_phase now failed e = Leads-pure _ _ _ _ (at_op [])

    pub tick_operation_of-Progress :
        Leads
          (Knows (aim q0) t0 (At op) [])
          (tick_operation_of user op)
          (λ _. Progress)
          (λ _. Progress)
    unfolding tick_operation_of
    tick_operation_of-Progress =
        Leads-first op [] _ _ (Quiet-port clock_now tt) (λ s k. unchanged k)
          (λ now.
            Leads-if _ _ _ (is_over op.phase) _ _ (λ _. Leads-pure _ _ _ _ (λ s k. unchanged k))
              (λ active.
                Leads-if _ _ _ (leb op.deadline now) _ _ (λ _. Leads-timed_out active op.phase)
                  (λ _. Leads-by_phase active now op.phase refl)))
