-- ===== src/Restore/Transaction/Run.antt =====
-- `restore_transaction` (app/restore_worker.py) under any faults.
use mc_admin.Base.{
  List, Text, Bool, true, false, Option, none, some, ◌≡◌, refl, ◌⊎◌, inl, inr, ap, sym, subst, ◌∙◌,
  Bool-cases,
}
use mc_admin.Restore.Machine.{
  ◌>>=◌, ◌>>◌, Storage, Phase, valid, Disk, Failure, State, Action, Out, Fate, catch, write_state,
  stop, start, sync_rollback, sync_stage, clone_tree, set_stopped, set_ready, clear_flags,
  extract_archive, remove_stage, unlink_tmp, raise, pure,
}
use mc_admin.Restore.Machine.Rules.{
  Ends, step_rule, bind_rule, catch_rule, effect_rule, weaken_rule,
}
use mc_admin.Restore.Transaction.{
  cleanup, body, undo, mark_failed, restart_server, on_error, attempt, carry_out, proceed,
  restore_transaction, recover,
}
use mc_admin.Restore.Transaction.Invariant.{
  Safe, Settled, SettledAt, Clean, Held, cleanup_then, cleanup_last, Safe-of_Settled, Safe-of_Clean,
}

module _ ⦃st : Storage⦄ (old new : st.World) where
  -- Where an exception of the block under `try` leaves the transaction.
  abbrev Stuck : State st.World → Type 0
  Stuck s =
      ((s.copy_ready ≡ false)
        × Settled old new s.disk
        × (s.disk.live ≡ old)
        × ((s.server_stopped ≡ true) ⊎ (s.disk.running ≡ true)))
      ⊎ ((s.copy_ready ≡ true) × (s.disk.rollback ≡ some (st.clone old)) × Safe old new s.disk)

  -- What an exception that reaches the caller says of the disk.
  abbrev pub Abandoned : Failure → Disk st.World → Type 0
  Abandoned Failure.undone d = Clean old new d × (st.view d.live ≡ st.view old) × (d.running ≡ true)
  Abandoned Failure.cancelled d =
      Clean old new d × (st.view d.live ≡ st.view old) × (d.running ≡ true)
  Abandoned e d = Safe old new d

  abbrev Rolled : State st.World → Type 0
  Rolled t = Clean old new t.disk × (st.view t.disk.live ≡ st.view old) × (t.disk.running ≡ true)

  abbrev Half : State st.World → Type 0
  Half t = Held old new t.disk.rollback t.disk.live × Safe old new t.disk

  abbrev with_copy : State st.World → Option st.World → State st.World
  with_copy s rb = record s { disk = record s.disk { rollback = rb } }

  module _ (whole_removal : st.torn_removal ≡ false) where
    undo_with :
        (target : Text) (s : State st.World)
        (h : Safe old new (with_copy s (some (st.clone old))).disk)
        → Ends
            (λ _ t. Rolled t)
            (λ _ t. Half t)
            (λ t. Safe old new t.disk)
            (undo target (with_copy s (some (st.clone old))))
    unfolding undo write_state stop start sync_rollback set_stopped ◌>>=◌
    undo_with target s h =
        step_rule _ _ _ _ _ _ _
          (λ fs.
            step_rule _ _ _ _ _ _ _
              (λ fs.
                step_rule _ _ _ _ _ _ _
                  (λ fs.
                    step_rule _ _ _ _ _ _ _
                      (λ fs.
                        cleanup_last old new _ _ _ whole_removal _ (back, inr refl)
                          (λ t c. (c.0, ap st.view c.2 ∙ back, c.3))
                          (λ t c. (
                            held t c.2 c.3,
                            Safe-of_Settled old new t.disk.marker t.disk.rollback t.disk.live c.1,
                          ))
                          (λ t c.
                            Safe-of_Settled old new t.disk.marker t.disk.rollback t.disk.live c))
                      (λ x fs. (inr refl, inr refl)) (λ x fs. inr refl))
                  (λ x fs. (inr refl, inr refl)) (λ x fs. inr refl))
              (λ x fs. (inr refl, inr refl)) (λ x fs. inr refl))
          (λ x fs. (inr refl, h)) (λ x fs. h)
      where
        back : st.view (st.exact (st.clone old) s.disk.live) ≡ st.view old
        back = st.exact-clone old s.disk.live

        held :
            (t : State st.World)
            → t.disk.live ≡ st.exact (st.clone old) s.disk.live
            → (t.disk.rollback ≡ none) ⊎ (t.disk.rollback ≡ some (st.clone old))
            → Held old new t.disk.rollback t.disk.live
        held t same (inl gone) = inl (gone, ap st.view same ∙ back)
        held t same (inr still) = inr still

    undo_rule :
        (target : Text) (s : State st.World)
        → s.disk.rollback ≡ some (st.clone old)
        → Safe old new s.disk
        → Ends (λ _ t. Rolled t) (λ _ t. Half t) (λ t. Safe old new t.disk) (undo target s)
    undo_rule target s copy =
        subst
          (λ rb.
            Safe old new (with_copy s rb).disk
            → Ends (λ _ t. Rolled t) (λ _ t. Half t) (λ t. Safe old new t.disk)
                (undo target (with_copy s rb)))
          (sym copy) (undo_with target s)

    mark_failed_rule :
        (target : Text) (s : State st.World)
        → Half s
        → Ends
            (λ _ t. Safe old new t.disk)
            (λ _ t. ⊥)
            (λ t. Safe old new t.disk)
            (mark_failed target s)
    unfolding mark_failed write_state
    mark_failed_rule target s h =
        catch_rule _ _ _ _ _ _ (effect_rule _ _ _ _ _ _ (λ fs. h.0) (λ x fs. h.1) (λ x fs. h.1))

    restart_rule :
        (s : State st.World)
        → Settled old new s.disk
        → s.disk.live ≡ old
        → (s.server_stopped ≡ true) ⊎ (s.disk.running ≡ true)
        → Ends
            (λ _ t. Settled old new t.disk × (t.disk.live ≡ old) × (t.disk.running ≡ true))
            (λ e t. (e ≡ Failure.cannot_restart) × Settled old new t.disk)
            (λ t. Settled old new t.disk)
            (restart_server s)
    unfolding restart_server start set_stopped ◌>>=◌
    restart_rule s h live flag = elim (Bool-cases s.server_stopped) [
      | inl down ↦ rw down (
          catch_rule _ _ _ _ _ _
            (step_rule _ _ _ _ _ _ _ (λ fs. (h, live, refl)) (λ x fs. (refl, h)) (λ x fs. h)))
      | inr on ↦ rw on (h, live, elim flag [ inl down ↦ cc (down, on) | inr up ↦ up ])
    ]

    on_error-copied :
        (target : Text) (e : Failure) (s : State st.World)
        → s.copy_ready ≡ true
        → on_error target e s
          ≡ (catch (undo target) (λ _. mark_failed target >> raise Failure.rollback_failed_too)
                >> raise Failure.undone)
              s
    unfolding on_error
    on_error-copied target e s h = rw h

    on_error-uncopied :
        (target : Text) (e : Failure) (s : State st.World)
        → s.copy_ready ≡ false
        → on_error target e s ≡ (restart_server >> cleanup >> raise Failure.cancelled) s
    unfolding on_error
    on_error-uncopied target e s h = rw h

    Settled-Safe : (t : State st.World) → Settled old new t.disk → Safe old new t.disk
    Settled-Safe t c = Safe-of_Settled old new t.disk.marker t.disk.rollback t.disk.live c

    abbrev After : Action Unit → State st.World → Type 0
    After rest t =
        Ends (λ (_ : Unit {0}) u. ⊥) (λ e u. Abandoned e u.disk) (λ u. Safe old new u.disk) (rest t)

    give_up :
        (t : State st.World)
        → Settled old new t.disk
        → t.disk.live ≡ old
        → t.disk.running ≡ true
        → After (cleanup >> raise Failure.cancelled) t
    give_up t h live up =
        cleanup_then old new _ _ _ whole_removal _ t h
          (λ u c. (c.0, ap st.view (c.2 ∙ live), c.3 ∙ up)) (λ u c. Settled-Safe u c.1)
          (λ u c. Settled-Safe u c)

    fail_badly :
        (Q : Unit {0} → State st.World → Type 0) (target : Text) (t : State st.World)
        → Half t
        → Ends Q
            (λ e u. Abandoned e u.disk)
            (λ u. Safe old new u.disk)
            ((mark_failed target >> raise Failure.rollback_failed_too) t)
    fail_badly Q target t h = bind_rule _ _ _ _ _ _ (
        weaken_rule {Q = λ _ u. Safe old new u.disk} {Q' = λ _ u. Safe old new u.disk}
          {X = λ _ u. ⊥} {X' = λ e u. Abandoned e u.disk} {K = λ u. Safe old new u.disk}
          {K' = λ u. Safe old new u.disk} (mark_failed target t) (mark_failed_rule target t h)
          (λ a u c. c) (λ e u c. absurd c) (λ u c. c))

    on_error_rule :
        (target : Text) (e : Failure) (s : State st.World) → Stuck s → After (on_error target e) s
    on_error_rule target e s (inl (no_copy, h, live, flag)) =
        rw (on_error-uncopied target e s no_copy) (
          bind_rule _ _ _ _ _ _ (
            weaken_rule
              {Q = λ _ t. Settled old new t.disk × (t.disk.live ≡ old) × (t.disk.running ≡ true)}
              {Q' = λ _ t. After (cleanup >> raise Failure.cancelled) t}
              {X = λ e t. (e ≡ Failure.cannot_restart) × Settled old new t.disk}
              {X' = λ e t. Abandoned e t.disk} {K = λ t. Settled old new t.disk}
              {K' = λ t. Safe old new t.disk} (restart_server s) (restart_rule s h live flag)
              (λ a t c. give_up t c.0 c.1 c.2) (λ e t c. rw c.0 (Settled-Safe t c.1))
              (λ t c. Settled-Safe t c)))
    on_error_rule target e s (inr (copied, copy, h)) = rw (on_error-copied target e s copied) (
        bind_rule _ _ _ _ _ _ (
          catch_rule _ _ _ _ _ _ (
            weaken_rule {Q = λ _ t. Rolled t} {Q' = λ _ t. Rolled t} {X = λ _ t. Half t}
              {X' = λ _ t.
                Ends (λ _ u. Rolled u) (λ e u. Abandoned e u.disk) (λ u. Safe old new u.disk)
                  ((mark_failed target >> raise Failure.rollback_failed_too) t)}
              {K = λ t. Safe old new t.disk} {K' = λ t. Safe old new t.disk} (undo target s)
              (undo_rule target s copy h) (λ a t c. c)
              (λ e t c. fail_badly (λ _ u. Rolled u) target t c) (λ t c. c))))

module _ ⦃st : Storage⦄ where
  -- The world after the archive of that target was applied.
  abbrev pub restored : Text → st.World → st.World
  restored target w = st.overlay (st.content target) w

  abbrev begun : Text → State st.World → State st.World
  begun target s = record s {
    disk = record s.disk {
      stage = some (st.content target);
      marker = some (valid Phase.staged target);
    };
    server_stopped = false;
    copy_ready = false;
  }

  abbrev Finished : Text → State st.World → State st.World → Type 0
  Finished target s t =
      (t.disk.marker ≡ some (valid Phase.started target))
      × (t.disk.live ≡ restored target s.disk.live)
      × (t.disk.running ≡ true)

  -- A disk with no transaction on it.
  abbrev pub fresh : st.World → Option st.World → Bool → List (Fate st.World) → State st.World
  fresh live stage up faults = record {
    disk = record { live = live; stage = stage; rollback = none; marker = none; running = up };
    faults = faults;
    server_stopped = false;
    copy_ready = false;
  }

  -- What the transaction of that target has done to the world `live`, by how it ended.
  abbrev pub Transacted : Text → st.World → Out Text × State st.World → Type 0
  Transacted target live =
      Ends
        (λ name t.
          (name ≡ target)
          × (t.disk.live ≡ restored target live)
          × (t.disk.running ≡ true)
          × Safe live (restored target live) t.disk)
        (λ e t. Abandoned live (restored target live) e t.disk)
        (λ t. Safe live (restored target live) t.disk)

module _ ⦃st : Storage⦄ (whole_removal : st.torn_removal ≡ false) where
  body_rule :
      (target : Text) (s : State st.World)
      → s.disk.running ≡ true
      → Ends
          (λ _ t. Finished target s t)
          (λ _ t. Stuck s.disk.live (restored target s.disk.live) t)
          (λ t. Safe s.disk.live (restored target s.disk.live) t.disk)
          (body target (begun target s))
  unfolding body write_state stop start clone_tree sync_stage set_stopped set_ready ◌>>=◌
  body_rule target s up =
      step_rule _ _ _ _ _ _ _
        (λ fs.
          step_rule _ _ _ _ _ _ _
            (λ fs.
              step_rule _ _ _ _ _ _ _
                (λ fs.
                  step_rule _ _ _ _ _ _ _
                    (λ fs.
                      step_rule _ _ _ _ _ _ _
                        (λ fs.
                          step_rule _ _ _ _ _ _ _
                            (λ fs.
                              step_rule _ _ _ _ _ _ _
                                (λ fs.
                                  step_rule _ _ _ _ _ _ _
                                    (λ fs.
                                      step_rule _ _ _ _ _ _ _
                                        (λ fs.
                                          step_rule _ _ _ _ _ _ _
                                            (λ fs.
                                              effect_rule _ _ _ _ _ _ (λ fs. (refl, refl, refl))
                                                (λ x fs. inr (refl, refl, inr refl))
                                                (λ x fs. inr refl))
                                            (λ x fs. inr (refl, refl, inr refl)) (λ x fs. inr refl))
                                        (λ x fs. inr (refl, refl, inr refl)) (λ x fs. inr refl))
                                    (λ x fs. inr (refl, refl, inr refl)) (λ x fs. inr refl))
                                (λ x fs. inr (refl, refl, inr refl)) (λ x fs. inr refl))
                            (λ x fs. inr (refl, refl, inr refl)) (λ x fs. inr refl))
                        (λ x fs. inr (refl, refl, refl)) (λ x fs. refl))
                    (λ x fs. inl (refl, refl, refl, inl refl)) (λ x fs. refl))
                (λ x fs. inl (refl, refl, refl, inl refl)) (λ x fs. refl))
            (λ x fs. inl (refl, refl, refl, inl refl)) (λ x fs. refl))
        (λ x fs. inl (refl, refl, refl, inr up)) (λ x fs. refl)

  started_Settled :
      (live new : st.World) (target : Text) (d : Disk st.World)
      → d.marker ≡ some (valid Phase.started target)
      → d.live ≡ new
      → Settled live new d
  started_Settled live new target d m h =
      subst (λ k. SettledAt live new k d.rollback d.live) (sym m) h

  wind_up :
      (target : Text) (live : st.World) (s : State st.World)
      → s.disk.marker ≡ some (valid Phase.started target)
      → s.disk.live ≡ restored target live
      → s.disk.running ≡ true
      → Transacted target live ((catch cleanup (λ _. pure tt) >> pure target) s)
  wind_up target live s m h up = bind_rule _ _ _ _ _ _ (
      catch_rule _ _ _ _ _ _ (
        cleanup_last live (restored target live) _ _ _ whole_removal s
          (started_Settled live _ target s.disk m h)
          (λ t c. (refl, c.2 ∙ h, c.3 ∙ up, Safe-of_Clean live (restored target live) t.disk c.0))
          (λ t c.
            (refl, c.2 ∙ h, c.4 ∙ up, Settled-Safe live (restored target live) whole_removal t c.1))
          (λ t c. Settled-Safe live (restored target live) whole_removal t c)))

  attempt_rule :
      (target : Text) (s : State st.World)
      → s.disk.running ≡ true
      → Transacted target s.disk.live (attempt target (begun target s))
  unfolding attempt
  attempt_rule target s up = bind_rule _ _ _ _ _ _ (
      catch_rule _ _ _ _ _ _ (
        weaken_rule {Q = λ _ t. Finished target s t} {Q' = λ _ t. Rest t}
          {X = λ _ t. Stuck s.disk.live new t}
          {X' = λ e t.
            Ends (λ _ u. Rest u) (λ e u. Abandoned s.disk.live new e u.disk)
              (λ u. Safe s.disk.live new u.disk) (on_error target e t)}
          {K = λ t. Safe s.disk.live new t.disk} {K' = λ t. Safe s.disk.live new t.disk}
          (body target (begun target s)) (body_rule target s up)
          (λ a t c. wind_up target s.disk.live t c.0 c.1 c.2)
          (λ e t c.
            weaken_rule {Q = λ _ u. ⊥} {Q' = λ _ u. Rest u}
              {X = λ e u. Abandoned s.disk.live new e u.disk}
              {X' = λ e u. Abandoned s.disk.live new e u.disk}
              {K = λ u. Safe s.disk.live new u.disk} {K' = λ u. Safe s.disk.live new u.disk}
              (on_error target e t) (on_error_rule s.disk.live new whole_removal target e t c)
              (λ a u x. absurd x) (λ e u x. x) (λ u x. x))
          (λ t c. c)))
    where
      new : st.World
      new = restored target s.disk.live

      Rest : State st.World → Type 0
      Rest u = Transacted target s.disk.live ((catch cleanup (λ _. pure tt) >> pure target) u)

  carry_out_rule :
      (target : Text) (live : st.World) (stage : Option st.World) (faults : List (Fate st.World))
      → Transacted target live (carry_out target (fresh live stage true faults))
  unfolding carry_out extract_archive write_state clear_flags ◌>>=◌
  carry_out_rule target live stage faults =
      step_rule _ _ _ _ _ _ _
        (λ fs.
          step_rule _ _ _ _ _ _ _ (λ fs. attempt_rule target (fresh live stage true fs) refl)
            (λ x fs. (refl, inl refl)) (λ x fs. (refl, inl refl)))
        (λ x fs. (refl, inl refl)) (λ x fs. (refl, inl refl))

  -- If the removal of a directory does not stop half way, then, whatever else fails and wherever the
  -- process is killed, restoring an archive over a running server that holds the world `live`, on a
  -- disk without a trace of an earlier restoration, leaves a disk from which a whole world can be had.
  -- If it returns, it returns its target, the restored world is live and the server runs. If it
  -- reports that the restoration was undone or cancelled, the world that was live is live again,
  -- nothing of the transaction is left, and the server runs.
  pub restore_transaction-Safe :
      (unknown target : Text) (live : st.World) (stage : Option st.World)
      (faults : List (Fate st.World))
      → Transacted target live
          (restore_transaction true unknown (some target) (fresh live stage true faults))
  unfolding restore_transaction recover remove_stage unlink_tmp proceed
  restore_transaction-Safe unknown target live stage faults =
      bind_rule _ _ _ (recover unknown) (proceed (some target)) (fresh live stage true faults) (
        step_rule _ _ _ _ _ _ _
          (λ fs.
            step_rule _ _ _ _ _ _ _ (λ fs. carry_out_rule target live none fs)
              (λ x fs. (refl, inl refl)) (λ x fs. (refl, inl refl)))
          (λ x fs. (refl, inl refl)) (λ x fs. (refl, inl refl)))
