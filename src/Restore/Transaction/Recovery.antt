-- ===== src/Restore/Transaction/Recovery.antt =====
-- `_recover_interrupted_transaction` (app/restore_worker.py) on a safe disk.
use mc_admin.Base.{Text, true, false, Option, none, some, ◌≡◌, ◌∙◌}
use mc_admin.Restore.Machine.{
  Storage, Phase, Marker, valid, Disk, Failure, State, Out, ok, ◌>>◌, read_state, start, raise,
  pure,
}
use mc_admin.Restore.Machine.Rules.{Ends, step_rule, bind-eq, catch-eq}
use mc_admin.Restore.Transaction.{cleanup, recover, resume, read_or_none, is_some}
use mc_admin.Restore.Transaction.Invariant.{Safe, Settled, Clean, cleanup_then, Safe-of_Settled}

module _ ⦃st : Storage⦄ where
  -- The state with that marker and that rollback.
  abbrev pub at : State st.World → Option Marker → Option st.World → State st.World
  at s m rb = record s { disk = record s.disk { marker = m; rollback = rb } }

  module _ (readable : st.read_faults ≡ false) where
    read_state_lem : (s : State st.World) → read_state s ≡ (ok s.disk.marker, s)
    unfolding read_state
    read_state_lem s = rw readable

    pub recover-valid :
        (unknown : Text) (s : State st.World) (p : Phase) (t : Text) (rb : Option st.World)
        → recover unknown (at s (some (valid p t)) rb)
          ≡ resume unknown (is_some rb) (some (valid p t)) (at s (some (valid p t)) rb)
    unfolding recover read_or_none
    recover-valid unknown s p t rb =
        bind-eq _ _ _
          (catch-eq _ _ _ (bind-eq read_state _ _ (read_state_lem (at s (some (valid p t)) rb))))

module _ ⦃st : Storage⦄ (old new : st.World) where
  -- What a recovery that raised has left.
  abbrev pub Reported : Failure → Disk st.World → Type 0
  Reported Failure.undone_on_recovery d =
      Clean old new d × (st.view d.live ≡ st.view old) × (d.running ≡ true)
  Reported Failure.cancelled_on_recovery d =
      Clean old new d × (st.view d.live ≡ st.view old) × (d.running ≡ true)
  Reported Failure.rollback_was_absent d =
      Clean old new d × (st.view d.live ≡ st.view old) × (d.running ≡ true)
  Reported Failure.manual d = Safe old new d × (st.view d.live ≡ st.view old) × (d.rollback ≡ none)
  Reported e d = Safe old new d

  -- A recovery that returned has found nothing to do, or a finished transaction.
  abbrev pub Recovered : Disk st.World → Option Text → Disk st.World → Type 0
  Recovered before none d = Clean old new d × (d.live ≡ before.live) × (d.running ≡ before.running)
  Recovered before (some t) d = Clean old new d × (d.live ≡ new)

  abbrev pub Ending : Disk st.World → Out (Option Text) × State st.World → Type 0
  Ending before =
      Ends (λ r t. Recovered before r t.disk) (λ e t. Reported e t.disk) (λ t. Safe old new t.disk)

  module _ (whole_removal : st.torn_removal ≡ false) where
    safe : (d : Disk st.World) → Settled old new d → Safe old new d
    safe d h = Safe-of_Settled old new d.marker d.rollback d.live h

    -- The common end: start the server, clean up, and raise.
    finish :
        (before : Disk st.World) (e : Failure) (s : State st.World)
        → Settled old new s.disk
        → ((d : Disk st.World)
            → Clean old new d
            → d.live ≡ s.disk.live
            → d.running ≡ true
            → Reported e d)
        → Ending before ((start >> cleanup >> raise e) s)
    unfolding start
    finish before e s h done =
        step_rule _ _ _ _ _ _ s
          (λ fs.
            cleanup_then old new _ _ _ whole_removal _ _ h (λ t c. done t.disk c.0 c.2 c.3)
              (λ t c. safe t.disk c.1) (λ t c. safe t.disk c))
          (λ x fs. safe s.disk h) (λ x fs. safe s.disk h)

    -- A finished transaction: clean up, and return its target.
    conclude :
        (before : Disk st.World) (t : Text) (s : State st.World)
        → s.disk.live ≡ new
        → Settled old new s.disk
        → Ending before ((cleanup >> pure (some t)) s)
    conclude before t s l h =
        cleanup_then old new _ _ _ whole_removal _ s h (λ u c. (c.0, c.2 ∙ l))
          (λ u c. safe u.disk c.1) (λ u c. safe u.disk c)
