-- ===== src/Restore/Transaction/Torn.antt =====
-- Recoveries one after the other (app/restore_worker.py): a calm one after any crash, and one
-- after a crash in the middle of the removal of the rollback.
use mc_admin.Base.{
  Text, true, false, Option, none, some, List, [], ◌∷◌, ◌≡◌, refl, inl, inr, ap, ◌∙◌,
}
use mc_admin.Restore.Machine.{
  ◌>>=◌, Storage, Phase, Marker, valid, invalid, Disk, Failure, State, Out, Fate, fine, killed, ok,
  raised, dead, effect, stop, start, sync_rollback, remove_stage, remove_rollback, unlink_state,
  unlink_tmp,
}
use mc_admin.Restore.Transaction.{
  cleanup, resume, recover, restore_transaction, rollback_phase, is_some,
}
use mc_admin.Restore.Transaction.Invariant.{Safe, SafeAt, SafeIn, Held, Whole, class, Safe-of_Clean}
use mc_admin.Restore.Transaction.Recovery.{recover-valid}
use mc_admin.Restore.Transaction.Run.{
  Transacted, Abandoned, fresh, restored, restore_transaction-Safe,
}

module _ ⦃st : Storage⦄ where
  -- The process starts again, and this time nothing fails.
  abbrev pub restarted : State st.World → State st.World
  restarted s = record s { faults = [] }

  abbrev calm : State st.World → Option Marker → Option st.World → State st.World
  calm s m rb = record s { disk = record s.disk { marker = m; rollback = rb }; faults = [] }

  module _ (old new : st.World) where
    abbrev pub Ended : State st.World → Type 0
    Ended s = Whole old new s.disk.live × (s.disk.rollback ≡ none)

    view-Held :
        (r live : st.World) → Held old new (some r) live → st.view (st.exact r live) ≡ st.view old
    view-Held r live (inl e) = cc (e.0)
    view-Held r live (inr e) = let q : r ≡ st.clone old = cc e in rw q (st.exact-clone old live)

    old-Held : (live : st.World) → Held old new none live → st.view live ≡ st.view old
    old-Held live (inl e) = e.1
    old-Held live (inr e) = cc e

    resume-Ended :
        (unknown t : Text) (p : Phase) (rb : Option st.World) (s : State st.World)
        → SafeIn old new (class p) rb s.disk.live
        → Ended (resume unknown (is_some rb) (some (valid p t)) (calm s (some (valid p t)) rb)).1
    unfolding resume cleanup stop start sync_rollback remove_stage remove_rollback unlink_state
        unlink_tmp effect ◌>>=◌
    resume-Ended unknown t Phase.started rb s h = (inr h, refl)
    resume-Ended unknown t Phase.staged none s h = (inl (ap st.view h), refl)
    resume-Ended unknown t Phase.staged (some r) s h = (inl (ap st.view h), refl)
    resume-Ended unknown t Phase.stopping none s h = (inl (ap st.view h), refl)
    resume-Ended unknown t Phase.stopping (some r) s h = (inl (ap st.view h), refl)
    resume-Ended unknown t Phase.stopped none s h = (inl (ap st.view h), refl)
    resume-Ended unknown t Phase.stopped (some r) s h = (inl (ap st.view h), refl)
    resume-Ended unknown t Phase.unknown rb s h = absurd h
    resume-Ended unknown t p none s h = (inl (old-Held _ h), refl)
    resume-Ended unknown t p (some r) s h = (inl (view-Held r _ h), refl)

    recover-Ended :
        st.read_faults ≡ false
        → (unknown : Text) (m : Option Marker) (rb : Option st.World) (s : State st.World)
        → SafeAt old new m rb s.disk.live
        → Ended (recover unknown (calm s m rb)).1
    recover-Ended readable unknown none none s h =
        unfold recover remove_stage unlink_tmp effect ◌>>=◌ in (h.1, refl)
    recover-Ended readable unknown none (some r) s h = cc (h.0)
    recover-Ended readable unknown (some invalid) rb s h = absurd h
    recover-Ended readable unknown (some (valid p t)) rb s h =
        rw (recover-valid readable unknown (restarted s) p t rb) (resume-Ended unknown t p rb s h)

  Safe-of_Abandoned :
      (old new : st.World) (e : Failure) (d : Disk st.World)
      → Abandoned old new e d
      → Safe old new d
  Safe-of_Abandoned old new Failure.undone d h = Safe-of_Clean old new d h.0
  Safe-of_Abandoned old new Failure.cancelled d h = Safe-of_Clean old new d h.0
  Safe-of_Abandoned old new _ d h = h

  Safe-of_Transacted :
      (target : Text) (live : st.World) (r : Out Text × State st.World)
      → Transacted target live r
      → Safe live (restored target live) r.1.disk
  Safe-of_Transacted target live (ok a, s) h = h.3
  Safe-of_Transacted target live (raised e, s) h = Safe-of_Abandoned live _ e s.disk h
  Safe-of_Transacted target live (dead, s) h = h

  -- If the removal of a directory does not stop half way and the marker can be read, then, wherever
  -- else a restoration over a running server, on a disk without a trace of an earlier one, was stopped,
  -- by an error or by a kill, the next start of the worker with no fault ends with a whole world, the
  -- old one or the restored one, and no rollback.
  pub restart_recovers :
      st.torn_removal ≡ false
      → st.read_faults ≡ false
      → (unknown target : Text) (live : st.World) (stage : Option st.World)
        (faults : List (Fate st.World))
      → let crashed =
          (restore_transaction true unknown (some target) (fresh live stage true faults)).1 in
        Ended live (restored target live) (recover unknown (restarted crashed)).1
  restart_recovers whole readable unknown target live stage faults =
      let r : Out Text × State st.World =
        restore_transaction true unknown (some target) (fresh live stage true faults) in
      recover-Ended live (restored target live) readable unknown r.1.disk.marker r.1.disk.rollback
        r.1
        (Safe-of_Transacted target live r
          (restore_transaction-Safe whole unknown target live stage faults))

  -- A disk that a restoration left in that phase, with its rollback.
  abbrev pub interrupted :
      Phase → Text → st.World → st.World → List (Fate st.World) → State st.World
  interrupted p t r live faults = record {
    disk = record {
      live = live;
      stage = none;
      rollback = some r;
      marker = some (valid p t);
      running = false;
    };
    faults = faults;
    server_stopped = false;
    copy_ready = false;
  }

  -- What such a kill leaves: the world written back, and the rest of the rollback.
  abbrev left_over : Phase → Text → st.World → st.World → State st.World
  left_over p t live rest = record (interrupted p t rest live []) {
    disk = record {
      live = live;
      stage = none;
      rollback = some rest;
      marker = some (valid p t);
      running = true;
    };
  }

  -- Killed while it removes the rollback, of which `rest` is left.
  abbrev pub killed_in_cleanup : st.World → List (Fate st.World)
  killed_in_cleanup rest =
      fine ∷ fine ∷ fine ∷ fine ∷ killed (record { world = some rest; up = true }) ∷ []

  torn_resume :
      st.torn_removal ≡ true
      → (unknown t : Text) (p : Phase) (live r rest : st.World) → rollback_phase p ≡ true
      → resume unknown true (some (valid p t)) (interrupted p t r live (killed_in_cleanup rest))
        ≡ (dead, left_over p t (st.exact r live) rest)
  unfolding resume cleanup stop start sync_rollback remove_stage remove_rollback effect ◌>>=◌
  torn_resume torn unknown t Phase.rollback_ready live r rest h = rw torn
  torn_resume torn unknown t Phase.applying live r rest h = rw torn
  torn_resume torn unknown t Phase.applied live r rest h = rw torn
  torn_resume torn unknown t Phase.starting live r rest h = rw torn
  torn_resume torn unknown t Phase.rolling_back live r rest h = rw torn
  torn_resume torn unknown t Phase.rollback_failed live r rest h = rw torn
  torn_resume torn unknown t _ live r rest h = cc h

  resume-calm :
      (unknown t : Text) (p : Phase) (s : State st.World) (r : st.World)
      → rollback_phase p ≡ true
      → (resume unknown true (some (valid p t)) (calm s (some (valid p t)) (some r))).1.disk.live
        ≡ st.exact r s.disk.live
  unfolding resume cleanup stop start sync_rollback remove_stage remove_rollback unlink_state
      unlink_tmp effect ◌>>=◌
  resume-calm unknown t Phase.rollback_ready s r h = refl
  resume-calm unknown t Phase.applying s r h = refl
  resume-calm unknown t Phase.applied s r h = refl
  resume-calm unknown t Phase.starting s r h = refl
  resume-calm unknown t Phase.rolling_back s r h = refl
  resume-calm unknown t Phase.rollback_failed s r h = refl
  resume-calm unknown t _ s r h = cc h

  torn_recover :
      st.torn_removal ≡ true
      → st.read_faults ≡ false
      → (unknown t : Text) (p : Phase) (live r rest : st.World) → rollback_phase p ≡ true
      → recover unknown (interrupted p t r live (killed_in_cleanup rest))
        ≡ (dead, left_over p t (st.exact r live) rest)
  torn_recover torn readable unknown t p live r rest h =
      recover-valid readable unknown (interrupted p t r live (killed_in_cleanup rest)) p t (some r)
      ∙ torn_resume torn unknown t p live r rest h

  -- If a recovery is killed while it removes the rollback that it has just written back, the next
  -- recovery, with no fault, writes what is left of the rollback over the world: entries that had
  -- been removed from the rollback are removed from the world. The first recovery had already
  -- restored the world whole.
  pub torn_rollback_overwrites :
      st.torn_removal ≡ true
      → st.read_faults ≡ false
      → (unknown t : Text) (p : Phase) (live r rest : st.World) → rollback_phase p ≡ true
      → let first = (recover unknown (interrupted p t r live (killed_in_cleanup rest))).1 in
        (first.disk.live ≡ st.exact r live)
        × ((recover unknown (restarted first)).1.disk.live ≡ st.exact rest (st.exact r live))
  torn_rollback_overwrites torn readable unknown t p live r rest phase =
      rw (torn_recover torn readable unknown t p live r rest phase) (
        refl,
        ap (λ (x : Out (Option Text) × State st.World). x.1.disk.live)
              (recover-valid readable unknown (left_over p t (st.exact r live) rest) p t
                (some rest))
            ∙ resume-calm unknown t p (left_over p t (st.exact r live) rest) rest phase,
      )
