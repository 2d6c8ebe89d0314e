-- ===== src/Levels/Worker/Forgotten.antt =====
-- app/op_levels_worker.py: a commit that raises, and a rollback that then fails. The marker still says
-- that the transaction is committed, so the next run ends the lot though ops.json is the old one.
use mc_admin.Base.{
  ◌≡◌, inl, inr, refl, ◌∙◌, Text, true, false, Option, none, some, List, [], ◌==◌, ◌&&◌, not, any,
  Bool-cases,
}
use mc_admin.Base.Dict.{get, text_Eq}
use mc_admin.Levels.{Item, Levels, Entry, Lower}
use mc_admin.Levels.Dicts.{
  update, values, sorted, set_defaults, put_all, first_of, get-sorted, get-set_defaults,
  IsDict-sorted, IsDict-set_defaults, first_of-values, Keyed-put_all,
}
use mc_admin.Levels.Machine.{
  World, Site, Faults, fine, raises, ok, raised, Phase, Marker, Failure, ◌>>=◌, catch, effect,
  get_world, modify,
}
use mc_admin.Levels.Store.{claim, complete_claim}
use mc_admin.Levels.Entries.{is_for, apply_requested_levels, unmatched}
use mc_admin.Levels.Entries.Laws.{get-unmatched, Keyed-unmatched}
use mc_admin.Levels.Worker.{
  is_some, cleanup, write_state, stop, start, restore_rollback, set_stopped, read_state, resume,
  recover_interrupted, write_levels, body, undo, on_error, carry_out, apply_pending_levels,
}

-- The removal of the claimed lot raises once it is done, and then the server cannot be started.
abbrev pub commit_fails : Faults
commit_fails = record {
  fate = λ site. elim site [
    | Site.complete_applying ↦ raises true
    | Site.undo_start ↦ raises false
    | _ ↦ fine
  ];
}

abbrev pub no_faults : Faults
no_faults = record { fate = λ site. fine }

module _ ⦃lib : Lower⦄ where
  module _ (w : World) where
    claimed : Levels
    claimed = sorted (update w.applying w.pending)

    unresolved : List Item
    unfolding claimed
    unresolved = (apply_requested_levels w.ops (values claimed)).1.1

    -- What the failed run leaves.
    left : World
    unfolding claimed unresolved
    left = record w {
      pending = sorted (set_defaults [] unresolved);
      applying = [];
      rollback = some w.ops;
      marker =
          some (record {
            phase = Phase.committed;
            requested = values claimed;
            unresolved = unresolved;
          });
      running = false;
      may_be_stopped = false;
      copy_ready = true;
    }

    claimed_run :
        (claim ⦃faults = commit_fails⦄ >>= carry_out ⦃faults = commit_fails⦄)
          (record w { may_be_stopped = false; copy_ready = false })
        ≡ (raised Failure.both_failed, left)
    unfolding carry_out body write_levels on_error undo claim complete_claim write_state stop start
        restore_rollback set_stopped effect catch ◌>>=◌ get_world modify left unresolved claimed
    claimed_run = elim (Bool-cases ((apply_requested_levels w.ops (values claimed)).1.0 == 0)) [
      | inl h ↦ rw h refl
      | inr h ↦ rw h refl
    ]

    fresh :
        w.rollback ≡ none
        → w.marker ≡ none
        → recover_interrupted ⦃faults = commit_fails⦄ w ≡ (ok tt, w)
    unfolding recover_interrupted
    fresh r m = rw (no_trace w.rollback w.marker r m) refl
      where
        no_trace :
            (r : Option (List Entry)) (m : Option Marker)
            → r ≡ none
            → m ≡ none
            → (not (is_some r) && not (is_some m)) ≡ true
        no_trace r m e f = rw (e, f) refl

    failed_run :
        w.rollback ≡ none
        → w.marker ≡ none
        → apply_pending_levels ⦃faults = commit_fails⦄ true w ≡ (raised Failure.both_failed, left)
    unfolding apply_pending_levels ◌>>=◌ modify
    failed_run r m = rw (fresh r m) claimed_run

    ended : World
    unfolding left
    ended = record left {
      pending = sorted (set_defaults left.pending unresolved);
      rollback = none;
      marker = none;
    }

    next_run : recover_interrupted ⦃faults = no_faults⦄ left ≡ (ok tt, ended)
    unfolding recover_interrupted read_state resume complete_claim cleanup effect catch ◌>>=◌
        get_world left ended
    next_run = refl

    -- A player with an entry in ops.json is not among those without.
    resolved : (k : Text) → any (is_for k) w.ops ≡ true → first_of k unresolved ≡ none
    unfolding unresolved apply_requested_levels
    resolved k present =
        let d = put_all [] (values claimed) in
        first_of-values k (unmatched d w.ops)
          (Keyed-unmatched d w.ops (Keyed-put_all [] (values claimed) tt))
        ∙ get-unmatched k d w.ops
        ∙ rw present refl

    forgotten : (k : Text) → any (is_for k) w.ops ≡ true → get k ended.pending ≡ none
    unfolding ended left get
    forgotten k present =
        let once = set_defaults [] unresolved in
        let whole = IsDict-set_defaults [] unresolved tt in
        let twice = set_defaults (sorted once) unresolved in
        get-sorted k twice (IsDict-set_defaults (sorted once) unresolved (IsDict-sorted once whole))
        ∙ get-set_defaults k (sorted once) unresolved
        ∙ rw (get-sorted k once whole, get-set_defaults k [] unresolved, resolved k present) refl

    -- If removing the claimed lot raises once it is done, and the server then cannot be started on the
    -- original ops.json, the recovery of the next run ends well and forgets the request of every player that
    -- ops.json has: ops.json is as before the first run, and the store asks for nothing.
    pub failed_commit_forgets :
        (k : Text)
        → w.rollback ≡ none
        → w.marker ≡ none
        → any (is_for k) w.ops ≡ true
        → let after =
            recover_interrupted ⦃faults = no_faults⦄
              (apply_pending_levels ⦃faults = commit_fails⦄ true w).1 in
          (after.0 ≡ ok tt)
          × (after.1.ops ≡ w.ops)
          × (get k after.1.pending ≡ none)
          × (get k after.1.applying ≡ none)
    unfolding ended left get
    failed_commit_forgets k r m present =
        rw (failed_run r m, next_run) (refl, refl, forgotten k present, refl)
