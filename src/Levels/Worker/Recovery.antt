-- ===== src/Levels/Worker/Recovery.antt =====
-- app/op_levels_worker.py: `_recover_interrupted`, at the start of the next run.
use mc_admin.Base.{
  ◌≡◌, inl, inr, refl, sym, subst, Text, Bool, true, false, Option, none, some, List, [],
  if◌then◌else◌, not, ◌&&◌,
}
use mc_admin.Base.Dict.{text_Eq}
use mc_admin.Levels.{Item, Entry, Lower}
use mc_admin.Levels.Dicts.{last_of}
use mc_admin.Levels.Machine.{World, Site, Faults, Marker, ok, Failure, ◌>>=◌}
use mc_admin.Levels.Machine.Rules.{
  Does, Ends, Ends-world, bind_rule, catch_rule, sure_rule, get_rule, if_rule, pure_rule,
  raise_rule, result_rule, weaken,
}
use mc_admin.Levels.Worker.{
  is_some, is_committed, read_state, requested_of, undo_written, go_back, resume,
  recover_interrupted,
}
use mc_admin.Levels.Worker.Safe.{
  IsStore, Safe, SafeBy, ByPhase, Unsettled, Open, Held, Held-Safe, Open-Safe, restore_claim_rule,
  Held-cleanup,
}
use mc_admin.Levels.Worker.Commit.{Never, complete_claim_rule, Finished-cleanup}
use mc_admin.Levels.Worker.Laws.{Anything, stop_rule, start_rule, restore_rollback_rule}

module _ ⦃lib : Lower⦄ ⦃faults : Faults⦄ (k : Text) (item : Item) where
  undo_written_rule :
      (requested : List Item)
      → Does
          (Open k item requested)
          undo_written
          (λ _. Open k item requested)
          (Safe k item)
          (Safe k item)
  unfolding undo_written
  undo_written_rule requested =
      let safe = Open-Safe k item requested in
      get_rule {P = Open k item requested} (λ v h.
        weaken {P = Open k item requested} (λ w e. subst (Open k item requested) (sym e) h)
          (if_rule (is_some v.rollback)
            (λ _.
              bind_rule (stop_rule k item requested safe Site.undo_stop)
                (λ _. restore_rollback_rule k item requested safe))
            (λ _. pure_rule tt (λ w o. o))))

  go_back_rule :
      (state : Option Marker)
      → Does
          (Open k item (requested_of state))
          (go_back state)
          (λ _. Safe k item)
          (Safe k item)
          (Safe k item)
  unfolding go_back
  go_back_rule state =
      let requested = requested_of state in
      let safe = Open-Safe k item requested in
      bind_rule
        (catch_rule {Y = Safe k item} {Q = λ _. Held k item}
          (bind_rule (undo_written_rule requested) (λ _.
            bind_rule
              (weaken {P = λ w. Open k item requested w × Unit} (λ w h. (h, tt))
                (start_rule k item requested safe (Anything k item) Site.undo_start))
              (λ _.
                bind_rule (weaken (λ w h. h.0) (restore_claim_rule k item requested))
                  (λ _. Held-cleanup k item))))
          (λ _. raise_rule Failure.not_recovered (λ w h. h)))
        (λ _. raise_rule Failure.undone_on_recovery (Held-Safe k item))

  -- What the recovery does with the marker m, in a state that is safe by it.
  by_marker :
      (m : Marker) (w : World)
      → w.marker ≡ some m
      → IsStore w
      → (committed : Bool) → is_committed m.phase ≡ committed
      → ByPhase k item committed m w
      → Ends (λ _. Safe k item) (Safe k item) (Safe k item) (resume (some m) w)
  unfolding resume requested_of
  by_marker m w e s true c settled = rw c (
      (bind_rule
          (complete_claim_rule k item m.unresolved (inr (λ v h. h)) (inr (λ v h. h))
            (inr (λ v h. h)))
          (λ _.
            result_rule (λ _ v h. h.0)
              (Finished-cleanup k item m.unresolved (inr (λ v h. h)) (inr (λ v h. h))))).ends
        w (s, settled, (m, e, c, refl)))
  by_marker m w e s false c (wants, agrees) = rw c (
      (go_back_rule (some m)).ends w (
        s,
        wants,
        agrees,
        subst (λ x. Unsettled k item x w.pending w.applying) (sym e) (c, agrees),
      ))

  read_rule :
      (m : Marker) (w : World)
      → Never Site.read_marker
      → Safe k item w
      → Does
          (λ v. v ≡ w)
          (read_state (some m))
          (λ x v. (v ≡ w) × (x ≡ some m))
          (Safe k item)
          (Safe k item)
  unfolding read_state
  read_rule m w reads safe =
      catch_rule {Y = λ _. ⊥}
        (bind_rule
          (sure_rule {Q = λ v. v ≡ w} Site.read_marker (λ v. v) reads
            (λ v e. let same = subst (Safe k item) (sym e) safe in (e, same, same)))
          (λ _. pure_rule (some m) (λ v e. (e, refl))))
        (λ _. record { ends = λ v h. elim h [ ] })

  resume_rule :
      (m : Marker) (w : World)
      → w.marker ≡ some m
      → Never Site.read_marker
      → Safe k item w
      → Ends (λ _. Safe k item) (Safe k item) (Safe k item) ((read_state (some m) >>= resume) w)
  resume_rule m w e reads (s, by) =
      (bind_rule (read_rule m w reads (s, by)) (λ x. record {
        ends = λ v h.
            subst (λ y. Ends (λ _. Safe k item) (Safe k item) (Safe k item) (resume y v)) (sym h.1)
              (subst (λ u. Ends (λ _. Safe k item) (Safe k item) (Safe k item) (resume (some m) u))
                (sym h.0)
                (by_marker m w e s (is_committed m.phase) refl
                  (subst (λ y. SafeBy k item y w) e by)));
      })).ends
        w refl

  -- The recovery keeps a safe state safe, wherever it fails or is killed, provided that a marker that
  -- exists can be read.
  pub recover_interrupted-Safe :
      (w : World) → Never Site.read_marker → Safe k item w → Safe k item (recover_interrupted w).1
  unfolding recover_interrupted read_state resume requested_of last_of ◌>>=◌
  recover_interrupted-Safe w reads (s, by) =
      Ends-world (Safe k item) (recover_interrupted w) (go w.rollback refl w.marker refl)
    where
      open_unmarked : (c : List Entry) → w.rollback ≡ some c → w.marker ≡ none → Open k item [] w
      open_unmarked c r m = elim (subst (λ y. SafeBy k item y w) m by) [
        | inl wants ↦
            (s, wants, wants, subst (λ x. Unsettled k item x w.pending w.applying) (sym m) tt)
        | inr (gone, applied) ↦ cc (gone, r)
      ]

      go :
          (r : Option (List Entry))
          → w.rollback ≡ r
          → (m : Option Marker) → w.marker ≡ m
          → Ends
              (λ _. Safe k item)
              (Safe k item)
              (Safe k item)
              (if not (is_some r) && not (is_some m)
                then (ok tt, w)
                else (read_state m >>= resume) w)
      go none r none m = (s, by)
      go (some c) r none m = (go_back_rule none).ends w (open_unmarked c r m)
      go none r (some n) m = resume_rule n w m reads (s, by)
      go (some c) r (some n) m = resume_rule n w m reads (s, by)
