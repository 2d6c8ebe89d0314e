-- ===== src/Levels/Worker/Run.antt =====
-- app/op_levels_worker.py: a run of `apply_pending_levels` that finds no trace of an earlier one.
use mc_admin.Base.{
  ◌≡◌, inl, inr, refl, sym, subst, ap, ◌∙◌, arith, Text, Bool, true, false, Option, none, some,
  List, [], ◌==◌, length, not, ◌&&◌,
}
use mc_admin.Base.Dict.{get, text_Eq}
use mc_admin.Levels.{Item, Entry, Lower}
use mc_admin.Levels.Dicts.{
  update, values, sorted, last_of, get-update, get-sorted, IsDict-update, IsDict-sorted,
  Keyed-update, Keyed-sorted, last_of-values,
}
use mc_admin.Levels.Machine.{World, Site, Faults, Phase, Marker, ◌>>◌, effect, modify}
use mc_admin.Levels.Machine.Rules.{
  Does, Ends-world, bind_rule, catch_rule, effect_rule, effect_at, modify_rule, get_rule, if_rule,
  pure_rule, fact_rule, result_rule, weaken,
}
use mc_admin.Levels.Store.{claim}
use mc_admin.Levels.Entries.{apply_requested_levels}
use mc_admin.Levels.Entries.Laws.{Applied, Treated, apply_requested_levels-Applied}
use mc_admin.Levels.Worker.{
  is_some, write_state, recover_interrupted, write_levels, body, carry_out, apply_pending_levels,
}
use mc_admin.Levels.Worker.Safe.{
  IsStore, Wants, Settled, Safe, SafeBy, Unsettled, Open, Open-Safe, hides,
}
use mc_admin.Levels.Worker.Commit.{
  Never, Escape-effect, Committed, Committed-Safe, Finished, complete_claim_rule, Finished-cleanup,
}
use mc_admin.Levels.Worker.Laws.{
  aside, Anything, stop_rule, start_rule, set_stopped_rule, write_state_rule, on_error_rule,
}

module _ ⦃lib : Lower⦄ ⦃faults : Faults⦄ where
  -- The marker of the commit is written, and the lot ended, unless the process is killed.
  abbrev pub CommitHolds : Type 0
  CommitHolds =
      Never Site.mark_committed
      × Never Site.complete_read
      × Never Site.complete_pending
      × Never Site.complete_applying

  module _ (k : Text) (item : Item) (holds : CommitHolds) where
    -- The commit settles the request.
    commit_rule :
        (requested : List Item) (entries : List Entry)
        → last_of k requested ≡ some item
        → Does
            (λ w. Open k item requested w × (w.ops ≡ (apply_requested_levels entries requested).0))
            (write_state Site.mark_committed Phase.committed requested
              (apply_requested_levels entries requested).1.1)
            (λ _. Committed k item (apply_requested_levels entries requested).1.1)
            (Open k item requested)
            (Safe k item)
    unfolding write_state
    commit_rule requested entries asked =
        let (after, (changed, unresolved)) = apply_requested_levels entries requested in
        Escape-effect k item Site.mark_committed _ (inl holds.0) (λ w h.
          let next : World = record w {
            marker = some (record {
              phase = Phase.committed;
              requested = requested;
              unresolved = unresolved;
            });
          } in
          let committed : Committed k item unresolved next =
            (h.0.0, settled w h, (_, refl, refl, refl)) in
          (
            committed,
            Committed-Safe k item unresolved next committed,
            Open-Safe k item requested w h.0,
          ))
      where
        settled :
            (w : World)
            → Open k item requested w × (w.ops ≡ (apply_requested_levels entries requested).0)
            → Settled k item (apply_requested_levels entries requested).1.1 w
        settled w h =
            let treated =
              subst
                (λ o.
                  Treated k o entries (apply_requested_levels entries requested).0
                    (apply_requested_levels entries requested).1.1)
                asked (apply_requested_levels-Applied entries requested k).0 in
            elim treated [
              | inl applied ↦ inr (subst (Applied k item.level) (sym h.1) applied)
              | inr (absent, stays) ↦
                  inl (elim (hides k item (get k w.pending) (get k w.applying) h.0.1) [
                    | inl e ↦ rw (e, stays) refl
                    | inr e ↦ rw e refl
                  ])
            ]

    write_levels_rule :
        (requested : List Item) (entries : List Entry)
        → last_of k requested ≡ some item
        → Does
            (λ w. Open k item requested w × (w.ops ≡ entries))
            (write_levels requested entries)
            (λ result. Finished k item result.1)
            (Open k item requested)
            (Safe k item)
    unfolding write_levels
    write_levels_rule requested entries asked =
        let (after, (changed, unresolved)) = apply_requested_levels entries requested in
        let law = apply_requested_levels-Applied entries requested k in
        let still = λ (w : World) (h : Open k item requested w). h in
        let IsAfter : List Entry → Type 0 = λ l. l ≡ after in
        bind_rule
          (if_rule (changed == 0)
            (λ e. pure_rule tt (λ w h.
              (h.0, h.1 ∙ sym (elim law.1 [ inl some_change ↦ ground arith | inr same ↦ same ]))))
            (λ _. aside k item requested still Site.replace_ops _ (λ w h. (h.0, h.0, (h.0, refl)))))
          (λ _.
            bind_rule
              (write_state_rule k item requested still IsAfter Site.mark_applied Phase.applied refl)
              (λ _. bind_rule (start_rule k item requested still IsAfter Site.start_server) (λ _.
                bind_rule (set_stopped_rule k item requested still IsAfter false) (λ _.
                  bind_rule (commit_rule requested entries asked) (λ _.
                    bind_rule
                      (complete_claim_rule k item unresolved (inl holds.1) (inl holds.2)
                        (inl holds.3))
                      (λ _. pure_rule (changed, unresolved) (λ w h. h)))))))

    -- From the copy of ops.json on.
    copied_rule :
        (requested : List Item) (entries : List Entry)
        → last_of k requested ≡ some item
        → Does
            (λ w. Open k item requested w × (w.ops ≡ entries))
            (effect Site.copy_ops (λ v. record v { rollback = some entries })
              >> modify (λ v. record v { copy_ready = true })
              >> write_state Site.mark_ready Phase.rollback_ready requested []
              >> write_levels requested entries)
            (λ result. Finished k item result.1)
            (Open k item requested)
            (Safe k item)
    copied_rule requested entries asked =
        let still = λ (w : World) (h : Open k item requested w). h in
        bind_rule
          (aside k item requested still {Q = λ w. Open k item requested w × (w.ops ≡ entries)}
            Site.copy_ops (λ v. record v { rollback = some entries }) (λ w h. (h.0, h.0, h)))
          (λ _.
            bind_rule
              (modify_rule {Q = λ w. Open k item requested w × (w.ops ≡ entries)} _ (λ w h. h))
              (λ _.
                bind_rule
                  (write_state_rule k item requested still (λ l. l ≡ entries) Site.mark_ready
                    Phase.rollback_ready refl)
                  (λ _. write_levels_rule requested entries asked)))

    body_rule :
        (requested : List Item)
        → last_of k requested ≡ some item
        → Does
            (Open k item requested)
            (body requested)
            (λ result. Finished k item result.1)
            (Open k item requested)
            (Safe k item)
    unfolding body
    body_rule requested asked =
        let still = λ (w : World) (h : Open k item requested w). h in
        bind_rule
          (weaken {P = λ w. Open k item requested w × Unit} (λ w h. (h, tt))
            (write_state_rule k item requested still (Anything k item) Site.mark_claimed
              Phase.claimed refl))
          (λ _. bind_rule (set_stopped_rule k item requested still (Anything k item) true) (λ _.
            bind_rule (weaken (λ w h. h.0) (stop_rule k item requested still Site.stop_server))
              (λ _.
                bind_rule
                  (weaken {P = λ w. Open k item requested w × Unit} (λ w h. (h, tt))
                    (write_state_rule k item requested still (Anything k item) Site.mark_stopped
                      Phase.stopped refl))
                  (λ _.
                    bind_rule
                      (aside k item requested still {Q = Open k item requested} Site.read_ops
                        (λ w. w) (λ w h. (h.0, h.0, h.0)))
                      (λ _. get_rule {P = Open k item requested} (λ v h.
                        weaken {P = λ w. Open k item requested w × (w.ops ≡ v.ops)}
                          (λ w e.
                            (subst (Open k item requested) (sym e) h, ap (λ (u : World). u.ops) e))
                          (copied_rule requested v.ops asked)))))))

    abbrev Start : World → Type 0
    Start w = IsStore w × Wants k item w × (w.rollback ≡ none) × (w.marker ≡ none)

    -- The claimed files hold the request.
    abbrev Claimed : World → Type 0
    Claimed w = IsStore w × Wants k item w × (w.marker ≡ none) × (get k w.applying ≡ some item)

    Wants-Safe : (w : World) → IsStore w → Wants k item w → w.marker ≡ none → Safe k item w
    Wants-Safe w s h e = (s, subst (λ m. SafeBy k item m w) (sym e) (inl h))

    merge_claim :
        (v : World)
        → Start v
        → Claimed (record v { applying = sorted (update v.applying v.pending) })
    merge_claim v ((p, a), wants, r, m) =
        let d = update v.applying v.pending in
        let whole = IsDict-update v.applying v.pending a.0 in
        let found : get k (sorted d) ≡ some item =
          get-sorted k d whole ∙ get-update k v.applying v.pending p.0 ∙ wants in
        (
          (p, (IsDict-sorted d whole, Keyed-sorted d (Keyed-update v.applying v.pending a.1 p.1))),
          elim (hides k item (get k v.pending) (get k v.applying) wants) [
            | inl e ↦ rw (e, found) refl
            | inr e ↦ rw e refl
          ],
          m,
          found,
        )

    empty_first :
        (requested : List Item)
        → last_of k requested ≡ some item
        → (w : World) → Claimed w
        → Open k item requested (record w { pending = [] })
    unfolding get
    empty_first requested asked w (s, wants, m, found) = (
      ((tt, tt), s.1),
      found,
      rw asked refl,
      subst (λ x. Unsettled k item x [] w.applying) (sym m) tt,
    )

    claim_rule :
        Does Start claim
          (λ requested w. Open k item requested w × (last_of k requested ≡ some item))
          (Safe k item)
          (Safe k item)
    unfolding claim
    claim_rule =
        bind_rule
          (effect_rule {Q = Start} Site.claim_read (λ w. w)
            (λ w h. let safe = Wants-Safe w h.0 h.1 h.3 in (h, safe, safe, safe, safe)))
          (λ _. get_rule {P = Start} (λ v h.
            let merged = sorted (update v.applying v.pending) in
            let done = merge_claim v h in
            let safe = Wants-Safe _ done.0 done.1 done.2 in
            let before = Wants-Safe v h.0 h.1 h.3 in
            let asked : last_of k (values merged) ≡ some item =
              last_of-values k merged done.0.1.1 done.0.1.0 ∙ done.3 in
            bind_rule
              (effect_at {Q = Claimed} Site.claim_applying _ v (done, safe, before, safe, before))
              (λ _.
                bind_rule
                  (effect_rule {P = Claimed} {Q = Open k item (values merged)} Site.claim_pending _
                    (λ w c.
                      let emptied = empty_first (values merged) asked w c in
                      let after = Open-Safe k item (values merged) _ emptied in
                      let earlier = Wants-Safe w c.0 c.1 c.2 in
                      (emptied, after, earlier, after, earlier)))
                  (λ _. pure_rule (values merged) (λ w o. (o, asked))))))

    carry_out_rule :
        (requested : List Item)
        → last_of k requested ≡ some item
        → Does
            (Open k item requested)
            (carry_out requested)
            (λ _. Safe k item)
            (Safe k item)
            (Safe k item)
    unfolding carry_out
    carry_out_rule requested asked =
        bind_rule
          (catch_rule {Y = Open k item requested} (body_rule requested asked)
            (λ _. on_error_rule k item requested))
          (λ result.
            bind_rule
              (catch_rule {Y = Safe k item}
                (result_rule (λ _ w h. h.0)
                  (Finished-cleanup k item result.1 (inr (λ w h. h)) (inr (λ w h. h))))
                (λ _. pure_rule tt (λ w h. h)))
              (λ _. pure_rule (result.0, length result.1) (λ w h. h)))

    fresh_rule : Does Start recover_interrupted (λ _. Start) (Safe k item) (Safe k item)
    unfolding recover_interrupted
    fresh_rule = record { ends = λ w h. rw (no_trace w.rollback w.marker h.2 h.3) h }
      where
        no_trace :
            (r : Option (List Entry)) (m : Option Marker)
            → r ≡ none
            → m ≡ none
            → (not (is_some r) && not (is_some m)) ≡ true
        no_trace r m e f = rw (e, f) refl

    -- Once a request is in the store, a run of the worker that finds no trace of an earlier one leaves it in
    -- the store, or in ops.json, or where the next run takes it from, whatever fails and wherever the run is
    -- killed, provided that the commit does not raise.
    pub apply_pending_levels-Safe :
        (root_is_valid : Bool) (w : World)
        → IsStore w
        → Wants k item w
        → w.rollback ≡ none
        → w.marker ≡ none
        → Safe k item (apply_pending_levels root_is_valid w).1
    unfolding apply_pending_levels
    apply_pending_levels-Safe false w s wants r m = Wants-Safe w s wants m
    apply_pending_levels-Safe true w s wants r m =
        Ends-world (Safe k item) (apply_pending_levels true w) (
          (bind_rule fresh_rule (λ _.
              bind_rule (modify_rule {Q = Start} _ (λ v h. h)) (λ _.
                bind_rule claim_rule (λ requested. fact_rule (carry_out_rule requested))))).ends
            w (s, wants, r, m))
