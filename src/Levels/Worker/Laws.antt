-- ===== src/Levels/Worker/Laws.antt =====
-- app/op_levels_worker.py: `apply_pending_levels` loses no request, whatever fails before the commit.
use mc_admin.Base.{ℕ, ◌≡◌, sym, subst, Text, Bool, true, false, some, List, []}
use mc_admin.Base.Dict.{text_Eq}
use mc_admin.Levels.{Item, Entry, Lower}
use mc_admin.Levels.Machine.{World, Site, Faults, Phase, Action, Failure, ◌>>◌, effect}
use mc_admin.Levels.Machine.Rules.{
  Does, bind_rule, catch_rule, effect_rule, modify_rule, get_rule, if_rule, pure_rule, raise_rule,
  weaken,
}
use mc_admin.Levels.Store.{restore_claim}
use mc_admin.Levels.Worker.{
  is_committed, cleanup, write_state, stop, start, restore_rollback, set_stopped, undo, give_up,
  on_error,
}
use mc_admin.Levels.Worker.Safe.{
  Safe, Open, Held, Held-Safe, Open-Safe, restore_claim_rule, Held-cleanup,
}

module _ ⦃lib : Lower⦄ ⦃faults : Faults⦄ (k : Text) (item : Item) where
  module _ {X : World → Type 0} (requested : List Item)
      (fails : (w : World) → Open k item requested w → X w) where
    -- An operation that leaves the requests alone.
    pub aside :
        {P Q : World → Type 0} (site : Site) (f : World → World)
        → ((w : World) → P w → Open k item requested w × Open k item requested (f w) × Q (f w))
        → Does P (effect site f) (λ _. Q) X (Safe k item)
    aside site f keeps = effect_rule site f (λ w h.
        let (before, after, q) = keeps w h in
        (
          q,
          fails _ after,
          fails w before,
          Open-Safe k item requested _ after,
          Open-Safe k item requested w before,
        ))

    pub stop_rule :
        (site : Site)
        → Does (Open k item requested) (stop site) (λ _. Open k item requested) X (Safe k item)
    unfolding stop
    stop_rule site = aside site (λ w. record w { running = false }) (λ w h. (h, h, h))

    pub restore_rollback_rule :
        Does (Open k item requested) restore_rollback (λ _. Open k item requested) X (Safe k item)
    unfolding restore_rollback
    restore_rollback_rule = aside Site.undo_write _ (λ w h. (h, h, h))

    -- What is known of the entries stays known.
    pub start_rule :
        (R : List Entry → Type 0) (site : Site)
        → Does
            (λ w. Open k item requested w × R w.ops)
            (start site)
            (λ _ w. Open k item requested w × R w.ops)
            X
            (Safe k item)
    unfolding start
    start_rule R site = aside site (λ w. record w { running = true }) (λ w h. (h.0, h.0, h))

    pub set_stopped_rule :
        (R : List Entry → Type 0) (flag : Bool)
        → Does
            (λ w. Open k item requested w × R w.ops)
            (set_stopped flag)
            (λ _ w. Open k item requested w × R w.ops)
            X
            (Safe k item)
    unfolding set_stopped
    set_stopped_rule R flag = modify_rule (λ w. record w { may_be_stopped = flag }) (λ w h. h)

    pub write_state_rule :
        (R : List Entry → Type 0) (site : Site) (phase : Phase)
        → is_committed phase ≡ false
        → Does
            (λ w. Open k item requested w × R w.ops)
            (write_state site phase requested [])
            (λ _ w. Open k item requested w × R w.ops)
            X
            (Safe k item)
    unfolding write_state
    write_state_rule R site phase e =
        aside site
          (λ w. record w {
            marker = some (record { phase = phase; requested = requested; unresolved = [] });
          })
          (λ w h. (h.0, marked w h.0, (marked w h.0, h.1)))
      where
        marked :
            (w : World)
            → Open k item requested w
            → Open k item requested (record w {
              marker = some (record { phase = phase; requested = requested; unresolved = [] });
            })
        marked w h = (h.0, h.1, h.2, (e, h.2))

  abbrev pub Anything : List Entry → Type 0
  Anything entries = Unit

  pub start_and_clear :
      {X : World → Type 0} (requested : List Item)
      (fails : (w : World) → Open k item requested w → X w) (R : List Entry → Type 0) (site : Site)
      → Does
          (λ w. Open k item requested w × R w.ops)
          (start site >> set_stopped false)
          (λ _ w. Open k item requested w × R w.ops)
          X
          (Safe k item)
  start_and_clear requested fails R site =
      bind_rule (start_rule requested fails R site) (λ _. set_stopped_rule requested fails R false)

  -- The requests are put back, and the traces removed.
  put_back_rule :
      {A : Type 0} {R : A → World → Type 0} {last : Action A} (requested : List Item)
      → Does (Held k item) last R (Safe k item) (Safe k item)
      → Does
          (Open k item requested)
          (restore_claim requested >> cleanup >> last)
          R
          (Safe k item)
          (Safe k item)
  put_back_rule requested h =
      bind_rule (restore_claim_rule k item requested)
        (λ _. bind_rule (Held-cleanup k item) (λ _. h))

  undo_rule :
      {R : ℕ × List Item → World → Type 0} (requested : List Item)
      → Does (Open k item requested) (undo requested) R (Safe k item) (Safe k item)
  unfolding undo
  undo_rule requested =
      let safe = Open-Safe k item requested in
      bind_rule
        (catch_rule {Y = Safe k item} {Q = λ _. Held k item}
          (bind_rule (stop_rule requested safe Site.undo_stop) (λ _.
            bind_rule (restore_rollback_rule requested safe) (λ _.
              bind_rule
                (weaken (λ w h. (h, tt)) (start_rule requested safe Anything Site.undo_start))
                (λ _. bind_rule (set_stopped_rule requested safe Anything false) (λ _.
                  bind_rule (weaken (λ w h. h.0) (restore_claim_rule k item requested))
                    (λ _. Held-cleanup k item))))))
          (λ _. raise_rule Failure.both_failed (λ w h. h)))
        (λ _. raise_rule Failure.undone (Held-Safe k item))

  give_up_rule :
      {R : ℕ × List Item → World → Type 0} (requested : List Item)
      → Does (Open k item requested) (give_up requested) R (Safe k item) (Safe k item)
  unfolding give_up
  give_up_rule requested =
      let safe = Open-Safe k item requested in
      get_rule {P = Open k item requested} (λ v h.
        bind_rule {Q = λ _ w. Open k item requested w × Unit}
          (weaken {P = λ w. Open k item requested w × Unit}
            (λ w e. (subst (Open k item requested) (sym e) h, tt))
            (if_rule v.may_be_stopped
              (λ _.
                catch_rule {Y = Safe k item} (start_and_clear requested safe Anything Site.restart)
                  (λ _. raise_rule Failure.cannot_restart (λ w h. h)))
              (λ _. pure_rule tt (λ w h. h))))
          (λ _.
            weaken (λ w h. h.0)
              (put_back_rule requested (raise_rule Failure.cancelled (Held-Safe k item)))))

  pub on_error_rule :
      {R : ℕ × List Item → World → Type 0} (requested : List Item)
      → Does (Open k item requested) (on_error requested) R (Safe k item) (Safe k item)
  unfolding on_error
  on_error_rule requested = get_rule {P = Open k item requested} (λ v h.
      weaken {P = Open k item requested} (λ w e. subst (Open k item requested) (sym e) h)
        (if_rule v.copy_ready (λ _. undo_rule requested) (λ _. give_up_rule requested)))
