-- ===== src/Levels/Worker/Commit.antt =====
-- app/op_levels_worker.py: the end of a committed transaction, which `_recover_interrupted` may repeat.
use mc_admin.Base.{
  ◌≡◌, ◌⊎◌, inl, inr, refl, sym, subst, ◌∙◌, Text, Bool, true, Option, none, some, List, [],
}
use mc_admin.Base.Dict.{get, text_Eq}
use mc_admin.Levels.{Item, Lower}
use mc_admin.Levels.Dicts.{
  set_defaults, sorted, get-sorted, get-set_defaults, IsDict-sorted, IsDict-set_defaults,
  Keyed-sorted, Keyed-set_defaults,
}
use mc_admin.Levels.Machine.{World, Site, Faults, raises, Marker, effect}
use mc_admin.Levels.Machine.Rules.{Does, bind_rule, effect_rule, sure_rule, get_rule}
use mc_admin.Levels.Store.{complete_claim}
use mc_admin.Levels.Entries.Laws.{Applied}
use mc_admin.Levels.Worker.{is_committed, cleanup}
use mc_admin.Levels.Worker.Safe.{IsStore, Settled, Safe, SafeBy, ByPhase}

module _ ⦃lib : Lower⦄ ⦃faults : Faults⦄ where
  -- The operation does not raise.
  abbrev pub Never : Site → Type 0
  Never site = (b : Bool) → faults.fate site ≡ raises b → ⊥

  module _ (k : Text) (item : Item) where
    -- A raise is excluded, or safe.
    abbrev pub Escape : (World → Type 0) → Site → Type 0
    Escape X site = Never site ⊎ ((w : World) → Safe k item w → X w)

    pub Escape-effect :
        {P Q X : World → Type 0} (site : Site) (f : World → World)
        → Escape X site
        → ((w : World) → P w → Q (f w) × Safe k item (f w) × Safe k item w)
        → Does P (effect site f) (λ _. Q) X (Safe k item)
    Escape-effect site f (inl never) h = sure_rule site f never h
    Escape-effect site f (inr safe) h = effect_rule site f (λ w p.
        let (q, done, not_done) = h w p in (q, safe _ done, safe _ not_done, done, not_done))

    abbrev CommittedWith : List Item → Option Marker → Type 0
    CommittedWith unresolved marker =
        (m : Marker) × (marker ≡ some m)
        × (is_committed m.phase ≡ true)
        × (m.unresolved ≡ unresolved)

    abbrev pub Committed : List Item → World → Type 0
    Committed unresolved w =
        IsStore w × Settled k item unresolved w × CommittedWith unresolved w.marker

    pub Committed-Safe :
        (unresolved : List Item) (w : World) → Committed unresolved w → Safe k item w
    Committed-Safe unresolved w (s, settled, (m, e, c, u)) = (
      s,
      subst (λ x. SafeBy k item x w) (sym e)
          (subst (λ b. ByPhase k item b m w) (sym c)
            (subst (λ l. Settled k item l w) (sym u) settled)),
    )

    -- The first file has taken what is not resolved.
    abbrev pub Finished : List Item → World → Type 0
    Finished unresolved w =
        IsStore w
        × ((get k w.pending ≡ some item) ⊎ Applied k item.level w.ops)
        × CommittedWith unresolved w.marker

    pub Finished-Safe : (unresolved : List Item) (w : World) → Finished unresolved w → Safe k item w
    Finished-Safe unresolved w (s, inl h, c) = Committed-Safe unresolved w (s, inl (rw h refl), c)
    Finished-Safe unresolved w (s, inr h, c) = Committed-Safe unresolved w (s, inr h, c)

    take_unresolved :
        (unresolved : List Item) (w : World)
        → Committed unresolved w
        → Finished unresolved (record w { pending = sorted (set_defaults w.pending unresolved) })
    take_unresolved unresolved w ((p, a), settled, c) =
        let d = set_defaults w.pending unresolved in
        let whole = IsDict-set_defaults w.pending unresolved p.0 in
        (
          (
            (IsDict-sorted d whole, Keyed-sorted d (Keyed-set_defaults w.pending unresolved p.1)),
            a,
          ),
          elim settled [
            | inl h ↦ inl (get-sorted k d whole ∙ get-set_defaults k w.pending unresolved ∙ h)
            | inr h ↦ inr h
          ],
          c,
        )

    pub complete_claim_rule :
        {X : World → Type 0} (unresolved : List Item)
        → Escape X Site.complete_read
        → Escape X Site.complete_pending
        → Escape X Site.complete_applying
        → Does
            (Committed unresolved)
            (complete_claim unresolved)
            (λ _. Finished unresolved)
            X
            (Safe k item)
    unfolding complete_claim
    complete_claim_rule unresolved read first second =
        bind_rule
          (Escape-effect {Q = Committed unresolved} Site.complete_read (λ w. w) read
            (λ w h. let safe = Committed-Safe unresolved w h in (h, safe, safe)))
          (λ _. get_rule (λ v h.
            let taken = take_unresolved unresolved v h in
            bind_rule
              (Escape-effect {Q = Finished unresolved} Site.complete_pending _ first (λ w e.
                subst
                  (λ (u : World).
                    Finished unresolved
                      (record u { pending = sorted (set_defaults v.pending unresolved) })
                    × Safe k item
                        (record u { pending = sorted (set_defaults v.pending unresolved) })
                    × Safe k item u)
                  (sym e) (taken, Finished-Safe unresolved _ taken, Committed-Safe unresolved v h)))
              (λ _. Escape-effect Site.complete_applying _ second (λ w fin.
                let emptied : Finished unresolved (record w { applying = [] }) =
                  ((fin.0.0, (tt, tt)), fin.1, fin.2) in
                (emptied, Finished-Safe unresolved _ emptied, Finished-Safe unresolved w fin)))))

    pub Finished-cleanup :
        {X : World → Type 0} (unresolved : List Item)
        → Escape X Site.clean_rollback
        → Escape X Site.clean_marker
        → Does
            (Finished unresolved)
            cleanup
            (λ _ w. Safe k item w × (w.rollback ≡ none) × (w.marker ≡ none))
            X
            (Safe k item)
    unfolding cleanup
    Finished-cleanup unresolved first second =
        bind_rule
          (Escape-effect {Q = λ w. Finished unresolved w × (w.rollback ≡ none)} Site.clean_rollback
            _ first
            (λ w h. (
              (h, refl),
              Finished-Safe unresolved (record w { rollback = none }) h,
              Finished-Safe unresolved w h,
            )))
          (λ _. Escape-effect Site.clean_marker _ second (λ w h.
            let end = at_rest w h.0.0 h.0.1 h.1 in
            ((end, h.1, refl), end, Finished-Safe unresolved w h.0)))
      where
        at_rest :
            (w : World)
            → IsStore w
            → ((get k w.pending ≡ some item) ⊎ Applied k item.level w.ops)
            → w.rollback ≡ none
            → Safe k item (record w { marker = none })
        at_rest w s (inl h) e = (s, inl (rw h refl))
        at_rest w s (inr h) e = (s, inr (e, h))
