-- ===== src/Levels/Worker/Safe.antt =====
-- app/op_levels_worker.py: where a requested level is, while the worker runs, and the rules of the
-- store and of the cleanup for it.
use mc_admin.Base.{
  ◌≡◌, ◌⊎◌, inl, inr, refl, sym, subst, ap, ◌∙◌, Text, Bool, true, false, Option, none, some, List,
  [],
}
use mc_admin.Base.Dict.{get, text_Eq, IsDict}
use mc_admin.Levels.{Item, Levels, Lower}
use mc_admin.Levels.Dicts.{
  update, put_all, sorted, or_other, first_of, last_of, Keyed, get-update, get-sorted, get-put_all,
  IsDict-update, IsDict-sorted, IsDict-put_all, Keyed-update, Keyed-sorted, Keyed-put_all,
}
use mc_admin.Levels.Machine.{World, Site, Faults, Marker}
use mc_admin.Levels.Machine.Rules.{Does, bind_rule, effect_rule, effect_at, get_rule}
use mc_admin.Levels.Store.{restore_claim}
use mc_admin.Levels.Entries.Laws.{Applied}
use mc_admin.Levels.Worker.{is_committed, cleanup}

module _ ⦃lib : Lower⦄ where
  -- The two files of the store are dicts by lower-case names.
  abbrev pub IsStore : World → Type 0
  IsStore w = (IsDict w.pending × Keyed w.pending) × (IsDict w.applying × Keyed w.applying)

  module _ (k : Text) (item : Item) where
    -- The store asks for the item: a new request hides one that is being applied.
    abbrev pub Wants : World → Type 0
    Wants w = or_other (get k w.pending) (get k w.applying) ≡ some item

    -- Putting these requests back asks for the item.
    abbrev pub AgreesOn : List Item → Levels → Levels → Type 0
    AgreesOn requested pending applying =
        or_other (get k pending) (or_other (last_of k requested) (get k applying)) ≡ some item

    abbrev pub Agrees : List Item → World → Type 0
    Agrees requested w = AgreesOn requested w.pending w.applying

    -- The item is in ops.json, or will be asked for.
    abbrev pub Settled : List Item → World → Type 0
    Settled unresolved w =
        (or_other (get k w.pending) (first_of k unresolved) ≡ some item)
        ⊎ Applied k item.level w.ops

    abbrev pub ByPhase : Bool → Marker → World → Type 0
    ByPhase true m w = Settled m.unresolved w
    ByPhase false m w = Wants w × Agrees m.requested w

    abbrev pub SafeBy : Option Marker → World → Type 0
    SafeBy none w = Wants w ⊎ ((w.rollback ≡ none) × Applied k item.level w.ops)
    SafeBy (some m) w = ByPhase (is_committed m.phase) m w

    -- The request is not lost: the next run of the worker finds it, or it is in ops.json for good.
    abbrev pub Safe : World → Type 0
    Safe w = IsStore w × SafeBy w.marker w

    abbrev pub Unsettled : Option Marker → Levels → Levels → Type 0
    Unsettled none pending applying = Unit
    Unsettled (some m) pending applying =
        (is_committed m.phase ≡ false) × AgreesOn m.requested pending applying

    -- Nothing is committed, and the requests may be put back.
    abbrev pub Open : List Item → World → Type 0
    Open requested w =
        IsStore w × Wants w × Agrees requested w × Unsettled w.marker w.pending w.applying

    -- The item is in the first file, for good.
    abbrev pub Held : World → Type 0
    Held w = IsStore w × (get k w.pending ≡ some item)

    pub Held-Safe : (w : World) → Held w → Safe w
    Held-Safe w (s, h) = (s, by w.marker)
      where
        by : (m : Option Marker) → SafeBy m w
        by none = inl (rw h refl)
        by (some m) = phase (is_committed m.phase)
          where
            phase : (b : Bool) → ByPhase b m w
            phase true = inl (rw h refl)
            phase false = (rw h refl, rw h refl)

    pub Open-Safe : (requested : List Item) (w : World) → Open requested w → Safe w
    Open-Safe requested w (s, wants, agrees, u) = (s, by w.marker u)
      where
        by : (m : Option Marker) → Unsettled m w.pending w.applying → SafeBy m w
        by none u = inl wants
        by (some m) (e, a) = subst (λ b. ByPhase b m w) (sym e) (wants, a)

    -- Where one of two holds the item, the first one holds it or nothing.
    pub hides : (p a : Option Item) → or_other p a ≡ some item → (p ≡ none) ⊎ (p ≡ some item)
    hides none a h = inl refl
    hides (some v) a h = inr h

  module _ ⦃faults : Faults⦄ (k : Text) (item : Item) where
    -- The requests and the files merged: new requests first, then those put back, then those claimed.
    get-merged :
        (w : World) (items : List Item)
        → IsStore w
        → get k (sorted (update (put_all w.applying items) w.pending))
          ≡ or_other (get k w.pending) (or_other (last_of k items) (get k w.applying))
    get-merged w items (p, a) =
        get-sorted k (update (put_all w.applying items) w.pending)
          (IsDict-update (put_all w.applying items) w.pending (IsDict-put_all w.applying items a.0))
        ∙ get-update k (put_all w.applying items) w.pending p.0
        ∙ ap (λ (o : Option Item). or_other (get k w.pending) o) (get-put_all k w.applying items)

    IsStore-merged :
        (w : World) (items : List Item)
        → IsStore w
        → IsDict (sorted (update (put_all w.applying items) w.pending))
          × Keyed (sorted (update (put_all w.applying items) w.pending))
    IsStore-merged w items (p, a) =
        let base = put_all w.applying items in
        let d = update base w.pending in
        (
          IsDict-sorted d (IsDict-update base w.pending (IsDict-put_all w.applying items a.0)),
          Keyed-sorted d (Keyed-update base w.pending (Keyed-put_all w.applying items a.1) p.1),
        )

    pub restore_claim_rule :
        (requested : List Item)
        → Does
            (Open k item requested)
            (restore_claim requested)
            (λ _. Held k item)
            (Safe k item)
            (Safe k item)
    unfolding restore_claim
    restore_claim_rule requested =
        bind_rule
          (effect_rule {Q = Open k item requested} Site.restore_read (λ w. w)
            (λ w h. let safe = Open-Safe k item requested w h in (h, safe, safe, safe, safe)))
          (λ _. get_rule (λ v h.
            let written : Held k item
                (record v { pending = sorted (update (put_all v.applying requested) v.pending) }) =
              ((IsStore-merged v requested h.0, h.0.1), get-merged v requested h.0 ∙ h.2) in
            let safe = Held-Safe k item _ written in
            let before = Open-Safe k item requested v h in
            bind_rule
              (effect_at {Q = Held k item} Site.restore_pending _ v
                (written, safe, before, safe, before))
              (λ _. effect_rule Site.restore_applying _ (λ w held.
                let emptied : Held k item (record w { applying = [] }) =
                  ((held.0.0, (tt, tt)), held.1) in
                let done = Held-Safe k item _ emptied in
                let not_done = Held-Safe k item w held in
                (emptied, done, not_done, done, not_done)))))

    pub Held-cleanup : Does (Held k item) cleanup (λ _. Held k item) (Safe k item) (Safe k item)
    unfolding cleanup
    Held-cleanup =
        bind_rule
          (effect_rule {Q = Held k item} Site.clean_rollback _
            (λ w h. keeps w (record w { rollback = none }) h h))
          (λ _. effect_rule Site.clean_marker _ (λ w h. keeps w (record w { marker = none }) h h))
      where
        keeps :
            (w v : World)
            → Held k item w
            → Held k item v
            → Held k item v × Safe k item v × Safe k item w × Safe k item v × Safe k item w
        keeps w v h g = (
          g,
          Held-Safe k item v g,
          Held-Safe k item w h,
          Held-Safe k item v g,
          Held-Safe k item w h,
        )
