-- ===== src/Levels/Store/Laws.antt =====
-- app/adapters/pending_op_levels.py: the store as a map from players to what is asked for them.
use mc_admin.Base.{
  ℕ, ◌≡◌, ◌⊎◌, inl, inr, refl, ap, ◌∙◌, arith, Text, Bool, true, false, Option, none, some, [], ◌∷◌,
  ◌<◌, text_eq, text_eq_iff, if◌then◌else◌, Bool-cases, length,
}
use mc_admin.Base.Dict.{get, put, pop, text_Eq, IsDict-put, IsDict-pop, get-put, get-pop}
use mc_admin.Levels.{Item, Levels, Lower}
use mc_admin.Levels.Dicts.{
  sorted, or_other, Keyed, Keyed-put, Keyed-sorted, get-sorted, IsDict-sorted,
}
use mc_admin.Levels.Machine.{World}
use mc_admin.Levels.Store.{is_empty, is_level, set_level, remove}
use mc_admin.Levels.Worker.Safe.{IsStore}

module _ ⦃lib : Lower⦄ where
  -- The request for a player: a new one hides one that is being applied.
  unfoldable pub asked : World → Text → Option Item
  asked w k = or_other (get k w.pending) (get k w.applying)

  Keyed-pop : (k : Text) (d : Levels) → Keyed d → Keyed (pop k d)
  unfolding pop
  Keyed-pop k [] h = tt
  Keyed-pop k ((j, v) ∷ d) h = ground (arith, Keyed-pop k d h.1)

  if_asked :
      (b : Bool) (v : Item) (p a : Option Item)
      → or_other (if b then some v else p) a ≡ (if b then some v else or_other p a)
  if_asked true v p a = refl
  if_asked false v p a = refl

  if_dropped :
      (b : Bool) (p a : Option Item)
      → or_other (if b then none else p) a ≡ (if b then a else or_other p a)
  if_dropped true p a = refl
  if_dropped false p a = refl

  -- The request of one player is set, and the others' stay.
  abbrev pub HasRequest : Text → ℕ → World → World → Type 0
  HasRequest name level w after =
      IsStore after
      × ((k : Text)
          → asked after k ≡ (
              if text_eq k (lib.lower name)
              then some (record { name = name; level = level })
              else asked w k))

  abbrev pub IsRemoved : Text → World → World → Type 0
  IsRemoved name w after =
      IsStore after
      × ((k : Text)
          → asked after k ≡ (if text_eq k (lib.lower name) then get k w.applying else asked w k))

  put-HasRequest :
      (name : Text) (level : ℕ) (w : World)
      → IsStore w
      → HasRequest name level w (record w {
        pending = sorted (put (lib.lower name) (record { name = name; level = level }) w.pending);
      })
  unfolding asked
  put-HasRequest name level w (p, a) =
      let item : Item = record { name = name; level = level } in
      let key = lib.lower name in
      let d = put key item w.pending in
      let whole = IsDict-put key item w.pending p.0 in
      (
        ((IsDict-sorted d whole, Keyed-sorted d (Keyed-put key item w.pending refl p.1)), a),
        λ k.
            ap (λ (o : Option Item). or_other o (get k w.applying))
              (get-sorted k d whole ∙ get-put k key item w.pending)
            ∙ if_asked (text_eq k key) item (get k w.pending) (get k w.applying),
      )

  remove-IsRemoved : (name : Text) (w : World) → IsStore w → IsRemoved name w (remove name w)
  unfolding remove asked
  remove-IsRemoved name w (p, a) = go (get key w.pending) refl
    where
      key : Text
      key = lib.lower name

      go :
          (o : Option Item)
          → get key w.pending ≡ o
          → IsRemoved name w
              (elim o [ none ↦ w | some _ ↦ record w { pending = sorted (pop key w.pending) } ])
      go none e = (
        (p, a),
        λ k.
            absent k (text_eq k key)
              (λ h. ap (λ (i : Text). get i w.pending) ((text_eq_iff k key).0 h) ∙ e),
      )
        where
          absent :
              (k : Text) (b : Bool)
              → (b ≡ true → get k w.pending ≡ none)
              → or_other (get k w.pending) (get k w.applying)
                ≡ (if b then get k w.applying else or_other (get k w.pending) (get k w.applying))
          absent k true h = rw (h refl) refl
          absent k false h = refl
      go (some v) e =
          let d = pop key w.pending in
          let whole = IsDict-pop key w.pending p.0 in
          (
            ((IsDict-sorted d whole, Keyed-sorted d (Keyed-pop key w.pending p.1)), a),
            λ k.
                ap (λ (o : Option Item). or_other o (get k w.applying))
                  (get-sorted k d whole ∙ get-pop k key w.pending)
                ∙ if_dropped (text_eq k key) (get k w.pending) (get k w.applying),
          )

  -- What `set_level` answers.
  abbrev pub HasRequestOr : Text → ℕ → World → Option World → Type 0
  HasRequestOr name level w none = (length name ≡ 0) ⊎ (is_level level ≡ false)
  HasRequestOr name level w (some after) =
      (0 < length name) × (is_level level ≡ true) × HasRequest name level w after

  set_level-HasRequestOr :
      (name : Text) (level : ℕ) (w : World)
      → IsStore w
      → HasRequestOr name level w (set_level name level w)
  unfolding set_level is_empty
  set_level-HasRequestOr [] level w s = inl refl
  set_level-HasRequestOr (c ∷ name) level w s = elim (Bool-cases (is_level level)) [
    | inl h ↦ rw h (omega arith, h, put-HasRequest (c ∷ name) level w s)
    | inr h ↦ rw h (inr h)
  ]

  -- The store is a map from players, by lower-case name, to requests: `set_level` sets the request of a
  -- player of a name that is not empty, to a level of 1 to 4, and fails for any other name or level;
  -- `remove` drops a request that is not being applied; the other players' requests stay.
  pub store-Refines :
      (name : Text) (level : ℕ) (w : World)
      → IsStore w
      → HasRequestOr name level w (set_level name level w) × IsRemoved name w (remove name w)
  store-Refines name level w s = (set_level-HasRequestOr name level w s, remove-IsRemoved name w s)
