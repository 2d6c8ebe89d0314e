-- ===== src/Levels/Store.antt =====
-- app/adapters/pending_op_levels.py: `JsonPendingOpLevels`. Every method holds the lock of the two
-- files; what this class has written is read back as it was.
pub mod Laws
use mc_admin.Base.{ℕ, Text, Bool, Option, none, some, List, [], ◌∷◌, ◌&&◌, ◌||◌, leb, if◌then◌else◌}
use mc_admin.Base.Dict.{get, put, pop, text_Eq}
use mc_admin.Levels.{Item, Levels, Lower}
use mc_admin.Levels.Dicts.{update, put_all, set_defaults, values, sorted}
use mc_admin.Levels.Machine.{
  World, Site, Faults, Action, pure, raise, Failure, ◌>>=◌, ◌>>◌, effect, get_world,
}

module _ ⦃lib : Lower⦄ where
  is_empty : Text → Bool
  is_empty [] = Bool.true
  is_empty (c ∷ name) = Bool.false

  -- The level is one of 1 to 4.
  abbrev pub is_level : ℕ → Bool
  is_level level = leb 1 level && leb level 4

  -- `set_level`; none for its ValueError.
  unfoldable pub set_level : Text → ℕ → World → Option World
  unfolding is_empty
  set_level player_name level w =
      if is_empty player_name
      then none
      else if is_level level
      then some (record w {
        pending =
            sorted (
              put (lib.lower player_name) (record { name = player_name; level = level }) w.pending);
      })
      else none

  -- `remove`: the file is written only if the player was in it.
  unfoldable pub remove : Text → World → World
  remove player_name w =
      let key = lib.lower player_name in
      elim (get key w.pending) [
        | none ↦ w
        | some _ ↦ record w { pending = sorted (pop key w.pending) }
      ]

module _ ⦃lib : Lower⦄ ⦃faults : Faults⦄ where
  unfoldable pub claim : Action (List Item)
  claim =
      effect Site.claim_read (λ w. w)
      >> (get_world >>= λ w.
          let merged = sorted (update w.applying w.pending) in
          effect Site.claim_applying (λ v. record v { applying = merged })
          >> effect Site.claim_pending (λ v. record v { pending = [] })
          >> pure (values merged))

  unfoldable pub complete_claim : List Item → Action Unit
  complete_claim unresolved =
      effect Site.complete_read (λ w. w)
      >> (get_world >>= λ w.
          effect Site.complete_pending
            (λ v. record v { pending = sorted (set_defaults w.pending unresolved) })
          >> effect Site.complete_applying (λ v. record v { applying = [] }))

  unfoldable pub restore_claim : List Item → Action Unit
  restore_claim claimed =
      effect Site.restore_read (λ w. w)
      >> (get_world >>= λ w.
          effect Site.restore_pending
            (λ v. record v { pending = sorted (update (put_all w.applying claimed) w.pending) })
          >> effect Site.restore_applying (λ v. record v { applying = [] }))
