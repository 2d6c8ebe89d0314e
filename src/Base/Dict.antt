-- ===== src/Base/Dict.antt =====
-- A Python `dict` in insertion order, over any key with a Boolean equality: an association list
-- whose keys `put` keeps distinct. `pop` drops the key.
use mc_admin.Base.Tests.{if◌then◌else◌}
use mc_admin.Base.Texts.{Text, text_eq, text_eq_iff}
use mc_admin.Base.Lists.{length}
use Prim.Native.Nat.{ℕ, ◌+◌, ◌≤◌, ◌<◌}
use mathlib.Core.Path.{◌≡◌, refl}
use mathlib.Core.Logic.{◌↔◌}
use mathlib.Core.Bool.{Bool, true}
use mathlib.Core.Option.{Option, none, some}
use mathlib.Core.List.{List, [], ◌∷◌}
use native.Mathlib.Omega.{arith}

pub record Eq {ℓ} (K : Type ℓ) : Type ℓ where
  pub beq : K → K → Bool
  pub beq_iff : (a b : K) → (beq a b ≡ true) ↔ (a ≡ b)

instance abbrev pub text_Eq : Eq Text
text_Eq = record { beq = text_eq; beq_iff = text_eq_iff }

abbrev pub Dict {ℓ κ} : Type ℓ → Type κ → Type (ℓ ⊔ κ)
Dict K V = List (K × V)

module _ {ℓ κ} {K : Type ℓ} {V : Type κ} ⦃e : Eq K⦄ where
  unfoldable pub get : K → Dict K V → Option V
  get k [] = none
  get k ((j, v) ∷ d) = if e.beq k j then some v else get k d

  unfoldable pub put : K → V → Dict K V → Dict K V
  put k v [] = (k, v) ∷ []
  put k v ((j, w) ∷ d) = if e.beq k j then (j, v) ∷ d else (j, w) ∷ put k v d

  unfoldable pub pop : K → Dict K V → Dict K V
  pop k [] = []
  pop k ((j, w) ∷ d) = let rest = pop k d in if e.beq k j then rest else (j, w) ∷ rest

  pub get-put :
      (j k : K) (v : V) (d : Dict K V) → get j (put k v d) ≡ (if e.beq j k then some v else get j d)
  unfolding get put
  get-put j k v [] = refl
  get-put j k v ((i, w) ∷ d) =
      ground (arith, e.beq_iff j k, e.beq_iff k i, e.beq_iff j i, get-put j k v d)

  pub get-pop : (j k : K) (d : Dict K V) → get j (pop k d) ≡ (if e.beq j k then none else get j d)
  unfolding get pop
  get-pop j k [] = ground arith
  get-pop j k ((i, w) ∷ d) =
      ground (arith, e.beq_iff j k, e.beq_iff k i, e.beq_iff j i, get-pop j k d)

  pub length-pop : (k : K) (d : Dict K V) → length (pop k d) ≤ length d
  unfolding pop
  length-pop k [] = omega arith
  length-pop k ((i, w) ∷ d) = ground (arith, length-pop k d)

  pub length-pop_lt :
      (k : K) (d : Dict K V) {v : V} → get k d ≡ some v → length (pop k d) < length d
  unfolding get pop
  length-pop_lt k [] h = ground arith
  length-pop_lt k ((i, w) ∷ d) {v} h = ground (arith, length-pop k d, length-pop_lt k d {v = v})

  pub length-put_old :
      (k : K) (v : V) (d : Dict K V) {w : V} → get k d ≡ some w → length (put k v d) ≡ length d
  unfolding get put
  length-put_old k v [] h = ground arith
  length-put_old k v ((i, u) ∷ d) {w} h = ground (arith, length-put_old k v d {w = w})

  pub length-put : (k : K) (v : V) (d : Dict K V) → length (put k v d) ≤ length d + 1
  unfolding put
  length-put k v [] = omega arith
  length-put k v ((i, u) ∷ d) = ground (arith, length-put k v d)

pub ruleset dict_laws = (get-put, get-pop)

module _ {ℓ κ} {K : Type ℓ} {V : Type κ} ⦃e : Eq K⦄ where
  -- The keys are distinct.
  abbrev pub IsDict : Dict K V → Type κ
  IsDict [] = Unit
  IsDict ((k, v) ∷ d) = (get k d ≡ none) × IsDict d

  pub IsDict-put : (k : K) (v : V) (d : Dict K V) → IsDict d → IsDict (put k v d)
  unfolding get put
  IsDict-put k v [] h = (refl, tt)
  IsDict-put k v ((j, w) ∷ d) h =
      ground (arith, IsDict-put k v d h.1, get-put j k v d, e.beq_iff k j, e.beq_iff j k)

  pub IsDict-pop : (k : K) (d : Dict K V) → IsDict d → IsDict (pop k d)
  unfolding get pop
  IsDict-pop k [] h = tt
  IsDict-pop k ((j, w) ∷ d) h = ground (arith, IsDict-pop k d h.1, get-pop j k d)

  pub pop-none : (k : K) (d : Dict K V) → get k d ≡ none → pop k d ≡ d
  unfolding get pop
  pop-none k [] h = refl
  pop-none k ((j, w) ∷ d) h = ground (arith, pop-none k d)

  -- How many values pass a test.
  unfoldable pub count : (V → Bool) → Dict K V → ℕ
  count test [] = 0
  count test ((k, v) ∷ d) = (if test v then 1 else 0) + count test d

  pub count-pop :
      (test : V → Bool) (k : K) (v : V) (d : Dict K V)
      → IsDict d
      → get k d ≡ some v
      → count test d ≡ count test (pop k d) + (if test v then 1 else 0)
  unfolding get pop count
  count-pop test k v [] h g = ground arith
  count-pop test k v ((j, w) ∷ d) h g =
      ground (arith, count-pop test k v d h.1, pop-none k d, e.beq_iff k j)

  pub count-put_new :
      (test : V → Bool) (k : K) (v : V) (d : Dict K V)
      → get k d ≡ none
      → count test (put k v d) ≡ count test d + (if test v then 1 else 0)
  unfolding get put count
  count-put_new test k v [] g = omega arith
  count-put_new test k v ((j, w) ∷ d) g = ground (arith, count-put_new test k v d)
