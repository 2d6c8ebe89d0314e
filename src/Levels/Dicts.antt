-- ===== src/Levels/Dicts.antt =====
-- The ways app/adapters/pending_op_levels.py builds a dict out of others, and what they hold.
use mc_admin.Base.{
  Text, Bool, true, false, Option, none, some, List, [], ◌∷◌, ◌≡◌, refl, ◌∙◌, sym, ap, arith,
  text_eq, text_eq_iff, if◌then◌else◌,
}
use mc_admin.Base.Dict.{text_Eq, get, put, get-put, IsDict, IsDict-put}
use mc_admin.Levels.{Item, Levels, Lower}
use mc_admin.Limiter.Keys.{text_before}

-- `d.update(e)`
unfoldable pub update : Levels → Levels → Levels
update d [] = d
update d ((k, v) ∷ e) = update (put k v d) e

-- `d[item.name.lower()] = item` for every item
unfoldable pub put_all : ⦃lib : Lower⦄ → Levels → List Item → Levels
put_all d [] = d
put_all ⦃lib⦄ d (item ∷ items) = put_all (put (lib.lower item.name) item d) items

set_default : Text → Item → Levels → Levels
set_default k v d = elim (get k d) [ none ↦ put k v d | some _ ↦ d ]

-- `d.setdefault(item.name.lower(), item)` for every item
unfoldable pub set_defaults : ⦃lib : Lower⦄ → Levels → List Item → Levels
unfolding set_default
set_defaults d [] = d
set_defaults ⦃lib⦄ d (item ∷ items) = set_defaults (set_default (lib.lower item.name) item d) items

unfoldable pub values : Levels → List Item
values [] = []
values ((k, v) ∷ d) = v ∷ values d

insert_sorted : Text → Item → Levels → Levels
insert_sorted k v [] = (k, v) ∷ []
insert_sorted k v ((j, w) ∷ d) =
    let rest = insert_sorted k v d in
    if text_before j k then (j, w) ∷ rest else (k, v) ∷ ((j, w) ∷ d)

-- `sorted(d.items())`
unfoldable pub sorted : Levels → Levels
unfolding insert_sorted
sorted [] = []
sorted ((k, v) ∷ d) = insert_sorted k v (sorted d)

-- The first of two that holds a value.
abbrev pub or_other : Option Item → Option Item → Option Item
or_other none o = o
or_other (some v) o = some v

pub get-update :
    (k : Text) (d e : Levels) → IsDict e → get k (update d e) ≡ or_other (get k e) (get k d)
unfolding update get
get-update k d [] h = refl
get-update k d ((j, w) ∷ e) h =
    ground (arith, get-update k (put j w d) e h.1, get-put k j w d, text_eq_iff k j)

pub IsDict-update : (d e : Levels) → IsDict d → IsDict (update d e)
unfolding update
IsDict-update d [] h = h
IsDict-update d ((j, w) ∷ e) h = IsDict-update (put j w d) e (IsDict-put j w d h)

get-insert_sorted :
    (j k : Text) (v : Item) (d : Levels)
    → get k d ≡ none
    → get j (insert_sorted k v d) ≡ (if text_eq j k then some v else get j d)
unfolding insert_sorted get
get-insert_sorted j k v [] h = refl
get-insert_sorted j k v ((i, w) ∷ d) h =
    ground (arith, get-insert_sorted j k v d, text_eq_iff j k, text_eq_iff j i, text_eq_iff k i)

pub get-sorted : (k : Text) (d : Levels) → IsDict d → get k (sorted d) ≡ get k d
unfolding sorted get
get-sorted k [] h = refl
get-sorted k ((j, v) ∷ d) h =
    ground (arith, get-insert_sorted k j v (sorted d), get-sorted k d h.1, get-sorted j d h.1)

IsDict-insert_sorted :
    (k : Text) (v : Item) (d : Levels) → get k d ≡ none → IsDict d → IsDict (insert_sorted k v d)
unfolding insert_sorted get
IsDict-insert_sorted k v [] h d = (refl, tt)
IsDict-insert_sorted k v ((j, w) ∷ d) h hd =
    ground (
      arith,
      IsDict-insert_sorted k v d,
      get-insert_sorted j k v d,
      text_eq_iff k j,
      text_eq_iff j k,
    )

pub IsDict-sorted : (d : Levels) → IsDict d → IsDict (sorted d)
unfolding sorted
IsDict-sorted [] h = tt
IsDict-sorted ((j, v) ∷ d) h =
    IsDict-insert_sorted j v (sorted d) (get-sorted j d h.1 ∙ h.0) (IsDict-sorted d h.1)

module _ ⦃lib : Lower⦄ where
  -- Every item is under its own name.
  abbrev pub Keyed : Levels → Type 0
  Keyed [] = Unit
  Keyed ((k, v) ∷ d) = (k ≡ lib.lower v.name) × Keyed d

  pub Keyed-put :
      (k : Text) (v : Item) (d : Levels) → k ≡ lib.lower v.name → Keyed d → Keyed (put k v d)
  unfolding put
  Keyed-put k v [] e h = (e, tt)
  Keyed-put k v ((j, w) ∷ d) e h = ground (arith, Keyed-put k v d e h.1, text_eq_iff k j)

  pub Keyed-update : (d e : Levels) → Keyed d → Keyed e → Keyed (update d e)
  unfolding update
  Keyed-update d [] hd he = hd
  Keyed-update d ((k, v) ∷ e) hd he = Keyed-update (put k v d) e (Keyed-put k v d he.0 hd) he.1

  Keyed-insert_sorted :
      (k : Text) (v : Item) (d : Levels)
      → k ≡ lib.lower v.name
      → Keyed d
      → Keyed (insert_sorted k v d)
  unfolding insert_sorted
  Keyed-insert_sorted k v [] e h = (e, tt)
  Keyed-insert_sorted k v ((j, w) ∷ d) e h = ground (arith, Keyed-insert_sorted k v d e h.1)

  pub Keyed-sorted : (d : Levels) → Keyed d → Keyed (sorted d)
  unfolding sorted
  Keyed-sorted [] h = tt
  Keyed-sorted ((k, v) ∷ d) h = Keyed-insert_sorted k v (sorted d) h.0 (Keyed-sorted d h.1)

  pub put_all-values : (d e : Levels) → Keyed e → put_all d (values e) ≡ update d e
  unfolding put_all values update
  put_all-values d [] h = refl
  put_all-values d ((k, v) ∷ e) h =
      ap (λ (j : Text). put_all (put j v d) (values e)) (sym h.0) ∙ put_all-values (put k v d) e h.1

  pub IsDict-put_all : (d : Levels) (items : List Item) → IsDict d → IsDict (put_all d items)
  unfolding put_all
  IsDict-put_all d [] h = h
  IsDict-put_all d (item ∷ items) h =
      IsDict-put_all (put (lib.lower item.name) item d) items
        (IsDict-put (lib.lower item.name) item d h)

  pub Keyed-put_all : (d : Levels) (items : List Item) → Keyed d → Keyed (put_all d items)
  unfolding put_all
  Keyed-put_all d [] h = h
  Keyed-put_all d (item ∷ items) h =
      Keyed-put_all (put (lib.lower item.name) item d) items
        (Keyed-put (lib.lower item.name) item d refl h)

  -- The first and the last item of a name.
  unfoldable pub first_of : Text → List Item → Option Item
  first_of k [] = none
  first_of k (item ∷ items) =
      let rest = first_of k items in if text_eq k (lib.lower item.name) then some item else rest

  unfoldable pub last_of : Text → List Item → Option Item
  last_of k [] = none
  last_of k (item ∷ items) =
      or_other (last_of k items) (if text_eq k (lib.lower item.name) then some item else none)

  or_other_assoc : (a b c : Option Item) → or_other a (or_other b c) ≡ or_other (or_other a b) c
  or_other_assoc none b c = refl
  or_other_assoc (some v) b c = refl

  or_other-none : (o : Option Item) → o ≡ or_other o none
  or_other-none none = refl
  or_other-none (some v) = refl

  if-or_other :
      (b : Bool) (v : Item) (o : Option Item)
      → (if b then some v else o) ≡ or_other (if b then some v else none) o
  if-or_other true v o = refl
  if-or_other false v o = refl

  pub get-put_all :
      (k : Text) (d : Levels) (items : List Item)
      → get k (put_all d items) ≡ or_other (last_of k items) (get k d)
  unfolding put_all last_of
  get-put_all k d [] = refl
  get-put_all k d (item ∷ items) =
      let j = lib.lower item.name in
      get-put_all k (put j item d) items
      ∙ ap (λ (o : Option Item). or_other (last_of k items) o)
          (get-put k j item d ∙ if-or_other (text_eq k j) item (get k d))
      ∙ or_other_assoc (last_of k items) (if text_eq k j then some item else none) (get k d)

  distinct :
      (b : Bool) (o : Option Item) (v : Item)
      → (b ≡ true → o ≡ none)
      → (if b then some v else o) ≡ or_other o (if b then some v else none)
  distinct true o v h = rw (h refl) refl
  distinct false o v h = or_other-none o

  taken :
      (b : Bool) (o : Option Item) (v w : Item)
      → (b ≡ true → o ≡ some w)
      → o ≡ or_other o (if b then some v else none)
  taken true o v w h = rw (h refl) refl
  taken false o v w h = or_other-none o

  pub get-put_all_nil : (k : Text) (items : List Item) → get k (put_all [] items) ≡ last_of k items
  unfolding get
  get-put_all_nil k items = get-put_all k [] items ∙ sym (or_other-none (last_of k items))

  get-set_default :
      (k j : Text) (v : Item) (d : Levels)
      → get k (set_default j v d) ≡ or_other (get k d) (if text_eq k j then some v else none)
  unfolding set_default
  get-set_default k j v d = go (get j d) refl
    where
      go :
          (o : Option Item)
          → get j d ≡ o
          → get k (elim o [ none ↦ put j v d | some _ ↦ d ])
            ≡ or_other (get k d) (if text_eq k j then some v else none)
      go none e =
          get-put k j v d
          ∙ distinct (text_eq k j) (get k d) v
              (λ h. ap (λ (i : Text). get i d) ((text_eq_iff k j).0 h) ∙ e)
      go (some w) e =
          taken (text_eq k j) (get k d) v w
            (λ h. ap (λ (i : Text). get i d) ((text_eq_iff k j).0 h) ∙ e)

  pub get-set_defaults :
      (k : Text) (d : Levels) (items : List Item)
      → get k (set_defaults d items) ≡ or_other (get k d) (first_of k items)
  unfolding set_defaults first_of
  get-set_defaults k d [] = or_other-none (get k d)
  get-set_defaults k d (item ∷ items) =
      let j = lib.lower item.name in
      get-set_defaults k (set_default j item d) items
      ∙ ap (λ (o : Option Item). or_other o (first_of k items)) (get-set_default k j item d)
      ∙ sym (or_other_assoc (get k d) (if text_eq k j then some item else none) (first_of k items))
      ∙ ap (λ (o : Option Item). or_other (get k d) o)
          (sym (if-or_other (text_eq k j) item (first_of k items)))

  pub first_of-values : (k : Text) (d : Levels) → Keyed d → first_of k (values d) ≡ get k d
  unfolding first_of values get
  first_of-values k [] h = refl
  first_of-values k ((j, v) ∷ d) h = ground (arith, first_of-values k d h.1)

  pub last_of-values : (k : Text) (d : Levels) → Keyed d → IsDict d → last_of k (values d) ≡ get k d
  unfolding last_of values get
  last_of-values k [] h hd = refl
  last_of-values k ((j, v) ∷ d) h hd =
      ap (λ (o : Option Item). or_other o (if text_eq k (lib.lower v.name) then some v else none))
        (last_of-values k d h.1 hd.1)
      ∙ ap (λ (i : Text). or_other (get k d) (if text_eq k i then some v else none)) (sym h.0)
      ∙ sym (
          distinct (text_eq k j) (get k d) v
            (λ e. ap (λ (i : Text). get i d) ((text_eq_iff k j).0 e) ∙ hd.0))

  pub IsDict-set_defaults :
      (d : Levels) (items : List Item) → IsDict d → IsDict (set_defaults d items)
  unfolding set_defaults set_default
  IsDict-set_defaults d [] h = h
  IsDict-set_defaults d (item ∷ items) h =
      IsDict-set_defaults (set_default (lib.lower item.name) item d) items
        (go (get (lib.lower item.name) d))
    where
      go :
          (o : Option Item)
          → IsDict
              (elim o as (λ _. Levels) [ none ↦ put (lib.lower item.name) item d | some _ ↦ d ])
      go none = IsDict-put (lib.lower item.name) item d h
      go (some v) = h

  pub Keyed-set_defaults : (d : Levels) (items : List Item) → Keyed d → Keyed (set_defaults d items)
  unfolding set_defaults set_default
  Keyed-set_defaults d [] h = h
  Keyed-set_defaults d (item ∷ items) h =
      Keyed-set_defaults (set_default (lib.lower item.name) item d) items
        (go (get (lib.lower item.name) d))
    where
      go :
          (o : Option Item)
          → Keyed (elim o as (λ _. Levels) [ none ↦ put (lib.lower item.name) item d | some _ ↦ d ])
      go none = Keyed-put (lib.lower item.name) item d refl h
      go (some v) = h
