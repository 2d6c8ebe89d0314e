-- ===== src/Levels/Entries/Laws.antt =====
-- app/op_levels_worker.py: what `_apply_requested_levels` does to the entries of a player.
use mc_admin.Base.{
  ℕ, ◌<◌, ◌≡◌, ◌⊎◌, inl, inr, refl, sym, ap, ◌∙◌, arith, Text, Bool, true, false, Option, none,
  some, List, [], ◌∷◌, ◌==◌, if◌then◌else◌, any, keep, All, text_eq, text_eq_iff, Bool-cases,
}
use mc_admin.Base.Dict.{get, text_Eq}
use mc_admin.Levels.{Item, Levels, Entry, Lower}
use mc_admin.Levels.Dicts.{
  put_all, values, last_of, first_of, Keyed, get-put_all_nil, Keyed-put_all, first_of-values,
}
use mc_admin.Levels.Entries.{
  request_for, has_level, give, counts, apply_all, count_changed, is_for, unmatched,
  apply_requested_levels,
}

module _ ⦃lib : Lower⦄ where
  -- The player of this key is in the list, and all its entries have the level.
  abbrev pub Applied : Text → ℕ → List Entry → Type 0
  Applied k level entries =
      (any (is_for k) entries ≡ true) × All (λ e. is_for k e ≡ true → e.level ≡ some level) entries

  is_for-give : (k : Text) (o : Option Item) (e : Entry) → is_for k (give o e) ≡ is_for k e
  unfolding is_for
  is_for-give k none e = refl
  is_for-give k (some item) e = refl

  any-apply_all :
      (k : Text) (d : Levels) (es : List Entry)
      → any (is_for k) (apply_all d es) ≡ any (is_for k) es
  unfolding apply_all
  any-apply_all k d [] = refl
  any-apply_all k d (e ∷ es) = rw (is_for-give k (request_for d e) e, any-apply_all k d es) refl

  -- The request for an entry of a player is the one of the player.
  request_for-key :
      (k : Text) (d : Levels) (e : Entry) → is_for k e ≡ true → request_for d e ≡ get k d
  unfolding is_for request_for
  request_for-key k d e h = go e.name h
    where
      go :
          (name : Option Text)
          → (elim name as (λ _. Bool) [ none ↦ false | some n ↦ text_eq k (lib.lower n) ]) ≡ true
          → (elim name as (λ _. Option Item) [ none ↦ none | some n ↦ get (lib.lower n) d ])
            ≡ get k d
      go none h = ground arith
      go (some n) h = ap (λ (j : Text). get j d) (sym ((text_eq_iff k (lib.lower n)).0 h))

  levels-apply_all :
      (k : Text) (d : Levels) (item : Item) (es : List Entry)
      → get k d ≡ some item
      → All (λ e. is_for k e ≡ true → e.level ≡ some item.level) (apply_all d es)
  unfolding apply_all
  levels-apply_all k d item [] g = tt
  levels-apply_all k d item (e ∷ es) g = (
    λ h.
        ap (λ (o : Option Item). (give o e).level)
          (request_for-key k d e (sym (is_for-give k (request_for d e) e) ∙ h) ∙ g),
    levels-apply_all k d item es g,
  )

  keep-apply_all :
      (k : Text) (d : Levels) (es : List Entry)
      → get k d ≡ none
      → keep (is_for k) (apply_all d es) ≡ keep (is_for k) es
  unfolding apply_all
  keep-apply_all k d [] g = refl
  keep-apply_all k d (e ∷ es) g = elim (Bool-cases (is_for k e)) [
    | inl h ↦ rw (request_for-key k d e h, g, h, keep-apply_all k d es g) refl
    | inr h ↦ rw (is_for-give k (request_for d e) e, h) (keep-apply_all k d es g)
  ]

  has_level-level : (n : ℕ) (e : Entry) → has_level n e ≡ true → e.level ≡ some n
  unfolding has_level
  has_level-level n e h = go e.level h
    where
      go :
          (l : Option ℕ)
          → (elim l as (λ _. Bool) [ none ↦ false | some m ↦ m == n ]) ≡ true
          → l ≡ some n
      go none h = ground arith
      go (some m) h = ground arith

  counts-give : (o : Option Item) (e : Entry) → counts o e ≡ 0 → give o e ≡ e
  counts-give none e h = refl
  counts-give (some item) e h =
      ap (λ (l : Option ℕ). record e { level = l })
        (sym (has_level-level item.level e (ground arith)))

  apply_all-unchanged :
      (d : Levels) (es : List Entry) → count_changed d es ≡ 0 → apply_all d es ≡ es
  unfolding apply_all count_changed
  apply_all-unchanged d [] h = refl
  apply_all-unchanged d (e ∷ es) h =
      ap (λ (x : Entry). x ∷ apply_all d es) (counts-give (request_for d e) e (omega (arith, h)))
      ∙ ap (λ l. e ∷ l) (apply_all-unchanged d es (omega (arith, h)))

  pub get-unmatched :
      (k : Text) (d : Levels) (es : List Entry)
      → get k (unmatched d es) ≡ (if any (is_for k) es then none else get k d)
  unfolding unmatched get
  get-unmatched k [] es = ground arith
  get-unmatched k ((j, v) ∷ d) es = elim (Bool-cases (text_eq k j)) [
    | inl h ↦
        ground (
          arith,
          get-unmatched k d es,
          ap (λ (i : Text). any (is_for i) es) ((text_eq_iff k j).0 h),
        )
    | inr h ↦ ground (arith, get-unmatched k d es)
  ]

  pub Keyed-unmatched : (d : Levels) (es : List Entry) → Keyed d → Keyed (unmatched d es)
  unfolding unmatched
  Keyed-unmatched [] es h = tt
  Keyed-unmatched ((j, v) ∷ d) es h = ground (arith, Keyed-unmatched d es h.1)

  -- What happens to a player with this request or none, among the entries before and after.
  abbrev pub Treated : Text → Option Item → List Entry → List Entry → List Item → Type 0
  Treated k none entries after unresolved = keep (is_for k) after ≡ keep (is_for k) entries
  Treated k (some item) entries after unresolved =
      Applied k item.level after
      ⊎ ((any (is_for k) entries ≡ false) × (first_of k unresolved ≡ some item))

  -- Of a player with a request, the last one given, either all entries, and one at least, get the level, or
  -- there is no entry and the request stays; the entries of any other player are as before. Changes are
  -- counted, or there are none.
  pub apply_requested_levels-Applied :
      (entries : List Entry) (requested : List Item) (k : Text)
      → let (after, (changed, unresolved)) = apply_requested_levels entries requested in
        Treated k (last_of k requested) entries after unresolved
        × ((0 < changed) ⊎ (after ≡ entries))
  unfolding apply_requested_levels
  apply_requested_levels-Applied entries requested k =
      let d : Levels = put_all [] requested in
      (
        go (last_of k requested) (get-put_all_nil k requested),
        elim (Bool-cases (count_changed d entries == 0)) [
          | inl h ↦ inr (apply_all-unchanged d entries (ground arith))
          | inr h ↦ inl (ground arith)
        ],
      )
    where
      d : Levels
      d = put_all [] requested

      go :
          (o : Option Item)
          → get k d ≡ o
          → Treated k o entries (apply_all d entries) (values (unmatched d entries))
      go none g = keep-apply_all k d entries g
      go (some item) g = elim (Bool-cases (any (is_for k) entries)) [
        | inl present ↦
            inl (any-apply_all k d entries ∙ present, levels-apply_all k d item entries g)
        | inr absent ↦ inr (
          absent,
          first_of-values k (unmatched d entries)
                (Keyed-unmatched d entries (Keyed-put_all [] requested tt))
              ∙ get-unmatched k d entries
              ∙ rw absent g,
        )
      ]
