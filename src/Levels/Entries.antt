-- ===== src/Levels/Entries.antt =====
-- app/op_levels_worker.py: `_apply_requested_levels`. The entries that it changes in place are
-- returned.
pub mod Laws
use mc_admin.Base.{
  ℕ, ◌+◌, Text, Bool, true, false, Option, none, some, List, [], ◌∷◌, ◌==◌, if◌then◌else◌, any,
  text_eq,
}
use mc_admin.Base.Dict.{get, text_Eq}
use mc_admin.Levels.{Item, Levels, Entry, Lower}
use mc_admin.Levels.Dicts.{put_all, values}

module _ ⦃lib : Lower⦄ where
  -- The request for an entry.
  unfoldable pub request_for : Levels → Entry → Option Item
  request_for by_name entry = elim entry.name [
    | none ↦ none
    | some name ↦ get (lib.lower name) by_name
  ]

  unfoldable pub has_level : ℕ → Entry → Bool
  has_level level entry = elim entry.level [ none ↦ false | some n ↦ n == level ]

  abbrev pub give : Option Item → Entry → Entry
  give none entry = entry
  give (some item) entry = record entry { level = some item.level }

  abbrev pub counts : Option Item → Entry → ℕ
  counts none entry = 0
  counts (some item) entry = if has_level item.level entry then 0 else 1

  unfoldable pub apply_all : Levels → List Entry → List Entry
  apply_all by_name [] = []
  apply_all by_name (entry ∷ entries) =
      give (request_for by_name entry) entry ∷ apply_all by_name entries

  unfoldable pub count_changed : Levels → List Entry → ℕ
  unfolding has_level
  count_changed by_name [] = 0
  count_changed by_name (entry ∷ entries) =
      counts (request_for by_name entry) entry + count_changed by_name entries

  -- The key of an entry is that of a request: `key in matched`.
  unfoldable pub is_for : Text → Entry → Bool
  is_for key entry = elim entry.name [ none ↦ false | some name ↦ text_eq key (lib.lower name) ]

  unfoldable pub unmatched : Levels → List Entry → Levels
  unfolding is_for
  unmatched [] entries = []
  unmatched ((key, item) ∷ by_name) entries =
      let rest = unmatched by_name entries in
      if any (is_for key) entries then rest else (key, item) ∷ rest

  -- The entries afterwards, how many changed, and the requests without an entry.
  unfoldable pub apply_requested_levels : List Entry → List Item → List Entry × (ℕ × List Item)
  unfolding unmatched
  apply_requested_levels entries requested =
      let by_name = put_all [] requested in
      (
        apply_all by_name entries,
        (count_changed by_name entries, values (unmatched by_name entries)),
      )
