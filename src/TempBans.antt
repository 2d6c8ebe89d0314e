-- ===== src/TempBans.antt =====
-- app/adapters/temp_bans.py: `JsonTempBans`, and app/tempban_scheduler.py: one pass of the thread.
-- Every method holds the lock. A moment is a whole number of the clock's smallest unit, and has a
-- time zone or has none. A write of the file may raise, before or after the file has changed; an argument says what it does.
pub mod Laws
pub mod Dues
pub mod Passes
use mc_admin.Base.{
  ℕ, Text, Bool, true, false, Option, none, some, List, [], ◌∷◌, ◌++◌, ◌≡◌, map, not, leb, keep,
  text_eq, if◌then◌else◌,
}
use mc_admin.Base.Files.{Writing, returns, replaces}

pub data Moment : Type 0 where
  naive aware : ℕ → Moment

-- `datetime.isoformat` and `datetime.fromisoformat`, which reads what the first writes.
pub record Calendar : Type 0 where
  pub isoformat : Moment → Text
  pub fromisoformat : Text → Option Moment
  pub fromisoformat-isoformat : (m : Moment) → fromisoformat (isoformat m) ≡ some m

-- A value of the JSON file: a string, or anything else.
pub data Value : Type 0 where
  text : Text → Value
  other : Value

pub record Entry : Type 0 where
  pub player : Option Value
  pub unban_at : Option Value

pub data Listed : Type 0 where
  not_dict : Listed
  dict : Entry → Listed

-- `unreadable` is also a file that is not a list.
pub data File : Type 0 where
  absent unreadable : File
  holds : List Listed → File

pub record PendingUnban : Type 0 where
  pub player : Value
  pub unban_at : Moment

-- The entries that are dicts.
unfoldable pub dicts : List Listed → List Entry
dicts [] = []
dicts (not_dict ∷ rs) = dicts rs
dicts (dict e ∷ rs) = e ∷ dicts rs

unfoldable pub all_dicts : List Listed → Bool
all_dicts [] = true
all_dicts (not_dict ∷ rs) = false
all_dicts (dict e ∷ rs) = all_dicts rs

-- `_read(strict=True)`; no list where it raises
unfoldable pub read_strict : File → Option (List Entry)
read_strict absent = some []
read_strict unreadable = none
read_strict (holds rs) = if all_dicts rs then some (dicts rs) else none

-- `_read()`
unfoldable pub read : File → List Entry
read absent = []
read unreadable = []
read (holds rs) = dicts rs

-- `_write`: whether it returns, and the file that it leaves
unfoldable pub write : Writing → List Entry → File → Bool × File
write w es f = (returns w, if replaces w then holds (map dict es) else f)

unfoldable pub is_named : Text → Value → Bool
is_named player (text name) = text_eq name player
is_named player other = false

-- `e.get("player") != player`
unfoldable pub is_other : Text → Entry → Bool
is_other player e = elim e.player [ none ↦ true | some v ↦ not (is_named player v) ]

unfoldable pub new_entry : ⦃lib : Calendar⦄ → Text → Moment → Entry
new_entry ⦃lib⦄ player unban_at = record {
  player = some (text player);
  unban_at = some (text (lib.isoformat unban_at));
}

-- What `schedule` and `cancel` do with the list that they have read, or with none.
unfoldable pub change :
    Writing → (List Entry → List Entry) → File → Option (List Entry) → Bool × File
change w g f none = (false, f)
change w g f (some es) = write w (g es) f

unfoldable pub with_timer : ⦃lib : Calendar⦄ → Text → Moment → List Entry → List Entry
with_timer player unban_at es = keep (is_other player) es ++ (new_entry player unban_at ∷ [])

unfoldable pub schedule : ⦃lib : Calendar⦄ → Writing → Text → Moment → File → Bool × File
schedule w player unban_at f = change w (with_timer player unban_at) f (read_strict f)

unfoldable pub cancel : Writing → Text → File → Bool × File
cancel w player f = change w (keep (is_other player)) f (read_strict f)

-- What a `datetime.fromisoformat` that may raise makes of the player of an entry.
unfoldable pub at_moment : Value → Option Moment → Option PendingUnban
at_moment v none = none
at_moment v (some m) = some (record { player = v; unban_at = m })

-- The body of the loop of `pending`; nothing where it raises
unfoldable pub pending_of : ⦃lib : Calendar⦄ → Option Value → Option Value → Option PendingUnban
pending_of none u = none
pending_of (some v) none = none
pending_of (some v) (some other) = none
pending_of ⦃lib⦄ (some v) (some (text s)) = at_moment v (lib.fromisoformat s)

unfoldable pub add : Option PendingUnban → List PendingUnban → List PendingUnban
add none ps = ps
add (some p) ps = p ∷ ps

unfoldable pub pendings : ⦃lib : Calendar⦄ → List Entry → List PendingUnban
pendings [] = []
pendings (e ∷ es) = add (pending_of e.player e.unban_at) (pendings es)

unfoldable pub pending : ⦃lib : Calendar⦄ → File → List PendingUnban
pending f = pendings (read f)

-- `p.unban_at <= now` for a `now` with a time zone; nothing where it raises
unfoldable pub is_past : ℕ → Moment → Option Bool
is_past now (naive t) = none
is_past now (aware t) = some (leb t now)

unfoldable pub add_due :
    PendingUnban → Option Bool → Option (List PendingUnban) → Option (List PendingUnban)
add_due p (some b) (some ps) = some (if b then p ∷ ps else ps)
add_due p (some b) none = none
add_due p none ps = none

unfoldable pub dues : ℕ → List PendingUnban → Option (List PendingUnban)
dues now [] = some []
dues now (p ∷ ps) = add_due p (is_past now p.unban_at) (dues now ps)

unfoldable pub due : ⦃lib : Calendar⦄ → ℕ → File → Option (List PendingUnban)
due now f = dues now (pending f)

-- What a `pardon` leaves of the file: `completes` says of a name what its write of the file does, and
-- is `unchanged` where the name is not valid or the game does not take the command.
unfoldable pub lift_one : (Text → Writing) → Value → File → File
lift_one completes (text name) f = (cancel (completes name) name f).1
lift_one completes other f = f

-- The loop, which goes on after a `pardon` that raises
unfoldable pub lift_all : (Text → Writing) → List PendingUnban → File → File
lift_all completes [] f = f
lift_all completes (p ∷ ps) f = lift_all completes ps (lift_one completes p.player f)

-- A turn of `_run`, given what is due: whether the thread lives on, and the file. The loop over what
-- is due stands outside the `try`.
unfoldable pub after_due : (Text → Writing) → File → Option (List PendingUnban) → Bool × File
after_due completes f none = (false, f)
after_due completes f (some ps) = (true, lift_all completes ps f)

unfoldable pub turn : ⦃lib : Calendar⦄ → (Text → Writing) → ℕ → File → Bool × File
turn completes now f = after_due completes f (due now f)
