-- ===== src/Recurring.antt =====
-- app/adapters/recurring_restart.py: the daily restart and the day of its last firing, in one JSON
-- object. Every method holds the lock. A write of the file may raise, before or after the file has
-- changed; an argument says what it does.
pub mod Laws
use mc_admin.Base.{
  ℕ, zero, suc, Text, codes, Bool, true, false, Option, none, some, [], ◌∷◌, not, ◌==◌,
  if◌then◌else◌,
}
use mc_admin.Service.{RecurringRestart}
use mc_admin.Base.Files.{Writing, returns, replaces}
use mc_admin.Base.Dict.{Dict, get, put, pop, text_Eq}

-- A JSON value: of what is no string, integer or Boolean, whether it counts as true.
pub data Json : Type 0 where
  str : Text → Json
  int : ℕ → Json
  negative : Json
  truth : Bool → Json
  others : Bool → Json

-- `unreadable` is also a file that is not an object.
pub data Stored : Type 0 where
  nothing unreadable : Stored
  object : Dict Text Json → Stored

-- `_read()` and `_read(strict=True)`; no object where it raises
unfoldable pub read_lenient : Stored → Dict Text Json
read_lenient nothing = []
read_lenient unreadable = []
read_lenient (object d) = d

unfoldable pub read_checked : Stored → Option (Dict Text Json)
read_checked nothing = some []
read_checked unreadable = none
read_checked (object d) = some d

-- What a method that changes the object does with what it has read: whether it returns, and the file
unfoldable pub rewrite :
    Writing → (Dict Text Json → Dict Text Json) → Stored → Option (Dict Text Json) → Bool × Stored
rewrite w g f none = (false, f)
rewrite w g f (some d) = (returns w, if replaces w then object (g d) else f)

-- `value if isinstance(value, str) and value else None`
unfoldable pub filled : Option Json → Option Text
filled (some (str [])) = none
filled (some (str (c ∷ cs))) = some (c ∷ cs)
filled (some (int n)) = none
filled (some negative) = none
filled (some (truth b)) = none
filled (some (others b)) = none
filled none = none

-- `lead if isinstance(lead, int) and lead > 0 else 300`, where True is the integer 1
unfoldable pub lead_of : Option Json → ℕ
lead_of (some (int zero)) = 300
lead_of (some (int (suc n))) = suc n
lead_of (some (truth true)) = 1
lead_of (some (truth false)) = 300
lead_of (some (str s)) = 300
lead_of (some negative) = 300
lead_of (some (others b)) = 300
lead_of none = 300

-- `bool(data.get("defer_if_players", False))`
unfoldable pub is_truthy : Option Json → Bool
is_truthy none = false
is_truthy (some (str [])) = false
is_truthy (some (str (c ∷ cs))) = true
is_truthy (some (int n)) = not (n == 0)
is_truthy (some negative) = true
is_truthy (some (truth b)) = b
is_truthy (some (others b)) = b

unfoldable pub with_time : Dict Text Json → Option Text → Option RecurringRestart
with_time d none = none
with_time d (some time) = some (record {
  time_hhmm = time;
  lead_seconds = lead_of (get (codes "lead_seconds") d);
  defer_if_players = is_truthy (get (codes "defer_if_players") d);
})

-- `get`
unfoldable pub get_config : Stored → Option RecurringRestart
get_config f = let d = read_lenient f in with_time d (filled (get (codes "time") d))

unfoldable pub configured : RecurringRestart → Dict Text Json → Dict Text Json
configured c d = pop (codes "last_fired") (
    put (codes "defer_if_players") (truth c.defer_if_players)
      (put (codes "lead_seconds") (int c.lead_seconds) (put (codes "time") (str c.time_hhmm) d)))

unfoldable pub set_config : Writing → RecurringRestart → Stored → Bool × Stored
set_config w c f = rewrite w (configured c) f (read_checked f)

unfoldable pub clear : Writing → Stored → Bool × Stored
clear w f = rewrite w (λ d. []) f (read_checked f)

unfoldable pub last_fired : Stored → Option Text
last_fired f = filled (get (codes "last_fired") (read_lenient f))

unfoldable pub mark_fired : Writing → Text → Stored → Bool × Stored
mark_fired w day f = rewrite w (λ d. put (codes "last_fired") (str day) d) f (read_checked f)
