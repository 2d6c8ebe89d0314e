-- ===== src/Base/Files.antt =====
-- app/adapters/atomic_json.py: how `atomic_write_json` ends.
use mathlib.Core.Bool.{Bool, true, false}

-- It returns; it raises and the file is as before; or it raises after the file has been replaced, when
-- its directory cannot be synced.
pub data Writing : Type 0 where
  completed unchanged unsynced : Writing

abbrev pub returns : Writing → Bool
returns completed = true
returns unchanged = false
returns unsynced = false

abbrev pub replaces : Writing → Bool
replaces completed = true
replaces unchanged = false
replaces unsynced = true
