-- ===== src/Levels.antt =====
-- app/adapters/pending_op_levels.py and app/op_levels_worker.py: the levels of operators that wait
-- for a restart, and the worker that writes them into ops.json while Minecraft is stopped.
pub mod Dicts
pub mod Machine
pub mod Store
pub mod Entries
pub mod Worker
use mc_admin.Base.{ℕ, Text, Option, List}
use mc_admin.Base.Dict.{Dict}

-- `PendingOpLevel`
pub record Item : Type 0 where
  pub name : Text
  pub level : ℕ

-- The levels of a file, by lower-case name.
abbrev pub Levels : Type 0
Levels = Dict Text Item

-- An entry of ops.json: the name if it is a text, the natural number that the level equals in
-- Python, if any, and the rest.
pub record Entry : Type 0 where
  pub name : Option Text
  pub level : Option ℕ
  pub others : Text

-- `str.lower`
pub record Lower : Type 0 where
  pub lower : Text → Text
