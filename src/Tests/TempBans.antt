-- ===== src/Tests/TempBans.antt =====
-- A file of timers: Bob's is past, Ann's is not, and an entry has no date.
use mc_admin.Base.{
  ◌≡◌, refl, ℕ, codes, Text, true, false, Option, none, some, List, [], ◌∷◌, ◌++◌, keep, not,
}
use mc_admin.TempBans.{
  Moment, naive, aware, Calendar, text, Entry, dict, File, holds, PendingUnban, read_strict,
  all_dicts, dicts, schedule, pending, pendings, pending_of, at_moment, add, read, due, dues,
  is_past, add_due, turn, new_entry,
}
use mc_admin.Base.Files.{completed, unsynced}
use mc_admin.TempBans.Laws.{Outcome, differs, schedule-Outcome}
use mc_admin.TempBans.Dues.{is_naive}
use mc_admin.TempBans.Passes.{ended, turn-Lifts, turn_naive}

abbrev iso : Moment → Text
iso (naive t) = t ∷ []
iso (aware t) = t ∷ (0 ∷ [])

abbrev parse : Text → Option Moment
parse [] = none
parse (t ∷ []) = some (naive t)
parse (t ∷ (z ∷ _)) = some (aware t)

parse-iso : (m : Moment) → parse (iso m) ≡ some m
parse-iso (naive t) = refl
parse-iso (aware t) = refl

instance abbrev calendar : Calendar
calendar = record { isoformat = iso; fromisoformat = parse; fromisoformat-isoformat = parse-iso }

abbrev bob : Text
bob = codes "Bob"

abbrev ann : Text
ann = codes "Ann"

abbrev undated : Entry
undated = record { player = some (text bob); unban_at = none }

abbrev entries : List Entry
entries = new_entry bob (aware 10) ∷ (new_entry ann (aware 30) ∷ (undated ∷ []))

abbrev timers : File
timers =
    holds
      (dict (new_entry bob (aware 10)) ∷ (dict (new_entry ann (aware 30)) ∷ (dict undated ∷ [])))

abbrev local : File
local = holds (dict (new_entry bob (naive 10)) ∷ (dict (new_entry ann (aware 10)) ∷ []))

abbrev unban : Text → ℕ → PendingUnban
unban player t = record { player = text player; unban_at = aware t }

timers_read : read_strict timers ≡ some entries
unfolding read_strict all_dicts dicts
timers_read = refl

timers-due : due 20 timers ≡ some (unban bob 10 ∷ [])
unfolding due dues is_past add_due pending pendings pending_of at_moment add read dicts new_entry
timers-due = refl

schedule-Outcome_example :
    Outcome unsynced timers
      (schedule unsynced bob (aware 40) timers)
      (keep (differs bob) (pending timers) ++ (unban bob 40 ∷ []))
schedule-Outcome_example = schedule-Outcome unsynced bob (aware 40) timers

turn-Lifts_example :
    ((turn (λ _. completed) 20 timers).0 ≡ true)
    × (pending (turn (λ _. completed) 20 timers).1
        ≡ keep
            (λ (q : PendingUnban). not (ended (λ _. completed) (unban bob 10 ∷ []) q))
            (pending timers))
turn-Lifts_example =
    turn-Lifts (λ _. completed) 20 timers entries (unban bob 10 ∷ []) timers_read timers-due

turn_naive_example : turn (λ _. completed) 20 local ≡ (false, local)
unfolding is_naive pending pendings pending_of at_moment add read dicts new_entry
turn_naive_example = turn_naive (λ _. completed) 20 local refl
