-- ===== src/Tests/Recurring.antt =====
-- A daily restart at six, in a file that has another plan.
use mc_admin.Base.{◌≡◌, refl, Text, codes, true, none, some, [], ◌∷◌}
use mc_admin.Base.Dict.{Dict}
use mc_admin.Base.Files.{completed}
use mc_admin.Recurring.{
  Json, str, int, Stored, object, read_checked, get_config, set_config, last_fired, mark_fired,
}
use mc_admin.Recurring.Laws.{plan, plan_kept}

abbrev fields : Dict Text Json
fields =
    (codes "time", str (codes "05:30"))
    ∷ ((codes "lead_seconds", int 60) ∷ ((codes "last_fired", str (codes "2026-01-01")) ∷ []))

abbrev stored : Stored
stored = object fields

stored-fields : read_checked stored ≡ some fields
unfolding read_checked
stored-fields = refl

plan_kept_example :
    (get_config (set_config completed (plan 48 (codes "6:00") 299 true) stored).1
      ≡ some (plan 48 (codes "6:00") 299 true))
    × (last_fired (set_config completed (plan 48 (codes "6:00") 299 true) stored).1 ≡ none)
    × (last_fired
          (mark_fired completed
            (codes "2026-01-02")
            (set_config completed (plan 48 (codes "6:00") 299 true) stored).1).1
        ≡ some (codes "2026-01-02"))
    × (get_config
          (mark_fired completed
            (codes "2026-01-02")
            (set_config completed (plan 48 (codes "6:00") 299 true) stored).1).1
        ≡ some (plan 48 (codes "6:00") 299 true))
plan_kept_example =
    plan_kept 48 299 50 (codes "6:00") (codes "026-01-02") true stored fields stored-fields
