-- ===== src/Recurring/Laws.antt =====
-- app/adapters/recurring_restart.py: what is read after a change.
use mc_admin.Base.{
  if◌then◌else◌, ◌∙◌, ◌≡◌, refl, ap, arith, ℕ, suc, Text, codes, Bool, Option, none, some, ◌∷◌,
  text_eq,
}
use mc_admin.Base.Dict.{Dict, get, put, text_Eq, get-put, get-pop}
use mc_admin.Service.{RecurringRestart}
use mc_admin.Base.Files.{completed}
use mc_admin.Recurring.{
  Json, str, int, truth, Stored, nothing, unreadable, object, read_lenient, read_checked, rewrite,
  filled, lead_of, is_truthy, with_time, get_config, configured, set_config, last_fired, mark_fired,
}

get-configured :
    (k : Text) (c : RecurringRestart) (d : Dict Text Json)
    → get k (configured c d) ≡ (
        if text_eq k (codes "last_fired")
        then none
        else if text_eq k (codes "defer_if_players")
        then some (truth c.defer_if_players)
        else if text_eq k (codes "lead_seconds")
        then some (int c.lead_seconds)
        else if text_eq k (codes "time")
        then some (str c.time_hhmm)
        else get k d)
unfolding configured
get-configured k c d = rw (get-pop, get-put, get-put, get-put) refl

rewritten :
    (g : Dict Text Json → Dict Text Json) (f : Stored) (d : Dict Text Json)
    → read_checked f ≡ some d
    → (rewrite completed g f (read_checked f)).1 ≡ object (g d)
unfolding rewrite
rewritten g f d h = ap (λ (o : Option (Dict Text Json)). (rewrite completed g f o).1) h

read_lenient-read_checked :
    (f : Stored) (d : Dict Text Json) → read_checked f ≡ some d → read_lenient f ≡ d
unfolding read_checked read_lenient
read_lenient-read_checked nothing d h = ground (arith, h)
read_lenient-read_checked unreadable d h = ground (arith, h)
read_lenient-read_checked (object d') d h = ground (arith, h)

-- A plan with a time and a positive notice.
abbrev pub plan : ℕ → Text → ℕ → Bool → RecurringRestart
plan h time lead later = record {
  time_hhmm = h ∷ time;
  lead_seconds = suc lead;
  defer_if_players = later;
}

-- A plan that has been set, with a time and a positive notice, is the plan that is read, and it has
-- not been fired, if the file is an object and can be written.
get_config-set_config :
    (h lead : ℕ) (time : Text) (later : Bool) (f : Stored) (d : Dict Text Json)
    → read_checked f ≡ some d
    → (get_config (set_config completed (plan h time lead later) f).1
        ≡ some (plan h time lead later))
      × (last_fired (set_config completed (plan h time lead later) f).1 ≡ none)
unfolding set_config get_config last_fired with_time read_lenient filled lead_of is_truthy text_eq
get_config-set_config h lead time later f d r =
    rw
      (
        rewritten (configured c) f d r,
        get-configured (codes "time") c d,
        get-configured (codes "lead_seconds") c d,
        get-configured (codes "defer_if_players") c d,
        get-configured (codes "last_fired") c d,
      )
      (refl, refl)
  where
    c : RecurringRestart
    c = plan h time lead later

with_time-put :
    (v : Json) (d : Dict Text Json) (o : Option Text)
    → with_time (put (codes "last_fired") v d) o ≡ with_time d o
unfolding with_time text_eq
with_time-put v d none = refl
with_time-put v d (some time) =
    rw
      (
        get-put (codes "lead_seconds") (codes "last_fired") v d,
        get-put (codes "defer_if_players") (codes "last_fired") v d,
      )
      refl

-- After a plan has been marked as fired for a day, that day is read, and the plan is as it was, if
-- the file is an object and can be written.
last_fired-mark_fired :
    (day : Text) (h : ℕ) (f : Stored) (d : Dict Text Json)
    → read_checked f ≡ some d
    → (last_fired (mark_fired completed (h ∷ day) f).1 ≡ some (h ∷ day))
      × (get_config (mark_fired completed (h ∷ day) f).1 ≡ get_config f)
unfolding mark_fired get_config last_fired with_time read_lenient filled text_eq
last_fired-mark_fired day h f d r =
    rw
      (
        rewritten fired f d r,
        get-put (codes "last_fired") (codes "last_fired") (str (h ∷ day)) d,
        get-put (codes "time") (codes "last_fired") (str (h ∷ day)) d,
        with_time-put (str (h ∷ day)) d,
        read_lenient-read_checked f d r,
      )
      (refl, refl)
  where
    fired : Dict Text Json → Dict Text Json
    fired d' = put (codes "last_fired") (str (h ∷ day)) d'

set_config-read :
    (c : RecurringRestart) (f : Stored) (d : Dict Text Json)
    → read_checked f ≡ some d
    → read_checked (set_config completed c f).1 ≡ some (configured c d)
unfolding set_config read_checked
set_config-read c f d r = ap read_checked (rewritten (configured c) f d r)

-- A plan with a time and a positive notice that has been set is the plan that is read, and it has not
-- been fired; once it has been marked as fired for a day, that day is read and the plan is the same.
-- The file is an object and can be written.
pub plan_kept :
    (h lead g : ℕ) (time day : Text) (later : Bool) (f : Stored) (d : Dict Text Json)
    → read_checked f ≡ some d
    → (get_config (set_config completed (plan h time lead later) f).1
        ≡ some (plan h time lead later))
      × (last_fired (set_config completed (plan h time lead later) f).1 ≡ none)
      × (last_fired
            (mark_fired completed (g ∷ day) (set_config completed (plan h time lead later) f).1).1
          ≡ some (g ∷ day))
      × (get_config
            (mark_fired completed (g ∷ day) (set_config completed (plan h time lead later) f).1).1
          ≡ some (plan h time lead later))
plan_kept h lead g time day later f d r =
    let set = get_config-set_config h lead time later f d r in
    let marked =
      last_fired-mark_fired day g _ (configured (plan h time lead later) d)
        (set_config-read (plan h time lead later) f d r) in
    (set.0, set.1, marked.0, marked.1 ∙ set.0)
