-- ===== src/TempBans/Passes.antt =====
-- app/tempban_scheduler.py: what a turn of the thread lifts.
use mc_admin.Base.{
  ◌≡◌, refl, sym, ap, ◌∙◌, ℕ, Text, Bool, true, false, some, List, [], ◌∷◌, not, ◌&&◌, ◌||◌, any,
  keep, All, if◌then◌else◌, subst,
}
use mc_admin.TempBans.{
  Calendar, Value, text, other, Entry, File, PendingUnban, read_strict, write, change, is_named,
  is_other, cancel, pendings, pending, dues, due, lift_one, lift_all, after_due, turn,
}
use mc_admin.Base.Files.{Writing, completed, unchanged, unsynced, replaces}
use mc_admin.TempBans.Laws.{differs, read_strict-map, read-read_strict, pendings-keep}
use mc_admin.TempBans.Dues.{is_naive, dues_naive, dues-keep}

-- Whether the lifting of the first player's ban ends the timers of the second.
unfoldable pub ends : (Text → Writing) → Value → Value → Bool
ends completes (text name) v = replaces (completes name) && is_named name v
ends completes other v = false

unfoldable pub ended : (Text → Writing) → List PendingUnban → PendingUnban → Bool
ended completes ps q = any (λ (p : PendingUnban). ends completes p.player q.player) ps

keep-keep :
    (g h k : PendingUnban → Bool) (qs : List PendingUnban)
    → ((q : PendingUnban) → k q ≡ g q && h q)
    → keep h (keep g qs) ≡ keep k qs
keep-keep g h k [] e = refl
keep-keep g h k (q ∷ qs) e = rw (e q) (step (g q) (h q) refl (keep-keep g h k qs e))
  where
    step :
        (a b : Bool)
        → h q ≡ b
        → keep h (keep g qs) ≡ keep k qs
        → keep h (if a then q ∷ keep g qs else keep g qs)
          ≡ (if a && b then q ∷ keep k qs else keep k qs)
    step true true x rest = rw (x, rest) refl
    step true false x rest = rw (x, rest) refl
    step false b x rest = rest

keep_all :
    (k : PendingUnban → Bool) (qs : List PendingUnban)
    → ((q : PendingUnban) → k q ≡ true)
    → keep k qs ≡ qs
keep_all k [] e = refl
keep_all k (q ∷ qs) e = rw (e q, keep_all k qs e) refl

ended_more :
    (completes : Text → Writing) (p : PendingUnban) (ps rs : List PendingUnban)
    → All (λ (q : PendingUnban). ended completes ps q ≡ true) rs
    → All (λ (q : PendingUnban). ended completes (p ∷ ps) q ≡ true) rs
unfolding ended
ended_more completes p ps [] all = tt
ended_more completes p ps (r ∷ rs) all =
    (or_true (ends completes p.player r.player) all.0, ended_more completes p ps rs all.1)
  where
    or_true : (a : Bool) → ended completes ps r ≡ true → a || ended completes ps r ≡ true
    or_true true h = refl
    or_true false h = h

All-ended :
    (completes : Text → Writing) (ps : List PendingUnban)
    → All (λ (p : PendingUnban). ends completes p.player p.player ≡ true) ps
    → All (λ (q : PendingUnban). ended completes ps q ≡ true) ps
unfolding ended
All-ended completes [] all = tt
All-ended completes (p ∷ ps) all =
    (rw all.0 refl, ended_more completes p ps ps (All-ended completes ps all.1))

module _ ⦃lib : Calendar⦄ where
  -- A file that the strict reading takes, and what is pending in it.
  abbrev pub Pends : File → List PendingUnban → Type 0
  Pends f ps = (es : List Entry) × ((read_strict f ≡ some es) × (pendings es ≡ ps))

  lift_one-Pends :
      (completes : Text → Writing) (v : Value) (f : File) (qs : List PendingUnban)
      → Pends f qs
      → Pends
          (lift_one completes v f)
          (keep (λ (q : PendingUnban). not (ends completes v q.player)) qs)
  unfolding lift_one cancel change write differs ends
  lift_one-Pends completes other f qs (es, (h, e)) = (es, (h, e ∙ sym (keep_all _ qs (λ q. refl))))
  lift_one-Pends completes (text name) f qs (es, (h, e)) = by_test (completes name)
    where
      by_test :
          (c : Writing)
          → Pends
              (cancel c name f).1
              (keep (λ (q : PendingUnban). not (replaces c && is_named name q.player)) qs)
      by_test completed = (
        keep (is_other name) es,
        (
          rw h (read_strict-map (keep (is_other name) es)),
          pendings-keep name es ∙ ap (keep (differs name)) e,
        ),
      )
      by_test unsynced = (
        keep (is_other name) es,
        (
          rw h (read_strict-map (keep (is_other name) es)),
          pendings-keep name es ∙ ap (keep (differs name)) e,
        ),
      )
      by_test unchanged = (es, (rw h h, e ∙ sym (keep_all _ qs (λ q. refl))))

  lift_all-Pends :
      (completes : Text → Writing) (ps : List PendingUnban) (f : File) (qs : List PendingUnban)
      → Pends f qs
      → Pends (lift_all completes ps f) (keep (λ (q : PendingUnban). not (ended completes ps q)) qs)
  unfolding lift_all ended
  lift_all-Pends completes [] f qs (es, (h, e)) = (es, (h, e ∙ sym (keep_all _ qs (λ q. refl))))
  lift_all-Pends completes (p ∷ ps) f qs pends =
      subst (Pends (lift_all completes ps (lift_one completes p.player f)))
        (keep-keep _ _ _ qs (λ q. not_or (ends completes p.player q.player) (ended completes ps q)))
        (lift_all-Pends completes ps (lift_one completes p.player f) _
          (lift_one-Pends completes p.player f qs pends))
    where
      not_or : (a b : Bool) → not (a || b) ≡ not a && not b
      not_or true b = refl
      not_or false b = refl

  Pends-pending : (f : File) (qs : List PendingUnban) → Pends f qs → pending f ≡ qs
  unfolding pending
  Pends-pending f qs (es, (h, e)) = ap pendings (read-read_strict f es h) ∙ e

  turn_rule :
      (completes : Text → Writing) (now : ℕ) (f : File) (ps : List PendingUnban)
      → due now f ≡ some ps
      → turn completes now f ≡ (true, lift_all completes ps f)
  unfolding turn after_due
  turn_rule completes now f ps d = ap (after_due completes f) d

  -- Where the file is a list of dicts and every date that it holds has a time zone, a turn of the
  -- thread goes through, and exactly the unbans of the players whose ban it could lift are gone.
  pub turn-Lifts :
      (completes : Text → Writing) (now : ℕ) (f : File) (es : List Entry) (ps : List PendingUnban)
      → read_strict f ≡ some es
      → due now f ≡ some ps
      → ((turn completes now f).0 ≡ true)
        × (pending (turn completes now f).1
            ≡ keep (λ (q : PendingUnban). not (ended completes ps q)) (pending f))
  unfolding pending
  turn-Lifts completes now f es ps h d =
      subst
        (λ (r : Bool × File).
          (r.0 ≡ true)
          × (pending r.1 ≡ keep (λ (q : PendingUnban). not (ended completes ps q)) (pending f)))
        (sym (turn_rule completes now f ps d))
        (
          refl,
          Pends-pending (lift_all completes ps f) _ (
              lift_all-Pends completes ps f (pending f)
                (es, (h, ap pendings (sym (read-read_strict f es h))))),
        )

  -- A date without a time zone among the pending unbans ends the thread: the turn raises outside the
  -- `try`, whatever else is due, and nothing is lifted.
  pub turn_naive :
      (completes : Text → Writing) (now : ℕ) (f : File)
      → any (λ (p : PendingUnban). is_naive p.unban_at) (pending f) ≡ true
      → turn completes now f ≡ (false, f)
  unfolding turn after_due due
  turn_naive completes now f h = ap (after_due completes f) (dues_naive now (pending f) h)

  -- After a turn that can lift every ban that is due, none is due any more at that moment.
  pub turn_done :
      (completes : Text → Writing) (now : ℕ) (f : File) (es : List Entry) (ps : List PendingUnban)
      → read_strict f ≡ some es
      → due now f ≡ some ps
      → All (λ (p : PendingUnban). ends completes p.player p.player ≡ true) ps
      → due now (turn completes now f).1 ≡ some []
  unfolding due
  turn_done completes now f es ps h d all =
      ap (dues now) (turn-Lifts completes now f es ps h d).1
      ∙ dues-keep now (ended completes ps) (pending f) ps d (All-ended completes ps all)
