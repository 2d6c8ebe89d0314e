-- ===== src/TempBans/Laws.antt =====
-- app/adapters/temp_bans.py: what a change of the timers does to the pending ones.
use mc_admin.Base.{
  ◌≡◌, refl, sym, ap, ◌∙◌, Text, Bool, true, false, Option, none, some, List, [], ◌∷◌, ◌++◌, map,
  not, arith, ◌⊎◌, inl, inr, keep,
}
use mc_admin.TempBans.{
  Moment, Calendar, Value, text, other, Entry, dict, File, absent, unreadable, holds, PendingUnban,
  dicts, all_dicts, read_strict, read, write, change, with_timer, is_named, is_other, new_entry,
  schedule, at_moment, pending_of, add, pendings, pending,
}
use mc_admin.Base.Files.{Writing, completed, unchanged, unsynced, returns, replaces}

-- Whether a pending unban is that of another player.
unfoldable pub differs : Text → PendingUnban → Bool
differs player p = not (is_named player p.player)

pub all_dicts-map : (es : List Entry) → all_dicts (map dict es) ≡ true
unfolding all_dicts
all_dicts-map [] = refl
all_dicts-map (e ∷ es) = all_dicts-map es

pub dicts-map : (es : List Entry) → dicts (map dict es) ≡ es
unfolding dicts
dicts-map [] = refl
dicts-map (e ∷ es) = ap (λ (l : List Entry). e ∷ l) (dicts-map es)

pub read_strict-map : (es : List Entry) → read_strict (holds (map dict es)) ≡ some es
unfolding read_strict
read_strict-map es = rw (all_dicts-map es, dicts-map es) refl

-- Where the strict reading returns, the other one gives the same.
pub read-read_strict : (f : File) (es : List Entry) → read_strict f ≡ some es → read f ≡ es
unfolding read_strict read
read-read_strict absent es h = ground (arith, h)
read-read_strict unreadable es h = ground (arith, h)
read-read_strict (holds rs) es h = ground (arith, h)

module _ ⦃lib : Calendar⦄ where
  pub pendings-append : (es es' : List Entry) → pendings (es ++ es') ≡ pendings es ++ pendings es'
  unfolding pendings add
  pendings-append [] es' = refl
  pendings-append (e ∷ es) es' =
      ap (add (pending_of e.player e.unban_at)) (pendings-append es es')
      ∙ added (pending_of e.player e.unban_at)
    where
      added :
          (o : Option PendingUnban)
          → add o (pendings es ++ pendings es') ≡ add o (pendings es) ++ pendings es'
      added none = refl
      added (some p) = refl

  pub pendings-keep :
      (player : Text) (es : List Entry)
      → pendings (keep (is_other player) es) ≡ keep (differs player) (pendings es)
  unfolding pendings is_other differs add pending_of at_moment
  pendings-keep player [] = refl
  pendings-keep player (e ∷ es) = step e.player e.unban_at (pendings-keep player es)
    where
      step :
          (v u : Option Value)
          → pendings (keep (is_other player) es) ≡ keep (differs player) (pendings es)
          → pendings (keep (is_other player) (record { player = v; unban_at = u } ∷ es))
            ≡ keep (differs player) (add (pending_of v u) (pendings es))
      step none u h = h
      step (some v) none h = ground (arith, h)
      step (some v) (some other) h = ground (arith, h)
      step (some v) (some (text s)) h = ground (arith, h)

-- A change of the timers: where the strict reading returns and the file is replaced, these unbans are
-- pending, and it returns unless the directory could not be synced; or it raises, and the file is as
-- it was.
abbrev pub Outcome : ⦃lib : Calendar⦄ → Writing → File → Bool × File → List PendingUnban → Type 0
Outcome w f r ps =
    ((replaces w ≡ true)
      × (((es : List Entry) × (read_strict f ≡ some es))
          × ((r.0 ≡ returns w) × (pending r.1 ≡ ps))))
    ⊎ (((replaces w ≡ false) ⊎ (read_strict f ≡ none)) × (r ≡ (false, f)))

module _ ⦃lib : Calendar⦄ where
  change-Outcome :
      (w : Writing) (g : List Entry → List Entry) (f : File) (ps : List PendingUnban)
      → ((es : List Entry) → read_strict f ≡ some es → pendings (g es) ≡ ps)
      → (o : Option (List Entry)) → read_strict f ≡ o
      → Outcome w f (change w g f o) ps
  unfolding change write pending read
  change-Outcome w g f ps k none h = inr (inr h, refl)
  change-Outcome completed g f ps k (some es) h =
      inl (refl, ((es, h), (refl, ap pendings (dicts-map (g es)) ∙ k es h)))
  change-Outcome unsynced g f ps k (some es) h =
      inl (refl, ((es, h), (refl, ap pendings (dicts-map (g es)) ∙ k es h)))
  change-Outcome unchanged g f ps k (some es) h = inr (inl refl, refl)

  kept :
      (player : Text) (es : List Entry) (f : File)
      → read_strict f ≡ some es
      → pendings (keep (is_other player) es) ≡ keep (differs player) (pending f)
  unfolding pending
  kept player es f h =
      pendings-keep player es
      ∙ ap (λ (l : List Entry). keep (differs player) (pendings l)) (sym (read-read_strict f es h))

  -- Where the file is a list of dicts and is replaced, the new timer takes the place of every one of the
  -- player and leaves the others, and the method returns unless the directory cannot be synced; else it
  -- raises and nothing has changed.
  pub schedule-Outcome :
      (w : Writing) (player : Text) (unban_at : Moment) (f : File)
      → Outcome w f (schedule w player unban_at f) (
          keep (differs player) (pending f)
          ++ (record { player = text player; unban_at = unban_at } ∷ []))
  unfolding schedule with_timer pendings pending_of new_entry add at_moment
  schedule-Outcome w player unban_at f =
      change-Outcome w (with_timer player unban_at) f _ set (read_strict f) refl
    where
      new_pending :
          pendings (new_entry player unban_at ∷ [])
          ≡ record { player = text player; unban_at = unban_at } ∷ []
      new_pending = rw (lib.fromisoformat-isoformat unban_at) refl

      set :
          (es : List Entry)
          → read_strict f ≡ some es
          → pendings (with_timer player unban_at es)
            ≡ keep (differs player) (pending f)
              ++ (record { player = text player; unban_at = unban_at } ∷ [])
      set es h =
          pendings-append (keep (is_other player) es) (new_entry player unban_at ∷ [])
          ∙ (ap (λ (l : List PendingUnban). l ++ pendings (new_entry player unban_at ∷ []))
                (kept player es f h)
              ∙ ap (λ (l : List PendingUnban). keep (differs player) (pending f) ++ l) new_pending)
