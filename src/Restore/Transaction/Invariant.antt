-- ===== src/Restore/Transaction/Invariant.antt =====
-- What is true of the disk between any two operations of app/restore_worker.py, for the world
-- `old` that was live when the transaction began and the restored world `new`.
use mc_admin.Base.{false, Option, none, some, ◌≡◌, refl, ◌⊎◌, inl, inr, ap, sym, subst}
use mc_admin.Restore.Machine.{
  Storage, Phase, Marker, valid, invalid, Disk, Failure, State, Action, ◌>>=◌, remove_stage,
  remove_rollback, unlink_state, unlink_tmp,
}
use mc_admin.Restore.Machine.Rules.{Ends, bind_rule, step_rule, effect_rule, weaken_rule}
use mc_admin.Restore.Transaction.{cleanup}

pub data Class : Type 0 where
  early middle finished other : Class

abbrev pub class : Phase → Class
class Phase.staged = early
class Phase.stopping = early
class Phase.stopped = early
class Phase.started = finished
class Phase.unknown = other
class _ = middle

module _ ⦃st : Storage⦄ (old new : st.World) where
  -- The copy that the rollback holds, unless it was removed from beside the old world.
  abbrev pub Held : Option st.World → st.World → Type 0
  Held rb live = ((rb ≡ none) × (st.view live ≡ st.view old)) ⊎ (rb ≡ some (st.clone old))

  -- One of the two worlds, whole.
  abbrev pub Whole : st.World → Type 0
  Whole live = (st.view live ≡ st.view old) ⊎ (live ≡ new)

  abbrev pub SafeIn : Class → Option st.World → st.World → Type 0
  SafeIn early rb live = live ≡ old
  SafeIn middle rb live = Held rb live
  SafeIn finished rb live = live ≡ new
  SafeIn other rb live = ⊥

  abbrev pub SafeAt : Option Marker → Option st.World → st.World → Type 0
  SafeAt none rb live = (rb ≡ none) × Whole live
  SafeAt (some (valid p t)) rb live = SafeIn (class p) rb live
  SafeAt (some invalid) rb live = ⊥

  -- The old world can be had back from this disk, or the new one is whole.
  abbrev pub Safe : Disk st.World → Type 0
  Safe d = SafeAt d.marker d.rollback d.live

  abbrev pub SettledIn : Class → Option st.World → st.World → Type 0
  SettledIn middle rb live = (st.view live ≡ st.view old) × Held rb live
  SettledIn c rb live = SafeIn c rb live

  abbrev pub SettledAt : Option Marker → Option st.World → st.World → Type 0
  SettledAt none rb live = (rb ≡ none) × Whole live
  SettledAt (some (valid p t)) rb live = SettledIn (class p) rb live
  SettledAt (some invalid) rb live = ⊥

  -- A safe disk on which the live world is whole already.
  abbrev pub Settled : Disk st.World → Type 0
  Settled d = SettledAt d.marker d.rollback d.live

  abbrev pub Clean : Disk st.World → Type 0
  Clean d = (d.marker ≡ none) × (d.rollback ≡ none) × Whole d.live

  pub middle-Safe :
      (p : Phase) (rb : Option st.World) (live : st.World)
      → class p ≡ middle
      → Held rb live
      → SafeIn (class p) rb live
  middle-Safe p rb live c h = subst (λ k. SafeIn k rb live) (sym c) h

  pub middle-Settled :
      (p : Phase) (rb : Option st.World) (live : st.World)
      → class p ≡ middle
      → st.view live ≡ st.view old
      → Held rb live
      → SettledIn (class p) rb live
  middle-Settled p rb live c v h = subst (λ k. SettledIn k rb live) (sym c) (v, h)

  SafeIn-of_Settled :
      (c : Class) (rb : Option st.World) (live : st.World) → SettledIn c rb live → SafeIn c rb live
  SafeIn-of_Settled middle rb live h = h.1
  SafeIn-of_Settled early rb live h = h
  SafeIn-of_Settled finished rb live h = h
  SafeIn-of_Settled other rb live h = h

  pub Safe-of_Settled :
      (m : Option Marker) (rb : Option st.World) (live : st.World)
      → SettledAt m rb live
      → SafeAt m rb live
  Safe-of_Settled none rb live h = h
  Safe-of_Settled (some (valid p t)) rb live h = SafeIn-of_Settled (class p) rb live h
  Safe-of_Settled (some invalid) rb live h = h

  SettledIn-none :
      (c : Class) (rb : Option st.World) (live : st.World)
      → SettledIn c rb live
      → SettledIn c none live
  SettledIn-none middle rb live h = (h.0, inl (refl, h.0))
  SettledIn-none early rb live h = h
  SettledIn-none finished rb live h = h
  SettledIn-none other rb live h = h

  Settled-none :
      (m : Option Marker) (rb : Option st.World) (live : st.World)
      → SettledAt m rb live
      → SettledAt m none live
  Settled-none none rb live h = (refl, h.1)
  Settled-none (some (valid p t)) rb live h = SettledIn-none (class p) rb live h
  Settled-none (some invalid) rb live h = h

  WholeIn-of_Settled :
      (c : Class) (rb : Option st.World) (live : st.World) → SettledIn c rb live → Whole live
  WholeIn-of_Settled middle rb live h = inl h.0
  WholeIn-of_Settled early rb live h = inl (ap st.view h)
  WholeIn-of_Settled finished rb live h = inr h
  WholeIn-of_Settled other rb live h = absurd h

  pub Whole-of_Settled :
      (m : Option Marker) (rb : Option st.World) (live : st.World)
      → SettledAt m rb live
      → Whole live
  Whole-of_Settled none rb live h = h.1
  Whole-of_Settled (some (valid p t)) rb live h = WholeIn-of_Settled (class p) rb live h
  Whole-of_Settled (some invalid) rb live h = absurd h

  abbrev pub Cleaned : State st.World → State st.World → Type 0
  Cleaned s t =
      Clean t.disk
      × (t.disk.stage ≡ none)
      × (t.disk.live ≡ s.disk.live)
      × (t.disk.running ≡ s.disk.running)

  abbrev pub NotCleaned : State st.World → Failure → State st.World → Type 0
  NotCleaned s e t =
      (e ≡ Failure.fault)
      × Settled t.disk
      × (t.disk.live ≡ s.disk.live)
      × ((t.disk.rollback ≡ none) ⊎ (t.disk.rollback ≡ s.disk.rollback))
      × (t.disk.running ≡ s.disk.running)

  -- The cleanup from a settled disk ends clean, or it fails on a settled disk. It leaves the live
  -- world alone.
  pub cleanup_rule :
      (whole_removal : st.torn_removal ≡ false) (s : State st.World)
      → Settled s.disk
      → Ends (λ _ t. Cleaned s t) (NotCleaned s) (λ t. Settled t.disk) (cleanup s)
  unfolding cleanup remove_stage remove_rollback unlink_state unlink_tmp
  cleanup_rule wr s h =
      step_rule _ _ _ _ _ _ s
        (λ fs.
          step_rule _ _ _ _ _ _ _
            (λ fs.
              step_rule _ _ _ _ _ _ _
                (λ fs.
                  effect_rule _ _ _ _ _ _ (λ fs. ((refl, refl, whole), refl, refl, refl))
                    (λ x fs. (refl, (refl, whole), refl, inl refl, refl)) (λ x fs. (refl, whole)))
                (λ x fs. (refl, gone, refl, inl refl, refl)) (λ x fs. gone))
            (λ x fs. rw wr (refl, h, refl, inr refl, refl)) (λ x fs. rw wr h))
        (λ x fs. (refl, h, refl, inr refl, refl)) (λ x fs. h)
    where
      whole : Whole s.disk.live
      whole = Whole-of_Settled s.disk.marker s.disk.rollback s.disk.live h

      gone : SettledAt s.disk.marker none s.disk.live
      gone = Settled-none s.disk.marker s.disk.rollback s.disk.live h

  pub Safe-of_Clean : (d : Disk st.World) → Clean d → Safe d
  Safe-of_Clean d (m, rb, w) =
      subst (λ k. SafeAt k d.rollback d.live) (sym m)
        (subst (λ r. SafeAt none r d.live) (sym rb) (refl, w))

  -- The cleanup and what follows it.
  pub cleanup_then :
      {B : Type 0} (Q : B → State st.World → Type 0) (X : Failure → State st.World → Type 0)
      (K : State st.World → Type 0) (whole_removal : st.torn_removal ≡ false)
      (f : Unit {0} → Action B) (s : State st.World)
      → Settled s.disk
      → ((t : State st.World) → Cleaned s t → Ends Q X K (f tt t))
      → ((t : State st.World) → NotCleaned s Failure.fault t → X Failure.fault t)
      → ((t : State st.World) → Settled t.disk → K t)
      → Ends Q X K ((cleanup >>= f) s)
  cleanup_then Q X K wr f s h q x k = bind_rule Q X K cleanup f s (
      weaken_rule {Q = λ _ t. Cleaned s t} {Q' = λ a t. Ends Q X K (f a t)} {X = NotCleaned s}
        {X' = X} {K = λ t. Settled t.disk} {K' = K} (cleanup s) (cleanup_rule wr s h)
        (λ _ t c. q t c) (λ e t c. rw c.0 (x t (refl, c.1, c.2, c.3, c.4))) k)

  pub cleanup_last :
      (Q : Unit {0} → State st.World → Type 0) (X : Failure → State st.World → Type 0)
      (K : State st.World → Type 0) (whole_removal : st.torn_removal ≡ false) (s : State st.World)
      → Settled s.disk
      → ((t : State st.World) → Cleaned s t → Q tt t)
      → ((t : State st.World) → NotCleaned s Failure.fault t → X Failure.fault t)
      → ((t : State st.World) → Settled t.disk → K t)
      → Ends Q X K (cleanup s)
  cleanup_last Q X K wr s h q x k =
      weaken_rule {Q = λ _ t. Cleaned s t} {Q' = Q} {X = NotCleaned s} {X' = X}
        {K = λ t. Settled t.disk} {K' = K} (cleanup s) (cleanup_rule wr s h) (λ _ t c. q t c)
        (λ e t c. rw c.0 (x t (refl, c.1, c.2, c.3, c.4))) k
