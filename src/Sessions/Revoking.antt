-- ===== src/Sessions/Revoking.antt =====
-- app/api/sessions.py: what `revoke`, `revoke_others` and `revoke_all` take away.
use mc_admin.Base.{
  ℕ, zero, suc, ◌≡◌, inl, inr, refl, sym, ap, ◌∙◌, arith, Text, false, Option, none, some, [], ◌∷◌,
  length, if◌then◌else◌, Bool-cases, ◌==◌,
}
use mc_admin.Base.Files.{Writing, completed, unchanged, unsynced}
use mc_admin.Base.Dict.{get, text_Eq, IsDict}
use mc_admin.Sessions.{Session, Sessions, Registry, Result, persist, others, pop_all, revoke_others}
use mc_admin.Sessions.Lists.{is_some, target, get-pop_all, get-others}

-- If the method returns, the file has what the memory has.
abbrev pub IsSaved : {A : Type 0} → Result A → Type 0
IsSaved (none, after) = Unit
IsSaved (some a, after) = after.saved ≡ after.sessions

-- If it returns a positive number, the file has what the memory has; if it returns zero, nothing has
-- changed, and nothing has been written.
abbrev pub IsSavedIfAny : Registry → Result ℕ → Type 0
IsSavedIfAny before (none, after) = Unit
IsSavedIfAny before (some zero, after) = after ≡ before
IsSavedIfAny before (some (suc n), after) = after.saved ≡ after.sessions

-- What is left of a session under a key.
abbrev pub left_of : Option Session → Option Session → Option Session
left_of targeted s = if is_some targeted then none else s

pub persist-sessions :
    {A : Type 0} (w : Writing) (a : A) (r : Registry) → ((persist w a r).1.sessions ≡ r.sessions)
unfolding persist
persist-sessions completed a r = refl
persist-sessions unchanged a r = refl
persist-sessions unsynced a r = refl

pub IsSaved-persist : {A : Type 0} (w : Writing) (a : A) (r : Registry) → IsSaved (persist w a r)
unfolding persist
IsSaved-persist completed a r = refl
IsSaved-persist unchanged a r = tt
IsSaved-persist unsynced a r = tt

IsSavedIfAny-persist :
    (before : Registry) (w : Writing) (n : ℕ) (r : Registry)
    → (n == 0) ≡ false
    → IsSavedIfAny before (persist w n r)
unfolding persist
IsSavedIfAny-persist before completed zero r h = ground (arith, h)
IsSavedIfAny-persist before completed (suc n) r h = refl
IsSavedIfAny-persist before unchanged n r h = tt
IsSavedIfAny-persist before unsynced n r h = tt

-- A user's sessions but the one to keep are gone from the memory, however the write of the file ends,
-- and every other session is as it was. If the method returns a positive number, the file agrees with
-- the memory; if it returns zero, nothing has changed, so that the file may still hold sessions that an
-- earlier call, whose write failed, has taken away. With no session to keep this is `revoke_all`.
pub revoke_others-Exact :
    (w : Writing) (keep_sid username : Text) (r : Registry) (j : Text)
    → IsDict r.sessions
    → (get j (revoke_others w keep_sid username r).1.sessions
        ≡ left_of (target keep_sid username j (get j r.sessions)) (get j r.sessions))
      × IsSavedIfAny r (revoke_others w keep_sid username r)
unfolding revoke_others get
revoke_others-Exact w keep_sid username r j h = elim (Bool-cases (length targets == 0)) [
  | inl empty ↦ rw empty (none_to_drop targets refl (ground arith), refl)
  | inr some_targets ↦ rw some_targets (
    ap (λ (d : Sessions). get j d) (persist-sessions w (length targets) popped)
        ∙ get-pop_all j targets r.sessions
        ∙ ap (λ o. left_of o (get j r.sessions)) (get-others j keep_sid username r.sessions h),
    IsSavedIfAny-persist r w (length targets) popped some_targets,
  )
]
  where
    targets : Sessions
    targets = others keep_sid username r.sessions

    popped : Registry
    popped = record r { sessions = pop_all targets r.sessions }

    none_to_drop :
        (d : Sessions)
        → targets ≡ d
        → length d ≡ 0
        → get j r.sessions
          ≡ left_of (target keep_sid username j (get j r.sessions)) (get j r.sessions)
    none_to_drop [] e l =
        ap (λ o. left_of o (get j r.sessions))
          (sym
            (sym (get-others j keep_sid username r.sessions h) ∙ ap (λ (d : Sessions). get j d) e))
    none_to_drop (p ∷ d) e l = ground arith
