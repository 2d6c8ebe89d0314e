-- ===== src/Service/Archives/Restores/Answers.antt =====
-- What the answers to a preflight that finds nothing are.
use mc_admin.Base.{◌≡◌, ◌⊎◌, inl, inr, refl, Text, Bool, true, false, List, ◌∷◌, All}
use mc_admin.Service.{Event, Env, maker_running, safety_backup, restore_worker_issues}
use mc_admin.Service.Archives.Restores.{some_issues}
use mc_admin.Service.Archives.Restores.Preflight.{IntegrityAnswer, asked, if_any, Target, seen}
use mc_admin.Service.Archives.Restores.Passed.{tested, passed, before_target}
use mc_admin.Service.Archives.Ticks.Known.{In, In-All, Preflighted, returned}

pub In-if_any : (has : Bool) (e x : Event) (ks : List Event) → In e ks → In e (if_any has x ks)
In-if_any true e x ks h = inr h
In-if_any false e x ks h = h

if_any-In : (has : Bool) (e : Event) (ks : List Event) → (has ≡ false) ⊎ In e (if_any has e ks)
if_any-In true e ks = inr (inl refl)
if_any-In false e ks = inl refl

In-asked :
    ⦃env : Env⦄ (answer : IntegrityAnswer) (e : Event) (ks : List Event)
    → In e ks
    → In e (asked answer ks)
In-asked (inl unasked) e ks h = h
In-asked (inr (issues, nothing)) e ks h = inr h

module _ ⦃env : Env⦄ (filename : Text) where
  -- What has been answered tells that the preflight is passed, by each of its parts.
  module _ (t : Target filename) (answer : IntegrityAnswer) (calls : List Event)
      (known : All (λ (k : Event). In k calls) (passed filename t answer)) where
    all_tested : (e : Event) → In e (tested filename t) → In e calls
    all_tested e i = In-All e (passed filename t answer) calls known (In-asked answer e _ i)

    later :
        (e : Event)
        → In e (
            returned (maker_running safety_backup) false ∷ seen filename t (before_target filename))
        → In e calls
    later e i = all_tested e (In-if_any env.has_profile_backup e _ _ i)

    early : (e : Event) → In e (before_target filename) → In e calls
    early e i = later e (inr (inr (inr i)))

    if_called :
        (has : Bool) (e : Event) (ks : List Event)
        → (In e (if_any has e ks) → In e calls)
        → (has ≡ false) ⊎ In e calls
    if_called has e ks f = elim (if_any-In has e ks) [ inl hasnt ↦ inl hasnt | inr i ↦ inr (f i) ]

    by_answer :
        (a : IntegrityAnswer)
        → All (λ (k : Event). In k calls) (passed filename t a)
        → (env.has_integrity ≡ false)
          ⊎ ((issues : List Text) × ((some_issues issues ≡ false)
                × In (returned restore_worker_issues issues) calls))
    by_answer (inl unasked) h = inl unasked
    by_answer (inr (issues, nothing)) h = inr (issues, (nothing, h.0))

    pub all_passed : Preflighted env filename calls
    all_passed = record {
      worker =
          early _ (In-if_any env.has_closing _ _ _ (In-if_any env.has_doorman _ _ _ (inl refl)));
      target = record {
        archives = t.archives;
        archive = t.archive;
        check = t.check;
        listed = later _ (inr (inr (inl refl)));
        found = t.found;
        verdict = later _ (inr (inl refl));
        same_size = t.is_good.same_size;
        same_time = t.is_good.same_time;
        readable = t.is_good.readable;
        restorable = t.is_good.restorable;
      };
      safety = later _ (inl refl);
      doorman = if_called env.has_doorman _ _ (λ i. early _ (In-if_any env.has_closing _ _ _ i));
      closing = if_called env.has_closing _ _ (early _);
      profile = if_called env.has_profile_backup _ _ (all_tested _);
      integrity = by_answer answer known;
    }
