-- ===== src/Levels/Machine/Rules.antt =====
-- Rules for what holds after an action, by how it ended.
use mc_admin.Base.{Bool, true, false, ◌≡◌, refl, sym, subst, if◌then◌else◌}
use mc_admin.Levels.Machine.{
  World, Out, ok, raised, dead, Fate, fine, raises, killed, Failure, Faults, Site, Action, ◌>>=◌,
  catch, effect, pure, raise, continue, recover_from, if_done, modify, get_world,
}

-- `Q` if it returned, `X` if it raised, `K` if it was killed.
abbrev pub Ends :
    {A : Type 0}
    → (A → World → Type 0)
    → (World → Type 0)
    → (World → Type 0)
    → Out A × World
    → Type 0
Ends Q X K (ok a, w) = Q a w
Ends Q X K (raised e, w) = X w
Ends Q X K (dead, w) = K w

-- The same three, for every state that an action may start from.
pub record Does {A : Type 0} (P : World → Type 0) (m : Action A) (Q : A → World → Type 0)
    (X K : World → Type 0) : Type 0 where
  pub ends : (w : World) → P w → Ends Q X K (m w)

module _ {X K : World → Type 0} where
  continue_case :
      {A B : Type 0} {Q : A → World → Type 0} {R : B → World → Type 0} (f : A → Action B)
      (r : Out A × World)
      → ((a : A) → Does (Q a) (f a) R X K)
      → Ends Q X K r
      → Ends R X K (continue f r)
  continue_case f (ok a, w) hf h = (hf a).ends w h
  continue_case f (raised e, w) hf h = h
  continue_case f (dead, w) hf h = h

  pub bind_rule :
      {A B : Type 0} {P : World → Type 0} {Q : A → World → Type 0} {R : B → World → Type 0}
      {m : Action A} {f : A → Action B}
      → Does P m Q X K
      → ((a : A) → Does (Q a) (f a) R X K)
      → Does P (m >>= f) R X K
  unfolding ◌>>=◌
  bind_rule {m = m} {f = f} hm hf = record { ends = λ w h. continue_case f (m w) hf (hm.ends w h) }

  pub catch_rule :
      {A : Type 0} {P Y : World → Type 0} {Q : A → World → Type 0} {m : Action A}
      {handler : Failure → Action A}
      → Does P m Q Y K
      → ((e : Failure) → Does Y (handler e) Q X K)
      → Does P (catch m handler) Q X K
  unfolding catch
  catch_rule {A = A} {Y = Y} {Q = Q} {m = m} {handler = handler} hm hh = record {
    ends = λ w h. go (m w) (hm.ends w h);
  }
    where
      go : (r : Out A × World) → Ends Q Y K r → Ends Q X K (recover_from handler r)
      go (ok a, w) h = h
      go (raised e, w) h = (hh e).ends w h
      go (dead, w) h = h

  -- An operation that may fail: what holds without it and what holds with it must both do.
  pub effect_rule :
      {P : World → Type 0} {Q : World → Type 0} ⦃faults : Faults⦄ (site : Site) (f : World → World)
      → ((w : World) → P w → Q (f w) × X (f w) × X w × K (f w) × K w)
      → Does P (effect site f) (λ _. Q) X K
  unfolding effect
  effect_rule {P} {Q} ⦃faults⦄ site f h = record { ends = λ w p. go (faults.fate site) w p }
    where
      go :
          (x : Fate) (w : World)
          → P w
          → Ends {A = Unit {0}}
              (λ _. Q)
              X
              K
              (elim x [
                | fine ↦ (ok tt, f w)
                | raises done ↦ (raised Failure.fault, if_done done f w)
                | killed done ↦ (dead, if_done done f w)
              ])
      go fine w p = (h w p).0
      go (raises true) w p = (h w p).1
      go (raises false) w p = (h w p).2
      go (killed true) w p = (h w p).3
      go (killed false) w p = (h w p).4

  -- An operation that does not raise.
  pub sure_rule :
      {P : World → Type 0} {Q : World → Type 0} ⦃faults : Faults⦄ (site : Site) (f : World → World)
      → ((b : Bool) → faults.fate site ≡ raises b → ⊥)
      → ((w : World) → P w → Q (f w) × K (f w) × K w)
      → Does P (effect site f) (λ _. Q) X K
  unfolding effect
  sure_rule {P} {Q} ⦃faults⦄ site f never h = record {
    ends = λ w p. go (faults.fate site) refl w p;
  }
    where
      go :
          (x : Fate)
          → faults.fate site ≡ x
          → (w : World) → P w
          → Ends {A = Unit {0}}
              (λ _. Q)
              X
              K
              (elim x [
                | fine ↦ (ok tt, f w)
                | raises done ↦ (raised Failure.fault, if_done done f w)
                | killed done ↦ (dead, if_done done f w)
              ])
      go fine e w p = (h w p).0
      go (raises b) e w p = elim (never b e) [ ]
      go (killed true) e w p = (h w p).1
      go (killed false) e w p = (h w p).2

  pub modify_rule :
      {P Q : World → Type 0} (f : World → World)
      → ((w : World) → P w → Q (f w))
      → Does P (modify f) (λ _. Q) X K
  unfolding modify
  modify_rule f h = record { ends = λ w p. h w p }

  -- The state is known from here on.
  pub get_rule :
      {B : Type 0} {P : World → Type 0} {R : B → World → Type 0} {f : World → Action B}
      → ((v : World) → P v → Does (λ w. (w ≡ v)) (f v) R X K)
      → Does P (get_world >>= f) R X K
  unfolding ◌>>=◌ get_world
  get_rule h = record { ends = λ w p. (h w p).ends w refl }

  pub if_rule :
      {A : Type 0} {P : World → Type 0} {R : A → World → Type 0} (b : Bool) {m n : Action A}
      → (b ≡ true → Does P m R X K)
      → (b ≡ false → Does P n R X K)
      → Does P (if b then m else n) R X K
  if_rule true hm hn = hm refl
  if_rule false hm hn = hn refl

  pub weaken :
      {A : Type 0} {P P' : World → Type 0} {R : A → World → Type 0} {m : Action A}
      → ((w : World) → P' w → P w)
      → Does P m R X K
      → Does P' m R X K
  weaken h hm = record { ends = λ w p. hm.ends w (h w p) }

  -- An operation from a known state.
  pub effect_at :
      {Q : World → Type 0} ⦃faults : Faults⦄ (site : Site) (f : World → World) (v : World)
      → Q (f v) × X (f v) × X v × K (f v) × K v
      → Does (λ w. w ≡ v) (effect site f) (λ _. Q) X K
  effect_at {Q} site f v h =
      effect_rule site f
        (λ w e. subst (λ (u : World). Q (f u) × X (f u) × X u × K (f u) × K u) (sym e) h)

  pub pure_rule :
      {A : Type 0} {P : World → Type 0} {R : A → World → Type 0} (a : A)
      → ((w : World) → P w → R a w)
      → Does P (pure a) R X K
  pure_rule a h = record { ends = h }

  pub raise_rule :
      {A : Type 0} {P : World → Type 0} {R : A → World → Type 0} (e : Failure)
      → ((w : World) → P w → X w)
      → Does P (raise e) R X K
  raise_rule e h = record { ends = h }

-- What holds however an action ends holds of the state that it leaves.
pub Ends-world : {A : Type 0} (P : World → Type 0) (r : Out A × World) → Ends (λ _. P) P P r → P r.1
Ends-world P (ok a, w) h = h
Ends-world P (raised e, w) h = h
Ends-world P (dead, w) h = h

-- A fact beside the state.
pub fact_rule :
    {A : Type 0} {P X K : World → Type 0} {F : Type 0} {R : A → World → Type 0} {m : Action A}
    → (F → Does P m R X K)
    → Does (λ w. P w × F) m R X K
fact_rule h = record { ends = λ w p. (h p.1).ends w p.0 }

-- What it returns with, weakened.
pub result_rule :
    {A : Type 0} {P X K : World → Type 0} {R S : A → World → Type 0} {m : Action A}
    → ((a : A) (w : World) → R a w → S a w)
    → Does P m R X K
    → Does P m S X K
result_rule {A = A} {X = X} {K = K} {R = R} {S = S} h hm = record {
  ends = λ w p. go _ (hm.ends w p);
}
  where
    go : (r : Out A × World) → Ends R X K r → Ends S X K r
    go (ok a, w) q = h a w q
    go (raised e, w) q = q
    go (dead, w) q = q
