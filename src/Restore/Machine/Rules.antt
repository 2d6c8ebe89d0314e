-- ===== src/Restore/Machine/Rules.antt =====
-- Rules for what holds after an action, by how it ended.
use mc_admin.Base.{List, [], ◌∷◌, ◌≡◌, ap}
use mc_admin.Restore.Machine.{
  Storage, Disk, Debris, State, Out, ok, raised, dead, Fate, Failure, Action, ◌>>=◌, catch, effect,
  fine, raises, killed, continue, recover_from,
}

module _ ⦃st : Storage⦄ where
  -- `Q` if it returned, `X` if it raised, `K` if it was killed.
  abbrev pub Ends :
      {A : Type 0}
      → (A → State st.World → Type 0)
      → (Failure → State st.World → Type 0)
      → (State st.World → Type 0)
      → Out A × State st.World
      → Type 0
  Ends Q X K (ok a, s) = Q a s
  Ends Q X K (raised e, s) = X e s
  Ends Q X K (dead, s) = K s

  bind_case :
      {A B : Type 0} (Q : B → State st.World → Type 0) (X : Failure → State st.World → Type 0)
      (K : State st.World → Type 0) (f : A → Action B) (r : Out A) (s : State st.World)
      → Ends (λ a t. Ends Q X K (f a t)) X K (r, s)
      → Ends Q X K ((◌>>=◌ (λ t. (r, t)) f) s)
  unfolding ◌>>=◌
  bind_case Q X K f (ok a) s h = h
  bind_case Q X K f (raised e) s h = h
  bind_case Q X K f dead s h = h

  pub bind_rule :
      {A B : Type 0} (Q : B → State st.World → Type 0) (X : Failure → State st.World → Type 0)
      (K : State st.World → Type 0) (m : Action A) (f : A → Action B) (s : State st.World)
      → Ends (λ a t. Ends Q X K (f a t)) X K (m s)
      → Ends Q X K ((m >>= f) s)
  unfolding ◌>>=◌
  bind_rule Q X K m f s h = let (r, t) = m s in bind_case Q X K f r t h

  catch_case :
      {A : Type 0} (Q : A → State st.World → Type 0) (X : Failure → State st.World → Type 0)
      (K : State st.World → Type 0) (handler : Failure → Action A) (r : Out A) (s : State st.World)
      → Ends Q (λ e t. Ends Q X K (handler e t)) K (r, s)
      → Ends Q X K (catch (λ t. (r, t)) handler s)
  unfolding catch
  catch_case Q X K handler (ok a) s h = h
  catch_case Q X K handler (raised e) s h = h
  catch_case Q X K handler dead s h = h

  pub catch_rule :
      {A : Type 0} (Q : A → State st.World → Type 0) (X : Failure → State st.World → Type 0)
      (K : State st.World → Type 0) (m : Action A) (handler : Failure → Action A)
      (s : State st.World)
      → Ends Q (λ e t. Ends Q X K (handler e t)) K (m s)
      → Ends Q X K (catch m handler s)
  unfolding catch
  catch_rule Q X K m handler s h = let (r, t) = m s in catch_case Q X K handler r t h

  effect_case :
      (Q : Unit {0} → State st.World → Type 0) (X : Failure → State st.World → Type 0)
      (K : State st.World → Type 0) (done : Disk st.World → Disk st.World)
      (part : Debris st.World → Disk st.World → Disk st.World) (s : State st.World)
      (fates : List (Fate st.World))
      → ((fs : List (Fate st.World)) → Q tt (record s { disk = done s.disk; faults = fs }))
      → ((x : Debris st.World) (fs : List (Fate st.World))
          → X Failure.fault (record s { disk = part x s.disk; faults = fs }))
      → ((x : Debris st.World) (fs : List (Fate st.World))
          → K (record s { disk = part x s.disk; faults = fs }))
      → Ends Q X K (effect done part (record s { faults = fates }))
  unfolding effect
  effect_case Q X K done part s [] q x k = q []
  effect_case Q X K done part s (fine ∷ fs) q x k = q fs
  effect_case Q X K done part s (raises d ∷ fs) q x k = x d fs
  effect_case Q X K done part s (killed d ∷ fs) q x k = k d fs

  pub effect_rule :
      (Q : Unit {0} → State st.World → Type 0) (X : Failure → State st.World → Type 0)
      (K : State st.World → Type 0) (done : Disk st.World → Disk st.World)
      (part : Debris st.World → Disk st.World → Disk st.World) (s : State st.World)
      → ((fs : List (Fate st.World)) → Q tt (record s { disk = done s.disk; faults = fs }))
      → ((x : Debris st.World) (fs : List (Fate st.World))
          → X Failure.fault (record s { disk = part x s.disk; faults = fs }))
      → ((x : Debris st.World) (fs : List (Fate st.World))
          → K (record s { disk = part x s.disk; faults = fs }))
      → Ends Q X K (effect done part s)
  effect_rule Q X K done part s q x k = effect_case Q X K done part s s.faults q x k

  -- An operation and what follows it.
  pub step_rule :
      {B : Type 0} (Q : B → State st.World → Type 0) (X : Failure → State st.World → Type 0)
      (K : State st.World → Type 0) (done : Disk st.World → Disk st.World)
      (part : Debris st.World → Disk st.World → Disk st.World) (f : Unit {0} → Action B)
      (s : State st.World)
      → ((fs : List (Fate st.World))
          → Ends Q X K (f tt (record s { disk = done s.disk; faults = fs })))
      → ((x : Debris st.World) (fs : List (Fate st.World))
          → X Failure.fault (record s { disk = part x s.disk; faults = fs }))
      → ((x : Debris st.World) (fs : List (Fate st.World))
          → K (record s { disk = part x s.disk; faults = fs }))
      → Ends Q X K ((effect done part >>= f) s)
  step_rule Q X K done part f s q x k =
      bind_rule Q X K (effect done part) f s
        (effect_rule (λ a t. Ends Q X K (f a t)) X K done part s q x k)

  pub weaken_rule :
      {A : Type 0} {Q Q' : A → State st.World → Type 0} {X X' : Failure → State st.World → Type 0}
      {K K' : State st.World → Type 0} (r : Out A × State st.World)
      → Ends Q X K r
      → ((a : A) (t : State st.World) → Q a t → Q' a t)
      → ((e : Failure) (t : State st.World) → X e t → X' e t)
      → ((t : State st.World) → K t → K' t)
      → Ends Q' X' K' r
  weaken_rule (ok a, t) h q x k = q a t h
  weaken_rule (raised e, t) h q x k = x e t h
  weaken_rule (dead, t) h q x k = k t h

  pub bind-eq :
      {A B : Type 0} (m : Action A) (f : A → Action B) (s : State st.World) {a : A}
      {t : State st.World}
      → m s ≡ (ok a, t)
      → (m >>= f) s ≡ f a t
  unfolding ◌>>=◌
  bind-eq m f s h = ap (continue f) h

  pub catch-eq :
      {A : Type 0} (m : Action A) (handler : Failure → Action A) (s : State st.World) {a : A}
      {t : State st.World}
      → m s ≡ (ok a, t)
      → catch m handler s ≡ (ok a, t)
  unfolding catch
  catch-eq m handler s h = ap (recover_from handler) h
