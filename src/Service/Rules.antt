-- ===== src/Service/Rules.antt =====
-- What an action keeps of the trace, by its parts: the calls that it may make.
use mc_admin.Base.{◌∷◌, Bool, true, false, Option, none, some, List, if◌then◌else◌, Text}
use mc_admin.Service.{
  Reply, Call, Event, State, Env, Out, ok, raised, Error, Kind, Action, pure, raise, reraise,
  continue, recover_from, ◌>>=◌, ◌>>◌, attempt, best_effort, discard, get_state, match_option,
  set_operation, set_announced, port, tell, Order, order, Operation, Backups, get_backups,
  update_backups,
}

module _ (P : List Event → Type 0) where
  abbrev pub Holds : State → Type 0
  Holds s = P s.trace

  -- If the trace has the property before the action, it has it after, however the action ends.
  unfoldable pub Keeps : {A : Type 0} → Action A → Type 0
  Keeps {A} m = (s : State) → Holds s → Holds (m s).1

  pub Keeps-pure : {A : Type 0} (a : A) → Keeps (pure a)
  unfolding Keeps pure
  Keeps-pure a s h = h

  pub Keeps-raise : (A : Type 0) (k : Kind) (m : Text) → Keeps (raise {A = A} k m)
  unfolding Keeps raise
  Keeps-raise A k m s h = h

  pub Keeps-reraise : (A : Type 0) (e : Error) → Keeps (reraise {A = A} e)
  unfolding Keeps reraise
  Keeps-reraise A e s h = h

  pub Keeps-if :
      {A : Type 0} (b : Bool) (m n : Action A) → Keeps m → Keeps n → Keeps (if b then m else n)
  Keeps-if true m n p q = p
  Keeps-if false m n p q = q

  pub Keeps-match_option :
      {A B : Type 0} (o : Option B) (m : Action A) (f : B → Action A)
      → Keeps m
      → ((b : B) → Keeps (f b))
      → Keeps (match_option o m f)
  unfolding match_option
  Keeps-match_option none m f p q = p
  Keeps-match_option (some b) m f p q = q b

  continue-Keeps :
      {A B : Type 0} (f : A → Action B) (r : Out A) (s : State)
      → ((a : A) → Keeps (f a))
      → Holds s
      → Holds (continue f (r, s)).1
  unfolding Keeps
  continue-Keeps f (ok a) s q h = q a s h
  continue-Keeps f (raised e) s q h = h

  pub Keeps-bind :
      {A B : Type 0} (m : Action A) (f : A → Action B)
      → Keeps m
      → ((a : A) → Keeps (f a))
      → Keeps (m >>= f)
  unfolding Keeps ◌>>=◌
  Keeps-bind m f p q s h = continue-Keeps f (m s).0 (m s).1 q (p s h)

  recover-Keeps :
      {A B : Type 0} (handler : Error → Action B) (after : A → Action B) (r : Out A) (s : State)
      → ((e : Error) → Keeps (handler e))
      → ((a : A) → Keeps (after a))
      → Holds s
      → Holds (recover_from after handler (r, s)).1
  unfolding Keeps
  recover-Keeps handler after (ok a) s p q h = q a s h
  recover-Keeps handler after (raised e) s p q h = p e s h

  pub Keeps-attempt :
      {A B : Type 0} (m : Action A) (handler : Error → Action B) (after : A → Action B)
      → Keeps m
      → ((e : Error) → Keeps (handler e))
      → ((a : A) → Keeps (after a))
      → Keeps (attempt m handler after)
  unfolding Keeps attempt
  Keeps-attempt m handler after p q r s h = recover-Keeps handler after (m s).0 (m s).1 q r (p s h)

  pub Keeps-get_state : Keeps get_state
  unfolding Keeps get_state
  Keeps-get_state s h = h

  pub Keeps-set_operation : (o : Option Operation) → Keeps (set_operation o)
  unfolding Keeps set_operation
  Keeps-set_operation o s h = h

  pub Keeps-set_announced : (l : List Text) → Keeps (set_announced l)
  unfolding Keeps set_announced
  Keeps-set_announced l s h = h

  pub Keeps-get_backups : Keeps get_backups
  unfolding Keeps get_backups
  Keeps-get_backups s h = h

  pub Keeps-update_backups : (f : Backups → Backups) → Keeps (update_backups f)
  unfolding Keeps update_backups
  Keeps-update_backups f s h = h

  raise-Keeps :
      {A B C : Type 0} (k : Kind) (m : Text) (f : B → Action C) (r : Out A) (s : State)
      → Holds s
      → Holds (continue f (continue (λ _. raise k m) (r, s))).1
  unfolding raise
  raise-Keeps k m f (ok a) s h = h
  raise-Keeps k m f (raised e) s h = h

  pub Keeps-raise_last :
      {A B C : Type 0} (n : Action A) (k : Kind) (m : Text) (f : B → Action C)
      → Keeps n
      → Keeps ((n >> raise k m) >>= f)
  unfolding Keeps ◌>>=◌
  Keeps-raise_last n k m f p s h = raise-Keeps k m f (n s).0 (n s).1 (p s h)

  -- Whatever the call answers, the property stays.
  abbrev pub Stays : Call → Type 0
  Stays c =
      (answer : Out (Reply c)) (t : List Event)
      → P t
      → P ((record { call = c; answer = answer }) ∷ t)

  pub Keeps-port : ⦃env : Env⦄ → (c : Call) → Stays c → Keeps (port c)
  unfolding Keeps port
  Keeps-port ⦃env⦄ c stays s h = stays (env.answers s.trace c) s.trace h

  -- Nothing follows an exception.
  pub Keeps-raise_bind :
      {A B : Type 0} (k : Kind) (m : Text) (f : A → Action B) → Keeps (raise k m >>= f)
  unfolding Keeps raise ◌>>=◌
  Keeps-raise_bind k m f s h = h

  pub Keeps-tell : ⦃env : Env⦄ → (o : Order) → Stays (order o) → Keeps (tell o)
  unfolding tell
  Keeps-tell o = Keeps-port (order o)

  pub Keeps-best_effort : {A : Type 0} (m : Action A) → Keeps m → Keeps (best_effort m)
  unfolding best_effort
  Keeps-best_effort m p = Keeps-attempt m _ _ p (λ _. Keeps-pure tt) (λ _. Keeps-pure tt)

  pub Keeps-discard : {A : Type 0} (m : Action A) → Keeps m → Keeps (discard m)
  unfolding discard
  Keeps-discard m p = Keeps-bind m _ p (λ _. Keeps-pure tt)

pub ruleset keeps_rules = (
  Keeps-pure, Keeps-raise, Keeps-reraise, Keeps-if, Keeps-match_option, Keeps-bind, Keeps-attempt,
  Keeps-get_state, Keeps-set_operation, Keeps-set_announced, Keeps-best_effort, Keeps-discard,
  Keeps-get_backups, Keeps-update_backups,
)
