-- ===== src/Service/Archives/Ticks/Triples.antt =====
-- What an action leads to, whether it returns or raises, and what is known of the calls that it
-- has made since a trace.
use mc_admin.Base.{
  ◌≡◌, refl, sym, ap, ◌∙◌, Text, Bool, true, false, Option, none, some, List, [], ◌∷◌, ◌++◌, All,
  if◌then◌else◌,
}
use mc_admin.Service.{
  Call, Order, order, restore_start, safety_trigger, Event, Out, ok, raised, Error, Kind, Backups,
  State, Env, Action, pure, raise, reraise, continue, recover_from, ◌>>=◌, attempt, match_option,
  port, tell, get_backups, update_backups,
}

abbrev pub Ends :
    {A : Type 0} → (A → State → Type 0) → (Error → State → Type 0) → Out A × State → Type 0
Ends Q R (ok a, s) = Q a s
Ends Q R (raised e, s) = R e s

-- From a state with the first property, what it returns has the second, and what it raises the third.
unfoldable pub Leads :
    {A : Type 0}
    → (State → Type 0)
    → Action A
    → (A → State → Type 0)
    → (Error → State → Type 0)
    → Type 0
Leads P m Q R = (s : State) → P s → Ends Q R (m s)

module _ {A : Type 0} (P : State → Type 0) (Q : A → State → Type 0)
    (R : Error → State → Type 0) where
  pub Leads-pure : (a : A) → ((s : State) → P s → Q a s) → Leads P (pure a) Q R
  unfolding Leads pure
  Leads-pure a h = h

  pub Leads-raise :
      (k : Kind) (m : Text) → ((e : Error) (s : State) → P s → R e s) → Leads P (raise k m) Q R
  unfolding Leads raise
  Leads-raise k m h s p = h _ s p

  pub Leads-reraise : (e : Error) → ((s : State) → P s → R e s) → Leads P (reraise e) Q R
  unfolding Leads reraise
  Leads-reraise e h = h

  pub Leads-if :
      (b : Bool) (m n : Action A)
      → (b ≡ true → Leads P m Q R)
      → (b ≡ false → Leads P n Q R)
      → Leads P (if b then m else n) Q R
  Leads-if true m n p q = p refl
  Leads-if false m n p q = q refl

  pub Leads-pre :
      (P' : State → Type 0) (m : Action A)
      → ((s : State) → P' s → P s)
      → Leads P m Q R
      → Leads P' m Q R
  unfolding Leads
  Leads-pre P' m f h s p = h s (f s p)

  post_Ends :
      (Q' : A → State → Type 0) (R' : Error → State → Type 0) (r : Out A) (s : State)
      → ((a : A) (s : State) → Q a s → Q' a s)
      → ((e : Error) (s : State) → R e s → R' e s)
      → Ends Q R (r, s)
      → Ends Q' R' (r, s)
  post_Ends Q' R' (ok a) s f g h = f a s h
  post_Ends Q' R' (raised e) s f g h = g e s h

  pub Leads-post :
      (Q' : A → State → Type 0) (R' : Error → State → Type 0) (m : Action A)
      → ((a : A) (s : State) → Q a s → Q' a s)
      → ((e : Error) (s : State) → R e s → R' e s)
      → Leads P m Q R
      → Leads P m Q' R'
  unfolding Leads
  Leads-post Q' R' m f g h s p = post_Ends Q' R' (m s).0 (m s).1 f g (h s p)

module _ {A B : Type 0} (P : State → Type 0) (Q : A → State → Type 0) (Q' : B → State → Type 0)
    (R R' : Error → State → Type 0) where
  continue-Ends :
      (f : A → Action B) (r : Out A) (s : State)
      → ((a : A) → Leads (Q a) (f a) Q' R)
      → Ends Q R (r, s)
      → Ends Q' R (continue f (r, s))
  unfolding Leads
  continue-Ends f (ok a) s q h = q a s h
  continue-Ends f (raised e) s q h = h

  pub Leads-bind :
      (m : Action A) (f : A → Action B)
      → Leads P m Q R
      → ((a : A) → Leads (Q a) (f a) Q' R)
      → Leads P (m >>= f) Q' R
  unfolding Leads ◌>>=◌
  Leads-bind m f p q s h = continue-Ends f (m s).0 (m s).1 q (p s h)

  recover-Ends :
      (handler : Error → Action B) (after : A → Action B) (r : Out A) (s : State)
      → ((e : Error) → Leads (R' e) (handler e) Q' R)
      → ((a : A) → Leads (Q a) (after a) Q' R)
      → Ends Q R' (r, s)
      → Ends Q' R (recover_from after handler (r, s))
  unfolding Leads
  recover-Ends handler after (ok a) s p q h = q a s h
  recover-Ends handler after (raised e) s p q h = p e s h

  pub Leads-attempt :
      (m : Action A) (handler : Error → Action B) (after : A → Action B)
      → Leads P m Q R'
      → ((e : Error) → Leads (R' e) (handler e) Q' R)
      → ((a : A) → Leads (Q a) (after a) Q' R)
      → Leads P (attempt m handler after) Q' R
  unfolding Leads attempt
  Leads-attempt m handler after p q r s h = recover-Ends handler after (m s).0 (m s).1 q r (p s h)

abbrev pub Mild : Call → Type 0
Mild (order (restore_start _)) = ⊥
Mild safety_trigger = ⊥
Mild _ = Unit

-- Calls have been made, none of which starts the worker of restorations or the backup that comes
-- first, and what the service keeps of a restoration is as it was.
pub record Mildly (s s' : State) : Type 0 where
  pub calls : List Event
  pub added : s'.trace ≡ calls ++ s.trace
  pub mild : All (λ (e : Event). Mild e.call) calls
  pub same_pending : s'.backups.pending ≡ s.backups.pending
  pub same_operation : s'.backups.operation ≡ s.backups.operation

append_assoc : (xs ys zs : List Event) → (xs ++ ys) ++ zs ≡ xs ++ (ys ++ zs)
append_assoc [] ys zs = refl
append_assoc (x ∷ xs) ys zs = ap (λ (l : List Event). x ∷ l) (append_assoc xs ys zs)

All-append : (P : Event → Type 0) (xs ys : List Event) → All P xs → All P ys → All P (xs ++ ys)
All-append P [] ys h k = k
All-append P (x ∷ xs) ys h k = (h.0, All-append P xs ys h.1 k)

pub Mildly-refl : (s : State) → Mildly s s
Mildly-refl s = record {
  calls = [];
  added = refl;
  mild = tt;
  same_pending = refl;
  same_operation = refl;
}

Mildly-trans : (s t u : State) → Mildly s t → Mildly t u → Mildly s u
Mildly-trans s t u m n = record {
  calls = n.calls ++ m.calls;
  added =
      n.added
      ∙ ap (λ (l : List Event). n.calls ++ l) m.added
      ∙ sym (append_assoc n.calls m.calls s.trace);
  mild = All-append (λ (e : Event). Mild e.call) n.calls m.calls n.mild m.mild;
  same_pending = n.same_pending ∙ m.same_pending;
  same_operation = n.same_operation ∙ m.same_operation;
}

unfoldable pub Quiet : {A : Type 0} → Action A → Type 0
Quiet m = (s : State) → Mildly s (m s).1

pub Quiet-pure : {A : Type 0} (a : A) → Quiet (pure a)
unfolding Quiet pure
Quiet-pure a s = Mildly-refl s

pub Quiet-raise : (A : Type 0) (k : Kind) (m : Text) → Quiet (raise {A = A} k m)
unfolding Quiet raise
Quiet-raise A k m s = Mildly-refl s

pub Quiet-reraise : (A : Type 0) (e : Error) → Quiet (reraise {A = A} e)
unfolding Quiet reraise
Quiet-reraise A e s = Mildly-refl s

pub Quiet-get_backups : Quiet get_backups
unfolding Quiet get_backups
Quiet-get_backups s = Mildly-refl s

pub Quiet-if :
    {A : Type 0} (b : Bool) (m n : Action A) → Quiet m → Quiet n → Quiet (if b then m else n)
Quiet-if true m n p q = p
Quiet-if false m n p q = q

pub Quiet-match_option :
    {A B : Type 0} (o : Option B) (m : Action A) (f : B → Action A)
    → Quiet m
    → ((b : B) → Quiet (f b))
    → Quiet (match_option o m f)
unfolding match_option
Quiet-match_option none m f p q = p
Quiet-match_option (some b) m f p q = q b

pub Quiet-update_backups :
    (f : Backups → Backups)
    → ((b : Backups) → ((f b).pending ≡ b.pending) × ((f b).operation ≡ b.operation))
    → Quiet (update_backups f)
unfolding Quiet update_backups
Quiet-update_backups f h s = record {
  calls = [];
  added = refl;
  mild = tt;
  same_pending = (h s.backups).0;
  same_operation = (h s.backups).1;
}

continue-Mildly :
    {A B : Type 0} (f : A → Action B) (r : Out A) (s t : State)
    → ((a : A) → Quiet (f a))
    → Mildly s t
    → Mildly s (continue f (r, t)).1
unfolding Quiet
continue-Mildly f (ok a) s t q h = Mildly-trans s t (f a t).1 h (q a t)
continue-Mildly f (raised e) s t q h = h

pub Quiet-bind :
    {A B : Type 0} (m : Action A) (f : A → Action B)
    → Quiet m
    → ((a : A) → Quiet (f a))
    → Quiet (m >>= f)
unfolding Quiet ◌>>=◌
Quiet-bind m f p q s = continue-Mildly f (m s).0 s (m s).1 q (p s)

recover-Mildly :
    {A B : Type 0} (handler : Error → Action B) (after : A → Action B) (r : Out A) (s t : State)
    → ((e : Error) → Quiet (handler e))
    → ((a : A) → Quiet (after a))
    → Mildly s t
    → Mildly s (recover_from after handler (r, t)).1
unfolding Quiet
recover-Mildly handler after (ok a) s t p q h = Mildly-trans s t (after a t).1 h (q a t)
recover-Mildly handler after (raised e) s t p q h = Mildly-trans s t (handler e t).1 h (p e t)

pub Quiet-attempt :
    {A B : Type 0} (m : Action A) (handler : Error → Action B) (after : A → Action B)
    → Quiet m
    → ((e : Error) → Quiet (handler e))
    → ((a : A) → Quiet (after a))
    → Quiet (attempt m handler after)
unfolding Quiet attempt
Quiet-attempt m handler after p q r s = recover-Mildly handler after (m s).0 s (m s).1 q r (p s)

pub Quiet-port : ⦃env : Env⦄ → (c : Call) → Mild c → Quiet (port c)
unfolding Quiet port
Quiet-port ⦃env⦄ c fits s = record {
  calls = (record { call = c; answer = env.answers s.trace c }) ∷ [];
  added = refl;
  mild = (fits, tt);
  same_pending = refl;
  same_operation = refl;
}

pub Quiet-tell : ⦃env : Env⦄ → (o : Order) → Mild (order o) → Quiet (tell o)
unfolding tell
Quiet-tell o fits = Quiet-port (order o) fits

pub ruleset quiet_rules = (
  Quiet-pure, Quiet-raise, Quiet-reraise, Quiet-get_backups, Quiet-if, Quiet-match_option,
  Quiet-bind, Quiet-attempt,
)
