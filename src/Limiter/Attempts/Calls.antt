-- ===== src/Limiter/Attempts/Calls.antt =====
-- The states that the callers of `LoginAttemptLimiter` can bring about, and what holds in each.
use mc_admin.Base.{ℕ, ◌≡◌, Option, none, some, Text, Option-cases, inl, inr, subst}
use mc_admin.Limiter.Keys.{Settings, Library, pair_Eq, text_Ordered, pair_Ordered}
use mc_admin.Base.Dict.{text_Eq}
use mc_admin.Limiter.Attempts.{Limiter, create, begin, failure, success, cancel, ◌>>=◌}
use mc_admin.Limiter.Attempts.Balance.{IsBalanced, Returns}
use mc_admin.Limiter.Attempts.Steps.{
  create-IsBalanced, begin-Begun, Begun, failure-IsBalanced, success-IsBalanced, cancel-IsBalanced,
}

-- A call of a method, with the reading of the clock at which it takes the lock.
pub data Call : Type 0 where
  begin_call : ℕ → Text → Text → Call
  failure_call : ℕ → ℕ → Call
  success_call : ℕ → ℕ → Call
  cancel_call : ℕ → ℕ → Call

unfoldable pub run : Library → Settings → Call → Limiter → Option Limiter
run lib c (begin_call now client_ip username) s =
    begin lib c now client_ip username s >>= λ r. some r.1
run lib c (failure_call now token) s = failure c now token s
run lib c (success_call now token) s = success c now token s
run lib c (cancel_call now token) s = cancel now token s

pub data Reachable (lib : Library) (c : Settings) : Limiter → Type 0 where
  created : (s : Limiter) → create c ≡ some s → Reachable lib c s
  called :
      (call : Call) (s s' : Limiter)
      → Reachable lib c s
      → run lib c call s ≡ some s'
      → Reachable lib c s'

Begun-Returns :
    (c : Settings) (o : Option (Option ℕ × Limiter))
    → Begun c o
    → Returns (IsBalanced c) (o >>= λ r. some r.1)
unfolding Begun
Begun-Returns c none h = h
Begun-Returns c (some r) h = h

run-Returns :
    (lib : Library) (c : Settings) (call : Call) (s : Limiter)
    → IsBalanced c s
    → Returns (IsBalanced c) (run lib c call s)
unfolding run
run-Returns lib c (begin_call now client_ip username) s h =
    Begun-Returns c _ (begin-Begun c lib now client_ip username s h)
run-Returns lib c (failure_call now token) s h = failure-IsBalanced c now token s h
run-Returns lib c (success_call now token) s h = success-IsBalanced c now token s h
run-Returns lib c (cancel_call now token) s h = cancel-IsBalanced c now token s h

-- In every state that calls can bring about, each bucket of a pair or of an IP counts exactly the
-- live leases of its key, no bucket has more failures and attempts in flight than its maximum,
-- the two dicts have at most as many keys as configured, and no token is given twice.
pub Reachable-IsBalanced :
    (lib : Library) (c : Settings) (s : Limiter) → Reachable lib c s → IsBalanced c s
Reachable-IsBalanced lib c s (created _ e) = create-IsBalanced c s e
Reachable-IsBalanced lib c s (called call s' _ before e) =
    subst (Returns (IsBalanced c)) e
      (run-Returns lib c call s' (Reachable-IsBalanced lib c s' before))

-- From every state that calls can bring about, every call of a method returns: a lease whose
-- buckets have been evicted or dropped, which would be a `KeyError`, does not happen.
pub calls_return :
    (lib : Library) (c : Settings) (s : Limiter) (call : Call)
    → Reachable lib c s
    → (s' : Limiter) × (run lib c call s ≡ some s') × Reachable lib c s'
calls_return lib c s call before = elim (Option-cases (run lib c call s)) [
  | inl raised ↦ absurd (
      subst (Returns (IsBalanced c)) raised
        (run-Returns lib c call s (Reachable-IsBalanced lib c s before)))
  | inr (s', e) ↦ (s', e, called call s s' before e)
]
