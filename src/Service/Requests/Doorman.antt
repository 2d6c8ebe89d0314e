-- ===== src/Service/Requests/Doorman.antt =====
-- The order in which the requests stop and start the server and send for the doorman.
pub mod Ticks
use mc_admin.Base.{
  arith, List, [], ◌∷◌, Text, ℕ, Bool, true, false, Option, ◌≡◌, refl, if◌then◌else◌, ◌∙◌,
}
use mc_admin.Access.{Permission, User}
use mc_admin.Service.{
  Env, Event, Call, Reply, Out, ok, raised, Error, Action, State, levels_list, clock_now,
  closing_cancel, port, doorman_running, Order, order, tell, container_start, container_restart,
  container_stop, doorman_engage, doorman_release, ◌>>=◌, attempt, continue, recover_from, pure,
}
use mc_admin.Service.Core.{refuse_if_maintenance, refuse}
use mc_admin.Service.Actions.{restart, start}
use mc_admin.Service.Maintenance.{engage_maintenance, enter_maintenance, exit_maintenance}
use mc_admin.Service.Requests.{Request, perform}
use mc_admin.Service.Rules.{
  Keeps, keeps_rules, Stays, Keeps-port, Keeps-tell, Keeps-raise_last, Keeps-bind,
}
use mc_admin.Service.Requests.Ordinary.{
  Distant, Ordinary, perform-Keeps, Keeps-authorize, Keeps-write_audit, Keeps-begin_op_levels_apply,
  Keeps-is_restoring, Keeps-doorman_unfit_issues, Keeps-Ordinary, Keeps-order,
}

-- What a call tells of the doorman: in post or not, as far as it was answered.
pub manned_after : (c : Call) → Out (Reply c) → Bool → Bool
manned_after doorman_running (ok running) b = running
manned_after doorman_running (raised _) b = false
manned_after (order (doorman_engage _ _)) (ok _) b = true
manned_after (order (doorman_engage _ _)) (raised _) b = false
manned_after (order doorman_release) (ok _) b = false
manned_after _ _ b = b

-- The last that was heard is that the doorman is in post.
pub manned : List Event → Bool
manned [] = false
manned (e ∷ t) = manned_after e.call e.answer (manned t)

pub stopped_after : (c : Call) → Out (Reply c) → Bool → Bool
stopped_after (order (container_stop _)) (ok _) b = true
stopped_after (order container_start) _ b = false
stopped_after (order container_restart) _ b = false
stopped_after _ _ b = b

-- The last that the server was told is to stop, and it did.
pub stopped : List Event → Bool
stopped [] = false
stopped (e ∷ t) = stopped_after e.call e.answer (stopped t)

-- The server is started while the doorman is not known to be in post, the doorman is sent for
-- once the server has stopped.
pub InTurn : Call → List Event → Type 0
InTurn (order container_start) t = manned t ≡ false
InTurn (order container_restart) t = manned t ≡ false
InTurn (order (doorman_engage _ _)) t = stopped t ≡ true
InTurn _ t = Unit

unfoldable pub Orderly : List Event → Type 0
Orderly [] = Unit
Orderly (e ∷ t) = InTurn e.call t × Orderly t

Free : List Event → Type 0
Free t = (manned t ≡ false) × Orderly t

Halted : List Event → Type 0
Halted t = (stopped t ≡ true) × Orderly t

Distant-after :
    (c : Call) (answer : Out (Reply c)) (t : List Event)
    → Distant c
    → (manned_after c answer (manned t) ≡ manned t)
      × (stopped_after c answer (stopped t) ≡ stopped t)
      × InTurn c t
unfolding manned_after stopped_after InTurn
Distant-after doorman_running answer t d = absurd d
Distant-after (order container_start) answer t d = absurd d
Distant-after (order container_restart) answer t d = absurd d
Distant-after (order (container_stop _)) answer t d = absurd d
Distant-after (order (doorman_engage _ _)) answer t d = absurd d
Distant-after (order doorman_release) answer t d = absurd d
Distant-after _ answer t d = (refl, refl, tt)

Ordinary-Orderly : (c : Call) → Ordinary c → Stays Orderly c
unfolding Orderly
Ordinary-Orderly c fits answer t h = ((Distant-after c answer t fits.1).2, h)

Ordinary-Free : (c : Call) → Ordinary c → Stays Free c
unfolding Free Orderly manned
Ordinary-Free c fits answer t h = let q = Distant-after c answer t fits.1 in (q.0 ∙ h.0, (q.2, h.1))

Ordinary-Halted : (c : Call) → Ordinary c → Stays Halted c
unfolding Halted Orderly stopped
Ordinary-Halted c fits answer t h =
    let q = Distant-after c answer t fits.1 in (q.1 ∙ h.0, (q.2, h.1))

-- What follows an order that returned is done in the state that the order made.
module _ {A : Type 0} (P Q : List Event → Type 0) (o : Order) (handler : Error → Action A)
    (after : Unit {0} → Action A)
    (fails : (e : Error) (t : List Event)
      → P t
      → P ((record { call = order o; answer = raised e }) ∷ t))
    (works : (t : List Event) → P t → Q ((record { call = order o; answer = ok tt }) ∷ t))
    (weaker : (t : List Event) → Q t → P t) (handled : (e : Error) → Keeps P (handler e))
    (followed : Keeps Q (after tt)) where
  answered :
      (answer : Out (Unit {0})) (s : State)
      → P s.trace
      → P
          (recover_from after handler (
            answer,
            record s { trace = (record { call = order o; answer = answer }) ∷ s.trace },
          )).1.trace
  unfolding Keeps
  answered (ok x) s h = weaker _ (followed _ (works s.trace h))
  answered (raised e) s h = handled e _ (fails e s.trace h)

  Keeps-ordered : ⦃env : Env⦄ → Keeps P (attempt (tell o) handler after)
  unfolding Keeps attempt tell port
  Keeps-ordered ⦃env⦄ s h = answered (env.answers s.trace (order o)) s h

module _ ⦃env : Env⦄ where
  watched : Keeps Orderly (port doorman_running)
  unfolding Orderly InTurn
  watched = Keeps-port Orderly doorman_running (λ answer t h. (tt, h))

  start_kept : Keeps Free (tell container_start)
  unfolding Free Orderly InTurn manned manned_after
  start_kept = Keeps-tell Free container_start (λ answer t h. (h.0, (h.0, h.1)))

  restart_kept : Keeps Free (tell container_restart)
  unfolding Free Orderly InTurn manned manned_after
  restart_kept = Keeps-tell Free container_restart (λ answer t h. (h.0, (h.0, h.1)))

  engage_kept : (motd kick_text : Text) → Keeps Halted (tell (doorman_engage motd kick_text))
  unfolding Halted Orderly InTurn stopped stopped_after
  engage_kept motd kick_text =
      Keeps-tell Halted (doorman_engage motd kick_text) (λ answer t h. (h.0, (h.0, h.1)))

  Keeps-stopped :
      {A : Type 0} (seconds : ℕ) (handler : Error → Action A) (after : Unit {0} → Action A)
      → ((e : Error) → Keeps Orderly (handler e))
      → Keeps Halted (after tt)
      → Keeps Orderly (attempt (tell (container_stop seconds)) handler after)
  unfolding Halted Orderly InTurn stopped stopped_after
  Keeps-stopped seconds handler after handled followed =
      Keeps-ordered Orderly Halted (container_stop seconds) handler after (λ e t h. (tt, h))
        (λ t h. (refl, (tt, h))) (λ t h. h.1) handled followed

  Keeps-released :
      {A : Type 0} (handler : Error → Action A) (after : Unit {0} → Action A)
      → ((e : Error) → Keeps Orderly (handler e))
      → Keeps Free (after tt)
      → Keeps Orderly (attempt (tell doorman_release) handler after)
  unfolding Free Orderly InTurn manned manned_after
  Keeps-released handler after handled followed =
      Keeps-ordered Orderly Free doorman_release handler after (λ e t h. (tt, h))
        (λ t h. (refl, (tt, h))) (λ t h. h.1) handled followed

  engage-Keeps :
      (user : User) (motd kick_text requested_by operation_id : Text)
      → Keeps Orderly (engage_maintenance user motd kick_text requested_by operation_id)
  unfolding engage_maintenance
  engage-Keeps user motd kick_text requested_by operation_id =
      search
        (
          keeps_rules,
          Keeps-order Orderly Ordinary-Orderly,
          Keeps-write_audit Orderly Ordinary-Orderly,
          Keeps-Ordinary Orderly Ordinary-Orderly clock_now (tt, tt),
          Keeps-stopped,
          engage_kept,
          Keeps-order Halted Ordinary-Halted,
          Keeps-write_audit Halted Ordinary-Halted,
        )
        depth 24

  exit-Keeps : (user : User) → Keeps Orderly (exit_maintenance user)
  unfolding exit_maintenance
  exit-Keeps user =
      search
        (
          keeps_rules,
          Keeps-order Orderly Ordinary-Orderly,
          Keeps-authorize Orderly Ordinary-Orderly,
          Keeps-write_audit Orderly Ordinary-Orderly,
          Keeps-is_restoring Orderly Ordinary-Orderly,
          Keeps-Ordinary Orderly Ordinary-Orderly closing_cancel (tt, tt),
          Keeps-released,
          start_kept,
          Keeps-order Free Ordinary-Free,
          Keeps-write_audit Free Ordinary-Free,
        )
        depth 24

  enter-Keeps :
      (user : User) (message until : Text) (grace : ℕ) (defer : Bool)
      → Keeps Orderly (enter_maintenance user message until grace defer)
  unfolding enter_maintenance
  enter-Keeps user message until grace defer =
      search
        (
          keeps_rules,
          Keeps-order Orderly Ordinary-Orderly,
          Keeps-authorize Orderly Ordinary-Orderly,
          Keeps-write_audit Orderly Ordinary-Orderly,
          Keeps-is_restoring Orderly Ordinary-Orderly,
          Keeps-doorman_unfit_issues Orderly Ordinary-Orderly,
          watched,
          engage-Keeps,
          Keeps-Ordinary Orderly Ordinary-Orderly clock_now (tt, tt),
        )
        depth 24

  -- After the refusal of a maintenance, the doorman is not known to be in post.
  module _ (user : User) (permission : Permission) (hint : Text) where
    abbrev refusal : Bool → Action Unit
    refusal running = if running then refuse user permission hint else pure tt

    refused :
        {A : Type 0} (rest : Unit {0} → Action A)
        → Keeps Orderly (refuse user permission hint >>= rest)
    unfolding refuse
    refused rest =
        Keeps-raise_last Orderly _ _ _ rest
          (Keeps-write_audit Orderly Ordinary-Orderly user permission _ _)

    heard :
        {A : Type 0} (rest : Unit {0} → Action A) (answer : Out Bool) (s : State)
        → Keeps Free (rest tt)
        → Orderly s.trace
        → Orderly
            (continue rest (
              recover_from refusal
                (λ _. pure tt)
                (
                  answer,
                  record s {
                    trace = (record { call = doorman_running; answer = answer }) ∷ s.trace;
                  },
                ))).1.trace
    unfolding Keeps Free Orderly InTurn manned manned_after pure ◌>>=◌
    heard rest (raised e) s keep h = (keep _ (refl, (tt, h))).1
    heard rest (ok false) s keep h = (keep _ (refl, (tt, h))).1
    heard rest (ok true) s keep h =
        refused rest
          (record s { trace = (record { call = doorman_running; answer = ok true }) ∷ s.trace })
          (tt, h)

    where_wired :
        {A : Type 0} (b : Bool) (m n : Action Unit) (rest : Unit {0} → Action A)
        → b ≡ true
        → Keeps Orderly (m >>= rest)
        → Keeps Orderly ((if b then m else n) >>= rest)
    where_wired true m n rest wired keep = keep
    where_wired false m n rest wired keep = ground arith

    Keeps-refused :
        {A : Type 0} (rest : Unit {0} → Action A)
        → env.has_doorman ≡ true
        → Keeps Free (rest tt)
        → Keeps Orderly (refuse_if_maintenance user permission hint >>= rest)
    unfolding refuse_if_maintenance Keeps ◌>>=◌ attempt port
    Keeps-refused rest wired keep =
        where_wired env.has_doorman _ _ rest wired
          (λ s h. heard rest (env.answers s.trace doorman_running) s keep h)

  module _ (wired : env.has_doorman ≡ true) where
    restart-Keeps :
        (user : User) (operation_id requested_by : Option Text)
        → Keeps Orderly (restart user operation_id requested_by)
    unfolding restart
    restart-Keeps user operation_id requested_by =
        Keeps-bind Orderly _ _ (Keeps-authorize Orderly Ordinary-Orderly user _) (λ _.
          Keeps-refused user _ _ _ wired (
            search
              (
                keeps_rules,
                Keeps-order Free Ordinary-Free,
                Keeps-write_audit Free Ordinary-Free,
                Keeps-begin_op_levels_apply Free Ordinary-Free,
                restart_kept,
                Keeps-Ordinary Free Ordinary-Free levels_list (tt, tt),
                Keeps-Ordinary Free Ordinary-Free clock_now (tt, tt),
              )
              depth 24))

    start-Keeps : (user : User) → Keeps Orderly (start user)
    unfolding start
    start-Keeps user =
        Keeps-bind Orderly _ _ (Keeps-authorize Orderly Ordinary-Orderly user _) (λ _.
          Keeps-refused user _ _ _ wired (
            search
              (
                keeps_rules,
                Keeps-order Free Ordinary-Free,
                Keeps-write_audit Free Ordinary-Free,
                Keeps-begin_op_levels_apply Free Ordinary-Free,
                start_kept,
                Keeps-Ordinary Free Ordinary-Free levels_list (tt, tt),
                Keeps-Ordinary Free Ordinary-Free clock_now (tt, tt),
              )
              depth 24))

-- Where a doorman is configured, no request starts or restarts the server while the last that was
-- heard is that the doorman is in post, nor sends for the doorman before the server was stopped,
-- whatever the ports answer or fail: if the calls before it were in this order, so are those after.
pub requests_take_turns :
    ⦃env : Env⦄ (user : User) (request : Request) (s : State)
    → env.has_doorman ≡ true
    → Orderly s.trace
    → Orderly (perform user request s).1.trace
unfolding Keeps
requests_take_turns user request s wired h =
    perform-Keeps Orderly Ordinary-Orderly watched (restart-Keeps wired) (start-Keeps wired)
      enter-Keeps exit-Keeps user request s h
