-- ===== src/Service/Requests/Names.antt =====
-- The players that the game's commands name.
use mc_admin.Base.{List, [], ◌∷◌, ◌++◌, ◌≡◌, ◌⊎◌, Text, Bool, ℕ, Option, All}
use mc_admin.Access.{Permission, User}
use mc_admin.Service.{
  Env, Event, Call, game, State, levels_list, clock_now, closing_cancel, port, doorman_running,
  Order, order, tell, player_of,
}
use mc_admin.Service.Core.{refuse_if_maintenance}
use mc_admin.Service.Core.Names.{IsName, matches_name-IsName}
use mc_admin.Service.Actions.{restart, start}
use mc_admin.Service.Maintenance.{engage_maintenance, enter_maintenance, exit_maintenance}
use mc_admin.Service.Requests.{Request, perform}
use mc_admin.Service.Rules.{Keeps, keeps_rules, Stays, Keeps-port, Keeps-tell}
use mc_admin.Service.Requests.Ordinary.{
  Named, Ordinary, perform-Keeps, Keeps-authorize, Keeps-write_audit, Keeps-refuse_if_maintenance,
  Keeps-begin_op_levels_apply, Keeps-is_restoring, Keeps-doorman_unfit_issues,
}

abbrev AllNamed : List Event → Type 0
AllNamed = All (λ (e : Event). Named e.call)

-- Three to sixteen letters, digits and underscores, with at most a newline after them.
abbrev pub IsLegible : Text → Type 0
IsLegible s = IsName s ⊎ ((name : Text) × (s ≡ name ++ 10 ∷ []) × IsName name)

-- A command of the game names a player legibly.
abbrev pub Legible : Call → Type 0
Legible (game command) = IsLegible (player_of command)
Legible _ = Unit

abbrev pub AllLegible : List Event → Type 0
AllLegible = All (λ (e : Event). Legible e.call)

Named-Legible : (c : Call) → Named c → Legible c
Named-Legible (game command) h = (matches_name-IsName (player_of command)).0 h
Named-Legible _ h = tt

Legible-Named : (c : Call) → Legible c → Named c
Legible-Named (game command) h = (matches_name-IsName (player_of command)).1 h
Legible-Named _ h = tt

AllNamed-AllLegible : (t : List Event) → AllNamed t → AllLegible t
AllNamed-AllLegible [] h = tt
AllNamed-AllLegible (e ∷ t) h = (Named-Legible e.call h.0, AllNamed-AllLegible t h.1)

AllLegible-AllNamed : (t : List Event) → AllLegible t → AllNamed t
AllLegible-AllNamed [] h = tt
AllLegible-AllNamed (e ∷ t) h = (Legible-Named e.call h.0, AllLegible-AllNamed t h.1)

Named-Stays : (c : Call) → Named c → Stays AllNamed c
Named-Stays c valid answer t h = (valid, h)

Ordinary-Stays : (c : Call) → Ordinary c → Stays AllNamed c
Ordinary-Stays c fits = Named-Stays c fits.0

module _ ⦃env : Env⦄ where
  Keeps-order : (o : Order) → Keeps AllNamed (tell o)
  Keeps-order o = Keeps-tell AllNamed o (Named-Stays (order o) tt)

  Keeps-call : (c : Call) → Named c → Keeps AllNamed (port c)
  Keeps-call c valid = Keeps-port AllNamed c (Named-Stays c valid)

  watched_refusal :
      (user : User) (permission : Permission) (hint : Text)
      → Keeps AllNamed (refuse_if_maintenance user permission hint)
  watched_refusal user permission hint =
      Keeps-refuse_if_maintenance AllNamed Ordinary-Stays user permission hint
        (Keeps-call doorman_running tt)

  Keeps-engage_maintenance :
      (user : User) (motd kick_text requested_by operation_id : Text)
      → Keeps AllNamed (engage_maintenance user motd kick_text requested_by operation_id)
  unfolding engage_maintenance
  Keeps-engage_maintenance user motd kick_text requested_by operation_id =
      search
        (
          keeps_rules,
          Keeps-order,
          Keeps-write_audit AllNamed Ordinary-Stays,
          Keeps-call clock_now tt,
        )
        depth 24

  Keeps-restart :
      (user : User) (operation_id requested_by : Option Text)
      → Keeps AllNamed (restart user operation_id requested_by)
  unfolding restart
  Keeps-restart user operation_id requested_by =
      search
        (
          keeps_rules,
          Keeps-order,
          Keeps-authorize AllNamed Ordinary-Stays,
          Keeps-write_audit AllNamed Ordinary-Stays,
          watched_refusal,
          Keeps-begin_op_levels_apply AllNamed Ordinary-Stays,
          Keeps-call levels_list tt,
          Keeps-call clock_now tt,
        )
        depth 24

  Keeps-start : (user : User) → Keeps AllNamed (start user)
  unfolding start
  Keeps-start user =
      search
        (
          keeps_rules,
          Keeps-order,
          Keeps-authorize AllNamed Ordinary-Stays,
          Keeps-write_audit AllNamed Ordinary-Stays,
          watched_refusal,
          Keeps-begin_op_levels_apply AllNamed Ordinary-Stays,
          Keeps-call levels_list tt,
          Keeps-call clock_now tt,
        )
        depth 24

  Keeps-enter_maintenance :
      (user : User) (message until : Text) (grace : ℕ) (defer : Bool)
      → Keeps AllNamed (enter_maintenance user message until grace defer)
  unfolding enter_maintenance
  Keeps-enter_maintenance user message until grace defer =
      search
        (
          keeps_rules,
          Keeps-order,
          Keeps-authorize AllNamed Ordinary-Stays,
          Keeps-write_audit AllNamed Ordinary-Stays,
          Keeps-is_restoring AllNamed Ordinary-Stays,
          Keeps-doorman_unfit_issues AllNamed Ordinary-Stays,
          Keeps-engage_maintenance,
          Keeps-call doorman_running tt,
          Keeps-call clock_now tt,
        )
        depth 24

  Keeps-exit_maintenance : (user : User) → Keeps AllNamed (exit_maintenance user)
  unfolding exit_maintenance
  Keeps-exit_maintenance user =
      search
        (
          keeps_rules,
          Keeps-order,
          Keeps-authorize AllNamed Ordinary-Stays,
          Keeps-write_audit AllNamed Ordinary-Stays,
          Keeps-is_restoring AllNamed Ordinary-Stays,
          Keeps-call closing_cancel tt,
        )
        depth 24

-- A request makes the game run commands only on players named by three to sixteen letters, digits and
-- underscores, with at most a newline after them: if the calls before it keep to that, so do those
-- after it, whatever the ports answer.
pub commands_name_players :
    ⦃env : Env⦄ (user : User) (request : Request) (s : State)
    → AllLegible s.trace
    → AllLegible (perform user request s).1.trace
unfolding Keeps
commands_name_players user request s h = AllNamed-AllLegible (perform user request s).1.trace (
    perform-Keeps AllNamed Ordinary-Stays (Keeps-call doorman_running tt) Keeps-restart Keeps-start
      Keeps-enter_maintenance Keeps-exit_maintenance user request s (AllLegible-AllNamed s.trace h))
