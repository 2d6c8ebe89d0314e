-- ===== src/Service/Moderation/Sanctions.antt =====
-- The three methods of app/domain/services/moderation.py that end the timer of a ban.
use mc_admin.Base.{
  arith, ℕ, ◌+◌, ◌==◌, Text, true, false, List, [], ◌∷◌, ◌++◌, ◌≡◌, refl, All, inl, inr,
}
use mc_admin.Access.{Permission, User, can}
use mc_admin.Service.{
  Env, Event, Call, Out, ok, raised, Error, Action, State, Command, ban_command, pardon_command,
  game, order, audit_record, temp_bans_cancel, clock_now, attempt, ◌>>=◌, port, tell, pure,
  Out-cases,
}
use mc_admin.Service.Core.{authorize, validate_player_name, sanitize_reason, matches_name}
use mc_admin.Service.Moderation.{ban, ban_temporary, pardon, commanded}

pub data Sanction : Type 0 where
  permanent : Text → Sanction
  temporary : ℕ → Text → Sanction
  lifted : Sanction

pub apply_sanction : ⦃env : Env⦄ → User → Text → Sanction → Action Text
apply_sanction user name (permanent reason) = ban user name reason
apply_sanction user name (temporary hours reason) = ban_temporary user name (hours + 1) reason
apply_sanction user name lifted = pardon user name

pub command_of : Text → Sanction → Command
command_of name (permanent reason) = ban_command name (sanitize_reason reason)
command_of name (temporary hours reason) = ban_command name (sanitize_reason reason)
command_of name lifted = pardon_command name

abbrev pub NoAudit : Call → Type 0
NoAudit (order (audit_record _)) = ⊥
NoAudit _ = Unit

-- The method has raised, and none of its calls is a record of the audit.
pub record Unaudited (s : State) (r : Out Text × State) : Type 0 where
  pub reason : Error
  pub raises : r.0 ≡ raised reason
  pub calls : List Event
  pub added : r.1.trace ≡ calls ++ s.trace
  pub silent : All (λ (e : Event). NoAudit e.call) calls

nonzero : (hours : ℕ) → ((hours + 1) == 0) ≡ false
nonzero hours = ground arith

module _ ⦃env : Env⦄ (user : User) (name : Text) (permitted : can user Permission.ban_manage ≡ true)
    (valid : matches_name name ≡ true)
    (broken : (t : List Event)
      → (e : Error) × (env.answers t (order (temp_bans_cancel name)) ≡ raised e)) where
  -- A sanction that the game has carried out, of a player whose timer cannot be ended, raises and
  -- leaves nothing in the audit, be it a ban, a ban for some hours, or a pardon.
  pub sanction-Unaudited :
      (sanction : Sanction) (s : State) (result : Text)
      → env.answers s.trace (game (command_of name sanction)) ≡ ok result
      → Unaudited s (apply_sanction user name sanction s)
  unfolding apply_sanction command_of ban ban_temporary pardon commanded authorize
      validate_player_name attempt ◌>>=◌ port tell pure
  sanction-Unaudited (permanent reason) s result done =
      rw (permitted, valid, done, (broken _).1)
        (record {
          reason = _;
          raises = refl;
          calls = _ ∷ _ ∷ [];
          added = refl;
          silent = (tt, (tt, tt));
        })
  sanction-Unaudited (temporary hours reason) s result done =
      elim (Out-cases (
        env.answers
          ((record { call = game (command_of name (temporary hours reason)); answer = ok result })
            ∷ s.trace)
          clock_now)) [
            | inr (e, silent_clock) ↦
                rw (permitted, valid, nonzero hours, done, silent_clock)
                  (record {
                    reason = e;
                    raises = refl;
                    calls = _ ∷ _ ∷ [];
                    added = refl;
                    silent = (tt, (tt, tt));
                  })
            | inl (now, told) ↦
                rw (permitted, valid, nonzero hours, done, told, (broken _).1)
                  (record {
                    reason = _;
                    raises = refl;
                    calls = _ ∷ _ ∷ _ ∷ [];
                    added = refl;
                    silent = (tt, (tt, (tt, tt)));
                  })
          ]
  sanction-Unaudited lifted s result done =
      rw (permitted, valid, done, (broken _).1)
        (record {
          reason = _;
          raises = refl;
          calls = _ ∷ _ ∷ [];
          added = refl;
          silent = (tt, (tt, tt));
        })
