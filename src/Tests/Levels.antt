-- ===== src/Tests/Levels.antt =====
-- Requests for the levels of operators: of one player that ops.json has, and of one that it has not.
use mc_admin.Base.{
  ℕ, Text, codes, true, false, none, some, [], ◌∷◌, ◌≡◌, ◌⊎◌, refl, ◌<◌, ltb, text_eq, ◌+◌,
  if◌then◌else◌,
}
use mc_admin.Base.Dict.{get, put, text_Eq}
use mc_admin.Levels.{Item, Entry, Lower}
use mc_admin.Levels.Dicts.{last_of, update, put_all, set_defaults, values, sorted}
use mc_admin.Levels.Machine.{
  World, Site, Faults, fine, raises, killed, Phase, ok, effect, catch, ◌>>=◌, get_world, modify,
}
use mc_admin.Levels.Store.{claim, complete_claim, set_level, remove}
use mc_admin.Limiter.Keys.{text_before}
use mc_admin.Levels.Store.Laws.{HasRequestOr, IsRemoved, store-Refines}
use mc_admin.Levels.Entries.{
  apply_requested_levels, apply_all, count_changed, request_for, unmatched, has_level, is_for,
}
use mc_admin.Levels.Entries.Laws.{Treated, apply_requested_levels-Applied}
use mc_admin.Levels.Worker.{
  apply_pending_levels, recover_interrupted, cleanup, write_state, stop, start, set_stopped,
}
use mc_admin.Levels.Worker.Safe.{Safe}
use mc_admin.Levels.Worker.Run.{apply_pending_levels-Safe}
use mc_admin.Levels.Worker.Recovery.{recover_interrupted-Safe}
use mc_admin.Levels.Worker.Forgotten.{commit_fails, no_faults, failed_commit_forgets}

-- The lower case of the ASCII letters.
abbrev lower_char : ℕ → ℕ
lower_char c = if ltb 64 c then (if ltb c 91 then c + 32 else c) else c

abbrev lower_text : Text → Text
lower_text [] = []
lower_text (c ∷ t) = lower_char c ∷ lower_text t

instance abbrev ascii : Lower
ascii = record { lower = lower_text }

abbrev three : Item
three = record { name = codes "Bob"; level = 3 }

abbrev bob : Text
bob = codes "bob"

abbrev entry : Text → ℕ → Entry
entry name level = record { name = some name; level = some level; others = [] }

abbrev asked_for_bob : World
asked_for_bob = record {
  pending = (bob, three) ∷ [];
  applying = [];
  ops = entry (codes "Bob") 1 ∷ (entry (codes "Ann") 4 ∷ []);
  rollback = none;
  marker = none;
  running = true;
  may_be_stopped = false;
  copy_ready = false;
}

-- Starting the server fails, and the process is killed while the requests are put back.
abbrev killed_midway : Faults
killed_midway = record {
  fate = λ site. elim site [
    | Site.start_server ↦ raises false
    | Site.restore_applying ↦ killed false
    | _ ↦ fine
  ];
}

abbrev unreadable_then_killed : Faults
unreadable_then_killed = record {
  fate = λ site. elim site [ Site.clean_rollback ↦ killed true | _ ↦ fine ];
}

abbrev interrupted : World
interrupted = record asked_for_bob {
  pending = [];
  applying = (bob, three) ∷ [];
  rollback = some asked_for_bob.ops;
  marker = some (record { phase = Phase.applied; requested = three ∷ []; unresolved = [] });
}

committed_result : (apply_pending_levels ⦃faults = no_faults⦄ true asked_for_bob).0 ≡ ok (1, 0)
unfolding apply_pending_levels recover_interrupted claim complete_claim cleanup write_state stop
    start set_stopped apply_requested_levels apply_all count_changed request_for unmatched has_level
    is_for update put_all set_defaults values sorted effect catch ◌>>=◌ get_world modify get put
    text_eq text_before
committed_result = refl

apply_pending_levels-Safe_example :
    Safe bob three (apply_pending_levels ⦃faults = killed_midway⦄ true asked_for_bob).1
unfolding get text_eq
apply_pending_levels-Safe_example =
    apply_pending_levels-Safe ⦃faults = killed_midway⦄ bob three
      (λ b e. cc e, λ b e. cc e, λ b e. cc e, λ b e. cc e) true asked_for_bob
      (((refl, tt), (refl, tt)), (tt, tt)) refl refl refl

recover_interrupted-Safe_example :
    Safe bob three (recover_interrupted ⦃faults = unreadable_then_killed⦄ interrupted).1
unfolding get last_of text_eq
recover_interrupted-Safe_example =
    recover_interrupted-Safe ⦃faults = unreadable_then_killed⦄ bob three interrupted (λ b e. cc e)
      (((tt, tt), ((refl, tt), (refl, tt))), (refl, refl))

failed_commit_forgets_example :
    let after =
      recover_interrupted ⦃faults = no_faults⦄
        (apply_pending_levels ⦃faults = commit_fails⦄ true asked_for_bob).1 in
    (after.0 ≡ ok tt)
    × (after.1.ops ≡ asked_for_bob.ops)
    × (get bob after.1.pending ≡ none)
    × (get bob after.1.applying ≡ none)
unfolding is_for text_eq
failed_commit_forgets_example = failed_commit_forgets asked_for_bob bob refl refl refl

apply_requested_levels-Applied_example :
    let (after, (changed, unresolved)) = apply_requested_levels asked_for_bob.ops (three ∷ []) in
    Treated bob (last_of bob (three ∷ [])) asked_for_bob.ops after unresolved
    × ((0 < changed) ⊎ (after ≡ asked_for_bob.ops))
apply_requested_levels-Applied_example =
    apply_requested_levels-Applied asked_for_bob.ops (three ∷ []) bob

store-Refines_example :
    HasRequestOr (codes "Bob") 2 asked_for_bob (set_level (codes "Bob") 2 asked_for_bob)
    × IsRemoved (codes "Bob") asked_for_bob (remove (codes "Bob") asked_for_bob)
unfolding get
store-Refines_example =
    store-Refines (codes "Bob") 2 asked_for_bob (((refl, tt), (refl, tt)), (tt, tt))
