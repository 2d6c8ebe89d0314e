-- ===== src/Tests/Restore.antt =====
-- Restorations over worlds that are texts: a copy is the text itself, an archive is put in front.
use mc_admin.Base.{codes, List, [], ◌∷◌, ◌++◌, Text, true, false, none, some, ◌≡◌, refl}
use mc_admin.Restore.Machine.{Storage, Phase, Fate, fine, raises, killed}
use mc_admin.Restore.Transaction.{restore_transaction, recover}
use mc_admin.Restore.Transaction.Run.{Transacted, fresh, restore_transaction-Safe}
use mc_admin.Restore.Transaction.Torn.{
  Ended, restarted, restart_recovers, interrupted, killed_in_cleanup, torn_rollback_overwrites,
}

instance abbrev texts : Storage
texts = record {
  World = Text;
  View = Text;
  view = λ w. w;
  content = λ t. t;
  clone = λ w. w;
  overlay = λ t w. t ++ w;
  exact = λ r w. r;
  exact-clone = λ w v. refl;
  torn_removal = false;
  read_faults = false;
}

abbrev fragile : Storage
fragile = record texts { torn_removal = true; exact-clone = λ w v. refl }

-- The sixth operation, which stops the server, fails; the seventh is the marker of the rollback.
abbrev one_fault : List (Fate Text)
one_fault =
    fine
    ∷ fine
    ∷ fine
    ∷ fine
    ∷ fine
    ∷ raises (record { world = none; up = true })
    ∷ fine
    ∷ killed (record { world = none; up = true })
    ∷ []

restore_transaction-Safe_example : Transacted (codes "a.tar.gz") (codes "old") (
    restore_transaction true
      (codes "?")
      (some (codes "a.tar.gz"))
      (fresh (codes "old") none true one_fault))
restore_transaction-Safe_example =
    restore_transaction-Safe refl (codes "?") (codes "a.tar.gz") (codes "old") none one_fault

restart_recovers_example :
    Ended
      (codes "old")
      (codes "a.tar.gzold")
      (recover (codes "?") (
        restarted
          (restore_transaction true
            (codes "?")
            (some (codes "a.tar.gz"))
            (fresh (codes "old") none true one_fault)).1)).1
restart_recovers_example =
    restart_recovers refl refl (codes "?") (codes "a.tar.gz") (codes "old") none one_fault

torn_rollback_overwrites_example :
    let first =
      (recover ⦃st = fragile⦄ (codes "?") (
        interrupted ⦃st = fragile⦄ Phase.applied
          (codes "t")
          (codes "old")
          (codes "new")
          (killed_in_cleanup ⦃st = fragile⦄ (codes "ol")))).1 in
    (first.disk.live ≡ codes "old")
    × ((recover ⦃st = fragile⦄ (codes "?") (restarted ⦃st = fragile⦄ first)).1.disk.live
        ≡ codes "ol")
torn_rollback_overwrites_example =
    torn_rollback_overwrites ⦃st = fragile⦄ refl refl (codes "?") (codes "t") Phase.applied
      (codes "new") (codes "old") (codes "ol") refl
