-- ===== src/Service/Archives/Ticks/Target.antt =====
-- What is known after the check of the archive to restore finds nothing against it.
use mc_admin.Base.{
  ◌≡◌, inl, inr, refl, sym, arith, Text, Bool, true, false, not, Option, none, some, List, [], ◌∷◌,
  ◌==◌, ==_iff, Bool-cases,
}
use mc_admin.Service.{
  BackupArchive, ArchiveCheck, Event, State, Env, archives_list, archive_path, check_status,
  checks_checking,
}
use mc_admin.Service.Archives.{find_archive}
use mc_admin.Service.Archives.Restores.{
  some_issues, verdict_issues, restorable_issues, checked_issues, located_issues,
  restore_archive_issues,
}
use mc_admin.Service.Archives.Ticks.Triples.{Leads, Leads-pure, Leads-if, Leads-bind, Leads-attempt}
use mc_admin.Service.Archives.Ticks.Known.{Aim, Stage, returned, Knows, Knows-weaken, Knows-tail}
use mc_admin.Service.Archives.Ticks.Calls.{Leads-call}

-- A verdict that fits an archive and is good.
pub record IsGood (archive : BackupArchive) (check : ArchiveCheck) : Type 0 where
  pub same_size : check.size_bytes ≡ archive.size_bytes
  pub same_time : check.archive_created_at ≡ archive.created_at
  pub readable : check.is_ok ≡ true
  pub restorable : check.restorable ≡ some true

restorable_good :
    (check : ArchiveCheck) (r : Option Bool)
    → some_issues (restorable_issues check r) ≡ false
    → (check.is_ok ≡ true) × (r ≡ some true)
unfolding some_issues restorable_issues
restorable_good check none h = ground (arith, h)
restorable_good check (some true) h = ground (arith, h)
restorable_good check (some false) h = ground (arith, h)

no_issues :
    (filename : Text) (archive : BackupArchive) (check : ArchiveCheck) (checking : Option Text)
    → some_issues (verdict_issues filename archive (some check) checking) ≡ false
    → IsGood archive check
unfolding verdict_issues some_issues
no_issues filename archive check checking h =
    let (sizes, (times, rest)) = parts in
    let (readable, restorable) = restorable_good check check.restorable rest in
    record {
      same_size = (==_iff _ _).0 sizes;
      same_time = (==_iff _ _).0 times;
      readable = readable;
      restorable = restorable;
    }
  where
    parts :
        ((check.size_bytes == archive.size_bytes) ≡ true)
        × (((check.archive_created_at == archive.created_at) ≡ true)
            × (some_issues (restorable_issues check check.restorable) ≡ false))
    parts = (ground (arith, h), (ground (arith, h), ground (arith, h)))

module _ ⦃env : Env⦄ (o : Aim) (t0 : List Event) (J : Stage) (filename : Text) where
  -- Something is found against the archive, or it is known to be there with a good verdict.
  pub data Checked (ks : List Event) (issues : List Text) (s : State) : Type 0 where
    against : some_issues issues ≡ true → Knows o t0 J [] s → Checked ks issues s
    good :
        (archives : List BackupArchive) (archive : BackupArchive) (check : ArchiveCheck)
        → find_archive filename archives ≡ some archive
        → IsGood archive check
        → Knows o t0 J
            (returned (check_status filename) (some check) ∷ (returned archives_list archives ∷ ks))
            s
        → Checked ks issues s

  Checked-against :
      (ks : List Event) (issue : Text) (s : State) → Knows o t0 J [] s → Checked ks (issue ∷ []) s
  unfolding some_issues
  Checked-against ks issue s k = against refl k

  forget : (ks : List Event) (s : State) → Knows o t0 J ks s → Knows o t0 J [] s
  forget ks s k = Knows-weaken o t0 J J ks s (λ _ _ h. h) k

  abbrev Found : List Event → Option BackupArchive → State → Type 0
  Found ks found s =
      (archives : List BackupArchive) × ((found ≡ find_archive filename archives)
        × Knows o t0 J (returned archives_list archives ∷ ks) s)

  by_verdict :
      (ks : List Event) (archives : List BackupArchive) (archive : BackupArchive)
      (check : Option ArchiveCheck) (checking : Option Text) (s : State)
      → some archive ≡ find_archive filename archives
      → Knows o t0 J
          (returned (check_status filename) check ∷ (returned archives_list archives ∷ ks))
          s
      → Checked ks (verdict_issues filename archive check checking) s
  unfolding verdict_issues some_issues
  by_verdict ks archives archive none checking s found k = against (ground arith) (forget _ s k)
  by_verdict ks archives archive (some check) checking s found k =
      elim (Bool-cases (some_issues (verdict_issues filename archive (some check) checking))) [
        | inl some_against ↦ against some_against (forget _ s k)
        | inr nothing ↦
            good archives archive check (sym found)
              (no_issues filename archive check checking nothing) k
      ]

  module _ (ks : List Event) (archive : BackupArchive) (archives : List BackupArchive)
      (found : some archive ≡ find_archive filename archives) where
    here : List Event
    here = returned archives_list archives ∷ ks

    Leads-with_verdict :
        Leads
          (Knows o t0 J (returned archives_list archives ∷ ks))
          (checked_issues filename archive)
          (Checked ks)
          (λ _. Knows o t0 J [])
    unfolding checked_issues here
    Leads-with_verdict =
        Leads-if _ _ _ (not env.has_checks) _ _
          (λ _. Leads-pure _ _ _ _ (λ s k. Checked-against ks _ s (forget _ s k)))
          (λ _.
            Leads-attempt (Knows o t0 J here)
              (λ pair. Knows o t0 J (returned (check_status filename) pair.0 ∷ here)) (Checked ks)
              (λ _. Knows o t0 J []) (λ _. Knows o t0 J []) _ _ _
              (Leads-bind _ _ _ _ (λ _. Knows o t0 J []) _ _
                (Leads-call o t0 J here (check_status filename) tt)
                (λ check.
                  Leads-bind _ _ _ _ (λ _. Knows o t0 J []) _ _
                    (Leads-call o t0 J (returned (check_status filename) check ∷ here)
                      checks_checking tt)
                    (λ checking. Leads-pure _ _ _ _ (λ s k. Knows-tail o t0 J _ _ s k))))
              (λ e. Leads-pure _ _ _ _ (λ s k. Checked-against ks _ s k))
              (λ pair.
                Leads-pure _ _ _ _ (λ s k. by_verdict ks archives archive pair.0 pair.1 s found k)))

  Leads-checked_issues :
      (ks : List Event) (archive : BackupArchive)
      → Leads
          (Found ks (some archive))
          (checked_issues filename archive)
          (Checked ks)
          (λ _. Knows o t0 J [])
  unfolding Leads
  Leads-checked_issues ks archive s f = Leads-with_verdict ks archive f.0 f.1.0 s f.1.1

  pub Leads-restore_archive_issues :
      (ks : List Event)
      → Leads
          (Knows o t0 J ks)
          (restore_archive_issues filename)
          (Checked ks)
          (λ _. Knows o t0 J [])
  unfolding restore_archive_issues located_issues
  Leads-restore_archive_issues ks =
      Leads-attempt (Knows o t0 J ks) (λ found. Found ks found.0) (Checked ks)
        (λ _. Knows o t0 J []) (λ _. Knows o t0 J []) _ _ _
        (Leads-bind _ _ _ _ (λ _. Knows o t0 J []) _ _ (Leads-call o t0 J ks archives_list tt)
          (λ archives.
            Leads-bind _ _ _ _ (λ _. Knows o t0 J []) _ _
              (Leads-call o t0 J (returned archives_list archives ∷ ks) (archive_path filename) tt)
              (λ path. Leads-pure _ _ _ _ (λ s k. (archives, (refl, Knows-tail o t0 J _ _ s k))))))
        (λ e. Leads-pure _ _ _ _ (λ s k. Checked-against ks _ s k))
        (λ found. located found.0 found.1)
    where
      located :
          (found : Option BackupArchive) (path : Option Text)
          → Leads
              (Found ks found)
              (located_issues filename found path)
              (Checked ks)
              (λ _. Knows o t0 J [])
      located none path = Leads-pure _ _ _ _ (λ s f. Checked-against ks _ s (forget _ s f.1.1))
      located (some archive) none =
          Leads-pure _ _ _ _ (λ s f. Checked-against ks _ s (forget _ s f.1.1))
      located (some archive) (some path) = Leads-checked_issues ks archive
