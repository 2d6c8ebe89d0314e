-- ===== src/Service/Archives/Ticks/Safety.antt =====
-- What is known after the archive of the backup that comes first has been validated.
use mc_admin.Base.{◌≡◌, refl, sym, Bool, true, false, not, Option, none, some, List, [], ◌∷◌, arith}
use mc_admin.Service.{
  BackupArchive, ArchiveCheck, PendingRestore, Event, State, Error, Env, archives_list,
  archive_validate,
}
use mc_admin.Service.Archives.{find_archive}
use mc_admin.Service.Archives.Ticks.{
  new_safety_archive, is_restorable, fits, accept, validate, validate_found, set_validating,
  validate_new_safety_archive,
}
use mc_admin.Service.Archives.Ticks.Triples.{
  Leads, Leads-pure, Leads-raise, Leads-reraise, Leads-if, Leads-bind, Leads-attempt,
}
use mc_admin.Service.Archives.Ticks.Known.{Aim, Stage, returned, Knows, Knows-weaken}
use mc_admin.Service.Archives.Ticks.Calls.{Leads-call, Leads-update}

not-false : (b : Bool) → not b ≡ false → b ≡ true
not-false b h = ground (arith, h)

module _ ⦃env : Env⦄ (o : Aim) (t0 : List Event) (J : Stage) (p : PendingRestore)
    (ks : List Event) where
  -- The newest archive that has been added is there as it was found good.
  pub record Validated (current : BackupArchive) (s : State) : Type 0 where
    pub archives : List BackupArchive
    pub archive : BackupArchive
    pub check : ArchiveCheck
    pub later : List BackupArchive
    pub added : new_safety_archive p archives ≡ some archive
    pub still_there : find_archive archive.filename later ≡ some current
    pub unchanged : fits check current ≡ true
    pub readable : check.is_ok ≡ true
    pub whole : is_restorable check ≡ true
    pub knows :
        Knows o t0 J
          (returned archives_list later
            ∷ (returned (archive_validate archive.filename) check
                ∷ (returned archives_list archives ∷ ks)))
          s

  forget : (js : List Event) (s : State) → Knows o t0 J js s → Knows o t0 J [] s
  forget js s k = Knows-weaken o t0 J J js s (λ _ _ h. h) k

  abbrev After : List Event → Error → State → Type 0
  After js e s = Knows o t0 J [] s

  module _ (archives : List BackupArchive) (archive : BackupArchive)
      (added : new_safety_archive p archives ≡ some archive) where
    Leads-accept :
        (check : ArchiveCheck) (later : List BackupArchive) (found : Option BackupArchive)
        → found ≡ find_archive archive.filename later
        → Leads
            (Knows o t0 J (
              returned archives_list later
              ∷ (returned (archive_validate archive.filename) check
                  ∷ (returned archives_list archives ∷ ks))))
            (accept check found)
            Validated
            (λ _. Knows o t0 J [])
    unfolding accept
    Leads-accept check later none e = Leads-raise _ _ _ _ _ (λ _ s k. forget _ s k)
    Leads-accept check later (some current) e =
        Leads-if _ _ _ (not (fits check current)) _ _
          (λ _. Leads-raise _ _ _ _ _ (λ _ s k. forget _ s k))
          (λ unchanged.
            Leads-if _ _ _ (not check.is_ok) _ _
              (λ _. Leads-raise _ _ _ _ _ (λ _ s k. forget _ s k))
              (λ readable.
                Leads-if _ _ _ (not (is_restorable check)) _ _
                  (λ _. Leads-raise _ _ _ _ _ (λ _ s k. forget _ s k))
                  (λ whole. Leads-pure _ _ _ _ (λ s k. record {
                    archives = archives;
                    archive = archive;
                    check = check;
                    later = later;
                    added = added;
                    still_there = sym e;
                    unchanged = not-false _ unchanged;
                    readable = not-false _ readable;
                    whole = not-false _ whole;
                    knows = k;
                  }))))

    Leads-validate :
        Leads
          (Knows o t0 J (returned archives_list archives ∷ ks))
          (validate archive.filename)
          (λ check. Knows o t0 J (
            returned (archive_validate archive.filename) check
            ∷ (returned archives_list archives ∷ ks)))
          (λ _. Knows o t0 J [])
    unfolding validate set_validating
    Leads-validate =
        Leads-bind _ _ _ _ (λ _. Knows o t0 J []) _ _
          (Leads-update o t0 J (returned archives_list archives ∷ ks) J _ _ (λ b h. h))
          (λ _.
            Leads-attempt _ _ _ _ (λ _. Knows o t0 J []) _ _ _
              (Leads-call o t0 J (returned archives_list archives ∷ ks)
                (archive_validate archive.filename) tt)
              (λ e.
                Leads-bind _ _ _ _ (λ _. Knows o t0 J []) _ _
                  (Leads-update o t0 J [] J _ _ (λ b h. h)) (λ _. Leads-reraise _ _ _ e (λ s k. k)))
              (λ check.
                Leads-bind _ _ _ _ (λ _. Knows o t0 J []) _ _
                  (Leads-update o t0 J _ J _ _ (λ b h. h))
                  (λ _. Leads-pure _ _ _ check (λ s k. k))))

  Leads-validate_found :
      (archives : List BackupArchive) (found : Option BackupArchive)
      → found ≡ new_safety_archive p archives
      → Leads
          (Knows o t0 J (returned archives_list archives ∷ ks))
          (validate_found found)
          Validated
          (λ _. Knows o t0 J [])
  unfolding validate_found
  Leads-validate_found archives none e = Leads-raise _ _ _ _ _ (λ _ s k. forget _ s k)
  Leads-validate_found archives (some archive) e =
      Leads-if _ _ _ (not env.has_validator) _ _
        (λ _. Leads-raise _ _ _ _ _ (λ _ s k. forget _ s k))
        (λ _.
          Leads-bind _ _ _ _ (λ _. Knows o t0 J []) _ _ (Leads-validate archives archive (sym e))
            (λ check.
              Leads-bind _ _ _ _ (λ _. Knows o t0 J []) _ _ (Leads-call o t0 J _ archives_list tt)
                (λ later. Leads-accept archives archive (sym e) check later _ refl)))

  pub Leads-validate_new_safety_archive :
      Leads (Knows o t0 J ks) (validate_new_safety_archive p) Validated (λ _. Knows o t0 J [])
  unfolding validate_new_safety_archive
  Leads-validate_new_safety_archive =
      Leads-bind _ _ _ _ (λ _. Knows o t0 J []) _ _ (Leads-call o t0 J ks archives_list tt)
        (λ archives. Leads-validate_found archives _ refl)
