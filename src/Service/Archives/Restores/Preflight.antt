-- ===== src/Service/Archives/Restores/Preflight.antt =====
-- What is known after a preflight that finds nothing against a restoration.
use mc_admin.Base.{
  ◌≡◌, ◌⊎◌, inl, inr, refl, sym, ◌∙◌, arith, Bool-cases, Text, Bool, true, false, ◌||◌, Option,
  none, some, List, [], ◌∷◌, ◌++◌, if◌then◌else◌,
}
use mc_admin.Service.{
  BackupArchive, ArchiveCheck, PendingMaintenance, Event, State, Error, Env, Action, pure, ◌>>=◌,
  match_option, port, archives_list, check_status, restore_worker_running, doorman_running,
  closing_status, maker_running, Maker, safety_backup, profile_backup, restore_worker_issues,
}
use mc_admin.Service.Archives.{find_archive}
use mc_admin.Service.Archives.Restores.{
  when, some_issues, port_running, worker_state_issues, doorman_issues, closing_issues,
  maker_issues, restore_archive_issues,
}
use mc_admin.Service.Archives.Ticks.Triples.{
  Leads, Leads-pure, Leads-raise, Leads-if, Leads-bind, Leads-attempt, Leads-pre, Leads-post,
}
use mc_admin.Service.Archives.Ticks.Known.{Aim, Stage, returned, Knows, Knows-weaken}
use mc_admin.Service.Archives.Ticks.Calls.{Leads-call}
use mc_admin.Service.Archives.Ticks.Target.{
  IsGood, Checked, against, good, Leads-restore_archive_issues,
}

some_issues-append :
    (xs ys : List Text) → some_issues (xs ++ ys) ≡ (some_issues xs || some_issues ys)
unfolding some_issues
some_issues-append [] ys = refl
some_issues-append (x ∷ xs) ys = refl

pub no_issues-append :
    (xs ys : List Text)
    → some_issues (xs ++ ys) ≡ false
    → (some_issues xs ≡ false) × (some_issues ys ≡ false)
no_issues-append xs ys h =
    let parts : (some_issues xs || some_issues ys) ≡ false = sym (some_issues-append xs ys) ∙ h in
    (ground (arith, parts), ground (arith, parts))

pub no_issues-when : (b : Bool) (t : Text) → some_issues (when b t) ≡ false → b ≡ false
unfolding some_issues when
no_issues-when true t h = h
no_issues-when false t h = refl

-- An event that is made if a port is configured.
abbrev pub if_any : Bool → Event → List Event → List Event
if_any true e ks = e ∷ ks
if_any false e ks = ks

-- The archive of a name, and a verdict on it that is good.
pub record Target (filename : Text) : Type 0 where
  pub archives : List BackupArchive
  pub archive : BackupArchive
  pub check : ArchiveCheck
  pub found : find_archive filename archives ≡ some archive
  pub is_good : IsGood archive check

abbrev pub seen : (filename : Text) → Target filename → List Event → List Event
seen filename t ks =
    returned (check_status filename) (some t.check) ∷ (returned archives_list t.archives ∷ ks)

-- What the worker has answered of itself when nothing is found against it, if it is asked.
abbrev pub IntegrityAnswer : ⦃env : Env⦄ → Type 0
IntegrityAnswer ⦃env⦄ =
    (env.has_integrity ≡ false) ⊎ ((issues : List Text) × (some_issues issues ≡ false))

abbrev pub asked : ⦃env : Env⦄ → IntegrityAnswer → List Event → List Event
asked (inl unasked) ks = ks
asked (inr (issues, nothing)) ks = returned restore_worker_issues issues ∷ ks

module _ ⦃env : Env⦄ (o : Aim) (t0 : List Event) (J : Stage) where
  abbrev K : List Event → State → Type 0
  K ks = Knows o t0 J ks

  abbrev Lost : Error → State → Type 0
  Lost e = K []

  -- Something has been found, or this is known.
  abbrev pub Gate : Bool → (State → Type 0) → State → Type 0
  Gate b P s = ((b ≡ true) × K [] s) ⊎ P s

  forget : (ks : List Event) (s : State) → K ks s → K [] s
  forget ks s k = Knows-weaken o t0 J J ks s (λ _ _ h. h) k

  pub Leads-Gate :
      (b : Bool) (P P' : State → Type 0) (m : Action (List Text))
      → Leads P m (λ l. Gate (some_issues l) P') Lost
      → Leads (K []) m (λ _. K []) Lost
      → Leads (Gate b P) m (λ l. Gate (b || some_issues l) P') Lost
  unfolding Leads
  Leads-Gate b P P' m opens calm s (inl (blocked, k)) =
      Leads-post (K []) (λ _. K []) Lost _ _ m (λ l s' k'. inl (ground (arith, blocked), k'))
        (λ _ _ h. h) calm s k
  Leads-Gate b P P' m opens calm s (inr p) =
      Leads-post P (λ l. Gate (some_issues l) P') Lost _ _ m (λ l s' g. wider l s' g) (λ _ _ h. h)
        opens s p
    where
      wider :
          (l : List Text) (s' : State)
          → Gate (some_issues l) P' s'
          → Gate (b || some_issues l) P' s'
      wider l s' (inl (found, k)) = inl (ground (arith, found), k)
      wider l s' (inr p) = inr p

  -- What is known of each is known of some.
  pub Leads-some :
      {X : Type 0} (P P' : X → State → Type 0) (m : Action (List Text))
      → ((x : X) → Leads (P x) m (λ l. Gate (some_issues l) (P' x)) Lost)
      → Leads (λ s. (x : X) × P x s) m (λ l. Gate (some_issues l) (λ s. (x : X) × P' x s)) Lost
  unfolding Leads
  Leads-some P P' m each s (x, p) =
      Leads-post (P x) (λ l. Gate (some_issues l) (P' x)) Lost _ _ m (λ l s' g. wider l s' g)
        (λ _ _ h. h) (each x) s p
    where
      wider :
          (l : List Text) (s' : State)
          → Gate (some_issues l) (P' x) s'
          → Gate (some_issues l) (λ s. (x : _) × P' x s) s'
      wider l s' (inl found) = inl found
      wider l s' (inr p) = inr (x, p)

  pub Leads-opened :
      (P : State → Type 0) (m : Action (List Text))
      → Leads (K []) m (λ l. Gate (some_issues l) P) Lost
      → ((s : State) → P s → K [] s)
      → Leads (K []) m (λ _. K []) Lost
  Leads-opened P m opens f = Leads-post _ _ _ _ _ m (λ l s g. closed l s g) (λ _ _ h. h) opens
    where
      closed : (l : List Text) (s : State) → Gate (some_issues l) P s → K [] s
      closed l s (inl found) = found.1
      closed l s (inr p) = f s p

  -- A port that says whether it runs gives an issue, or it has said that it does not.
  Leads-running :
      (m : Action Bool) (answer : Bool → Event) (label issue : Text) (ks : List Event)
      → Leads (K ks) m (λ running. K (answer running ∷ ks)) Lost
      → Leads
          (K ks)
          (port_running m label >>= λ running. pure (when running issue))
          (λ l. Gate (some_issues l) (K (answer false ∷ ks)))
          Lost
  unfolding port_running some_issues when
  Leads-running m answer label issue ks h =
      Leads-bind _ (λ running. K (answer running ∷ ks)) _ _ Lost _ _
        (Leads-attempt _ (λ running. K (answer running ∷ ks)) _ _ Lost _ _ _ h
          (λ e. Leads-raise _ _ _ _ _ (λ _ s k. k)) (λ running. Leads-pure _ _ _ _ (λ s k. k)))
        (λ running. Leads-pure _ _ _ _ (λ s k. told running s k))
    where
      told :
          (running : Bool) (s : State)
          → K (answer running ∷ ks) s
          → Gate (some_issues (when running issue)) (K (answer false ∷ ks)) s
      told true s k = inl (refl, forget _ s k)
      told false s k = inr k

  Leads-none : (ks : List Event) → Leads (K ks) (pure []) (λ l. Gate (some_issues l) (K ks)) Lost
  Leads-none ks = Leads-pure _ _ _ _ (λ s k. inr k)

  Leads-one :
      (issue : Text) (ks : List Event) (P : State → Type 0)
      → Leads (K ks) (pure (issue ∷ [])) (λ l. Gate (some_issues l) P) Lost
  unfolding some_issues
  Leads-one issue ks P = Leads-pure _ _ _ _ (λ s k. inl (refl, forget ks s k))

  Leads-configured :
      (has : Bool) (m : Action (List Text)) (e : Event) (ks : List Event)
      → Leads (K ks) m (λ l. Gate (some_issues l) (K (e ∷ ks))) Lost
      → Leads
          (K ks)
          (if has then m else pure [])
          (λ l. Gate (some_issues l) (K (if_any has e ks)))
          Lost
  Leads-configured true m e ks h = h
  Leads-configured false m e ks h = Leads-none ks

  pub Leads-worker_state_issues :
      (ks : List Event)
      → Leads
          (K ks)
          worker_state_issues
          (λ l. Gate (some_issues l) (K (returned restore_worker_running false ∷ ks)))
          Lost
  unfolding worker_state_issues
  Leads-worker_state_issues ks =
      Leads-if _ _ _ env.has_restore _ _
        (λ _.
          Leads-running _ (returned restore_worker_running) _ _ ks
            (Leads-call o t0 J ks restore_worker_running tt))
        (λ _. Leads-one _ ks _)

  pub Leads-doorman_issues :
      (ks : List Event)
      → Leads
          (K ks)
          doorman_issues
          (λ l.
            Gate (some_issues l) (K (if_any env.has_doorman (returned doorman_running false) ks)))
          Lost
  unfolding doorman_issues some_issues when
  Leads-doorman_issues ks = Leads-configured env.has_doorman _ _ ks (
      Leads-attempt _ (λ running. K (returned doorman_running running ∷ ks)) _ _ Lost _ _ _
        (Leads-call o t0 J ks doorman_running tt) (λ e. Leads-one _ [] _)
        (λ running. Leads-pure _ _ _ _ (λ s k. told _ running s k)))
    where
      told :
          (issue : Text) (running : Bool) (s : State)
          → K (returned doorman_running running ∷ ks) s
          → Gate (some_issues (when running issue)) (K (returned doorman_running false ∷ ks)) s
      told issue true s k = inl (refl, forget _ s k)
      told issue false s k = inr k

  pub Leads-closing_issues :
      (ks : List Event)
      → Leads
          (K ks)
          closing_issues
          (λ l. Gate (some_issues l) (K (if_any env.has_closing (returned closing_status none) ks)))
          Lost
  unfolding closing_issues match_option
  Leads-closing_issues ks = Leads-configured env.has_closing _ _ ks (
      Leads-bind _ (λ status. K (returned closing_status status ∷ ks)) _ _ Lost _ _
        (Leads-call o t0 J ks closing_status tt) (λ status. by_status _ status))
    where
      by_status :
          (issue : Text) (status : Option PendingMaintenance)
          → Leads
              (K (returned closing_status status ∷ ks))
              (match_option status (pure []) (λ _. pure (issue ∷ [])))
              (λ l. Gate (some_issues l) (K (returned closing_status none ∷ ks)))
              Lost
      by_status issue none = Leads-pure _ _ _ _ (λ s k. inr k)
      by_status issue (some announced) =
          Leads-pre _ _ _ _ _ (λ s k. forget _ s k) (Leads-one issue [] _)

  Leads-maker_issues :
      (maker : Maker) (label : Text) (ks : List Event)
      → Leads
          (K ks)
          (maker_issues maker label)
          (λ l. Gate (some_issues l) (K (returned (maker_running maker) false ∷ ks)))
          Lost
  unfolding maker_issues
  Leads-maker_issues maker label ks =
      Leads-running _ (returned (maker_running maker)) label _ ks
        (Leads-call o t0 J ks (maker_running maker) tt)

  pub Leads-safety_issues :
      (label : Text) (ks : List Event)
      → Leads
          (K ks)
          (maker_issues safety_backup label)
          (λ l. Gate (some_issues l) (K (returned (maker_running safety_backup) false ∷ ks)))
          Lost
  Leads-safety_issues = Leads-maker_issues safety_backup

  pub Leads-profile_issues :
      (label : Text) (ks : List Event)
      → Leads
          (K ks)
          (if env.has_profile_backup then maker_issues profile_backup label else pure [])
          (λ l.
            Gate (some_issues l) (
              K (if_any env.has_profile_backup (returned (maker_running profile_backup) false) ks)))
          Lost
  Leads-profile_issues label ks =
      Leads-configured env.has_profile_backup _ _ ks (Leads-maker_issues profile_backup label ks)

  pub Leads-integrity_issues :
      (ks : List Event)
      → Leads
          (K ks)
          (if env.has_integrity then port restore_worker_issues else pure [])
          (λ l. Gate (some_issues l) (λ s. (answer : IntegrityAnswer) × K (asked answer ks) s))
          Lost
  Leads-integrity_issues ks =
      Leads-if _ _ _ env.has_integrity _ _
        (λ _.
          Leads-post _ _ _ _ _ _ (λ l s k. told l s k) (λ _ _ h. h)
            (Leads-call o t0 J ks restore_worker_issues tt))
        (λ unasked. Leads-pure _ _ _ _ (λ s k. inr (inl unasked, k)))
    where
      told :
          (l : List Text) (s : State)
          → K (returned restore_worker_issues l ∷ ks) s
          → Gate (some_issues l) (λ s. (answer : IntegrityAnswer) × K (asked answer ks) s) s
      told l s k = elim (Bool-cases (some_issues l)) [
        | inl found ↦ inl (found, forget _ s k)
        | inr nothing ↦ inr (inr (l, nothing), k)
      ]

  pub Leads-archive_issues :
      (filename : Text) (ks : List Event)
      → Leads
          (K ks)
          (restore_archive_issues filename)
          (λ l. Gate (some_issues l) (λ s. (t : Target filename) × K (seen filename t ks) s))
          Lost
  Leads-archive_issues filename ks =
      Leads-post _ _ _ _ _ _ (λ l s c. by_verdict l s c) (λ _ _ h. h)
        (Leads-restore_archive_issues o t0 J filename ks)
    where
      by_verdict :
          (l : List Text) (s : State)
          → Checked o t0 J filename ks l s
          → Gate (some_issues l) (λ s. (t : Target filename) × K (seen filename t ks) s) s
      by_verdict l s (against found k) = inl (found, k)
      by_verdict l s (good archives archive check found is_good k) = inr (
        (record {
          archives = archives;
          archive = archive;
          check = check;
          found = found;
          is_good = is_good;
        }),
        k,
      )
