-- ===== src/Service/Archives/Restores/Passed.antt =====
-- The whole preflight: with no issue, every test of it has been passed.
use mc_admin.Base.{
  ◌≡◌, inl, inr, refl, arith, Bool-cases, Text, Bool, true, false, ◌||◌, Option, none, some, List,
  [], ◌∷◌, ◌++◌,
}
use mc_admin.Service.{
  PendingRestore, Event, State, Error, Env, Action, Backups, ◌>>=◌, get_backups,
  restore_worker_running, doorman_running, closing_status, maker_running, safety_backup,
  profile_backup,
}
use mc_admin.Service.Archives.Restores.{
  when, is_active, is_pending, some_issues, pending_issues, restore_preflight_issues,
}
use mc_admin.Service.Archives.Restores.Preflight.{
  no_issues-append, no_issues-when, if_any, IntegrityAnswer, asked, Target, seen, Gate, Leads-Gate,
  Leads-some, Leads-opened, Leads-worker_state_issues, Leads-doorman_issues, Leads-closing_issues,
  Leads-archive_issues, Leads-safety_issues, Leads-profile_issues, Leads-integrity_issues,
}
use mc_admin.Service.Archives.Ticks.Triples.{Leads, Leads-pure, Leads-bind, Leads-pre}
use mc_admin.Service.Archives.Ticks.Known.{asking, Stage, returned, Knows, Knows-weaken}

-- The restoration that waits, and the state of the operation that is followed, allow another.
pub record IsIdle ⦃env : Env⦄ (b : Backups) : Type 0 where
  pub coordinated : env.has_pending_restore ≡ true
  pub free : b.pending ≡ none
  pub inactive : is_active b.operation ≡ false

pub Leads-fact :
    {A : Type 0} (X : Type 0) (P : State → Type 0) (m : Action A) (Q : A → State → Type 0)
    (R : Error → State → Type 0)
    → (X → Leads P m Q R)
    → Leads (λ s. X × P s) m Q R
unfolding Leads
Leads-fact X P m Q R h s (x, p) = h x s p

pending_issues-none :
    ⦃env : Env⦄ (b : Backups)
    → some_issues (pending_issues b) ≡ false
    → (env.has_pending_restore ≡ true) × (is_pending b.pending ≡ false)
unfolding pending_issues some_issues when
pending_issues-none b h = (ground (arith, h), ground (arith, h))

not_pending : (p : Option PendingRestore) → is_pending p ≡ false → p ≡ none
unfolding is_pending
not_pending none h = refl
not_pending (some p) h = ground (arith, h)

module _ ⦃env : Env⦄ (filename : Text) where
  -- What has been answered up to the archive, and up to the end.
  abbrev pub before_target : List Event
  before_target = if_any env.has_closing (returned closing_status none) (
      if_any env.has_doorman (returned doorman_running false)
        (returned restore_worker_running false ∷ []))

  abbrev pub tested : Target filename → List Event
  tested t =
      if_any env.has_profile_backup (returned (maker_running profile_backup) false)
        (returned (maker_running safety_backup) false ∷ seen filename t before_target)

  abbrev pub passed : Target filename → IntegrityAnswer → List Event
  passed t answer = asked answer (tested t)

module _ ⦃env : Env⦄ (filename : Text) (t0 : List Event) (J : Stage) where
  abbrev K : List Event → State → Type 0
  K ks = Knows (asking env filename) t0 J ks

  closing_parts :
      (b : Backups)
      (active worker validator doorman closing archive safety profile integrity : List Text)
      → some_issues (
          active
          ++ (pending_issues b
              ++ (worker
                  ++ (validator
                      ++ (doorman
                          ++ (closing ++ (archive ++ (safety ++ (profile ++ integrity)))))))))
        ≡ false
      → (some_issues active ≡ false)
        × ((some_issues (pending_issues b) ≡ false)
            × (((((((some_issues worker || some_issues doorman) || some_issues closing)
                        || some_issues archive)
                      || some_issues safety)
                    || some_issues profile)
                  || some_issues integrity)
                ≡ false))
  closing_parts b active worker validator doorman closing archive safety profile integrity h =
      let (h1, r1) = no_issues-append active _ h in
      let (h2, r2) = no_issues-append (pending_issues b) _ r1 in
      let (h3, r3) = no_issues-append worker _ r2 in
      let (h4, r4) = no_issues-append validator _ r3 in
      let (h5, r5) = no_issues-append doorman _ r4 in
      let (h6, r6) = no_issues-append closing _ r5 in
      let (h7, r7) = no_issues-append archive _ r6 in
      let (h8, r8) = no_issues-append safety _ r7 in
      let (h9, h10) = no_issues-append profile integrity r8 in
      (h1, (h2, ground (arith, h3, h5, h6, h7, h8, h9, h10)))

  forget : (ks : List Event) (s : State) → K ks s → K [] s
  forget ks s k = Knows-weaken (asking env filename) t0 J J ks s (λ _ _ h. h) k

  -- Something is found against the restoration, or the tests have all been passed.
  pub data Findings (issues : List Text) (s : State) : Type 0 where
    found : some_issues issues ≡ true → K [] s → Findings issues s
    clear :
        (b : Backups) (t : Target filename) (answer : IntegrityAnswer)
        → J b.pending b.operation
        → IsIdle b
        → K (passed filename t answer) s
        → Findings issues s

  Leads-get_backups :
      (R : Error → State → Type 0)
      → Leads (K []) get_backups (λ b s. J b.pending b.operation × K [] s) R
  unfolding Leads get_backups
  Leads-get_backups R s k = (k.waits, k)

  abbrev Ending : Bool → State → Type 0
  Ending flag =
      Gate (asking env filename) t0 J flag
        (λ s. (t : Target filename) × ((answer : IntegrityAnswer) × K (passed filename t answer) s))

  verdict :
      (b : Backups)
      (active worker validator doorman closing archive safety profile integrity : List Text)
      (s : State)
      → ((some_issues active ≡ false) → is_active b.operation ≡ false)
      → J b.pending b.operation
      → Ending
          ((((((some_issues worker || some_issues doorman) || some_issues closing)
                  || some_issues archive)
                || some_issues safety)
              || some_issues profile)
            || some_issues integrity)
          s
      → Findings
          (active
            ++ (pending_issues b
                ++ (worker
                    ++ (validator
                        ++ (doorman
                            ++ (closing ++ (archive ++ (safety ++ (profile ++ integrity)))))))))
          s
  verdict b active worker validator doorman closing archive safety profile integrity s idle j g =
      elim (Bool-cases (some_issues _)) [
        | inl against ↦ found against (any g)
        | inr nothing ↦
            let (calm, (free, passed_all)) =
              closing_parts b active worker validator doorman closing archive safety profile
                integrity nothing in
            let (has, alone) = pending_issues-none b free in
            all passed_all
              (record {
                coordinated = has;
                free = not_pending b.pending alone;
                inactive = idle calm;
              })
              g
      ]
    where
      flag : Bool
      flag =
          ((((((some_issues worker || some_issues doorman) || some_issues closing)
                  || some_issues archive)
                || some_issues safety)
              || some_issues profile)
            || some_issues integrity)

      any : Ending flag s → K [] s
      any (inl (_, k)) = k
      any (inr (t, (answer, k))) = forget _ s k

      all : {l : List Text} → flag ≡ false → IsIdle b → Ending flag s → Findings l s
      all none_found i (inl (some_found, k)) = ground (arith, none_found, some_found)
      all none_found i (inr (t, (answer, k))) = clear b t answer j i k

  Leads-step :
      {A : Type 0} (flag : Bool) (P P' : State → Type 0) (m : Action (List Text))
      (f : List Text → Action A) (Q : A → State → Type 0)
      → Leads P m (λ l. Gate (asking env filename) t0 J (some_issues l) P') (λ _. K [])
      → Leads (K []) m (λ _. K []) (λ _. K [])
      → ((l : List Text)
          → Leads (Gate (asking env filename) t0 J (flag || some_issues l) P') (f l) Q (λ _. K []))
      → Leads (Gate (asking env filename) t0 J flag P) (m >>= f) Q (λ _. K [])
  Leads-step flag P P' m f Q opens calm rest =
      Leads-bind _ _ Q (λ _. K []) (λ _. K []) m f
        (Leads-Gate (asking env filename) t0 J flag P P' m opens calm) rest

  -- The same, where a test tells the same of whatever is known.
  Leads-test :
      {A : Type 0} (flag : Bool) (g : List Event → List Event) (ks : List Event)
      (m : Action (List Text)) (f : List Text → Action A) (Q : A → State → Type 0)
      → ((ks : List Event)
          → Leads
              (K ks)
              m
              (λ l. Gate (asking env filename) t0 J (some_issues l) (K (g ks)))
              (λ _. K []))
      → ((l : List Text)
          → Leads
              (Gate (asking env filename) t0 J (flag || some_issues l) (K (g ks)))
              (f l)
              Q
              (λ _. K []))
      → Leads (Gate (asking env filename) t0 J flag (K ks)) (m >>= f) Q (λ _. K [])
  Leads-test flag g ks m f Q opens rest =
      Leads-step flag (K ks) (K (g ks)) m f Q (opens ks)
        (Leads-opened (asking env filename) t0 J (K (g [])) m (opens []) (λ s k. forget _ s k)) rest

  Leads-test_each :
      {A : Type 0} (flag : Bool) (g : List Event → List Event) (ks : Target filename → List Event)
      (m : Action (List Text)) (f : List Text → Action A) (Q : A → State → Type 0)
      → ((ks : List Event)
          → Leads
              (K ks)
              m
              (λ l. Gate (asking env filename) t0 J (some_issues l) (K (g ks)))
              (λ _. K []))
      → ((l : List Text)
          → Leads
              (Gate
                (asking env filename)
                t0
                J
                (flag || some_issues l)
                (λ s. (t : Target filename) × K (g (ks t)) s))
              (f l)
              Q
              (λ _. K []))
      → Leads
          (Gate (asking env filename) t0 J flag (λ s. (t : Target filename) × K (ks t) s))
          (m >>= f)
          Q
          (λ _. K [])
  Leads-test_each flag g ks m f Q opens rest =
      Leads-step flag _ _ m f Q
        (Leads-some (asking env filename) t0 J (λ t. K (ks t)) (λ t. K (g (ks t))) m
          (λ t. opens (ks t)))
        (Leads-opened (asking env filename) t0 J (K (g [])) m (opens []) (λ s k. forget _ s k)) rest

  pub Leads-restore_preflight_issues :
      Leads (K []) (restore_preflight_issues filename) Findings (λ _. K [])
  unfolding restore_preflight_issues
  Leads-restore_preflight_issues =
      Leads-bind _ _ _ (λ _. K []) (λ _. K []) _ _ (Leads-get_backups _)
        (λ b. Leads-fact _ _ _ _ _ (λ j.
          Leads-pre (Gate (asking env filename) t0 J false (K [])) _ _ _ _ (λ s k. inr k)
            (Leads-test false _ [] _ _ _ (Leads-worker_state_issues (asking env filename) t0 J)
              (λ worker.
                Leads-test _ _ _ _ _ _ (Leads-doorman_issues (asking env filename) t0 J) (λ doorman.
                  Leads-test _ _ _ _ _ _ (Leads-closing_issues (asking env filename) t0 J)
                    (λ closing.
                      Leads-step _ _ _ _ _ _
                        (Leads-archive_issues (asking env filename) t0 J filename _)
                        (Leads-opened (asking env filename) t0 J _ _
                          (Leads-archive_issues (asking env filename) t0 J filename [])
                          (λ s k. forget _ s k.1))
                        (λ archive.
                          Leads-test_each _ _ _ _ _ _
                            (Leads-safety_issues (asking env filename) t0 J _)
                            (λ safety.
                              Leads-test_each _ _ _ _ _ _
                                (Leads-profile_issues (asking env filename) t0 J _)
                                (λ profile.
                                  Leads-step _ _ _ _ _ _
                                    (Leads-some (asking env filename) t0 J
                                      (λ t. K (tested filename t)) _ _
                                      (λ t. Leads-integrity_issues (asking env filename) t0 J _))
                                    (Leads-opened (asking env filename) t0 J _ _
                                      (Leads-integrity_issues (asking env filename) t0 J [])
                                      (λ s k. forget _ s k.1))
                                    (λ integrity. Leads-pure _ _ _ _ (λ s g.
                                      verdict b _ worker _ doorman closing archive safety profile
                                        integrity s (no_issues-when (is_active b.operation) _) j
                                        g)))))))))))
