-- ===== src/Service/Archives/Ticks/Calls.antt =====
-- The logic of triples, for what is known of the calls: a call adds what it has returned.
use mc_admin.Base.{◌≡◌, inl, refl, ap, ◌∙◌, subst, sym, Text, Option, List, [], ◌∷◌, ◌++◌, All}
use mc_admin.Service.{
  BackupResult, PendingRestore, Call, Reply, order, restore_start, Event, Out, ok, raised, Error,
  Backups, State, Env, Action, port, tell, update_backups, safety_trigger,
}
use mc_admin.Service.Archives.Ticks.Triples.{Leads, Leads-post, Ends, Mild, Mildly, Quiet}
use mc_admin.Service.Archives.Ticks.Known.{
  Aim, returned, In, Allowed, Askable, Fitting, Timely, Stage, Knows, Knows-weaken, Knows-tail,
  Mild-Fitting, Timely-append, All-In-append,
}

module _ (o : Aim) (t0 : List Event) where
  append_assoc : (xs ys zs : List Event) → xs ++ (ys ++ zs) ≡ (xs ++ ys) ++ zs
  append_assoc [] ys zs = refl
  append_assoc (x ∷ xs) ys zs = ap (λ (l : List Event). x ∷ l) (append_assoc xs ys zs)

  module _ (J : Stage) (ks : List Event) where
    Knows-Mildly : (s s' : State) → Mildly s s' → Knows o t0 J ks s → Knows o t0 J ks s'
    Knows-Mildly s s' m k = record {
      calls = m.calls ++ k.calls;
      added =
          m.added ∙ ap (λ (l : List Event). m.calls ++ l) k.added ∙ append_assoc m.calls k.calls t0;
      timely = Timely-append o m.calls k.calls m.mild k.timely;
      known = All-In-append ks m.calls k.calls k.known;
      waits =
          subst (λ (q : Option PendingRestore). J q s'.backups.operation) (sym m.same_pending)
            (subst (J s.backups.pending) (sym m.same_operation) k.waits);
    }

    same_Ends :
        {A : Type 0} (r : Out A) (s : State)
        → Knows o t0 J ks s
        → Ends (λ (_ : A). Knows o t0 J ks) (λ _. Knows o t0 J ks) (r, s)
    same_Ends (ok a) s k = k
    same_Ends (raised e) s k = k

    pub Leads-Quiet :
        {A : Type 0} (m : Action A)
        → Quiet m
        → Leads (Knows o t0 J ks) m (λ _. Knows o t0 J ks) (λ _. Knows o t0 J ks)
    unfolding Leads Quiet
    Leads-Quiet m q s k = same_Ends (m s).0 (m s).1 (Knows-Mildly s (m s).1 (q s) k)

    answered :
        (c : Call) (a : Out (Reply c)) (s : State)
        → ((calls : List Event) → All (λ (k : Event). In k calls) ks → Fitting o c calls)
        → Knows o t0 J ks s
        → Ends
            (λ (r : Reply c). Knows o t0 J (returned c r ∷ ks))
            (λ _. Knows o t0 J ks)
            (a, record s { trace = (record { call = c; answer = a }) ∷ s.trace })
    unfolding Timely
    answered c (ok r) s fit k = record {
      calls = returned c r ∷ k.calls;
      added = ap (λ (l : List Event). returned c r ∷ l) k.added;
      timely = (fit k.calls k.known, k.timely);
      known = (inl refl, All-In-append ks (returned c r ∷ []) k.calls k.known);
      waits = k.waits;
    }
    answered c (raised e) s fit k = record {
      calls = (record { call = c; answer = raised e }) ∷ k.calls;
      added = ap (λ (l : List Event). (record { call = c; answer = raised e }) ∷ l) k.added;
      timely = (fit k.calls k.known, k.timely);
      known = All-In-append ks ((record { call = c; answer = raised e }) ∷ []) k.calls k.known;
      waits = k.waits;
    }

    -- A call that returns is known to have been made.
    pub Leads-port :
        ⦃env : Env⦄
        → (c : Call) → Mild c
        → Leads
            (Knows o t0 J ks)
            (port c)
            (λ (r : Reply c). Knows o t0 J (returned c r ∷ ks))
            (λ _. Knows o t0 J ks)
    unfolding Leads port
    Leads-port ⦃env⦄ c mild s k =
        answered c (env.answers s.trace c) s (λ calls known. Mild-Fitting o c calls mild) k

    forget : (s : State) → Knows o t0 J ks s → Knows o t0 J [] s
    forget s k = Knows-weaken o t0 J J ks s (λ _ _ h. h) k

    -- The same two, where what was known before is not needed after an exception.
    pub Leads-call :
        ⦃env : Env⦄
        → (c : Call) → Mild c
        → Leads
            (Knows o t0 J ks)
            (port c)
            (λ (r : Reply c). Knows o t0 J (returned c r ∷ ks))
            (λ _. Knows o t0 J [])
    Leads-call c mild =
        Leads-post _ _ _ _ _ _ (λ _ _ h. h) (λ _ s h. forget s h) (Leads-port c mild)

    pub Leads-calm :
        {A : Type 0} (m : Action A)
        → Quiet m
        → Leads (Knows o t0 J ks) m (λ _. Knows o t0 J ks) (λ _. Knows o t0 J [])
    Leads-calm m q = Leads-post _ _ _ _ _ _ (λ _ _ h. h) (λ _ s h. forget s h) (Leads-Quiet m q)

    -- The worker is started where that is allowed by what is known.
    pub Leads-start :
        ⦃env : Env⦄
        → (filename : Text)
        → ((calls : List Event) → All (λ (k : Event). In k calls) ks → Allowed o filename calls)
        → Leads
            (Knows o t0 J ks)
            (tell (restore_start filename))
            (λ _. Knows o t0 J ks)
            (λ _. Knows o t0 J ks)
    unfolding Leads tell port
    Leads-start ⦃env⦄ filename allowed s k =
        drop (env.answers s.trace (order (restore_start filename))) (
          answered (order (restore_start filename))
            (env.answers s.trace (order (restore_start filename))) s allowed k)
      where
        drop :
            (a : Out (Unit {0}))
            → Ends
                (λ (r : Unit {0}). Knows o t0 J (returned (order (restore_start filename)) r ∷ ks))
                (λ _. Knows o t0 J ks)
                (
                  a,
                  record s {
                    trace =
                        (record { call = order (restore_start filename); answer = a }) ∷ s.trace;
                  },
                )
            → Ends
                (λ (r : Unit {0}). Knows o t0 J ks)
                (λ _. Knows o t0 J ks)
                (
                  a,
                  record s {
                    trace =
                        (record { call = order (restore_start filename); answer = a }) ∷ s.trace;
                  },
                )
        drop (ok r) h = Knows-tail o t0 J _ ks _ h
        drop (raised e) h = h

    -- The backup that comes first is started where that is allowed by what is known.
    pub Leads-trigger :
        ⦃env : Env⦄
        → ((calls : List Event) → All (λ (k : Event). In k calls) ks → Askable o calls)
        → Leads
            (Knows o t0 J ks)
            (port safety_trigger)
            (λ (r : BackupResult). Knows o t0 J (returned safety_trigger r ∷ ks))
            (λ _. Knows o t0 J ks)
    unfolding Leads port
    Leads-trigger ⦃env⦄ askable s k =
        answered safety_trigger (env.answers s.trace safety_trigger) s askable k

    pub Leads-update :
        (J' : Stage) (R : Error → State → Type 0) (f : Backups → Backups)
        → ((b : Backups) → J b.pending b.operation → J' (f b).pending (f b).operation)
        → Leads (Knows o t0 J ks) (update_backups f) (λ _. Knows o t0 J' ks) R
    unfolding Leads update_backups
    Leads-update J' R f h s k = record {
      calls = k.calls;
      added = k.added;
      timely = k.timely;
      known = k.known;
      waits = h s.backups k.waits;
    }
