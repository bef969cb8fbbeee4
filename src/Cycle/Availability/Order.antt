-- ===== src/Cycle/Availability/Order.antt =====
-- How a cycle of `run_availability_cycle` (pi4/bin/hioc-incident-engine-v2.py) runs: it stops before
-- anybody sees anything of it, or it has committed what it evaluated.
use hioc.Base.{
  ℕ, ◌≡◌, refl, ap, ◌∙◌, ◌⊎◌, inl, inr, Bool, true, false, Option, none, some, List, [], ◌∷◌, ◌++◌,
  map, arith, Option-cases, Error, Result, ok, err,
}
use hioc.Contract.Disk.{Disk}
use hioc.Contract.Json.{Json}
use hioc.Availability.StatusRead.{StatusValue}
use hioc.Incidents.Types.{State}
use hioc.Incidents.Cases.{Projection}
use hioc.Incidents.Dispatch.{Engine, transaction, read_engine, write_engine, commit, update}
use hioc.Cycle.Evaluation.{Progress, read_previous, evaluate_all, project}
use hioc.Cycle.Notify.Sends.{Sends, Sends-nothing, notify_all-Handing}
use hioc.Cycle.Availability.{
  Action, published, handed, Cycle, Setting, reopened, notify, after_publisher, publish,
  after_project, after_commit, decide_cycle, after_evaluation, after_read, run_cycle, begun,
}

module _ (digest : Json → ℕ) (oversized : StatusValue → Bool) (equal : State → State → Bool)
    (w : Setting) where
  -- A cycle that came through its second transaction.
  pub record Committed (e : Engine) (c : Cycle) : Type 0 where
    pub previous : State
    pub progress : Progress
    pub before : Engine
    pub after : Engine
    pub projection : Projection
    pub read : read_previous digest oversized e ≡ (ok previous, before)
    pub evaluated : evaluate_all digest oversized w.inputs previous ≡ ok progress
    pub written :
        update digest oversized w.disk
          (decide_cycle digest oversized equal previous progress.state)
          (reopened w before)
        ≡ (ok tt, after)
    pub projected : project digest oversized (w.inputs).evaluated_at progress ≡ ok projection
    pub rest : c ≡ publish digest oversized equal w progress projection after w.publisher

  -- A cycle that raised before it did anything that is seen.
  pub record Stopped (c : Cycle) : Type 0 where
    pub raised : Error
    pub outcome : c.outcome ≡ err raised
    pub silent : c.actions ≡ []

  pub run_cycle-cases :
      (e : Engine) → let c = run_cycle digest oversized equal w e in Stopped c ⊎ Committed e c
  unfolding run_cycle after_read after_evaluation after_commit after_project
  run_cycle-cases e = from_read (read_previous digest oversized e) refl
    where
      from_project :
          (s : State) (g : Progress) (b a : Engine) (v : Result Projection)
          → read_previous digest oversized e ≡ (ok s, b)
          → evaluate_all digest oversized w.inputs s ≡ ok g
          → update digest oversized w.disk
              (decide_cycle digest oversized equal s g.state)
              (reopened w b)
            ≡ (ok tt, a)
          → project digest oversized (w.inputs).evaluated_at g ≡ v
          → let c = after_project digest oversized equal w g a v in Stopped c ⊎ Committed e c
      from_project s g b a (err x) h1 h2 h3 h4 =
          inl (record { raised = x; outcome = refl; silent = refl })
      from_project s g b a (ok v) h1 h2 h3 h4 = inr (record {
        previous = s;
        progress = g;
        before = b;
        after = a;
        projection = v;
        read = h1;
        evaluated = h2;
        written = h3;
        projected = h4;
        rest = refl;
      })

      from_commit :
          (s : State) (g : Progress) (b : Engine) (u : Result (Unit {0}) × Engine)
          → read_previous digest oversized e ≡ (ok s, b)
          → evaluate_all digest oversized w.inputs s ≡ ok g
          → update digest oversized w.disk
              (decide_cycle digest oversized equal s g.state)
              (reopened w b)
            ≡ u
          → let c = after_commit digest oversized equal w g u in Stopped c ⊎ Committed e c
      from_commit s g b (err x, a) h1 h2 h3 =
          inl (record { raised = x; outcome = refl; silent = refl })
      from_commit s g b (ok _, a) h1 h2 h3 = from_project s g b a _ h1 h2 h3 refl

      from_evaluation :
          (s : State) (b : Engine) (r : Result Progress)
          → read_previous digest oversized e ≡ (ok s, b)
          → evaluate_all digest oversized w.inputs s ≡ r
          → let c = after_evaluation digest oversized equal w s b r in Stopped c ⊎ Committed e c
      from_evaluation s b (err x) h1 h2 = inl (record { raised = x; outcome = refl; silent = refl })
      from_evaluation s b (ok g) h1 h2 = from_commit s g b _ h1 h2 refl

      from_read :
          (r : Result State × Engine)
          → read_previous digest oversized e ≡ r
          → let c = after_read digest oversized equal w r in Stopped c ⊎ Committed e c
      from_read (err x, b) h1 = inl (record { raised = x; outcome = refl; silent = refl })
      from_read (ok s, b) h1 = from_evaluation s b _ h1 refl

  -- The first transaction leaves the engine as it was.
  pub read_previous-file :
      (e : Engine) (s : State) (b : Engine)
      → read_previous digest oversized e ≡ (ok s, b)
      → (b.file ≡ some s) × (b.file ≡ e.file) × (b.uncertain ≡ false) × (b.held ≡ false)
  unfolding read_previous transaction read_engine
  read_previous-file e s b h = ground (arith, Option-cases e.file)

  -- A commit that succeeds has found the state that was evaluated, and replaces it.
  pub update-eq-ok :
      (disk : Disk) (previous updated : State) (e a : Engine)
      → update digest oversized disk (decide_cycle digest oversized equal previous updated) e
        ≡ (ok tt, a)
      → (s : State) × (e.file ≡ some s) × (equal s previous ≡ true) × (a.file ≡ some updated)
  unfolding update transaction commit read_engine write_engine decide_cycle
  update-eq-ok disk previous updated e a h = by_file e.file refl
    where
      by_file :
          (o : Option State)
          → e.file ≡ o
          → (s : State) × (e.file ≡ some s) × (equal s previous ≡ true) × (a.file ≡ some updated)
      by_file none f = absurd (ground (arith, f))
      by_file (some s) f = (s, f, ground (arith, f), ground (arith, f))

  -- The publication, where there is a publisher.
  abbrev announcement : Option (Projection → Result (Unit {0})) → Projection → List Action
  announcement none v = []
  announcement (some f) v = published v ∷ []

  -- What a cycle that has committed shows of itself.
  pub record Shown (e : Engine) (c : Cycle) : Type 0 where
    pub committed : Committed e c
    pub stored : (committed.after).file ≡ some committed.progress.state
    pub events : List ℕ
    pub sends :
        Sends digest oversized committed.progress.state.process_epoch w.has_transport w.moments
          (begun committed.after)
          events
          committed.progress.state.outbox
    pub actions : c.actions ≡ announcement w.publisher committed.projection ++ map handed events
    pub idle : w.has_transport ≡ false → events ≡ []

  publish-Shown : (e : Engine) (c : Cycle) → Committed e c → Shown e c
  unfolding publish after_publisher notify
  publish-Shown e c k = from_publisher w.publisher refl
    where
      epoch : ℕ
      epoch = k.progress.state.process_epoch

      kept : (k.after).file ≡ some k.progress.state
      kept =
          let (_, _, _, file) =
            update-eq-ok w.disk k.previous k.progress.state (reopened w k.before) k.after
              k.written in
          file

      from_result :
          (f : Projection → Result (Unit {0})) (x : Result (Unit {0}))
          → w.publisher ≡ some f
          → f k.projection ≡ x
          → Shown e c
      from_result f (err x) h1 h2 = record {
        committed = k;
        stored = kept;
        events = [];
        sends =
            Sends-nothing digest oversized epoch w.has_transport w.moments (begun k.after)
              k.progress.state.outbox;
        actions = ap (λ (y : Cycle). y.actions) k.rest ∙ ground (arith, h1, h2);
        idle = λ _. refl;
      }
      from_result f (ok _) h1 h2 =
          let x =
            notify_all-Handing digest oversized epoch w.has_transport w.moments
              k.progress.state.outbox (begun k.after) in
          record {
            committed = k;
            stored = kept;
            events = x.events;
            sends = x.sends;
            actions = ap (λ (y : Cycle). y.actions) k.rest ∙ ground (arith, h1, h2, x.added);
            idle = x.idle;
          }

      from_publisher : (o : Option (Projection → Result (Unit {0}))) → w.publisher ≡ o → Shown e c
      from_publisher none h =
          let x =
            notify_all-Handing digest oversized epoch w.has_transport w.moments
              k.progress.state.outbox (begun k.after) in
          record {
            committed = k;
            stored = kept;
            events = x.events;
            sends = x.sends;
            actions = ap (λ (y : Cycle). y.actions) k.rest ∙ ground (arith, h, x.added);
            idle = x.idle;
          }
      from_publisher (some f) h = from_result f (f k.projection) h refl

  -- A cycle raises before anything of it is seen, or it has committed what it evaluated from the
  -- state that it read, and the engine's file holds that. Then it publishes the summary of that state
  -- first, where there is a publisher, and hands events to the transport only after that: in the
  -- order of the outbox that was committed, at most once for each of its entries, which is pending
  -- there, and each after an authorization. That authorization found, in the engine's file as the
  -- work on the entries before has left it, a valid state with the entry pending and with an
  -- unsuppressed case of its asset, at the revision of the entry and in the availability that the
  -- event reports; and it found the asset expected, at that revision and strongly attached, and the
  -- operator's consent. Without a transport nothing is handed over.
  pub run_cycle-Shown :
      (e : Engine) → let c = run_cycle digest oversized equal w e in Stopped c ⊎ Shown e c
  run_cycle-Shown e = elim (run_cycle-cases e) [ inl s ↦ inl s | inr k ↦ inr (publish-Shown e _ k) ]

  -- The comparison that a commit rests on.
  Committed-equal :
      {e : Engine} {c : Cycle} {s t : State}
      → Committed e c
      → e.file ≡ some s
      → w.meanwhile e.file ≡ some t
      → equal t s ≡ true
  Committed-equal {e} {c} {s} {t} k before found =
      let (read, same, _, _) = read_previous-file e k.previous k.before k.read in
      let (x, there, eq, _) =
        update-eq-ok w.disk k.previous k.progress.state (reopened w k.before) k.after k.written in
      let first : k.previous ≡ s = cc (read, same, before) in
      let second : x ≡ t = cc (there, ap w.meanwhile same, found) in rw (← first) (rw (← second) eq)

  -- Where other processes have left a state in the engine's file that differs, by Python's `==`, from
  -- the one that the cycle has read, the cycle raises, publishes nothing and hands nothing over.
  pub run_cycle-raced :
      (e : Engine) (s t : State)
      → e.file ≡ some s
      → w.meanwhile e.file ≡ some t
      → equal t s ≡ false
      → Stopped (run_cycle digest oversized equal w e)
  run_cycle-raced e s t before found differ = elim (run_cycle-cases e) [
    | inl x ↦ x
    | inr k ↦
        let same : equal t s ≡ true = Committed-equal k before found in
        absurd (ground (arith, differ, same))
  ]
