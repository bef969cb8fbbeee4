-- ===== src/Cycle/Availability/Outcome.antt =====
-- What a cycle of `run_availability_cycle` (pi4/bin/hioc-incident-engine-v2.py) that returns has
-- done.
use hioc.Base.{
  ℕ, ◌≡◌, ◌<◌, ap, sym, ◌∙◌, inl, inr, Bool, true, Option, none, some, Dict, arith, nat_key, lookup,
  Result, ok, err,
}
use mathlib.Core.Path.{subst}
use hioc.Contract.Json.{Json}
use hioc.Availability.StatusRead.{StatusValue}
use hioc.Policy.Types.{Record, Store, current}
use hioc.Policy.Service.{policy_view}
use hioc.Incidents.Types.{State}
use hioc.Incidents.Cases.{Projection}
use hioc.Incidents.Dispatch.{Engine}
use hioc.Cycle.Evaluation.Current.{
  IsCurrent, evaluate_all-IsCurrent, evaluate_all-ahead, project-ahead,
}
use hioc.Cycle.Notify.{Answer}
use hioc.Cycle.Availability.{Cycle, Setting, reopened, notify, after_publisher, publish, run_cycle}
use hioc.Cycle.Availability.Order.{Committed, run_cycle-cases, update-eq-ok}

module _ (digest : Json → ℕ) (oversized : StatusValue → Bool) (equal : State → State → Bool)
    (w : Setting) where
  result_of :
      (e : Engine) (c : Cycle) (k : Committed digest oversized equal w e c) (v : Projection)
      (answers : Dict ℕ Answer)
      → c.outcome ≡ ok (v, answers)
      → v ≡ k.projection
  unfolding publish after_publisher notify
  result_of e c k v answers h = from w.publisher (sym (ap (λ (y : Cycle). y.outcome) k.rest) ∙ h)
    where
      from_result :
          (x : Result (Unit {0}))
          → (after_publisher digest oversized equal w k.progress k.projection k.after x).outcome
            ≡ ok (v, answers)
          → v ≡ k.projection
      from_result (err x) h = cc
      from_result (ok _) h = ground (arith, h)

      from :
          (o : Option (Projection → Result (Unit {0})))
          → (publish digest oversized equal w k.progress k.projection k.after o).outcome
            ≡ ok (v, answers)
          → v ≡ k.projection
      from none h = ground (arith, h)
      from (some f) h = from_result (f k.projection) h

  run_cycle-Committed :
      (e : Engine) (v : Projection) (answers : Dict ℕ Answer)
      → (run_cycle digest oversized equal w e).outcome ≡ ok (v, answers)
      → Committed digest oversized equal w e (run_cycle digest oversized equal w e)
  run_cycle-Committed e v answers h = elim (run_cycle-cases digest oversized equal w e) [
    | inl s ↦ absurd (ground (arith, h, s.outcome))
    | inr k ↦ k
  ]

  -- A cycle that returns, on a store of the second schema, has committed to the engine's file a
  -- state that holds an evaluation of every asset of the store: at the time of the cycle, under the
  -- revision that the asset's policy has there, and of the epoch of the store.
  pub run_cycle-IsCurrent :
      (e : Engine) (v : Projection) (answers : Dict ℕ Answer) (store : Store) (asset : ℕ)
      (r : Record)
      → (run_cycle digest oversized equal w e).outcome ≡ ok (v, answers)
      → (w.inputs).stored ≡ ok (current store)
      → lookup asset store.assets ≡ some r
      → (k : Committed digest oversized equal w e (run_cycle digest oversized equal w e))
        × ((k.after).file ≡ some k.progress.state)
        × IsCurrent
            (w.inputs).evaluated_at
            k.progress.state
            (policy_view (w.inputs).service store asset)
  run_cycle-IsCurrent e v answers store asset r returned h f =
      let k = run_cycle-Committed e v answers returned in
      let (_, _, _, file) =
        update-eq-ok digest oversized equal w w.disk k.previous k.progress.state
          (reopened w k.before) k.after k.written in
      (
        k,
        file,
        evaluate_all-IsCurrent digest oversized w.inputs k.previous k.progress store asset r h
            k.evaluated f,
      )

  -- The summary that a cycle returns is one of the time of the cycle, and where it calls itself
  -- valid, it ends after that time.
  pub run_cycle-ahead :
      (e : Engine) (v : Projection) (answers : Dict ℕ Answer)
      → (run_cycle digest oversized equal w e).outcome ≡ ok (v, answers)
      → (v.evaluated_at ≡ (w.inputs).evaluated_at)
        × (v.valid ≡ true → (w.inputs).evaluated_at < v.valid_until)
  run_cycle-ahead e v answers returned =
      let k = run_cycle-Committed e v answers returned in
      let (at_time, _, holds) =
        project-ahead digest oversized (w.inputs).evaluated_at k.progress k.projection k.projected
          (evaluate_all-ahead digest oversized w.inputs k.previous k.progress k.evaluated) in
      subst
        (λ (x : Projection).
          (x.evaluated_at ≡ (w.inputs).evaluated_at)
          × (x.valid ≡ true → (w.inputs).evaluated_at < x.valid_until))
        (sym (result_of e _ k v answers returned)) (at_time, holds)
