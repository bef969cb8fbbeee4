-- ===== src/Cycle/Evaluation/Current.antt =====
-- What the evaluating half of `run_availability_cycle` (pi4/bin/hioc-incident-engine-v2.py) leaves
-- in the state, and how long its summary holds.
use hioc.Base.{
  ℕ, ◌≡◌, ◌≢◌, ◌<◌, refl, ap, sym, ◌∙◌, ◌⊎◌, inl, inr, Bool, true, not, Option, none, some, List,
  [], ◌∷◌, ◌++◌, map, all, contains, is_empty, ltb, arith, nat_key, ◌==◌, keys_of, Dict, lookup,
  select, ok, >>=-eq-ok, Bool-cases, lookup-insert_self, lookup-insert_ne,
}
use mathlib.Core.Path.{subst}
use hioc.Contract.Json.{Json}
use hioc.Availability.Types.{Policy, Profile, Observation, Evaluation}
use hioc.Availability.Evaluate.{evaluate}
use hioc.Availability.Evidence.{IsAhead}
use hioc.Availability.Outage.{evaluate-IsAhead}
use hioc.Availability.Stamp.{evaluate-stamp}
use hioc.Availability.Snapshot.{Snapshot, evaluation_snapshot}
use hioc.Availability.StatusRead.{StatusValue}
use hioc.Policy.Types.{Record, Store, current}
use hioc.Policy.Service.{policy_view}
use hioc.Incidents.Types.{State}
use hioc.Incidents.Cases.{Projection, apply_evaluation, summary, key_of}
use hioc.Incidents.Lifecycle.{
  Applied, untouched, switched_off, stepped, apply_evaluation-Applied, ok-injective,
}
use hioc.Cycle.Evaluation.{
  Inputs, Progress, with_deadline, prior_machine, is_open, validate_optional, policies_of,
  evaluate_policy, evaluate_policies, evaluate_all, earliest, project,
}

-- The state holds an evaluation of the policy at that time.
pub record IsCurrent (now : ℕ) (s : State) (p : Policy) : Type 0 where
  pub snapshot : Snapshot
  pub known : lookup p.asset s.evaluations ≡ some snapshot
  pub at_time : (snapshot.evaluation).evaluated_at ≡ now
  pub of_policy : p.revision ≡ some snapshot.policy_revision
  pub of_store : snapshot.store_epoch ≡ p.store_epoch

all-append :
    (f : ℕ → Bool) (xs : List ℕ) (d : ℕ)
    → all f xs ≡ true
    → f d ≡ true
    → all f (xs ++ d ∷ []) ≡ true
all-append f [] d h k = ground (arith, k)
all-append f (x ∷ xs) d h k = ground (arith, h, k, all-append f xs d)

with_deadline-ahead :
    (now : ℕ) (o : Option ℕ) (ds : List ℕ)
    → all (ltb now) ds ≡ true
    → IsAhead now o
    → all (ltb now) (with_deadline o ds) ≡ true
with_deadline-ahead now none ds h k = h
with_deadline-ahead now (some d) ds h k = all-append (ltb now) ds d h (ground (arith, k))

module _ (digest : Json → ℕ) (oversized : StatusValue → Bool) where
  -- The engine's evaluations are not touched by a case transition.
  Applied-evaluations :
      (s : State) (p : Policy) (r : Evaluation) (s' : State)
      → Applied digest s p r s'
      → s'.evaluations ≡ s.evaluations
  Applied-evaluations s p r s' (untouched n e) = ap (λ (x : State). x.evaluations) e
  Applied-evaluations s p r s' (switched_off c f off e) = ap (λ (x : State). x.evaluations) e
  Applied-evaluations s p r s' (stepped c f on e) = ap (λ (x : State). x.evaluations) e

  snapshot-of :
      (p : Policy) (r : Evaluation) (f : Option Profile) (rows : List Observation) (x : Snapshot)
      → evaluation_snapshot digest p r f rows ≡ ok x
      → ((x.evaluation).evaluated_at ≡ r.evaluated_at)
        × (x.policy_revision ≡ r.policy_revision)
        × (x.store_epoch ≡ p.store_epoch)
  unfolding evaluation_snapshot
  snapshot-of p r f rows x h = (ground (arith, h), ground (arith, h), ground (arith, h))

  -- What one round of the loop does.
  pub record Round (i : Inputs) (g : Progress) (p : Policy) (g' : Progress) : Type 0 where
    pub current : IsCurrent i.evaluated_at g'.state p
    pub others :
        (k : ℕ) → k ≢ p.asset → lookup k g'.state.evaluations ≡ lookup k g.state.evaluations
    pub ahead :
        all (ltb i.evaluated_at) g.deadlines ≡ true → all (ltb i.evaluated_at) g'.deadlines ≡ true

  evaluate_policy-Round :
      (i : Inputs) (previous : State) (g : Progress) (p : Policy) (g' : Progress)
      → evaluate_policy digest oversized i previous g p ≡ ok g'
      → Round i g p g'
  unfolding evaluate_policy
  evaluate_policy-Round i previous g p g' h =
      let profile = lookup p.asset i.policy_profiles in
      let rows = select (λ row. row.asset == p.asset) i.observations in
      let (_, _, h1) = >>=-eq-ok (validate_optional profile) _ h in
      let (r, evaluated, h2) =
        >>=-eq-ok
          (evaluate digest p p.attachment profile rows
            (prior_machine (lookup p.asset previous.evaluations)) i.evaluated_at
            (is_open (lookup (key_of digest p.asset) previous.cases)))
          _ h1 in
      let (s, applied, h3) = >>=-eq-ok (apply_evaluation digest oversized g.state p r) _ h2 in
      let (x, taken, h4) = >>=-eq-ok (evaluation_snapshot digest p r profile rows) _ h3 in
      let e = ok-injective h4 in
      let (at_time, revision) =
        evaluate-stamp digest p p.attachment profile rows _ i.evaluated_at _ r evaluated in
      let (a1, a2, a3) = snapshot-of p r profile rows x taken in
      let kept =
        Applied-evaluations g.state p r s
          (apply_evaluation-Applied digest oversized g.state p r s applied) in
      record {
        current = record {
          snapshot = x;
          known =
              ap (λ (y : Progress). lookup p.asset y.state.evaluations) e
              ∙ lookup-insert_self p.asset x s.evaluations;
          at_time = a1 ∙ at_time;
          of_policy = revision ∙ ap some (sym a2);
          of_store = a3;
        };
        others = λ k ne.
            ap (λ (y : Progress). lookup k y.state.evaluations) e
            ∙ lookup-insert_ne k p.asset x s.evaluations ne
            ∙ ap (λ (d : Dict ℕ Snapshot). lookup k d) kept;
        ahead = λ before.
            ap (λ (y : Progress). all (ltb i.evaluated_at) y.deadlines) e
            ∙ with_deadline-ahead i.evaluated_at r.valid_until g.deadlines before
                (evaluate-IsAhead digest p p.attachment profile rows _ i.evaluated_at _ evaluated);
      }

  -- A current evaluation outlasts a round for another asset.
  IsCurrent-others :
      (i : Inputs) (g : Progress) (p q : Policy) (g' : Progress)
      → p.asset ≢ q.asset
      → Round i g q g'
      → IsCurrent i.evaluated_at g.state p
      → IsCurrent i.evaluated_at g'.state p
  IsCurrent-others i g p q g' ne round c = record {
    snapshot = c.snapshot;
    known = round.others p.asset ne ∙ c.known;
    at_time = c.at_time;
    of_policy = c.of_policy;
    of_store = c.of_store;
  }

  -- The loop over the assets of the store.
  loop-IsCurrent :
      (i : Inputs) (store : Store) (previous : State) (ks : List ℕ) (g g' : Progress) (k : ℕ)
      → evaluate_policies digest oversized i previous (map (policy_view i.service store) ks) g
        ≡ ok g'
      → (contains k ks ≡ true) ⊎ IsCurrent i.evaluated_at g.state (policy_view i.service store k)
      → IsCurrent i.evaluated_at g'.state (policy_view i.service store k)
  unfolding evaluate_policies policy_view
  loop-IsCurrent i store previous [] g g' k h (inl c) = cc
  loop-IsCurrent i store previous [] g g' k h (inr c) =
      subst (λ (x : Progress). IsCurrent i.evaluated_at x.state (policy_view i.service store k))
        (sym (ok-injective h)) c
  loop-IsCurrent i store previous (j ∷ ks) g g' k h before =
      let (m, first, rest) =
        >>=-eq-ok (evaluate_policy digest oversized i previous g (policy_view i.service store j)) _
          h in
      let round = evaluate_policy-Round i previous g (policy_view i.service store j) m first in
      loop-IsCurrent i store previous ks m g' k rest (next round before)
    where
      next :
          {m : Progress}
          → Round i g (policy_view i.service store j) m
          → (contains k (j ∷ ks) ≡ true)
            ⊎ IsCurrent i.evaluated_at g.state (policy_view i.service store k)
          → (contains k ks ≡ true)
            ⊎ IsCurrent i.evaluated_at m.state (policy_view i.service store k)
      next {m} round before = elim (Bool-cases (k == j)) [
        | inl same ↦ inr (
            subst (λ (x : ℕ). IsCurrent i.evaluated_at m.state (policy_view i.service store x))
              (ground (arith, same)) round.current)
        | inr ne ↦ elim before [
          | inl c ↦ inl (ground (arith, ne, c))
          | inr c ↦ inr (
              IsCurrent-others i g (policy_view i.service store k) (policy_view i.service store j) m
                (λ e. ground (arith, ne, e)) round c)
        ]
      ]

  loop-ahead :
      (i : Inputs) (previous : State) (ps : List Policy) (g g' : Progress)
      → evaluate_policies digest oversized i previous ps g ≡ ok g'
      → all (ltb i.evaluated_at) g.deadlines ≡ true
      → all (ltb i.evaluated_at) g'.deadlines ≡ true
  unfolding evaluate_policies
  loop-ahead i previous [] g g' h k =
      ap (λ (x : Progress). all (ltb i.evaluated_at) x.deadlines) (ok-injective h) ∙ k
  loop-ahead i previous (p ∷ ps) g g' h k =
      let (m, first, rest) = >>=-eq-ok (evaluate_policy digest oversized i previous g p) _ h in
      loop-ahead i previous ps m g' rest ((evaluate_policy-Round i previous g p m first).ahead k)

  contains-keys_of :
      (k : ℕ) (r : Record) (d : Dict ℕ Record) → lookup k d ≡ some r → contains k (keys_of d) ≡ true
  contains-keys_of k r [] h = cc
  contains-keys_of k r ((j, x) ∷ d) h = ground (arith, h, contains-keys_of k r d)

  -- Every asset of the store has been evaluated.
  pub evaluate_all-IsCurrent :
      (i : Inputs) (previous : State) (g : Progress) (store : Store) (k : ℕ) (r : Record)
      → i.stored ≡ ok (current store)
      → evaluate_all digest oversized i previous ≡ ok g
      → lookup k store.assets ≡ some r
      → IsCurrent i.evaluated_at g.state (policy_view i.service store k)
  unfolding evaluate_all policies_of
  evaluate_all-IsCurrent i previous g store k r h e f =
      loop-IsCurrent i store previous (keys_of store.assets)
        (record { state = previous; deadlines = [] }) g k (ground (arith, h, e))
        (inl (contains-keys_of k r store.assets f))

  -- Every deadline lies after the evaluation.
  pub evaluate_all-ahead :
      (i : Inputs) (previous : State) (g : Progress)
      → evaluate_all digest oversized i previous ≡ ok g
      → all (ltb i.evaluated_at) g.deadlines ≡ true
  unfolding evaluate_all
  evaluate_all-ahead i previous g e =
      let (ps, _, h) = >>=-eq-ok (policies_of i) _ e in
      loop-ahead i previous ps (record { state = previous; deadlines = [] }) g h refl

  earliest-ahead :
      (now d : ℕ) (ds : List ℕ) → all (ltb now) (d ∷ ds) ≡ true → now < earliest now (d ∷ ds)
  unfolding earliest
  earliest-ahead now d [] h = ground (arith, h)
  earliest-ahead now d (x ∷ ds) h = ground (arith, h, earliest-ahead now x ds)

  -- A summary that is valid holds for some time after the evaluation.
  pub project-ahead :
      (now : ℕ) (g : Progress) (v : Projection)
      → project digest oversized now g ≡ ok v
      → all (ltb now) g.deadlines ≡ true
      → (v.evaluated_at ≡ now)
        × (v.valid ≡ not (is_empty g.deadlines))
        × (v.valid ≡ true → now < v.valid_until)
  unfolding project summary
  project-ahead now g v h k = from g.deadlines refl
    where
      from :
          (ds : List ℕ)
          → g.deadlines ≡ ds
          → (v.evaluated_at ≡ now)
            × (v.valid ≡ not (is_empty g.deadlines))
            × (v.valid ≡ true → now < v.valid_until)
      from [] e = (ground (arith, h, e), ground (arith, h, e), ground (arith, h, e))
      from (d ∷ ds) e = (
        ground (arith, h, e),
        ground (arith, h, e),
        ground (arith, h, e, k, earliest-ahead now d ds),
      )
