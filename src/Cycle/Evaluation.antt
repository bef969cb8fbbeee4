-- ===== src/Cycle/Evaluation.antt =====
-- The evaluating half of `run_availability_cycle` (pi4/bin/hioc-incident-engine-v2.py): every asset
-- of the Asset store is evaluated once, and the summary tells how long that holds.
pub mod Current
use hioc.Base.{
  ℕ, Bool, true, false, ◌&&◌, not, Option, none, some, List, [], ◌∷◌, ◌++◌, map, min, ◌==◌, nat_key,
  if◌then◌else◌, is_empty, select, Dict, keys_of, lookup, insert, Code, Error, policy, exception,
  Result, ok, err, ◌>>=◌, ◌>>◌, busy, forbidden,
}
use hioc.Contract.{require_code}
use hioc.Contract.Disk.{Disk}
use hioc.Contract.Json.{Json}
use hioc.Availability.Types.{Policy, Profile, Observation, Attachment, Machine}
use hioc.Availability.Validate.{validate_profile}
use hioc.Availability.Evaluate.{evaluate}
use hioc.Availability.Snapshot.{Snapshot, evaluation_snapshot}
use hioc.Availability.StatusRead.{StatusValue}
use hioc.Policy.Types.{Versioned}
use hioc.Policy.Service
use hioc.Policy.Service.{second, policy_view}
use hioc.Incidents.Types.{State, Case, Item, Grant, OutboxState, is_pending, is_resolved}
use hioc.Incidents.Cases.{Projection, key_of, apply_evaluation, summary}
use hioc.Incidents.Dispatch
use hioc.Incidents.Dispatch.{Engine, transaction, read_engine, update, authorize, claim, submit}

-- The state and the deadlines that the loop over the policies carries.
pub record Progress : Type 0 where
  pub state : State
  pub deadlines : List ℕ

-- `list.append`, where there is a deadline.
abbrev pub with_deadline : Option ℕ → List ℕ → List ℕ
with_deadline none ds = ds
with_deadline (some d) ds = ds ++ d ∷ []

abbrev pub prior_machine : Option Snapshot → Option Machine
prior_machine none = none
prior_machine (some s) = some s.machine

-- `case is not None and case['lifecycle'] != 'resolved'`
abbrev pub is_open : Option Case → Bool
is_open none = false
is_open (some c) = not (is_resolved c.lifecycle)

abbrev pub validate_optional : Option Profile → Result (Unit {0})
validate_optional none = ok tt
validate_optional (some f) = validate_profile f

-- What the Asset store and the settings give to a cycle.
pub record Inputs : Type 0 where
  pub stored : Result Versioned
  pub service : Service.Surroundings
  pub policy_profiles : Dict ℕ Profile
  pub observations : List Observation
  pub evaluated_at : ℕ

-- `service._policy(store, key)` for every asset of the store
unfoldable pub policies_of : Inputs → Result (List Policy)
policies_of i = do
  v ← i.stored
  store ← second v
  ok (map (policy_view i.service store) (keys_of store.assets))

-- `min(deadlines) if deadlines else evaluated_at`
unfoldable pub earliest : ℕ → List ℕ → ℕ
earliest now [] = now
earliest now (d ∷ []) = d
earliest now (d ∷ ds) = min d (earliest now ds)

module _ (digest : Json → ℕ) (oversized : StatusValue → Bool) where
  -- The body of the loop over the policies.
  unfoldable pub evaluate_policy : Inputs → State → Progress → Policy → Result Progress
  evaluate_policy i previous g p =
      let profile = lookup p.asset i.policy_profiles in
      let rows = select (λ row. row.asset == p.asset) i.observations in
      do
        validate_optional profile
        r ←
            evaluate digest p p.attachment profile rows
              (prior_machine (lookup p.asset previous.evaluations)) i.evaluated_at
              (is_open (lookup (key_of digest p.asset) previous.cases))
        s ← apply_evaluation digest oversized g.state p r
        snapshot ← evaluation_snapshot digest p r profile rows
        ok (record {
          state = record s { evaluations = insert p.asset snapshot s.evaluations };
          deadlines = with_deadline r.valid_until g.deadlines;
        })

  unfoldable pub evaluate_policies : Inputs → State → List Policy → Progress → Result Progress
  evaluate_policies i previous [] g = ok g
  evaluate_policies i previous (p ∷ ps) g =
      evaluate_policy i previous g p >>= evaluate_policies i previous ps

  unfoldable pub evaluate_all : Inputs → State → Result Progress
  evaluate_all i previous = policies_of i >>= λ ps.
      evaluate_policies i previous ps (record { state = previous; deadlines = [] })

  -- The first transaction; an engine whose lock is held is refused.
  unfoldable pub read_previous : Engine → Result State × Engine
  read_previous e =
      if e.held
      then (err (policy forbidden false), e)
      else transaction digest oversized (λ e. (read_engine digest oversized e, e)) e

  -- The summary of what was committed.
  unfoldable pub project : ℕ → Progress → Result Projection
  unfolding earliest
  project now g = do
    v ← summary digest oversized g.state now (earliest now g.deadlines)
    ok (if is_empty g.deadlines then record v { valid = false } else v)
