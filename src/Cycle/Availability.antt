-- ===== src/Cycle/Availability.antt =====
-- `run_availability_cycle` of pi4/bin/hioc-incident-engine-v2.py: an evaluation of every asset, its
-- commit, the summary of the cases and the dispatch of what is pending. Other processes may
-- replace the engine's file between the two transactions.
pub mod Order
pub mod Outcome
use hioc.Base.{
  ℕ, Bool, true, false, Option, none, some, List, [], ◌∷◌, ◌++◌, map, Dict, if◌then◌else◌, Error,
  policy, exception, Result, ok, err, ◌>>◌, busy,
}
use hioc.Contract.{require_code}
use hioc.Contract.Disk.{Disk}
use hioc.Contract.Json.{Json}
use hioc.Availability.StatusRead.{StatusValue}
use hioc.Incidents.Types.{State}
use hioc.Incidents.Cases.{Projection}
use hioc.Incidents.Dispatch.{Engine, update}
use hioc.Cycle.Evaluation.{Inputs, Progress, read_previous, evaluate_all, project}
use hioc.Cycle.Notify.{Moment, Answer, Notified, notify_all}

-- What the world sees of a cycle, in order.
pub data Action : Type 0 where
  published : Projection → Action
  handed : ℕ → Action

pub record Cycle : Type 0 where
  pub engine : Engine
  pub actions : List Action
  pub outcome : Result (Projection × Dict ℕ Answer)

-- The arguments of a cycle; `meanwhile` is what other processes make of the engine's file before
-- the second transaction, and `publisher` is how the publication ends, where there is one.
pub record Setting : Type 0 where
  pub inputs : Inputs
  pub meanwhile : Option State → Option State
  pub disk : Disk
  pub publisher : Option (Projection → Result (Unit {0}))
  pub has_transport : Bool
  pub moments : ℕ → Moment

abbrev pub stop : Error → Engine → List Action → Cycle
stop x e actions = record { engine = e; actions = actions; outcome = err x }

abbrev pub outcome_of : Projection → Notified → Result (Projection × Dict ℕ Answer)
outcome_of v n = if n.ended then err exception else ok (v, n.outcomes)

-- The dispatch before its first entry.
abbrev pub begun : Engine → Notified
begun e = record { engine = e; outcomes = []; handed = []; ended = false }

-- The file as the second transaction finds it.
abbrev pub reopened : Setting → Engine → Engine
reopened w e = record e { file = w.meanwhile e.file }

module _ (digest : Json → ℕ) (oversized : StatusValue → Bool) (equal : State → State → Bool) where
  -- The dispatch, after what was done so far.
  unfoldable pub notify : Setting → Progress → Projection → List Action → Engine → Cycle
  notify w g v actions e =
      let n =
        notify_all digest oversized g.state.process_epoch w.has_transport w.moments g.state.outbox
          (begun e) in
      record {
        engine = n.engine;
        actions = actions ++ map handed n.handed;
        outcome = outcome_of v n;
      }

  -- The publication comes before any notification.
  unfoldable pub after_publisher :
      Setting → Progress → Projection → Engine → Result (Unit {0}) → Cycle
  unfolding notify
  after_publisher w g v e (err x) = stop x e (published v ∷ [])
  after_publisher w g v e (ok _) = notify w g v (published v ∷ []) e

  unfoldable pub publish :
      Setting → Progress → Projection → Engine → Option (Projection → Result (Unit {0})) → Cycle
  unfolding after_publisher notify
  publish w g v e none = notify w g v [] e
  publish w g v e (some publisher) = after_publisher w g v e (publisher v)

  unfoldable pub after_project : Setting → Progress → Engine → Result Projection → Cycle
  unfolding publish
  after_project w g e (err x) = stop x e []
  after_project w g e (ok v) = publish w g v e w.publisher

  unfoldable pub after_commit : Setting → Progress → Result (Unit {0}) × Engine → Cycle
  unfolding after_project
  after_commit w g (err x, e) = stop x e []
  after_commit w g (ok _, e) =
      after_project w g e (project digest oversized w.inputs.evaluated_at g)

  -- The second transaction writes only over the state that was evaluated.
  unfoldable pub decide_cycle : State → State → State → Result (Unit {0} × State)
  decide_cycle previous updated found = require_code (equal found previous) busy >> ok (tt, updated)

  unfoldable pub after_evaluation : Setting → State → Engine → Result Progress → Cycle
  unfolding after_commit decide_cycle
  after_evaluation w previous e (err x) = stop x e []
  after_evaluation w previous e (ok g) =
      after_commit w g
        (update digest oversized w.disk (decide_cycle previous g.state) (reopened w e))

  unfoldable pub after_read : Setting → Result State × Engine → Cycle
  unfolding after_evaluation
  after_read w (err x, e) = stop x e []
  after_read w (ok previous, e) =
      after_evaluation w previous e (evaluate_all digest oversized w.inputs previous)

  unfoldable pub run_cycle : Setting → Engine → Cycle
  unfolding after_read
  run_cycle w e = after_read w (read_previous digest oversized e)
