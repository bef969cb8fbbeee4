-- ===== src/Incidents/Validate.antt =====
-- `validate_state` of pi4/lib/hioc/availability_incidents.py.
use hioc.Base.{
  ℕ, Bool, true, ◌&&◌, Option, none, some, [], ◌∷◌, leb, ltb, ◌==◌, nat_key, Dict, length, Result,
  ok, ◌>>◌, busy, ◌-◌, ◌≡◌, arith, lookup, >>=-eq-ok,
}
use hioc.Contract.{require, require_code, integer, asset_id, uuid4, timestamp, microseconds}
use hioc.Contract.Json.{Json, text, num, array, nil, ◌∶◌}
use hioc.Availability.Types.{Status}
use hioc.Availability.Validate.{validate_machine}
use hioc.Availability.Snapshot.{Snapshot}
use hioc.Availability.StatusRead.{
  StatusValue, read, snapshot_read, present, current, validate_status,
}
use hioc.Incidents.Types.{State, Case, Item, Grant, same_state}

-- `['pe7_expected_availability', asset_id]`
pub case_json : ℕ → Json
case_json asset = array (text "pe7_expected_availability" ∶ num asset ∶ nil)

-- `[case_key, episode]`
pub incident_json : ℕ → ℕ → Json
incident_json key episode = array (num key ∶ num episode ∶ nil)

-- The stored projection as the status that its validation builds.
unfoldable pub stored_status : ℕ → Snapshot → StatusValue
stored_status key s = record {
  result = read;
  asset = key;
  read_at = s.machine.evaluated_at;
  status_reason = snapshot_read;
  expected_availability = none;
  policy_status = present;
  current_policy_revision = some s.policy_revision;
  applied_policy_revision = some s.policy_revision;
  policy_binding = current;
  evaluation = some s.evaluation;
  observations = s.observations;
}

same_status : Status → Status → Bool
same_status Status.not_monitored Status.not_monitored = true
same_status Status.available Status.available = true
same_status Status.unknown Status.unknown = true
same_status Status.stale Status.stale = true
same_status Status.degraded Status.degraded = true
same_status Status.offline Status.offline = true
same_status Status.recovering Status.recovering = true
same_status _ _ = Bool.false

same_deadline : Option ℕ → Option ℕ → Bool
same_deadline none none = true
same_deadline (some a) (some b) = a == b
same_deadline _ _ = Bool.false

optional_stamp : Option ℕ → Result (Unit {0})
optional_stamp none = ok tt
optional_stamp (some t) = timestamp t >> ok tt

module _ (digest : Json → ℕ) (oversized : StatusValue → Bool) where
  validate_snapshot : ℕ → Snapshot → Result (Unit {0})
  unfolding same_status same_deadline
  validate_snapshot key s = do
    asset_id key
    uuid4 s.store_epoch
    integer s.policy_revision 1
    validate_machine s.machine
    require (s.machine.applied_policy_revision == s.policy_revision)
    require (
        same_status s.machine.availability_state s.evaluation.availability_state
        && s.machine.evaluated_at == s.evaluation.evaluated_at
        && same_deadline s.machine.valid_until s.evaluation.valid_until)
    validate_status oversized (stored_status key s)

  validate_snapshots : Dict ℕ Snapshot → Result (Unit {0})
  unfolding validate_snapshot
  validate_snapshots [] = ok tt
  validate_snapshots ((key, s) ∷ rest) =
      let others = validate_snapshots rest in do validate_snapshot key s; others

  validate_case : ℕ → Case → Result (Unit {0})
  unfolding optional_stamp
  validate_case key c = do
    asset_id c.asset
    require (key == digest (case_json c.asset))
    integer c.episode 1
    require (c.incident_id == digest (incident_json key c.episode))
    validate_machine c.machine
    timestamp c.detected_at
    timestamp c.updated_at
    optional_stamp c.resolved_at

  validate_cases : Dict ℕ Case → Result (Unit {0})
  unfolding validate_case
  validate_cases [] = ok tt
  validate_cases ((key, c) ∷ rest) =
      let others = validate_cases rest in do validate_case key c; others

  -- The grant repeats its event's state, and lasts at most five seconds.
  validate_grant : ℕ → Item → Option Grant → Result (Unit {0})
  validate_grant event_id item none = ok tt
  validate_grant event_id item (some g) = do
    require (g.event_id == event_id && same_state g.state item.state)
    uuid4 g.grant_id
    uuid4 g.process_epoch
    timestamp g.authorized_at
    timestamp g.not_after
    require (ltb g.authorized_at g.not_after)
    require (leb (g.not_after - g.authorized_at) (microseconds 5))

  required_stamp : Option ℕ → Result (Unit {0})
  required_stamp none = require Bool.false
  required_stamp (some t) = timestamp t >> ok tt

  validate_item : ℕ → Item → Result (Unit {0})
  unfolding validate_grant required_stamp
  validate_item event_id item = do
    require (event_id == item.event.event_id)
    asset_id item.asset
    uuid4 item.store_epoch
    integer item.policy_revision 1
    required_stamp item.evidence_valid_until
    validate_grant event_id item item.grant

  validate_outbox : Dict ℕ Item → Result (Unit {0})
  unfolding validate_item
  validate_outbox [] = ok tt
  validate_outbox ((event_id, item) ∷ rest) =
      let others = validate_outbox rest in do validate_item event_id item; others

  unfoldable pub validate_state : State → Result (Unit {0})
  unfolding validate_snapshots validate_cases validate_outbox
  validate_state s = do
    require_code (leb (length s.evaluations) 4096) busy
    validate_snapshots s.evaluations
    uuid4 s.process_epoch
    require_code (leb (length s.cases) 4096 && leb (length s.outbox) 8192) busy
    validate_cases s.cases
    validate_outbox s.outbox

  validate_outbox-event_id :
      (k : ℕ) (item : Item) (d : Dict ℕ Item)
      → validate_outbox d ≡ ok tt
      → lookup k d ≡ some item
      → (item.event).event_id ≡ k
  unfolding validate_outbox validate_item
  validate_outbox-event_id k item [] h f = cc
  validate_outbox-event_id k item ((j, i) ∷ d) h f =
      let (_, h1, rest) = >>=-eq-ok (validate_item j i) _ h in
      let (_, named, _) = >>=-eq-ok (require (j == i.event.event_id)) _ h1 in
      ground (arith, validate_outbox-event_id k item d)

  -- In a valid state every entry of the outbox stands under the identity of its event.
  pub validate_state-event_id :
      (s : State) (k : ℕ) (item : Item)
      → validate_state s ≡ ok tt
      → lookup k s.outbox ≡ some item
      → (item.event).event_id ≡ k
  unfolding validate_state
  validate_state-event_id s k item h f =
      let (_, _, h1) = >>=-eq-ok (require_code (leb (length s.evaluations) 4096) busy) _ h in
      let (_, _, h2) = >>=-eq-ok (validate_snapshots s.evaluations) _ h1 in
      let (_, _, h3) = >>=-eq-ok (uuid4 s.process_epoch) _ h2 in
      let (_, _, h4) =
        >>=-eq-ok (require_code (leb (length s.cases) 4096 && leb (length s.outbox) 8192) busy) _
          h3 in
      let (_, _, h5) = >>=-eq-ok (validate_cases s.cases) _ h4 in
      validate_outbox-event_id k item s.outbox h5 f
