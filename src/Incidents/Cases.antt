-- ===== src/Incidents/Cases.antt =====
-- `apply_evaluation`, `restart`, `summary` and `displayed` of
-- pi4/lib/hioc/availability_incidents.py.
use hioc.Base.{
  ℕ, ◌+◌, Bool, true, false, ◌&&◌, ◌||◌, not, Option, none, some, List, [], ◌∷◌, ◌++◌, map, ltb,
  leb, ◌==◌, nat_key, if◌then◌else◌, Dict, lookup, insert, map_values, values, contains, select,
  length, Result, ok, err, exception, ◌>>=◌, ◌>>◌,
}
use hioc.Contract.Json.{Json, text, num, array, nil, ◌∶◌}
use hioc.Availability.Types.{Policy, Evaluation, Status}
use hioc.Availability.StatusRead.{StatusValue}
use hioc.Incidents.Types.{
  State, Case, Item, Grant, Lifecycle, Transition, OutboxState, detected, confirmed, active,
  recovering, resolved, outage_started, outage_recovered, pending_authorization, proposed,
  authorized, in_flight, cancelled, expired, delivery_unknown, process_restart_unknown, is_pending,
  is_resolved, is_offline, is_required,
}
use hioc.Incidents.Validate.{case_json, incident_json, validate_state}

-- `[key, episode, kind]`
pub event_json : ℕ → ℕ → Transition → Json
event_json key episode outage_started = array (num key ∶ num episode ∶ text "OUTAGE_STARTED" ∶ nil)
event_json key episode outage_recovered =
    array (num key ∶ num episode ∶ text "OUTAGE_RECOVERED" ∶ nil)

-- `availability in ('DEGRADED', 'OFFLINE')`
abbrev pub opens_case : Status → Bool
opens_case Status.degraded = true
opens_case Status.offline = true
opens_case _ = false

abbrev pub is_off : Status → Bool
is_off Status.not_monitored = true
is_off _ = false

-- The lifecycle after an evaluation, and the transition that it reports.
unfoldable pub advance : Lifecycle → Status → Lifecycle × Option Transition
advance detected Status.offline = (active, some outage_started)
advance confirmed Status.offline = (active, some outage_started)
advance active Status.recovering = (recovering, none)
advance active Status.available = (resolved, some outage_recovered)
advance recovering Status.available = (resolved, some outage_recovered)
advance recovering Status.offline = (active, none)
advance l s = (l, none)

-- `evaluation['profile_revision'] or case['profile_revision']`
abbrev or_revision : Option ℕ → Option ℕ → Option ℕ
or_revision none old = old
or_revision (some r) old = some r

abbrev episode_of : Option Case → ℕ
episode_of none = 0
episode_of (some c) = c.episode

-- `policy['revision']`
abbrev pub policy_revision_of : Policy → ℕ
policy_revision_of p = elim p.revision as (λ _. ℕ) [ none ↦ 0 | some n ↦ n ]

-- An operator's OFF reaches every entry of the asset, and cancels what is only proposed.
unfoldable pub switch_off : ℕ → Option ℕ → ℕ → Item → Item
switch_off asset revision now item =
    if not (item.asset == asset)
    then item
    else record item { off_revision = revision; off_at = some now; state = cancel item.state }
  where
    cancel : OutboxState → OutboxState
    cancel proposed = cancelled
    cancel pending_authorization = cancelled
    cancel s = s

-- A pending proposal takes the revision of the policy and the evidence of an evaluation that still
-- supports it.
unfoldable pub renew : Policy → Evaluation → Item → Item
renew p r item =
    if item.asset == p.asset
      && is_pending item.state
      && is_required (item.event).event_kind r.availability_state
    then record item {
      policy_revision = policy_revision_of p;
      store_epoch = p.store_epoch;
      evidence_sha256 = r.input_sha256;
      evidence_valid_until = r.valid_until;
      event = record item.event { policy_revision = policy_revision_of p };
    }
    else item

-- `case.update(...)`
abbrev pub refresh : Policy → Evaluation → Case → Case
refresh p r c = record c {
  machine = r.state;
  availability_state = r.availability_state;
  updated_at = r.evaluated_at;
  policy_revision = policy_revision_of p;
  profile_revision = or_revision r.profile_revision c.profile_revision;
}

abbrev pub resolved_by : Evaluation → Option Transition → Option ℕ → Option ℕ
resolved_by r (some outage_recovered) old = some r.evaluated_at
resolved_by r _ old = old

module _ (digest : Json → ℕ) where
  abbrev pub key_of : ℕ → ℕ
  key_of asset = digest (case_json asset)

  new_case : ℕ → ℕ → Policy → Evaluation → Case
  new_case key episode p r = record {
    asset = p.asset;
    episode = episode;
    incident_id = digest (incident_json key episode);
    lifecycle = detected;
    suppressed = false;
    availability_state = r.availability_state;
    policy_revision = policy_revision_of p;
    profile_revision = r.profile_revision;
    detected_at = r.evaluated_at;
    updated_at = r.evaluated_at;
    resolved_at = none;
    machine = r.state;
    events = [];
  }

  -- The case that the evaluation is about: a new one where there is none, or where an outage
  -- follows a resolved one. Without a case, only a failing asset opens one.
  unfoldable pub current_case : ℕ → Policy → Evaluation → Option Case → Option Case
  unfolding new_case
  current_case key p r none =
      if opens_case r.availability_state then some (new_case key 1 p r) else none
  current_case key p r (some c) =
      if is_resolved c.lifecycle && is_offline r.availability_state
      then some (new_case key (c.episode + 1) p r)
      else some c

  -- The entry of a transition.
  abbrev pub proposal : ℕ → Policy → Evaluation → Case → Transition → Item
  proposal key p r c kind = record {
    event = record {
      event_id = digest (event_json key c.episode kind);
      incident_id = c.incident_id;
      event_kind = kind;
      occurred_at = r.evaluated_at;
      policy_revision = policy_revision_of p;
      asset_id_digest = digest (num p.asset);
    };
    asset = p.asset;
    store_epoch = p.store_epoch;
    policy_revision = policy_revision_of p;
    evidence_sha256 = r.input_sha256;
    evidence_valid_until = r.valid_until;
    state = pending_authorization;
    grant = none;
    off_revision = none;
    off_at = none;
  }

  -- The case and the outbox after a transition: its event is recorded once.
  unfoldable pub report :
      ℕ → Policy → Evaluation → Case → Dict ℕ Item → Option Transition → Case × Dict ℕ Item
  report key p r c outbox none = (c, outbox)
  report key p r c outbox (some kind) =
      let event_id = digest (event_json key c.episode kind) in
      if contains event_id c.events then (c, outbox) else (
        record c { events = c.events ++ event_id ∷ [] },
        insert event_id (proposal key p r c kind) outbox,
      )

  -- The lifecycle step of a monitored asset's case.
  unfoldable pub step_case : ℕ → Policy → Evaluation → Case → Dict ℕ Item → Case × Dict ℕ Item
  step_case key p r c outbox =
      let (l, kind) = advance c.lifecycle r.availability_state in
      report key p r
        (record (refresh p r c) {
          suppressed = false;
          lifecycle = l;
          resolved_at = resolved_by r kind c.resolved_at;
        })
        (map_values (renew p r) outbox) kind

  -- What is done with the case, if there is one.
  unfoldable pub apply_case :
      (StatusValue → Bool) → State → Policy → Evaluation → Option Case → Result State
  unfolding step_case
  apply_case oversized s p r none = ok s
  apply_case oversized s p r (some c) =
      let key = key_of p.asset in
      if is_off r.availability_state
      then ok (record s {
        cases = insert key (record (refresh p r c) { suppressed = true }) s.cases;
        outbox = map_values (switch_off p.asset p.revision r.evaluated_at) s.outbox;
      })
      else (let (c', outbox') = step_case key p r c s.outbox in
          let s' : State = record s { cases = insert key c' s.cases; outbox = outbox' } in
          validate_state digest oversized s' >> ok s')

  -- `apply_evaluation`
  unfoldable pub apply_evaluation :
      (StatusValue → Bool) → State → Policy → Evaluation → Result State
  apply_evaluation oversized s p r = do
    validate_state digest oversized s
    let key = key_of p.asset
    apply_case oversized s p r (current_case key p r (lookup key s.cases))

-- After a restart no grant of an earlier process can be used, and what was in flight is unknown. An
-- entry in either state without a grant ends the restart by a `TypeError`.
unfoldable pub restart_item : Item → Result Item
restart_item item = restart_from item.state item.grant item
  where
    restart_from : OutboxState → Option Grant → Item → Result Item
    restart_from authorized none i = err exception
    restart_from authorized (some g) i =
        ok (record i { state = expired; grant = some (record g { state = expired }) })
    restart_from in_flight none i = err exception
    restart_from in_flight (some g) i = ok (record i {
      state = delivery_unknown;
      grant = some (record g { state = delivery_unknown; outcome = some process_restart_unknown });
    })
    restart_from _ g i = ok i

-- The loop over the outbox.
unfoldable pub restart_all : Dict ℕ Item → Result (Dict ℕ Item)
restart_all [] = ok []
restart_all ((k, item) ∷ d) =
    let rest = restart_all d in do i ← restart_item item; d' ← rest; ok ((k, i) ∷ d')

-- An entry of the summary.
pub record Row : Type 0 where
  pub incident_id : ℕ
  pub asset_id_digest : ℕ
  pub episode : ℕ
  pub lifecycle : Lifecycle
  pub availability_state : Status
  pub suppressed : Bool
  pub policy_revision : ℕ
  pub profile_revision : Option ℕ
  pub detected_at : ℕ
  pub updated_at : ℕ

-- `valid` is the status `VALID`; `run_availability_cycle` may set `UNAVAILABLE`.
pub record Projection : Type 0 where
  pub evaluated_at : ℕ
  pub valid_until : ℕ
  pub valid : Bool
  pub total_case_count : ℕ
  pub omitted_case_count : ℕ
  pub rows : List Row

-- `(severity, detected_at, incident_id)`, where every severity is the same.
abbrev pub row_le : Row → Row → Bool
row_le a b =
    ltb a.detected_at b.detected_at
    || a.detected_at == b.detected_at && leb a.incident_id b.incident_id

unfoldable pub insert_row : Row → List Row → List Row
insert_row r [] = r ∷ []
insert_row r (x ∷ xs) = if row_le r x then r ∷ x ∷ xs else x ∷ insert_row r xs

unfoldable pub sort_rows : List Row → List Row
sort_rows [] = []
sort_rows (r ∷ rs) = insert_row r (sort_rows rs)

abbrev pub is_shown : Lifecycle → Bool
is_shown active = true
is_shown recovering = true
is_shown _ = false

-- The active slot of the display: an active legacy incident, a case, a statement that the
-- evidence is not available, or what the legacy engine shows.
pub data Display {ℓ} (A : Type ℓ) : Type ℓ where
  legacy : A → Display A
  unavailable : ℕ → Display A
  case_shown : Row → Display A

module _ (digest : Json → ℕ) where
  abbrev pub row_of : Case → Row
  row_of c = record {
    incident_id = c.incident_id;
    asset_id_digest = digest (num c.asset);
    episode = c.episode;
    lifecycle = c.lifecycle;
    availability_state = c.availability_state;
    suppressed = c.suppressed;
    policy_revision = c.policy_revision;
    profile_revision = c.profile_revision;
    detected_at = c.detected_at;
    updated_at = c.updated_at;
  }

  unfoldable pub summary : (StatusValue → Bool) → State → ℕ → ℕ → Result Projection
  unfolding sort_rows insert_row
  summary oversized s now deadline = do
    validate_state digest oversized s
    ok (record {
      evaluated_at = now;
      valid_until = deadline;
      valid = true;
      total_case_count = length (values s.cases);
      omitted_case_count = 0;
      rows = sort_rows (map row_of (values s.cases));
    })

  -- `restart`; `epoch` is the fresh UUID.
  unfoldable pub restart : (StatusValue → Bool) → ℕ → State → Result State
  unfolding restart_item restart_all
  restart oversized epoch s = do
    validate_state digest oversized s
    outbox ← restart_all s.outbox
    ok (record s { process_epoch = epoch; outbox = outbox })

module _ {ℓ} {A : Type ℓ} (is_active : A → Bool) where
  unfoldable pub displayed : A → Projection → Display A
  displayed old v =
      if is_active old
      then legacy old
      else first_shown (select (λ c. is_shown c.lifecycle && not c.suppressed) v.rows)
    where
      first_shown : List Row → Display A
      first_shown [] = legacy old
      first_shown (c ∷ cs) = if v.valid then case_shown c else unavailable v.evaluated_at
