-- ===== src/Examples/Engine.antt =====
-- Runs of the incident engine and the dispatcher (pi4/lib/hioc/availability_incidents.py) on
-- concrete states, to which the theorems are applied.
use hioc.Base.{
  ℕ, ◌+◌, ◌*◌, ◌≡◌, ◌≢◌, refl, ◌⊎◌, contains, Bool, true, false, Option, none, some, List, [], ◌∷◌,
  ok, lookup, nat_key,
}
use hioc.Contract.{is_identifier, is_asset_id, is_hex_digest, is_uuid4}
use hioc.Availability.Types.{Evaluation, Status, Reason}
use hioc.Availability.Validate.{is_source_state, validate_seen, validate_machine}
use hioc.Availability.StatusRead.{StatusValue}
use hioc.Contract.Disk.{Disk}
use hioc.Incidents.Types.{State, Case, Item, Grant, Lifecycle, OutboxState, Transition, in_flight}
use hioc.Incidents.Validate.{validate_state}
use hioc.Incidents.Cases.{
  advance, switch_off, renew, current_case, report, step_case, apply_case, apply_evaluation,
}
use hioc.Incidents.Lifecycle.{IsFrozen, IsLegal}
use hioc.Incidents.Transitions.{
  apply_evaluation-others, apply_evaluation-IsLegal, apply_evaluation-IsFrozen,
}
use hioc.Incidents.Dispatch.{
  Engine, Surroundings, read_engine, write_engine, transaction, commit, update, decide_start,
  deliver, submit_claim, submit,
}
use hioc.Incidents.Types.{process_restart_unknown}
use hioc.Incidents.Submit.{start_once}
use hioc.Incidents.Attempt.{IsSent, submit-IsSent}
use hioc.Incidents.Outbox.{IsSwitchedOff, apply_evaluation-off}
use hioc.Incidents.Reports.{apply_evaluation-listed}
use hioc.Examples.{flat, epoch, noon, later_on, policy, seen, result, down}

abbrev pub never : StatusValue → Bool
never v = false

-- A case of the asset.
abbrev pub case : Lifecycle → Status → Case
case l status = record {
  asset = 7;
  episode = 1;
  incident_id = 0;
  lifecycle = l;
  suppressed = false;
  availability_state = status;
  policy_revision = 1;
  profile_revision = some 1;
  detected_at = noon;
  updated_at = noon;
  resolved_at = none;
  machine = seen 1 0 (some noon) status;
  events = [];
}

abbrev pub item : OutboxState → Option Grant → Item
item state grant = record {
  event = record {
    event_id = 0;
    incident_id = 0;
    event_kind = Transition.outage_started;
    occurred_at = noon;
    policy_revision = 1;
    asset_id_digest = 0;
  };
  asset = 7;
  store_epoch = epoch;
  policy_revision = 1;
  evidence_sha256 = 0;
  evidence_valid_until = some (noon + 120 * 1000000);
  state = state;
  grant = grant;
  off_revision = none;
  off_at = none;
}

abbrev pub state : Case → OutboxState → Option Grant → State
state c o g = record {
  cases = (0, c) ∷ [];
  outbox = (0, item o g) ∷ [];
  process_epoch = epoch;
  legacy_active = none;
  evaluations = [];
}

abbrev pub detected : State
detected = record (state (case Lifecycle.detected Status.degraded) OutboxState.proposed none) {
  outbox = [];
}

-- The detected case after the second negative.
abbrev struck : State
struck = record detected {
  cases =
      (
        0,
        record (case Lifecycle.active Status.offline) {
          updated_at = later_on;
          machine = down.state;
          events = 0 ∷ [];
        },
      )
      ∷ [];
  outbox =
      (
        0,
        record (item OutboxState.pending_authorization none) {
          event = record (item OutboxState.pending_authorization none).event {
            occurred_at = later_on;
          };
          evidence_valid_until = down.valid_until;
        },
      )
      ∷ [];
}

run_struck : apply_evaluation flat never detected policy down ≡ ok struck
unfolding validate_state validate_machine validate_seen is_source_state is_identifier is_asset_id
    is_hex_digest is_uuid4 apply_evaluation apply_case current_case step_case advance renew report
run_struck = refl

-- The outage of the struck case goes on without news.
abbrev pending : State
pending = state (case Lifecycle.active Status.offline) OutboxState.pending_authorization none

abbrev doubtful : Evaluation
doubtful = result 1 0 (some noon) Status.degraded Reason.negative_pending

abbrev doubted : State
doubted = record pending {
  cases =
      (
        0,
        record (case Lifecycle.active Status.degraded) {
          updated_at = later_on;
          machine = doubtful.state;
        },
      )
      ∷ [];
}

run_doubted : apply_evaluation flat never pending policy doubtful ≡ ok doubted
unfolding validate_state validate_machine validate_seen is_source_state is_identifier is_asset_id
    is_hex_digest is_uuid4 apply_evaluation apply_case current_case step_case advance renew report
run_doubted = refl

abbrev off : Evaluation
off = result 0 0 none Status.not_monitored Reason.operator_disabled

abbrev silenced : State
silenced = record pending {
  cases =
      (
        0,
        record (case Lifecycle.active Status.not_monitored) {
          updated_at = later_on;
          machine = off.state;
          suppressed = true;
        },
      )
      ∷ [];
  outbox =
      (
        0,
        record (item OutboxState.cancelled none) { off_revision = some 1; off_at = some later_on },
      )
      ∷ [];
}

run_silenced : apply_evaluation flat never pending policy off ≡ ok silenced
unfolding validate_state validate_machine validate_seen is_source_state is_identifier is_asset_id
    is_hex_digest is_uuid4 apply_evaluation apply_case current_case step_case advance renew report
    switch_off
run_silenced = refl

apply_evaluation-listed_example :
    ((c : Case) × (lookup 0 struck.cases ≡ some c) × (contains 0 c.events ≡ true))
    × ((false ≡ true)
        ⊎ ((i : Item) × (lookup 0 struck.outbox ≡ some i)
            × (i.state ≡ OutboxState.pending_authorization)
            × (i.grant ≡ none)
            × ((i.event).event_kind ≡ Transition.outage_started)
            × ((i.event).incident_id ≡ 0)
            × (i.asset ≡ 7)))
apply_evaluation-listed_example =
    apply_evaluation-listed flat never detected policy down Transition.outage_started run_struck
      refl refl refl

apply_evaluation-others_example : lookup 1 struck.cases ≡ lookup 1 detected.cases
apply_evaluation-others_example =
    apply_evaluation-others flat never detected policy down run_struck 1 (λ h. cc)

apply_evaluation-IsLegal_example :
    (c : Case) × (lookup 0 struck.cases ≡ some c)
    × IsLegal down (case Lifecycle.detected Status.degraded) c
apply_evaluation-IsLegal_example =
    apply_evaluation-IsLegal flat never detected policy down run_struck refl

apply_evaluation-IsFrozen_example :
    (c : Case) × (lookup 0 doubted.cases ≡ some c)
    × IsFrozen (case Lifecycle.active Status.offline) c
apply_evaluation-IsFrozen_example =
    apply_evaluation-IsFrozen flat never pending policy doubtful run_doubted refl refl

apply_evaluation-off_example :
    ((c : Case) × (lookup 0 silenced.cases ≡ some c) × (c.suppressed ≡ true))
    × (i : Item) × (lookup 0 silenced.outbox ≡ some i)
    × IsSwitchedOff 7 (some 1) later_on (item OutboxState.pending_authorization none) i
apply_evaluation-off_example =
    apply_evaluation-off flat never pending policy off 0
      (item OutboxState.pending_authorization none) run_silenced refl refl refl

abbrev grant : Option ℕ → Grant
grant started = record {
  grant_id = epoch;
  event_id = 0;
  store_epoch = epoch;
  asset_revision = 1;
  evidence_sha256 = 0;
  authorized_at = noon;
  not_after = noon + 5 * 1000000;
  process_epoch = epoch;
  state = in_flight;
  claimed_at = some noon;
  transport_started_at = started;
  completed_at = none;
  outcome = none;
}

abbrev claimed : Option ℕ → State
claimed started = state (case Lifecycle.active Status.offline) in_flight (some (grant started))

abbrev engine : Engine
engine = record {
  text_length = λ s. 0;
  held = false;
  uncertain = false;
  file = some (claimed none);
}

abbrev pub surroundings : Surroundings
surroundings = record {
  first_clock = noon;
  second_clock = noon + 1000000;
  third_clock = noon + 2000000;
  start_disk = Disk.synced;
  outcome_disk = Disk.synced;
  transport = record { deadline_aware = true; automatic_retries = false; offline_queue = false };
  answer = some OutboxState.delivered;
}

run_submit :
    (submit flat never epoch surroundings (item in_flight (some (grant none))) engine).2 ≡ 0 ∷ []
unfolding validate_state validate_machine validate_seen is_source_state is_identifier is_asset_id
    is_hex_digest is_uuid4 read_engine write_engine transaction commit update decide_start
    submit_claim submit deliver
run_submit = refl

cons-ne : (xs : List ℕ) (k : ℕ) → xs ≡ k ∷ [] → xs ≢ []
cons-ne xs k h e = cc

submit-IsSent_example :
    IsSent flat never epoch surroundings
      (item in_flight (some (grant none)))
      (grant none)
      engine
      (submit flat never epoch surroundings (item in_flight (some (grant none))) engine)
submit-IsSent_example =
    submit-IsSent flat never epoch surroundings (item in_flight (some (grant none))) engine
      (grant none) refl (cons-ne _ 0 run_submit)

run_start :
    decide_start flat never epoch (grant none) noon 0 (claimed none) ≡ ok (tt, claimed (some noon))
unfolding decide_start
run_start = refl

start_once_example :
    decide_start flat never epoch (grant none) later_on 0 (claimed (some noon))
    ≢ ok (tt, claimed (some later_on))
start_once_example =
    start_once flat never epoch (grant none) (grant none) noon later_on 0 (claimed none)
      (claimed (some noon)) tt run_start (tt, claimed (some later_on))

abbrev unknown_delivery : State
unknown_delivery = state (case Lifecycle.active Status.offline) OutboxState.delivery_unknown (
    some (record (grant none) {
      state = OutboxState.delivery_unknown;
      outcome = some process_restart_unknown;
    }))
