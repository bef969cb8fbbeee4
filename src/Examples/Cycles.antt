-- ===== src/Examples/Cycles.antt =====
-- A cycle of `run_availability_cycle` (pi4/bin/hioc-incident-engine-v2.py): the second negative of
-- a router turns its case active, and the outage is reported.
use hioc.Base.{
  ℕ, ◌+◌, ◌*◌, ◌<◌, ◌≡◌, ◌⊎◌, refl, Bool, true, false, none, some, [], ◌∷◌, ok, Dict, nat_key, ◌==◌,
  ◌&&◌, length,
}
use hioc.Contract.{is_identifier, is_meaning, is_asset_id, is_hex_digest, is_uuid4}
use hioc.Contract.Disk.{Disk}
use hioc.Availability.Types.{strong, Status, EvidenceKind, Reason}
use hioc.Availability.Snapshot.{
  Snapshot, EvidenceScope, Freshness, Collection, Completion, row_quality, read_row, quality_of,
  qualities, external_reason, scope_summary, evaluation_snapshot,
}
use hioc.Availability.Validate.{
  is_sorted_set, validate_definition, validate_sources, validate_profile, validate_observation,
  is_source_state, validate_seen, validate_machine,
}
use hioc.Availability.Evaluate.{
  finish, admit, track, expire, check_row, scan_row, scan_found, scan_source, scan, count_positive,
  count_negative, judge_negative, judge_positive, judge, start, rebind, conclude, evaluate_valid,
  checked, with_profile, evaluate_from, evaluate,
}
use hioc.Availability.StatusRead.{is_quality, are_qualities, is_view, is_result, validate_status}
use hioc.Incidents.Validate.{stored_status, validate_state}
use hioc.Policy.Types.{current, Record, Store, Source}
use hioc.Policy.Service.{policy_view, no_fields}
use hioc.Incidents.Types.{State, Lifecycle, OutboxState}
use hioc.Incidents.Cases.{
  Projection, apply_evaluation, apply_case, current_case, step_case, advance, renew, report,
  insert_row, sort_rows, summary,
}
use hioc.Incidents.Dispatch
use hioc.Incidents.Dispatch.{
  Engine, read_engine, write_engine, transaction, commit, update, guard_store, is_supported,
  decide_authorize, authorize, decide_claim, claim, decide_outcome, record_outcome, decide_start,
  sent_outcome, deliver, submit_claim, submit,
}
use hioc.Cycle.Evaluation.{
  policies_of, evaluate_policy, evaluate_policies, evaluate_all, read_previous, earliest, project,
}
use hioc.Cycle.Notify.{
  Moment, Answer, submitted, note, after_claim, after_authorize, notify_event, notify_item,
  notify_all,
}
use hioc.Cycle.Evaluation.Current.{IsCurrent}
use hioc.Cycle.Availability.Order.{Committed, Stopped, Shown, run_cycle-Shown, run_cycle-raced}
use hioc.Cycle.Availability.Outcome.{run_cycle-IsCurrent, run_cycle-ahead}
use hioc.Cycle.Availability.{
  Setting, published, handed, notify, after_publisher, publish, after_project, after_commit,
  decide_cycle, after_evaluation, after_read, run_cycle,
}
use hioc.Examples.{flat, epoch, noon, later_on, profile, row, seen}
use hioc.Examples.Engine.{never, detected, surroundings}

abbrev router : Record
router = record {
  stable_device_id = 7;
  fields = no_fields;
  created_at = noon;
  updated_at = noon;
  update_source = Source.operator_cli;
  revision = 1;
  policy = record {
    expected_availability = some true;
    infrastructure_device = none;
    infrastructure_type = none;
  };
}

abbrev store : Store
store = record {
  updated_at = noon;
  asset_count = 1;
  assets = (7, router) ∷ [];
  store_epoch = epoch;
  store_revision = 3;
  policy_requests = [];
}

abbrev snapshot : Snapshot
snapshot = record {
  store_epoch = epoch;
  policy_revision = 1;
  machine = seen 1 0 (some noon) Status.degraded;
  evaluation = record {
    availability_state = Status.degraded;
    reason_code = Reason.negative_pending;
    evidence_scope = EvidenceScope.device;
    evaluated_at = noon;
    valid_until = some (noon + 120 * 1000000);
    freshness = Freshness.unknown;
  };
  observations = some (
      record {
        source_ref = 0;
        scope = EvidenceScope.device;
        collection_status = Collection.success;
        completeness = Completion.complete;
        freshness = Freshness.fresh;
        observed_at = some noon;
        valid_until = some (noon + 120 * 1000000);
      }
      ∷ []);
}

abbrev previous : State
previous = record detected { evaluations = (7, snapshot) ∷ [] }

abbrev engine : Engine
engine = record { text_length = λ s. 0; held = false; uncertain = false; file = some previous }

abbrev durable_store : Dispatch.Store
durable_store = record {
  is_version_2 = true;
  uncertain = false;
  durable = true;
  store_epoch = epoch;
  assets = (7, record { expected_availability = some true; revision = 1 }) ∷ [];
}

abbrev moment : Moment
moment = record {
  authorize_store = ok durable_store;
  operator_enabled = true;
  attachment = λ k. strong;
  grant_id = epoch;
  authorize_clock = later_on;
  authorize_disk = Disk.synced;
  claim_store = ok durable_store;
  claim_clock = later_on;
  claimed_clock = later_on;
  claim_disk = Disk.synced;
  surroundings = record surroundings {
    first_clock = later_on;
    second_clock = later_on + 1000000;
    third_clock = later_on + 2000000;
  };
}

abbrev setting : Setting
setting = record {
  inputs = record {
    stored = ok (current store);
    service = record { attachment = λ k. strong; snapshot = λ k. none };
    policy_profiles = (7, profile) ∷ [];
    observations = row EvidenceKind.negative 2 later_on ∷ [];
    evaluated_at = later_on;
  };
  meanwhile = λ f. f;
  disk = Disk.synced;
  publisher = some (λ v. ok tt);
  has_transport = true;
  moments = λ k. moment;
}

-- States of one epoch are taken for equal.
abbrev same : State → State → Bool
same a b = a.process_epoch == b.process_epoch

-- The summary that is published.
abbrev shown : Projection
shown = record {
  evaluated_at = later_on;
  valid_until = later_on + 120 * 1000000;
  valid = true;
  total_case_count = 1;
  omitted_case_count = 0;
  rows =
      record {
        incident_id = 0;
        asset_id_digest = 0;
        episode = 1;
        lifecycle = Lifecycle.active;
        availability_state = Status.offline;
        suppressed = false;
        policy_revision = 1;
        profile_revision = some 1;
        detected_at = noon;
        updated_at = later_on;
      }
      ∷ [];
}

abbrev answers : Dict ℕ Answer
answers = (0, submitted OutboxState.delivered) ∷ []

run_reported : (run_cycle flat never same setting engine).actions ≡ published shown ∷ handed 0 ∷ []
unfolding finish admit track expire check_row scan_row scan_found scan_source scan count_positive
    count_negative judge_negative judge_positive judge start rebind conclude evaluate_valid checked
    with_profile evaluate_from evaluate is_sorted_set validate_definition validate_sources
    validate_profile validate_observation is_source_state validate_seen validate_machine
    is_identifier is_meaning is_asset_id is_hex_digest is_uuid4 is_quality are_qualities is_view
    is_result validate_status row_quality read_row quality_of qualities external_reason
    scope_summary evaluation_snapshot stored_status validate_state apply_evaluation apply_case
    current_case step_case advance renew report insert_row sort_rows summary read_engine
    write_engine transaction commit update guard_store is_supported decide_authorize authorize
    decide_claim claim decide_outcome record_outcome decide_start sent_outcome deliver submit_claim
    submit policy_view policies_of evaluate_policy evaluate_policies evaluate_all read_previous
    earliest project note after_claim after_authorize notify_event notify_item notify_all notify
    after_publisher publish after_project after_commit decide_cycle after_evaluation after_read
    run_cycle
run_reported = refl

run_returned : (run_cycle flat never same setting engine).outcome ≡ ok (shown, answers)
unfolding finish admit track expire check_row scan_row scan_found scan_source scan count_positive
    count_negative judge_negative judge_positive judge start rebind conclude evaluate_valid checked
    with_profile evaluate_from evaluate is_sorted_set validate_definition validate_sources
    validate_profile validate_observation is_source_state validate_seen validate_machine
    is_identifier is_meaning is_asset_id is_hex_digest is_uuid4 is_quality are_qualities is_view
    is_result validate_status row_quality read_row quality_of qualities external_reason
    scope_summary evaluation_snapshot stored_status validate_state apply_evaluation apply_case
    current_case step_case advance renew report insert_row sort_rows summary read_engine
    write_engine transaction commit update guard_store is_supported decide_authorize authorize
    decide_claim claim decide_outcome record_outcome decide_start sent_outcome deliver submit_claim
    submit policy_view policies_of evaluate_policy evaluate_policies evaluate_all read_previous
    earliest project note after_claim after_authorize notify_event notify_item notify_all notify
    after_publisher publish after_project after_commit decide_cycle after_evaluation after_read
    run_cycle
run_returned = refl

run_cycle-Shown_example :
    Stopped flat never same setting (run_cycle flat never same setting engine)
    ⊎ Shown flat never same setting engine (run_cycle flat never same setting engine)
run_cycle-Shown_example = run_cycle-Shown flat never same setting engine

run_cycle-IsCurrent_example :
    (k : Committed flat never same setting engine (run_cycle flat never same setting engine))
    × ((k.after).file ≡ some k.progress.state)
    × IsCurrent later_on k.progress.state (policy_view (setting.inputs).service store 7)
run_cycle-IsCurrent_example =
    run_cycle-IsCurrent flat never same setting engine shown answers store 7 router run_returned
      refl refl

run_cycle-ahead_example :
    (later_on ≡ later_on) × (true ≡ true → later_on < later_on + 120 * 1000000)
run_cycle-ahead_example = run_cycle-ahead flat never same setting engine shown answers run_returned

-- Another process replaces the file by one with another epoch.
abbrev other : Setting
other = record setting { meanwhile = λ f. some (record previous { process_epoch = 1 }) }

-- States of one epoch with as many cases, entries and evaluations are taken for equal.
abbrev alike : State → State → Bool
alike a b =
    a.process_epoch == b.process_epoch
    && length a.cases == length b.cases
    && length a.outbox == length b.outbox
    && length a.evaluations == length b.evaluations

run_cycle-raced_example : Stopped flat never alike other (run_cycle flat never alike other engine)
run_cycle-raced_example =
    run_cycle-raced flat never alike other engine previous (record previous { process_epoch = 1 })
      refl refl refl
