-- ===== src/Examples.antt =====
-- Runs of the availability evaluator, the incident engine and the dispatcher
-- (pi4/lib/hioc/availability.py and availability_incidents.py) on concrete inputs, to which the
-- theorems are applied.
pub mod Engine
pub mod Requests
pub mod Policies
pub mod Federation
pub mod Reports
pub mod Slot
pub mod Cycles
pub mod Reviews
pub mod Incident
use hioc.Base.{
  ℕ, ◌+◌, ◌*◌, ◌^◌, ◌≤◌, ◌≡◌, ◌≢◌, refl, Bool, true, false, Option, none, some, List, [], ◌∷◌, ok,
  Dict, lookup, nat_key, length, values, all, Result,
}
use hioc.Contract.{is_identifier, is_meaning, is_asset_id, is_hex_digest, is_uuid4}
use hioc.Contract.Json.{Json}
use hioc.Availability.Types.{
  Policy, Attachment, Profile, Definition, Observation, Machine, SourceState, Evaluation, Status,
  Kind, Reason, hex, offline, available, strong, CollectionStatus, Completeness, EvidenceKind,
  Scope,
}
use hioc.Availability.Validate.{
  is_sorted_set, validate_definition, validate_sources, validate_profile, validate_observation,
  is_source_state, validate_seen, validate_machine,
}
use hioc.Availability.Evaluate.{
  finish, admit, track, expire, check_row, scan_row, scan_found, scan_source, scan, count_positive,
  count_negative, judge_negative, judge_positive, judge, start, rebind, conclude, evaluate_valid,
  checked, with_profile, evaluate_from, evaluate,
}
use hioc.Availability.Evidence.{IsAhead}
use hioc.Availability.Counters.{IsCounted}
use hioc.Availability.Outage.{
  Outage, Recovery, negatives, positives, IsCountedBefore, evaluate-Outage, evaluate-Recovery,
  evaluate-IsAhead, evaluate-counts, evaluate-IsCounted,
}
use hioc.Availability.History.{Run, first, later, offline_needs_evaluations}

-- A digest that takes every document to the same digits, which the rows carry.
abbrev pub flat : Json → ℕ
flat j = 0

abbrev pub epoch : ℕ
epoch = 4 * 2 ^ 76 + 2 * 2 ^ 62

abbrev pub noon : ℕ
noon = 63800000000000000

abbrev pub ping : Definition
ping = record {
  source_id = "ping";
  kind = Kind.network;
  expected_report_seconds = 30;
  allowed_jitter_seconds = 10;
  max_age_seconds = 120;
  positive_meanings = "up" ∷ [];
  negative_meanings = "down" ∷ [];
  physical_device_authority = true;
  mapping_revision = 1;
  mapping_sha256 = 0;
}

abbrev pub profile : Profile
profile = record {
  schema_version = "1.0";
  profile_id = "router";
  revision = 1;
  enabled_sources = "ping" ∷ [];
  source_definitions = ("ping", ping) ∷ [];
  evaluation_interval_seconds = 60;
  negative_confirmations = 2;
  recovery_confirmations = 2;
  grace_seconds = 60;
  reminder_interval_seconds = none;
}

abbrev pub policy : Policy
policy = record {
  asset = 7;
  attachment = strong;
  store_epoch = epoch;
  store_revision = 1;
  revision = some 1;
  expected_availability = some true;
  infrastructure_device = none;
  infrastructure_type = none;
  effective_expected_availability = true;
  effective_infrastructure_type = none;
  applied_policy_revision = none;
}

-- A row of the source at a time.
abbrev pub row : EvidenceKind → ℕ → ℕ → Observation
row kind sample time = record {
  schema_version = "1.0";
  source_id = "ping";
  source_kind = Kind.network;
  asset = 7;
  device = 7;
  source_epoch = epoch;
  sample_id = sample;
  observed_at = time;
  collected_at = time;
  collection_status = CollectionStatus.success;
  completeness = Completeness.complete;
  evidence_kind = kind;
  scope = Scope.device;
  authority_ref = hex 0;
  valid_until = time + 120 * 1000000;
  reason_code = "echo";
  source_sha256 = 0;
}

-- The machine after a result.
abbrev result_of : Result Evaluation → Option Evaluation
result_of (ok r) = some r
result_of _ = none

abbrev no_machine : Machine
no_machine = record {
  baseline = some 0;
  expected = true;
  sources = [];
  negative_count = 0;
  positive_count = 0;
  negative_since = none;
  evaluated_at = noon;
  applied_policy_revision = 1;
  availability_state = Status.unknown;
  input_sha256 = 0;
  valid_until = none;
  profile_revision = some 1;
}

-- The machine that has seen one row, with its counters.
abbrev pub seen : ℕ → ℕ → Option ℕ → Status → Machine
seen negative positive since status = record {
  baseline = some 0;
  expected = true;
  sources =
      (
        "ping",
        record { source_epoch = epoch; sample_id = 1; observed_at = noon; retired_epochs = [] },
      )
      ∷ [];
  negative_count = negative;
  positive_count = positive;
  negative_since = since;
  evaluated_at = noon;
  applied_policy_revision = 1;
  availability_state = status;
  input_sha256 = 0;
  valid_until = some (noon + 120 * 1000000);
  profile_revision = some 1;
}

abbrev pub later_on : ℕ
later_on = noon + 90 * 1000000

abbrev pub result : ℕ → ℕ → Option ℕ → Status → Reason → Evaluation
result negative positive since status reason = record {
  state = record (seen negative positive since status) {
    sources =
        (
          "ping",
          record {
            source_epoch = epoch;
            sample_id = 2;
            observed_at = later_on;
            retired_epochs = [];
          },
        )
        ∷ [];
    evaluated_at = later_on;
    valid_until = some (later_on + 120 * 1000000);
  };
  availability_state = status;
  reason_code = reason;
  evaluated_at = later_on;
  valid_until = some (later_on + 120 * 1000000);
  policy_revision = 1;
  profile_revision = some 1;
  input_sha256 = 0;
}

-- The second negative, 90 seconds after the first.
abbrev pub down : Evaluation
down = result 2 0 (some noon) offline Reason.qualified_negative

run_down :
    evaluate flat policy strong
      (some profile)
      (row EvidenceKind.negative 2 later_on ∷ [])
      (some (seen 1 0 (some noon) Status.degraded))
      later_on
      false
    ≡ ok down
unfolding finish admit track expire check_row scan_row scan_found scan_source scan count_positive
    count_negative judge_negative judge_positive judge start rebind conclude evaluate_valid checked
    with_profile evaluate_from evaluate is_sorted_set validate_definition validate_sources
    validate_profile validate_observation is_source_state validate_seen validate_machine
    is_identifier is_meaning is_asset_id is_hex_digest is_uuid4
run_down = refl

-- The first negative of the asset.
abbrev pub first_down : Evaluation
first_down = record {
  state = seen 1 0 (some noon) Status.degraded;
  availability_state = Status.degraded;
  reason_code = Reason.negative_pending;
  evaluated_at = noon;
  valid_until = some (noon + 120 * 1000000);
  policy_revision = 1;
  profile_revision = some 1;
  input_sha256 = 0;
}

run_first_down :
    evaluate flat policy strong
      (some profile)
      (row EvidenceKind.negative 1 noon ∷ [])
      none
      noon
      false
    ≡ ok first_down
unfolding finish admit track expire check_row scan_row scan_found scan_source scan count_positive
    count_negative judge_negative judge_positive judge start rebind conclude evaluate_valid checked
    with_profile evaluate_from evaluate is_sorted_set validate_definition validate_sources
    validate_profile validate_observation is_source_state validate_seen validate_machine
    is_identifier is_meaning is_asset_id is_hex_digest is_uuid4
run_first_down = refl

-- The second positive while a case is open.
abbrev up : Evaluation
up = result 0 2 none available Reason.qualified_positive

run_up :
    evaluate flat policy strong
      (some profile)
      (row EvidenceKind.positive 2 later_on ∷ [])
      (some (seen 0 1 none Status.recovering))
      later_on
      true
    ≡ ok up
unfolding finish admit track expire check_row scan_row scan_found scan_source scan count_positive
    count_negative judge_negative judge_positive judge start rebind conclude evaluate_valid checked
    with_profile evaluate_from evaluate is_sorted_set validate_definition validate_sources
    validate_profile validate_observation is_source_state validate_seen validate_machine
    is_identifier is_meaning is_asset_id is_hex_digest is_uuid4
run_up = refl

evaluate-Outage_example :
    Outage flat policy strong
      (some profile)
      (row EvidenceKind.negative 2 later_on ∷ [])
      later_on
      down
evaluate-Outage_example =
    evaluate-Outage flat policy strong (some profile) (row EvidenceKind.negative 2 later_on ∷ [])
      (some (seen 1 0 (some noon) Status.degraded)) later_on false run_down refl

evaluate-Recovery_example :
    Recovery flat policy strong
      (some profile)
      (row EvidenceKind.positive 2 later_on ∷ [])
      later_on
      true
      up
evaluate-Recovery_example =
    evaluate-Recovery flat policy strong (some profile) (row EvidenceKind.positive 2 later_on ∷ [])
      (some (seen 0 1 none Status.recovering)) later_on true run_up refl

evaluate-IsAhead_example : IsAhead later_on down.valid_until
evaluate-IsAhead_example =
    evaluate-IsAhead flat policy strong (some profile) (row EvidenceKind.negative 2 later_on ∷ [])
      (some (seen 1 0 (some noon) Status.degraded)) later_on false run_down

evaluate-counts_example :
    ((down.state).negative_count ≤ 1 + 1) × ((down.state).positive_count ≤ 0 + 1)
evaluate-counts_example =
    evaluate-counts flat policy strong (some profile) (row EvidenceKind.negative 2 later_on ∷ [])
      (some (seen 1 0 (some noon) Status.degraded)) later_on false run_down

evaluate-IsCounted_example : IsCounted first_down.state
evaluate-IsCounted_example =
    evaluate-IsCounted flat policy strong (some profile) (row EvidenceKind.negative 1 noon ∷ [])
      none noon false run_first_down tt

offline_needs_evaluations_example : 2 ≤ 1 + 1
offline_needs_evaluations_example =
    offline_needs_evaluations flat policy strong profile (row EvidenceKind.negative 2 later_on ∷ [])
      later_on false
      (later policy strong (some profile) (row EvidenceKind.negative 1 noon ∷ []) noon false
        first_down first run_first_down)
      run_down refl
