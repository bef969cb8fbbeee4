-- ===== src/Examples/Reports.antt =====
-- Runs of the observations: a state of an entity is collected, handed in and kept.
use hioc.Base.{
  ◌+◌, ◌*◌, ◌≡◌, refl, arith, String, true, false, Option, none, some, List, [], ◌∷◌, ok, Result,
  nat_key, text_key,
}
use hioc.Contract.{is_asset_id, is_hex_digest, is_uuid4, is_identifier, is_meaning, error_response}
use hioc.Contract.Disk.{Disk}
use hioc.Availability.Types.{Profile, Observation, Kind, EvidenceKind, Scope, strong}
use hioc.Availability.Validate.{
  is_sorted_set, validate_definition, validate_sources, validate_profile, validate_observation,
}
use hioc.Protocol.Gate.{live, is_used}
use hioc.Protocol.Envelope.{Headers}
use hioc.Observation.Collect.{
  Mapping, Association, EntityState, mapping_json, is_valid, interpret, read_report, find, row_of,
  check_mapping, collect_one,
}
use hioc.Observation.Store.{
  Slot, Stored, holds, is_before, put_all, place, sort_slots, load, replace, merge, commit,
}
use hioc.Observation.Refine.{latest, commit-latest}
use hioc.Observation.Receive.{
  ObservationTrust, Report, Entry, observations_received, payload_json, assertion_json,
  check_report, check_trust, is_current, fits, accept, accept_all, receive, enter, handle,
}
use hioc.Observation.Handover.{collect_one-accept}
use hioc.Observation.Safety.{IsReceived, IsKept, says_not_applied, handle-IsKept, handle-unchanged}
use hioc.Examples.{flat, epoch, noon, ping, profile, row}

abbrev lamp : Mapping
lamp = record {
  source_id = "ping";
  asset = 7;
  ha_device_id = "abc";
  entity_id = "binary_sensor.lamp";
  mapping_revision = 1;
  scope = Scope.device;
  report_semantics_verified = true;
}

-- The profile whose source is Home Assistant.
abbrev at_home : Profile
at_home = record profile { source_definitions = ("ping", record ping { kind = Kind.ha }) ∷ [] }

abbrev associations : List Association
associations =
    record {
      hioc_device_id = 7;
      status = "ASSOCIATED_STRONG_MAC";
      association_basis = "unique_mac";
      ha_device_id = "abc";
      entities = "binary_sensor.lamp" ∷ [];
    }
    ∷ []

abbrev states : String → Result (Option EntityState)
states s = ok (some (record { last_reported = some noon; state = some "down" }))

abbrev lamp_down : Observation
lamp_down = record (row EvidenceKind.negative 0 noon) {
  source_kind = Kind.ha;
  collected_at = noon + 1000000;
  valid_until = noon + 60 * 1000000;
  reason_code = "REVIEWED_PHYSICAL_NEGATIVE";
}

run_collect :
    collect_one flat epoch
      (noon + 1000000)
      states
      at_home
      associations
      (λ k. strong)
      (noon + 60 * 1000000)
      lamp
    ≡ ok lamp_down
unfolding is_asset_id is_hex_digest is_uuid4 is_identifier validate_observation mapping_json
    is_valid interpret read_report find row_of check_mapping collect_one
run_collect = refl

run_profile : validate_profile at_home ≡ ok tt
unfolding is_asset_id is_hex_digest is_uuid4 is_identifier is_meaning is_sorted_set
    validate_definition validate_sources validate_profile
run_profile = refl

abbrev service : ObservationTrust
service = record {
  issuer = epoch;
  key_id = "first";
  key = 5;
  client_spki_sha256 = 9;
  sources = (7, "ping" ∷ []) ∷ [];
  enabled = true;
}

collect_one-accept_example :
    accept flat (λ k. ok at_home) (λ k. strong) service (noon + 2000000) lamp_down ≡ ok tt
collect_one-accept_example =
    collect_one-accept flat epoch (noon + 1000000) states at_home associations (λ k. strong)
      (noon + 60 * 1000000) lamp lamp_down service (noon + 2000000) run_collect run_profile refl
      refl (omega arith)

abbrev slot : Slot
slot = record { asset = 7; source = "ping" }

abbrev before : Stored
before = holds (row EvidenceKind.positive 1 noon ∷ [])

run_commit :
    commit (λ rows. false) Disk.synced (lamp_down ∷ []) before ≡ (ok tt, holds (lamp_down ∷ []))
unfolding is_asset_id is_hex_digest is_uuid4 is_identifier validate_observation is_before put_all
    place sort_slots load replace merge commit
run_commit = refl

commit-latest_example :
    latest slot (lamp_down ∷ []) ≡ latest slot (row EvidenceKind.positive 1 noon ∷ lamp_down ∷ [])
commit-latest_example =
    commit-latest (λ rows. false) Disk.synced (lamp_down ∷ []) before (holds (lamp_down ∷ [])) slot
      run_commit

abbrev headers : Headers
headers = record {
  path = "/pe7/v1/observations";
  method = "POST";
  content_type = "application/json";
  content_encoding = none;
  origin = none;
  peer = 9;
}

abbrev report : Report
report = record {
  schema_version = "1.0";
  assertion = record {
    issuer = epoch;
    audience = "hioc.pe7.observation";
    key_id = "first";
    request_id = epoch;
    issued_at = noon;
    expires_at = noon + 10 * 1000000;
    method = "POST";
    path = "/pe7/v1/observations";
    payload_sha256 = 0;
  };
  observations = lamp_down ∷ [];
  signature = 5;
}

abbrev entry : Entry
entry = record { last_clock = none; nonces = [] }

run_report :
    (handle
      (λ rows. false)
      Disk.synced
      flat
      (λ k. ok at_home)
      (λ k. strong)
      (λ k j. k)
      (λ i k. ok (some service))
      (noon + 2000000)
      headers
      (ok report)
      entry
      before).0
    ≡ observations_received 1
unfolding is_asset_id is_hex_digest is_uuid4 is_identifier is_meaning is_sorted_set
    validate_definition validate_sources validate_profile validate_observation is_before put_all
    place sort_slots load replace merge commit payload_json assertion_json check_report check_trust
    is_current fits accept accept_all receive enter handle live is_used
run_report = refl

handle-IsKept_example :
    (e : Report) × IsReceived flat
      (λ k. ok at_home)
      (λ k. strong)
      (λ k j. k)
      (λ i k. ok (some service))
      (noon + 2000000)
      headers
      (ok report)
      e
    × IsKept
        (λ rows. false)
        Disk.synced
        1
        e
        before
        (handle
          (λ rows. false)
          Disk.synced
          flat
          (λ k. ok at_home)
          (λ k. strong)
          (λ k j. k)
          (λ i k. ok (some service))
          (noon + 2000000)
          headers
          (ok report)
          entry
          before).2
handle-IsKept_example =
    handle-IsKept flat (λ k. ok at_home) (λ k. strong) (λ k j. k) (λ i k. ok (some service))
      (noon + 2000000) headers (ok report) (λ rows. false) Disk.synced entry before 1 run_report

-- The write is refused.
run_refused :
    says_not_applied
      (λ rows. false)
      Disk.refused
      (handle
        (λ rows. false)
        Disk.refused
        flat
        (λ k. ok at_home)
        (λ k. strong)
        (λ k j. k)
        (λ i k. ok (some service))
        (noon + 2000000)
        headers
        (ok report)
        entry
        before).0
    ≡ true
unfolding is_asset_id is_hex_digest is_uuid4 is_identifier is_meaning is_sorted_set
    validate_definition validate_sources validate_profile validate_observation is_before put_all
    place sort_slots load replace merge commit payload_json assertion_json check_report check_trust
    is_current fits accept accept_all receive enter handle live is_used says_not_applied
    error_response
run_refused = refl

handle-unchanged_example :
    (handle
      (λ rows. false)
      Disk.refused
      flat
      (λ k. ok at_home)
      (λ k. strong)
      (λ k j. k)
      (λ i k. ok (some service))
      (noon + 2000000)
      headers
      (ok report)
      entry
      before).2
    ≡ before
handle-unchanged_example =
    handle-unchanged flat (λ k. ok at_home) (λ k. strong) (λ k j. k) (λ i k. ok (some service))
      (noon + 2000000) headers (ok report) (λ rows. false) Disk.refused entry before run_refused
