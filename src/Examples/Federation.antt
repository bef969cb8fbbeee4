-- ===== src/Examples/Federation.antt =====
-- Runs of the federation protocol (pi4/lib/hioc/availability_protocol.py) on a signed update, to
-- which the theorems are applied.
use hioc.Base.{ℕ, ◌+◌, ◌*◌, ◌≡◌, refl, true, false, none, some, [], ◌∷◌, ok, nat_key, text_key}
use hioc.Contract.{
  is_asset_id, is_hex_digest, is_uuid4, is_identifier, validate_receipt, error_response,
}
use hioc.Contract.Json.{Json}
use hioc.Protocol.Gate.{
  Gate, update, is_current, live, is_used, drop_old, count, quota, meter, pass, admit,
}
use hioc.Protocol.Trust.{
  IssuerTrust, exact, Lookup, validate_grant, validate_grants, validate_actors, validate_trust,
  grant_of, allowed, check_grant, trust_of,
}
use hioc.Protocol.Envelope.{
  Headers, Envelope, of_mutation, route, body_json, assertion_json, body_asset, check_headers,
  check_assertion, check_envelope, verify, trusted_again, reauthorize,
}
use hioc.Protocol.Handle.{Moment, respond, serve, run, handle}
use hioc.Protocol.Authorized.{IsAuthorized, is_error, handle-IsAuthorized}
use hioc.Protocol.Effects.{says_not_applied, handle-not_applied, handle_once, none_left}
use hioc.Policy.Normalize.{normalize_field}
use hioc.Policy.Validate.{
  validate_status, validate_transaction_status, validate_versioned, validate_store,
  validate_records, validate_record, validate_fields, validate_receipts, is_new, is_ordered,
}
use hioc.Policy.Files.{
  certain, replace, load_store, write_store, write_status, transaction_status, create_backup,
  is_pair, durable, make_status, kept_marker, refresh_status, confirm, or_unknown, require_durable,
  commit,
}
use hioc.Policy.Service.{
  find_receipt, is_unchanged, apply_patch, has_value, sort_insert, sort_assets, put_record,
  check_payload, is_expected, next_record, decide,
}
use hioc.Policy.Operations.{mutate_policy, answer, replay, apply_change}
use hioc.Examples.{epoch, noon}
use hioc.Examples.Policies.{world, nearby, files, writes, payload}

-- A signature that is its key.
abbrev plain : ℕ → Json → ℕ
plain k j = k

abbrev integration : IssuerTrust
integration = record {
  issuer = epoch;
  key_id = "first";
  key = 5;
  client_spki_sha256 = 9;
  actors = ("anna", (update, exact (7 ∷ [])) ∷ []) ∷ [];
  enabled = true;
}

abbrev find_trust : Lookup
find_trust issuer key_id = ok (some integration)

abbrev headers : ℕ → Headers
headers peer = record {
  path = "/pe7/v1/policy/update";
  method = "POST";
  content_type = "application/json";
  content_encoding = none;
  origin = none;
  peer = peer;
}

abbrev envelope : Envelope
envelope = record {
  schema_version = "1.0";
  assertion = record {
    issuer = epoch;
    audience = "hioc.pe7.asset";
    key_id = "first";
    actor_id = "anna";
    context_id = "panel";
    request_id = epoch;
    issued_at = noon;
    expires_at = noon + 10 * 1000000;
    method = "POST";
    path = "/pe7/v1/policy/update";
    payload_sha256 = 0;
  };
  payload = of_mutation (payload 3);
  signature = 5;
}

abbrev moment : Moment
moment = record {
  first_lookup = find_trust;
  now = noon;
  early = files;
  second_lookup = find_trust;
  last_lookup = find_trust;
  between = files;
  instant = noon + 1000000;
  store_now = noon;
  status_reader = none;
  oversized = λ v. false;
}

abbrev fresh : Gate
fresh = record { last_clock = none; nonces = []; attempts = []; read_attempts = [] }

run_signed :
    is_error (handle world nearby plain writes 4096 moment (headers 9) (ok envelope) fresh files).0
    ≡ false
unfolding is_asset_id is_hex_digest is_uuid4 is_identifier validate_receipt normalize_field
    validate_status validate_transaction_status validate_versioned validate_store validate_records
    validate_record validate_fields validate_receipts is_new is_ordered certain replace load_store
    write_store write_status transaction_status create_backup is_pair durable make_status
    kept_marker refresh_status confirm or_unknown require_durable commit find_receipt is_unchanged
    apply_patch has_value sort_insert sort_assets put_record check_payload is_expected next_record
    decide mutate_policy answer replay apply_change is_current live is_used drop_old count quota
    meter pass admit validate_grant validate_grants validate_actors validate_trust grant_of allowed
    check_grant trust_of route body_json assertion_json body_asset check_headers check_assertion
    check_envelope verify trusted_again reauthorize respond serve run handle
run_signed = refl

handle-IsAuthorized_example : IsAuthorized world nearby plain moment (headers 9) (ok envelope) files
handle-IsAuthorized_example =
    handle-IsAuthorized world nearby plain writes 4096 moment (headers 9) (ok envelope) fresh files
      run_signed

-- A second later the same request comes again.
handle_once_example :
    is_error
      (handle world nearby plain writes 4096
        (record moment { now = noon + 1000000 })
        (headers 9)
        (ok envelope)
        (handle world nearby plain writes 4096 moment (headers 9) (ok envelope) fresh files).1
        files).0
    ≡ true
handle_once_example =
    handle_once world nearby plain writes 4096 moment (record moment { now = noon + 1000000 })
      (headers 9) (headers 9) (ok envelope) fresh files files run_signed none_left

-- A client with another key.
run_stranger :
    says_not_applied
      (handle world nearby plain writes 4096 moment (headers 8) (ok envelope) fresh files).0
    ≡ true
unfolding is_asset_id is_hex_digest is_uuid4 is_identifier validate_grant validate_grants
    validate_actors validate_trust grant_of allowed check_grant trust_of route body_json
    assertion_json body_asset check_headers check_assertion check_envelope verify respond run handle
    error_response
run_stranger = refl

handle-not_applied_example :
    (handle world nearby plain writes 4096 moment (headers 8) (ok envelope) fresh files).2.store
    ≡ files.store
handle-not_applied_example =
    handle-not_applied world nearby plain writes 4096 moment (headers 8) (ok envelope) fresh files
      run_stranger
