-- ===== src/Examples/Policies.antt =====
-- Runs of the policy service (pi4/lib/hioc/asset_policy.py) on a concrete store, to which the
-- theorems are applied.
use hioc.Base.{
  ℕ, ◌+◌, ◌*◌, ◌≡◌, ◌≢◌, refl, arith, true, false, none, some, [], ◌∷◌, ok, err, nat_key, ◌==◌, ltb,
  policy, revision_conflict,
}
use hioc.Contract.{Receipt, validate_receipt, is_asset_id, is_hex_digest, is_uuid4, is_timestamp}
use hioc.Contract
use hioc.Contract.Disk.{Disk}
use hioc.Availability.Types.{strong}
use hioc.Policy.Types.{
  World, Files, current, Store, Record, Payload, StatusWord, Phase, PolicyFields, Source,
}
use hioc.Policy.Normalize.{normalize_field}
use hioc.Policy.Validate.{
  validate_status, validate_transaction_status, validate_versioned, validate_store,
  validate_records, validate_record, validate_fields, validate_receipts, is_new, is_ordered,
}
use hioc.Policy.Files.{
  Writes, certain, replace, load_store, write_store, write_status, transaction_status,
  create_backup, is_pair, durable, make_status, kept_marker, refresh_status, confirm, or_unknown,
  require_durable, commit,
}
use hioc.Policy.Service.{
  Surroundings, Mutation, Reply, policy_view, find_receipt, is_unchanged, apply_patch, has_value,
  sort_insert, sort_assets, put_record, check_payload, is_expected, next_record, decide, replayed,
  no_change, no_fields, receipt_of, updated,
}
use hioc.Policy.Operations.{mutate_policy, answer, replay, apply_change}
use hioc.Policy.Replay.{mutate_policy-denies}
use hioc.Policy.Mutations.{Committed, mutate_policy-Committed}
use hioc.Policy.Repeats.{untouched, answered, mutate_policy-again}
use hioc.Policy.Edits.{Edit, decide_edit, normalize_edit}
use hioc.Policy.Local.{set_fields}
use hioc.Examples.{flat, epoch, noon}

abbrev pub world : World
world = record {
  digest = flat;
  store_sha = λ v. 0;
  status_sha = λ v. 0;
  equal = λ a b. true;
  oversized = λ v. false;
  nfc = λ t. t;
  is_space = λ c. c == 32;
  is_other = λ c. ltb c 32;
}

abbrev pub nearby : Surroundings
nearby = record { attachment = λ k. strong; snapshot = λ k. none }

abbrev unset : PolicyFields
unset = record {
  expected_availability = none;
  infrastructure_device = none;
  infrastructure_type = none;
}

abbrev router : Record
router = record {
  stable_device_id = 7;
  fields = no_fields;
  created_at = noon;
  updated_at = noon;
  update_source = Source.operator_cli;
  revision = 1;
  policy = unset;
}

abbrev pub store : Store
store = record {
  updated_at = noon;
  asset_count = 1;
  assets = (7, router) ∷ [];
  store_epoch = epoch;
  store_revision = 3;
  policy_requests = [];
}

abbrev pub files : Files
files = record {
  uncertain = false;
  store = some (current store);
  status = some (record {
    second = true;
    updated = noon;
    status = StatusWord.online;
    asset_count = 1;
    orphaned_asset_count = some 0;
    invalid_record_count = 0;
    error_code = none;
  });
  marker = some (record {
    phase = Phase.confirmed;
    store_sha256 = 0;
    status_sha256 = some 0;
    store_epoch = some epoch;
    store_revision = some 3;
  });
  backups = [];
  inventory = some (7 ∷ []);
}

abbrev pub writes : Writes
writes = record {
  now = noon;
  backup = Disk.synced;
  prepare = Disk.synced;
  store = Disk.synced;
  status = Disk.synced;
  rewitness = Disk.synced;
  confirm = Disk.synced;
  readable = true;
}

-- The asset's availability is expected from now on.
abbrev pub payload : ℕ → Payload
payload revision = record {
  asset = 7;
  store_epoch = epoch;
  expected_store_revision = revision;
  expected_revision = some 1;
  operation_id = epoch;
  fields = record {
    expected_availability = some (some true);
    infrastructure_device = none;
    infrastructure_type = none;
  };
}

abbrev expected : PolicyFields
expected = record {
  expected_availability = some true;
  infrastructure_device = none;
  infrastructure_type = none;
}

abbrev receipt : Receipt
receipt = receipt_of world nearby 1 "anna" (noon + 120 * 1000000) (payload 3) 2 4 true

abbrev next : Store
next = record {
  updated_at = noon;
  asset_count = 1;
  assets =
      (7, record router { revision = 2; update_source = Source.operator_ha; policy = expected })
      ∷ [];
  store_epoch = epoch;
  store_revision = 4;
  policy_requests = receipt ∷ [];
}

abbrev reply : Reply
reply = record {
  operation_id = some epoch;
  result = updated;
  commit_state = Contract.confirmed;
  policy = policy_view nearby next 7;
  receipt = some receipt;
}

run_update :
    (mutate_policy world nearby writes Mutation.update (payload 3) 1 "anna" (ok true) noon files).0
    ≡ ok reply
unfolding is_asset_id is_hex_digest is_uuid4 validate_receipt normalize_field validate_status
    validate_transaction_status validate_versioned validate_store validate_records validate_record
    validate_fields validate_receipts is_new is_ordered certain replace load_store write_store
    write_status transaction_status create_backup is_pair durable make_status kept_marker
    refresh_status confirm or_unknown require_durable commit find_receipt is_unchanged apply_patch
    has_value sort_insert sort_assets put_record check_payload is_expected next_record decide
    mutate_policy answer replay apply_change
run_update = refl

updated-ne-replayed : updated ≢ replayed
updated-ne-replayed h = cc

mutate_policy-Committed_example :
    Committed Mutation.update
      (payload 3)
      world
      noon
      reply
      files
      (mutate_policy world nearby writes Mutation.update
        (payload 3)
        1
        "anna"
        (ok true)
        noon
        files).1
mutate_policy-Committed_example =
    mutate_policy-Committed world nearby Mutation.update (payload 3) 1 "anna" (λ v. refl) writes
      (ok true) noon files reply run_update updated-ne-replayed

-- Another request on the new revision, which changes nothing.
abbrev second : Payload
second = record (payload 4) { expected_revision = some 2; operation_id = epoch + 1 }

abbrev after_first : Files
after_first =
    (mutate_policy world nearby writes Mutation.update (payload 3) 1 "anna" (ok true) noon files).1

abbrev second_receipt : Receipt
second_receipt = receipt_of world nearby 1 "anna" (noon + 120 * 1000000) second 2 5 false

abbrev second_reply : Reply
second_reply = record reply {
  operation_id = some (epoch + 1);
  result = no_change;
  policy =
      policy_view nearby
        (record next { store_revision = 5; policy_requests = receipt ∷ second_receipt ∷ [] }) 7;
  receipt = some second_receipt;
}

run_second :
    (mutate_policy world nearby writes Mutation.update second 1 "anna" (ok true) noon after_first).0
    ≡ ok second_reply
unfolding is_asset_id is_hex_digest is_uuid4 validate_receipt normalize_field validate_status
    validate_transaction_status validate_versioned validate_store validate_records validate_record
    validate_fields validate_receipts is_new is_ordered certain replace load_store write_store
    write_status transaction_status create_backup is_pair durable make_status kept_marker
    refresh_status confirm or_unknown require_durable commit find_receipt is_unchanged apply_patch
    has_value sort_insert sort_assets put_record check_payload is_expected next_record decide
    mutate_policy answer replay apply_change
run_second = refl

other_operation : epoch + 1 ≢ epoch
other_operation h = omega arith

mutate_policy-again_example :
    (r : Reply) × (mutate_policy world nearby writes Mutation.update
        (payload 3)
        1
        "anna"
        (ok true)
        (noon + 1000000)
        (mutate_policy world nearby writes Mutation.update second 1 "anna"
          (ok true)
          noon
          after_first).1
      ≡ (
        ok r,
        (mutate_policy world nearby writes Mutation.update second 1 "anna"
            (ok true)
            noon
            after_first).1,
      ))
    × (r.result ≡ replayed)
    × (r.receipt ≡ some receipt)
mutate_policy-again_example =
    mutate_policy-again world nearby Mutation.update (payload 3) 1 "anna" (λ v. refl) writes
      (noon + 1000000) receipt writes (ok true) noon files
      (mutate_policy world nearby writes Mutation.update second 1 "anna" (ok true) noon
        after_first).1
      reply run_update refl
      (answered writes Mutation.update second 1 "anna" (ok true) noon second_reply untouched
        run_second refl other_operation refl)
      refl refl

run_conflict :
    (mutate_policy world nearby writes Mutation.update (payload 2) 1 "anna" (ok true) noon files).0
    ≡ err (policy revision_conflict false)
unfolding is_asset_id is_hex_digest is_uuid4 validate_receipt normalize_field validate_versioned
    validate_store validate_records validate_record validate_fields validate_receipts is_new
    is_ordered certain load_store find_receipt check_payload is_expected decide mutate_policy answer
run_conflict = refl

mutate_policy-denies_example :
    (mutate_policy world nearby writes Mutation.update
      (payload 2)
      1
      "anna"
      (ok true)
      noon
      files).1.store
    ≡ some (current store)
mutate_policy-denies_example =
    mutate_policy-denies world nearby writes Mutation.update (payload 2) 1 "anna" (ok true) noon
      files (policy revision_conflict false) run_conflict refl

-- No name any more, on a revision that the record does not have.
abbrev unnamed : Edit
unnamed = record {
  friendly_name = some none;
  physical_location = none;
  purpose = none;
  notes = none;
}

run_stale_edit :
    (set_fields world nearby writes 7 unnamed false (some 99) files).0
    ≡ err (policy revision_conflict false)
unfolding is_asset_id is_hex_digest is_uuid4 validate_receipt normalize_field validate_versioned
    validate_store validate_records validate_record validate_fields validate_receipts is_new
    is_ordered load_store set_fields normalize_edit decide_edit
run_stale_edit = refl

-- A name on the revision that the record has; the status cannot be read afterwards.
abbrev named : Edit
named = record unnamed { friendly_name = some (some (65 ∷ [])) }

abbrev unreadable : Writes
unreadable = record writes { readable = false }
