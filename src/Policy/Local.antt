-- ===== src/Policy/Local.antt =====
-- The local operations of `PolicyService` (pi4/lib/hioc/asset_policy.py): an operator's edits,
-- migration to schema 2.0 and the restoration of a backup. Fresh UUIDs are arguments.
use hioc.Base.{
  ℕ, ◌+◌, Bool, false, ◌&&◌, ◌||◌, Option, none, some, [], ◌∷◌, ◌==◌, nat_key, Dict, lookup, erase,
  length, policy, Result, ok, err, forbidden, revision_conflict, unsupported_schema,
}
use hioc.Contract.{require, require_code, integer, asset_id, uuid4}
use hioc.Availability.Types.{is_strong}
use hioc.Policy.Types.{
  World, Patch, Record, LegacyRecord, Store, LegacyStore, Versioned, legacy, current, online, Field,
  friendly_name, physical_location, purpose, notes,
}
use hioc.Policy.Validate.{policy_fields, validate_versioned}
use hioc.Policy.Files.{
  M, ◌>>=◌, ◌>>◌, lift, load_store, create_backup, transaction_status, write_store, marker_of,
  confirm, or_unknown, commit, Writes,
}
use hioc.Policy.Service.{Surroundings, second, put_record, no_policy}
use hioc.Policy.Edits.{
  Edit, LocalReply, Decision, store_record, keep, is_edit, normalize_edit, decide_edit,
  decide_local_policy, word_of, no_change, removed,
}

-- A record of schema 1.0 in schema 2.0.
abbrev pub migrate_record : LegacyRecord → Record
migrate_record r = record {
  stable_device_id = r.stable_device_id;
  fields = r.fields;
  created_at = r.created_at;
  updated_at = r.updated_at;
  update_source = r.update_source;
  revision = r.revision;
  policy = no_policy;
}

abbrev pub migrate_records : Dict ℕ LegacyRecord → Dict ℕ Record
migrate_records [] = []
migrate_records ((k, r) ∷ d) = (k, migrate_record r) ∷ migrate_records d

unfoldable pub migrated : ℕ → LegacyStore → Store
migrated epoch s = record {
  updated_at = s.updated_at;
  asset_count = s.asset_count;
  assets = migrate_records s.assets;
  store_epoch = epoch;
  store_revision = 1;
  policy_requests = [];
}

-- `require(schema_version == '1.0', 'UNSUPPORTED_SCHEMA')`
abbrev pub first : Versioned → Result LegacyStore
first (legacy s) = ok s
first _ = err (policy unsupported_schema false)

-- A restored store of schema 2.0 takes a fresh epoch and forgets its requests.
abbrev pub renewed : ℕ → Versioned → Versioned
renewed epoch (current s) = current (record s { store_epoch = epoch; policy_requests = [] })
renewed epoch v = v

module _ (w : World) (env : Surroundings) where
  -- The commit of a decision, and its reply.
  unfoldable pub settle : Writes → ℕ → Store → Decision → M LocalReply
  settle d key s (keep revision) = do
    word ← (λ t. (word_of d.readable t.status, t))
    lift (ok (record { result = no_change; status = word; revision = some revision }))
  settle d key s (store_record result r) = do
    commit w d (current s) (current (put_record key r r.updated_at s))
    word ← (λ t. (word_of d.readable t.status, t))
    lift (ok (record { result = result; status = word; revision = some r.revision }))

  -- `set_fields`
  unfoldable pub set_fields : Writes → ℕ → Edit → Bool → Option ℕ → M LocalReply
  unfolding is_edit
  set_fields d key e allow_orphan expected = do
    lift (asset_id key)
    lift (require (is_edit e))
    n ← lift (normalize_edit w e)
    v ← load_store w
    s ← lift (second v)
    decision ← lift (
        decide_edit (is_strong (env.attachment key) || allow_orphan) n expected d.now key
          (lookup key s.assets))
    settle d key s decision

  -- `set_policy_local`
  unfoldable pub set_policy_local : Writes → ℕ → Patch → ℕ → ℕ → Option ℕ → M LocalReply
  unfolding policy_fields
  set_policy_local d key p epoch revision expected = do
    lift (asset_id key)
    lift (policy_fields p)
    lift (uuid4 epoch)
    lift (integer revision 1)
    v ← load_store w
    s ← lift (second v)
    lift (require_code (s.store_epoch == epoch && s.store_revision == revision) revision_conflict)
    decision ← lift (
        decide_local_policy (is_strong (env.attachment key)) p expected d.now key
          (lookup key s.assets))
    settle d key s decision

  abbrev clearing : Field → Edit
  clearing friendly_name = record {
    friendly_name = some none;
    physical_location = none;
    purpose = none;
    notes = none;
  }
  clearing physical_location = record {
    friendly_name = none;
    physical_location = some none;
    purpose = none;
    notes = none;
  }
  clearing purpose = record {
    friendly_name = none;
    physical_location = none;
    purpose = some none;
    notes = none;
  }
  clearing notes = record {
    friendly_name = none;
    physical_location = none;
    purpose = none;
    notes = some none;
  }

  -- `clear_field`
  unfoldable pub clear_field : Writes → ℕ → Field → ℕ → M LocalReply
  clear_field d key f expected = set_fields d key (clearing f) false (some expected)

  -- `_remove_locked`
  unfoldable pub remove_locked : Writes → Store → ℕ → M LocalReply
  remove_locked d s key = do
    commit w d (current s) (
        current (record s {
          assets = erase key s.assets;
          asset_count = length (erase key s.assets);
          updated_at = d.now;
          store_revision = s.store_revision + 1;
        }))
    lift (ok (record { result = removed; status = online; revision = none }))

  -- `restore`: the inherited operation is refused.
  unfoldable pub restore : M LocalReply
  restore s = (err (policy forbidden false), s)

  -- `migrate`, where the digest of the store file must be the expected one.
  unfoldable pub migrate : Writes → ℕ → Bool → ℕ → M Store
  migrate d expected writers_stopped epoch = do
    lift (require_code writers_stopped forbidden)
    v ← load_store w
    s ← lift (first v)
    lift (require_code (w.store_sha v == expected) revision_conflict)
    commit w d v (current (migrated epoch s))
    lift (ok (migrated epoch s))

  -- `restore_exact` of a backup that was loaded, or refused.
  unfoldable pub restore_exact : Writes → Result Versioned → Bool → Bool → ℕ → M Versioned
  restore_exact d backup writers_stopped retain_later_edits epoch = do
    lift (require_code (writers_stopped && retain_later_edits) forbidden)
    v ← load_store w
    candidate ← lift backup
    create_backup w d.backup v
    lift (validate_versioned w (renewed epoch candidate))
    transaction_status w d.prepare (marker_of w (renewed epoch candidate))
    write_store w d.store (renewed epoch candidate)
    λ s. or_unknown w (confirm w d (renewed epoch candidate) s)
    lift (ok (renewed epoch candidate))
