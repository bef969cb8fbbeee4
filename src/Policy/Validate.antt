-- ===== src/Policy/Validate.antt =====
-- The validators of pi4/lib/hioc/asset_policy.py and of pi4/lib/hioc/assets.py. The key sets, their
-- order and the JSON types are those of the records. A refusal of `assets.py` is an
-- `AssetError`, which is no `PolicyError`.
use hioc.Base.{
  ℕ, Bool, true, false, ◌&&◌, ◌||◌, not, Option, none, some, List, [], ◌∷◌, leb, ◌==◌, nat_key,
  if◌then◌else◌, is_none, is_some, Dict, length, Result, ok, err, ◌>>=◌, ◌>>◌, exception, policy,
  unsupported_schema,
}
use hioc.Contract.{
  require, integer, asset_id, uuid4, hex_digest, is_timestamp, is_asset_id, timestamp, Receipt,
  validate_receipt,
}
use hioc.Policy.Types.{
  Text, Field, Operator, Patch, Source, operator_cli, operator_ha, Record, LegacyRecord, Store,
  LegacyStore, Versioned, legacy, current, unsupported, AssetStatus, StatusWord, online, Marker,
  Phase, confirmed, World, friendly_name, physical_location, purpose, notes,
}
use hioc.Policy.Normalize.{normalize_field}

abbrev same_texts : Text → Text → Bool
same_texts [] [] = true
same_texts (c ∷ s) (d ∷ t) = c == d && same_texts s t
same_texts _ _ = false

abbrev pub same_field : Option Text → Option Text → Bool
same_field none none = true
same_field (some s) (some t) = same_texts s t
same_field _ _ = false

abbrev pub is_confirmed : Phase → Bool
is_confirmed confirmed = true
is_confirmed _ = false

abbrev optionally : (ℕ → Result (Unit {0})) → Option ℕ → Result (Unit {0})
optionally f none = ok tt
optionally f (some n) = f n

abbrev same_presence : Option ℕ → Option ℕ → Bool
same_presence none none = true
same_presence (some a) (some b) = true
same_presence _ _ = false

unfoldable pub validate_transaction_status : Marker → Result (Unit {0})
validate_transaction_status m = do
  hex_digest m.store_sha256
  optionally hex_digest m.status_sha256
  require (not (is_confirmed m.phase) || is_some m.status_sha256)
  optionally uuid4 m.store_epoch
  optionally (λ r. integer r 1) m.store_revision
  require (same_presence m.store_epoch m.store_revision)

-- `policy_fields` of pi4/lib/hioc/availability_contract.py: some field is named; the types
-- of the values are those of the patch.
unfoldable pub policy_fields : Patch → Result (Unit {0})
policy_fields p = require (
    is_some p.expected_availability
    || is_some p.infrastructure_device
    || is_some p.infrastructure_type)

abbrev is_online : StatusWord → Bool
is_online online = true
is_online _ = false

-- `validate_status`, the same for either version.
unfoldable pub validate_status : AssetStatus → Result (Unit {0})
validate_status s =
    if is_timestamp s.updated
      && not (is_online s.status && (is_some s.error_code || is_none s.orphaned_asset_count))
    then ok tt
    else err exception

-- `list(assets) == sorted(assets)`
unfoldable pub is_ordered {ℓ} : {V : Type ℓ} → Dict ℕ V → Bool
is_ordered [] = true
is_ordered ((k, v) ∷ []) = true
is_ordered ((k, v) ∷ (j, u) ∷ d) = leb k j && is_ordered ((j, u) ∷ d)

abbrev is_source : Source → Bool
is_source operator_cli = true
is_source operator_ha = true
is_source _ = false

abbrev is_cli : Source → Bool
is_cli operator_cli = true
is_cli _ = false

abbrev pub has_field : Operator → Bool
has_field f =
    is_some f.friendly_name || is_some f.physical_location || is_some f.purpose || is_some f.notes

abbrev pub same_request : Receipt → Receipt → Bool
same_request a b =
    a.issuer_digest == b.issuer_digest
    && a.actor_digest == b.actor_digest
    && a.operation_id == b.operation_id

-- The identity of a receipt is that of no other.
unfoldable pub is_new : Receipt → List Receipt → Bool
is_new r [] = true
is_new r (s ∷ rest) = not (same_request r s) && is_new r rest

-- The receipts, none of which follows the store's revision.
unfoldable pub validate_receipts : ℕ → List Receipt → Result (Unit {0})
validate_receipts revision [] = ok tt
validate_receipts revision (r ∷ rest) =
    let others = validate_receipts revision rest in
    do
      validate_receipt r
      require (is_new r rest && leb r.committed_store_revision revision)
      others

abbrev refuse : Bool → Result (Unit {0})
refuse true = ok tt
refuse false = err exception

module _ (w : World) where
  -- A stored field is as its normalization leaves it.
  normal : Field → Option Text → Result (Unit {0})
  normal f t = do n ← normalize_field w f t; require (same_field n t)

  unfoldable pub validate_fields : Operator → Result (Unit {0})
  unfolding normal
  validate_fields o = do
    normal friendly_name o.friendly_name
    normal physical_location o.physical_location
    normal purpose o.purpose
    normal notes o.notes

  unfoldable pub validate_record : ℕ → Record → Result (Unit {0})
  validate_record key r = do
    asset_id key
    require (r.stable_device_id == key)
    validate_fields r.fields
    timestamp r.created_at
    timestamp r.updated_at
    require (leb r.created_at r.updated_at)
    integer r.revision 1
    require (is_source r.update_source)

  unfoldable pub validate_records : Dict ℕ Record → Result (Unit {0})
  validate_records [] = ok tt
  validate_records ((key, r) ∷ rest) =
      let others = validate_records rest in do validate_record key r; others

  unfoldable pub validate_store : Store → Result (Unit {0})
  validate_store s = do
    timestamp s.updated_at
    uuid4 s.store_epoch
    integer s.store_revision 1
    require (s.asset_count == length s.assets)
    require (is_ordered s.assets)
    validate_records s.assets
    require (leb (length s.policy_requests) 1024)
    validate_receipts s.store_revision s.policy_requests

  legacy_normal : Field → Option Text → Result (Unit {0})
  legacy_normal f t = do n ← normalize_field w f t; refuse (same_field n t)

  unfoldable pub validate_legacy_record : ℕ → LegacyRecord → Result (Unit {0})
  unfolding legacy_normal
  validate_legacy_record key r = do
    refuse (is_asset_id key)
    refuse (r.stable_device_id == key)
    legacy_normal friendly_name r.fields.friendly_name
    legacy_normal physical_location r.fields.physical_location
    legacy_normal purpose r.fields.purpose
    legacy_normal notes r.fields.notes
    refuse (has_field r.fields)
    refuse (is_timestamp r.created_at && is_timestamp r.updated_at)
    refuse (is_cli r.update_source)
    refuse (leb 1 r.revision)

  unfoldable pub validate_legacy_records : Dict ℕ LegacyRecord → Result (Unit {0})
  validate_legacy_records [] = ok tt
  validate_legacy_records ((key, r) ∷ rest) =
      let others = validate_legacy_records rest in do validate_legacy_record key r; others

  -- `validate_store` of pi4/lib/hioc/assets.py.
  unfoldable pub validate_legacy_store : LegacyStore → Result (Unit {0})
  validate_legacy_store s = do
    refuse (is_timestamp s.updated_at)
    refuse (s.asset_count == length s.assets && is_ordered s.assets)
    validate_legacy_records s.assets

  unfoldable pub validate_versioned : Versioned → Result (Unit {0})
  validate_versioned (legacy s) = validate_legacy_store s
  validate_versioned (current s) = validate_store s
  validate_versioned unsupported = err (policy unsupported_schema false)
