-- ===== src/Policy/Service.antt =====
-- `PolicyService` of pi4/lib/hioc/asset_policy.py: what it reads, and the changes that it decides
-- on. The commit of a change is in Policy.Mutate.
use hioc.Base.{
  ℕ, ◌+◌, String, Bool, true, false, ◌&&◌, ◌||◌, not, Option, none, some, List, [], ◌∷◌, ◌++◌, leb,
  ltb, ◌==◌, nat_key, if◌then◌else◌, is_none, Dict, lookup, insert, length, select, policy, Result,
  ok, err, ◌>>=◌, ◌>>◌, busy, identity_unsafe, revision_conflict, store_unavailable,
  unsupported_schema,
}
use hioc.Contract
use hioc.Contract.{
  require, require_code, integer, asset_id, uuid4, timestamp, add_seconds, InfrastructureType,
  Receipt, CommitState,
}
use hioc.Contract.Json.{Json, Fields, object, field, end, num, text, optional, bool}
use hioc.Availability.Types.{Policy, Attachment, is_strong, is_true}
use hioc.Availability.Digests.{infrastructure_text}
use hioc.Policy.Types.{
  World, Operator, PolicyFields, Patch, Payload, Record, Store, Versioned, current, operator_ha,
}
use hioc.Policy.Validate.{policy_fields}

-- What the service asks outside the store: the inventory's attachment of an asset, and the epoch
-- and the policy revision of its last evaluation, where there is one.
pub record Surroundings : Type 0 where
  pub attachment : ℕ → Attachment
  pub snapshot : ℕ → Option (ℕ × ℕ)

pub data Mutation : Type 0 where
  create update : Mutation

pub data Word : Type 0 where
  read found not_found replayed created updated no_change : Word

pub record Reply : Type 0 where
  pub operation_id : Option ℕ
  pub result : Word
  pub commit_state : CommitState
  pub policy : Policy
  pub receipt : Option Receipt

-- `require(store['schema_version'] == '2.0', 'UNSUPPORTED_SCHEMA')`
abbrev pub second : Versioned → Result Store
second (current s) = ok s
second _ = err (policy unsupported_schema false)

abbrev pub no_policy : PolicyFields
no_policy = record {
  expected_availability = none;
  infrastructure_device = none;
  infrastructure_type = none;
}

abbrev pub policy_of : Option Record → PolicyFields
policy_of none = no_policy
policy_of (some r) = r.policy

abbrev pub record_revision : Option Record → Option ℕ
record_revision none = none
record_revision (some r) = some r.revision

abbrev applied_revision : ℕ → Option (ℕ × ℕ) → Option ℕ
applied_revision epoch none = none
applied_revision epoch (some (e, r)) = if e == epoch then some r else none

abbrev if_device : Option Bool → Option InfrastructureType → Option InfrastructureType
if_device b t = if is_true b then t else none

-- `_policy`
unfoldable pub policy_view : Surroundings → Store → ℕ → Policy
policy_view env s key =
    let f = policy_of (lookup key s.assets) in
    record {
      asset = key;
      attachment = env.attachment key;
      store_epoch = s.store_epoch;
      store_revision = s.store_revision;
      revision = record_revision (lookup key s.assets);
      expected_availability = f.expected_availability;
      infrastructure_device = f.infrastructure_device;
      infrastructure_type = f.infrastructure_type;
      effective_expected_availability = is_true f.expected_availability;
      effective_infrastructure_type = if_device f.infrastructure_device f.infrastructure_type;
      applied_policy_revision = applied_revision s.store_epoch (env.snapshot key);
    }

-- `_receipt`: the receipt of this request, of which there is at most one.
abbrev pub is_receipt : ℕ → ℕ → ℕ → Receipt → Bool
is_receipt issuer actor operation r =
    r.issuer_digest == issuer && r.actor_digest == actor && r.operation_id == operation

abbrev pub only : List Receipt → Result (Option Receipt)
only [] = ok none
only (r ∷ []) = ok (some r)
only _ = err (policy store_unavailable false)

unfoldable pub find_receipt : ℕ → ℕ → ℕ → List Receipt → Result (Option Receipt)
find_receipt issuer actor operation rows = only (select (is_receipt issuer actor operation) rows)

abbrev named {ℓ} : {A : Type ℓ} → String → (A → Json) → Option (Option A) → Fields → Fields
named name f none rest = rest
named name f (some v) rest = field name (optional f v) rest

pub payload_json : Payload → Json
payload_json p = object (
    field "asset_id" (num p.asset) (
      field "store_epoch" (num p.store_epoch) (
        field "expected_store_revision" (num p.expected_store_revision) (
          field "expected_revision" (optional num p.expected_revision) (
            field "operation_id" (num p.operation_id) (
              field "fields"
                (object (
                  named "expected_availability" bool (p.fields).expected_availability (
                    named "infrastructure_device" bool (p.fields).infrastructure_device (
                      named "infrastructure_type" (λ t. text (infrastructure_text t))
                        (p.fields).infrastructure_type end))))
                end))))))

abbrev same_type : InfrastructureType → InfrastructureType → Bool
same_type Contract.router_gateway Contract.router_gateway = true
same_type Contract.raspberry_pi_server Contract.raspberry_pi_server = true
same_type Contract.network_switch Contract.network_switch = true
same_type Contract.wireless_access_point Contract.wireless_access_point = true
same_type Contract.smart_home_hub Contract.smart_home_hub = true
same_type Contract.other_infrastructure Contract.other_infrastructure = true
same_type _ _ = false

abbrev same_flag : Bool → Bool → Bool
same_flag true b = b
same_flag false b = not b

abbrev pub same_option {ℓ} : {A : Type ℓ} → (A → A → Bool) → Option A → Option A → Bool
same_option f none none = true
same_option f (some a) (some b) = f a b
same_option f _ _ = false

-- `record[name] == value` for a field that the patch names.
abbrev agrees {ℓ} : {A : Type ℓ} → (A → A → Bool) → Option (Option A) → Option A → Bool
agrees f none v = true
agrees f (some u) v = same_option f u v

unfoldable pub is_unchanged : Patch → PolicyFields → Bool
is_unchanged p f =
    agrees same_flag p.expected_availability f.expected_availability
    && agrees same_flag p.infrastructure_device f.infrastructure_device
    && agrees same_type p.infrastructure_type f.infrastructure_type

abbrev assign {ℓ} : {A : Type ℓ} → Option (Option A) → Option A → Option A
assign none v = v
assign (some u) v = u

-- `record.update(fields)`
unfoldable pub apply_patch : Patch → PolicyFields → PolicyFields
apply_patch p f = record {
  expected_availability = assign p.expected_availability f.expected_availability;
  infrastructure_device = assign p.infrastructure_device f.infrastructure_device;
  infrastructure_type = assign p.infrastructure_type f.infrastructure_type;
}

abbrev is_value {ℓ} : {A : Type ℓ} → Option (Option A) → Bool
is_value (some (some v)) = true
is_value _ = false

-- `any(value is not None for value in fields.values())`
unfoldable pub has_value : Patch → Bool
has_value p =
    is_value p.expected_availability
    || is_value p.infrastructure_device
    || is_value p.infrastructure_type

-- `fields.get('expected_availability') is True`
abbrev pub turns_on : Patch → Bool
turns_on p = elim p.expected_availability as (λ _. Bool) [ none ↦ false | some v ↦ is_true v ]

abbrev pub no_fields : Operator
no_fields = record { friendly_name = none; physical_location = none; purpose = none; notes = none }

unfoldable pub sort_insert {ℓ} : {V : Type ℓ} → ℕ → V → Dict ℕ V → Dict ℕ V
sort_insert k v [] = (k, v) ∷ []
sort_insert k v ((j, u) ∷ d) = if leb k j then (k, v) ∷ (j, u) ∷ d else (j, u) ∷ sort_insert k v d

-- `dict(sorted(assets.items()))`
unfoldable pub sort_assets {ℓ} : {V : Type ℓ} → Dict ℕ V → Dict ℕ V
unfolding sort_insert
sort_assets [] = []
sort_assets ((k, v) ∷ d) = sort_insert k v (sort_assets d)

-- The store with the record of an asset in its place.
unfoldable pub put_record : ℕ → Record → ℕ → Store → Store
unfolding sort_assets
put_record key r now s = record s {
  assets = sort_assets (insert key r s.assets);
  asset_count = length (sort_assets (insert key r s.assets));
  updated_at = now;
  store_revision = s.store_revision + 1;
}

-- What `mutate_policy` demands of its payload before the lock.
unfoldable pub check_payload : Mutation → Payload → Result (Unit {0})
unfolding policy_fields
check_payload op p = do
  asset_id p.asset
  uuid4 p.store_epoch
  uuid4 p.operation_id
  integer p.expected_store_revision 1
  policy_fields p.fields
  check_expected op p.expected_revision
  where
    check_expected : Mutation → Option ℕ → Result (Unit {0})
    check_expected create r = require (is_none r)
    check_expected update none = require false
    check_expected update (some r) = integer r 1

-- The record is absent for a creation, and of the expected revision for an update.
unfoldable pub is_expected : Mutation → Option ℕ → Option Record → Bool
is_expected create r old = is_none old
is_expected update (some r) (some old) = old.revision == r
is_expected update _ _ = false

-- The record of an asset after a mutation, and whether it changes anything.
unfoldable pub next_record : ℕ → ℕ → Patch → Option Record → Result (Record × Bool)
next_record now key p none = do
  require (has_value p)
  ok (
    record {
      stable_device_id = key;
      fields = no_fields;
      created_at = now;
      updated_at = now;
      update_source = operator_ha;
      revision = 1;
      policy = apply_patch p no_policy;
    },
    true,
  )
next_record now key p (some r) =
    if is_unchanged p r.policy
    then ok (record r { policy = apply_patch p r.policy }, false)
    else ok (
      record r {
        updated_at = now;
        update_source = operator_ha;
        revision = r.revision + 1;
        policy = apply_patch p r.policy;
      },
      true,
    )

-- A decided mutation: the store after it and the receipt that the store keeps.
pub record Change : Type 0 where
  pub store : Store
  pub receipt : Receipt
  pub changed : Bool

module _ (w : World) (env : Surroundings) (issuer : ℕ) (actor : String) where
  abbrev pub issuer_digest : ℕ
  issuer_digest = w.digest (num issuer)

  abbrev pub actor_digest : ℕ
  actor_digest = w.digest (text actor)

  abbrev pub receipt_of : ℕ → Payload → ℕ → ℕ → Bool → Receipt
  receipt_of limit p revision store_revision changed = record {
    issuer_digest = issuer_digest;
    actor_digest = actor_digest;
    operation_id = p.operation_id;
    request_sha256 = w.digest (payload_json p);
    expires_at = limit;
    asset = p.asset;
    committed_revision = revision;
    committed_store_revision = store_revision;
    outcome = if changed then Contract.changed else Contract.no_change;
  }

  -- The middle of `mutate_policy`, from the store that was read to the one that is committed.
  unfoldable pub decide : Mutation → Payload → ℕ → Store → Result Change
  decide op p now s = do
    let old = lookup p.asset s.assets
    require_code (s.store_epoch == p.store_epoch && s.store_revision == p.expected_store_revision)
        revision_conflict
    require_code (is_expected op p.expected_revision old) revision_conflict
    require_code (not (is_none old || turns_on p.fields) || is_strong (env.attachment p.asset))
        identity_unsafe
    let retained = select (λ r. ltb now r.expires_at) s.policy_requests
    require_code (ltb (length retained) 1024) busy
    (r, changed) ← next_record now p.asset p.fields old
    limit ← add_seconds now 120
    let s' = put_record p.asset r now s
    let receipt = receipt_of limit p r.revision s'.store_revision changed
    ok (record {
      store = record s' { policy_requests = retained ++ receipt ∷ [] };
      receipt = receipt;
      changed = changed;
    })
