-- ===== src/Policy/Types.antt =====
-- The documents of pi4/lib/hioc/asset_policy.py and pi4/lib/hioc/assets.py: the two versions of
-- the Asset store, its status and the transaction marker. A text is its code points.
use hioc.Base.{ℕ, Bool, Option, List, Dict}
use hioc.Contract.{InfrastructureType, Receipt}
use hioc.Contract.Json.{Json}

abbrev pub Text : Type 0
Text = List ℕ

-- `OPERATOR_FIELDS`
pub data Field : Type 0 where
  friendly_name physical_location purpose notes : Field

pub record Operator : Type 0 where
  pub friendly_name : Option Text
  pub physical_location : Option Text
  pub purpose : Option Text
  pub notes : Option Text

-- `POLICY_FIELDS`
pub record PolicyFields : Type 0 where
  pub expected_availability : Option Bool
  pub infrastructure_device : Option Bool
  pub infrastructure_type : Option InfrastructureType

pub data Source : Type 0 where
  operator_cli operator_ha other : Source

-- A record of schema 1.0, and of schema 2.0, which adds the policy.
pub record LegacyRecord : Type 0 where
  pub stable_device_id : ℕ
  pub fields : Operator
  pub created_at : ℕ
  pub updated_at : ℕ
  pub update_source : Source
  pub revision : ℕ

pub record Record : Type 0 where
  pub stable_device_id : ℕ
  pub fields : Operator
  pub created_at : ℕ
  pub updated_at : ℕ
  pub update_source : Source
  pub revision : ℕ
  pub policy : PolicyFields

pub record LegacyStore : Type 0 where
  pub updated_at : ℕ
  pub asset_count : ℕ
  pub assets : Dict ℕ LegacyRecord

pub record Store : Type 0 where
  pub updated_at : ℕ
  pub asset_count : ℕ
  pub assets : Dict ℕ Record
  pub store_epoch : ℕ
  pub store_revision : ℕ
  pub policy_requests : List Receipt

-- A document by its `schema_version`.
pub data Versioned : Type 0 where
  legacy : LegacyStore → Versioned
  current : Store → Versioned
  unsupported : Versioned

pub data StatusWord : Type 0 where
  online degraded error unavailable : StatusWord

pub data StatusError : Type 0 where
  inventory_unavailable inventory_invalid other_error : StatusError

-- `second` is the schema version 2.0; the generator is a constant.
pub record AssetStatus : Type 0 where
  pub second : Bool
  pub updated : ℕ
  pub status : StatusWord
  pub asset_count : ℕ
  pub orphaned_asset_count : Option ℕ
  pub invalid_record_count : ℕ
  pub error_code : Option StatusError

pub data Phase : Type 0 where
  prepared confirmed : Phase

-- The document `assets_transaction_status.json`.
pub record Marker : Type 0 where
  pub phase : Phase
  pub store_sha256 : ℕ
  pub status_sha256 : Option ℕ
  pub store_epoch : Option ℕ
  pub store_revision : Option ℕ

-- A change to the policy fields: `none` where a field is not named.
pub record Patch : Type 0 where
  pub expected_availability : Option (Option Bool)
  pub infrastructure_device : Option (Option Bool)
  pub infrastructure_type : Option (Option InfrastructureType)

-- The payload of a mutation.
pub record Payload : Type 0 where
  pub asset : ℕ
  pub store_epoch : ℕ
  pub expected_store_revision : ℕ
  pub expected_revision : Option ℕ
  pub operation_id : ℕ
  pub fields : Patch

-- The files under the Asset lock, and the flag that the process holds. A file that is not there,
-- or that its reader refuses, is `none`.
pub record Files : Type 0 where
  pub uncertain : Bool
  pub store : Option Versioned
  pub status : Option AssetStatus
  pub marker : Option Marker
  pub backups : List Versioned
  pub inventory : Option (List ℕ)

-- What the program takes from Python: digests of the bytes of a document, equality of documents,
-- and the properties of characters.
pub record World : Type 0 where
  pub digest : Json → ℕ
  pub store_sha : Versioned → ℕ
  pub status_sha : AssetStatus → ℕ
  pub equal : Versioned → Versioned → Bool
  pub oversized : Versioned → Bool
  pub nfc : Text → Text
  pub is_space : ℕ → Bool
  pub is_other : ℕ → Bool
