-- ===== src/Availability/Types.antt =====
-- The data of pi4/lib/hioc/availability.py: the JSON objects that the module reads and writes.
-- A closed set of texts is a data type; its constructor `other` is any text outside the set.
use hioc.Base.{ℕ, String, Bool, true, false, Option, List, Dict, ◌==◌, nat_key}
use hioc.Contract.{InfrastructureType}

pub data Attachment : Type 0 where
  strong orphan weak conflicted absent : Attachment

-- What `PolicyService._policy` returns.
pub record Policy : Type 0 where
  pub asset : ℕ
  pub attachment : Attachment
  pub store_epoch : ℕ
  pub store_revision : ℕ
  pub revision : Option ℕ
  pub expected_availability : Option Bool
  pub infrastructure_device : Option Bool
  pub infrastructure_type : Option InfrastructureType
  pub effective_expected_availability : Bool
  pub effective_infrastructure_type : Option InfrastructureType
  pub applied_policy_revision : Option ℕ

pub data Kind : Type 0 where
  network ha other : Kind

pub record Definition : Type 0 where
  pub source_id : String
  pub kind : Kind
  pub expected_report_seconds : ℕ
  pub allowed_jitter_seconds : ℕ
  pub max_age_seconds : ℕ
  pub positive_meanings : List String
  pub negative_meanings : List String
  pub physical_device_authority : Bool
  pub mapping_revision : ℕ
  pub mapping_sha256 : ℕ

pub record Profile : Type 0 where
  pub schema_version : String
  pub profile_id : String
  pub revision : ℕ
  pub enabled_sources : List String
  pub source_definitions : Dict String Definition
  pub evaluation_interval_seconds : ℕ
  pub negative_confirmations : ℕ
  pub recovery_confirmations : ℕ
  pub grace_seconds : ℕ
  pub reminder_interval_seconds : Option ℕ

pub data CollectionStatus : Type 0 where
  success failed unavailable other : CollectionStatus

pub data Completeness : Type 0 where
  complete incomplete other : Completeness

pub data EvidenceKind : Type 0 where
  positive negative unknown other : EvidenceKind

pub data Scope : Type 0 where
  device entity other : Scope

-- A digest in hexadecimal digits, or another text.
pub data Reference : Type 0 where
  hex : ℕ → Reference
  word : String → Reference

pub record Observation : Type 0 where
  pub schema_version : String
  pub source_id : String
  pub source_kind : Kind
  pub asset : ℕ
  pub device : ℕ
  pub source_epoch : ℕ
  pub sample_id : ℕ
  pub observed_at : ℕ
  pub collected_at : ℕ
  pub collection_status : CollectionStatus
  pub completeness : Completeness
  pub evidence_kind : EvidenceKind
  pub scope : Scope
  pub authority_ref : Reference
  pub valid_until : ℕ
  pub reason_code : String
  pub source_sha256 : ℕ

pub data Status : Type 0 where
  not_monitored available unknown stale degraded offline recovering : Status

-- The source that a machine has seen last.
pub record SourceState : Type 0 where
  pub source_epoch : ℕ
  pub sample_id : ℕ
  pub observed_at : ℕ
  pub retired_epochs : List ℕ

pub record Machine : Type 0 where
  pub baseline : Option ℕ
  pub expected : Bool
  pub sources : Dict String SourceState
  pub negative_count : ℕ
  pub positive_count : ℕ
  pub negative_since : Option ℕ
  pub evaluated_at : ℕ
  pub applied_policy_revision : ℕ
  pub availability_state : Status
  pub input_sha256 : ℕ
  pub valid_until : Option ℕ
  pub profile_revision : Option ℕ

pub data Reason : Type 0 where
  qualified_positive qualified_negative recovery_pending negative_pending : Reason
  entity_scope_only source_stale source_missing source_missing_or_duplicate : Reason
  collection_failed collection_incomplete collection_unavailable source_conflict : Reason
  source_unknown source_unavailable invalid_source missing_profile invalid_profile : Reason
  unknown_identity operator_disabled clock_reversed retired_source_epoch : Reason
  source_out_of_order : Reason

-- What `evaluate` returns.
pub record Evaluation : Type 0 where
  pub state : Machine
  pub availability_state : Status
  pub reason_code : Reason
  pub evaluated_at : ℕ
  pub valid_until : Option ℕ
  pub policy_revision : ℕ
  pub profile_revision : Option ℕ
  pub input_sha256 : ℕ

abbrev pub is_strong : Attachment → Bool
is_strong strong = true
is_strong _ = false

abbrev pub is_known_kind : Kind → Bool
is_known_kind Kind.other = false
is_known_kind _ = true

abbrev pub same_kind : Kind → Kind → Bool
same_kind network network = true
same_kind ha ha = true
same_kind Kind.other Kind.other = true
same_kind _ _ = false

abbrev pub is_collection_status : CollectionStatus → Bool
is_collection_status CollectionStatus.other = false
is_collection_status _ = true

abbrev pub is_success : CollectionStatus → Bool
is_success success = true
is_success _ = false

abbrev pub is_completeness : Completeness → Bool
is_completeness Completeness.other = false
is_completeness _ = true

abbrev pub is_complete : Completeness → Bool
is_complete complete = true
is_complete _ = false

abbrev pub is_evidence_kind : EvidenceKind → Bool
is_evidence_kind EvidenceKind.other = false
is_evidence_kind _ = true

abbrev pub is_positive : EvidenceKind → Bool
is_positive positive = true
is_positive _ = false

abbrev pub is_negative : EvidenceKind → Bool
is_negative negative = true
is_negative _ = false

abbrev pub is_unknown : EvidenceKind → Bool
is_unknown EvidenceKind.unknown = true
is_unknown _ = false

abbrev pub is_scope : Scope → Bool
is_scope Scope.other = false
is_scope _ = true

abbrev pub is_device : Scope → Bool
is_device device = true
is_device _ = false

abbrev pub refers_to : Reference → ℕ → Bool
refers_to (hex n) d = n == d
refers_to (word s) d = false

-- `x is True` for a value that is a Boolean or `None`.
abbrev pub is_true : Option Bool → Bool
is_true (Option.some b) = b
is_true Option.none = false
