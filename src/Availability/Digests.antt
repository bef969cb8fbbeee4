-- ===== src/Availability/Digests.antt =====
-- The JSON values whose digests pi4/lib/hioc/availability.py takes. `digest`, the SHA-256 of the
-- canonical text, is a parameter of the modules that use it; sorting the keys is part of it.
use hioc.Base.{String, Option, List, [], ◌∷◌, Dict, true}
use hioc.Contract.{InfrastructureType}
use hioc.Contract.Json.{
  Json, Fields, bool, num, text, array, object, nil, end, field, items, optional, ◌∶◌,
}
use hioc.Availability.Types

abbrev pub infrastructure_text : InfrastructureType → String
infrastructure_text InfrastructureType.router_gateway = "router_gateway"
infrastructure_text InfrastructureType.raspberry_pi_server = "raspberry_pi_server"
infrastructure_text InfrastructureType.network_switch = "network_switch"
infrastructure_text InfrastructureType.wireless_access_point = "wireless_access_point_mesh_node"
infrastructure_text InfrastructureType.smart_home_hub = "smart_home_hub_bridge"
infrastructure_text InfrastructureType.other_infrastructure = "other_infrastructure"

abbrev attachment_text : Types.Attachment → String
attachment_text Types.Attachment.strong = "strong"
attachment_text Types.Attachment.orphan = "orphan"
attachment_text Types.Attachment.weak = "weak"
attachment_text Types.Attachment.conflicted = "conflicted"
attachment_text Types.Attachment.absent = "absent"

abbrev kind_text : Types.Kind → String
kind_text Types.Kind.network = "network"
kind_text Types.Kind.ha = "ha"
kind_text Types.Kind.other = ""

abbrev collection_text : Types.CollectionStatus → String
collection_text Types.CollectionStatus.success = "SUCCESS"
collection_text Types.CollectionStatus.failed = "FAILED"
collection_text Types.CollectionStatus.unavailable = "UNAVAILABLE"
collection_text Types.CollectionStatus.other = ""

abbrev completeness_text : Types.Completeness → String
completeness_text Types.Completeness.complete = "COMPLETE"
completeness_text Types.Completeness.incomplete = "INCOMPLETE"
completeness_text Types.Completeness.other = ""

abbrev evidence_text : Types.EvidenceKind → String
evidence_text Types.EvidenceKind.positive = "POSITIVE"
evidence_text Types.EvidenceKind.negative = "NEGATIVE"
evidence_text Types.EvidenceKind.unknown = "UNKNOWN"
evidence_text Types.EvidenceKind.other = ""

abbrev pub scope_text : Types.Scope → String
scope_text Types.Scope.device = "DEVICE"
scope_text Types.Scope.entity = "ENTITY"
scope_text Types.Scope.other = ""

abbrev reference_json : Types.Reference → Json
reference_json (Types.Reference.hex n) = num n
reference_json (Types.Reference.word s) = text s

infrastructure_json : Option InfrastructureType → Json
infrastructure_json t = optional (λ i. text (infrastructure_text i)) t

pub policy_json : Types.Policy → Json
policy_json p = object (
    field "asset_id" (num p.asset) (
      field "attachment" (text (attachment_text p.attachment)) (
        field "store_epoch" (num p.store_epoch) (
          field "store_revision" (num p.store_revision) (
            field "revision" (optional num p.revision) (
              field "expected_availability" (optional bool p.expected_availability) (
                field "infrastructure_device" (optional bool p.infrastructure_device) (
                  field "infrastructure_type" (infrastructure_json p.infrastructure_type) (
                    field "effective_expected_availability" (bool p.effective_expected_availability)
                      (field "effective_infrastructure_type"
                        (infrastructure_json p.effective_infrastructure_type)
                        (field "applied_policy_revision" (optional num p.applied_policy_revision)
                          end)))))))))))

definition_json : Types.Definition → Json
definition_json d = object (
    field "source_id" (text d.source_id) (
      field "kind" (text (kind_text d.kind)) (
        field "expected_report_seconds" (num d.expected_report_seconds) (
          field "allowed_jitter_seconds" (num d.allowed_jitter_seconds) (
            field "max_age_seconds" (num d.max_age_seconds) (
              field "positive_meanings" (array (items text d.positive_meanings)) (
                field "negative_meanings" (array (items text d.negative_meanings)) (
                  field "physical_device_authority" (bool d.physical_device_authority) (
                    field "mapping_revision" (num d.mapping_revision)
                      (field "mapping_sha256" (num d.mapping_sha256) end))))))))))

abbrev definitions_json : Dict String Types.Definition → Fields
definitions_json [] = end
definitions_json ((s, d) ∷ rest) = field s (definition_json d) (definitions_json rest)

pub profile_json : Types.Profile → Json
profile_json p = object (
    field "schema_version" (text p.schema_version) (
      field "profile_id" (text p.profile_id) (
        field "revision" (num p.revision) (
          field "enabled_sources" (array (items text p.enabled_sources)) (
            field "source_definitions" (object (definitions_json p.source_definitions)) (
              field "evaluation_interval_seconds" (num p.evaluation_interval_seconds) (
                field "negative_confirmations" (num p.negative_confirmations) (
                  field "recovery_confirmations" (num p.recovery_confirmations) (
                    field "grace_seconds" (num p.grace_seconds) (
                      field "reminder_interval_seconds" (optional num p.reminder_interval_seconds)
                        end))))))))))

pub observation_json : Types.Observation → Json
observation_json v = object (
    field "schema_version" (text v.schema_version) (
      field "source_id" (text v.source_id) (
        field "source_kind" (text (kind_text v.source_kind)) (
          field "asset_id" (num v.asset) (
            field "device_id" (num v.device) (
              field "source_epoch" (num v.source_epoch) (
                field "sample_id" (num v.sample_id) (
                  field "observed_at" (num v.observed_at) (
                    field "collected_at" (num v.collected_at) (
                      field "collection_status" (text (collection_text v.collection_status)) (
                        field "completeness" (text (completeness_text v.completeness)) (
                          field "evidence_kind" (text (evidence_text v.evidence_kind)) (
                            field "scope" (text (scope_text v.scope)) (
                              field "authority_ref" (reference_json v.authority_ref) (
                                field "valid_until" (num v.valid_until) (
                                  field "reason_code" (text v.reason_code) (
                                    field "source_sha256" (num v.source_sha256) end)))))))))))))))))

-- `[policy, attachment, profile, observations]`
pub input_json :
    Types.Policy → Types.Attachment → Option Types.Profile → List Types.Observation → Json
input_json p a f rows = array (
    policy_json p
    ∶ text (attachment_text a)
    ∶ optional profile_json f
    ∶ array (items observation_json rows)
    ∶ nil)

-- `[store_epoch, asset_id, True, profile]`
pub baseline_json : Types.Policy → Types.Profile → Json
baseline_json p f = array (num p.store_epoch ∶ num p.asset ∶ bool true ∶ profile_json f ∶ nil)

-- `[source, mapping_revision, mapping_sha256]`
pub authority_json : String → Types.Definition → Json
authority_json s d = array (text s ∶ num d.mapping_revision ∶ num d.mapping_sha256 ∶ nil)

pub source_json : String → Json
source_json s = text s
