-- ===== src/Availability/Validate.antt =====
-- The validators of pi4/lib/hioc/availability.py. The key sets and the JSON types that they test
-- are the fields and the types of the records.
use Prim.Native.Nat.{Ordering}
use Prim.Native.String.{compare}
use hioc.Base.{
  ℕ, ◌+◌, String, Bool, true, false, ◌&&◌, not, Option, none, some, List, [], ◌∷◌, leb, ◌==◌,
  nat_key, text_key, is_none, Dict, keys_of, lookup, has, length, all, any, contains, is_distinct,
  Result, ok, ◌>>=◌, ◌>>◌, or_raise,
}
use hioc.Contract
use hioc.Contract.{
  require, is_integer, integer, identifier, is_identifier, is_meaning, is_hex_digest, hex_digest,
  is_asset_id, asset_id, is_uuid4, uuid4, timestamp,
}
use hioc.Availability.Types.{
  Profile, Definition, Reference, hex, word, Observation, Machine, SourceState, is_known_kind,
  is_collection_status, is_completeness, is_evidence_kind, is_scope,
}

abbrev is_before : String → String → Bool
is_before s t = elim (compare s t) [ Ordering.lt ↦ true | _ ↦ false ]

-- `xs == sorted(set(xs))`: strictly ascending.
unfoldable pub is_sorted_set : List String → Bool
is_sorted_set [] = true
is_sorted_set (x ∷ []) = true
is_sorted_set (x ∷ y ∷ xs) = is_before x y && is_sorted_set (y ∷ xs)

validate_meanings : List String → Result (Unit {0})
validate_meanings meanings = do
  require (leb (length meanings) 16 && is_distinct meanings)
  require (all is_meaning meanings)

unfoldable pub validate_definition : Profile → String → Definition → Result (Unit {0})
unfolding validate_meanings is_hex_digest
validate_definition p source d = do
  require (d.source_id == source && is_known_kind d.kind)
  integer d.expected_report_seconds 1
  integer d.max_age_seconds 1
  integer d.mapping_revision 1
  integer d.allowed_jitter_seconds 0
  let cadence = d.expected_report_seconds + d.allowed_jitter_seconds
  require (leb cadence d.max_age_seconds && leb cadence p.grace_seconds)
  hex_digest d.mapping_sha256
  validate_meanings d.positive_meanings
  validate_meanings d.negative_meanings
  require (not (any (λ m. contains m d.negative_meanings) d.positive_meanings))

-- The loop over the enabled sources.
unfoldable pub validate_sources : Profile → List String → Result (Unit {0})
unfolding validate_definition
validate_sources p [] = ok tt
validate_sources p (source ∷ rest) =
    let others = validate_sources p rest in
    do
      identifier source
      definition ← or_raise (lookup source p.source_definitions)
      validate_definition p source definition
      others

unfoldable pub validate_profile : Profile → Result (Unit {0})
unfolding validate_sources is_sorted_set
validate_profile p = do
  require (p.schema_version == "1.0")
  identifier p.profile_id
  integer p.revision 1
  require (
      leb 1 (length p.enabled_sources)
      && leb (length p.enabled_sources) 16
      && is_sorted_set p.enabled_sources)
  require (
      all (λ s. has s p.source_definitions) p.enabled_sources
      && all (λ s. contains s p.enabled_sources) (keys_of p.source_definitions))
  integer p.evaluation_interval_seconds 1
  integer p.grace_seconds 1
  integer p.negative_confirmations 2
  integer p.recovery_confirmations 2
  require (is_none p.reminder_interval_seconds)
  validate_sources p p.enabled_sources

-- `identifier` on a reference, which is a digest or another text.
abbrev is_reference : Reference → Bool
is_reference (hex n) = is_hex_digest n
is_reference (word s) = is_identifier s

unfoldable pub validate_observation : Observation → Result (Unit {0})
unfolding is_asset_id is_uuid4 is_hex_digest
validate_observation v = do
  require (v.schema_version == "1.0" && is_known_kind v.source_kind)
  identifier v.source_id
  require (is_reference v.authority_ref)
  identifier v.reason_code
  asset_id v.asset
  asset_id v.device
  uuid4 v.source_epoch
  hex_digest v.sample_id
  hex_digest v.source_sha256
  timestamp v.observed_at
  timestamp v.collected_at
  timestamp v.valid_until
  require (is_collection_status v.collection_status)
  require (is_completeness v.completeness)
  require (is_evidence_kind v.evidence_kind)
  require (is_scope v.scope)

abbrev optionally : (ℕ → Result (Unit {0})) → Option ℕ → Result (Unit {0})
optionally f none = ok tt
optionally f (some n) = f n

abbrev instant : ℕ → Result (Unit {0})
instant t = timestamp t >> ok tt

-- One entry of `sources`.
unfoldable pub is_source_state : SourceState → Bool
unfolding is_uuid4 is_hex_digest
is_source_state row =
    is_uuid4 row.source_epoch
    && is_hex_digest row.sample_id
    && Contract.is_timestamp row.observed_at
    && leb (length row.retired_epochs) 16
    && is_distinct row.retired_epochs
    && all is_uuid4 row.retired_epochs
    && not (contains row.source_epoch row.retired_epochs)

unfoldable pub validate_seen : Dict String SourceState → Result (Unit {0})
unfolding is_source_state
validate_seen [] = ok tt
validate_seen ((source, row) ∷ rest) =
    let others = validate_seen rest in do identifier source; require (is_source_state row); others

unfoldable pub validate_machine : Machine → Result (Unit {0})
unfolding is_hex_digest validate_seen
validate_machine m = do
  optionally hex_digest m.baseline
  require (leb (length m.sources) 16)
  integer m.negative_count 0
  integer m.positive_count 0
  integer m.applied_policy_revision 1
  optionally (λ r. integer r 1) m.profile_revision
  instant m.evaluated_at
  hex_digest m.input_sha256
  optionally instant m.negative_since
  optionally instant m.valid_until
  validate_seen m.sources
