-- ===== src/Observation/Collect.antt =====
-- `collect` of pi4/lib/hioc/availability_observation.py: the states of Home Assistant's entities
-- become observations. The digest, the association (with its own validation) and `states_get` are
-- arguments.
use hioc.Base.{
  ℕ, String, Bool, true, false, ◌&&◌, ◌||◌, not, Option, none, some, List, [], ◌∷◌, min, leb, ltb,
  ◌==◌, nat_key, text_key, if◌then◌else◌, contains, select, lookup, Result, ok, err,
  identity_unsafe, ◌>>=◌, ◌>>◌, or_raise, length,
}
use hioc.Contract.{
  require, require_code, identifier, asset_id, integer, uuid4, timestamp, add_seconds, text_length,
}
use hioc.Contract.Json.{Json, num, text, bool, array, object, field, end, nil, ◌∶◌}
use hioc.Availability.Types.{
  Profile, Definition, Observation, ha, CollectionStatus, success, failed, unavailable,
  EvidenceKind, complete, Scope, Attachment, is_strong, is_scope, is_device, same_kind, Reference,
  hex,
}
use hioc.Availability.Digests.{scope_text, authority_json}
use hioc.Availability.Validate.{validate_profile, validate_observation}

-- `MAPPING_KEYS`
pub record Mapping : Type 0 where
  pub source_id : String
  pub asset : ℕ
  pub ha_device_id : String
  pub entity_id : String
  pub mapping_revision : ℕ
  pub scope : Scope
  pub report_semantics_verified : Bool

-- A row of the association.
pub record Association : Type 0 where
  pub hioc_device_id : ℕ
  pub status : String
  pub association_basis : String
  pub ha_device_id : String
  pub entities : List String

-- A state of an entity: when it was reported, if that is a time with a zone, and its text.
pub record EntityState : Type 0 where
  pub last_reported : Option ℕ
  pub state : Option String

-- What `collect` decides of a mapping.
pub record Finding : Type 0 where
  pub observed : ℕ
  pub status : CollectionStatus
  pub kind : EvidenceKind
  pub reason : String
  pub sha : ℕ

unfoldable pub mapping_json : Mapping → Json
mapping_json m = object (
    field "source_id" (text m.source_id) (
      field "asset_id" (num m.asset) (
        field "ha_device_id" (text m.ha_device_id) (
          field "entity_id" (text m.entity_id) (
            field "mapping_revision" (num m.mapping_revision) (
              field "scope" (text (scope_text m.scope))
                (field "report_semantics_verified" (bool m.report_semantics_verified) end)))))))

abbrev is_row_of : ℕ → Association → Bool
is_row_of key a = a.hioc_device_id == key

abbrev is_match : Mapping → Association → Bool
is_match m a =
    a.status == "ASSOCIATED_STRONG_MAC"
    && a.association_basis == "unique_mac"
    && a.ha_device_id == m.ha_device_id
    && contains m.entity_id a.entities

abbrev is_only_match : Mapping → List Association → Bool
is_only_match m (a ∷ []) = is_match m a
is_only_match m _ = false

-- `valid`
unfoldable pub is_valid : (ℕ → Attachment) → List Association → Mapping → Bool
is_valid attachment rows m =
    is_strong (attachment m.asset) && is_only_match m (select (is_row_of m.asset) rows)

-- The meaning of a text, where it was reported.
unfoldable pub interpret : Definition → Mapping → String → EvidenceKind × String
interpret d m meaning =
    if contains meaning ("unknown" ∷ "unavailable" ∷ [])
    then (EvidenceKind.unknown, "HA_STATE_UNKNOWN")
    else if contains meaning d.positive_meanings
    then (EvidenceKind.positive, "REVIEWED_POSITIVE")
    else if contains meaning d.negative_meanings && d.physical_device_authority && is_device m.scope
    then (EvidenceKind.negative, "REVIEWED_PHYSICAL_NEGATIVE")
    else (EvidenceKind.unknown, "ENTITY_STATE_NOT_PHYSICAL_OUTAGE")

module _ (digest : Json → ℕ) (epoch now : ℕ) where
  abbrev missing_sha : Mapping → ℕ
  missing_sha m = digest (array (text "missing" ∶ num epoch ∶ text m.source_id ∶ num m.asset ∶ nil))

  abbrev report_sha : Mapping → ℕ → String → ℕ
  report_sha m observed meaning = digest (
      array (
        num epoch
        ∶ text m.source_id
        ∶ num m.asset
        ∶ num m.mapping_revision
        ∶ num observed
        ∶ text meaning
        ∶ nil))

  -- A finding at the time of the collection.
  abbrev pub found : Mapping → CollectionStatus → String → Finding
  found m status reason = record {
    observed = now;
    status = status;
    kind = EvidenceKind.unknown;
    reason = reason;
    sha = missing_sha m;
  }

  -- The `try` over a state whose report is trusted, and its handler.
  unfoldable pub read_report : Definition → Mapping → Option ℕ → Option String → Finding
  unfolding interpret
  read_report d m (some observed) (some meaning) =
      if leb observed now && leb (text_length meaning) 128
      then record {
        observed = observed;
        status = success;
        kind = (interpret d m meaning).0;
        reason = (interpret d m meaning).1;
        sha = report_sha m observed meaning;
      }
      else found m unavailable "REPORT_TIME_UNAVAILABLE"
  read_report d m _ _ = found m unavailable "REPORT_TIME_UNAVAILABLE"

  abbrev pub read_state : Definition → Mapping → Result (Option EntityState) → Finding
  read_state d m (err e) = found m failed "COLLECTION_FAILED"
  read_state d m (ok none) = found m success "ENTITY_MISSING"
  read_state d m (ok (some st)) =
      if m.report_semantics_verified
      then read_report d m st.last_reported st.state
      else found m success "UNSUPPORTED_REPORT_SEMANTICS"

  -- What is found of a mapping, safe or not.
  unfoldable pub find :
      (String → Result (Option EntityState)) → Definition → Mapping → Bool → Finding
  unfolding read_report
  find states_get d m true = read_state d m (states_get m.entity_id)
  find states_get d m false = found m unavailable "ASSOCIATION_UNSAFE"

  abbrev pub authority : Definition → String → Reference
  authority d source = hex (digest (authority_json source d))

  unfoldable pub row_of : Definition → Mapping → Finding → ℕ → Observation
  row_of d m f deadline = record {
    schema_version = "1.0";
    source_id = m.source_id;
    source_kind = ha;
    asset = m.asset;
    device = m.asset;
    source_epoch = epoch;
    sample_id = digest (array (num epoch ∶ text m.source_id ∶ num f.observed ∶ num f.sha ∶ nil));
    observed_at = f.observed;
    collected_at = now;
    collection_status = f.status;
    completeness = complete;
    evidence_kind = f.kind;
    scope = m.scope;
    authority_ref = authority d m.source_id;
    valid_until = deadline;
    reason_code = f.reason;
    source_sha256 = f.sha;
  }

  -- The tests of a mapping.
  unfoldable pub check_mapping : Profile → Mapping → Definition → Result (Unit {0})
  unfolding mapping_json
  check_mapping p m d = do
    integer m.mapping_revision 1
    require (same_kind d.kind ha && d.mapping_revision == m.mapping_revision)
    require (d.mapping_sha256 == digest (mapping_json m))
    require (is_scope m.scope)
    require (leb 1 (text_length m.entity_id) && leb (text_length m.entity_id) 255)

module _ (digest : Json → ℕ) (epoch now : ℕ) (states_get : String → Result (Option EntityState))
    (p : Profile) (rows : List Association) (attachment : ℕ → Attachment)
    (association_deadline : ℕ) where
  -- One round of the loop, after the test for repetition.
  unfoldable pub collect_one : Mapping → Result Observation
  collect_one m = do
    require (contains m.source_id p.enabled_sources)
    d ← or_raise (lookup m.source_id p.source_definitions)
    check_mapping digest epoch now p m d
    let f = find digest epoch now states_get d m (is_valid attachment rows m)
    limit ← add_seconds f.observed d.max_age_seconds
    let row = row_of digest epoch now d m f (min association_deadline limit)
    validate_observation row
    ok row

  abbrev is_again : Mapping → Mapping → Bool
  is_again m n = m.source_id == n.source_id && m.asset == n.asset

  abbrev is_seen : Mapping → List Mapping → Bool
  is_seen m [] = false
  is_seen m (n ∷ seen) = is_again m n || is_seen m seen

  unfoldable pub collect_all : List Mapping → List Mapping → Result (List Observation)
  unfolding collect_one
  collect_all seen [] = ok []
  collect_all seen (m ∷ rest) = do
    identifier m.source_id
    asset_id m.asset
    require (not (is_seen m seen))
    row ← collect_one m
    others ← collect_all (m ∷ seen) rest
    ok (row ∷ others)

  -- `collect`; `association` is how the validation of the association ends.
  unfoldable pub collect : Result (Unit {0}) → List Mapping → Result (List Observation)
  unfolding collect_all
  collect association mappings = do
    validate_profile p
    association
    uuid4 epoch
    timestamp now
    timestamp association_deadline
    require_code (ltb now association_deadline) identity_unsafe
    require (leb (length mappings) 256)
    collect_all [] mappings
