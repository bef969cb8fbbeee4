-- ===== src/Availability/StatusRead.antt =====
-- The external status of pi4/lib/hioc/availability.py: its closed schema and its bounded read.
use hioc.Base.{
  ℕ, Bool, true, false, ◌&&◌, ◌||◌, not, Option, none, some, List, [], ◌∷◌, map, ltb, leb, ◌==◌,
  nat_key, if◌then◌else◌, is_none, length, all, Result, ok, err, ◌>>◌,
}
use hioc.Contract.{require, is_hex_digest, asset_id, is_timestamp, timestamp}
use hioc.Availability.Types.{Status, Reason}
use hioc.Availability.Snapshot.{
  EvidenceScope, Freshness, Collection, Completion, Quality, View, Snapshot, is_fresh, is_stale,
  is_expired,
}

pub data ReadResult : Type 0 where
  read not_evaluated unavailable : ReadResult

pub data StatusReason : Type 0 where
  snapshot_read not_evaluated evaluation_storage_unavailable : StatusReason
  policy_storage_unavailable policy_changed_during_read : StatusReason

pub data PolicyStatus : Type 0 where
  present absent unavailable : PolicyStatus

pub data Binding : Type 0 where
  current pending unknown : Binding

pub record StatusValue : Type 0 where
  pub result : ReadResult
  pub asset : ℕ
  pub read_at : ℕ
  pub status_reason : StatusReason
  pub expected_availability : Option Bool
  pub policy_status : PolicyStatus
  pub current_policy_revision : Option ℕ
  pub applied_policy_revision : Option ℕ
  pub policy_binding : Binding
  pub evaluation : Option View
  pub observations : Option (List Quality)

abbrev pub is_policy_unavailable : PolicyStatus → Bool
is_policy_unavailable PolicyStatus.unavailable = true
is_policy_unavailable _ = false

abbrev is_storage_reason : StatusReason → Bool
is_storage_reason evaluation_storage_unavailable = true
is_storage_reason policy_storage_unavailable = true
is_storage_reason policy_changed_during_read = true
is_storage_reason _ = false

-- Which reasons a state admits; `UNKNOWN` admits every one.
abbrev is_reason_of : Status → Reason → Bool
is_reason_of Status.not_monitored Reason.operator_disabled = true
is_reason_of Status.available Reason.qualified_positive = true
is_reason_of Status.recovering Reason.recovery_pending = true
is_reason_of Status.offline Reason.qualified_negative = true
is_reason_of Status.degraded Reason.negative_pending = true
is_reason_of Status.degraded Reason.entity_scope_only = true
is_reason_of Status.stale Reason.source_stale = true
is_reason_of Status.unknown r = true
is_reason_of _ _ = false

abbrev is_stamp : Option ℕ → Bool
is_stamp none = true
is_stamp (some t) = is_timestamp t

abbrev after : ℕ → Option ℕ → Bool
after now none = false
after now (some t) = ltb now t

abbrev reached : ℕ → Option ℕ → Bool
reached now none = false
reached now (some t) = leb t now

abbrev is_success : Collection → Bool
is_success Collection.success = true
is_success _ = false

abbrev is_absent : Collection → Bool
is_absent Collection.absent = true
is_absent _ = false

abbrev is_complete : Completion → Bool
is_complete Completion.complete = true
is_complete _ = false

abbrev is_unknown_completion : Completion → Bool
is_unknown_completion Completion.unknown = true
is_unknown_completion _ = false

abbrev is_row_scope : EvidenceScope → Bool
is_row_scope EvidenceScope.mixed = false
is_row_scope _ = true

abbrev is_nothing : EvidenceScope → Bool
is_nothing EvidenceScope.nothing = true
is_nothing _ = false

abbrev is_absent_freshness : Freshness → Bool
is_absent_freshness Freshness.absent = true
is_absent_freshness _ = false

-- One row of `observations`, read at `now`.
unfoldable pub is_quality : ℕ → Quality → Bool
unfolding is_hex_digest
is_quality now q =
    is_hex_digest q.source_ref
    && is_row_scope q.scope
    && not (is_expired q.freshness)
    && is_stamp q.observed_at
    && is_stamp q.valid_until
    && (not (is_absent q.collection_status)
        || is_nothing q.scope
          && is_absent_freshness q.freshness
          && is_unknown_completion q.completeness
          && is_none q.observed_at
          && is_none q.valid_until)
    && (not (is_fresh q.freshness || is_stale q.freshness)
        || is_success q.collection_status
          && is_complete q.completeness
          && reached now q.observed_at
          && (if is_fresh q.freshness then after now q.valid_until else reached now q.valid_until))

-- `refs == sorted(set(refs))`
is_ascending : List Quality → Bool
is_ascending [] = true
is_ascending (q ∷ []) = true
is_ascending (q ∷ x ∷ xs) = ltb q.source_ref x.source_ref && is_ascending (x ∷ xs)

unfoldable pub are_qualities : ℕ → Option (List Quality) → Bool
unfolding is_quality is_ascending
are_qualities now none = true
are_qualities now (some qs) = leb (length qs) 16 && all (is_quality now) qs && is_ascending qs

abbrev is_view_freshness : Freshness → Bool
is_view_freshness Freshness.fresh = true
is_view_freshness Freshness.expired = true
is_view_freshness Freshness.unknown = true
is_view_freshness _ = false

unfoldable pub is_view : ℕ → View → Bool
is_view now e =
    is_reason_of e.availability_state e.reason_code
    && is_timestamp e.evaluated_at
    && is_stamp e.valid_until
    && is_view_freshness e.freshness
    && (not (is_fresh e.freshness) || leb e.evaluated_at now && after now e.valid_until)
    && (not (is_expired e.freshness) || reached now e.valid_until)

abbrev is_current : Binding → Bool
is_current current = true
is_current _ = false

abbrev is_unknown_binding : Binding → Bool
is_unknown_binding Binding.unknown = true
is_unknown_binding _ = false

abbrev is_snapshot_read : StatusReason → Bool
is_snapshot_read snapshot_read = true
is_snapshot_read _ = false

abbrev is_not_evaluated : StatusReason → Bool
is_not_evaluated StatusReason.not_evaluated = true
is_not_evaluated _ = false

abbrev same_revision : Option ℕ → Option ℕ → Bool
same_revision (some a) (some b) = a == b
same_revision none none = true
same_revision _ _ = false

abbrev is_revision : Option ℕ → Bool
is_revision none = false
is_revision (some r) = leb 1 r && leb r 9007199254740991

abbrev holds_nothing : StatusValue → Bool
holds_nothing v =
    is_none v.evaluation
    && is_none v.observations
    && is_none v.applied_policy_revision
    && is_unknown_binding v.policy_binding

-- The conditions on each result.
unfoldable pub is_result : StatusValue → ReadResult → Option View → Bool
unfolding is_view
is_result v ReadResult.unavailable e = holds_nothing v && is_storage_reason v.status_reason
is_result v ReadResult.not_evaluated e =
    holds_nothing v
    && is_not_evaluated v.status_reason
    && not (is_policy_unavailable v.policy_status)
is_result v read none = false
is_result v read (some e) =
    is_snapshot_read v.status_reason
    && not (is_policy_unavailable v.policy_status)
    && is_revision v.applied_policy_revision
    && is_view v.read_at e
    && (not (is_current v.policy_binding)
        || same_revision v.current_policy_revision v.applied_policy_revision)

abbrev is_policy_of : PolicyStatus → StatusValue → Bool
is_policy_of present v = is_revision v.current_policy_revision
is_policy_of _ v = is_none v.current_policy_revision && is_none v.expected_availability

-- `oversized` tells whether the canonical text is longer than 16384 bytes.
unfoldable pub validate_status : (StatusValue → Bool) → StatusValue → Result (Unit {0})
unfolding is_result are_qualities
validate_status oversized v = do
  asset_id v.asset
  timestamp v.read_at
  require (is_policy_of v.policy_status v)
  require (is_result v v.result v.evaluation)
  require (are_qualities v.read_at v.observations)
  require (not (oversized v))

-- What `AvailabilityReader._policy` returns.
pub record PolicyRead : Type 0 where
  pub store_epoch : ℕ
  pub revision : Option ℕ
  pub expected_availability : Option Bool
  pub status : PolicyStatus

abbrev same_expected : Option Bool → Option Bool → Bool
same_expected none none = true
same_expected (some true) (some true) = true
same_expected (some false) (some false) = true
same_expected _ _ = false

abbrev same_status : PolicyStatus → PolicyStatus → Bool
same_status present present = true
same_status absent absent = true
same_status PolicyStatus.unavailable PolicyStatus.unavailable = true
same_status _ _ = false

unfoldable pub same_policy : PolicyRead → Result PolicyRead → Bool
same_policy p (err e) = false
same_policy p (ok q) =
    p.store_epoch == q.store_epoch
    && same_revision p.revision q.revision
    && same_expected p.expected_availability q.expected_availability
    && same_status p.status q.status

abbrev age_view : ℕ → View → View
age_view now e = record e { freshness = age e.valid_until }
  where
    age : Option ℕ → Freshness
    age none = Freshness.unknown
    age (some t) =
        if ltb now e.evaluated_at
        then Freshness.unknown
        else if ltb now t
        then Freshness.fresh
        else Freshness.expired

abbrev age_row : ℕ → Quality → Quality
age_row now q =
    if is_fresh q.freshness && reached now q.valid_until
    then record q { freshness = Freshness.stale }
    else q

abbrev age_rows : ℕ → Option (List Quality) → Option (List Quality)
age_rows now none = none
age_rows now (some qs) = some (map (age_row now) qs)

-- The response before the policy is known.
unfoldable pub unread : ℕ → ℕ → StatusValue
unread key now = record {
  result = ReadResult.unavailable;
  asset = key;
  read_at = now;
  status_reason = policy_storage_unavailable;
  expected_availability = none;
  policy_status = PolicyStatus.unavailable;
  current_policy_revision = none;
  applied_policy_revision = none;
  policy_binding = Binding.unknown;
  evaluation = none;
  observations = none;
}

unfoldable pub with_policy : StatusValue → PolicyRead → StatusValue
with_policy v p = record v {
  expected_availability = p.expected_availability;
  policy_status = p.status;
  current_policy_revision = p.revision;
  status_reason = evaluation_storage_unavailable;
}

-- The response under an unchanged policy.
unfoldable pub respond : ℕ → StatusValue → PolicyRead → Option Snapshot → StatusValue
respond now v p none = record v {
  result = ReadResult.not_evaluated;
  status_reason = StatusReason.not_evaluated;
}
respond now v p (some s) = record v {
  result = read;
  status_reason = snapshot_read;
  evaluation = some (age_view now s.evaluation);
  observations = age_rows now s.observations;
  applied_policy_revision = some s.policy_revision;
  policy_binding =
      if s.store_epoch == p.store_epoch && same_revision (some s.policy_revision) p.revision
      then current
      else pending;
}

-- `AvailabilityReader.read`: the policy, the stored snapshot and the policy again, each as its
-- read ended.
unfoldable pub read_status :
    ℕ → ℕ → Result PolicyRead → Result (Option Snapshot) → Result PolicyRead → StatusValue
unfolding unread with_policy respond same_policy
read_status key now (err e) snapshot after_read = unread key now
read_status key now (ok p) (err e) after_read = with_policy (unread key now) p
read_status key now (ok p) (ok s) after_read =
    if same_policy p after_read
    then respond now (with_policy (unread key now) p) p s
    else record (unread key now) { status_reason = policy_changed_during_read }

unfoldable pub read_and_validate :
    (StatusValue → Bool)
    → ℕ
    → ℕ
    → Result PolicyRead
    → Result (Option Snapshot)
    → Result PolicyRead
    → Result StatusValue
unfolding read_status validate_status
read_and_validate oversized key now before snapshot after_read = do
  asset_id key
  timestamp now
  validate_status oversized (read_status key now before snapshot after_read)
  ok (read_status key now before snapshot after_read)
