-- ===== src/Availability/Snapshot.antt =====
-- The projections of an evaluation in pi4/lib/hioc/availability.py: `evaluation_snapshot`, which
-- the incident engine stores, and the closed status schema. Where the source tests that a text is
-- one of a set, the field's type is that set.
use hioc.Base.{
  ℕ, String, Bool, true, false, ◌&&◌, Option, none, some, List, [], ◌∷◌, min, ltb, leb, ◌==◌,
  nat_key, text_key, if◌then◌else◌, is_some, lookup, length, any, all, select, Result, ok, err,
  ◌>>=◌, ◌>>◌, policy, exception,
}
use hioc.Contract.{require, add_seconds}
use hioc.Contract.Json.{Json}
use hioc.Availability.Types
use hioc.Availability.Types.{
  Policy, Profile, Definition, Observation, Machine, Evaluation, Status, Reason, same_kind,
  refers_to,
}
use hioc.Availability.Validate.{validate_profile, validate_observation}
use hioc.Availability.Digests.{authority_json, source_json}

pub data EvidenceScope : Type 0 where
  device entity mixed nothing unknown : EvidenceScope

pub data Freshness : Type 0 where
  fresh stale absent expired unknown : Freshness

pub data Collection : Type 0 where
  success failed unavailable absent unknown : Collection

pub data Completion : Type 0 where
  complete incomplete unknown : Completion

pub record Quality : Type 0 where
  pub source_ref : ℕ
  pub scope : EvidenceScope
  pub collection_status : Collection
  pub completeness : Completion
  pub freshness : Freshness
  pub observed_at : Option ℕ
  pub valid_until : Option ℕ

pub record View : Type 0 where
  pub availability_state : Status
  pub reason_code : Reason
  pub evidence_scope : EvidenceScope
  pub evaluated_at : ℕ
  pub valid_until : Option ℕ
  pub freshness : Freshness

pub record Snapshot : Type 0 where
  pub store_epoch : ℕ
  pub policy_revision : ℕ
  pub machine : Machine
  pub evaluation : View
  pub observations : Option (List Quality)

abbrev scope_of : Types.Scope → EvidenceScope
scope_of Types.Scope.device = EvidenceScope.device
scope_of Types.Scope.entity = EvidenceScope.entity
scope_of Types.Scope.other = EvidenceScope.unknown

abbrev collection_of : Types.CollectionStatus → Collection
collection_of Types.CollectionStatus.success = Collection.success
collection_of Types.CollectionStatus.failed = Collection.failed
collection_of Types.CollectionStatus.unavailable = Collection.unavailable
collection_of Types.CollectionStatus.other = Collection.unknown

abbrev completion_of : Types.Completeness → Completion
completion_of Types.Completeness.complete = complete
completion_of Types.Completeness.incomplete = incomplete
completion_of Types.Completeness.other = Completion.unknown

abbrev pub is_fresh : Freshness → Bool
is_fresh Freshness.fresh = true
is_fresh _ = false

abbrev pub is_stale : Freshness → Bool
is_stale Freshness.stale = true
is_stale _ = false

abbrev pub is_expired : Freshness → Bool
is_expired Freshness.expired = true
is_expired _ = false

abbrev is_success : Collection → Bool
is_success Collection.success = true
is_success _ = false

abbrev is_failed : Collection → Bool
is_failed Collection.failed = true
is_failed _ = false

abbrev is_absent : Collection → Bool
is_absent Collection.absent = true
is_absent _ = false

abbrev is_complete : Completion → Bool
is_complete complete = true
is_complete _ = false

abbrev is_incomplete : Completion → Bool
is_incomplete incomplete = true
is_incomplete _ = false

abbrev is_unknown_scope : EvidenceScope → Bool
is_unknown_scope EvidenceScope.unknown = true
is_unknown_scope _ = false

-- The quality of a source before its row is read: absent, or unknown.
abbrev blank : ℕ → Bool → Quality
blank ref missing = record {
  source_ref = ref;
  scope = if missing then nothing else EvidenceScope.unknown;
  collection_status = if missing then Collection.absent else Collection.unknown;
  completeness = Completion.unknown;
  freshness = if missing then Freshness.absent else Freshness.unknown;
  observed_at = none;
  valid_until = none;
}

module _ (digest : Json → ℕ) where
  -- What the loop reads from the one row of a source.
  unfoldable pub row_quality : Policy → Definition → ℕ → String → Observation → Result Quality
  row_quality p d evaluated source row = do
    validate_observation row
    require (
        row.device == row.asset
        && row.asset == p.asset
        && same_kind row.source_kind d.kind
        && refers_to row.authority_ref (digest (authority_json source d)))
    require (
        leb row.observed_at row.collected_at
        && leb row.collected_at evaluated
        && ltb row.observed_at row.valid_until)
    limit ← add_seconds row.observed_at d.max_age_seconds
    ok (record {
      source_ref = digest (source_json source);
      scope = scope_of row.scope;
      collection_status = collection_of row.collection_status;
      completeness = completion_of row.completeness;
      freshness =
          if Types.is_success row.collection_status && Types.is_complete row.completeness
          then (if ltb evaluated (min row.valid_until limit)
              then Freshness.fresh
              else Freshness.stale)
          else Freshness.unknown;
      observed_at = some row.observed_at;
      valid_until = some (min row.valid_until limit);
    })

  -- The inner `try`: a refusal leaves what is known without the row; an overflow passes through.
  unfoldable pub read_row : Quality → Result Quality → Result Quality
  read_row b (ok q) = ok q
  read_row b (err (policy c u)) = ok b
  read_row b (err exception) = err exception

  -- The quality of a source by the rows that name it.
  unfoldable pub quality_of :
      Policy → Option Definition → ℕ → String → List Observation → Result Quality
  quality_of p d evaluated source [] = ok (blank (digest (source_json source)) true)
  quality_of p none evaluated source (row ∷ []) = ok (blank (digest (source_json source)) false)
  quality_of p (some d) evaluated source (row ∷ []) =
      read_row (blank (digest (source_json source)) false) (row_quality p d evaluated source row)
  quality_of p d evaluated source (row ∷ other ∷ rows) =
      ok (blank (digest (source_json source)) false)

  unfoldable pub qualities :
      Policy → Profile → ℕ → List Observation → List String → Result (List Quality)
  unfolding quality_of read_row row_quality
  qualities p f evaluated rows [] = ok []
  qualities p f evaluated rows (source ∷ rest) =
      let others = qualities p f evaluated rows rest in
      do
        q ←
            quality_of p (lookup source f.source_definitions) evaluated source
              (select (λ row. row.source_id == source) rows)
        qs ← others
        ok (q ∷ qs)

-- `quality.sort(key=source_ref)`
insert_quality : Quality → List Quality → List Quality
insert_quality q [] = q ∷ []
insert_quality q (x ∷ xs) =
    if leb q.source_ref x.source_ref then q ∷ x ∷ xs else x ∷ insert_quality q xs

sort_qualities : List Quality → List Quality
unfolding insert_quality
sort_qualities [] = []
sort_qualities (q ∷ qs) = insert_quality q (sort_qualities qs)

-- The first enabled source without exactly one row has none.
first_failed_missing : List Observation → List String → Bool
first_failed_missing rows [] = false
first_failed_missing rows (source ∷ rest) =
    let found = length (select (λ row. row.source_id == source) rows) in
    let later = first_failed_missing rows rest in if found == 1 then later else found == 0

-- Why the first source, in the profile's order, could not be collected.
unavailable_reason : List Quality → Reason
unavailable_reason [] = Reason.collection_unavailable
unavailable_reason (q ∷ qs) =
    let rest = unavailable_reason qs in
    if is_success q.collection_status && is_complete q.completeness
    then rest
    else if is_failed q.collection_status
    then Reason.collection_failed
    else if is_incomplete q.completeness
    then Reason.collection_incomplete
    else Reason.collection_unavailable

unfoldable pub external_reason :
    Reason → Option Profile → List Observation → Option (List Quality) → Reason
unfolding first_failed_missing unavailable_reason
external_reason Reason.source_missing_or_duplicate (some f) rows (some qs) =
    if first_failed_missing rows f.enabled_sources
    then Reason.source_missing
    else Reason.source_missing_or_duplicate
external_reason Reason.source_unavailable f rows (some qs) = unavailable_reason qs
external_reason Reason.source_unavailable f rows none = Reason.collection_unavailable
external_reason reason f rows qs = reason

abbrev same_scope : EvidenceScope → EvidenceScope → Bool
same_scope EvidenceScope.device EvidenceScope.device = true
same_scope EvidenceScope.entity EvidenceScope.entity = true
same_scope _ _ = false

-- The scopes of the rows that were read.
abbrev read_scopes : List Quality → List EvidenceScope
read_scopes [] = []
read_scopes (q ∷ qs) =
    let rest = read_scopes qs in if is_some q.observed_at then q.scope ∷ rest else rest

unfoldable pub scope_summary : Option (List Quality) → EvidenceScope
scope_summary none = EvidenceScope.unknown
scope_summary (some qs) =
    if any (λ q. is_unknown_scope q.scope) qs
    then EvidenceScope.unknown
    else summarise (read_scopes qs)
  where
    summarise : List EvidenceScope → EvidenceScope
    summarise [] = nothing
    summarise (s ∷ rest) = if all (same_scope s) rest then s else mixed

abbrev is_not_monitored : Status → Bool
is_not_monitored Status.not_monitored = true
is_not_monitored _ = false

-- The outer `try`: a refused profile leaves no quality.
read_profile : Result (List Quality) → Result (Option (List Quality))
read_profile (ok qs) = ok (some qs)
read_profile (err (policy c u)) = ok none
read_profile (err exception) = err exception

abbrev sorted : Option (List Quality) → Option (List Quality)
unfolding sort_qualities
sorted none = none
sorted (some qs) = some (sort_qualities qs)

module _ (digest : Json → ℕ) where
  collected :
      Policy → Evaluation → Option Profile → List Observation → Result (Option (List Quality))
  unfolding read_profile
  collected p r none rows = ok none
  collected p r (some f) rows =
      read_profile
        (validate_profile f >> qualities digest p f r.evaluated_at rows f.enabled_sources)

  unfoldable pub evaluation_snapshot :
      Policy → Evaluation → Option Profile → List Observation → Result Snapshot
  unfolding collected external_reason scope_summary sorted
  evaluation_snapshot p r profile rows = do
    quality ←
        if is_not_monitored r.availability_state then ok (some []) else collected p r profile rows
    ok (record {
      store_epoch = p.store_epoch;
      policy_revision = r.policy_revision;
      machine = r.state;
      evaluation = record {
        availability_state = r.availability_state;
        reason_code = external_reason r.reason_code profile rows quality;
        evidence_scope = scope_summary (sorted quality);
        evaluated_at = r.evaluated_at;
        valid_until = r.valid_until;
        freshness = Freshness.unknown;
      };
      observations = sorted quality;
    })
