-- ===== src/Availability/Evaluate.antt =====
-- `evaluate` of pi4/lib/hioc/availability.py: one evaluation of one asset's evidence. It returns
-- a new machine or raises; a return of the source is a call of `finish` here.
use hioc.Base.{
  ℕ, ◌+◌, ◌-◌, String, Bool, true, false, ◌&&◌, not, Option, none, some, List, [], ◌∷◌, ◌++◌, min,
  ltb, leb, ◌==◌, nat_key, text_key, if◌then◌else◌, lookup, insert, length, is_empty, any, select,
  contains, Error, policy, exception, Result, ok, err, try_else, ◌>>=◌, ◌>>◌, busy,
  validation_failed,
}
use hioc.Contract.{
  require, is_integer, integer, asset_id, uuid4, timestamp, add_seconds, microseconds,
}
use hioc.Contract.Json.{Json}
use hioc.Availability.Types.{
  Policy, Attachment, Profile, Definition, Observation, SourceState, Machine, Evaluation, Status,
  not_monitored, available, unknown, stale, degraded, offline, recovering, Reason, EvidenceKind,
  is_strong, same_kind, is_success, is_complete, is_positive, is_negative, is_unknown, is_device,
  refers_to, is_true, qualified_positive, qualified_negative, recovery_pending, negative_pending,
  entity_scope_only, source_stale, source_missing_or_duplicate, source_conflict, source_unknown,
  source_unavailable, invalid_source, missing_profile, invalid_profile, unknown_identity,
  operator_disabled, clock_reversed, retired_source_epoch, source_out_of_order,
}
use hioc.Availability.Validate.{validate_profile, validate_observation, validate_machine}
use hioc.Availability.Digests.{input_json, baseline_json, authority_json}

-- What `finish` writes into every result.
pub record Call : Type 0 where
  pub now : ℕ
  pub revision : ℕ
  pub profile_revision : Option ℕ
  pub input_sha256 : ℕ

-- The machine and the result that `finish(status, reason)` leaves.
abbrev pub settle : Call → Machine → Option ℕ → Status → Machine
settle c m deadline status = record m {
  evaluated_at = c.now;
  applied_policy_revision = c.revision;
  availability_state = status;
  input_sha256 = c.input_sha256;
  valid_until = deadline;
  profile_revision = c.profile_revision;
}

abbrev pub outcome : Call → Machine → Option ℕ → Status → Reason → Evaluation
outcome c m deadline status reason = record {
  state = settle c m deadline status;
  availability_state = status;
  reason_code = reason;
  evaluated_at = c.now;
  valid_until = deadline;
  policy_revision = c.revision;
  profile_revision = c.profile_revision;
  input_sha256 = c.input_sha256;
}

unfoldable pub finish : Call → Machine → Option ℕ → Status → Reason → Result Evaluation
finish c m deadline status reason = do
  validate_machine (settle c m deadline status)
  ok (outcome c m deadline status reason)

-- `negative_count=0, positive_count=0, negative_since=None`
abbrev pub reset_counts : Machine → Machine
reset_counts m = record m { negative_count = 0; positive_count = 0; negative_since = none }

-- A sample that advanced its source: `(evidence_kind, physical, observed_at)`.
pub record Sample : Type 0 where
  pub kind : EvidenceKind
  pub physical : Bool
  pub observed : ℕ

-- The variables of the loop over the enabled sources.
pub record Scan : Type 0 where
  pub machine : Machine
  pub deadline : Option ℕ
  pub usable : List (Observation × Bool)
  pub aged : List Observation
  pub fresh : List Sample

-- How one round ends: it goes on, returns `finish('UNKNOWN', reason)`, or raises.
pub data Round : Type 0 where
  next : Scan → Round
  stopped : Reason → Scan → Round
  raised : Error → Round

-- The next round, unless the loop has ended.
abbrev pub proceed : Round → (Scan → Round) → Round
proceed (next s) rest = rest s
proceed (stopped reason s) rest = stopped reason s
proceed (raised e) rest = raised e

-- `min(valid_until or t, t)`
abbrev pub earliest : Option ℕ → ℕ → Option ℕ
earliest none t = some t
earliest (some s) t = some (min s t)

-- The sample enters `sources` and `fresh_samples`, and the row is usable.
unfoldable pub admit : String → Observation → Bool → List ℕ → Scan → Round
admit source row physical retired s = next (record s {
  machine = record s.machine {
    sources =
        insert source
          (record {
            source_epoch = row.source_epoch;
            sample_id = row.sample_id;
            observed_at = row.observed_at;
            retired_epochs = retired;
          })
          s.machine.sources;
  };
  fresh =
      s.fresh
      ++ record { kind = row.evidence_kind; physical = physical; observed = row.observed_at } ∷ [];
  usable = s.usable ++ (row, physical) ∷ [];
})

-- A usable row against what its source reported last.
unfoldable pub track : String → Observation → Bool → Option SourceState → Scan → Round
track source row physical none s = admit source row physical [] s
track source row physical (some last) s =
    if contains row.source_epoch last.retired_epochs
    then stopped retired_source_epoch s
    else if not (last.source_epoch == row.source_epoch)
    then if ltb (length last.retired_epochs) 16
      then admit source row physical (last.retired_epochs ++ last.source_epoch ∷ [])
          (record s { machine = reset_counts s.machine })
      else raised (policy busy false)
    else if ltb last.observed_at row.observed_at && not (row.sample_id == last.sample_id)
    then admit source row physical last.retired_epochs s
    else if ltb row.observed_at last.observed_at
    then stopped source_out_of_order s
    else next (record s { usable = s.usable ++ (row, physical) ∷ [] })

-- `profile['source_definitions'][source]`: a missing key raises `KeyError`.
abbrev pub with_definition : Option Definition → (Definition → Round) → Round
with_definition none rest = raised exception
with_definition (some d) rest = rest d

-- A row whose deadline has passed is aged; any other goes against its source's last report.
unfoldable pub expire : Definition → ℕ → String → Observation → ℕ → Scan → Round
expire d now source row actual s =
    if leb actual now
    then next (record s { aged = s.aged ++ row ∷ [] })
    else track source row (is_device row.scope && d.physical_device_authority)
        (lookup source s.machine.sources) (record s { deadline = earliest s.deadline actual })

abbrev pub with_limit : Result ℕ → (ℕ → Round) → Round
with_limit (ok limit) rest = rest limit
with_limit (err e) rest = raised e

module _ (digest : Json → ℕ) where
  -- The checks of a row whose failure is `INVALID_SOURCE`.
  unfoldable pub check_row : Policy → Definition → ℕ → String → Observation → Result (Unit {0})
  check_row p d now source row = do
    validate_observation row
    require (row.asset == p.asset && p.asset == row.device)
    require (same_kind row.source_kind d.kind)
    require (refers_to row.authority_ref (digest (authority_json source d)))
    require (
        leb row.observed_at row.collected_at
        && leb row.collected_at now
        && ltb row.observed_at row.valid_until)

  unfoldable pub scan_row : Policy → Definition → ℕ → String → Observation → Scan → Round
  scan_row p d now source row s =
      try_else (check_row p d now source row)
        (if not (is_success row.collection_status && is_complete row.completeness)
          then stopped source_unavailable s
          else with_limit (add_seconds row.observed_at d.max_age_seconds)
              (λ limit. expire d now source row (min row.valid_until limit) s))
        (stopped invalid_source s)

  -- `found[0]`, if exactly one row names the source.
  unfoldable pub scan_found : Policy → Definition → ℕ → String → List Observation → Scan → Round
  scan_found p d now source [] s = stopped source_missing_or_duplicate s
  scan_found p d now source (row ∷ []) s = scan_row p d now source row s
  scan_found p d now source (row ∷ other ∷ rows) s = stopped source_missing_or_duplicate s

  unfoldable pub scan_source : Policy → Profile → List Observation → ℕ → String → Scan → Round
  scan_source p f rows now source s =
      with_definition (lookup source f.source_definitions)
        (λ d. scan_found p d now source (select (λ row. row.source_id == source) rows) s)

  -- The loop over the enabled sources.
  unfoldable pub scan : Policy → Profile → List Observation → ℕ → List String → Scan → Round
  scan p f rows now [] s = next s
  scan p f rows now (source ∷ rest) s =
      proceed (scan_source p f rows now source s) (λ s'. scan p f rows now rest s')

abbrev pub has_evidence : (EvidenceKind → Bool) → List (Observation × Bool) → Bool
has_evidence p rows = any (λ r. r.1 && p (r.0).evidence_kind) rows

abbrev pub advances : (EvidenceKind → Bool) → List Sample → Bool
advances p samples = any (λ s. p s.kind && s.physical) samples

-- The counters after a physical positive.
unfoldable pub count_positive : List Sample → Machine → Machine
count_positive fresh m =
    if advances is_positive fresh
    then record m {
      positive_count = m.positive_count + 1;
      negative_count = 0;
      negative_since = none;
    }
    else m

-- `negative_since or now`
abbrev pub since_or : Option ℕ → ℕ → Option ℕ
since_or none now = some now
since_or (some t) now = some t

-- The counters after a physical negative.
unfoldable pub count_negative : ℕ → List Sample → Machine → Machine
count_negative now fresh m =
    if advances is_negative fresh
    then record m {
      negative_count = m.negative_count + 1;
      positive_count = 0;
      negative_since = since_or m.negative_since now;
    }
    else m

-- The microseconds since the first negative; a start in the future counts as none.
abbrev pub elapsed : ℕ → Option ℕ → ℕ
elapsed now none = 0
elapsed now (some t) = now - t

unfoldable pub judge_negative : Call → Profile → Option ℕ → Machine → Result Evaluation
judge_negative c f deadline m =
    if leb f.negative_confirmations m.negative_count
      && leb (microseconds f.grace_seconds) (elapsed c.now m.negative_since)
    then finish c m deadline offline qualified_negative
    else finish c m deadline degraded negative_pending

unfoldable pub judge_positive : Call → Profile → Bool → Option ℕ → Machine → Result Evaluation
judge_positive c f case_open deadline m =
    if case_open && ltb m.positive_count f.recovery_confirmations
    then finish c m deadline recovering recovery_pending
    else finish c m deadline available qualified_positive

-- What follows the loop.
unfoldable pub judge : Call → Profile → Bool → Scan → Result Evaluation
judge c f case_open s =
    if not (is_empty s.aged)
    then finish c s.machine s.deadline (if is_empty s.usable then stale else unknown) source_stale
    else if has_evidence is_positive s.usable && has_evidence is_negative s.usable
    then finish c s.machine s.deadline unknown source_conflict
    else if any (λ r. is_unknown (r.0).evidence_kind) s.usable
    then finish c s.machine s.deadline unknown source_unknown
    else if has_evidence is_positive s.usable
    then judge_positive c f case_open s.deadline (count_positive s.fresh s.machine)
    else if has_evidence is_negative s.usable
    then judge_negative c f s.deadline (count_negative c.now s.fresh s.machine)
    else finish c s.machine s.deadline degraded entity_scope_only

-- The machine of an asset that was never evaluated.
abbrev pub initial : ℕ → ℕ → Machine
initial now revision = record {
  baseline = none;
  expected = false;
  sources = [];
  negative_count = 0;
  positive_count = 0;
  negative_since = none;
  evaluated_at = now;
  applied_policy_revision = revision;
  availability_state = unknown;
  input_sha256 = 0;
  valid_until = none;
  profile_revision = none;
}

unfoldable pub start : ℕ → ℕ → Option Machine → Result Machine
start now revision none = ok (initial now revision)
start now revision (some m) = do validate_machine m; ok m

-- `profile.get('revision')`, if it is a usable one.
abbrev pub revision_of : Option Profile → Option ℕ
revision_of none = none
revision_of (some f) = if is_integer f.revision 1 then some f.revision else none

abbrev pub forget : Machine → Machine
forget m = record m { sources = []; negative_count = 0; positive_count = 0; negative_since = none }

abbrev pub integer_or_raise : Option ℕ → Result ℕ
integer_or_raise none = err (policy validation_failed false)
integer_or_raise (some n) = integer n 1 >> ok n

abbrev pub has_baseline : Option ℕ → ℕ → Bool
has_baseline none b = false
has_baseline (some a) b = a == b

-- The counters and the sources belong to one policy and one profile.
unfoldable pub rebind : ℕ → Machine → Machine
rebind b m =
    if has_baseline m.baseline b && m.expected
    then m
    else record (forget m) { baseline = some b; expected = true }

unfoldable pub conclude : Call → Profile → Bool → Round → Result Evaluation
conclude c f case_open (next s) = judge c f case_open s
conclude c f case_open (stopped reason s) = finish c s.machine s.deadline unknown reason
conclude c f case_open (raised e) = err e

module _ (digest : Json → ℕ) where
  unfoldable pub evaluate_valid :
      Policy → Profile → List Observation → Bool → Call → Machine → Result Evaluation
  evaluate_valid p f rows case_open c m = do
    require (leb (length rows) 256)
    conclude c f case_open (
        scan digest p f rows c.now f.enabled_sources (record {
          machine = rebind (digest (baseline_json p f)) m;
          deadline = none;
          usable = [];
          aged = [];
          fresh = [];
        }))

  -- The `try` round `validate_profile`: its refusal is a result, and any other exception is not.
  unfoldable pub checked :
      Policy
      → Profile
      → List Observation
      → Bool
      → Call
      → Machine
      → Result (Unit {0})
      → Result Evaluation
  checked p f rows case_open c m (err (policy _ _)) = finish c m none unknown invalid_profile
  checked p f rows case_open c m (err exception) = err exception
  checked p f rows case_open c m (ok _) = evaluate_valid p f rows case_open c m

  unfoldable pub with_profile :
      Policy → Option Profile → List Observation → Bool → Call → Machine → Result Evaluation
  with_profile p none rows case_open c m = finish c m none unknown missing_profile
  with_profile p (some f) rows case_open c m = checked p f rows case_open c m (validate_profile f)

  -- The evaluation from a machine.
  unfoldable pub evaluate_from :
      Policy
      → Attachment
      → Option Profile
      → List Observation
      → Bool
      → Call
      → Machine
      → Result Evaluation
  evaluate_from p attachment profile rows case_open c m =
      if not (is_true p.expected_availability)
      then finish c (record (forget m) { expected = false }) none not_monitored operator_disabled
      else if not (is_strong attachment)
      then finish c m none unknown unknown_identity
      else if ltb c.now m.evaluated_at
      then finish c (forget m) none unknown clock_reversed
      else with_profile p profile rows case_open c m

  unfoldable pub evaluate :
      Policy
      → Attachment
      → Option Profile
      → List Observation
      → Option Machine
      → ℕ
      → Bool
      → Result Evaluation
  evaluate p attachment profile rows prior now case_open = do
    timestamp now
    asset_id p.asset
    uuid4 p.store_epoch
    revision ← integer_or_raise p.revision
    m ← start now revision prior
    evaluate_from p attachment profile rows case_open
        (record {
          now = now;
          revision = revision;
          profile_revision = revision_of profile;
          input_sha256 = digest (input_json p attachment profile rows);
        })
        m
