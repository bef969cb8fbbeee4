-- ===== src/Incidents/Types.antt =====
-- The case and outbox state of pi4/lib/hioc/availability_incidents.py. The severity of every case
-- and event is the text `warning`, and the machine of a new case is set before anyone reads it.
-- A `policy_revision` of `None` is 0, which no validator takes for an integer.
use hioc.Base.{ℕ, Bool, true, false, Option, List, Dict}
use hioc.Contract.Json.{Json}
use hioc.Availability.Types.{Status, Machine}
use hioc.Availability.Snapshot.{Snapshot}

pub data Lifecycle : Type 0 where
  detected confirmed active recovering resolved : Lifecycle

pub data Transition : Type 0 where
  outage_started outage_recovered : Transition

pub data OutboxState : Type 0 where
  proposed pending_authorization authorized in_flight transport_accepted delivered : OutboxState
  failed_not_submitted delivery_unknown cancelled expired : OutboxState

-- The texts of `outcome` in a grant.
pub data Outcome : Type 0 where
  sent : OutboxState → Outcome
  process_restart_unknown deadline_expired : Outcome

pub record Event : Type 0 where
  pub event_id : ℕ
  pub incident_id : ℕ
  pub event_kind : Transition
  pub occurred_at : ℕ
  pub policy_revision : ℕ
  pub asset_id_digest : ℕ

pub record Grant : Type 0 where
  pub grant_id : ℕ
  pub event_id : ℕ
  pub store_epoch : ℕ
  pub asset_revision : ℕ
  pub evidence_sha256 : ℕ
  pub authorized_at : ℕ
  pub not_after : ℕ
  pub process_epoch : ℕ
  pub state : OutboxState
  pub claimed_at : Option ℕ
  pub transport_started_at : Option ℕ
  pub completed_at : Option ℕ
  pub outcome : Option Outcome

-- An entry of the outbox.
pub record Item : Type 0 where
  pub event : Event
  pub asset : ℕ
  pub store_epoch : ℕ
  pub policy_revision : ℕ
  pub evidence_sha256 : ℕ
  pub evidence_valid_until : Option ℕ
  pub state : OutboxState
  pub grant : Option Grant
  pub off_revision : Option ℕ
  pub off_at : Option ℕ

-- `suppressed` is a `suppression_reason` of `OPERATOR_DISABLED`.
pub record Case : Type 0 where
  pub asset : ℕ
  pub episode : ℕ
  pub incident_id : ℕ
  pub lifecycle : Lifecycle
  pub suppressed : Bool
  pub availability_state : Status
  pub policy_revision : ℕ
  pub profile_revision : Option ℕ
  pub detected_at : ℕ
  pub updated_at : ℕ
  pub resolved_at : Option ℕ
  pub machine : Machine
  pub events : List ℕ

pub record State : Type 0 where
  pub cases : Dict ℕ Case
  pub outbox : Dict ℕ Item
  pub process_epoch : ℕ
  pub legacy_active : Option Json
  pub evaluations : Dict ℕ Snapshot

abbrev pub is_pending : OutboxState → Bool
is_pending pending_authorization = true
is_pending _ = false

abbrev pub is_authorized : OutboxState → Bool
is_authorized authorized = true
is_authorized _ = false

abbrev pub is_in_flight : OutboxState → Bool
is_in_flight in_flight = true
is_in_flight _ = false

abbrev pub same_state : OutboxState → OutboxState → Bool
same_state proposed proposed = true
same_state pending_authorization pending_authorization = true
same_state authorized authorized = true
same_state in_flight in_flight = true
same_state transport_accepted transport_accepted = true
same_state delivered delivered = true
same_state failed_not_submitted failed_not_submitted = true
same_state delivery_unknown delivery_unknown = true
same_state cancelled cancelled = true
same_state expired expired = true
same_state _ _ = false

abbrev pub is_resolved : Lifecycle → Bool
is_resolved resolved = true
is_resolved _ = false

abbrev pub is_started : Transition → Bool
is_started outage_started = true
is_started outage_recovered = false

abbrev pub is_offline : Status → Bool
is_offline Status.offline = true
is_offline _ = false

abbrev pub is_available : Status → Bool
is_available Status.available = true
is_available _ = false

-- The state that a proposal of this kind must still be in.
abbrev pub is_required : Transition → Status → Bool
is_required outage_started s = is_offline s
is_required outage_recovered s = is_available s
