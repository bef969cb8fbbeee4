-- ===== src/Cycle/Step.antt =====
-- The middle of `main`. The clock is read once for a cycle, as a text and in seconds; the timeline
-- and the event bus are lists of what is added to them. The telemetry that is saved with an
-- incident is left out, and the history is that before it is reviewed.
use hioc.Base.{
  ℕ, ◌+◌, ◌-◌, String, Option, none, some, List, ◌∷◌, take, leb, ◌==◌, text_key, if◌then◌else◌,
}
use hioc.Correlation.Types.{Severity, info, Incident, ◌⧺◌}
use hioc.Correlation.Correlate.{lifecycle_phase}

-- An incident in the slot, with `status` and `phase` in it.
pub record Tracked : Type 0 where
  pub incident : Incident
  pub started : String
  pub updated : String
  pub started_epoch : ℕ
  pub updated_epoch : ℕ
  pub occurrences : ℕ
  pub lifecycle : String
  pub recovery_confirmations : ℕ

-- Seconds between two readings of a clock, which may run back.
pub data Span : Type 0 where
  forth back : ℕ → Span

pub record Closed : Type 0 where
  pub tracked : Tracked
  pub resolved : String
  pub duration_seconds : Span

pub data Notice : Type 0 where
  incident_superseded : String → String → Span → Notice
  incident_detected : String → String → ℕ → List String → Notice
  incident_lifecycle_changed : String → String → String → Notice
  incident_resolved : String → String → ℕ → Span → List String → Notice

pub record Entry : Type 0 where
  pub timestamp : String
  pub severity : Severity
  pub system : String
  pub title : String
  pub message : String
  pub incident_id : String
  pub root_cause : String
  pub confidence_percent : ℕ

-- `active`, where its status is `active`, and `history`; then what was published and noted, the
-- newest first.
pub record State : Type 0 where
  pub active : Option Tracked
  pub history : List Closed
  pub notices : List Notice
  pub timeline : List Entry

pub record Clock : Type 0 where
  pub timestamp : String
  pub seconds : ℕ

abbrev pub span : ℕ → ℕ → Span
span start now = if leb start now then forth (now - start) else back (start - now)

-- `active` when it leaves the slot.
unfoldable pub close : Clock → String → String → Tracked → Closed
close c status phase t = record {
  tracked = record t { incident = record t.incident { status = status; phase = phase } };
  resolved = c.timestamp;
  duration_seconds = span t.started_epoch c.seconds;
}

-- The candidate after `candidate.update(...)`.
unfoldable pub track : ℕ → Clock → Incident → Option Tracked → Tracked
track confirm_cycles c i none = record {
  incident = record i { phase = lifecycle_phase 1 confirm_cycles };
  started = c.timestamp;
  updated = c.timestamp;
  started_epoch = c.seconds;
  updated_epoch = c.seconds;
  occurrences = 1;
  lifecycle = lifecycle_phase 1 confirm_cycles;
  recovery_confirmations = 0;
}
track confirm_cycles c i (some t) = record {
  incident = record i { phase = lifecycle_phase (t.occurrences + 1) confirm_cycles };
  started = t.started;
  updated = c.timestamp;
  started_epoch = t.started_epoch;
  updated_epoch = c.seconds;
  occurrences = t.occurrences + 1;
  lifecycle = lifecycle_phase (t.occurrences + 1) confirm_cycles;
  recovery_confirmations = 0;
}

abbrev detected_entry : Clock → Incident → Entry
detected_entry c i = record {
  timestamp = c.timestamp;
  severity = i.severity;
  system = i.system;
  title = i.title;
  message = i.reason;
  incident_id = i.id;
  root_cause = i.root_cause;
  confidence_percent = i.confidence_percent;
}

-- Another incident was in the slot: it is superseded.
unfoldable pub supersede : Clock → Option Tracked → State → State
unfolding close
supersede c none s = s
supersede c (some t) s =
    let closed = close c "superseded" "archived" t in
    record s {
      history = closed ∷ s.history;
      notices =
          incident_superseded (t.incident).id (t.incident).root_cause closed.duration_seconds
          ∷ s.notices;
    }

-- A candidate that was not in the slot.
unfoldable pub open_incident : ℕ → Clock → Incident → State → State
unfolding supersede track
open_incident confirm_cycles c i s =
    let s' = supersede c s.active s in
    record s' {
      active = some (track confirm_cycles c i none);
      notices = incident_detected i.id i.root_cause i.confidence_percent i.affected ∷ s'.notices;
      timeline = detected_entry c i ∷ s'.timeline;
    }

-- A candidate that was there before.
unfoldable pub continue_incident : ℕ → Clock → Incident → Tracked → State → State
unfolding track
continue_incident confirm_cycles c i t s =
    let t' = track confirm_cycles c i (some t) in
    record s {
      active = some t';
      notices =
          if (t.incident).phase == t'.lifecycle
          then s.notices
          else incident_lifecycle_changed i.id t'.lifecycle i.root_cause ∷ s.notices;
    }

unfoldable pub with_candidate : ℕ → Clock → Incident → Option Tracked → State → State
unfolding open_incident continue_incident
with_candidate confirm_cycles c i none s = open_incident confirm_cycles c i s
with_candidate confirm_cycles c i (some t) s =
    if (t.incident).key == i.key
    then continue_incident confirm_cycles c i t s
    else open_incident confirm_cycles c i s

-- The decimal text of a span is Python's.
module _ (decimal : Span → String) where
  unfoldable pub resolve : Clock → Tracked → State → State
  unfolding close
  resolve c t s =
      let closed = close c "resolved" "resolved" t in
      let i = t.incident in
      record s {
        active = none;
        history = closed ∷ s.history;
        notices =
            incident_resolved i.id i.root_cause i.confidence_percent closed.duration_seconds
              i.affected
            ∷ s.notices;
        timeline =
            record {
              timestamp = c.timestamp;
              severity = info;
              system = i.system;
              title = "Incident resolved";
              message = i.title ⧺ " recovered after " ⧺ decimal closed.duration_seconds ⧺ "s";
              incident_id = i.id;
              root_cause = i.root_cause;
              confidence_percent = i.confidence_percent;
            }
            ∷ s.timeline;
      }

  -- One more cycle without a candidate.
  abbrev pub recovering : Clock → Tracked → Tracked
  recovering c t = record t {
    incident = record t.incident { phase = "recovering" };
    updated = c.timestamp;
    recovery_confirmations = t.recovery_confirmations + 1;
  }

  unfoldable pub without_candidate : ℕ → Clock → Option Tracked → State → State
  unfolding resolve
  without_candidate recovery_cycles c none s = s
  without_candidate recovery_cycles c (some t) s =
      if leb recovery_cycles (t.recovery_confirmations + 1)
      then resolve c (recovering c t) s
      else record s { active = some (recovering c t) }

  unfoldable pub with_or_without : ℕ → ℕ → Clock → Option Incident → State → State
  unfolding with_candidate without_candidate
  with_or_without confirm_cycles recovery_cycles c (some i) s =
      with_candidate confirm_cycles c i s.active s
  with_or_without confirm_cycles recovery_cycles c none s =
      without_candidate recovery_cycles c s.active s

  -- One cycle of `main`, from its candidate on; the history is cut to its limit.
  unfoldable pub cycle : ℕ → ℕ → ℕ → Clock → Option Incident → State → State
  unfolding with_or_without
  cycle limit confirm_cycles recovery_cycles c o s =
      let s' = with_or_without confirm_cycles recovery_cycles c o s in
      record s' { history = take limit s'.history }
