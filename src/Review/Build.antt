-- ===== src/Review/Build.antt =====
-- `build_incident_report`, `enrich_history` and `compact_recent_incidents` of
-- pi4/lib/hioc/core/incident_review.py, on a history whose entries are incidents.
use hioc.Base.{
  ℕ, String, Option, none, some, List, [], ◌∷◌, map, take, if◌then◌else◌, ◌==◌, text_key, Result,
  ok, ◌>>=◌,
}
use hioc.Correlation.Types.{or_text}
use hioc.Review.Types.{
  Instant, Python, Value, word, other, Incident, Entry, Line, or_else, truthy_instant,
}
use hioc.Review.Report.{
  human_duration, seconds_between, as_list, affected_services, recovery_type, recommended_action,
  recovery_text,
}
use hioc.Review.Gather.{timeline_for_incident}

-- A report; `started` and `resolved` are `none` for the text `unknown`.
pub record Report : Type 0 where
  pub title : String
  pub severity : String
  pub started : Option Instant
  pub resolved : Option Instant
  pub duration_seconds : ℕ
  pub duration : String
  pub root_cause : String
  pub confidence_percent : ℕ
  pub affected_systems : List String
  pub affected_services : List String
  pub impact_summary : String
  pub evidence : List String
  pub timeline : List Line
  pub recovery : String
  pub recommended_action : String
  pub incident_id : String
  pub recovery_type : String

-- An entry of the history after its review.
pub record Enriched : Type 0 where
  pub incident : Incident
  pub review : Report
  pub recovery_type : String
  pub duration_seconds : ℕ

-- What is shown of a recent incident.
pub record Recent : Type 0 where
  pub title : String
  pub status : String
  pub severity : String
  pub started : Option Instant
  pub resolved : Option Instant
  pub duration : String
  pub root_cause : String
  pub incident_id : String

abbrev value_of : Option String → Value
value_of none = other
value_of (some s) = word s

abbrev number_of : Option ℕ → ℕ
number_of none = 0
number_of (some n) = n

abbrev or_list : List String → List String → List String
or_list [] ys = ys
or_list (x ∷ xs) ys = x ∷ xs

abbrev ended : Incident → Option Instant
ended i = or_else (truthy_instant i.resolved) i.end_time

module _ (py : Python) where
  unfoldable pub build_incident_report : Incident → List Entry → Result Report
  build_incident_report i timeline = do
    seconds ← seconds_between py i.started (ended i) i.duration_seconds
    ok (record {
      title = or_text i.title "Incident";
      severity = or_text i.severity "info";
      started = i.started;
      resolved = truthy_instant (ended i);
      duration_seconds = seconds;
      duration = human_duration py seconds;
      root_cause = or_text i.root_cause (or_text i.system "unknown");
      confidence_percent = number_of i.confidence_percent;
      affected_systems = as_list py i.affected;
      affected_services = affected_services py (as_list py i.affected) i.signals;
      impact_summary = or_text i.impact "Impact was not recorded.";
      evidence = or_list (as_list py i.evidence) (as_list py (value_of i.reason));
      timeline = timeline_for_incident py i timeline;
      recovery = recovery_text py i;
      recommended_action = recommended_action py i;
      incident_id = or_text i.id (or_text i.incident_id "");
      recovery_type = recovery_type py i;
    })

  unfoldable pub enrich_history : List Incident → List Entry → Result (List Enriched)
  unfolding build_incident_report
  enrich_history [] timeline = ok []
  enrich_history (i ∷ rest) timeline =
      let others = enrich_history rest timeline in
      do
        review ← build_incident_report i timeline
        reviewed ← others
        ok (
            record {
              incident = i;
              review = review;
              recovery_type = review.recovery_type;
              duration_seconds = review.duration_seconds;
            }
            ∷ reviewed)

  -- A reviewed entry as it is shown.
  abbrev pub recent_of : Enriched → Recent
  recent_of e =
      let r = e.review in
      record {
        title = r.title;
        status = if r.recovery_type == "automatic" then "Resolved" else py.title r.recovery_type;
        severity = r.severity;
        started = r.started;
        resolved = r.resolved;
        duration = r.duration;
        root_cause = r.root_cause;
        incident_id = r.incident_id;
      }

  unfoldable pub compact_recent_incidents : List Enriched → ℕ → List Recent
  compact_recent_incidents history limit = map recent_of (take limit history)
