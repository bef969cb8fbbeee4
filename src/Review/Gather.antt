-- ===== src/Review/Gather.antt =====
-- `timeline_for_incident` (pi4/lib/hioc/core/incident_review.py).
use hioc.Base.{
  String, Bool, true, ◌||◌, Option, none, some, List, [], ◌∷◌, ◌++◌, map, ◌==◌, nat_key, text_key,
  if◌then◌else◌, any, select, is_empty,
}
use hioc.Correlation.Types.{or_text}
use hioc.Review.Types.{
  Instant, Python, Incident, Entry, Line, truthy, or_else, truthy_instant, or_instant,
}
use hioc.Review.Order.{sort_lines, drop_seen}
use hioc.Review.Report.{as_list}

-- `event.get("incident_id") not in (incident_id, "", None)` skips an entry.
unfoldable pub belongs : Option String → Option String → Bool
belongs none j = true
belongs (some i) none = true
belongs (some i) (some j) = i == j || j == ""

abbrev pub identity_of : Incident → Option String
identity_of i = or_else (truthy i.id) (truthy i.incident_id)

unfoldable pub line_of : Incident → Entry → Line
line_of i e = record {
  timestamp = or_instant e.timestamp (or_instant i.updated []);
  message = or_text (or_else (truthy e.message) (truthy e.title)) "Incident event";
}

-- The detection, where no entry tells of it.
unfoldable pub detection : Incident → Option Instant → List Line
detection i none = []
detection i (some t) =
    record {
      timestamp = t;
      message = or_text (or_else (truthy i.reason) i.title) "Incident detected";
    }
    ∷ []

module _ (py : Python) where
  -- The end, where no line tells of it.
  unfoldable pub resolution : List Line → Option Instant → List Line
  resolution told none = []
  resolution told (some t) =
      if any (λ l. py.occurs "resolved" (py.lower l.message)) told
      then []
      else record { timestamp = t; message = "Incident resolved" } ∷ []

  -- The lines of an incident before they are sorted.
  unfoldable pub gather : Incident → List Entry → List Line
  unfolding belongs line_of detection resolution
  gather i timeline =
      let entries =
        map (line_of i) (select (λ e. belongs (identity_of i) e.incident_id) timeline) in
      let told =
        (if is_empty entries then detection i (truthy_instant i.started) else entries)
        ++ map (λ s. record { timestamp = or_instant i.started []; message = s })
            (as_list py i.evidence) in
      told ++ resolution told (or_else (truthy_instant i.resolved) (truthy_instant i.end_time))

  unfoldable pub timeline_for_incident : Incident → List Entry → List Line
  timeline_for_incident i timeline = drop_seen [] (sort_lines (gather i timeline))
