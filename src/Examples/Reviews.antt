-- ===== src/Examples/Reviews.antt =====
-- Reviews of an incident (pi4/lib/hioc/core/incident_review.py) to which the theorems are applied.
use hioc.Base.{
  ℕ, ◌≡◌, inr, arith, ◌≤◌, ◌<◌, ◌+◌, refl, true, none, some, [], ◌∷◌, ok, ◌==◌, text_key,
}
use hioc.Review.Types.{Python, Conversion, items, Incident, Entry}
use hioc.Review.Order.{at_most, same_line, has_line, insert_line, sort_lines, drop_seen}
use hioc.Review.Report.{as_list, spell, days, hours}
use hioc.Review.Gather.{gather, timeline_for_incident}
use hioc.Review.Duration.{size, worth, precision, is_proper, unit_of, spell_bounds}
use hioc.Review.Lines.{is_ascending, is_unique}
use hioc.Review.Timeline.{timeline_for_incident-lines, timeline_for_incident-foreign}

-- Times are not parsed, and texts are in lower case.
abbrev python : Python
python = record {
  Time = ℕ;
  fromisoformat = λ t. none;
  between = λ a b. ok 0;
  convert = λ s. Conversion.invalid;
  decimal = λ n. "1";
  lower = λ s. s;
  strip = λ s. s;
  title = λ s. s;
  split_commas = λ s. s ∷ [];
  occurs = λ a b. a == b;
}

abbrev outage : Incident
outage = record {
  id = some "inc_1";
  incident_id = none;
  status = some "resolved";
  phase = some "resolved";
  recovery_type = none;
  started = some (1 ∷ []);
  updated = some (5 ∷ []);
  resolved = some (5 ∷ []);
  end_time = some (5 ∷ []);
  duration_seconds = some "4";
  title = some "Gateway unreachable";
  severity = some "critical";
  root_cause = some "gateway";
  system = some "gateway";
  reason = some "no answer";
  impact = none;
  recommendation = none;
  confidence_percent = some 90;
  affected = items ("dns" ∷ []);
  evidence = items ("ping lost" ∷ "ping lost" ∷ []);
  signals = [];
}

abbrev late_entry : Entry
late_entry = record {
  incident_id = some "inc_1";
  timestamp = some (3 ∷ []);
  message = some "still down";
  title = none;
}

abbrev other_entry : Entry
other_entry = record late_entry { incident_id = some "inc_2" }

-- The evidence stands twice, and the entry comes after it.
run_timeline :
    timeline_for_incident python outage (other_entry ∷ late_entry ∷ [])
    ≡ record { timestamp = 1 ∷ []; message = "ping lost" }
      ∷ record { timestamp = 3 ∷ []; message = "still down" }
      ∷ record { timestamp = 5 ∷ []; message = "Incident resolved" }
      ∷ []
unfolding timeline_for_incident gather as_list drop_seen sort_lines insert_line has_line same_line
    at_most
run_timeline = refl

timeline_for_incident-lines_example :
    let lines = timeline_for_incident python outage (other_entry ∷ late_entry ∷ []) in
    (is_ascending lines ≡ true)
    × (is_unique lines ≡ true)
    × (has_line (record { timestamp = 3 ∷ []; message = "still down" }) lines ≡ true)
timeline_for_incident-lines_example =
    timeline_for_incident-lines python outage (other_entry ∷ []) [] late_entry (3 ∷ []) "still down"
      (inr (inr refl)) refl refl

timeline_for_incident-foreign_example :
    timeline_for_incident python outage (other_entry ∷ late_entry ∷ [])
    ≡ timeline_for_incident python outage (late_entry ∷ [])
timeline_for_incident-foreign_example =
    timeline_for_incident-foreign python outage [] (late_entry ∷ []) other_entry "inc_1" "inc_2"
      refl refl (λ h. ground (arith, h, text_key.same_iff "inc_2" "inc_1"))
      (λ h. ground (arith, h, text_key.same_iff "inc_2" ""))

run_spell : spell 90061 ≡ record { count = 1; part = days; rest = some (1, hours) }
unfolding spell
run_spell = refl

spell_bounds_example :
    (size (spell 90061).part ≡ unit_of 90061)
    × (is_proper (spell 90061).part (spell 90061).rest ≡ true)
    × (worth (spell 90061) ≤ 90061)
    × (90061 < worth (spell 90061) + precision 90061)
spell_bounds_example = spell_bounds 90061
