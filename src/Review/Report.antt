-- ===== src/Review/Report.antt =====
-- The parts of a review (pi4/lib/hioc/core/incident_review.py) that are read from one
-- incident: its duration, the services that it affects and how it ended.
use Prim.Native.Nat.{◌/◌, ◌%◌}
use hioc.Base.{
  ℕ, String, Bool, ◌&&◌, ◌||◌, not, Option, none, some, List, [], ◌∷◌, ◌++◌, map, ltb, ◌==◌,
  nat_key, text_key, if◌then◌else◌, any, select, exception, Result, ok, err,
}
use hioc.Correlation.Types.{◌⧺◌, or_text}
use hioc.Correlation.Texts.{sorted_set}
use hioc.Review.Types.{
  Instant, Conversion, whole, invalid, overflow, Python, Value, items, word, other, Signal,
  Incident, truthy,
}

-- The units of a duration.
pub data Part : Type 0 where
  seconds minutes hours days : Part

-- The parts of a duration that are shown: one, and the next smaller one where it is not 0.
pub record Spelled : Type 0 where
  pub count : ℕ
  pub part : Part
  pub rest : Option (ℕ × Part)

abbrev nonzero : ℕ → Part → Option (ℕ × Part)
nonzero n u = if n == 0 then none else some (n, u)

unfoldable pub spell : ℕ → Spelled
spell total =
    let m = total / 60 in
    let h = m / 60 in
    if ltb total 60
    then record { count = total; part = seconds; rest = none }
    else if ltb m 60
    then record { count = m; part = minutes; rest = nonzero (total % 60) seconds }
    else if ltb h 24
    then record { count = h; part = hours; rest = nonzero (m % 60) minutes }
    else record { count = h / 24; part = days; rest = nonzero (h % 24) hours }

abbrev part_text : Part → String
part_text seconds = " seconds"
part_text minutes = " minutes"
part_text hours = " hours"
part_text days = " days"

module _ (py : Python) where
  rest_text : Option (ℕ × Part) → String
  rest_text none = ""
  rest_text (some (n, u)) = " " ⧺ py.decimal n ⧺ part_text u

  -- `human_duration` of a whole number of seconds
  unfoldable pub human_duration : ℕ → String
  unfolding rest_text
  human_duration total =
      let d = spell total in py.decimal d.count ⧺ part_text d.part ⧺ rest_text d.rest

  abbrev parse_time : Option Instant → Option py.Time
  parse_time none = none
  parse_time (some []) = none
  parse_time (some (c ∷ cs)) = py.fromisoformat (c ∷ cs)

  both : Option py.Time → Option py.Time → Result ℕ
  both (some a) (some b) = py.between a b
  both a b = ok 0

  -- `fallback not in (None, "", "unknown")`
  abbrev usable : Option String → Option String
  usable none = none
  usable (some s) = if s == "" || s == "unknown" then none else some s

  from_conversion : Conversion → Result ℕ → Result ℕ
  from_conversion (whole n) r = ok n
  from_conversion invalid r = r
  from_conversion overflow r = err exception

  from_fallback : Option String → Result ℕ → Result ℕ
  unfolding from_conversion
  from_fallback none r = r
  from_fallback (some s) r = from_conversion (py.convert s) r

  unfoldable pub seconds_between : Option Instant → Option Instant → Option String → Result ℕ
  unfolding both from_fallback
  seconds_between started resolved fallback =
      from_fallback (usable fallback) (both (parse_time started) (parse_time resolved))

  abbrev is_blank : String → Bool
  is_blank s = py.strip s == ""

  unfoldable pub as_list : Value → List String
  as_list (items xs) = select (λ s. not (is_blank s)) xs
  as_list (word s) =
      if is_blank s then [] else select (λ x. not (x == "")) (map py.strip (py.split_commas s))
  as_list other = []

  -- `SERVICE_TERMS`
  abbrev service_terms : List String
  service_terms =
      "dns" ∷ "mqtt" ∷ "pi-hole" ∷ "home assistant" ∷ "telemetry" ∷ "cloud" ∷ "nut" ∷ "ups"
      ∷ "probe" ∷ "dashboard" ∷ "automation" ∷ []

  is_service : String → Bool
  is_service s = any (λ t. py.occurs t (py.lower s)) service_terms

  signal_services : List Signal → List String
  unfolding is_service
  signal_services [] = []
  signal_services (s ∷ rest) =
      let others = signal_services rest in
      let name = py.strip (or_text s.system "") in
      if or_text s.source "" == "telemetry" && not (name == "") && is_service name
      then name ∷ others
      else others

  unfoldable pub affected_services : List String → List Signal → List String
  unfolding is_service signal_services
  affected_services affected signals =
      sorted_set (select (λ s. is_service s) affected ++ signal_services signals)

  unfoldable pub recovery_type : Incident → String
  recovery_type i =
      let existing = py.lower (py.strip (or_text i.recovery_type "")) in
      let status = py.lower (or_text i.status "") in
      let phase = py.lower (or_text i.phase "") in
      if not (existing == "")
      then existing
      else if status == "resolved" || phase == "resolved"
      then "automatic"
      else if status == "superseded"
      then "superseded"
      else if status == "interrupted"
      then "interrupted"
      else "unknown"

  -- The recommendation of `build_incident_report`: after an automatic recovery it says that no
  -- action is required.
  unfoldable pub recommended_action : Incident → String
  recommended_action i =
      let recommendation = or_text (truthy i.recommendation) "No action required." in
      if recovery_type i == "automatic" && not (py.occurs "no action" (py.lower recommendation))
      then "No action required. " ⧺ recommendation
      else recommendation

  -- `recovery` of the report
  abbrev pub recovery_text : Incident → String
  unfolding recovery_type
  recovery_text i =
      let kind = recovery_type i in
      if kind == "automatic" then "Recovered automatically." else "Recovery type: " ⧺ kind ⧺ "."
