-- ===== src/Correlation/Correlate.antt =====
-- `affected_from_graph`, `correlate` and `lifecycle_phase` of pi4/lib/hioc/core/correlation.py.
use Prim.Native.Nat.{◌+◌, ◌*◌, ◌/◌, ◌%◌, min, max}
use hioc.Base.{
  ℕ, zero, suc, String, Bool, ◌||◌, Option, none, some, List, [], ◌∷◌, ◌++◌, map, ◌==◌, nat_key,
  text_key, if◌then◌else◌, ltb, leb, select, any, contains, is_empty, length,
}
use hioc.Correlation.Types.{
  Signal, Python, Device, Service, Edge, Inventory, Incident, or_text, ◌⧺◌, severity_rank,
}
use hioc.Correlation.Texts.{sorted_set, join_with, join_commas, same_text}

-- `devices` and `services`, by their ids: of two with one id, the later stands.
unfoldable pub find_device : String → List Device → Option Device
find_device id [] = none
find_device id (d ∷ rest) = elim (find_device id rest) [
  | some e ↦ some e
  | none ↦ if same_text d.id (some id) then some d else none
]

unfoldable pub find_service : String → List Service → Option Service
find_service id [] = none
find_service id (s ∷ rest) = elim (find_service id rest) [
  | some t ↦ some t
  | none ↦ if same_text s.id (some id) then some s else none
]

abbrev named_device : String → Option Device → List String
named_device id none = []
named_device id (some d) = or_text d.display_name id ∷ []

abbrev named_service : String → Option Service → List String
named_service id none = []
named_service id (some s) = or_text s.name id ∷ []

unfoldable pub children : String → List Device → List Edge → List String
children root devices [] = []
children root devices (e ∷ rest) =
    let others = children root devices rest in
    if e.from == root then named_device e.to (find_device e.to devices) ++ others else others

unfoldable pub dependents : String → List Service → List Edge → List String
dependents root services [] = []
dependents root services (e ∷ rest) =
    let others = dependents root services rest in
    if e.from == root then named_service e.to (find_service e.to services) ++ others else others

unfoldable pub affected_from_graph : Option String → Inventory → List String
unfolding children dependents
affected_from_graph none i = []
affected_from_graph (some root) i =
    if root == ""
    then []
    else sorted_set
        (children root i.devices i.topology ++ dependents root i.services i.dependencies)

-- `max(..., key=...)`: the first of those with the greatest key.
unfoldable pub greatest {ℓ} : {A : Type ℓ} → (A → ℕ) → A → List A → A
greatest key best [] = best
greatest key best (x ∷ rest) = greatest key (if ltb (key best) (key x) then x else best) rest

-- `round(total / count)`: to the nearest number, and half way to the even one.
unfoldable pub round_quotient : ℕ → ℕ → ℕ
round_quotient total count =
    let q = total / count in
    let twice = 2 * (total % count) in
    if ltb twice count
    then q
    else if ltb count twice
    then suc q
    else if q % 2 == 0
    then q
    else suc q

unfoldable pub sum_confidence : List Signal → ℕ
sum_confidence [] = 0
sum_confidence (s ∷ rest) = s.confidence + sum_confidence rest

abbrev pub is_actionable : Signal → Bool
is_actionable s = leb 2 (severity_rank s.severity)

abbrev pub rank_of : Signal → ℕ
rank_of s = severity_rank s.severity

unfoldable pub all_affected : List Signal → List String
all_affected [] = []
all_affected (s ∷ rest) = s.affected ++ all_affected rest

abbrev evidence_of : Signal → String
evidence_of s = s.system ⧺ ": " ⧺ s.reason

unfoldable pub prefix : ℕ → String → String
prefix zero s = ""
prefix (suc n) String.[] = ""
prefix (suc n) (String.◌∷◌ c s) = String.◌∷◌ c (prefix n s)

-- What the names of the signals decide.
pub record Verdict : Type 0 where
  pub key : String
  pub title : String
  pub system : String
  pub root : String
  pub recommendation : String
  pub confidence : ℕ
  pub affected : List String

module _ (py : Python) where
  abbrev stable_id : String → String
  stable_id = py.sha1

  -- The branch of an inventory incident.
  unfoldable pub judge_inventory : Inventory → Signal → ℕ → List String → Verdict
  judge_inventory i primary confidence affected =
      let graph_affected = affected_from_graph primary.device_id i in
      record {
        key = "inventory_" ⧺ prefix 12 (stable_id primary.root_hint);
        title = primary.system ⧺ " health degradation";
        system = primary.system;
        root = primary.root_hint;
        recommendation =
            "Review inventory health reasons, device power/network state, and dependent services.";
        confidence = max confidence (if is_empty graph_affected then 70 else 80);
        affected = sorted_set (affected ++ graph_affected);
      }

  unfoldable pub judge : Inventory → Signal → List String → ℕ → List String → Verdict
  unfolding judge_inventory
  judge i primary names confidence affected =
      if contains "gateway_offline" names || contains "gateway_latency" names
      then record {
        key = "network_path_degradation";
        title = "Network path degradation";
        system = "Gateway";
        root = "Local gateway or LAN path";
        recommendation = "Check gateway, AP/switch path, cabling, and local network load.";
        confidence = max confidence 90;
        affected = affected;
      }
      else if any (λ n. contains n names)
          ("packet_loss" ∷ "internet_latency" ∷ "internet_health" ∷ [])
      then record {
        key = "internet_degradation_isp_likely";
        title = "Internet degradation";
        system = "Internet";
        root = "ISP or upstream routing";
        recommendation =
            "Gateway and local services should be checked first, then compare external targets and ISP path.";
        confidence = max confidence 86;
        affected = affected;
      }
      else if contains "dns_latency" names
      then record {
        key = "dns_degradation";
        title = "DNS degradation";
        system = "DNS";
        root = "Pi-hole, upstream DNS, or resolver latency";
        recommendation = "Check Pi-hole FTL, upstream resolver, and Pi4 resource load.";
        confidence = max confidence 82;
        affected = affected;
      }
      else if contains "mqtt_publish" names
      then record {
        key = "mqtt_degradation";
        title = "MQTT telemetry degradation";
        system = "MQTT";
        root = "MQTT broker or Home Assistant host load";
        recommendation = "Check Mosquitto broker status, HA host load, and MQTT client pressure.";
        confidence = max confidence 78;
        affected = affected;
      }
      else if contains "pi5_offline" names
      then record {
        key = "home_assistant_host_unreachable";
        title = "Home Assistant host unreachable";
        system = "Pi5";
        root = "Pi5 power, network, or HA host failure";
        recommendation = "Check Pi5 power, network link, and Home Assistant host status.";
        confidence = max confidence 95;
        affected = affected;
      }
      else if contains "pi4_temperature" names
      then record {
        key = "pi4_thermal_degradation";
        title = "Pi4 thermal warning";
        system = "Pi4";
        root = "Pi4 thermal headroom reduced";
        recommendation = "Check Pi4 cooling, case airflow, and CPU load.";
        confidence = max confidence 88;
        affected = affected;
      }
      else judge_inventory i primary confidence affected

  -- The incident of the actionable signals `s ∷ rest`.
  unfoldable pub conclude : Signal → List Signal → Inventory → Incident
  unfolding judge
  conclude s rest i =
      let actionable = s ∷ rest in
      let evidence = map evidence_of actionable in
      let verdict =
        judge i (greatest rank_of s rest) (map (λ t. t.name) actionable)
          (min 100 (round_quotient (sum_confidence actionable) (length actionable)))
          (sorted_set (all_affected actionable)) in
      record {
        id = stable_id verdict.key;
        key = verdict.key;
        status = "active";
        phase = "detected";
        severity = greatest severity_rank s.severity (map (λ t. t.severity) rest);
        system = verdict.system;
        title = verdict.title;
        root_cause = verdict.root;
        confidence_percent = verdict.confidence;
        reason = join_with "; " evidence;
        impact =
            if is_empty verdict.affected
            then "Affected systems are being evaluated"
            else "Affected systems: " ⧺ join_commas verdict.affected;
        affected = verdict.affected;
        recommendation = verdict.recommendation;
        current_value = s.value;
        evidence = evidence;
        signals = actionable;
      }

  unfoldable pub conclude_all : List Signal → Inventory → Option Incident
  conclude_all [] i = none
  conclude_all (s ∷ rest) i = some (conclude s rest i)

  unfoldable pub correlate : List Signal → Inventory → Option Incident
  unfolding conclude_all
  correlate signals i = conclude_all (select is_actionable signals) i

unfoldable pub lifecycle_phase : ℕ → ℕ → String
lifecycle_phase occurrences confirm_cycles =
    if leb occurrences 1
    then "detected"
    else if ltb occurrences confirm_cycles
    then "confirmed"
    else "active"
