-- ===== src/Examples/Incident.antt =====
-- Runs of the correlation: a slow gateway and a healthy night.
use hioc.Base.{
  ℕ, String, ◌≡◌, refl, Option, none, some, List, [], ◌∷◌, ◌↔◌, ◌==◌, text_key, if◌then◌else◌, leb,
  ltb, select,
}
use hioc.Correlation.Types.{
  major, telemetry, Signal, Python, Telemetry, Settings, Device, Inventory, BusEvent, Incident, ◌⧺◌,
}
use hioc.Correlation.Monitoring.{is_operationally_monitored, record_sources, split_commas}
use hioc.Correlation.Signals.{
  gateway_signals, is_reached, is_gateway_healthy, packet_signals, internet_signals, health_signals,
  dns_signals, mqtt_signals, pi5_signals, temperature_signals, build_inventory_signals,
  device_signal, device_severity, device_name, services_of, build_event_signals, signals_of,
  build_telemetry_signals, is_failing,
}
use hioc.Correlation.Correlate.{correlate, conclude_all, conclude}
use hioc.Correlation.Incident.{IsGraded, correlate-IsGraded, correlate-quiet, all_signals}

-- Whole numbers for the floating-point ones, and texts for their digests.
abbrev python : Python
python = record {
  Float = ℕ;
  parse = λ s. if s == "150" then some 150 else if s == "30" then some 30 else none;
  of_nat = λ n. n;
  at_least = λ x y. leb y x;
  below = ltb;
  show = λ n. if leb 150 n then "150.0" else "0.0";
  sha1 = λ s. "0123456789ab" ⧺ s;
  strip = λ s. s;
  lower = λ s. s;
}

abbrev reading : Option String → Telemetry
reading latency = record {
  gateway_status = some "online";
  gateway_latency_ms = latency;
  packet_loss_percent = none;
  internet_latency_ms = none;
  internet_health = none;
  dns_latency_ms = none;
  mqtt_publish_ms = none;
  pi5_status = none;
  pi4_temperature_c = none;
}

abbrev defaults : Settings
defaults = record {
  major_gateway_latency_ms = none;
  warn_gateway_latency_ms = none;
  major_packet_loss_percent = none;
  warn_packet_loss_percent = none;
  major_internet_latency_ms = none;
  warn_internet_latency_ms = none;
  major_dns_latency_ms = none;
  warn_dns_latency_ms = none;
  major_mqtt_publish_ms = none;
  warn_mqtt_publish_ms = none;
  major_pi4_temp_c = none;
  warn_pi4_temp_c = none;
}

-- A server that went offline.
abbrev server : Device
server = record {
  id = some "d1";
  display_name = some "Server";
  hostname = none;
  ip = some "10.0.0.5";
  operationally_monitored = none;
  roles = [];
  kind = "server";
  inventory_class = some "infrastructure";
  sources = "arp_table" ∷ [];
  source = "";
  health_status = some "offline";
  health_score = none;
  health_reasons = [];
}

abbrev home : Inventory
home = record { devices = server ∷ []; services = []; topology = []; dependencies = [] }

abbrev notices : List BusEvent
notices = record { id = some "e1"; kind = some "TopologyChanged"; source = none } ∷ []

abbrev outage_signals : List Signal
outage_signals = all_signals python (reading (some "150")) defaults home notices

-- The warning of the gateway, at 150 ms.
abbrev slow_gateway : Signal
slow_gateway = record {
  name = "gateway_latency";
  system = "Gateway";
  severity = major;
  reason = "Gateway latency is 150.0 ms";
  value = "150.0 ms";
  affected = "Gateway" ∷ "LAN" ∷ "DNS" ∷ [];
  root_hint = "Local gateway or LAN path";
  confidence = 88;
  source = telemetry;
  device_id = none;
}

abbrev pub outage : Incident
outage = conclude python slow_gateway (device_signal [] server ∷ []) home

run_outage : correlate python outage_signals home ≡ some outage
unfolding correlate conclude_all build_telemetry_signals gateway_signals is_reached
    is_gateway_healthy packet_signals internet_signals health_signals dns_signals mqtt_signals
    pi5_signals temperature_signals build_inventory_signals is_failing is_operationally_monitored
    record_sources split_commas device_signal device_severity device_name services_of
    build_event_signals signals_of
run_outage = refl

correlate-IsGraded_example : IsGraded outage_signals outage
correlate-IsGraded_example = correlate-IsGraded python outage_signals home outage run_outage

correlate-quiet_example :
    (correlate python (all_signals python (reading (some "30")) defaults home notices) home ≡ none)
    ↔ ((build_telemetry_signals python (reading (some "30")) defaults ≡ [])
        × (select (is_failing python) home.devices ≡ []))
correlate-quiet_example = correlate-quiet python (reading (some "30")) defaults home notices
