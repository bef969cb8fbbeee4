-- ===== src/Correlation/Signals.antt =====
-- The signals of pi4/lib/hioc/core/correlation.py.
use hioc.Base.{
  ℕ, String, Bool, false, ◌&&◌, ◌||◌, not, Option, none, some, List, [], ◌∷◌, ◌++◌, map, ◌==◌,
  text_key, if◌then◌else◌, select, contains, take,
}
use hioc.Correlation.Types.{
  Severity, critical, major, warning, info, telemetry, inventory, event, Signal, Python, Telemetry,
  Settings, Device, Service, Inventory, BusEvent, or_text, ◌⧺◌,
}
use hioc.Correlation.Monitoring.{is_operationally_monitored}
use hioc.Correlation.Texts.{sorted_set, join_commas, same_text}

-- `add`, where a root is always named.
abbrev add : String → String → Severity → String → String → List String → String → ℕ → List Signal
add name system severity reason value affected root_hint confidence =
    record {
      name = name;
      system = system;
      severity = severity;
      reason = reason;
      value = value;
      affected = affected;
      root_hint = root_hint;
      confidence = confidence;
      source = telemetry;
      device_id = none;
    }
    ∷ []

module _ (py : Python) where
  open py use {Float, parse, of_nat, at_least, below, show}

  -- `num(value)` of a reading, and of a setting with its default.
  abbrev float_of : Option Float → Float
  float_of none = of_nat 0
  float_of (some x) = x

  abbrev num : Option String → Float
  num none = of_nat 0
  num (some s) = float_of (parse s)

  abbrev setting : Option String → ℕ → Float
  setting none default = of_nat default
  setting (some s) default = float_of (parse s)

  abbrev in_ms : Float → String
  in_ms x = show x ⧺ " ms"

  unfoldable pub is_reached : Option String → Option String → ℕ → Bool
  is_reached reading limit default = at_least (num reading) (setting limit default)

  unfoldable pub gateway_signals : Telemetry → Settings → List Signal
  unfolding is_reached
  gateway_signals t c =
      let status = or_text t.gateway_status "online" in
      let latency = num t.gateway_latency_ms in
      if not (status == "online")
      then add "gateway_offline" "Gateway" critical "Gateway is unreachable from the Pi4 probe"
          status ("Gateway" ∷ "LAN" ∷ "Internet" ∷ "DNS" ∷ "MQTT" ∷ "Home Assistant" ∷ [])
          "Local gateway or LAN path" 94
      else if is_reached t.gateway_latency_ms c.major_gateway_latency_ms 100
      then add "gateway_latency" "Gateway" major ("Gateway latency is " ⧺ in_ms latency)
          (in_ms latency) ("Gateway" ∷ "LAN" ∷ "DNS" ∷ []) "Local gateway or LAN path" 88
      else if is_reached t.gateway_latency_ms c.warn_gateway_latency_ms 20
      then add "gateway_latency" "Gateway" warning ("Gateway latency is " ⧺ in_ms latency)
          (in_ms latency) ("Gateway" ∷ "LAN" ∷ []) "Local gateway or LAN path" 78
      else []

  unfoldable pub is_gateway_healthy : Telemetry → Settings → Bool
  is_gateway_healthy t c =
      or_text t.gateway_status "online" == "online"
      && below (num t.gateway_latency_ms) (setting c.warn_gateway_latency_ms 20)

  abbrev upstream : Bool → String
  upstream healthy = if healthy then "ISP or upstream routing" else "Network path"

  unfoldable pub packet_signals : Telemetry → Settings → List Signal
  unfolding is_reached is_gateway_healthy
  packet_signals t c =
      let healthy = is_gateway_healthy t c in
      let loss = show (num t.packet_loss_percent) ⧺ "%" in
      if is_reached t.packet_loss_percent c.major_packet_loss_percent 10
      then add "packet_loss" "Internet" major ("Packet loss is " ⧺ loss) loss
          ("Internet" ∷ "DNS" ∷ "MQTT" ∷ "Cloud services" ∷ []) (upstream healthy)
          (if healthy then 92 else 82)
      else if is_reached t.packet_loss_percent c.warn_packet_loss_percent 1
      then add "packet_loss" "Internet" warning ("Packet loss is " ⧺ loss) loss ("Internet" ∷ [])
          (upstream healthy) (if healthy then 84 else 72)
      else []

  unfoldable pub internet_signals : Telemetry → Settings → List Signal
  unfolding is_reached is_gateway_healthy
  internet_signals t c =
      let healthy = is_gateway_healthy t c in
      let latency = in_ms (num t.internet_latency_ms) in
      if is_reached t.internet_latency_ms c.major_internet_latency_ms 250
      then add "internet_latency" "Internet" major ("Average internet latency is " ⧺ latency)
          latency ("Internet" ∷ "Cloud services" ∷ []) (upstream healthy)
          (if healthy then 88 else 76)
      else if is_reached t.internet_latency_ms c.warn_internet_latency_ms 120
      then add "internet_latency" "Internet" warning ("Average internet latency is " ⧺ latency)
          latency ("Internet" ∷ []) (upstream healthy) (if healthy then 80 else 70)
      else []

  unfoldable pub health_signals : Telemetry → List Signal
  health_signals t =
      let health = or_text t.internet_health "healthy" in
      if health == "critical"
      then add "internet_health" "Internet" critical "Probe reports internet health as critical"
          health ("Internet" ∷ "DNS" ∷ "MQTT" ∷ []) "Internet reachability" 86
      else if health == "degraded"
      then add "internet_health" "Internet" warning "Probe reports internet health as degraded"
          health ("Internet" ∷ []) "Internet reachability" 74
      else []

  unfoldable pub dns_signals : Telemetry → Settings → List Signal
  unfolding is_reached
  dns_signals t c =
      let latency = in_ms (num t.dns_latency_ms) in
      if is_reached t.dns_latency_ms c.major_dns_latency_ms 500
      then add "dns_latency" "DNS" major ("Local DNS latency is " ⧺ latency) latency
          ("DNS" ∷ "Pi-hole" ∷ "Internet" ∷ []) "DNS resolver path" 86
      else if is_reached t.dns_latency_ms c.warn_dns_latency_ms 100
      then add "dns_latency" "DNS" warning ("Local DNS latency is " ⧺ latency) latency
          ("DNS" ∷ "Pi-hole" ∷ []) "DNS resolver path" 76
      else []

  unfoldable pub mqtt_signals : Telemetry → Settings → List Signal
  unfolding is_reached
  mqtt_signals t c =
      let duration = in_ms (num t.mqtt_publish_ms) in
      if is_reached t.mqtt_publish_ms c.major_mqtt_publish_ms 2000
      then add "mqtt_publish" "MQTT" major ("MQTT publish duration is " ⧺ duration) duration
          ("MQTT" ∷ "Telemetry" ∷ "Home Assistant" ∷ []) "MQTT broker or Home Assistant host load"
          82
      else if is_reached t.mqtt_publish_ms c.warn_mqtt_publish_ms 500
      then add "mqtt_publish" "MQTT" warning ("MQTT publish duration is " ⧺ duration) duration
          ("MQTT" ∷ "Telemetry" ∷ []) "MQTT broker or Home Assistant host load" 72
      else []

  unfoldable pub pi5_signals : Telemetry → List Signal
  pi5_signals t =
      let status = or_text t.pi5_status "online" in
      if not (status == "online")
      then add "pi5_offline" "Pi5" critical "Pi5 / Home Assistant host is unreachable from Pi4"
          status ("Home Assistant" ∷ "Dashboard" ∷ "Automations" ∷ [])
          "Pi5 power, network, or HA host failure" 95
      else []

  unfoldable pub temperature_signals : Telemetry → Settings → List Signal
  unfolding is_reached
  temperature_signals t c =
      let degrees = show (num t.pi4_temperature_c) ⧺ "C" in
      if is_reached t.pi4_temperature_c c.major_pi4_temp_c 75
      then add "pi4_temperature" "Pi4" major ("Pi4 temperature is " ⧺ degrees) degrees
          ("Pi4" ∷ "Pi-hole" ∷ "NUT" ∷ "Probe" ∷ []) "Pi4 thermal headroom reduced" 90
      else if is_reached t.pi4_temperature_c c.warn_pi4_temp_c 65
      then add "pi4_temperature" "Pi4" warning ("Pi4 temperature is " ⧺ degrees) degrees
          ("Pi4" ∷ []) "Pi4 thermal headroom reduced" 76
      else []

  unfoldable pub build_telemetry_signals : Telemetry → Settings → List Signal
  build_telemetry_signals t c =
      gateway_signals t c
      ++ (packet_signals t c
          ++ (internet_signals t c
              ++ (health_signals t
                  ++ (dns_signals t c
                      ++ (mqtt_signals t c ++ (pi5_signals t ++ temperature_signals t c))))))

-- `a or b` on texts: an absent and an empty one count as false.
abbrev or_else : Option String → String → String
or_else none s = s
or_else (some t) s = if t == "" then s else t

-- `device.get("display_name") or ... or device.get("id", "unknown device")`
unfoldable pub device_name : Device → String
device_name d =
    or_else d.display_name (or_else d.hostname (or_else d.ip (or_text d.id "unknown device")))

abbrev is_status : String → Option String → Bool
is_status s none = false
is_status s (some t) = t == s

unfoldable pub device_severity : Device → Severity
device_severity d =
    if is_status "offline" d.health_status
    then (if contains "gateway" d.roles || contains "collector" d.roles then critical else major)
    else warning

-- The services of a device, by the device that they name.
unfoldable pub services_of : Option String → List Service → List String
services_of id [] = []
services_of id (s ∷ rest) =
    let others = services_of id rest in
    if same_text s.device_id id then or_text s.name (or_text s.kind "service") ∷ others else others

unfoldable pub device_signal : List Service → Device → Signal
unfolding device_name device_severity services_of
device_signal services d =
    let name = device_name d in
    let status = or_text d.health_status "" in
    let reasons = join_commas d.health_reasons in
    record {
      name = "inventory_" ⧺ status;
      system = name;
      severity = device_severity d;
      reason =
          name
          ⧺ " inventory health is "
          ⧺ status
          ⧺ ": "
          ⧺ (if reasons == "" then "health score threshold" else reasons);
      value = or_text d.health_score "unknown";
      affected = sorted_set (name ∷ services_of d.id services);
      root_hint = name;
      confidence = if is_status "offline" d.health_status then 88 else 74;
      source = inventory;
      device_id = d.id;
    }

-- The devices that are monitored and degraded or offline.
unfoldable pub is_failing : Python → Device → Bool
is_failing py d =
    is_operationally_monitored py d
    && (is_status "degraded" d.health_status || is_status "offline" d.health_status)

unfoldable pub build_inventory_signals : Python → Inventory → List Signal
unfolding is_failing device_signal
build_inventory_signals py i = map (device_signal i.services) (select (is_failing py) i.devices)

abbrev event_signal : BusEvent → String → Signal
event_signal e kind = record {
  name = kind;
  system = "HIOC";
  severity = info;
  reason = "Internal event " ⧺ kind ⧺ " from " ⧺ or_text e.source "unknown";
  value = or_text e.id "";
  affected = "Inventory" ∷ [];
  root_hint = "Inventory change";
  confidence = 40;
  source = event;
  device_id = none;
}

abbrev pub of_event : BusEvent → Option String → List Signal
of_event e none = []
of_event e (some kind) =
    if contains kind ("DeviceDiscovered" ∷ "InventoryChanged" ∷ "TopologyChanged" ∷ [])
    then event_signal e kind ∷ []
    else []

unfoldable pub signals_of : List BusEvent → List Signal
signals_of [] = []
signals_of (e ∷ rest) = of_event e e.kind ++ signals_of rest

unfoldable pub build_event_signals : List BusEvent → List Signal
unfolding signals_of
build_event_signals events = signals_of (take 20 events)
