-- ===== src/Correlation/Types.antt =====
-- The data of pi4/lib/hioc/core/correlation.py. A reading is the text that it was published as.
use Prim.Native.String.{◌++◌ as str_append}
use hioc.Base.{ℕ, String, Bool, Option, none, some, List}

pub data Severity : Type 0 where
  critical major warning info other : Severity

pub data Origin : Type 0 where
  telemetry inventory event : Origin

pub record Signal : Type 0 where
  pub name : String
  pub system : String
  pub severity : Severity
  pub reason : String
  pub value : String
  pub affected : List String
  pub root_hint : String
  pub confidence : ℕ
  pub source : Origin
  pub device_id : Option String

-- What the code takes from Python: floating-point numbers, with their own order, the digest SHA-1
-- in hexadecimal digits, and two operations on texts.
pub record Python : Type 1 where
  pub Float : Type 0
  pub parse : String → Option Float
  pub of_nat : ℕ → Float
  pub at_least : Float → Float → Bool
  pub below : Float → Float → Bool
  pub show : Float → String
  pub sha1 : String → String
  pub strip : String → String
  pub lower : String → String

pub record Telemetry : Type 0 where
  pub gateway_status : Option String
  pub gateway_latency_ms : Option String
  pub packet_loss_percent : Option String
  pub internet_latency_ms : Option String
  pub internet_health : Option String
  pub dns_latency_ms : Option String
  pub mqtt_publish_ms : Option String
  pub pi5_status : Option String
  pub pi4_temperature_c : Option String

-- The settings `HIOC_MAJOR_…` and `HIOC_WARN_…`.
pub record Settings : Type 0 where
  pub major_gateway_latency_ms : Option String
  pub warn_gateway_latency_ms : Option String
  pub major_packet_loss_percent : Option String
  pub warn_packet_loss_percent : Option String
  pub major_internet_latency_ms : Option String
  pub warn_internet_latency_ms : Option String
  pub major_dns_latency_ms : Option String
  pub warn_dns_latency_ms : Option String
  pub major_mqtt_publish_ms : Option String
  pub warn_mqtt_publish_ms : Option String
  pub major_pi4_temp_c : Option String
  pub warn_pi4_temp_c : Option String

-- The value of `operationally_monitored`: a Boolean, or another value by its text.
pub data Explicit : Type 0 where
  flag : Bool → Explicit
  word : String → Explicit

pub record Device : Type 0 where
  pub id : Option String
  pub display_name : Option String
  pub hostname : Option String
  pub ip : Option String
  pub operationally_monitored : Option Explicit
  pub roles : List String
  pub kind : String
  pub inventory_class : Option String
  pub sources : List String
  pub source : String
  pub health_status : Option String
  pub health_score : Option String
  pub health_reasons : List String

pub record Service : Type 0 where
  pub id : Option String
  pub device_id : Option String
  pub name : Option String
  pub kind : Option String

pub record Edge : Type 0 where
  pub from : String
  pub to : String

pub record Inventory : Type 0 where
  pub devices : List Device
  pub services : List Service
  pub topology : List Edge
  pub dependencies : List Edge

pub record BusEvent : Type 0 where
  pub id : Option String
  pub kind : Option String
  pub source : Option String

infixr 60 ◌⧺◌
-- The pieces of a formatted text, one after the other.
abbrev pub ◌⧺◌ : String → String → String
s ⧺ t = str_append s t

abbrev pub or_text : Option String → String → String
or_text none s = s
or_text (some t) s = t

-- `severity_rank`
abbrev pub severity_rank : Severity → ℕ
severity_rank critical = 4
severity_rank major = 3
severity_rank warning = 2
severity_rank info = 1
severity_rank other = 0

-- The result of `correlate`.
pub record Incident : Type 0 where
  pub id : String
  pub key : String
  pub status : String
  pub phase : String
  pub severity : Severity
  pub system : String
  pub title : String
  pub root_cause : String
  pub confidence_percent : ℕ
  pub reason : String
  pub impact : String
  pub affected : List String
  pub recommendation : String
  pub current_value : String
  pub evidence : List String
  pub signals : List Signal
