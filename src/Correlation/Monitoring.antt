-- ===== src/Correlation/Monitoring.antt =====
-- pi4/lib/hioc/core/monitoring.py. The sets of the source are lists here: only membership counts.
use Prim.Native.Char.{code}
use text.Mathlib.Text.{starts_with}
use hioc.Base.{
  String, Bool, false, ◌&&◌, ◌||◌, not, Option, none, some, List, [], ◌∷◌, ◌++◌, map, ◌==◌, nat_key,
  text_key, if◌then◌else◌, all, any, select, contains, is_empty,
}
use hioc.Correlation.Types.{Device, Explicit, flag, word, Python, ◌⧺◌}

abbrev pub passive_client_sources : List String
passive_client_sources = "arp_table" ∷ "dhcp_leases" ∷ []

abbrev pub authoritative_sources : List String
authoritative_sources = "known_infrastructure" ∷ "gateway" ∷ "local_host" ∷ []

abbrev onto_first : String → List String → List String
onto_first c [] = c ∷ []
onto_first c (part ∷ parts) = (c ⧺ part) ∷ parts

-- `text.split(',')`
unfoldable pub split_commas : String → List String
split_commas String.[] = "" ∷ []
split_commas (String.◌∷◌ c rest) =
    let parts = split_commas rest in
    if code c == b',' then "" ∷ parts else onto_first (String.◌∷◌ c String.[]) parts

abbrev is_text : String → Bool
is_text s = not (s == "")

module _ (py : Python) where
  -- `record_sources`: the stripped sources that are not empty.
  unfoldable pub record_sources : Device → List String
  record_sources d =
      select is_text (map py.strip d.sources)
      ++ select is_text (map py.strip (split_commas d.source))

  -- `is_dhcp_assignment_only`
  unfoldable pub is_dhcp_assignment_only : Device → Bool
  is_dhcp_assignment_only d =
      contains "dhcp_leases" (record_sources d) && all (λ s. s == "dhcp_leases") (record_sources d)

  abbrev is_enabled : Option Explicit → Bool
  is_enabled none = false
  is_enabled (some (flag b)) = b
  is_enabled (some (word s)) =
      contains (py.lower (py.strip s)) ("1" ∷ "true" ∷ "yes" ∷ "on" ∷ "enabled" ∷ [])

  abbrev folded : String → String
  folded s = py.lower (py.strip s)

  abbrev is_class : String → Option String → Bool
  is_class c none = false
  is_class c (some s) = s == c

  abbrev has_role : Device → String → Bool
  has_role d role = contains role (map folded (select (λ r. is_text (py.strip r)) d.roles))

  -- `is_operationally_monitored`
  unfoldable pub is_operationally_monitored : Device → Bool
  is_operationally_monitored d =
      let sources = record_sources d in
      is_enabled d.operationally_monitored
      || is_class "infrastructure" d.inventory_class
      || has_role d "collector"
      || has_role d "gateway"
      || contains (folded d.kind) ("collector" ∷ "gateway" ∷ "local_host" ∷ [])
      || any (λ s. contains s authoritative_sources) sources
      || any (λ s. starts_with s "integration:") sources
      || not (
          is_class "client" d.inventory_class
          && not (is_empty sources)
          && all (λ s. contains s passive_client_sources) sources)
