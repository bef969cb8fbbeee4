-- ===== src/Incidents/Restart.antt =====
-- What a restart leaves of the grants of earlier processes: `restart` of
-- pi4/lib/hioc/availability_incidents.py.
use hioc.Base.{◌≡◌, Bool, true, not, ◌&&◌, Option, none, some, nat_key}
use hioc.Contract.Json.{Json}
use hioc.Incidents.Types.{
  Item, Grant, expired, delivery_unknown, process_restart_unknown, is_authorized, is_in_flight,
}

-- No process may act on the entry.
abbrev pub is_idle : Item → Bool
is_idle item = not (is_authorized item.state) && not (is_in_flight item.state)

-- The grant is not known to have been delivered.
abbrev pub IsUnknown : Option Grant → Type 0
IsUnknown none = ⊥
IsUnknown (some g) = g.outcome ≡ some process_restart_unknown

-- What a restart makes of an entry.
pub record IsRestarted (i i' : Item) : Type 0 where
  pub idle : is_idle i' ≡ true
  pub event : i'.event ≡ i.event
  pub keeps : is_idle i ≡ true → i' ≡ i
  pub expires : is_authorized i.state ≡ true → i'.state ≡ expired
  pub loses : is_in_flight i.state ≡ true → (i'.state ≡ delivery_unknown) × IsUnknown i'.grant
