-- ===== src/Correlation/Incident.antt =====
-- What an incident says of its signals: proofs on Correlate and Signals.
use Prim.Native.Nat.{◌≤◌}
use native.Mathlib.Omega.{arith}
use mathlib.Core.Path.{◌≡◌, refl}
use hioc.Base.{
  ℕ, String, Bool, true, false, none, some, List, [], ◌∷◌, ◌++◌, map, leb, select, all, ◌↔◌,
  nat_key, ap, take, length, min,
}
use hioc.Correlation.Types.{
  Signal, Python, Telemetry, Settings, Device, Inventory, BusEvent, Incident, severity_rank,
}
use hioc.Correlation.Signals.{
  build_telemetry_signals, gateway_signals, packet_signals, internet_signals, health_signals,
  dns_signals, mqtt_signals, pi5_signals, temperature_signals, build_inventory_signals,
  device_signal, device_severity, is_failing, build_event_signals, signals_of, of_event,
}
use hioc.Correlation.Texts.{sorted_set}
use hioc.Correlation.Correlate.{
  greatest, is_actionable, rank_of, judge, judge_inventory, conclude, conclude_all, correlate,
  round_quotient, sum_confidence, all_affected,
}

select-append :
    {A : Type 0} (p : A → Bool) (xs ys : List A) → select p (xs ++ ys) ≡ select p xs ++ select p ys
select-append p [] ys = refl
select-append p (x ∷ xs) ys = ground (arith, select-append p xs ys)

select-all : {A : Type 0} (p : A → Bool) (xs : List A) → all p xs ≡ true → select p xs ≡ xs
select-all p [] h = refl
select-all p (x ∷ xs) h = ground (arith, select-all p xs)

append-nil : {A : Type 0} (xs : List A) → xs ++ [] ≡ xs
append-nil [] = refl
append-nil (x ∷ xs) = ap (λ ys. x ∷ ys) (append-nil xs)

append-map_none :
    {A B : Type 0} (f : B → A) (xs : List A) (ys : List B)
    → (xs ++ map f ys ≡ []) ↔ ((xs ≡ []) × (ys ≡ []))
append-map_none f [] [] = ground arith
append-map_none f [] (y ∷ ys) = ground arith
append-map_none f (x ∷ xs) ys = ground arith

all-append :
    {A : Type 0} (p : A → Bool) (xs ys : List A)
    → all p xs ≡ true
    → all p ys ≡ true
    → all p (xs ++ ys) ≡ true
all-append p [] ys h k = k
all-append p (x ∷ xs) ys h k = ground (arith, all-append p xs ys)

-- The events of the bus are for information.
signals_of-quiet : (events : List BusEvent) → select is_actionable (signals_of events) ≡ []
unfolding signals_of
signals_of-quiet [] = refl
signals_of-quiet (e ∷ rest) = ground (
  arith,
  signals_of-quiet rest,
  select-append is_actionable (of_event e e.kind) (signals_of rest),
)

module _ (py : Python) where
  gateway_signals-grave :
      (t : Telemetry) (c : Settings) → all is_actionable (gateway_signals py t c) ≡ true
  unfolding gateway_signals
  gateway_signals-grave t c = ground arith

  packet_signals-grave :
      (t : Telemetry) (c : Settings) → all is_actionable (packet_signals py t c) ≡ true
  unfolding packet_signals
  packet_signals-grave t c = ground arith

  internet_signals-grave :
      (t : Telemetry) (c : Settings) → all is_actionable (internet_signals py t c) ≡ true
  unfolding internet_signals
  internet_signals-grave t c = ground arith

  dns_signals-grave : (t : Telemetry) (c : Settings) → all is_actionable (dns_signals py t c) ≡ true
  unfolding dns_signals
  dns_signals-grave t c = ground arith

  mqtt_signals-grave :
      (t : Telemetry) (c : Settings) → all is_actionable (mqtt_signals py t c) ≡ true
  unfolding mqtt_signals
  mqtt_signals-grave t c = ground arith

  temperature_signals-grave :
      (t : Telemetry) (c : Settings) → all is_actionable (temperature_signals py t c) ≡ true
  unfolding temperature_signals
  temperature_signals-grave t c = ground arith

  health_signals-grave : (t : Telemetry) → all is_actionable (health_signals py t) ≡ true
  unfolding health_signals
  health_signals-grave t = ground arith

  pi5_signals-grave : (t : Telemetry) → all is_actionable (pi5_signals py t) ≡ true
  unfolding pi5_signals
  pi5_signals-grave t = ground arith

  telemetry-grave :
      (t : Telemetry) (c : Settings) → all is_actionable (build_telemetry_signals py t c) ≡ true
  unfolding build_telemetry_signals
  telemetry-grave t c =
      all-append is_actionable (gateway_signals py t c) _ (gateway_signals-grave t c) (
        all-append is_actionable (packet_signals py t c) _ (packet_signals-grave t c) (
          all-append is_actionable (internet_signals py t c) _ (internet_signals-grave t c) (
            all-append is_actionable (health_signals py t) _ (health_signals-grave t) (
              all-append is_actionable (dns_signals py t c) _ (dns_signals-grave t c) (
                all-append is_actionable (mqtt_signals py t c) _ (mqtt_signals-grave t c) (
                  all-append is_actionable (pi5_signals py t) _ (pi5_signals-grave t)
                    (temperature_signals-grave t c)))))))

  device_signal-grave :
      (i : Inventory) (devices : List Device)
      → all is_actionable (map (device_signal i.services) devices) ≡ true
  unfolding device_signal device_severity
  device_signal-grave i [] = refl
  device_signal-grave i (d ∷ rest) = ground (arith, device_signal-grave i rest)

  judge-confidence :
      (i : Inventory) (s : Signal) (names : List String) (n : ℕ) (affected : List String)
      → n ≤ 100
      → (70 ≤ (judge py i s names n affected).confidence)
        × ((judge py i s names n affected).confidence ≤ 100)
  unfolding judge judge_inventory
  judge-confidence i s names n affected h = ground arith

  conclude-confidence :
      (s : Signal) (rest : List Signal) (i : Inventory)
      → (70 ≤ (conclude py s rest i).confidence_percent)
        × ((conclude py s rest i).confidence_percent ≤ 100)
  unfolding conclude
  conclude-confidence s rest i =
      judge-confidence i (greatest rank_of s rest) (map (λ t. t.name) (s ∷ rest))
        (min 100 (round_quotient (sum_confidence (s ∷ rest)) (length (s ∷ rest))))
        (sorted_set (all_affected (s ∷ rest))) (omega arith)

greatest-bounds :
    {A : Type 0} (key : A → ℕ) (best : A) (xs : List A)
    → (key best ≤ key (greatest key best xs))
      × (all (λ x. leb (key x) (key (greatest key best xs))) xs ≡ true)
unfolding greatest
greatest-bounds key best [] = ground arith
greatest-bounds key best (x ∷ xs) =
    ground (arith, greatest-bounds key best xs, greatest-bounds key x xs)

module _ {A : Type 0} where
  map-all :
      {B : Type 0} (f : A → B) (p : B → Bool) (xs : List A)
      → all p (map f xs) ≡ all (λ x. p (f x)) xs
  map-all f p [] = refl
  map-all f p (x ∷ xs) = ground (arith, map-all f p xs)

  -- What a filter leaves out is bounded otherwise.
  all-apart :
      (p q : A → Bool)
      → ((x : A) → p x ≡ false → q x ≡ true)
      → (xs : List A) → all q (select p xs) ≡ true
      → all q xs ≡ true
  all-apart p q h [] k = refl
  all-apart p q h (x ∷ xs) k = ground (arith, h x, all-apart p q h xs)

conclude-signals :
    (py : Python) (s : Signal) (rest : List Signal) (i : Inventory)
    → (conclude py s rest i).signals ≡ s ∷ rest
unfolding conclude
conclude-signals py s rest i = refl

conclude-severity :
    (py : Python) (s : Signal) (rest : List Signal) (i : Inventory)
    → all (λ t. leb (rank_of t) (severity_rank (conclude py s rest i).severity)) (s ∷ rest) ≡ true
unfolding conclude
conclude-severity py s rest i = ground (
  arith,
  greatest-bounds severity_rank s.severity (map (λ t. t.severity) rest),
  map-all (λ t. t.severity)
      (λ v.
        leb (severity_rank v)
          (severity_rank (greatest severity_rank s.severity (map (λ t. t.severity) rest))))
      rest,
)

first-actionable :
    (s : Signal) (rest xs : List Signal) → select is_actionable xs ≡ s ∷ rest → 2 ≤ rank_of s
first-actionable s rest [] h = ground (arith, h)
first-actionable s rest (x ∷ xs) h = ground (arith, first-actionable s rest xs)

-- What an incident promises of the signals that it is made of.
pub record IsGraded (signals : List Signal) (inc : Incident) : Type 0 where
  pub grave : 2 ≤ severity_rank inc.severity
  pub bounds : all (λ t. leb (rank_of t) (severity_rank inc.severity)) signals ≡ true
  pub least : 70 ≤ inc.confidence_percent
  pub most : inc.confidence_percent ≤ 100
  pub kept : inc.signals ≡ select is_actionable signals

conclude_all-IsGraded :
    (py : Python) (kept signals : List Signal) (i : Inventory) (inc : Incident)
    → select is_actionable signals ≡ kept
    → conclude_all py kept i ≡ some inc
    → IsGraded signals inc
unfolding conclude_all
conclude_all-IsGraded py [] signals i inc e h = ground (arith, h)
conclude_all-IsGraded py (s ∷ rest) signals i inc e h =
    let same : inc ≡ conclude py s rest i = ground (arith, h) in
    let first : 2 ≤ rank_of s = first-actionable s rest signals e in
    let high : 2 ≤ severity_rank (conclude py s rest i).severity =
      ground (arith, conclude-severity py s rest i) in
    let all_low : all (λ t. leb (rank_of t) (severity_rank (conclude py s rest i).severity)) signals
        ≡ true =
      all-apart is_actionable (λ t. leb (rank_of t) (severity_rank (conclude py s rest i).severity))
        (λ t k. ground (arith, high, k)) signals
        (ground (arith, e, conclude-severity py s rest i)) in
    record {
      grave = ground (arith, high, same);
      bounds = ground (arith, all_low, same);
      least = ground (arith, conclude-confidence py s rest i, same);
      most = ground (arith, conclude-confidence py s rest i, same);
      kept = ground (arith, same, e, conclude-signals py s rest i);
    }

-- An incident is at least a warning and at least as severe as each of the signals given, it has a
-- confidence of at least 70 and at most 100 percent, and it carries the actionable signals.
pub correlate-IsGraded :
    (py : Python) (signals : List Signal) (i : Inventory) (inc : Incident)
    → correlate py signals i ≡ some inc
    → IsGraded signals inc
unfolding correlate
correlate-IsGraded py signals i inc h =
    conclude_all-IsGraded py (select is_actionable signals) signals i inc refl h

-- The signals of one cycle, in the order of the engine.
abbrev pub all_signals : Python → Telemetry → Settings → Inventory → List BusEvent → List Signal
all_signals py t c i events =
    build_telemetry_signals py t c ++ (build_inventory_signals py i ++ build_event_signals events)

conclude_all-none :
    (py : Python) (kept : List Signal) (i : Inventory)
    → (conclude_all py kept i ≡ none) ↔ (kept ≡ [])
unfolding conclude_all
conclude_all-none py [] i = ground arith
conclude_all-none py (s ∷ rest) i = ground arith

inventory-grave :
    (py : Python) (i : Inventory) → all is_actionable (build_inventory_signals py i) ≡ true
unfolding build_inventory_signals
inventory-grave py i = device_signal-grave py i (select (is_failing py) i.devices)

event-quiet : (events : List BusEvent) → select is_actionable (build_event_signals events) ≡ []
unfolding build_event_signals
event-quiet events = signals_of-quiet (take 20 events)

all_signals-kept :
    (py : Python) (t : Telemetry) (c : Settings) (i : Inventory) (events : List BusEvent)
    → select is_actionable (all_signals py t c i events)
      ≡ build_telemetry_signals py t c ++ build_inventory_signals py i
all_signals-kept py t c i events =
    rw
      (
        select-append is_actionable (build_telemetry_signals py t c)
            (build_inventory_signals py i ++ build_event_signals events),
        select-append is_actionable (build_inventory_signals py i) (build_event_signals events),
        select-all is_actionable (build_telemetry_signals py t c) (telemetry-grave py t c),
        select-all is_actionable (build_inventory_signals py i) (inventory-grave py i),
        event-quiet events,
        append-nil (build_inventory_signals py i),
      )
      refl

-- One cycle finds no incident exactly when no reading gives a signal and no device that is
-- monitored is degraded or offline: the events of the bus never make one.
pub correlate-quiet :
    (py : Python) (t : Telemetry) (c : Settings) (i : Inventory) (events : List BusEvent)
    → (correlate py (all_signals py t c i events) i ≡ none)
      ↔ ((build_telemetry_signals py t c ≡ []) × (select (is_failing py) i.devices ≡ []))
unfolding correlate build_inventory_signals
correlate-quiet py t c i events = rw (all_signals-kept py t c i events) (
    ground (
      arith,
      conclude_all-none py (build_telemetry_signals py t c ++ build_inventory_signals py i) i,
      append-map_none (device_signal i.services) (build_telemetry_signals py t c)
          (select (is_failing py) i.devices),
    ))
