-- ===== src/Incidents/Lifecycle.antt =====
-- What `apply_evaluation` (pi4/lib/hioc/availability_incidents.py) does to cases and outbox.
use hioc.Base.{
  ℕ, ◌+◌, ◌≡◌, refl, ◌⊎◌, inl, inr, Bool, true, false, Option, none, some, arith, Dict, nat_key,
  lookup, insert, map_values, ok, >>=-eq-ok, Bool-cases,
}
use hioc.Contract.Json.{Json}
use hioc.Availability.Types.{Policy, Evaluation, Status}
use hioc.Availability.StatusRead.{StatusValue}
use hioc.Incidents.Types.{State, Case, Item, active, is_resolved}
use hioc.Incidents.Validate.{validate_state}
use hioc.Incidents.Cases.{
  advance, is_off, switch_off, key_of, current_case, refresh, report, step_case, apply_case,
  apply_evaluation,
}

-- The state after the OFF of an asset with a case, and after any other evaluation of one.
abbrev pub off_state : (Json → ℕ) → State → Policy → Evaluation → Case → State
off_state digest s p r c = record s {
  cases = insert (key_of digest p.asset) (record (refresh p r c) { suppressed = true }) s.cases;
  outbox = map_values (switch_off p.asset p.revision r.evaluated_at) s.outbox;
}

abbrev pub step_state : (Json → ℕ) → State → Policy → Evaluation → Case → State
step_state digest s p r c =
    let (c', outbox') = step_case digest (key_of digest p.asset) p r c s.outbox in
    record s { cases = insert (key_of digest p.asset) c' s.cases; outbox = outbox' }

-- How an application came to its result.
pub data Applied (digest : Json → ℕ) (s : State) (p : Policy) (r : Evaluation) (s' : State)
    : Type 0 where
  untouched :
      current_case digest (key_of digest p.asset) p r (lookup (key_of digest p.asset) s.cases)
        ≡ none
      → s' ≡ s
      → Applied digest s p r s'
  switched_off :
      (c : Case)
      → current_case digest (key_of digest p.asset) p r (lookup (key_of digest p.asset) s.cases)
        ≡ some c
      → is_off r.availability_state ≡ true
      → s' ≡ off_state digest s p r c
      → Applied digest s p r s'
  stepped :
      (c : Case)
      → current_case digest (key_of digest p.asset) p r (lookup (key_of digest p.asset) s.cases)
        ≡ some c
      → is_off r.availability_state ≡ false
      → s' ≡ step_state digest s p r c
      → Applied digest s p r s'

pub ok-injective {ℓ} : {A : Type ℓ} {x y : A} → ok x ≡ ok y → y ≡ x
ok-injective h = cc

module _ (digest : Json → ℕ) (oversized : StatusValue → Bool) (s : State) (p : Policy)
    (r : Evaluation) (s' : State) where
  apply_case-Applied :
      (o : Option Case)
      → current_case digest (key_of digest p.asset) p r (lookup (key_of digest p.asset) s.cases) ≡ o
      → apply_case digest oversized s p r o ≡ ok s'
      → Applied digest s p r s'
  unfolding apply_case
  apply_case-Applied none found e = untouched found (ok-injective e)
  apply_case-Applied (some c) found e = elim (Bool-cases (is_off r.availability_state)) [
    | inl off ↦ switched_off c found off (ok-injective (rw off at e))
    | inr on ↦
        let (_, _, h) =
          >>=-eq-ok (validate_state digest oversized (step_state digest s p r c)) _ (rw on at e) in
        stepped c found on (ok-injective h)
  ]

  pub apply_evaluation-Applied :
      apply_evaluation digest oversized s p r ≡ ok s' → Applied digest s p r s'
  unfolding apply_evaluation
  apply_evaluation-Applied e =
      let (_, _, h) = >>=-eq-ok (validate_state digest oversized s) _ e in
      apply_case-Applied _ refl h

-- The lifecycle, the episode and the identity of a case that an evaluation leaves alone.
pub record IsFrozen (c c' : Case) : Type 0 where
  pub lifecycle : c'.lifecycle ≡ c.lifecycle
  pub episode : c'.episode ≡ c.episode
  pub incident : c'.incident_id ≡ c.incident_id
  pub events : c'.events ≡ c.events
  pub resolved_at : c'.resolved_at ≡ c.resolved_at

-- An availability that says nothing about an outage or its end.
abbrev pub is_silent : Status → Bool
is_silent Status.offline = false
is_silent Status.recovering = false
is_silent Status.available = false
is_silent _ = true

pub step_case-IsFrozen :
    (digest : Json → ℕ) (key : ℕ) (p : Policy) (r : Evaluation) (c : Case) (outbox : Dict ℕ Item)
    → is_silent r.availability_state ≡ true
    → IsFrozen c (step_case digest key p r c outbox).0
unfolding step_case advance report
step_case-IsFrozen digest key p r c outbox h = ground arith

pub current_case-silent :
    (digest : Json → ℕ) (key : ℕ) (p : Policy) (r : Evaluation) (c : Case)
    → is_silent r.availability_state ≡ true
    → current_case digest key p r (some c) ≡ some c
unfolding current_case
current_case-silent digest key p r c h = ground arith

-- What a case that is there can become.
pub record IsLegal (r : Evaluation) (c c' : Case) : Type 0 where
  pub resolves :
      is_resolved c'.lifecycle ≡ true
      → is_resolved c.lifecycle ≡ false
      → (r.availability_state ≡ Status.available) × (c'.resolved_at ≡ some r.evaluated_at)
  pub reopens :
      is_resolved c.lifecycle ≡ true
      → is_resolved c'.lifecycle ≡ false
      → (r.availability_state ≡ Status.offline) × (c'.episode ≡ c.episode + 1)
  pub strikes :
      c'.lifecycle ≡ active → (c.lifecycle ≡ active) ⊎ (r.availability_state ≡ Status.offline)
  pub episodes : (c'.episode ≡ c.episode) ⊎ (c'.episode ≡ c.episode + 1)

pub step_case-IsLegal :
    (digest : Json → ℕ) (key : ℕ) (p : Policy) (r : Evaluation) (c c' : Case) (outbox : Dict ℕ Item)
    → current_case digest key p r (some c) ≡ some c'
    → IsLegal r c (step_case digest key p r c' outbox).0
unfolding step_case advance report current_case
step_case-IsLegal digest key p r c c' outbox h = ground arith

pub off-IsLegal :
    (digest : Json → ℕ) (key : ℕ) (p : Policy) (r : Evaluation) (c c' : Case)
    → is_off r.availability_state ≡ true
    → current_case digest key p r (some c) ≡ some c'
    → IsLegal r c (record (refresh p r c') { suppressed = true })
unfolding current_case
off-IsLegal digest key p r c c' off h = ground arith
