-- ===== src/Incidents/Reports.antt =====
-- The events that `apply_evaluation` (pi4/lib/hioc/availability_incidents.py) records in the outbox.
use hioc.Base.{
  ℕ, ◌≡◌, refl, ap, ◌∙◌, ◌⊎◌, inl, inr, Bool, true, false, Option, none, some, arith, Dict, nat_key,
  lookup, map_values, contains, ok, Bool-cases, lookup-insert_self, List, [], ◌∷◌, ◌++◌,
}
use hioc.Contract.Json.{Json}
use hioc.Availability.Types.{Policy, Evaluation, Status}
use hioc.Availability.StatusRead.{StatusValue}
use hioc.Incidents.Types.{
  State, Case, Item, Lifecycle, Transition, pending_authorization, cancelled, outage_started,
  outage_recovered, detected, confirmed, active, recovering, is_required,
}
use hioc.Incidents.Cases.{
  renew, key_of, current_case, refresh, report, step_case, apply_evaluation, advance, event_json,
  proposal, resolved_by,
}
use hioc.Incidents.Lifecycle.{Applied, untouched, switched_off, stepped, apply_evaluation-Applied}
use hioc.Incidents.Transitions.{no_case}
use hioc.Incidents.Outbox.{is_open}

-- An entry that stays.
pub record IsKept (i i' : Item) : Type 0 where
  pub event_id : (i'.event).event_id ≡ (i.event).event_id
  pub incident_id : (i'.event).incident_id ≡ (i.event).incident_id
  pub event_kind : (i'.event).event_kind ≡ (i.event).event_kind
  pub occurred_at : (i'.event).occurred_at ≡ (i.event).occurred_at
  pub asset : i'.asset ≡ i.asset
  pub grant : i'.grant ≡ i.grant
  pub state : (i'.state ≡ i.state) ⊎ ((is_open i.state ≡ true) × (i'.state ≡ cancelled))

-- A new entry, which reports what the evaluation found in the case `c` of its asset.
pub record IsReported (digest : Json → ℕ) (p : Policy) (r : Evaluation) (c : Case) (k : ℕ)
    (i : Item) : Type 0 where
  pub listed : contains k c.events ≡ true
  pub named : k ≡ digest (event_json (key_of digest p.asset) c.episode (i.event).event_kind)
  pub incident : (i.event).incident_id ≡ c.incident_id
  pub found : is_required (i.event).event_kind r.availability_state ≡ true
  pub pending : i.state ≡ pending_authorization
  pub ungranted : i.grant ≡ none
  pub own : i.asset ≡ p.asset
  pub evidence : i.evidence_sha256 ≡ r.input_sha256

-- What stands under an identity before and after an evaluation.
pub data Entry (digest : Json → ℕ) (p : Policy) (r : Evaluation) (s' : State) (k : ℕ)
    (o o' : Option Item) : Type 0 where
  absent : o ≡ none → o' ≡ none → Entry digest p r s' k o o'
  kept : (i i' : Item) → o ≡ some i → o' ≡ some i' → IsKept i i' → Entry digest p r s' k o o'
  reported :
      (c : Case) (i' : Item)
      → lookup (key_of digest p.asset) s'.cases ≡ some c
      → o' ≡ some i'
      → IsReported digest p r c k i'
      → Entry digest p r s' k o o'

contains-snoc : (k : ℕ) (xs : List ℕ) → contains k (xs ++ k ∷ []) ≡ true
contains-snoc k [] = ground arith
contains-snoc k (x ∷ xs) = ground (arith, contains-snoc k xs)

-- The case of a monitored asset, before its transition is recorded.
abbrev moved : Policy → Evaluation → Case → Case
moved p r x = record (refresh p r x) {
  suppressed = false;
  lifecycle = (advance x.lifecycle r.availability_state).0;
  resolved_at = resolved_by r (advance x.lifecycle r.availability_state).1 x.resolved_at;
}

step_case-report :
    (digest : Json → ℕ) (key : ℕ) (p : Policy) (r : Evaluation) (x : Case) (d : Dict ℕ Item)
    (kind : Option Transition)
    → (advance x.lifecycle r.availability_state).1 ≡ kind
    → step_case digest key p r x d
      ≡ report digest key p r (moved p r x) (map_values (renew p r) d) kind
unfolding step_case
step_case-report digest key p r x d kind h =
    ap (report digest key p r (moved p r x) (map_values (renew p r) d)) h

-- The lifecycles from which a kind of event is due.
abbrev pub is_due : Transition → Lifecycle → Bool
is_due outage_started detected = true
is_due outage_started confirmed = true
is_due outage_recovered active = true
is_due outage_recovered recovering = true
is_due _ _ = false

due-advance :
    (t : Transition) (l : Lifecycle) (s : Status)
    → is_due t l ≡ true
    → is_required t s ≡ true
    → (advance l s).1 ≡ some t
unfolding advance
due-advance t l s h k = ground arith

due-current_case :
    (digest : Json → ℕ) (key : ℕ) (p : Policy) (r : Evaluation) (t : Transition) (c : Case)
    → is_due t c.lifecycle ≡ true
    → current_case digest key p r (some c) ≡ some c
unfolding current_case
due-current_case digest key p r t c h = ground arith

report-listed :
    (digest : Json → ℕ) (key : ℕ) (p : Policy) (r : Evaluation) (c : Case) (d : Dict ℕ Item)
    (t : Transition)
    → let x = report digest key p r c d (some t) in
      let k = digest (event_json key c.episode t) in
      (contains k (x.0).events ≡ true)
      × ((contains k c.events ≡ true) ⊎ (lookup k x.1 ≡ some (proposal digest key p r c t)))
unfolding report
report-listed digest key p r c d t =
    let k = digest (event_json key c.episode t) in
    elim (Bool-cases (contains k c.events)) [
      | inl seen ↦ (ground (arith, seen), inl seen)
      | inr new ↦ (
        ground (arith, new, contains-snoc k c.events),
        inr (ground (arith, new, lookup-insert_self k (proposal digest key p r c t) d)),
      )
    ]

-- Where the case of an asset is detected or confirmed and the evaluation finds the asset offline,
-- or the case is active or recovering and it finds the asset available, the case lists the event of
-- its start, or of its recovery, afterwards; and unless it was listed before, a pending entry for
-- the event, without a grant, stands in the outbox under its identity.
pub apply_evaluation-listed :
    (digest : Json → ℕ) (oversized : StatusValue → Bool) (s : State) (p : Policy) (r : Evaluation)
    (t : Transition) {s' : State} {c : Case}
    → apply_evaluation digest oversized s p r ≡ ok s'
    → lookup (key_of digest p.asset) s.cases ≡ some c
    → is_due t c.lifecycle ≡ true
    → is_required t r.availability_state ≡ true
    → let k = digest (event_json (key_of digest p.asset) c.episode t) in
      ((c' : Case) × (lookup (key_of digest p.asset) s'.cases ≡ some c')
        × (contains k c'.events ≡ true))
      × ((contains k c.events ≡ true)
          ⊎ ((i : Item) × (lookup k s'.outbox ≡ some i)
              × (i.state ≡ pending_authorization)
              × (i.grant ≡ none)
              × ((i.event).event_kind ≡ t)
              × ((i.event).incident_id ≡ c.incident_id)
              × (i.asset ≡ p.asset)))
apply_evaluation-listed digest oversized s p r t {s'} {c} applied h due found =
    by_case (apply_evaluation-Applied digest oversized s p r s' applied)
  where
    key : ℕ
    key = key_of digest p.asset

    by_case :
        Applied digest s p r s'
        → let k = digest (event_json (key_of digest p.asset) c.episode t) in
          ((c' : Case) × (lookup (key_of digest p.asset) s'.cases ≡ some c')
            × (contains k c'.events ≡ true))
          × ((contains k c.events ≡ true)
              ⊎ ((i : Item) × (lookup k s'.outbox ≡ some i)
                  × (i.state ≡ pending_authorization)
                  × (i.grant ≡ none)
                  × ((i.event).event_kind ≡ t)
                  × ((i.event).incident_id ≡ c.incident_id)
                  × (i.asset ≡ p.asset)))
    by_case (untouched n e) = absurd (no_case digest p r c (rw h at n))
    by_case (switched_off x f off e) = absurd (ground (arith, found, off))
    by_case (stepped x f on e) =
        let same : x ≡ c = cc (due-current_case digest key p r t c due, rw h at f) in
        let q =
          step_case-report digest key p r c s.outbox (some t)
            (due-advance t c.lifecycle r.availability_state due found) in
        let (listed, entry) =
          report-listed digest key p r (moved p r c) (map_values (renew p r) s.outbox) t in
        let after = step_case digest key p r x s.outbox in
        let q' : after
            ≡ report digest key p r (moved p r c) (map_values (renew p r) s.outbox) (some t) =
          rw same q in
        (
          (
            after.0,
            ap (λ (z : State). lookup key z.cases) e ∙ lookup-insert_self key after.0 s.cases,
            rw q' listed,
          ),
          elim entry [
            | inl seen ↦ inl seen
            | inr new ↦ inr (
              proposal digest key p r (moved p r c) t,
              ap (λ (z : State). lookup (digest (event_json key c.episode t)) z.outbox) e
                  ∙ rw q' new,
              refl,
              refl,
              refl,
              refl,
              refl,
            )
          ],
        )
