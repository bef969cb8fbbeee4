-- ===== src/Incidents/Outbox.antt =====
-- What `apply_evaluation` (pi4/lib/hioc/availability_incidents.py) does to the entries of the outbox.
use hioc.Base.{
  ℕ, ◌≡◌, refl, ap, ◌∙◌, Bool, true, false, Option, some, arith, Dict, nat_key, ◌==◌, lookup,
  map_values, ok, lookup-insert_self, lookup-map_values,
}
use hioc.Contract.Json.{Json}
use hioc.Availability.Types.{Policy, Evaluation}
use hioc.Availability.StatusRead.{StatusValue}
use hioc.Incidents.Types.{State, Case, Item, OutboxState, pending_authorization, cancelled}
use hioc.Incidents.Cases.{is_off, switch_off, key_of, refresh, apply_evaluation}
use hioc.Incidents.Lifecycle.{Applied, untouched, switched_off, stepped, apply_evaluation-Applied}
use hioc.Incidents.Transitions.{no_case}

-- Proposed, or awaiting authorization.
abbrev pub is_open : OutboxState → Bool
is_open OutboxState.proposed = true
is_open pending_authorization = true
is_open _ = false

-- What an operator's OFF of an asset makes of an entry.
pub record IsSwitchedOff (asset : ℕ) (revision : Option ℕ) (now : ℕ) (i i' : Item) : Type 0 where
  pub others : (i.asset == asset) ≡ false → i' ≡ i
  pub cancels : (i.asset == asset) ≡ true → is_open i.state ≡ true → i'.state ≡ cancelled
  pub keeps : (i.asset == asset) ≡ true → is_open i.state ≡ false → i'.state ≡ i.state
  pub stamped : (i.asset == asset) ≡ true → (i'.off_revision ≡ revision) × (i'.off_at ≡ some now)
  pub event : i'.event ≡ i.event
  pub grant : i'.grant ≡ i.grant

switch_off-IsSwitchedOff :
    (asset : ℕ) (revision : Option ℕ) (now : ℕ) (i : Item)
    → IsSwitchedOff asset revision now i (switch_off asset revision now i)
unfolding switch_off
switch_off-IsSwitchedOff asset revision now i = ground arith

pub lookup-map_some :
    (f : Item → Item) (k : ℕ) (i : Item) (d : Dict ℕ Item)
    → lookup k d ≡ some i
    → lookup k (map_values f d) ≡ some (f i)
lookup-map_some f k i d h = ground (arith, lookup-map_values f k d, h)

-- When the operator switches off an asset that has a case, the case is suppressed, and every entry
-- of the outbox is there with its event and its grant: of this asset, it is cancelled if it was not
-- yet authorized, keeps its state otherwise, and bears the revision of the policy and the time; of
-- another asset, it is as it was.
pub apply_evaluation-off :
    (digest : Json → ℕ) (oversized : StatusValue → Bool) (s : State) (p : Policy) (r : Evaluation)
    (k : ℕ) (i : Item) {s' : State} {c : Case}
    → apply_evaluation digest oversized s p r ≡ ok s'
    → is_off r.availability_state ≡ true
    → lookup (key_of digest p.asset) s.cases ≡ some c
    → lookup k s.outbox ≡ some i
    → ((c' : Case) × (lookup (key_of digest p.asset) s'.cases ≡ some c') × (c'.suppressed ≡ true))
      × (i' : Item) × (lookup k s'.outbox ≡ some i')
      × IsSwitchedOff p.asset p.revision r.evaluated_at i i'
apply_evaluation-off digest oversized s p r k i {s'} {c} applied off h found =
    settled (apply_evaluation-Applied digest oversized s p r s' applied)
  where
    settled :
        Applied digest s p r s'
        → ((c' : Case) × (lookup (key_of digest p.asset) s'.cases ≡ some c')
            × (c'.suppressed ≡ true))
          × (i' : Item) × (lookup k s'.outbox ≡ some i')
          × IsSwitchedOff p.asset p.revision r.evaluated_at i i'
    settled (untouched n e) = absurd (no_case digest p r c (rw h at n))
    settled (switched_off x f _ e) = (
      (
        record (refresh p r x) { suppressed = true },
        ap (λ (y : State). lookup (key_of digest p.asset) y.cases) e
            ∙ lookup-insert_self (key_of digest p.asset) _ s.cases,
        refl,
      ),
      switch_off p.asset p.revision r.evaluated_at i,
      ap (λ (y : State). lookup k y.outbox) e
          ∙ lookup-map_some (switch_off p.asset p.revision r.evaluated_at) k i s.outbox found,
      switch_off-IsSwitchedOff p.asset p.revision r.evaluated_at i,
    )
    settled (stepped x f on e) = cc
