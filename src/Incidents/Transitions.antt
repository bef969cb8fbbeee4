-- ===== src/Incidents/Transitions.antt =====
-- The case and outbox transitions of `apply_evaluation`
-- (pi4/lib/hioc/availability_incidents.py).
use hioc.Base.{
  ℕ, ◌≡◌, ◌≢◌, refl, Bool, true, none, some, arith, nat_key, lookup, ok, lookup-insert_self,
  lookup-insert_ne, ap, ◌∙◌,
}
use hioc.Contract.Json.{Json}
use hioc.Availability.Types.{Policy, Evaluation}
use hioc.Availability.StatusRead.{StatusValue}
use hioc.Incidents.Types.{State, Case}
use hioc.Incidents.Cases.{key_of, current_case, refresh, step_case, apply_evaluation}
use hioc.Incidents.Lifecycle.{
  Applied, untouched, switched_off, stepped, apply_evaluation-Applied, IsFrozen, IsLegal, is_silent,
  step_case-IsFrozen, current_case-silent, step_case-IsLegal, off-IsLegal,
}

pub no_case :
    (digest : Json → ℕ) (p : Policy) (r : Evaluation) (c : Case)
    → current_case digest (key_of digest p.asset) p r (some c) ≢ none
unfolding current_case
no_case digest p r c h = ground arith

module _ (digest : Json → ℕ) (oversized : StatusValue → Bool) (s : State) (p : Policy)
    (r : Evaluation) {s' : State} (applied : apply_evaluation digest oversized s p r ≡ ok s') where
  -- An applied evaluation changes no case but that of its asset.
  pub apply_evaluation-others :
      (k : ℕ) → k ≢ key_of digest p.asset → lookup k s'.cases ≡ lookup k s.cases
  apply_evaluation-others k h =
      others k h (apply_evaluation-Applied digest oversized s p r s' applied)
    where
      others :
          (k : ℕ)
          → k ≢ key_of digest p.asset
          → Applied digest s p r s'
          → lookup k s'.cases ≡ lookup k s.cases
      others k h (untouched n e) = ap (λ (x : State). lookup k x.cases) e
      others k h (switched_off c f off e) =
          ap (λ (x : State). lookup k x.cases) e
          ∙ lookup-insert_ne k (key_of digest p.asset) _ s.cases h
      others k h (stepped c f on e) =
          ap (λ (x : State). lookup k x.cases) e
          ∙ lookup-insert_ne k (key_of digest p.asset) _ s.cases h

  -- An asset's case is still there after an applied evaluation, and has changed lawfully: it is
  -- resolved only by an available asset, at the time of the evaluation; a resolved case is opened
  -- again only by an offline asset, in the next episode; it turns active only if the asset is
  -- offline; and its episode stays or is the next one.
  pub apply_evaluation-IsLegal :
      {c : Case}
      → lookup (key_of digest p.asset) s.cases ≡ some c
      → (c' : Case) × (lookup (key_of digest p.asset) s'.cases ≡ some c') × IsLegal r c c'
  apply_evaluation-IsLegal {c} h =
      legal c h (apply_evaluation-Applied digest oversized s p r s' applied)
    where
      legal :
          (c : Case)
          → lookup (key_of digest p.asset) s.cases ≡ some c
          → Applied digest s p r s'
          → (c' : Case) × (lookup (key_of digest p.asset) s'.cases ≡ some c') × IsLegal r c c'
      legal c h (untouched n e) = absurd (no_case digest p r c (rw h at n))
      legal c h (switched_off x f off e) = (
        record (refresh p r x) { suppressed = true },
        ap (λ (y : State). lookup (key_of digest p.asset) y.cases) e
            ∙ lookup-insert_self (key_of digest p.asset) _ s.cases,
        off-IsLegal digest (key_of digest p.asset) p r c x off (rw h at f),
      )
      legal c h (stepped x f on e) = (
        (step_case digest (key_of digest p.asset) p r x s.outbox).0,
        ap (λ (y : State). lookup (key_of digest p.asset) y.cases) e
            ∙ lookup-insert_self (key_of digest p.asset) _ s.cases,
        step_case-IsLegal digest (key_of digest p.asset) p r c x s.outbox (rw h at f),
      )

  -- Where the evaluation says nothing about an outage or its end (unknown, stale, degraded or not
  -- monitored), the case keeps its lifecycle, episode, identity, events and resolution.
  pub apply_evaluation-IsFrozen :
      {c : Case}
      → is_silent r.availability_state ≡ true
      → lookup (key_of digest p.asset) s.cases ≡ some c
      → (c' : Case) × (lookup (key_of digest p.asset) s'.cases ≡ some c') × IsFrozen c c'
  apply_evaluation-IsFrozen {c} quiet h =
      frozen c h (apply_evaluation-Applied digest oversized s p r s' applied)
    where
      same :
          (c x : Case) → current_case digest (key_of digest p.asset) p r (some c) ≡ some x → c ≡ x
      same c x f = cc (current_case-silent digest (key_of digest p.asset) p r c quiet, f)

      frozen :
          (c : Case)
          → lookup (key_of digest p.asset) s.cases ≡ some c
          → Applied digest s p r s'
          → (c' : Case) × (lookup (key_of digest p.asset) s'.cases ≡ some c') × IsFrozen c c'
      frozen c h (untouched n e) = absurd (no_case digest p r c (rw h at n))
      frozen c h (switched_off x f off e) = (
        record (refresh p r x) { suppressed = true },
        ap (λ (y : State). lookup (key_of digest p.asset) y.cases) e
            ∙ lookup-insert_self (key_of digest p.asset) _ s.cases,
        rw (same c x (rw h at f)) (record {
          lifecycle = refl;
          episode = refl;
          incident = refl;
          events = refl;
          resolved_at = refl;
        }),
      )
      frozen c h (stepped x f on e) = (
        (step_case digest (key_of digest p.asset) p r x s.outbox).0,
        ap (λ (y : State). lookup (key_of digest p.asset) y.cases) e
            ∙ lookup-insert_self (key_of digest p.asset) _ s.cases,
        rw (same c x (rw h at f))
            (step_case-IsFrozen digest (key_of digest p.asset) p r x s.outbox quiet),
      )
