-- ===== src/Incidents/Attempt.antt =====
-- What `submit` of pi4/lib/hioc/availability_incidents.py has done when it hands an event over: the
-- attempt is consumed in the engine's file.
use hioc.Base.{
  ℕ, ◌+◌, ◌≤◌, ◌≡◌, ◌≢◌, refl, ap, ◌∙◌, ◌⊎◌, inl, inr, Bool, true, false, ◌&&◌, some, List, [], ◌∷◌,
  arith, nat_key, ◌==◌, leb, lookup, Result, ok, err, lookup-insert_self, forbidden, is_none,
  Bool-cases,
}
use hioc.Contract.Disk.{Disk, synced}
use hioc.Contract.Json.{Json}
use hioc.Availability.StatusRead.{StatusValue}
use hioc.Incidents.Types.{State, Item, Grant, OutboxState, Outcome, sent, is_in_flight}
use hioc.Incidents.Dispatch.{
  Engine, Surroundings, read_engine, write_engine, transaction, commit, update, decide_start,
  decide_outcome, record_outcome, sent_outcome, deliver, expire_claim, submit_claim, submit,
}
use hioc.Incidents.Submit.{guard-eq-ok, known-eq-ok, ok_pair, IsStarted, start-IsStarted}
use hioc.Incidents.Authorize.{update-Decided}

-- The entry of an event is in flight under this grant, and no start of it is recorded.
abbrev pub IsFresh : ℕ → ℕ → State → Type 0
IsFresh k grant_id s =
    (item : Item) × (g : Grant) × (lookup k s.outbox ≡ some item)
    × (is_in_flight item.state ≡ true)
    × (item.grant ≡ some g)
    × (g.grant_id ≡ grant_id)
    × (is_none g.transport_started_at ≡ true)

module _ (digest : Json → ℕ) (oversized : StatusValue → Bool) (epoch : ℕ) where
  start-IsFresh :
      (g : Grant) (now k : ℕ) (s s' : State) (u : Unit)
      → decide_start digest oversized epoch g now k s ≡ ok (u, s')
      → IsFresh k g.grant_id s
  unfolding decide_start
  start-IsFresh g now k s s' u h =
      let (item, found, h1) = known-eq-ok (lookup k s.outbox) _ h in
      let (flying, h2) = guard-eq-ok (is_in_flight item.state) forbidden _ h1 in
      let (actual, granted, h3) = known-eq-ok item.grant _ h2 in
      let (fresh, h4) =
        guard-eq-ok (actual.grant_id == g.grant_id && is_none actual.transport_started_at) forbidden
          (ok _) h3 in
      (item, actual, found, flying, granted, ground (arith, fresh), ground (arith, fresh))

  -- An outcome is recorded beside the start.
  outcome-IsStarted :
      (k : ℕ) (state : OutboxState) (now : ℕ) (o : Outcome) (started : ℕ) (s s' : State) (u : Unit)
      → decide_outcome digest oversized epoch k state now o (some started) s ≡ ok (u, s')
      → IsStarted k s'
  unfolding decide_outcome
  outcome-IsStarted k state now o started s s' u h =
      let (item, found, h1) = known-eq-ok (lookup k s.outbox) _ h in
      let (flying, h2) = guard-eq-ok (is_in_flight item.state) forbidden _ h1 in
      let (g, granted, h3) = known-eq-ok item.grant _ h2 in
      let (own, h4) = guard-eq-ok _ forbidden _ h3 in
      (
        _,
        _,
        ap (λ (x : State). lookup k x.outbox) (ok_pair h4) ∙ lookup-insert_self k _ s.outbox,
        refl,
        refl,
      )

  -- A transaction leaves the file, or what it has decided on.
  update-file :
      (disk : Disk) (decide : State → Result (Unit {0} × State)) (e : Engine) (s : State)
      → e.file ≡ some s
      → let e' = (update digest oversized disk decide e).1 in
        (e'.file ≡ some s) ⊎ ((s' : State) × (decide s ≡ ok (tt, s')) × (e'.file ≡ some s'))
  unfolding update transaction commit read_engine write_engine
  update-file disk decide e s f = by_decision (decide s) refl
    where
      by_decision :
          (x : Result (Unit {0} × State))
          → decide s ≡ x
          → let e' = (update digest oversized disk decide e).1 in
            (e'.file ≡ some s) ⊎ ((s' : State) × (decide s ≡ ok (tt, s')) × (e'.file ≡ some s'))
      by_decision (err x) d = inl (ground (arith, f, d))
      by_decision (ok (u, s')) d =
          let either : ((update digest oversized disk decide e).1.file ≡ some s)
              ⊎ ((update digest oversized disk decide e).1.file ≡ some s') =
            ground (arith, f, d) in
          elim either [ inl same ↦ inl same | inr new ↦ inr (s', d, new) ]

  -- After the start was recorded, it stays in the file, however the attempt ends.
  deliver-IsStarted :
      (w : Surroundings) (k : ℕ) (e : Engine) (s : State)
      → e.file ≡ some s
      → IsStarted k s
      → (s' : State) × ((deliver digest oversized epoch w k e).1.file ≡ some s') × IsStarted k s'
  unfolding deliver record_outcome
  deliver-IsStarted w k e s f started =
      elim (update-file w.outcome_disk
        (decide_outcome digest oversized epoch k (sent_outcome w.answer) w.third_clock
          (sent (sent_outcome w.answer)) (some w.second_clock))
        e s f) [
          | inl same ↦ (s, same, started)
          | inr (s', d, new) ↦ (
            s',
            new,
            outcome-IsStarted k (sent_outcome w.answer) w.third_clock (sent (sent_outcome w.answer))
                w.second_clock s s' tt d,
          )
        ]

  deliver-event :
      (w : Surroundings) (k : ℕ) (e : Engine) → (deliver digest oversized epoch w k e).2 ≡ k ∷ []
  unfolding deliver
  deliver-event w k e = refl

  -- What stands behind an event that was handed over, before and after `submit`.
  pub record IsSent (w : Surroundings) (item : Item) (g : Grant) (e : Engine)
      (x : Result OutboxState × Engine × List ℕ) : Type 0 where
    pub before : State
    pub after : State
    pub event : x.2 ≡ (item.event).event_id ∷ []
    pub in_deadline : w.second_clock + 1 ≤ g.not_after
    pub own : g.process_epoch ≡ epoch
    pub keeps_deadlines : (w.transport).deadline_aware ≡ true
    pub sends_once : (w.transport).automatic_retries ≡ false
    pub unqueued : (w.transport).offline_queue ≡ false
    pub read : e.file ≡ some before
    pub fresh : IsFresh (item.event).event_id g.grant_id before
    pub durable : w.start_disk ≡ synced
    pub left : x.1.file ≡ some after
    pub consumed : IsStarted (item.event).event_id after

  -- What `submit_claim` hands over.
  claim-IsSent :
      (w : Surroundings) (item : Item) (g : Grant) (e : Engine)
      → (submit_claim digest oversized epoch w (item.event).event_id g e).2 ≢ []
      → g.process_epoch ≡ epoch
      → (w.transport).deadline_aware ≡ true
      → (w.transport).automatic_retries ≡ false
      → (w.transport).offline_queue ≡ false
      → IsSent w item g e (submit_claim digest oversized epoch w (item.event).event_id g e)
  unfolding submit_claim expire_claim
  claim-IsSent w item g e handed own aware once unqueued =
      elim (Bool-cases (leb g.not_after w.second_clock)) [
        | inl late ↦ absurd (handed (ground (arith, late)))
        | inr in_time ↦ by_start in_time _ refl
      ]
    where
      by_start :
          leb g.not_after w.second_clock ≡ false
          → (x : Result (Unit {0}) × Engine)
          → update digest oversized w.start_disk
              (decide_start digest oversized epoch g w.second_clock (item.event).event_id)
              e
            ≡ x
          → IsSent w item g e (submit_claim digest oversized epoch w (item.event).event_id g e)
      by_start in_time (err x, e') q = absurd (handed (ground (arith, in_time, q)))
      by_start in_time (ok u, e') q =
          let (s, s', read, _, d, file, durable) =
            update-Decided digest oversized w.start_disk _ e e' u q in
          let (after, left, consumed) = deliver-IsStarted w (item.event).event_id e' s' file (
            start-IsStarted digest oversized epoch g w.second_clock (item.event).event_id s s' u
              d) in
          let same : submit_claim digest oversized epoch w (item.event).event_id g e
              ≡ deliver digest oversized epoch w (item.event).event_id e' =
            ground (arith, in_time, q) in
          rw same (record {
            before = s;
            after = after;
            event = deliver-event w (item.event).event_id e';
            in_deadline = ground (arith, in_time);
            own = own;
            keeps_deadlines = aware;
            sends_once = once;
            unqueued = unqueued;
            read = read;
            fresh = start-IsFresh g w.second_clock (item.event).event_id s s' u d;
            durable = durable;
            left = left;
            consumed = consumed;
          })

  -- `submit` hands nothing to the transport, or just the event of the item that it was given, before
  -- the deadline of the grant, by a process of its epoch, through a transport that keeps deadlines,
  -- does not retry and does not queue. The engine's file then held an entry for the event that was in
  -- flight under the same grant with no start recorded, the record of the start was written durably
  -- before, and the file holds it in the end, however the attempt ended.
  pub submit-IsSent :
      (w : Surroundings) (item : Item) (e : Engine) (g : Grant)
      → item.grant ≡ some g
      → (submit digest oversized epoch w item e).2 ≢ []
      → IsSent w item g e (submit digest oversized epoch w item e)
  unfolding submit expire_claim
  submit-IsSent w item e g h handed =
      let same : submit digest oversized epoch w item e
          ≡ submit_claim digest oversized epoch w (item.event).event_id g e =
        ground (arith, h) in
      rw same (
        claim-IsSent w item g e (rw same at handed) (ground (arith, h)) (ground (arith, h))
          (ground (arith, h)) (ground (arith, h)))
