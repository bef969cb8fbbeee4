-- ===== src/Cycle/Notify/Sends.antt =====
-- What the dispatching half of `run_availability_cycle` (pi4/bin/hioc-incident-engine-v2.py) hands
-- to the transport.
use hioc.Base.{
  ℕ, ◌≡◌, refl, ap, sym, ◌∙◌, ◌⊎◌, inl, inr, Bool, true, false, not, ◌||◌, List, [], ◌∷◌, ◌++◌,
  Dict, arith, Bool-cases, nat_key, policy, exception, Result, ok, err,
}
use mathlib.Core.List.{append_assoc, append-nil}
use hioc.Contract.Json.{Json}
use hioc.Availability.StatusRead.{StatusValue}
use hioc.Incidents.Types.{Item, Grant, OutboxState, is_pending}
use hioc.Incidents.Dispatch.{
  Engine, Surroundings, submit, submit_claim, deliver, expire_claim, claim, authorize,
}
use hioc.Incidents.Authorize.{Granted, authorize-Granted, claim-event_id}
use hioc.Cycle.Notify.{
  Moment, Notified, note, after_claim, after_authorize, notify_event, notify_item, notify_all,
}

module _ (digest : Json → ℕ) (oversized : StatusValue → Bool) (process_epoch : ℕ) where
  -- `submit` hands over nothing, or the one event of the claim.
  submit-sent :
      (w : Surroundings) (item : Item) (e : Engine)
      → let sent = (submit digest oversized process_epoch w item e).2 in
        (sent ≡ []) ⊎ (sent ≡ (item.event).event_id ∷ [])
  unfolding submit submit_claim deliver expire_claim
  submit-sent w item e = ground arith

  -- What the dispatcher found for an event in its moment, in the engine's file.
  abbrev pub Supported : Moment → ℕ → Engine → Type 0
  Supported m k e = Granted digest oversized m.authorize_store m.operator_enabled m.attachment k e

  -- The work on one entry hands over nothing, or the event of the entry, which has its support.
  notify_event-sent :
      (m : Moment) (k : ℕ) (e : Engine)
      → let sent = (notify_event digest oversized process_epoch m k e).2 in
        (sent ≡ []) ⊎ ((sent ≡ k ∷ []) × Supported m k e)
  unfolding notify_event after_authorize after_claim
  notify_event-sent m k e = from_authorize _ refl
    where
      from_claim :
          (x : Result Item × Engine) (e' : Engine)
          → claim digest oversized process_epoch m.claim_store m.claim_clock m.claimed_clock
              m.claim_disk k e'
            ≡ x
          → Supported m k e
          → let sent = (after_claim digest oversized process_epoch m x).2 in
            (sent ≡ []) ⊎ ((sent ≡ k ∷ []) × Supported m k e)
      from_claim (err _, a) e' c s = inl refl
      from_claim (ok item, a) e' c s = elim (submit-sent m.surroundings item a) [
        | inl h ↦ inl h
        | inr h ↦ inr (
          h
              ∙ ap (λ (i : ℕ). i ∷ [])
                  (claim-event_id digest oversized process_epoch m.claim_store m.claim_clock
                    m.claimed_clock m.claim_disk k e' a item c),
          s,
        )
      ]

      from_authorize :
          (x : Result Grant × Engine)
          → authorize digest oversized process_epoch m.authorize_store m.operator_enabled
              m.attachment m.grant_id m.authorize_clock m.authorize_disk k e
            ≡ x
          → let sent = (after_authorize digest oversized process_epoch m k x).2 in
            (sent ≡ []) ⊎ ((sent ≡ k ∷ []) × Supported m k e)
      from_authorize (err _, a) h = inl refl
      from_authorize (ok g, a) h = from_claim _ a refl (
          authorize-Granted digest oversized process_epoch m.authorize_store m.operator_enabled
            m.attachment m.grant_id m.authorize_clock m.authorize_disk k e a g h)

  -- The events that the loop hands over for the entries of an outbox, from a state of its variables
  -- on: in the order of the entries, each for an entry of its own that is pending and has its support
  -- in the file that the loop has come to.
  pub data Sends (b : Bool) (moments : ℕ → Moment) : Notified → List ℕ → Dict ℕ Item → Type 0 where
    finished : {n : Notified} → Sends b moments n [] []
    passed_over :
        {n : Notified} {ks : List ℕ} {k : ℕ} {item : Item} {d : Dict ℕ Item}
        → Sends b moments (notify_item digest oversized process_epoch b moments k item n) ks d
        → Sends b moments n ks ((k, item) ∷ d)
    sent :
        {n : Notified} {ks : List ℕ} {k : ℕ} {item : Item} {d : Dict ℕ Item}
        → is_pending item.state ≡ true
        → Supported (moments k) k n.engine
        → Sends b moments (notify_item digest oversized process_epoch b moments k item n) ks d
        → Sends b moments n (k ∷ ks) ((k, item) ∷ d)

  pub Sends-nothing :
      (b : Bool) (moments : ℕ → Moment) (n : Notified) (d : Dict ℕ Item) → Sends b moments n [] d
  Sends-nothing b moments n [] = finished
  Sends-nothing b moments n ((k, item) ∷ d) =
      passed_over
        (Sends-nothing b moments (notify_item digest oversized process_epoch b moments k item n) d)

  note-handed :
      (k : ℕ) (n : Notified) (x : Result OutboxState × Engine × List ℕ)
      → (note k n x).handed ≡ n.handed ++ x.2
  unfolding note
  note-handed k n (ok s, e, xs) = refl
  note-handed k n (err (policy c u), e, xs) = refl
  note-handed k n (err exception, e, xs) = refl

  -- What one entry adds.
  notify_item-handed :
      (b : Bool) (moments : ℕ → Moment) (k : ℕ) (item : Item) (n : Notified)
      → let n' = notify_item digest oversized process_epoch b moments k item n in
        (n'.handed ≡ n.handed)
        ⊎ ((n'.handed ≡ n.handed ++ k ∷ [])
            × (is_pending item.state ≡ true)
            × Supported (moments k) k n.engine)
  unfolding notify_item
  notify_item-handed b moments k item n =
      elim (Bool-cases (n.ended || not (is_pending item.state) || not b)) [
        | inl skip ↦ inl (ground (arith, skip))
        | inr go ↦ elim (notify_event-sent (moments k) k n.engine) [
          | inl h ↦ inl (
              ground (
                arith,
                go,
                note-handed k n
                    (notify_event digest oversized process_epoch (moments k) k n.engine),
                h,
                append-nil n.handed,
              ))
          | inr (h, s) ↦ inr (
            ground (
              arith,
              go,
              note-handed k n (notify_event digest oversized process_epoch (moments k) k n.engine),
              h,
            ),
            ground (arith, go),
            s,
          )
        ]
      ]

  -- The events that the loop hands over.
  notify_all-Sends :
      (b : Bool) (moments : ℕ → Moment) (d : Dict ℕ Item) (n : Notified)
      → (ks : List ℕ) × Sends b moments n ks d
        × ((notify_all digest oversized process_epoch b moments d n).handed ≡ n.handed ++ ks)
  unfolding notify_all
  notify_all-Sends b moments [] n = ([], finished, sym (append-nil n.handed))
  notify_all-Sends b moments ((k, item) ∷ rest) n =
      let (ks, s, e) =
        notify_all-Sends b moments rest
          (notify_item digest oversized process_epoch b moments k item n) in
      elim (notify_item-handed b moments k item n) [
        | inl h ↦ (ks, passed_over s, e ∙ ap (λ (x : List ℕ). x ++ ks) h)
        | inr (h, pending, supported) ↦ (
          k ∷ ks,
          sent pending supported s,
          e ∙ ap (λ (x : List ℕ). x ++ ks) h ∙ append_assoc n.handed (k ∷ []) ks,
        )
      ]

  -- What the loop hands over, which is nothing without a transport.
  pub record Handing (b : Bool) (moments : ℕ → Moment) (d : Dict ℕ Item) (n : Notified)
      : Type 0 where
    pub events : List ℕ
    pub sends : Sends b moments n events d
    pub added :
        (notify_all digest oversized process_epoch b moments d n).handed ≡ n.handed ++ events
    pub idle : b ≡ false → events ≡ []

  notify_all-idle :
      (moments : ℕ → Moment) (d : Dict ℕ Item) (n : Notified)
      → notify_all digest oversized process_epoch false moments d n ≡ n
  unfolding notify_all notify_item
  notify_all-idle moments [] n = refl
  notify_all-idle moments ((k, item) ∷ rest) n = ground (arith, notify_all-idle moments rest n)

  pub notify_all-Handing :
      (b : Bool) (moments : ℕ → Moment) (d : Dict ℕ Item) (n : Notified) → Handing b moments d n
  notify_all-Handing true moments d n =
      let (ks, s, e) = notify_all-Sends true moments d n in
      record { events = ks; sends = s; added = e; idle = λ h. cc }
  notify_all-Handing false moments d n = record {
    events = [];
    sends = Sends-nothing false moments n d;
    added =
        ap (λ (x : Notified). x.handed) (notify_all-idle moments d n) ∙ sym (append-nil n.handed);
    idle = λ _. refl;
  }
