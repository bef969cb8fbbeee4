-- ===== src/Cycle/Notify.antt =====
-- The dispatching half of `run_availability_cycle` (pi4/bin/hioc-incident-engine-v2.py): each
-- pending entry of the committed outbox is authorized, claimed and submitted in turn. A
-- `PolicyError` is noted for its entry; any other exception ends the loop.
pub mod Sends
use hioc.Base.{
  ℕ, Bool, true, false, ◌&&◌, not, Option, List, [], ◌∷◌, ◌++◌, ◌||◌, Dict, insert, nat_key, Code,
  Error, policy, exception, Result, ok, err, if◌then◌else◌,
}
use hioc.Contract.Disk.{Disk}
use hioc.Contract.Json.{Json}
use hioc.Availability.Types.{Attachment}
use hioc.Availability.StatusRead.{StatusValue}
use hioc.Incidents.Types.{Item, Grant, OutboxState, is_pending}
use hioc.Incidents.Dispatch.{Engine, Store, Surroundings, authorize, claim, submit}

-- What the dispatcher meets while it works on one entry, in order.
pub record Moment : Type 0 where
  pub authorize_store : Result Store
  pub operator_enabled : Bool
  pub attachment : ℕ → Attachment
  pub grant_id : ℕ
  pub authorize_clock : ℕ
  pub authorize_disk : Disk
  pub claim_store : Result Store
  pub claim_clock : ℕ
  pub claimed_clock : ℕ
  pub claim_disk : Disk
  pub surroundings : Surroundings

-- A value of `outcomes`.
pub data Answer : Type 0 where
  submitted : OutboxState → Answer
  refused : Code → Answer

-- The variables of the loop. `ended` is an exception that left it, and `handed` the events that
-- the transport was given.
pub record Notified : Type 0 where
  pub engine : Engine
  pub outcomes : Dict ℕ Answer
  pub handed : List ℕ
  pub ended : Bool

-- How the `try` of one entry ends.
unfoldable pub note : ℕ → Notified → Result OutboxState × Engine × List ℕ → Notified
note event_id n (ok s, e, sent) = record n {
  engine = e;
  outcomes = insert event_id (submitted s) n.outcomes;
  handed = n.handed ++ sent;
}
note event_id n (err (policy code u), e, sent) = record n {
  engine = e;
  outcomes = insert event_id (refused code) n.outcomes;
  handed = n.handed ++ sent;
}
note event_id n (err exception, e, sent) = record n {
  engine = e;
  handed = n.handed ++ sent;
  ended = true;
}

module _ (digest : Json → ℕ) (oversized : StatusValue → Bool) (process_epoch : ℕ) where
  unfoldable pub after_claim : Moment → Result Item × Engine → Result OutboxState × Engine × List ℕ
  after_claim m (err x, e) = (err x, e, [])
  after_claim m (ok item, e) = submit digest oversized process_epoch m.surroundings item e

  unfoldable pub after_authorize :
      Moment → ℕ → Result Grant × Engine → Result OutboxState × Engine × List ℕ
  unfolding after_claim
  after_authorize m event_id (err x, e) = (err x, e, [])
  after_authorize m event_id (ok g, e) = after_claim m (
      claim digest oversized process_epoch m.claim_store m.claim_clock m.claimed_clock m.claim_disk
        event_id e)

  -- The body of the `try`.
  unfoldable pub notify_event : Moment → ℕ → Engine → Result OutboxState × Engine × List ℕ
  unfolding after_authorize
  notify_event m event_id e = after_authorize m event_id (
      authorize digest oversized process_epoch m.authorize_store m.operator_enabled m.attachment
        m.grant_id m.authorize_clock m.authorize_disk event_id e)

  -- The body of the loop.
  unfoldable pub notify_item : Bool → (ℕ → Moment) → ℕ → Item → Notified → Notified
  unfolding notify_event note
  notify_item has_transport moments event_id item n =
      if n.ended || not (is_pending item.state) || not has_transport
      then n
      else note event_id n (notify_event (moments event_id) event_id n.engine)

  unfoldable pub notify_all : Bool → (ℕ → Moment) → Dict ℕ Item → Notified → Notified
  unfolding notify_item
  notify_all has_transport moments [] n = n
  notify_all has_transport moments ((event_id, item) ∷ rest) n =
      notify_all has_transport moments rest (notify_item has_transport moments event_id item n)
