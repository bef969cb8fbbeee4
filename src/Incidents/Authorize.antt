-- ===== src/Incidents/Authorize.antt =====
-- What a grant and a claim of the dispatcher (pi4/lib/hioc/availability_incidents.py) rest on.
use hioc.Base.{
  ℕ, ◌≡◌, refl, Bool, true, false, Option, none, some, arith, nat_key, lookup, Result, ok, err,
  >>=-eq-ok, forbidden,
}
use hioc.Contract.{timestamp}
use hioc.Contract.Disk.{Disk, synced}
use hioc.Contract.Json.{Json}
use hioc.Availability.Types.{Attachment, is_strong, is_true}
use hioc.Availability.StatusRead.{StatusValue}
use hioc.Incidents.Types.{State, Case, Item, Grant, is_required, is_pending}
use hioc.Incidents.Validate.{validate_state, validate_state-event_id}
use hioc.Incidents.Cases.{key_of}
use hioc.Incidents.Dispatch.{
  Engine, Store, Asset, read_engine, write_engine, transaction, commit, update, guard_store,
  is_supported, decide_authorize, authorize, decide_claim, claim,
}
use hioc.Incidents.Submit.{guard-eq-ok, known-eq-ok}

module _ (digest : Json → ℕ) (oversized : StatusValue → Bool) where
  -- A transaction that returns has read a valid state, decided on it and written the next one.
  pub update-Decided {ℓ} :
      {A : Type ℓ} (disk : Disk) (decide : State → Result (A × State)) (e e' : Engine) (a : A)
      → update digest oversized disk decide e ≡ (ok a, e')
      → (s : State) × (s' : State) × (e.file ≡ some s)
        × (validate_state digest oversized s ≡ ok tt)
        × (decide s ≡ ok (a, s'))
        × (e'.file ≡ some s')
        × (disk ≡ synced)
  unfolding update transaction commit read_engine write_engine
  update-Decided {A} disk decide e e' a h = by_file e.file refl
    where
      by_decision :
          (s : State) (x : Result (A × State))
          → e.file ≡ some s
          → decide s ≡ x
          → (s : State) × (s' : State) × (e.file ≡ some s)
            × (validate_state digest oversized s ≡ ok tt)
            × (decide s ≡ ok (a, s'))
            × (e'.file ≡ some s')
            × (disk ≡ synced)
      by_decision s (err x) f d = absurd (ground (arith, f, d))
      by_decision s (ok (b, s')) f d = (
        s,
        s',
        f,
        ground (arith, f, d),
        ground (arith, f, d),
        ground (arith, f, d),
        ground (arith, f, d),
      )

      by_file :
          (o : Option State)
          → e.file ≡ o
          → (s : State) × (s' : State) × (e.file ≡ some s)
            × (validate_state digest oversized s ≡ ok tt)
            × (decide s ≡ ok (a, s'))
            × (e'.file ≡ some s')
            × (disk ≡ synced)
      by_file none f = absurd (ground (arith, f))
      by_file (some s) f = by_decision s (decide s) f refl

-- The support that an authorization has found for an event in the engine's file.
pub record Granted (digest : Json → ℕ) (oversized : StatusValue → Bool) (stored : Result Store)
    (operator : Bool) (attachment : ℕ → Attachment) (event_id : ℕ) (e : Engine) : Type 0 where
  pub state : State
  pub store : Store
  pub item : Item
  pub asset : Asset
  pub case : Case
  pub read : e.file ≡ some state
  pub valid : validate_state digest oversized state ≡ ok tt
  pub guarded : guard_store stored ≡ ok store
  pub item_known : lookup event_id state.outbox ≡ some item
  pub asset_known : lookup item.asset store.assets ≡ some asset
  pub case_known : lookup (key_of digest item.asset) state.cases ≡ some case
  pub pending : is_pending item.state ≡ true
  pub expected : is_true asset.expected_availability ≡ true
  pub same_revision : asset.revision ≡ item.policy_revision
  pub same_epoch : store.store_epoch ≡ item.store_epoch
  pub enabled : operator ≡ true
  pub attached : is_strong (attachment item.asset) ≡ true
  pub case_revision : case.policy_revision ≡ item.policy_revision
  pub unsuppressed : case.suppressed ≡ false
  pub required : is_required (item.event).event_kind case.availability_state ≡ true

module _ (digest : Json → ℕ) (oversized : StatusValue → Bool) (process_epoch : ℕ) where
  supported_by :
      (stored : Result Store) (store : Store) (operator : Bool) (attachment : ℕ → Attachment)
      (event_id : ℕ) (e : Engine) (s : State) (item : Item) (a : Option Asset) (c : Option Case)
      → e.file ≡ some s
      → guard_store stored ≡ ok store
      → validate_state digest oversized s ≡ ok tt
      → lookup event_id s.outbox ≡ some item
      → lookup item.asset store.assets ≡ a
      → lookup (key_of digest item.asset) s.cases ≡ c
      → is_supported store item a c operator (attachment item.asset) ≡ true
      → Granted digest oversized stored operator attachment event_id e
  unfolding is_supported
  supported_by stored store operator attachment event_id e s item (some a) (some c) read g v f fa fc
        h =
      record {
        state = s;
        store = store;
        item = item;
        asset = a;
        case = c;
        read = read;
        valid = v;
        guarded = g;
        item_known = f;
        asset_known = fa;
        case_known = fc;
        pending = ground (arith, h);
        case_revision = ground (arith, h);
        expected = ground (arith, h);
        same_revision = ground (arith, h);
        same_epoch = ground (arith, h);
        enabled = ground (arith, h);
        attached = ground (arith, h);
        unsuppressed = ground (arith, h);
        required = ground (arith, h);
      }
  supported_by stored store operator attachment event_id e s item none c read g v f fa fc h = cc
  supported_by stored store operator attachment event_id e s item (some a) none read g v f fa fc h =
      cc

  -- An authorization that returns has found its support.
  pub authorize-Granted :
      (stored : Result Store) (operator : Bool) (attachment : ℕ → Attachment) (grant_id now : ℕ)
      (disk : Disk) (event_id : ℕ) (e e' : Engine) (g : Grant)
      → authorize digest oversized process_epoch stored operator attachment grant_id now disk
          event_id e
        ≡ (ok g, e')
      → Granted digest oversized stored operator attachment event_id e
  unfolding authorize decide_authorize
  authorize-Granted stored operator attachment grant_id now disk event_id e e' g h =
      by_store (guard_store stored) refl
    where
      decided :
          (store : Store)
          → guard_store stored ≡ ok store
          → update digest oversized disk
              (decide_authorize digest oversized process_epoch store operator attachment grant_id
                now event_id)
              e
            ≡ (ok g, e')
          → Granted digest oversized stored operator attachment event_id e
      decided store f u =
          let (s, s', read, v, d, _, _) = update-Decided digest oversized disk _ e e' g u in
          let (item, known, d1) = known-eq-ok (lookup event_id s.outbox) _ d in
          let (_, _, d2) = >>=-eq-ok (timestamp now) _ d1 in
          let (supported, _) = guard-eq-ok _ forbidden _ d2 in
          supported_by stored store operator attachment event_id e s item _ _ read f v known refl
            refl supported

      by_store :
          (x : Result Store)
          → guard_store stored ≡ x
          → Granted digest oversized stored operator attachment event_id e
      by_store (err x) f = absurd (ground (arith, f))
      by_store (ok store) f = decided store f (ground (arith, f))

  -- A claim that returns is one of the event that was named.
  pub claim-event_id :
      (stored : Result Store) (now claimed : ℕ) (disk : Disk) (event_id : ℕ) (e e' : Engine)
      (item : Item)
      → claim digest oversized process_epoch stored now claimed disk event_id e ≡ (ok item, e')
      → (item.event).event_id ≡ event_id
  unfolding claim decide_claim
  claim-event_id stored now claimed disk event_id e e' item h = by_store (guard_store stored) refl
    where
      by_grant :
          (s : State) (found : Item) (g : Option Grant) (store : Store)
          → validate_state digest oversized s ≡ ok tt
          → lookup event_id s.outbox ≡ some found
          → found.grant ≡ g
          → (s' : State)
          → decide_claim digest oversized process_epoch store now claimed event_id s ≡ ok (item, s')
          → (item.event).event_id ≡ event_id
      by_grant s found none store v f k s' d = absurd (ground (arith, f, k))
      by_grant s found (some g) store v f k s' d =
          ground (arith, f, k, validate_state-event_id digest oversized s event_id found v f)

      decided :
          (store : Store)
          → update digest oversized disk
              (decide_claim digest oversized process_epoch store now claimed event_id)
              e
            ≡ (ok item, e')
          → (item.event).event_id ≡ event_id
      decided store u =
          let (s, s', _, v, d, _, _) = update-Decided digest oversized disk _ e e' item u in
          let (found, known, _) = known-eq-ok (lookup event_id s.outbox) _ d in
          by_grant s found found.grant store v known refl s' d

      by_store : (x : Result Store) → guard_store stored ≡ x → (item.event).event_id ≡ event_id
      by_store (err x) f = absurd (ground (arith, f))
      by_store (ok store) f = decided store (ground (arith, f))
