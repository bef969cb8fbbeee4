-- ===== src/Incidents/Dispatch.antt =====
-- `EngineState` and `Dispatcher` of pi4/lib/hioc/availability_incidents.py. The incident lock is
-- `held`, the state file is `file`, and what the environment decides (the clock, fresh UUIDs, how
-- a write ends, what the Asset store holds) comes in as arguments.
use hioc.Base.{
  ℕ, Bool, true, false, ◌&&◌, ◌||◌, not, Option, none, some, List, [], ◌∷◌, min, ltb, leb, ◌==◌,
  nat_key, if◌then◌else◌, is_none, Dict, lookup, insert, Error, policy, exception, Result, ok, err,
  ◌>>=◌, ◌>>◌, or_raise, busy, forbidden, commit_unknown, store_unavailable, unsupported_schema,
}
use hioc.Contract.{require_code, timestamp, add_seconds}
use hioc.Contract.Disk.{Disk, synced, refused, torn}
use hioc.Contract.Json.{Json}
use hioc.Availability.Types.{Attachment, is_strong, is_true}
use hioc.Availability.StatusRead.{StatusValue}
use hioc.Incidents.Types.{
  State, Case, Item, Grant, OutboxState, Outcome, sent, deadline_expired, authorized, in_flight,
  transport_accepted, delivered, failed_not_submitted, delivery_unknown, expired, is_pending,
  is_authorized, is_in_flight, is_required,
}
use hioc.Incidents.Validate.{validate_state}
use hioc.Incidents.Cases.{key_of}

-- The engine's file and its two flags; `text_length` is the length of the text that `json.dumps`
-- makes of a state.
pub record Engine : Type 0 where
  pub text_length : State → ℕ
  pub held : Bool
  pub uncertain : Bool
  pub file : Option State

-- A policy record of the Asset store.
pub record Asset : Type 0 where
  pub expected_availability : Option Bool
  pub revision : ℕ

-- The Asset store under its shared lock.
pub record Store : Type 0 where
  pub is_version_2 : Bool
  pub uncertain : Bool
  pub durable : Bool
  pub store_epoch : ℕ
  pub assets : Dict ℕ Asset

abbrev uncertain_commit : Error
uncertain_commit = policy commit_unknown true

abbrev not_uncertain : Bool → Result (Unit {0})
not_uncertain true = err uncertain_commit
not_uncertain false = ok tt

module _ (digest : Json → ℕ) (oversized : StatusValue → Bool) where
  -- `EngineState.read`, inside a transaction.
  unfoldable pub read_engine : Engine → Result State
  read_engine e = do
    require_code e.held forbidden
    not_uncertain e.uncertain
    s ← elim e.file [ none ↦ err (policy store_unavailable false) | some s ↦ ok s ]
    validate_state digest oversized s
    ok s

  -- The tests of `write`, up to the size of the text.
  abbrev writable : State → Engine → Result (Unit {0})
  writable s e = do
    require_code e.held forbidden
    validate_state digest oversized s
    require_code (leb (e.text_length s) 16777216) busy

  -- `EngineState.write`, inside a transaction.
  unfoldable pub write_engine : Disk → State → Engine → Result (Unit {0}) × Engine
  write_engine disk s e = elim (writable s e) [
    | err x ↦ (err x, e)
    | ok _ ↦ elim disk [
      | synced ↦ (ok tt, record e { file = some s })
      | refused ↦ (err (policy store_unavailable false), e)
      | torn ↦ (err uncertain_commit, record e { file = some s; uncertain = true })
    ]
  ]

  -- `EngineState.transaction`: the lock is released however the body ends.
  unfoldable pub transaction {ℓ} :
      {A : Type ℓ} → (Engine → Result A × Engine) → Engine → Result A × Engine
  transaction body e =
      if e.held
      then (err (policy busy false), e)
      else (let (r, e') = body (record e { held = true }) in (r, record e' { held = false }))

  -- The write of what was decided.
  unfoldable pub commit {ℓ} : {A : Type ℓ} → Disk → Result (A × State) → Engine → Result A × Engine
  commit disk (err x) e = (err x, e)
  commit disk (ok (a, s)) e = let (w, e') = write_engine disk s e in (w >> ok a, e')

  -- A transaction that reads the state, decides on the next one and writes it.
  unfoldable pub update {ℓ} :
      {A : Type ℓ} → Disk → (State → Result (A × State)) → Engine → Result A × Engine
  update disk decide = transaction (λ e. commit disk (read_engine e >>= decide) e)

-- `Dispatcher.guarded`: the Asset store must be durable before the engine is read.
unfoldable pub guard_store : Result Store → Result Store
guard_store (err x) = err x
guard_store (ok store) = if store.uncertain then err uncertain_commit else do
  require_code store.is_version_2 unsupported_schema
  if store.durable then ok store else err uncertain_commit

-- The conditions of `authorize` on the Asset record and the case.
unfoldable pub is_supported : Store → Item → Option Asset → Option Case → Bool → Attachment → Bool
is_supported store item (some a) (some c) operator attachment =
    is_pending item.state
    && is_true a.expected_availability
    && a.revision == item.policy_revision
    && store.store_epoch == item.store_epoch
    && operator
    && is_strong attachment
    && not c.suppressed
    && is_required (item.event).event_kind c.availability_state
    && c.policy_revision == item.policy_revision
is_supported store item _ _ operator attachment = false

abbrev pub optional_timestamp : Option ℕ → Result ℕ
optional_timestamp none = err exception
optional_timestamp (some t) = timestamp t

module _ (digest : Json → ℕ) (oversized : StatusValue → Bool) (process_epoch : ℕ) where
  -- What `authorize` decides on the state that it has read.
  unfoldable pub decide_authorize :
      Store → Bool → (ℕ → Attachment) → ℕ → ℕ → ℕ → State → Result (Grant × State)
  decide_authorize store operator attachment grant_id now event_id s = do
    item ← or_raise (lookup event_id s.outbox)
    timestamp now
    require_code
        (is_supported store item (lookup item.asset store.assets)
          (lookup (key_of digest item.asset) s.cases) operator (attachment item.asset))
        forbidden
    a ← or_raise (lookup item.asset store.assets)
    limit ← add_seconds now 5
    evidence ← optional_timestamp item.evidence_valid_until
    require_code (ltb now (min limit evidence) && s.process_epoch == process_epoch) forbidden
    let g : Grant = record {
      grant_id = grant_id;
      event_id = event_id;
      store_epoch = store.store_epoch;
      asset_revision = a.revision;
      evidence_sha256 = item.evidence_sha256;
      authorized_at = now;
      not_after = min limit evidence;
      process_epoch = process_epoch;
      state = authorized;
      claimed_at = none;
      transport_started_at = none;
      completed_at = none;
      outcome = none;
    }
    ok (
      g,
      record s {
        outbox = insert event_id (record item { grant = some g; state = authorized }) s.outbox;
      },
    )

  unfoldable pub authorize :
      Result Store → Bool → (ℕ → Attachment) → ℕ → ℕ → Disk → ℕ → Engine → Result Grant × Engine
  authorize stored operator attachment grant_id now disk event_id e =
      if e.held then (err (policy forbidden false), e) else elim (guard_store stored) [
        | err x ↦ (err x, e)
        | ok store ↦
            update digest oversized disk
              (decide_authorize store operator attachment grant_id now event_id) e
      ]

  -- What `claim` decides; its clock is read twice.
  unfoldable pub decide_claim : Store → ℕ → ℕ → ℕ → State → Result (Item × State)
  decide_claim store now claimed event_id s = do
    item ← or_raise (lookup event_id s.outbox)
    g ← elim item.grant [ none ↦ err (policy forbidden false) | some g ↦ ok g ]
    require_code
        (is_authorized item.state
          && g.process_epoch == process_epoch
          && process_epoch == s.process_epoch
          && g.store_epoch == store.store_epoch
          && ltb now g.not_after)
        forbidden
    let item' : Item = record item {
      state = in_flight;
      grant = some (record g { state = in_flight; claimed_at = some claimed });
    }
    ok (item', record s { outbox = insert event_id item' s.outbox })

  unfoldable pub claim : Result Store → ℕ → ℕ → Disk → ℕ → Engine → Result Item × Engine
  claim stored now claimed disk event_id e =
      if e.held then (err (policy forbidden false), e) else elim (guard_store stored) [
        | err x ↦ (err x, e)
        | ok store ↦ update digest oversized disk (decide_claim store now claimed event_id) e
      ]

  -- `_outcome`
  unfoldable pub decide_outcome :
      ℕ → OutboxState → ℕ → Outcome → Option ℕ → State → Result (Unit {0} × State)
  decide_outcome event_id state now outcome started s = do
    item ← or_raise (lookup event_id s.outbox)
    require_code (is_in_flight item.state) forbidden
    g ← or_raise item.grant
    require_code (g.process_epoch == process_epoch) forbidden
    ok (
      tt,
      record s {
        outbox =
            insert event_id
              (record item {
                state = state;
                grant = some (record g {
                  state = state;
                  completed_at = some now;
                  outcome = some outcome;
                  transport_started_at = started;
                });
              })
              s.outbox;
      },
    )

  unfoldable pub record_outcome :
      Disk → ℕ → OutboxState → ℕ → Outcome → Option ℕ → Engine → Result (Unit {0}) × Engine
  record_outcome disk event_id state now outcome started =
      update digest oversized disk (decide_outcome event_id state now outcome started)

  -- The attempt is consumed before anything is sent.
  unfoldable pub decide_start : Grant → ℕ → ℕ → State → Result (Unit {0} × State)
  decide_start g now event_id s = do
    item ← or_raise (lookup event_id s.outbox)
    require_code (is_in_flight item.state) forbidden
    actual ← or_raise item.grant
    require_code (actual.grant_id == g.grant_id && is_none actual.transport_started_at) forbidden
    ok (
      tt,
      record s {
        outbox =
            insert event_id
              (record item { grant = some (record actual { transport_started_at = some now }) })
              s.outbox;
      },
    )

-- What a transport promises of itself.
pub record Transport : Type 0 where
  pub deadline_aware : Bool
  pub automatic_retries : Bool
  pub offline_queue : Bool

abbrev is_transport_outcome : OutboxState → Bool
is_transport_outcome transport_accepted = true
is_transport_outcome delivered = true
is_transport_outcome failed_not_submitted = true
is_transport_outcome delivery_unknown = true
is_transport_outcome _ = false

-- What `send_once` came to: an answer outside the closed set, or an exception, is not known.
unfoldable pub sent_outcome : Option OutboxState → OutboxState
sent_outcome none = delivery_unknown
sent_outcome (some s) = if is_transport_outcome s then s else delivery_unknown

-- The clock, the disk and the transport as `submit` meets them, in order.
pub record Surroundings : Type 0 where
  pub first_clock : ℕ
  pub second_clock : ℕ
  pub third_clock : ℕ
  pub start_disk : Disk
  pub outcome_disk : Disk
  pub transport : Transport
  pub answer : Option OutboxState

module _ (digest : Json → ℕ) (oversized : StatusValue → Bool) (process_epoch : ℕ) where
  -- After the attempt was recorded: send once and record how it ended. The list holds the events
  -- that were handed to the transport.
  unfoldable pub deliver : Surroundings → ℕ → Engine → Result OutboxState × Engine × List ℕ
  unfolding sent_outcome
  deliver w event_id e =
      let outcome = sent_outcome w.answer in
      let (r, e') =
        record_outcome digest oversized process_epoch w.outcome_disk event_id outcome w.third_clock
          (sent outcome) (some w.second_clock) e in
      (r >> ok outcome, e', event_id ∷ [])

  unfoldable pub expire_claim : Disk → ℕ → ℕ → Engine → Result OutboxState × Engine × List ℕ
  expire_claim disk now event_id e =
      let (r, e') =
        record_outcome digest oversized process_epoch disk event_id expired now deadline_expired
          none e in
      (r >> ok expired, e', [])

  -- `submit` from the transport boundary on.
  unfoldable pub submit_claim :
      Surroundings → ℕ → Grant → Engine → Result OutboxState × Engine × List ℕ
  submit_claim w event_id g e =
      if leb g.not_after w.second_clock
      then expire_claim w.outcome_disk w.second_clock event_id e
      else (let (r, e') =
            update digest oversized w.start_disk
              (decide_start digest oversized process_epoch g w.second_clock event_id) e in
          elim r [ err x ↦ (err x, e', []) | ok _ ↦ deliver w event_id e' ])

  -- `submit`
  unfoldable pub submit : Surroundings → Item → Engine → Result OutboxState × Engine × List ℕ
  submit w item e =
      if e.held || not (is_in_flight item.state)
      then (err (policy forbidden false), e, [])
      else elim item.grant [
        | none ↦ (err exception, e, [])
        | some g ↦
            if not (g.process_epoch == process_epoch)
            then (err (policy forbidden false), e, [])
            else if leb g.not_after w.first_clock
            then expire_claim w.outcome_disk w.first_clock (item.event).event_id e
            else if not (
                (w.transport).deadline_aware
                && not (w.transport).automatic_retries
                && not (w.transport).offline_queue)
            then (err (policy forbidden false), e, [])
            else submit_claim w (item.event).event_id g e
      ]
