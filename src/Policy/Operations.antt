-- ===== src/Policy/Operations.antt =====
-- The operations of `PolicyService` (pi4/lib/hioc/asset_policy.py) that the federation protocol
-- reaches. Each runs under the Asset lock; the time, the ends of the writes and the answer of
-- the second authorization are arguments.
use hioc.Base.{
  ℕ, String, Bool, true, false, ◌&&◌, ◌||◌, not, Option, none, some, leb, ltb, ◌==◌, nat_key,
  if◌then◌else◌, is_some, has, policy, Result, ok, err, commit_unknown, forbidden, replay_conflict,
  revision_conflict,
}
use hioc.Contract.{require_code, asset_id, uuid4, timestamp, Receipt, unknown, confirmed}
use hioc.Availability.Types.{is_strong}
use hioc.Protocol.Gate.{Operation, get, create, update, result, availability_status}
use hioc.Policy.Types.{
  World, Files, Store, Versioned, current, StatusWord, online, degraded, Payload,
}
use hioc.Policy.Validate.{validate_status}
use hioc.Policy.Files.{
  M, ◌>>=◌, ◌>>◌, lift, and_then, certain, load_store, durable, require_durable, commit, Writes,
  succeeds,
}
use hioc.Policy.Service.{
  Surroundings, Mutation, Word, read, found, not_found, replayed, created, updated, no_change,
  Reply, second, policy_view, find_receipt, payload_json, check_payload, Change, decide,
  issuer_digest, actor_digest,
}

-- The names of `POPULATION_SCOPES`.
pub data Scope : Type 0 where
  eligible_or_existing eligible_inventory existing_assets : Scope

-- `scope == POPULATION_SCOPES[operation]`
unfoldable pub is_scope_of : Operation → Scope → Bool
is_scope_of get eligible_or_existing = true
is_scope_of create eligible_inventory = true
is_scope_of update existing_assets = true
is_scope_of result existing_assets = true
is_scope_of availability_status existing_assets = true
is_scope_of _ _ = false

-- Whether the population of an operation holds the asset, in a store and with its attachment.
unfoldable pub is_member : Operation → Bool → Bool → Bool
is_member create exists strong = strong
is_member get exists strong = exists || strong
is_member _ exists strong = exists

abbrev and_require : Result Bool → Result (Unit {0})
and_require (err e) = err e
and_require (ok b) = require_code b forbidden

-- `require(reauthorize() is True, 'FORBIDDEN')`, where the call may raise.
abbrev pub authorized : Result Bool → M (Unit {0})
authorized r = lift (and_require r)

abbrev word_of : Mutation → Bool → Word
word_of Mutation.create changed = created
word_of Mutation.update true = updated
word_of Mutation.update false = no_change

abbrev is_working : StatusWord → Bool
is_working online = true
is_working degraded = true
is_working _ = false

module _ (w : World) (env : Surroundings) where
  -- What `authorize_population` finds in the store.
  abbrev population_of : Operation → ℕ → Versioned → M Bool
  population_of op key v s = and_then (lift (second v) s) (λ store t. (
    if durable w v t
        then ok (is_member op (has key store.assets) (is_strong (env.attachment key)))
        else err (policy commit_unknown false),
    t,
  ))

  unfoldable pub authorize_population : Operation → ℕ → Scope → M Bool
  unfolding is_scope_of is_member
  authorize_population op key scope = do
    lift (asset_id key)
    lift (require_code (is_scope_of op scope) forbidden)
    λ s. (require_code (not s.uncertain) commit_unknown, s)
    v ← load_store w
    population_of op key v

  -- `get_policy`; `_policy` refuses a store of another schema.
  unfoldable pub get_policy : ℕ → M Reply
  get_policy key = do
    lift (asset_id key)
    certain
    v ← load_store w
    require_durable w v
    s ← lift (second v)
    lift (
        ok (record {
          operation_id = none;
          result = read;
          commit_state = confirmed;
          policy = policy_view env s key;
          receipt = none;
        }))

  -- Whether the status file bears the commit of the store out.
  unfoldable pub is_reconciled : Store → Files → Bool
  is_reconciled store s = elim s.status as (λ _. Bool) [
    | none ↦ false
    | some st ↦
        succeeds (validate_status st)
        && durable w (current store) s
        && st.second
        && st.asset_count == store.asset_count
        && leb store.updated_at st.updated
        && is_working st.status
  ]

  -- A confirmed pair ends the uncertainty, with no repair of a file.
  unfoldable pub reconcile : Store → M Bool
  unfolding is_reconciled
  reconcile store s =
      if is_reconciled store s then (ok true, record s { uncertain = false }) else (ok false, s)

  abbrev is_of : ℕ → Option Receipt → Bool
  is_of key none = true
  is_of key (some r) = r.asset == key

  -- `operation_result`
  unfoldable pub operation_result : ℕ → ℕ → ℕ → String → M Reply
  operation_result key operation issuer actor = do
    lift (asset_id key)
    lift (uuid4 operation)
    v ← load_store w
    s ← lift (second v)
    r ← lift (
        find_receipt (issuer_digest w env issuer actor) (actor_digest w env issuer actor) operation
          s.policy_requests)
    lift (require_code (is_of key r) forbidden)
    done ← reconcile s
    lift (
        ok (record {
          operation_id = some operation;
          result = if is_some r then found else not_found;
          commit_state = if done then confirmed else unknown;
          policy = policy_view env s key;
          receipt = r;
        }))

  -- The answer to a request whose receipt is there.
  unfoldable pub replay : Payload → ℕ → Store → Receipt → M Reply
  replay p now s r = do
    lift (require_code (r.request_sha256 == w.digest (payload_json p)) replay_conflict)
    lift (require_code (ltb now r.expires_at) revision_conflict)
    require_durable w (current s)
    lift (
        ok (record {
          operation_id = some p.operation_id;
          result = replayed;
          commit_state = confirmed;
          policy = policy_view env s p.asset;
          receipt = some r;
        }))

  -- The commit of a decided change.
  unfoldable pub apply_change : Writes → Mutation → Payload → Store → Change → M Reply
  apply_change d op p s c = do
    commit w d (current s) (current c.store)
    lift (
        ok (record {
          operation_id = some p.operation_id;
          result = word_of op c.changed;
          commit_state = confirmed;
          policy = policy_view env c.store p.asset;
          receipt = some c.receipt;
        }))

  unfoldable pub answer :
      Writes → Mutation → Payload → ℕ → String → ℕ → Store → Option Receipt → M Reply
  answer d op p issuer actor now s (some r) = replay p now s r
  answer d op p issuer actor now s none =
      lift (decide w env issuer actor op p now s) >>= apply_change d op p s

  -- `mutate_policy`
  unfoldable pub mutate_policy :
      Writes → Mutation → Payload → ℕ → String → Result Bool → ℕ → M Reply
  mutate_policy d op p issuer actor reauthorized now = do
    lift (check_payload op p)
    certain
    authorized reauthorized
    v ← load_store w
    s ← lift (second v)
    lift (timestamp now)
    r ← lift (
        find_receipt (issuer_digest w env issuer actor) (actor_digest w env issuer actor)
          p.operation_id s.policy_requests)
    answer d op p issuer actor now s r
