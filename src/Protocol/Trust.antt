-- ===== src/Protocol/Trust.antt =====
-- `IssuerTrust` and `Protocol._trust` of pi4/lib/hioc/availability_protocol.py. A set of asset ids
-- is a list, and a key is the number of its 32 bytes, any other being a larger number.
use hioc.Base.{
  ℕ, ◌^◌, String, Bool, true, false, ◌&&◌, Option, none, some, List, [], ◌∷◌, ltb, leb, ◌==◌,
  nat_key, text_key, if◌then◌else◌, Dict, lookup, length, contains, Result, ok, err, policy,
  forbidden, trust_invalid, ◌>>=◌, ◌>>◌,
}
use hioc.Contract.{
  require_code, uuid4, identifier, hex_digest, asset_id, text_length, is_hex_digest, is_uuid4,
  is_asset_id,
}
use hioc.Protocol.Gate.{Operation, get, create, update, result, availability_status}
use hioc.Policy.Types.{World, Files}
use hioc.Policy.Service.{Surroundings}
use hioc.Policy.Operations.{Scope, is_scope_of, authorize_population}

-- What an actor may do an operation on: named assets, or a population.
pub data Grant : Type 0 where
  exact : List ℕ → Grant
  population : Scope → String → Option String → Grant

pub record IssuerTrust : Type 0 where
  pub issuer : ℕ
  pub key_id : String
  pub key : ℕ
  pub client_spki_sha256 : ℕ
  pub actors : Dict String (List (Operation × Grant))
  pub enabled : Bool

abbrev is_key : ℕ → Bool
is_key k = ltb k (2 ^ 256)

abbrev check_reference : Bool → Option String → Result (Unit {0})
check_reference enabled (some reference) = do
  require_code (leb 1 (text_length reference) && leb (text_length reference) 128) trust_invalid
  identifier reference
check_reference true none = err (policy forbidden false)
check_reference false none = ok tt

abbrev check_ids : List ℕ → Result (Unit {0})
check_ids [] = ok tt
check_ids (k ∷ ks) = asset_id k >> check_ids ks

unfoldable pub validate_grant : Bool → Operation → Grant → Result (Unit {0})
unfolding is_scope_of
validate_grant enabled op (population scope amendment reference) = do
  require_code (is_scope_of op scope && amendment == "PE73_FULL_INVENTORY_ASSET_AUTHORIZATION_V1")
      trust_invalid
  check_reference enabled reference
validate_grant enabled op (exact ids) = do
  require_code (leb 1 (length ids) && leb (length ids) 4096) trust_invalid
  check_ids ids

unfoldable pub validate_grants : Bool → List (Operation × Grant) → Result (Unit {0})
unfolding validate_grant
validate_grants enabled [] = ok tt
validate_grants enabled ((op, grant) ∷ rest) =
    validate_grant enabled op grant >> validate_grants enabled rest

unfoldable pub validate_actors : Bool → Dict String (List (Operation × Grant)) → Result (Unit {0})
unfolding validate_grants
validate_actors enabled [] = ok tt
validate_actors enabled ((actor, grants) ∷ rest) = do
  identifier actor
  validate_grants enabled grants
  validate_actors enabled rest

-- `IssuerTrust.validate`
unfoldable pub validate_trust : IssuerTrust → Result (Unit {0})
unfolding validate_actors is_hex_digest is_uuid4 is_asset_id
validate_trust t = do
  uuid4 t.issuer
  identifier t.key_id
  require_code (leb (text_length t.key_id) 64 && is_key t.key) trust_invalid
  hex_digest t.client_spki_sha256
  require_code (leb (length t.actors) 1024) trust_invalid
  validate_actors t.enabled t.actors

abbrev pub same_operation : Operation → Operation → Bool
same_operation get get = true
same_operation create create = true
same_operation update update = true
same_operation result result = true
same_operation availability_status availability_status = true
same_operation _ _ = false

-- `.get(operation, ())`
unfoldable pub grant_of : Operation → List (Operation × Grant) → Grant
grant_of op [] = exact []
grant_of op ((other, grant) ∷ rest) = if same_operation op other then grant else grant_of op rest

abbrev grants_of : Option (List (Operation × Grant)) → List (Operation × Grant)
grants_of none = []
grants_of (some grants) = grants

-- `trust.actors.get(actor, {}).get(operation, ())`
unfoldable pub allowed : IssuerTrust → String → Operation → Grant
unfolding grant_of
allowed t actor op = grant_of op (grants_of (lookup actor t.actors))

-- The lookup of the trust by issuer and key: it may raise, or find no `IssuerTrust`.
abbrev pub Lookup : Type 0
Lookup = ℕ → String → Result (Option IssuerTrust)

abbrev must_be : Option IssuerTrust → Result IssuerTrust
must_be none = err (policy trust_invalid false)
must_be (some t) = ok t

module _ (w : World) (env : Surroundings) where
  -- Whether the grant holds the asset; a population is looked up in the files if it is to be.
  unfoldable pub check_grant : Bool → Operation → ℕ → Files → Grant → Result (Unit {0})
  check_grant verify op key s (exact ids) = require_code (contains key ids) forbidden
  check_grant false op key s (population scope amendment reference) = ok tt
  check_grant true op key s (population scope amendment reference) =
      (authorize_population w env op key scope s).0 >>= λ b. require_code b forbidden

  -- `_trust`
  unfoldable pub trust_of :
      Lookup → ℕ → String → String → ℕ → Operation → ℕ → Bool → Files → Result IssuerTrust
  trust_of find issuer key_id actor peer op key verify s = do
    o ← find issuer key_id
    t ← must_be o
    validate_trust t
    require_code (t.enabled && t.client_spki_sha256 == peer) trust_invalid
    require_code (t.issuer == issuer && t.key_id == key_id) trust_invalid
    check_grant verify op key s (allowed t actor op)
    ok t
