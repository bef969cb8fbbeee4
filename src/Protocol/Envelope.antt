-- ===== src/Protocol/Envelope.antt =====
-- The signed request of pi4/lib/hioc/availability_protocol.py, and what `Protocol.handle` tests of
-- it before it takes the lock.
use hioc.Base.{
  ℕ, String, Bool, true, false, ◌&&◌, Option, none, some, ltb, leb, ◌==◌, nat_key, text_key,
  is_none, if◌then◌else◌, Result, ok, err, policy, validation_failed, forbidden, trust_invalid,
  ◌>>=◌, ◌>>◌,
}
use hioc.Contract.{
  require, require_code, uuid4, identifier, hex_digest, asset_id, timestamp, text_length,
}
use hioc.Contract.Json.{Json, num, text, object, end, field}
use hioc.Protocol.Gate.{Operation, get, create, update, result, availability_status, Request}
use hioc.Protocol.Trust.{IssuerTrust, Lookup, trust_of}
use hioc.Policy.Types.{World, Files, Payload}
use hioc.Policy.Service.{Surroundings, payload_json}

-- The names of the arguments are those of `handle`; `raw` is the document that it parses to.
pub record Headers : Type 0 where
  pub path : String
  pub method : String
  pub content_type : String
  pub content_encoding : Option String
  pub origin : Option String
  pub peer : ℕ

-- `ASSERTION_KEYS`
pub record Assertion : Type 0 where
  pub issuer : ℕ
  pub audience : String
  pub key_id : String
  pub actor_id : String
  pub context_id : String
  pub request_id : ℕ
  pub issued_at : ℕ
  pub expires_at : ℕ
  pub method : String
  pub path : String
  pub payload_sha256 : ℕ

-- A payload by its keys; one with other keys by its document.
pub data Body : Type 0 where
  of_asset : ℕ → Body
  of_operation : ℕ → ℕ → Body
  of_mutation : Payload → Body
  other : Json → Body

pub record Envelope : Type 0 where
  pub schema_version : String
  pub assertion : Assertion
  pub payload : Body
  pub signature : ℕ

abbrev pub status_route : String
status_route = "/pe7/v1/availability/status"

-- `ROUTES`
unfoldable pub route : String → Option Operation
route path =
    if path == "/pe7/v1/policy/get"
    then some get
    else if path == "/pe7/v1/policy/create"
    then some create
    else if path == "/pe7/v1/policy/update"
    then some update
    else if path == "/pe7/v1/policy/result"
    then some result
    else if path == status_route
    then some availability_status
    else none

unfoldable pub body_json : Body → Json
body_json (of_asset k) = object (field "asset_id" (num k) end)
body_json (of_operation o k) = object (field "operation_id" (num o) (field "asset_id" (num k) end))
body_json (of_mutation p) = payload_json p
body_json (other j) = j

unfoldable pub assertion_json : Assertion → Json
assertion_json a = object (
    field "issuer" (num a.issuer) (
      field "audience" (text a.audience) (
        field "key_id" (text a.key_id) (
          field "actor_id" (text a.actor_id) (
            field "context_id" (text a.context_id) (
              field "request_id" (num a.request_id) (
                field "issued_at" (num a.issued_at) (
                  field "expires_at" (num a.expires_at) (
                    field "method" (text a.method) (
                      field "path" (text a.path)
                        (field "payload_sha256" (num a.payload_sha256) end)))))))))))

-- What is signed: `dict(assertion=assertion, payload=payload)`.
abbrev pub message : Envelope → Json
message e =
    object
      (field "assertion" (assertion_json e.assertion) (field "payload" (body_json e.payload) end))

-- The asset that the payload names, where its keys are those of the operation.
unfoldable pub body_asset : Operation → Body → Result ℕ
body_asset get (of_asset k) = asset_id k >> ok k
body_asset availability_status (of_asset k) = asset_id k >> ok k
body_asset result (of_operation o k) = do uuid4 o; asset_id k; ok k
body_asset create (of_mutation p) = asset_id p.asset >> ok p.asset
body_asset update (of_mutation p) = asset_id p.asset >> ok p.asset
body_asset _ _ = err (policy validation_failed false)

abbrev find_route : Option Operation → Result Operation
find_route none = err (policy validation_failed false)
find_route (some op) = ok op

abbrev audience_of : String → String
audience_of path = if path == status_route then "hioc.pe7.availability.read" else "hioc.pe7.asset"

-- The tests of the headers.
unfoldable pub check_headers : Headers → Result Operation
unfolding route
check_headers h = do
  op ← find_route (route h.path)
  require (
      h.method == "POST"
      && h.content_type == "application/json"
      && is_none h.content_encoding
      && is_none h.origin)
  hex_digest h.peer
  ok op

-- The tests of the assertion and of the signature's form.
unfoldable pub check_assertion : Headers → Envelope → Result (Unit {0})
check_assertion h e = do
  let a = e.assertion
  require (e.schema_version == "1.0")
  require (a.audience == audience_of h.path && a.method == h.method && a.path == h.path)
  uuid4 a.issuer
  uuid4 a.request_id
  identifier a.key_id
  identifier a.actor_id
  identifier a.context_id
  require (leb (text_length a.key_id) 64)
  hex_digest a.payload_sha256
  hex_digest e.signature

-- The tests of the document, up to the asset that it is about.
unfoldable pub check_envelope : World → Headers → Operation → Envelope → Result ℕ
check_envelope w h op e = do
  check_assertion h e
  require ((e.assertion).payload_sha256 == w.digest (body_json e.payload))
  body_asset op e.payload

-- A request whose signature was verified, with the trust that verified it.
pub record Verified : Type 0 where
  pub operation : Operation
  pub asset : ℕ
  pub envelope : Envelope
  pub trust : IssuerTrust

abbrev pub request_of : Verified → Request
request_of v = record {
  operation = v.operation;
  issuer = ((v.envelope).assertion).issuer;
  actor = ((v.envelope).assertion).actor_id;
  request = ((v.envelope).assertion).request_id;
  issued = ((v.envelope).assertion).issued_at;
  expiry = ((v.envelope).assertion).expires_at;
}

module _ (w : World) (env : Surroundings) (hmac : ℕ → Json → ℕ) where
  -- `_trust` for the request.
  abbrev pub trusted :
      Lookup → Headers → Operation → ℕ → Envelope → Bool → Files → Result IssuerTrust
  trusted find h op key e verify s =
      trust_of w env find (e.assertion).issuer (e.assertion).key_id (e.assertion).actor_id h.peer op
        key verify s

  -- The signature, by the trust that is looked up first, and the times.
  unfoldable pub verify : Lookup → Headers → Result Envelope → Files → Result Verified
  verify find h raw s = do
    op ← check_headers h
    e ← raw
    key ← check_envelope w h op e
    t ← trusted find h op key e false s
    require_code (hmac t.key (message e) == e.signature) trust_invalid
    timestamp (e.assertion).issued_at
    timestamp (e.assertion).expires_at
    ok (record { operation = op; asset = key; envelope = e; trust = t })

  -- The second lookup, which verifies the population, finds the same key.
  unfoldable pub trusted_again : Lookup → Headers → Verified → Files → Result (Unit {0})
  trusted_again find h v s = do
    t ← trusted find h v.operation v.asset v.envelope true s
    require_code (t.key == (v.trust).key) forbidden

  -- `reauthorize`, at the time `now` of the request and the later `instant`.
  unfoldable pub reauthorize : Lookup → Headers → Verified → ℕ → ℕ → Files → Result Bool
  reauthorize find h v now instant s = do
    t ← trusted find h v.operation v.asset v.envelope true s
    ok (
        leb now instant
        && ltb instant ((v.envelope).assertion).expires_at
        && t.key == (v.trust).key)
