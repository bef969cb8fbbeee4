-- ===== src/Observation/Receive.antt =====
-- `ObservationProtocol` of pi4/lib/hioc/availability_protocol.py: a source's service hands in
-- observations. The times, the lookups and the end of the write are arguments.
use hioc.Base.{
  ℕ, ◌-◌, ◌^◌, String, Bool, false, ◌&&◌, ◌||◌, not, Option, none, some, List, [], ◌∷◌, leb, ltb,
  ◌==◌, nat_key, text_key, if◌then◌else◌, is_none, Dict, lookup, contains, length, Result, ok, err,
  policy, busy, forbidden, trust_invalid, identity_unsafe, assertion_expired, replay_conflict,
  ◌>>=◌, ◌>>◌, or_raise,
}
use hioc.Contract.{
  require, require_code, uuid4, identifier, hex_digest, timestamp, microseconds, ErrorResponse,
  error_response,
}
use hioc.Contract.Disk.{Disk}
use hioc.Contract.Json.{Json, num, text, array, object, field, end, items}
use hioc.Protocol.Gate.{Nonce, not_before, live, is_used}
use hioc.Protocol.Envelope.{Headers}
use hioc.Protocol.Handle.{error_code, may_be_applied}
use hioc.Availability.Types.{
  Profile, Definition, Observation, Attachment, is_strong, is_negative, is_device, same_kind,
  refers_to,
}
use hioc.Availability.Digests.{observation_json, authority_json}
use hioc.Availability.Validate.{validate_profile, validate_observation}
use hioc.Observation.Store.{Stored, commit}

pub record ObservationTrust : Type 0 where
  pub issuer : ℕ
  pub key_id : String
  pub key : ℕ
  pub client_spki_sha256 : ℕ
  pub sources : Dict ℕ (List String)
  pub enabled : Bool

-- `ASSERTION_KEYS` but the actor and the context.
pub record Assertion : Type 0 where
  pub issuer : ℕ
  pub audience : String
  pub key_id : String
  pub request_id : ℕ
  pub issued_at : ℕ
  pub expires_at : ℕ
  pub method : String
  pub path : String
  pub payload_sha256 : ℕ

pub record Report : Type 0 where
  pub schema_version : String
  pub assertion : Assertion
  pub observations : List Observation
  pub signature : ℕ

-- `last_clock` and `nonces`.
pub record Entry : Type 0 where
  pub last_clock : Option ℕ
  pub nonces : List Nonce

abbrev pub observations_route : String
observations_route = "/pe7/v1/observations"

unfoldable pub payload_json : List Observation → Json
payload_json rows = object (field "observations" (array (items observation_json rows)) end)

unfoldable pub assertion_json : Assertion → Json
assertion_json a = object (
    field "issuer" (num a.issuer) (
      field "audience" (text a.audience) (
        field "key_id" (text a.key_id) (
          field "request_id" (num a.request_id) (
            field "issued_at" (num a.issued_at) (
              field "expires_at" (num a.expires_at) (
                field "method" (text a.method) (
                  field "path" (text a.path)
                    (field "payload_sha256" (num a.payload_sha256) end)))))))))

abbrev pub signed_part : Report → Json
signed_part e = object (
    field "assertion" (assertion_json e.assertion)
      (field "payload" (payload_json e.observations) end))

abbrev is_key : ℕ → Bool
is_key k = ltb k (2 ^ 256)

abbrev must_be : Option ObservationTrust → Result ObservationTrust
must_be none = err (policy trust_invalid false)
must_be (some t) = ok t

unfoldable pub check_report : Headers → Report → Result (Unit {0})
check_report h e = do
  let a = e.assertion
  require (e.schema_version == "1.0")
  require (a.audience == "hioc.pe7.observation" && a.method == h.method && a.path == h.path)
  uuid4 a.issuer
  uuid4 a.request_id
  identifier a.key_id

unfoldable pub check_trust : Headers → Report → ObservationTrust → Result (Unit {0})
check_trust h e t = do
  require_code
      (t.enabled
        && t.issuer == (e.assertion).issuer
        && t.key_id == (e.assertion).key_id
        && is_key t.key)
      trust_invalid
  hex_digest h.peer
  require_code (t.client_spki_sha256 == h.peer) trust_invalid

-- `issued <= now < expiry`, and a life of at most thirty seconds.
unfoldable pub is_current : ℕ → Assertion → Bool
is_current now a =
    leb a.issued_at now
    && ltb now a.expires_at
    && ltb a.issued_at a.expires_at
    && leb (a.expires_at - a.issued_at) (microseconds 30)

abbrev pub sources_of : Option (List String) → List String
sources_of none = []
sources_of (some sources) = sources

module _ (digest : Json → ℕ) (profiles : ℕ → Result Profile) (attachment : ℕ → Attachment) where
  -- What a definition asks of a row.
  unfoldable pub fits : ℕ → Definition → Observation → Result (Unit {0})
  fits now d row = do
    require (
        row.device == row.asset
        && same_kind row.source_kind d.kind
        && refers_to row.authority_ref (digest (authority_json row.source_id d)))
    require (leb row.observed_at row.collected_at && leb row.collected_at now)
    require
        (not (is_negative row.evidence_kind) || d.physical_device_authority && is_device row.scope)

  -- One round of the loop, after the test for repetition.
  unfoldable pub accept : ObservationTrust → ℕ → Observation → Result (Unit {0})
  accept t now row = do
    require_code (contains row.source_id (sources_of (lookup row.asset t.sources))) forbidden
    p ← profiles row.asset
    validate_profile p
    require_code (contains row.source_id p.enabled_sources && is_strong (attachment row.asset))
        identity_unsafe
    d ← or_raise (lookup row.source_id p.source_definitions)
    fits now d row

  abbrev is_seen : Observation → List Observation → Bool
  is_seen row [] = false
  is_seen row (other ∷ seen) =
      row.asset == other.asset && row.source_id == other.source_id || is_seen row seen

  unfoldable pub accept_all :
      ObservationTrust → ℕ → List Observation → List Observation → Result (Unit {0})
  accept_all t now seen [] = ok tt
  accept_all t now seen (row ∷ rest) = do
    validate_observation row
    require (not (is_seen row seen))
    accept t now row
    accept_all t now (row ∷ seen) rest

module _ (digest : Json → ℕ) (profiles : ℕ → Result Profile) (attachment : ℕ → Attachment)
    (hmac : ℕ → Json → ℕ) (find : ℕ → String → Result (Option ObservationTrust)) (now : ℕ) where
  -- The request up to the lock: the report that it carries.
  unfoldable pub receive : Headers → Result Report → Result Report
  receive h raw = do
    require (
        h.path == observations_route
        && h.method == "POST"
        && h.content_type == "application/json"
        && is_none h.content_encoding
        && is_none h.origin)
    e ← raw
    check_report h e
    o ← find (e.assertion).issuer (e.assertion).key_id
    t ← must_be o
    check_trust h e t
    hex_digest e.signature
    hex_digest (e.assertion).payload_sha256
    require ((e.assertion).payload_sha256 == digest (payload_json e.observations))
    require_code (hmac t.key (signed_part e) == e.signature) trust_invalid
    timestamp (e.assertion).issued_at
    timestamp (e.assertion).expires_at
    require_code (is_current now e.assertion) assertion_expired
    require (leb (length e.observations) 256)
    accept_all digest profiles attachment t now [] e.observations
    ok e

-- The body of `with self.lock`.
unfoldable pub enter : ℕ → Assertion → Entry → Result (Unit {0}) × Entry
enter now a g =
    let kept = live now g.nonces in
    if not (not_before g.last_clock now)
    then (err (policy assertion_expired false), g)
    else if is_used a.issuer a.request_id kept
    then (err (policy replay_conflict false), record { last_clock = some now; nonces = kept })
    else if leb 4096 (length kept)
    then (err (policy busy false), record { last_clock = some now; nonces = kept })
    else (
      ok tt,
      record {
        last_clock = some now;
        nonces = record { issuer = a.issuer; request = a.request_id; expiry = a.expires_at } ∷ kept;
      },
    )

pub data Response : Type 0 where
  observations_received : ℕ → Response
  failed : ErrorResponse → Response

abbrev pub end_of : Report → Entry → Result (Unit {0}) × Stored → Response × Entry × Stored
end_of e g (err x, f) = (failed (error_response (error_code x) (may_be_applied x)), g, f)
end_of e g (ok u, f) = (observations_received (length e.observations), g, f)

module _ (oversized : List Observation → Bool) (disk : Disk) where
  abbrev pub after_lock : Report → Result (Unit {0}) × Entry → Stored → Response × Entry × Stored
  after_lock e (err x, g) f = (failed (error_response (error_code x) (may_be_applied x)), g, f)
  after_lock e (ok u, g) f = end_of e g (commit oversized disk e.observations f)

  -- What follows the tests of the request.
  abbrev pub after_tests : ℕ → Result Report → Entry → Stored → Response × Entry × Stored
  after_tests now (err x) g f = (failed (error_response (error_code x) (may_be_applied x)), g, f)
  after_tests now (ok e) g f = after_lock e (enter now e.assertion g) f

  -- `ObservationProtocol.handle`
  unfoldable pub handle :
      (Json → ℕ)
      → (ℕ → Result Profile)
      → (ℕ → Attachment)
      → (ℕ → Json → ℕ)
      → (ℕ → String → Result (Option ObservationTrust))
      → ℕ
      → Headers
      → Result Report
      → Entry
      → Stored
      → Response × Entry × Stored
  handle digest profiles attachment hmac find now h raw g f =
      after_tests now (receive digest profiles attachment hmac find now h raw) g f
