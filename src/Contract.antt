-- ===== src/Contract.antt =====
-- The closed primitives of the availability contract: pi4/lib/hioc/availability_contract.py.
--
-- A text of fixed form is the number that it denotes, and every number outside the form's range
-- stands for a malformed text: a time stamp is its microseconds since year 1, a digest, an
-- asset id and a UUID are their hexadecimal digits. On these forms the order and the equality of
-- the texts, which the source compares, are those of the numbers.
pub mod Json
pub mod Depth
pub mod Disk
use Prim.Native.Char.{code}
use hioc.Base.{
  ℕ, suc, ◌+◌, ◌*◌, ◌/◌, ◌%◌, ◌^◌, String, Bool, true, false, ◌&&◌, ◌||◌, not, Option, none, some,
  ltb, leb, ◌==◌, nat_key, if◌then◌else◌, Code, Error, policy, exception, Result, ok, err, ◌>>=◌,
  ◌>>◌, validation_failed,
}

-- `require(ok, code)`, and with the default code.
abbrev pub require_code : Bool → Code → Result (Unit {0})
require_code true c = ok tt
require_code false c = err (policy c false)

abbrev pub require : Bool → Result (Unit {0})
require b = require_code b validation_failed

abbrev pub max_integer : ℕ
max_integer = 9007199254740991

-- `integer(value, minimum)`; the type admits no other value than an `int`, and a negative one is
-- below every minimum that is asked for.
abbrev pub is_integer : ℕ → ℕ → Bool
is_integer value minimum = leb minimum value && leb value max_integer

abbrev pub integer : ℕ → ℕ → Result (Unit {0})
integer value minimum = require (is_integer value minimum)

is_word : ℕ → Bool
is_word c =
    leb b'a' c && leb c b'z'
    || leb b'A' c && leb c b'Z'
    || leb b'0' c && leb c b'9'
    || c == b'_'
    || c == b'-'

abbrev all_codes : (ℕ → Bool) → String → Bool
all_codes p String.[] = true
all_codes p (String.◌∷◌ c s) = p (code c) && all_codes p s

abbrev pub text_length : String → ℕ
text_length String.[] = 0
text_length (String.◌∷◌ c s) = suc (text_length s)

-- `[A-Za-z0-9_-]{1,128}`
unfoldable pub is_identifier : String → Bool
unfolding is_word
is_identifier s = leb 1 (text_length s) && leb (text_length s) 128 && all_codes is_word s

abbrev pub identifier : String → Result (Unit {0})
identifier s = require (is_identifier s)

-- A printable text of at most 128 characters.
unfoldable pub is_meaning : String → Bool
is_meaning s =
    leb 1 (text_length s)
    && leb (text_length s) 128
    && all_codes (λ c. leb 32 c && not (c == 127)) s

-- `dev_` and sixteen hexadecimal digits.
unfoldable pub is_asset_id : ℕ → Bool
is_asset_id n = ltb n (2 ^ 64)

abbrev pub asset_id : ℕ → Result (Unit {0})
asset_id n = require (is_asset_id n)

-- Sixty-four hexadecimal digits.
unfoldable pub is_hex_digest : ℕ → Bool
is_hex_digest n = ltb n (2 ^ 256)

abbrev pub hex_digest : ℕ → Result (Unit {0})
hex_digest n = require (is_hex_digest n)

-- Thirty-two hexadecimal digits with the version and the variant of a random UUID.
unfoldable pub is_uuid4 : ℕ → Bool
is_uuid4 n = ltb n (2 ^ 128) && n / 2 ^ 76 % 16 == 4 && n / 2 ^ 62 % 4 == 2

abbrev pub uuid4 : ℕ → Result (Unit {0})
uuid4 n = require (is_uuid4 n)

-- The first microsecond after year 9999.
abbrev pub end_of_time : ℕ
end_of_time = 315537897600000000

abbrev pub is_timestamp : ℕ → Bool
is_timestamp n = ltb n end_of_time

-- `timestamp(value)`; `time_text` is its inverse, and the identity here.
abbrev pub timestamp : ℕ → Result ℕ
timestamp n = if is_timestamp n then ok n else err (policy validation_failed false)

abbrev pub microseconds : ℕ → ℕ
microseconds s = s * 1000000

-- `instant + timedelta(seconds=s)`: past year 9999 the addition raises `OverflowError`.
abbrev pub add_seconds : ℕ → ℕ → Result ℕ
add_seconds t s =
    if is_timestamp (t + microseconds s) then ok (t + microseconds s) else err exception

-- The state of a policy field, which may be unset.
pub data InfrastructureType : Type 0 where
  router_gateway raspberry_pi_server network_switch wireless_access_point : InfrastructureType
  smart_home_hub other_infrastructure : InfrastructureType

pub data CommitState : Type 0 where
  unknown not_applied confirmed : CommitState

pub record ErrorResponse : Type 0 where
  pub error_code : Code
  pub commit_state : CommitState
  pub retryable : Bool

-- What crosses the boundary is the code and whether the change may have been applied.
unfoldable pub error_response : Code → Bool → ErrorResponse
error_response c uncertain = record {
  error_code = c;
  commit_state = if uncertain then unknown else not_applied;
  retryable = false;
}

pub data Outcome : Type 0 where
  changed no_change : Outcome
  other_outcome : Outcome

abbrev is_outcome : Outcome → Bool
is_outcome other_outcome = false
is_outcome _ = true

pub record Receipt : Type 0 where
  pub issuer_digest : ℕ
  pub actor_digest : ℕ
  pub operation_id : ℕ
  pub request_sha256 : ℕ
  pub expires_at : ℕ
  pub asset : ℕ
  pub committed_revision : ℕ
  pub committed_store_revision : ℕ
  pub outcome : Outcome

unfoldable pub validate_receipt : Receipt → Result (Unit {0})
unfolding is_hex_digest is_uuid4 is_asset_id
validate_receipt r = do
  hex_digest r.issuer_digest
  hex_digest r.actor_digest
  hex_digest r.request_sha256
  uuid4 r.operation_id
  timestamp r.expires_at
  asset_id r.asset
  integer r.committed_revision 1
  integer r.committed_store_revision 1
  require (is_outcome r.outcome)
