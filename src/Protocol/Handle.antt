-- ===== src/Protocol/Handle.antt =====
-- `Protocol.handle` of pi4/lib/hioc/availability_protocol.py: the request is verified, passes the
-- gate once, is authorized again and is served. The readings of the clock and of the trust are
-- arguments, in their order, and so are the files as other processes had left them when the trust
-- was read before the service was called. A mutation is authorized again under the lock of the
-- service, on the files that it works on; a read is so under a lock of its own, before the service
-- takes another, so that other processes may replace the files in between.
use hioc.Base.{
  ℕ, Bool, false, Option, none, some, Result, ok, err, Code, Error, policy, exception,
  store_unavailable, ◌==◌, text_key, if◌then◌else◌,
}
use hioc.Contract.{ErrorResponse, error_response}
use hioc.Contract.Json.{Json}
use hioc.Protocol.Gate.{Operation, get, create, update, result, availability_status, Gate, admit}
use hioc.Protocol.Trust.{Lookup}
use hioc.Protocol.Envelope.{
  Headers, Envelope, Body, of_operation, of_mutation, Verified, request_of, status_route, verify,
  trusted_again, reauthorize,
}
use hioc.Policy.Types.{World, Files}
use hioc.Policy.Files.{M, ◌>>=◌, ◌>>◌, lift, Writes}
use hioc.Policy.Service.{Surroundings, Reply, Mutation}
use hioc.Policy.Operations.{authorized, get_policy, operation_result, mutate_policy}
use hioc.Availability.StatusRead.{StatusValue, validate_status}

pub data Answer : Type 0 where
  status : StatusValue → Answer
  reply : Reply → Answer

-- `error_code` is all that the status route says of an error.
pub data Response : Type 0 where
  answered : Answer → Response
  failed : ErrorResponse → Response
  status_failed : Code → Response

-- What one request meets, in the order of the calls.
pub record Moment : Type 0 where
  pub first_lookup : Lookup
  pub now : ℕ
  pub early : Files
  pub second_lookup : Lookup
  pub last_lookup : Lookup
  pub between : Files
  pub instant : ℕ
  pub store_now : ℕ
  pub status_reader : Option (ℕ → Result StatusValue)
  pub oversized : StatusValue → Bool

abbrev read_with : Option (ℕ → Result StatusValue) → ℕ → M StatusValue
read_with none key = lift (err (policy store_unavailable false))
read_with (some read) key = lift (read key)

abbrev has_reader : Option (ℕ → Result StatusValue) → Result (Unit {0})
has_reader none = err (policy store_unavailable false)
has_reader (some read) = ok tt

abbrev pub error_code : Error → Code
error_code (policy c uncertain) = c
error_code exception = store_unavailable

abbrev pub may_be_applied : Error → Bool
may_be_applied (policy c uncertain) = uncertain
may_be_applied exception = false

-- The handlers of `handle`.
unfoldable pub respond : Headers → Result Answer → Response
respond h (ok r) = answered r
respond h (err e) =
    if h.path == status_route
    then status_failed (error_code e)
    else failed (error_response (error_code e) (may_be_applied e))

module _ (w : World) (env : Surroundings) (hmac : ℕ → Json → ℕ) (d : Writes) where
  abbrev pub serve_reply : M Reply → M Answer
  serve_reply m = do r ← m; lift (ok (reply r))

  -- `require(reauthorize(), 'FORBIDDEN')`
  abbrev pub reauthorized : Moment → Headers → Verified → Files → Result Bool
  reauthorized m h v s = reauthorize w env hmac m.last_lookup h v m.now m.instant s

  abbrev pub require_again : Moment → Headers → Verified → M (Unit {0})
  require_again m h v = authorized (reauthorized m h v m.between)

  abbrev pub mutate : Mutation → Moment → Headers → Verified → Body → M Answer
  mutate op m h v (of_mutation p) s =
      serve_reply
        (mutate_policy w env d op p ((v.envelope).assertion).issuer
          ((v.envelope).assertion).actor_id (reauthorized m h v s) m.store_now)
        s
  mutate op m h v _ s = (err exception, s)

  abbrev pub look_up : Moment → Headers → Verified → Body → M Answer
  look_up m h v (of_operation o k) = do
    require_again m h v
    serve_reply (
        operation_result w env v.asset o ((v.envelope).assertion).issuer
          ((v.envelope).assertion).actor_id)
  look_up m h v _ = lift (err exception)

  -- The end of `handle`.
  unfoldable pub serve : Moment → Headers → Operation → Verified → M Answer
  serve m h availability_status v = do
    lift (has_reader m.status_reader)
    require_again m h v
    value ← read_with m.status_reader v.asset
    lift (validate_status m.oversized value)
    lift (ok (status value))
  serve m h get v = do require_again m h v; serve_reply (get_policy w env v.asset)
  serve m h result v = look_up m h v (v.envelope).payload
  serve m h create v = mutate Mutation.create m h v (v.envelope).payload
  serve m h update v = mutate Mutation.update m h v (v.envelope).payload

  abbrev pub after_gate :
      Moment → Headers → Verified → Result (Unit {0}) × Gate → Files → Result Answer × Gate × Files
  after_gate m h v (err e, g) s = (err e, g, s)
  after_gate m h v (ok u, g) s = let (o, s') = serve m h v.operation v s in (o, g, s')

  abbrev pub after_verify :
      ℕ → Moment → Headers → Result Verified → Gate → Files → Result Answer × Gate × Files
  after_verify capacity m h (err e) g s = (err e, g, s)
  after_verify capacity m h (ok v) g s =
      after_gate m h v
        (admit capacity m.now (trusted_again w env hmac m.second_lookup h v m.early) (request_of v)
          g)
        s

  -- The body of the `try`.
  unfoldable pub run :
      ℕ → Moment → Headers → Result Envelope → Gate → Files → Result Answer × Gate × Files
  run capacity m h raw g s =
      after_verify capacity m h (verify w env hmac m.first_lookup h raw m.early) g s

  unfoldable pub handle :
      ℕ → Moment → Headers → Result Envelope → Gate → Files → Response × Gate × Files
  handle capacity m h raw g s = let (o, g', s') = run capacity m h raw g s in (respond h o, g', s')
