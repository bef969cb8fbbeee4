-- ===== src/Protocol/Gate.antt =====
-- The guarded state of `Protocol` in
-- pi4/lib/hioc/availability_protocol.py: the clock that was seen last, the nonces in use and the
-- attempts of the last minute.
use hioc.Base.{
  ℕ, ◌+◌, ◌-◌, String, Bool, true, false, ◌&&◌, ◌||◌, not, Option, none, some, List, [], ◌∷◌, ◌++◌,
  ltb, leb, ◌==◌, nat_key, text_key, if◌then◌else◌, length, Result, ok, err, Code, policy,
}
use hioc.Contract.{microseconds}

-- `(issuer, request_id)` with the end of its assertion.
pub record Nonce : Type 0 where
  pub issuer : ℕ
  pub request : ℕ
  pub expiry : ℕ

-- `(now, (issuer, actor_id))`
pub record Attempt : Type 0 where
  pub at : ℕ
  pub issuer : ℕ
  pub actor : String

pub record Gate : Type 0 where
  pub last_clock : Option ℕ
  pub nonces : List Nonce
  pub attempts : List Attempt
  pub read_attempts : List Attempt

pub data Operation : Type 0 where
  get create update result availability_status : Operation

-- What a request asserts, once its signature was verified.
pub record Request : Type 0 where
  pub operation : Operation
  pub issuer : ℕ
  pub actor : String
  pub request : ℕ
  pub issued : ℕ
  pub expiry : ℕ

abbrev pub is_status : Operation → Bool
is_status availability_status = true
is_status _ = false

abbrev pub is_mutation : Operation → Bool
is_mutation create = true
is_mutation update = true
is_mutation _ = false

-- `issued <= now < expiry` and a life of at most thirty seconds.
unfoldable pub is_current : Request → ℕ → Bool
is_current r now =
    leb r.issued now
    && ltb now r.expiry
    && ltb r.issued r.expiry
    && leb (r.expiry - r.issued) (microseconds 30)

abbrev pub not_before : Option ℕ → ℕ → Bool
not_before none now = true
not_before (some t) now = leb t now

-- The nonces that have not expired.
unfoldable pub live : ℕ → List Nonce → List Nonce
live now [] = []
live now (n ∷ ns) = let rest = live now ns in if ltb now n.expiry then n ∷ rest else rest

abbrev pub is_nonce : ℕ → ℕ → Nonce → Bool
is_nonce issuer request n = n.issuer == issuer && n.request == request

-- `nonce in self.nonces`
unfoldable pub is_used : ℕ → ℕ → List Nonce → Bool
is_used issuer request [] = false
is_used issuer request (n ∷ ns) = is_nonce issuer request n || is_used issuer request ns

-- The deque loses its first entries while they are a minute old.
unfoldable pub drop_old : ℕ → List Attempt → List Attempt
drop_old now [] = []
drop_old now (a ∷ rows) =
    let rest = drop_old now rows in if leb (a.at + microseconds 60) now then rest else a ∷ rows

-- The attempts of one actor.
unfoldable pub count : ℕ → String → List Attempt → ℕ
count issuer actor [] = 0
count issuer actor (a ∷ rows) =
    let rest = count issuer actor rows in
    if a.issuer == issuer && a.actor == actor then rest + 1 else rest

-- One quota: at most `own` attempts of an actor and `total` of all in a minute. A refused request
-- leaves the deque without its old entries.
unfoldable pub quota : ℕ → ℕ → ℕ → Request → List Attempt → Result (Unit {0}) × List Attempt
quota own total now r rows =
    let kept = drop_old now rows in
    if ltb (count r.issuer r.actor kept) own && ltb (length kept) total
    then (ok tt, kept ++ record { at = now; issuer = r.issuer; actor = r.actor } ∷ [])
    else (err (policy Code.rate_limited false), kept)

-- The quota of the operation.
unfoldable pub meter : ℕ → Request → Gate → Result (Unit {0}) × Gate
meter now r g =
    if is_status r.operation
    then (let (o, kept) = quota 30 300 now r g.read_attempts in
        (o, record g { read_attempts = kept }))
    else if is_mutation r.operation
    then (let (o, kept) = quota 10 100 now r g.attempts in (o, record g { attempts = kept }))
    else (ok tt, g)

-- The body of `with self.lock`: the clock, the nonce and the quota, each of which stays as it was
-- set when a later test fails. The order of the nonces plays no part.
unfoldable pub pass : ℕ → ℕ → Request → Gate → Result (Unit {0}) × Gate
pass capacity now r g =
    let kept = live now g.nonces in
    if not (not_before g.last_clock now)
    then (err (policy Code.assertion_expired false), g)
    else if is_used r.issuer r.request kept
    then (
      err (policy Code.replay_conflict false),
      record g { last_clock = some now; nonces = kept },
    )
    else if leb capacity (length kept)
    then (err (policy Code.busy false), record g { last_clock = some now; nonces = kept })
    else meter now r (record g {
      last_clock = some now;
      nonces = record { issuer = r.issuer; request = r.request; expiry = r.expiry } ∷ kept;
    })

-- The tests of `handle` from the clock to the end of the lock; the trust was verified before, and
-- is looked up once more in between.
unfoldable pub admit : ℕ → ℕ → Result (Unit {0}) → Request → Gate → Result (Unit {0}) × Gate
admit capacity now trusted r g =
    if not (is_current r now)
    then (err (policy Code.assertion_expired false), g)
    else elim trusted [ err e ↦ (err e, g) | ok _ ↦ pass capacity now r g ]
