-- ===== src/Protocol/Replay.antt =====
-- The assertions that were served, over a history of requests:
-- pi4/lib/hioc/availability_protocol.py.
use hioc.Base.{
  ℕ, ◌≡◌, ◌≢◌, Bool, true, false, ◌&&◌, ◌||◌, Option, none, some, List, [], ◌∷◌, arith, ltb, leb,
  ◌==◌, nat_key, Result, ok,
}
use hioc.Protocol.Gate.{
  Nonce, Gate, Request, is_nonce, is_current, not_before, live, is_used, meter, pass, admit,
}

-- The nonce of an assertion is in use.
has_nonce : ℕ → ℕ → ℕ → List Nonce → Bool
has_nonce issuer request expiry [] = false
has_nonce issuer request expiry (n ∷ ns) =
    is_nonce issuer request n && n.expiry == expiry || has_nonce issuer request expiry ns

reached : ℕ → Option ℕ → Bool
reached expiry none = false
reached expiry (some t) = leb expiry t

-- The assertion is over: its nonce is in use, or the clock has reached its end.
unfoldable is_spent : Request → Gate → Bool
unfolding has_nonce reached
is_spent r g = has_nonce r.issuer r.request r.expiry g.nonces || reached r.expiry g.last_clock

has_nonce-live :
    (i q e now : ℕ) (ns : List Nonce)
    → has_nonce i q e ns ≡ true
    → ltb now e ≡ true
    → has_nonce i q e (live now ns) ≡ true
unfolding has_nonce live
has_nonce-live i q e now [] h l = cc
has_nonce-live i q e now (n ∷ ns) h l = ground (arith, has_nonce-live i q e now ns)

has_nonce-is_used :
    (i q e : ℕ) (ns : List Nonce) → has_nonce i q e ns ≡ true → is_used i q ns ≡ true
unfolding has_nonce is_used
has_nonce-is_used i q e [] h = cc
has_nonce-is_used i q e (n ∷ ns) h = ground (arith, has_nonce-is_used i q e ns)

meter-nonces :
    (now : ℕ) (r : Request) (g : Gate)
    → ((meter now r g).1.nonces ≡ g.nonces) × ((meter now r g).1.last_clock ≡ g.last_clock)
unfolding meter
meter-nonces now r g = ground arith

reached-later :
    (e now : ℕ) (c : Option ℕ) → not_before c now ≡ true → reached e c ≡ true → leb e now ≡ true
unfolding reached
reached-later e now none h k = cc
reached-later e now (some t) h k = ground arith

-- What is spent is spent after the clock moved on and the expired nonces were dropped.
kept-is_spent :
    (now : ℕ) (r : Request) (g : Gate)
    → not_before g.last_clock now ≡ true
    → is_spent r g ≡ true
    → (has_nonce r.issuer r.request r.expiry (live now g.nonces) || leb r.expiry now) ≡ true
unfolding is_spent
kept-is_spent now r g h k = ground (
  arith,
  has_nonce-live r.issuer r.request r.expiry now g.nonces,
  reached-later r.expiry now g.last_clock h,
)

-- A table that holds the live nonces, at the new clock.
pass-is_spent :
    (capacity now : ℕ) (r r' : Request) (g : Gate)
    → is_spent r g ≡ true
    → is_spent r (pass capacity now r' g).1 ≡ true
unfolding pass is_spent has_nonce reached
pass-is_spent capacity now r r' g h = ground (
  arith,
  kept-is_spent now r g,
  meter-nonces now r' (record g {
    last_clock = some now;
    nonces =
        record { issuer = r'.issuer; request = r'.request; expiry = r'.expiry } ∷ live now g.nonces;
  }),
)

pass-refused :
    (capacity now : ℕ) (r : Request) (g : Gate)
    → is_spent r g ≡ true
    → ltb now r.expiry ≡ true
    → (pass capacity now r g).0 ≢ ok tt
unfolding pass
pass-refused capacity now r g h l = ground (
  arith,
  kept-is_spent now r g,
  has_nonce-is_used r.issuer r.request r.expiry (live now g.nonces),
)

pass-spends :
    (capacity now : ℕ) (r : Request) (g : Gate)
    → (pass capacity now r g).0 ≡ ok tt
    → is_spent r (pass capacity now r g).1 ≡ true
unfolding pass is_spent has_nonce
pass-spends capacity now r g h = ground (
  arith,
  meter-nonces now r (record g {
    last_clock = some now;
    nonces =
        record { issuer = r.issuer; request = r.request; expiry = r.expiry } ∷ live now g.nonces;
  }),
)

-- The requests of a time, each with the reading of the clock and the second lookup of the trust:
-- from the table before them to the one after.
pub data Served (capacity : ℕ) : Gate → Gate → Type 0 where
  done : {g : Gate} → Served capacity g g
  request :
      {g g' : Gate} (now : ℕ) (trusted : Result (Unit {0})) (r : Request)
      → Served capacity (admit capacity now trusted r g).1 g'
      → Served capacity g g'

admit-is_spent :
    (capacity now : ℕ) (trusted : Result (Unit {0})) (r r' : Request) (g : Gate)
    → is_spent r g ≡ true
    → is_spent r (admit capacity now trusted r' g).1 ≡ true
unfolding admit
admit-is_spent capacity now trusted r r' g h = ground (arith, pass-is_spent capacity now r r' g h)

is_spent-Served :
    (capacity : ℕ) (r : Request) {g g' : Gate}
    → Served capacity g g'
    → is_spent r g ≡ true
    → is_spent r g' ≡ true
is_spent-Served capacity r done h = h
is_spent-Served capacity r (request {g} now trusted r' rest) h =
    is_spent-Served capacity r rest (admit-is_spent capacity now trusted r r' g h)

-- When an assertion has passed, it never passes again, whatever requests are served in between and
-- however the clock moves.
pub admit_once :
    (capacity now now' : ℕ) (trusted trusted' : Result (Unit {0})) (r : Request) (g : Gate)
    {g' : Gate}
    → (admit capacity now trusted r g).0 ≡ ok tt
    → Served capacity (admit capacity now trusted r g).1 g'
    → (admit capacity now' trusted' r g').0 ≢ ok tt
unfolding admit is_current
admit_once capacity now now' trusted trusted' r g {g'} h run =
    ground (arith, pass-refused capacity now' r g' (is_spent-Served capacity r run spent))
  where
    spent : is_spent r (admit capacity now trusted r g).1 ≡ true
    spent = ground (arith, pass-spends capacity now r g)
