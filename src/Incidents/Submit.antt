-- ===== src/Incidents/Submit.antt =====
-- What the dispatcher of pi4/lib/hioc/availability_incidents.py hands to the transport: the claim
-- that it holds, the deadline that it keeps and the attempt that it records first.
use hioc.Base.{
  ℕ, ◌≡◌, ◌≢◌, refl, ap, ◌∙◌, Bool, true, false, ◌&&◌, Option, none, some, arith, nat_key, ◌==◌,
  lookup, Result, ok, ◌>>=◌, ◌>>◌, or_raise, lookup-insert_self, Code, forbidden, is_none, is_some,
}
use hioc.Contract.{require_code}
use hioc.Contract.Json.{Json}
use hioc.Availability.StatusRead.{StatusValue}
use hioc.Incidents.Types.{State, Item, Grant, is_in_flight}
use hioc.Incidents.Dispatch.{decide_start}

pub guard-eq-ok {ℓ} :
    {A : Type ℓ} (b : Bool) (c : Code) (x : Result A) {a : A}
    → (require_code b c >> x) ≡ ok a
    → (b ≡ true) × (x ≡ ok a)
guard-eq-ok true c x h = (refl, h)
guard-eq-ok false c x h = cc

pub known-eq-ok {ℓ ℓ'} :
    {A : Type ℓ} {B : Type ℓ'} (o : Option A) (f : A → Result B) {b : B}
    → (or_raise o >>= f) ≡ ok b
    → (a : A) × (o ≡ some a) × (f a ≡ ok b)
known-eq-ok none f h = cc
known-eq-ok (some a) f h = (a, refl, h)

pub ok_pair {ℓ} :
    {A : Type ℓ} {a b : A} {s s' : State}
    → ◌≡◌ {A = Result (A × State)} (ok (a, s)) (ok (b, s'))
    → s' ≡ s
ok_pair h = cc

is_some-is_none : (o : Option ℕ) → is_some o ≡ true → is_none o ≡ false
is_some-is_none none h = cc
is_some-is_none (some x) h = refl

-- The attempt of an entry is recorded as consumed.
abbrev pub IsStarted : ℕ → State → Type 0
IsStarted k s =
    (item : Item) × (g : Grant) × (lookup k s.outbox ≡ some item)
    × (item.grant ≡ some g)
    × (is_some g.transport_started_at ≡ true)

module _ (digest : Json → ℕ) (oversized : StatusValue → Bool) (epoch : ℕ) where
  pub start-IsStarted :
      (g : Grant) (now k : ℕ) (s s' : State) (u : Unit)
      → decide_start digest oversized epoch g now k s ≡ ok (u, s')
      → IsStarted k s'
  unfolding decide_start
  start-IsStarted g now k s s' u h =
      let (item, found, h1) = known-eq-ok (lookup k s.outbox) _ h in
      let (flying, h2) = guard-eq-ok (is_in_flight item.state) forbidden _ h1 in
      let (actual, granted, h3) = known-eq-ok item.grant _ h2 in
      let (fresh, h4) = guard-eq-ok _ forbidden _ h3 in
      (
        _,
        _,
        ap (λ (x : State). lookup k x.outbox) (ok_pair h4) ∙ lookup-insert_self k _ s.outbox,
        refl,
        refl,
      )

  start-refused :
      (g : Grant) (now k : ℕ) (s : State)
      → IsStarted k s
      → (u : Unit × State) → decide_start digest oversized epoch g now k s ≢ ok u
  unfolding decide_start
  start-refused g now k s (item, actual, found, granted, started) u h =
      let (item', found', h1) = known-eq-ok (lookup k s.outbox) _ h in
      let (flying, h2) = guard-eq-ok (is_in_flight item'.state) forbidden _ h1 in
      let (actual', granted', h3) = known-eq-ok item'.grant _ h2 in
      let same : item' ≡ item = grind arith in
      let same' : actual' ≡ actual = grind arith in
      let (fresh, h4) =
        guard-eq-ok (actual'.grant_id == g.grant_id && is_none actual'.transport_started_at)
          forbidden (ok _) h3 in
      let fresh' : is_none actual.transport_started_at ≡ true = ground arith in
      let clash : is_none actual.transport_started_at ≡ false =
        is_some-is_none actual.transport_started_at started in
      cc

module _ (digest : Json → ℕ) (oversized : StatusValue → Bool) (epoch : ℕ) where
  -- Once the start of an attempt was recorded, no second record of a start for that event succeeds
  -- on the state that was written, for any grant and at any time.
  pub start_once :
      (g g' : Grant) (now now' k : ℕ) (s s' : State) (u : Unit)
      → decide_start digest oversized epoch g now k s ≡ ok (u, s')
      → (x : Unit × State) → decide_start digest oversized epoch g' now' k s' ≢ ok x
  start_once g g' now now' k s s' u h =
      start-refused digest oversized epoch g' now' k s'
        (start-IsStarted digest oversized epoch g now k s s' u h)
