-- ===== src/Observation/Safety.antt =====
-- What an answer of `ObservationProtocol.handle` (pi4/lib/hioc/availability_protocol.py) says of
-- the request and of the file of observations.
use hioc.Base.{
  ℕ, ◌≡◌, refl, ap, arith, String, Bool, true, false, Option, none, some, List, [], ◌++◌, Result,
  ok, err, Error, length,
}
use hioc.Contract.{error_response, not_applied}
use hioc.Contract.Disk.{Disk}
use hioc.Contract.Json.{Json}
use hioc.Availability.Types.{Profile, Observation, Attachment}
use hioc.Protocol.Envelope.{Headers}
use hioc.Protocol.Handle.{may_be_applied}
use hioc.Observation.Store.{Slot, Stored, replace, commit}
use hioc.Observation.Refine.{latest, rows_of, commit-latest}
use hioc.Observation.Receive.{
  ObservationTrust, Report, Entry, Response, observations_received, failed, accept_all,
  payload_json, signed_part, check_trust, receive, enter, end_of, after_lock, after_tests, handle,
}

module _ (oversized : List Observation → Bool) (disk : Disk) where
  commit-denies :
      (rows : List Observation) (f : Stored) (e : Error)
      → (commit oversized disk rows f).0 ≡ err e
      → may_be_applied e ≡ false
      → (commit oversized disk rows f).1 ≡ f
  unfolding commit replace
  commit-denies rows f e h k = ground arith

  -- The state that a request with the report `e` leaves, where it is answered with a count.
  unfoldable pub IsKept : ℕ → Report → Stored → Stored → Type 0
  IsKept n e f f' =
      (n ≡ length e.observations)
      × ((k : Slot) → latest k (rows_of f') ≡ latest k (rows_of f ++ e.observations))

  end_of-IsKept :
      (e : Report) (g : Entry) (f : Stored) (x : Result (Unit {0}) × Stored) (n : ℕ)
      → commit oversized disk e.observations f ≡ x
      → (end_of e g x).0 ≡ observations_received n
      → IsKept n e f (end_of e g x).2
  unfolding IsKept
  end_of-IsKept e g f (err y, f') n c q = cc
  end_of-IsKept e g f (ok u, f') n c q =
      (ground (arith, q), λ k. commit-latest oversized disk e.observations f f' k c)

  after_lock-IsKept :
      (e : Report) (x : Result (Unit {0}) × Entry) (f : Stored) (n : ℕ)
      → (after_lock oversized disk e x f).0 ≡ observations_received n
      → IsKept n e f (after_lock oversized disk e x f).2
  after_lock-IsKept e (err y, g) f n q = cc
  after_lock-IsKept e (ok u, g) f n q =
      end_of-IsKept e g f (commit oversized disk e.observations f) n refl q

  after_tests-IsKept :
      (now : ℕ) (o : Result Report) (g : Entry) (f : Stored) (n : ℕ)
      → (after_tests oversized disk now o g f).0 ≡ observations_received n
      → (e : Report) × (o ≡ ok e) × IsKept n e f (after_tests oversized disk now o g f).2
  after_tests-IsKept now (err y) g f n q = cc
  after_tests-IsKept now (ok e) g f n q =
      (e, refl, after_lock-IsKept e (enter now e.assertion g) f n q)

  unfoldable pub says_not_applied : Response → Bool
  says_not_applied (failed x) = elim x.commit_state [ not_applied ↦ true | _ ↦ false ]
  says_not_applied (observations_received n) = false

  end_of-unchanged :
      (e : Report) (g : Entry) (f : Stored) (x : Result (Unit {0}) × Stored)
      → commit oversized disk e.observations f ≡ x
      → says_not_applied (end_of e g x).0 ≡ true
      → (end_of e g x).2 ≡ f
  unfolding says_not_applied error_response
  end_of-unchanged e g f (err y, f') c q =
      let failing : (commit oversized disk e.observations f).0 ≡ err y = ap (λ z. z.0) c in
      let left : (commit oversized disk e.observations f).1 ≡ f' = ap (λ z. z.1) c in
      ground (arith, q, left, commit-denies e.observations f y failing)
  end_of-unchanged e g f (ok u, f') c q = cc

  after_tests-unchanged :
      (now : ℕ) (o : Result Report) (g : Entry) (f : Stored)
      → says_not_applied (after_tests oversized disk now o g f).0 ≡ true
      → (after_tests oversized disk now o g f).2 ≡ f
  after_tests-unchanged now (err y) g f q = refl
  after_tests-unchanged now (ok e) g f q = locked (enter now e.assertion g) q
    where
      locked :
          (x : Result (Unit {0}) × Entry)
          → says_not_applied (after_lock oversized disk e x f).0 ≡ true
          → (after_lock oversized disk e x f).2 ≡ f
      locked (err y, g') q = refl
      locked (ok u, g') q = end_of-unchanged e g' f (commit oversized disk e.observations f) refl q

module _ (digest : Json → ℕ) (profiles : ℕ → Result Profile) (attachment : ℕ → Attachment)
    (hmac : ℕ → Json → ℕ) (find : ℕ → String → Result (Option ObservationTrust)) (now : ℕ)
    (h : Headers) (raw : Result Report) where
  -- A request that is let in up to the lock.
  pub record IsReceived (e : Report) : Type 0 where
    pub trust : ObservationTrust
    pub parsed : raw ≡ ok e
    pub found : find (e.assertion).issuer (e.assertion).key_id ≡ ok (some trust)
    pub trusted : check_trust h e trust ≡ ok tt
    pub bound : (e.assertion).payload_sha256 ≡ digest (payload_json e.observations)
    pub signed : hmac trust.key (signed_part e) ≡ e.signature
    pub accepted : accept_all digest profiles attachment trust now [] e.observations ≡ ok tt

  receive-IsReceived :
      (e : Report) → receive digest profiles attachment hmac find now h raw ≡ ok e → IsReceived e
  unfolding receive
  receive-IsReceived e q = parses raw refl
    where
      looks :
          (x : Report) (o : Result (Option ObservationTrust))
          → raw ≡ ok x
          → find (x.assertion).issuer (x.assertion).key_id ≡ o
          → IsReceived e
      looks x (err y) r l = absurd (ground (arith, q, r, l))
      looks x (ok none) r l = absurd (ground (arith, q, r, l))
      looks x (ok (some t)) r l = record {
        trust = t;
        parsed = ground (arith, q, r, l);
        found = ground (arith, q, r, l);
        trusted = ground (arith, q, r, l);
        bound = ground (arith, q, r, l);
        signed = ground (arith, q, r, l);
        accepted = ground (arith, q, r, l);
      }

      parses : (o : Result Report) → raw ≡ o → IsReceived e
      parses (err y) r = absurd (ground (arith, q, r))
      parses (ok x) r = looks x (find (x.assertion).issuer (x.assertion).key_id) r refl

  module _ (oversized : List Observation → Bool) (disk : Disk) (g : Entry) (f : Stored) where
    -- A request that is answered with a count had a report of a trusted service, signed by it, each
    -- row of which it may report, and the file then holds the last row of each asset and source of
    -- the old file followed by the report.
    pub handle-IsKept :
        (n : ℕ)
        → (handle oversized disk digest profiles attachment hmac find now h raw g f).0
          ≡ observations_received n
        → (e : Report) × IsReceived e
          × IsKept oversized disk n e f
              (handle oversized disk digest profiles attachment hmac find now h raw g f).2
    unfolding handle
    handle-IsKept n q =
        let (e, r, k) =
          after_tests-IsKept oversized disk now
            (receive digest profiles attachment hmac find now h raw) g f n q in
        (e, receive-IsReceived e r, k)

    -- A request that is answered as not applied leaves the file of observations as it was.
    pub handle-unchanged :
        says_not_applied oversized disk
            (handle oversized disk digest profiles attachment hmac find now h raw g f).0
          ≡ true
        → (handle oversized disk digest profiles attachment hmac find now h raw g f).2 ≡ f
    unfolding handle
    handle-unchanged q =
        after_tests-unchanged oversized disk now
          (receive digest profiles attachment hmac find now h raw) g f q
