-- ===== src/Protocol/Effects.antt =====
-- What `Protocol.handle` leaves behind: the store after an error, and the nonce after an answer.
use hioc.Base.{
  ℕ, ◌≡◌, refl, String, Bool, true, false, some, arith, ap, sym, ◌∙◌, Result, ok, err, Error,
  policy, exception, text_key,
}
use hioc.Contract.{not_applied, error_response}
use hioc.Contract.Json.{Json}
use hioc.Protocol.Gate.{Operation, get, create, update, result, availability_status, Gate, admit}
use hioc.Protocol.Replay.{Served, done, request, admit_once}
use hioc.Protocol.Envelope.{
  Headers, Envelope, Body, of_asset, of_operation, of_mutation, other, Verified, request_of, route,
  verify, trusted_again,
}
use hioc.Protocol.Handle.{
  Moment, Answer, Response, answered, failed, status_failed, mutate, look_up, reauthorized, serve,
  after_gate, after_verify, run, respond, handle,
}
use hioc.Protocol.Authorized.{IsVerified, verify-IsVerified, is_error, respond-ok}
use hioc.Policy.Types.{World, Files}
use hioc.Policy.Files.{Writes, certain, load_store, require_durable}
use hioc.Policy.Service.{Surroundings, Mutation, Reply}
use hioc.Policy.Operations.{mutate_policy, operation_result, get_policy, reconcile}
use hioc.Policy.Commit.{denies}
use hioc.Policy.Replay.{mutate_policy-denies}

module _ (w : World) (env : Surroundings) where
  get_policy-store : (key : ℕ) (s : Files) → (get_policy w env key s).1.store ≡ s.store
  unfolding get_policy certain load_store require_durable
  get_policy-store key s = ground arith

  operation_result-store :
      (key operation issuer : ℕ) (actor : String) (s : Files)
      → (operation_result w env key operation issuer actor s).1.store ≡ s.store
  unfolding operation_result load_store reconcile
  operation_result-store key operation issuer actor s = ground arith

module _ (w : World) (env : Surroundings) (hmac : ℕ → Json → ℕ) (d : Writes) (m : Moment)
    (h : Headers) (v : Verified) where
  mutate-denies :
      (op : Mutation) (b : Body) (s : Files) (e : Error)
      → (mutate w env hmac d op m h v b s).0 ≡ err e
      → denies e ≡ true
      → (mutate w env hmac d op m h v b s).1.store ≡ s.store
  mutate-denies op (of_mutation p) s e q k =
      split
        (mutate_policy w env d op p ((v.envelope).assertion).issuer
          ((v.envelope).assertion).actor_id (reauthorized w env hmac d m h v s) m.store_now s)
        refl
    where
      split :
          (x : Result Reply × Files)
          → mutate_policy w env d op p
              ((v.envelope).assertion).issuer
              ((v.envelope).assertion).actor_id
              (reauthorized w env hmac d m h v s)
              m.store_now
              s
            ≡ x
          → (mutate w env hmac d op m h v (of_mutation p) s).1.store ≡ s.store
      split (err y, t) i = ground (
        arith,
        q,
        i,
        k,
        mutate_policy-denies w env d op p ((v.envelope).assertion).issuer
            ((v.envelope).assertion).actor_id (reauthorized w env hmac d m h v s) m.store_now s e,
      )
      split (ok y, t) i = ground (arith, q, i)
  mutate-denies op (of_asset x) s e q k = refl
  mutate-denies op (of_operation o x) s e q k = refl
  mutate-denies op (other j) s e q k = refl

  look_up-store : (b : Body) (s : Files) → (look_up w env hmac d m h v b s).1.store ≡ s.store
  look_up-store (of_operation o x) s = ground (
    arith,
    operation_result-store w env v.asset o ((v.envelope).assertion).issuer
        ((v.envelope).assertion).actor_id s,
  )
  look_up-store (of_mutation p) s = refl
  look_up-store (of_asset x) s = refl
  look_up-store (other j) s = refl

  serve-denies :
      (op : Operation) (s : Files) (e : Error)
      → (serve w env hmac d m h op v s).0 ≡ err e
      → denies e ≡ true
      → (serve w env hmac d m h op v s).1.store ≡ s.store
  unfolding serve
  serve-denies availability_status s e q k = ground arith
  serve-denies get s e q k = ground (arith, get_policy-store w env v.asset s)
  serve-denies result s e q k = look_up-store (v.envelope).payload s
  serve-denies create s e q k = mutate-denies Mutation.create (v.envelope).payload s e q k
  serve-denies update s e q k = mutate-denies Mutation.update (v.envelope).payload s e q k

-- The response says that the request was not applied.
abbrev pub says_not_applied : Response → Bool
says_not_applied (failed x) = elim x.commit_state [ not_applied ↦ true | _ ↦ false ]
says_not_applied (status_failed c) = false
says_not_applied (answered a) = false

module _ (w : World) (env : Surroundings) (hmac : ℕ → Json → ℕ) (d : Writes) (capacity : ℕ) where
  respond-denies :
      (h : Headers) (o : Result Answer)
      → says_not_applied (respond h o) ≡ true
      → (e : Error) × (o ≡ err e) × (denies e ≡ true)
  unfolding respond error_response
  respond-denies h (ok r) q = absurd (ground (arith, q))
  respond-denies h (err (policy c uncertain)) q = (policy c uncertain, refl, ground (arith, q))
  respond-denies h (err exception) q = (exception, refl, refl)

  after_gate-denies :
      (m : Moment) (h : Headers) (v : Verified) (x : Result (Unit {0}) × Gate) (s : Files)
      (e : Error)
      → (after_gate w env hmac d m h v x s).0 ≡ err e
      → denies e ≡ true
      → (after_gate w env hmac d m h v x s).2.store ≡ s.store
  after_gate-denies m h v (err y, g) s e q k = refl
  after_gate-denies m h v (ok u, g) s e q k = serve-denies w env hmac d m h v v.operation s e q k

  after_verify-denies :
      (m : Moment) (h : Headers) (o : Result Verified) (g : Gate) (s : Files) (e : Error)
      → (after_verify w env hmac d capacity m h o g s).0 ≡ err e
      → denies e ≡ true
      → (after_verify w env hmac d capacity m h o g s).2.store ≡ s.store
  after_verify-denies m h (err y) g s e q k = refl
  after_verify-denies m h (ok v) g s e q k =
      after_gate-denies m h v
        (admit capacity m.now (trusted_again w env hmac m.second_lookup h v m.early) (request_of v)
          g)
        s e q k

  -- Whatever the request, an answer that it was not applied leaves the store as it was.
  pub handle-not_applied :
      (m : Moment) (h : Headers) (raw : Result Envelope) (g : Gate) (s : Files)
      → says_not_applied (handle w env hmac d capacity m h raw g s).0 ≡ true
      → (handle w env hmac d capacity m h raw g s).2.store ≡ s.store
  unfolding handle run
  handle-not_applied m h raw g s q =
      let (e, i, k) = respond-denies h (run w env hmac d capacity m h raw g s).0 q in
      after_verify-denies m h (verify w env hmac m.first_lookup h raw m.early) g s e i k

  -- The requests of a time, each in its own moment and on the files that it finds.
  pub data Handled : Gate → Gate → Type 0 where
    none_left : {g : Gate} → Handled g g
    next :
        {g g' : Gate} (m : Moment) (h : Headers) (raw : Result Envelope) (s : Files)
        → Handled (handle w env hmac d capacity m h raw g s).1 g'
        → Handled g g'

  after_gate-gate :
      (m : Moment) (h : Headers) (v : Verified) (x : Result (Unit {0}) × Gate) (s : Files)
      → (after_gate w env hmac d m h v x s).1 ≡ x.1
  after_gate-gate m h v (err y, g) s = refl
  after_gate-gate m h v (ok u, g) s = refl

  -- A request goes through the gate as it is served, or leaves it alone.
  after_verify-Served :
      (m : Moment) (h : Headers) (o : Result Verified) (g : Gate) (s : Files) {g' : Gate}
      → Served capacity (after_verify w env hmac d capacity m h o g s).1 g'
      → Served capacity g g'
  after_verify-Served m h (err y) g s rest = rest
  after_verify-Served m h (ok v) g s rest =
      let again : Result (Unit {0}) = trusted_again w env hmac m.second_lookup h v m.early in
      request m.now again (request_of v)
        (rw (← after_gate-gate m h v (admit capacity m.now again (request_of v) g) s) rest)

  Handled-Served : {g g' : Gate} → Handled g g' → Served capacity g g'
  unfolding handle run
  Handled-Served none_left = done
  Handled-Served (next {g} m h raw s rest) =
      after_verify-Served m h (verify w env hmac m.first_lookup h raw m.early) g s
        (Handled-Served rest)

  after_gate-passed :
      (m : Moment) (h : Headers) (v : Verified) (x : Result (Unit {0}) × Gate) (s : Files)
      (r : Answer)
      → (after_gate w env hmac d m h v x s).0 ≡ ok r
      → x.0 ≡ ok tt
  after_gate-passed m h v (err y, g) s r q = cc
  after_gate-passed m h v (ok u, g) s r q = refl

  -- A request that has passed the gate, from one table to the next.
  record IsPassed (m : Moment) (h : Headers) (raw : Result Envelope) (g g' : Gate) : Type 0 where
    verified : Verified
    again : Result (Unit {0})
    parts : IsVerified w env hmac h raw verified
    passed : (admit capacity m.now again (request_of verified) g).0 ≡ ok tt
    left : g' ≡ (admit capacity m.now again (request_of verified) g).1

  after_verify-IsPassed :
      (m : Moment) (h : Headers) (raw : Result Envelope) (o : Result Verified) (g : Gate)
      (s : Files) (r : Answer)
      → ((v : Verified) → o ≡ ok v → IsVerified w env hmac h raw v)
      → (after_verify w env hmac d capacity m h o g s).0 ≡ ok r
      → IsPassed m h raw g (after_verify w env hmac d capacity m h o g s).1
  after_verify-IsPassed m h raw (err y) g s r f q = cc
  after_verify-IsPassed m h raw (ok v) g s r f q = record {
    verified = v;
    again = trusted_again w env hmac m.second_lookup h v m.early;
    parts = f v refl;
    passed =
        after_gate-passed m h v
          (admit capacity m.now (trusted_again w env hmac m.second_lookup h v m.early)
            (request_of v) g)
          s r q;
    left =
        after_gate-gate m h v
          (admit capacity m.now (trusted_again w env hmac m.second_lookup h v m.early)
            (request_of v) g)
          s;
  }

  -- A request that was answered has passed the gate.
  handle-IsPassed :
      (m : Moment) (h : Headers) (raw : Result Envelope) (g : Gate) (s : Files)
      → is_error (handle w env hmac d capacity m h raw g s).0 ≡ false
      → IsPassed m h raw g (handle w env hmac d capacity m h raw g s).1
  unfolding handle run
  handle-IsPassed m h raw g s q =
      let (r, e) =
        respond-ok w env hmac d capacity m h (run w env hmac d capacity m h raw g s).0 q in
      after_verify-IsPassed m h raw (verify w env hmac m.first_lookup h raw m.early) g s r
        (verify-IsVerified w env hmac m.first_lookup h raw m.early) e

  same_request :
      (h h' : Headers) (raw : Result Envelope) (v v' : Verified)
      → IsVerified w env hmac h raw v
      → IsVerified w env hmac h' raw v'
      → request_of v' ≡ request_of v
  same_request h h' raw v v' x y =
      let e : v'.envelope ≡ v.envelope = ground (arith, x.parsed, y.parsed) in
      let p : h'.path ≡ h.path = sym y.path ∙ ap (λ z. (z.assertion).path) e ∙ x.path in
      let o : some v'.operation ≡ some v.operation = sym y.routed ∙ ap route p ∙ x.routed in
      let o' : v'.operation ≡ v.operation = cc in rw (e, o')

  -- A request that was answered with no error is never answered so again, whatever requests are
  -- handled in between, at whatever time and under whatever headers it is sent.
  pub handle_once :
      (m m' : Moment) (h h' : Headers) (raw : Result Envelope) (g : Gate) (s s' : Files) {g' : Gate}
      → is_error (handle w env hmac d capacity m h raw g s).0 ≡ false
      → Handled (handle w env hmac d capacity m h raw g s).1 g'
      → is_error (handle w env hmac d capacity m' h' raw g' s').0 ≡ true
  handle_once m m' h h' raw g s s' {g'} q rest =
      decided (is_error (handle w env hmac d capacity m' h' raw g' s').0) refl
    where
      decided :
          (b : Bool)
          → is_error (handle w env hmac d capacity m' h' raw g' s').0 ≡ b
          → is_error (handle w env hmac d capacity m' h' raw g' s').0 ≡ true
      decided true e = e
      decided false e =
          let one = handle-IsPassed m h raw g s q in
          let two = handle-IsPassed m' h' raw g' s' e in
          absurd (
            admit_once capacity m.now m'.now one.again two.again (request_of one.verified) g
              {g' = g'} one.passed (rw (← one.left) (Handled-Served rest))
              (rw (← same_request h h' raw one.verified two.verified one.parts two.parts)
                two.passed))
