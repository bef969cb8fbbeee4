-- ===== src/Protocol/Authorized.antt =====
-- What stands behind an answer of `Protocol.handle` that is no error.
use hioc.Base.{
  ℕ, ◌≤◌, ◌<◌, ◌≡◌, refl, String, Bool, true, false, Option, none, some, arith, ap, Result, ok, err,
  nat_key, text_key,
}
use hioc.Contract.Json.{Json}
use hioc.Protocol.Gate.{
  Operation, get, create, update, result, availability_status, Gate, admit, is_current,
}
use hioc.Protocol.Trust.{IssuerTrust, Lookup, trust_of, check_grant, allowed, validate_trust}
use hioc.Protocol.Envelope.{
  Headers, Envelope, Body, of_asset, of_operation, of_mutation, other, Verified, request_of, route,
  body_json, body_asset, message, check_headers, check_assertion, check_envelope, verify, trusted,
  trusted_again, reauthorize,
}
use hioc.Protocol.Handle.{
  Moment, Answer, Response, answered, reply, failed, status_failed, mutate, reauthorized, serve,
  run, respond, handle,
}
use hioc.Policy.Types.{World, Files, Payload}
use hioc.Policy.Files.{M, Writes, certain, and_then, lift}
use hioc.Policy.Service.{Surroundings, Mutation, Reply}
use hioc.Policy.Operations.{mutate_policy}

-- A trust that `_trust` returned.
record IsTrusted (w : World) (env : Surroundings) (find : Lookup) (issuer : ℕ)
    (key_id actor : String) (peer : ℕ) (op : Operation) (key : ℕ) (verify : Bool) (s : Files)
    (t : IssuerTrust) : Type 0 where
  found : find issuer key_id ≡ ok (some t)
  valid : validate_trust t ≡ ok tt
  enabled : t.enabled ≡ true
  peer_key : t.client_spki_sha256 ≡ peer
  issued_by : t.issuer ≡ issuer
  named : t.key_id ≡ key_id
  granted : check_grant w env verify op key s (allowed t actor op) ≡ ok tt

module _ (w : World) (env : Surroundings) where
  trust_of-IsTrusted :
      (find : Lookup) (issuer : ℕ) (key_id actor : String) (peer : ℕ) (op : Operation) (key : ℕ)
      (verify : Bool) (s : Files) (t : IssuerTrust)
      → trust_of w env find issuer key_id actor peer op key verify s ≡ ok t
      → IsTrusted w env find issuer key_id actor peer op key verify s t
  unfolding trust_of
  trust_of-IsTrusted find issuer key_id actor peer op key verify s t h =
      looked (find issuer key_id) refl
    where
      looked :
          (o : Result (Option IssuerTrust))
          → find issuer key_id ≡ o
          → IsTrusted w env find issuer key_id actor peer op key verify s t
      looked (err e) q = absurd (ground (arith, h, q))
      looked (ok none) q = absurd (ground (arith, h, q))
      looked (ok (some u)) q = record {
        found = ground (arith, h, q);
        valid = ground (arith, h, q);
        enabled = ground (arith, h, q);
        peer_key = ground (arith, h, q);
        issued_by = ground (arith, h, q);
        named = ground (arith, h, q, text_key.same_iff u.key_id key_id);
        granted = ground (arith, h, q);
      }

-- The files that the last authorization reads: for a mutation those that it works on, for a read
-- those that were there before the service read any.
abbrev pub authorized_on : Operation → Moment → Files → Files
authorized_on create m s = s
authorized_on update m s = s
authorized_on _ m s = m.between

and_then-eq-ok :
    {A B : Type 0} (x : Result A × Files) (f : A → M B) {b : B}
    → (and_then x f).0 ≡ ok b
    → (a : A) × (x.0 ≡ ok a)
and_then-eq-ok (err e, s) f h = cc
and_then-eq-ok (ok a, s) f h = (a, refl)

module _ (w : World) (env : Surroundings) (hmac : ℕ → Json → ℕ) where
  pub record IsVerified (h : Headers) (raw : Result Envelope) (v : Verified) : Type 0 where
    pub routed : route h.path ≡ some v.operation
    pub path : ((v.envelope).assertion).path ≡ h.path
    pub parsed : raw ≡ ok v.envelope
    bound : ((v.envelope).assertion).payload_sha256 ≡ w.digest (body_json (v.envelope).payload)
    asset : body_asset v.operation (v.envelope).payload ≡ ok v.asset
    signed : hmac (v.trust).key (message v.envelope) ≡ (v.envelope).signature

  check_headers-routed :
      (h : Headers) (op : Operation) → check_headers h ≡ ok op → route h.path ≡ some op
  unfolding check_headers
  check_headers-routed h op e = ground arith

  check_assertion-path :
      (h : Headers) (e : Envelope) → check_assertion h e ≡ ok tt → (e.assertion).path ≡ h.path
  unfolding check_assertion
  check_assertion-path h e q = ground (arith, text_key.same_iff (e.assertion).path h.path)

  check_envelope-bound :
      (h : Headers) (op : Operation) (e : Envelope) (key : ℕ)
      → check_envelope w h op e ≡ ok key
      → ((e.assertion).payload_sha256 ≡ w.digest (body_json e.payload))
        × (body_asset op e.payload ≡ ok key)
        × ((e.assertion).path ≡ h.path)
  unfolding check_envelope
  check_envelope-bound h op e key q = ground (arith, check_assertion-path h e)

  pub verify-IsVerified :
      (find : Lookup) (h : Headers) (raw : Result Envelope) (s : Files) (v : Verified)
      → verify w env hmac find h raw s ≡ ok v
      → IsVerified h raw v
  unfolding verify
  verify-IsVerified find h raw s v q = routes (check_headers h) refl
    where
      documents :
          (op : Operation) (e : Envelope) (o : Result ℕ)
          → check_headers h ≡ ok op
          → raw ≡ ok e
          → check_envelope w h op e ≡ o
          → IsVerified h raw v
      documents op e (err x) a b c = absurd (ground (arith, q, a, b, c))
      documents op e (ok key) a b c = trusts (trusted w env hmac find h op key e false s) refl
        where
          trusts :
              (o : Result IssuerTrust)
              → trusted w env hmac find h op key e false s ≡ o
              → IsVerified h raw v
          trusts (err x) i = absurd (ground (arith, q, a, b, c, i))
          trusts (ok t) i = record {
            routed = ground (arith, q, a, b, c, i, check_headers-routed h op);
            parsed = ground (arith, q, a, b, c, i);
            bound = ground (arith, q, a, b, c, i, check_envelope-bound h op e key);
            path = ground (arith, q, a, b, c, i, check_envelope-bound h op e key);
            asset = ground (arith, q, a, b, c, i, check_envelope-bound h op e key);
            signed = ground (arith, q, a, b, c, i);
          }

      parses :
          (op : Operation) (o : Result Envelope)
          → check_headers h ≡ ok op
          → raw ≡ o
          → IsVerified h raw v
      parses op (err x) a b = absurd (ground (arith, q, a, b))
      parses op (ok e) a b = documents op e (check_envelope w h op e) a b refl

      routes : (o : Result Operation) → check_headers h ≡ o → IsVerified h raw v
      routes (err x) a = absurd (ground (arith, q, a))
      routes (ok op) a = parses op raw a refl

  mutate_policy-authorized :
      (d : Writes) (op : Mutation) (p : Payload) (issuer : ℕ) (actor : String) (b : Result Bool)
      (now : ℕ) (s : Files) (r : Reply)
      → (mutate_policy w env d op p issuer actor b now s).0 ≡ ok r
      → b ≡ ok true
  unfolding mutate_policy certain
  mutate_policy-authorized d op p issuer actor b now s r h = ground arith

  mutate-authorized :
      (d : Writes) (op : Mutation) (m : Moment) (h : Headers) (v : Verified) (b : Body) (s : Files)
      (r : Answer)
      → (mutate w env hmac d op m h v b s).0 ≡ ok r
      → reauthorize w env hmac m.last_lookup h v m.now m.instant s ≡ ok true
  mutate-authorized d op m h v (of_mutation p) s r q =
      let (y, e) =
        and_then-eq-ok
          (mutate_policy w env d op p ((v.envelope).assertion).issuer
            ((v.envelope).assertion).actor_id (reauthorized w env hmac d m h v s) m.store_now s)
          (λ x. lift (ok (reply x))) q in
      mutate_policy-authorized d op p _ _ _ m.store_now s y e
  mutate-authorized d op m h v (of_asset k) s r q = cc
  mutate-authorized d op m h v (of_operation o k) s r q = cc
  mutate-authorized d op m h v (other j) s r q = cc

  serve-authorized :
      (d : Writes) (m : Moment) (h : Headers) (op : Operation) (v : Verified) (s : Files)
      (r : Answer)
      → (serve w env hmac d m h op v s).0 ≡ ok r
      → reauthorize w env hmac m.last_lookup h v m.now m.instant (authorized_on op m s) ≡ ok true
  unfolding serve
  serve-authorized d m h availability_status v s r q = ground arith
  serve-authorized d m h get v s r q = ground arith
  serve-authorized d m h result v s r q = ground arith
  serve-authorized d m h create v s r q =
      mutate-authorized d Mutation.create m h v (v.envelope).payload s r q
  serve-authorized d m h update v s r q =
      mutate-authorized d Mutation.update m h v (v.envelope).payload s r q

-- What stands behind an answer.
pub record IsAuthorized (w : World) (env : Surroundings) (hmac : ℕ → Json → ℕ) (m : Moment)
    (h : Headers) (raw : Result Envelope) (s : Files) : Type 0 where
  pub envelope : Envelope
  pub operation : Operation
  pub asset : ℕ
  pub trust : IssuerTrust
  pub routed : route h.path ≡ some operation
  pub parsed : raw ≡ ok envelope
  pub about : body_asset operation envelope.payload ≡ ok asset
  pub bound : (envelope.assertion).payload_sha256 ≡ w.digest (body_json envelope.payload)
  pub signed : hmac trust.key (message envelope) ≡ envelope.signature
  pub found :
      m.last_lookup (envelope.assertion).issuer (envelope.assertion).key_id ≡ ok (some trust)
  pub enabled : trust.enabled ≡ true
  pub peer_key : trust.client_spki_sha256 ≡ h.peer
  pub granted :
      check_grant w env true operation asset
        (authorized_on operation m s)
        (allowed trust (envelope.assertion).actor_id operation)
      ≡ ok tt
  pub issued : (envelope.assertion).issued_at ≤ m.now
  pub forward : m.now ≤ m.instant
  pub unexpired : m.instant < (envelope.assertion).expires_at

abbrev pub is_error : Response → Bool
is_error (failed e) = true
is_error (status_failed c) = true
is_error (answered a) = false

module _ (w : World) (env : Surroundings) (hmac : ℕ → Json → ℕ) (d : Writes) (capacity : ℕ)
    (m : Moment) (h : Headers) where
  admit-current :
      (trusted : Result (Unit {0})) (v : Verified) (g : Gate)
      → (admit capacity m.now trusted (request_of v) g).0 ≡ ok tt
      → ((v.envelope).assertion).issued_at ≤ m.now
  unfolding admit is_current
  admit-current trusted v g q = ground arith

  pub respond-ok : (o : Result Answer) → is_error (respond h o) ≡ false → (r : Answer) × (o ≡ ok r)
  unfolding respond
  respond-ok (ok r) q = (r, refl)
  respond-ok (err e) q = absurd (ground arith)

  reauthorized-IsAuthorized :
      (raw : Result Envelope) (s : Files) (v : Verified)
      → IsVerified w env hmac h raw v
      → ((v.envelope).assertion).issued_at ≤ m.now
      → reauthorize w env hmac m.last_lookup h v m.now m.instant (authorized_on v.operation m s)
        ≡ ok true
      → IsAuthorized w env hmac m h raw s
  unfolding reauthorize
  reauthorized-IsAuthorized raw s v x early again =
      trusts
        (trusted w env hmac m.last_lookup h v.operation v.asset v.envelope true
          (authorized_on v.operation m s))
        refl
    where
      trusts :
          (o : Result IssuerTrust)
          → trusted w env hmac m.last_lookup h v.operation v.asset v.envelope true
              (authorized_on v.operation m s)
            ≡ o
          → IsAuthorized w env hmac m h raw s
      trusts (err e) i = absurd (ground (arith, again, i))
      trusts (ok t) i =
          let late =
            trust_of-IsTrusted w env m.last_lookup ((v.envelope).assertion).issuer
              ((v.envelope).assertion).key_id ((v.envelope).assertion).actor_id h.peer v.operation
              v.asset true (authorized_on v.operation m s) t i in
          record {
            envelope = v.envelope;
            operation = v.operation;
            asset = v.asset;
            trust = t;
            routed = x.routed;
            parsed = x.parsed;
            about = x.asset;
            bound = x.bound;
            signed = rw (key-same t i) x.signed;
            found = late.found;
            enabled = late.enabled;
            peer_key = late.peer_key;
            granted = late.granted;
            issued = early;
            forward = ground (arith, again, i);
            unexpired = ground (arith, again, i);
          }
        where
          key-same :
              (t : IssuerTrust)
              → trusted w env hmac m.last_lookup h v.operation v.asset v.envelope true
                  (authorized_on v.operation m s)
                ≡ ok t
              → t.key ≡ (v.trust).key
          key-same t i = ground (arith, again, i)

  run-IsAuthorized :
      (raw : Result Envelope) (g : Gate) (s : Files) (r : Answer)
      → (run w env hmac d capacity m h raw g s).0 ≡ ok r
      → IsAuthorized w env hmac m h raw s
  unfolding run
  run-IsAuthorized raw g s r q = verified (verify w env hmac m.first_lookup h raw m.early) refl
    where
      final :
          (v : Verified)
          → verify w env hmac m.first_lookup h raw m.early ≡ ok v
          → ((v.envelope).assertion).issued_at ≤ m.now
          → reauthorize w env hmac m.last_lookup h v m.now m.instant (authorized_on v.operation m s)
            ≡ ok true
          → IsAuthorized w env hmac m h raw s
      final v k early again =
          reauthorized-IsAuthorized raw s v
            (verify-IsVerified w env hmac m.first_lookup h raw m.early v k) early again

      verified :
          (o : Result Verified)
          → verify w env hmac m.first_lookup h raw m.early ≡ o
          → IsAuthorized w env hmac m h raw s
      verified (err e) k = absurd (ground (arith, q, k))
      verified (ok v) k =
          gated
            (admit capacity m.now (trusted_again w env hmac m.second_lookup h v m.early)
              (request_of v) g)
            refl
        where
          gated :
              (x : Result (Unit {0}) × Gate)
              → admit capacity m.now
                  (trusted_again w env hmac m.second_lookup h v m.early)
                  (request_of v)
                  g
                ≡ x
              → IsAuthorized w env hmac m h raw s
          gated (err e, g') i = absurd (ground (arith, q, k, i))
          gated (ok u, g') i =
              final v k
                (admit-current (trusted_again w env hmac m.second_lookup h v m.early) v g
                  (ap (λ x. x.0) i))
                (serve-authorized w env hmac d m h v.operation v s r (ground (arith, q, k, i)))

  -- An answer that is no error was given to a request on a known route, whose signature, payload
  -- digest and asset are in order, under an enabled trust that was looked up at the end, is bound
  -- to the key of the peer, signs for the request and grants the operation on the asset: in the files
  -- that it works on, for a mutation, and in the files as they were before the service read them, for
  -- a read. The request was issued before the clock was read, the clock did not go back since, and
  -- the request has not expired.
  pub handle-IsAuthorized :
      (raw : Result Envelope) (g : Gate) (s : Files)
      → is_error (handle w env hmac d capacity m h raw g s).0 ≡ false
      → IsAuthorized w env hmac m h raw s
  unfolding handle
  handle-IsAuthorized raw g s q =
      let (r, e) = respond-ok (run w env hmac d capacity m h raw g s).0 q in
      run-IsAuthorized raw g s r e
