-- ===== src/Policy/Replay.antt =====
-- `mutate_policy` of pi4/lib/hioc/asset_policy.py as its callers see it: what it leaves when it
-- raises, when it commits, and when the same request comes again.
use hioc.Base.{
  ℕ, String, ◌≡◌, refl, Bool, true, false, Option, none, some, arith, Result, ok, err, Error,
  nat_key, ltb,
}
use hioc.Contract.{Receipt, is_timestamp, confirmed}
use hioc.Policy.Types.{World, Files, Versioned, legacy, current, unsupported, Store, Payload}
use hioc.Policy.Validate.{validate_versioned}
use hioc.Policy.Files.{Writes, certain, load_store, require_durable, commit, durable}
use hioc.Policy.Service.{
  Surroundings, Mutation, replayed, Reply, find_receipt, check_payload, payload_json, policy_view,
  Change, decide, issuer_digest, actor_digest,
}
use hioc.Policy.Operations.{mutate_policy, answer, replay, apply_change}
use hioc.Policy.Commit.{denies, commit-denies}

module _ (w : World) (env : Surroundings) (d : Writes) (op : Mutation) (p : Payload) (issuer : ℕ)
    (actor : String) (reauthorized : Result Bool) (now : ℕ) where
  unfoldable pub receipt_in : Store → Result (Option Receipt)
  receipt_in st =
      find_receipt (issuer_digest w env issuer actor) (actor_digest w env issuer actor)
        p.operation_id st.policy_requests

  apply_change-denies :
      (st : Store) (c : Change) (s : Files) (e : Error)
      → (apply_change w env d op p st c s).0 ≡ err e
      → denies e ≡ true
      → (apply_change w env d op p st c s).1.store ≡ s.store
  unfolding apply_change
  apply_change-denies st c s e h k =
      ground (arith, commit-denies w d (current st) (current c.store) s e)

  answer-denies :
      (st : Store) (o : Option Receipt) (s : Files) (e : Error)
      → (answer w env d op p issuer actor now st o s).0 ≡ err e
      → denies e ≡ true
      → (answer w env d op p issuer actor now st o s).1.store ≡ s.store
  unfolding answer replay require_durable
  answer-denies st (some r) s e h k = ground arith
  answer-denies st none s e h k = decided (decide w env issuer actor op p now st) refl
    where
      decided :
          (x : Result Change)
          → decide w env issuer actor op p now st ≡ x
          → (answer w env d op p issuer actor now st none s).1.store ≡ s.store
      decided (err y) q = ground (arith, q)
      decided (ok c) q = ground (arith, q, apply_change-denies st c s e)

  -- A mutation that raises without the mark of uncertainty, which is when the answer to the
  -- caller is `NOT_APPLIED`, has not touched the store.
  pub mutate_policy-denies :
      (s : Files) (e : Error)
      → (mutate_policy w env d op p issuer actor reauthorized now s).0 ≡ err e
      → denies e ≡ true
      → (mutate_policy w env d op p issuer actor reauthorized now s).1.store ≡ s.store
  unfolding mutate_policy certain load_store receipt_in
  mutate_policy-denies s e h k = loaded s.store refl
    where
      found :
          (st : Store) (x : Result (Option Receipt))
          → s.store ≡ some (current st)
          → receipt_in st ≡ x
          → (mutate_policy w env d op p issuer actor reauthorized now s).1.store ≡ s.store
      found st (err y) l q = ground (arith, l, q)
      found st (ok o) l q = ground (arith, l, q, answer-denies st o s e)

      loaded :
          (o : Option Versioned)
          → s.store ≡ o
          → (mutate_policy w env d op p issuer actor reauthorized now s).1.store ≡ s.store
      loaded none l = ground (arith, l)
      loaded (some (legacy st)) l = ground (arith, l)
      loaded (some (current st)) l = found st (receipt_in st) l refl
      loaded (some unsupported) l = ground (arith, l)

  -- How a mutation that returned came to its reply.
  pub record Answered (s : Files) (r : Reply) : Type 0 where
    pub store : Store
    pub earlier : Option Receipt
    pub found : s.store ≡ some (current store)
    pub valid : validate_versioned w (current store) ≡ ok tt
    pub sure : s.uncertain ≡ false
    pub checked : check_payload op p ≡ ok tt
    pub receipt : receipt_in store ≡ ok earlier
    pub same :
        mutate_policy w env d op p issuer actor reauthorized now s
        ≡ answer w env d op p issuer actor now store earlier s

  pub mutate_policy-Answered :
      (s : Files) (r : Reply)
      → (mutate_policy w env d op p issuer actor reauthorized now s).0 ≡ ok r
      → Answered s r
  unfolding mutate_policy certain load_store receipt_in
  mutate_policy-Answered s r h = loaded s.store refl
    where
      known :
          (st : Store) (x : Result (Option Receipt))
          → s.store ≡ some (current st)
          → receipt_in st ≡ x
          → Answered s r
      known st (err y) l q = absurd (ground (arith, l, q))
      known st (ok o) l q = record {
        store = st;
        earlier = o;
        found = l;
        valid = ground (arith, l, q);
        sure = ground (arith, l, q);
        checked = ground (arith, l, q);
        receipt = q;
        same = ground (arith, l, q);
      }

      loaded : (o : Option Versioned) → s.store ≡ o → Answered s r
      loaded none l = absurd (ground (arith, l))
      loaded (some (legacy st)) l = absurd (ground (arith, l))
      loaded (some (current st)) l = known st (receipt_in st) l refl
      loaded (some unsupported) l = absurd (ground (arith, l))

  -- A change that was decided and committed.
  pub record Done (s : Files) (st : Store) (r : Reply) : Type 0 where
    pub change : Change
    pub decided : decide w env issuer actor op p now st ≡ ok change
    pub committed : (commit w d (current st) (current change.store) s).0 ≡ ok tt
    pub files :
        (answer w env d op p issuer actor now st none s).1
        ≡ (commit w d (current st) (current change.store) s).1
    pub receipt : r.receipt ≡ some change.receipt

  pub answer-Done :
      (st : Store) (s : Files) (r : Reply)
      → (answer w env d op p issuer actor now st none s).0 ≡ ok r
      → Done s st r
  unfolding answer apply_change
  answer-Done st s r h = decided (decide w env issuer actor op p now st) refl
    where
      decided : (x : Result Change) → decide w env issuer actor op p now st ≡ x → Done s st r
      decided (err e) q = absurd (ground (arith, q))
      decided (ok c) q = record {
        change = c;
        decided = q;
        committed = ground (arith, q);
        files = ground (arith, q);
        receipt = ground (arith, q);
      }

  -- The answer to a repeated request.
  pub answer-replay :
      (st : Store) (q : Receipt) (s : Files) (r : Reply)
      → (answer w env d op p issuer actor now st (some q) s).0 ≡ ok r
      → ((answer w env d op p issuer actor now st (some q) s).1 ≡ s)
        × (r.result ≡ replayed)
        × (r.receipt ≡ some q)
        × (q.request_sha256 ≡ w.digest (payload_json p))
        × (durable w (current st) s ≡ true)
  unfolding answer replay require_durable
  answer-replay st q s r h = ground arith

  -- The state in which a repetition of the request finds its receipt.
  pub record IsServed (q : Receipt) (t : Files) : Type 0 where
    pub store : Store
    pub found : t.store ≡ some (current store)
    pub valid : validate_versioned w (current store) ≡ ok tt
    pub sure : t.uncertain ≡ false
    pub checked : check_payload op p ≡ ok tt
    pub receipt : receipt_in store ≡ ok (some q)
    pub request : q.request_sha256 ≡ w.digest (payload_json p)
    pub proven : durable w (current store) t ≡ true

  pub mutate_policy-of_IsServed :
      (q : Receipt) (t : Files)
      → IsServed q t
      → reauthorized ≡ ok true
      → is_timestamp now ≡ true
      → ltb now q.expires_at ≡ true
      → (r : Reply) × (mutate_policy w env d op p issuer actor reauthorized now t ≡ (ok r, t))
        × (r.result ≡ replayed)
        × (r.receipt ≡ some q)
  unfolding mutate_policy certain load_store receipt_in answer replay require_durable
  mutate_policy-of_IsServed q t v a n e =
      let f = v.found in
      let g = v.valid in
      let u = v.sure in
      let c = v.checked in
      let k = v.receipt in
      let m = v.request in
      let l = v.proven in
      (
        record {
          operation_id = some p.operation_id;
          result = replayed;
          commit_state = confirmed;
          policy = policy_view env v.store p.asset;
          receipt = some q;
        },
        ground (arith, f, g, u, c, k, m, l),
        refl,
        refl,
      )
