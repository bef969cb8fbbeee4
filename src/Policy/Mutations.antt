-- ===== src/Policy/Mutations.antt =====
-- The contract of `mutate_policy` (pi4/lib/hioc/asset_policy.py): what a reply says of the store
-- before and after it, and the files in which the same request finds its receipt.
use hioc.Base.{
  ℕ, ◌+◌, String, ◌≡◌, ◌≢◌, Bool, true, Option, none, some, Result, ok, ap, ◌∙◌, sym, nat_key, ltb,
  lookup, [], ◌∷◌, ◌++◌, select,
}
use hioc.Contract.{Receipt}
use hioc.Policy.Types.{World, Files, Versioned, current, Store, Payload, Record}
use hioc.Policy.Files.{Writes, durable}
use hioc.Policy.Service.{Surroundings, Mutation, replayed, Reply, issuer_digest, actor_digest}
use hioc.Policy.Operations.{mutate_policy, answer}
use hioc.Policy.Commit.{commit-durable, commit-valid}
use hioc.Policy.Decisions.{
  Asked, find_receipt-added, decide-receipt, decide-revision, decide-assets,
}
use hioc.Policy.Replay.{
  receipt_in, Answered, IsServed, mutate_policy-Answered, answer-Done, answer-replay,
}

-- What a mutation that was not a repetition has done.
pub record Committed (op : Mutation) (p : Payload) (w : World) (now : ℕ) (r : Reply) (s t : Files)
    : Type 0 where
  pub before : Store
  pub after : Store
  pub was : s.store ≡ some (current before)
  pub now_is : t.store ≡ some (current after)
  pub proven : durable w (current after) t ≡ true
  pub same_epoch : after.store_epoch ≡ before.store_epoch
  pub asked_epoch : before.store_epoch ≡ p.store_epoch
  pub asked_revision : before.store_revision ≡ p.expected_store_revision
  pub next_revision : after.store_revision ≡ before.store_revision + 1
  pub receipt : Receipt
  pub given : r.receipt ≡ some receipt
  pub requests :
      after.policy_requests
      ≡ select (λ (x : Receipt). ltb now x.expires_at) before.policy_requests ++ receipt ∷ []
  pub own :
      (r : Record) × (lookup p.asset after.assets ≡ some r)
      × Asked op p now r (lookup p.asset before.assets)
  pub others : (k : ℕ) → k ≢ p.asset → lookup k after.assets ≡ lookup k before.assets

module _ (w : World) (env : Surroundings) (op : Mutation) (p : Payload) (issuer : ℕ)
    (actor : String) (reflexive : (v : Versioned) → w.equal v v ≡ true) where
  -- A mutation that returns, and is no repetition, has committed just the change that was asked
  -- for, on the epoch and the revision of the store that the request names. A creation found no
  -- record and leaves one of revision 1 with the named values, and no text of the operator; an update
  -- found the record at the revision that the request names and sets the named fields of its policy:
  -- if that changes nothing, the rest of the record stays, and otherwise its revision is the next
  -- one and its time and source are renewed, and nothing else of it. Every other asset is as it was,
  -- the store moves to the next revision, its unexpired receipts stay and the one that is returned
  -- is added, and the witness proves the new store durable. The comparison of documents is assumed to
  -- be reflexive.
  pub mutate_policy-Committed :
      (d : Writes) (b : Result Bool) (now : ℕ) (s : Files) (r : Reply)
      → (mutate_policy w env d op p issuer actor b now s).0 ≡ ok r
      → r.result ≢ replayed
      → Committed op p w now r s (mutate_policy w env d op p issuer actor b now s).1
  mutate_policy-Committed d b now s r h fresh = by_receipt a.earlier a.same
    where
      a : Answered w env d op p issuer actor b now s r
      a = mutate_policy-Answered w env d op p issuer actor b now s r h

      by_receipt :
          (o : Option Receipt)
          → mutate_policy w env d op p issuer actor b now s
            ≡ answer w env d op p issuer actor now a.store o s
          → Committed op p w now r s (mutate_policy w env d op p issuer actor b now s).1
      by_receipt (some q) same = absurd (
          fresh
            (answer-replay w env d op p issuer actor b now a.store q s r
              (ap (λ x. x.0) (sym same) ∙ h)).1)
      by_receipt none same =
          let done =
            answer-Done w env d op p issuer actor b now a.store s r
              (ap (λ x. x.0) (sym same) ∙ h) in
          let (stored, _, proven) =
            commit-durable w d (current a.store) (current done.change.store) s (reflexive _)
              done.committed in
          let (asked, epoch, kept, next, _) =
            decide-revision w env issuer actor op p now a.store done.change done.decided in
          let (requests, _, _) =
            decide-receipt w env issuer actor op p now a.store done.change done.decided in
          let (own, others) =
            decide-assets w env issuer actor op p now a.store done.change done.decided in
          let files = ap (λ x. x.1) same ∙ done.files in
          record {
            before = a.store;
            after = done.change.store;
            was = a.found;
            now_is = ap (λ (x : Files). x.store) files ∙ stored;
            proven = ap (durable w (current done.change.store)) files ∙ proven;
            same_epoch = kept;
            asked_epoch = epoch;
            asked_revision = asked;
            next_revision = next;
            receipt = done.change.receipt;
            given = done.receipt;
            requests = requests;
            own = own;
            others = others;
          }

  -- After an answer with a receipt, a repetition finds it.
  pub IsServed-after :
      (d : Writes) (b : Result Bool) (now now' : ℕ) (s : Files) (r : Reply) (q : Receipt)
      → (mutate_policy w env d op p issuer actor b now s).0 ≡ ok r
      → r.receipt ≡ some q
      → (d' : Writes)
      → IsServed w env d' op p issuer actor
          (ok true)
          now'
          q
          (mutate_policy w env d op p issuer actor b now s).1
  unfolding receipt_in
  IsServed-after d b now now' s r q h k d' = by_receipt a.earlier a.receipt a.same
    where
      a : Answered w env d op p issuer actor b now s r
      a = mutate_policy-Answered w env d op p issuer actor b now s r h

      by_receipt :
          (o : Option Receipt)
          → receipt_in w env d op p issuer actor b now a.store ≡ ok o
          → mutate_policy w env d op p issuer actor b now s
            ≡ answer w env d op p issuer actor now a.store o s
          → IsServed w env d' op p issuer actor
              (ok true)
              now'
              q
              (mutate_policy w env d op p issuer actor b now s).1
      by_receipt (some q') found same =
          let (still, _, given, request, proven) =
            answer-replay w env d op p issuer actor b now a.store q' s r
              (ap (λ x. x.0) (sym same) ∙ h) in
          let one : q' ≡ q = cc (k, given) in
          rw (← one) (
            rw (ap (λ x. x.1) same ∙ still) (record {
              store = a.store;
              found = a.found;
              valid = a.valid;
              sure = a.sure;
              checked = a.checked;
              receipt = found;
              request = request;
              proven = proven;
            }))
      by_receipt none found same =
          let done =
            answer-Done w env d op p issuer actor b now a.store s r
              (ap (λ x. x.0) (sym same) ∙ h) in
          let c = done.change in
          let (stored, quiet, proven) =
            commit-durable w d (current a.store) (current c.store) s (reflexive _) done.committed in
          let (requests, own, request) =
            decide-receipt w env issuer actor op p now a.store c done.decided in
          let one : c.receipt ≡ q = cc (k, done.receipt) in
          let files = ap (λ x. x.1) same ∙ done.files in
          rw (← one) (
            rw files (record {
              store = c.store;
              found = stored;
              valid = commit-valid w d (current a.store) (current c.store) s done.committed;
              sure = quiet;
              checked = a.checked;
              receipt = rw requests (
                  find_receipt-added (issuer_digest w env issuer actor)
                    (actor_digest w env issuer actor) p.operation_id
                    (λ (x : Receipt). ltb now x.expires_at) c.receipt a.store.policy_requests found
                    own);
              request = request;
              proven = proven;
            }))
