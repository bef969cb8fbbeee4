-- ===== src/Policy/Repeats.antt =====
-- What a repeated request to `mutate_policy` (pi4/lib/hioc/asset_policy.py) is answered, also after
-- other requests.
use hioc.Base.{
  ℕ, String, ◌≡◌, ◌≢◌, refl, Bool, true, false, Option, none, some, List, [], ◌∷◌, ◌++◌, Result, ok,
  ap, ◌∙◌, sym, nat_key, ltb, select, arith, Bool-cases, inl, inr,
}
use hioc.Contract.{Receipt, is_timestamp}
use hioc.Policy.Types.{World, Files, Versioned, current, Payload}
use hioc.Policy.Files.{Writes}
use hioc.Policy.Service.{
  Surroundings, Mutation, replayed, Reply, find_receipt, is_receipt, only, issuer_digest,
  actor_digest,
}
use hioc.Policy.Operations.{mutate_policy, answer}
use hioc.Policy.Commit.{commit-durable, commit-valid}
use hioc.Policy.Decisions.{select-append, select-select_nil, decide-receipt}
use hioc.Policy.Replay.{
  receipt_in, Answered, IsServed, mutate_policy-Answered, answer-Done, answer-replay,
  mutate_policy-of_IsServed,
}
use hioc.Policy.Mutations.{IsServed-after}

only-some : (rows : List Receipt) (q : Receipt) → only rows ≡ ok (some q) → rows ≡ q ∷ []
only-some [] q h = cc
only-some (r ∷ []) q h = cc
only-some (r ∷ s ∷ rows) q h = cc

-- What a selection finds alone, it finds in a part that keeps it.
select-select_one {ℓ} :
    {A : Type ℓ} (f g : A → Bool) (xs : List A) (q : A)
    → select f xs ≡ q ∷ []
    → g q ≡ true
    → select f (select g xs) ≡ q ∷ []
select-select_one f g [] q h k = cc
select-select_one f g (x ∷ xs) q h k = elim (Bool-cases (f x)) [
  | inl e ↦
      let first : x ≡ q = ground (arith, h, e) in
      let rest : select f xs ≡ [] = ground (arith, h, e) in
      let kept : g x ≡ true = ap g first ∙ k in
      ground (arith, e, first, kept, select-select_nil f g xs rest)
  | inr e ↦ ground (arith, e, h, select-select_one f g xs q (ground (arith, h, e)) k)
]

-- A receipt is still the one that is found when the expired ones are dropped and one of another
-- request is added.
find_receipt-kept :
    (issuer actor operation : ℕ) (g : Receipt → Bool) (r q : Receipt) (rows : List Receipt)
    → find_receipt issuer actor operation rows ≡ ok (some q)
    → g q ≡ true
    → is_receipt issuer actor operation r ≡ false
    → find_receipt issuer actor operation (select g rows ++ r ∷ []) ≡ ok (some q)
unfolding find_receipt
find_receipt-kept issuer actor operation g r q rows h k other = rw (
  select-append (is_receipt issuer actor operation) (select g rows) (r ∷ []),
  select-select_one (is_receipt issuer actor operation) g rows q (only-some _ q h) k,
  other,
)

-- Other mutations that were answered one after another, each before a time.
pub data Others (w : World) (env : Surroundings) (operation expires : ℕ) (s : Files)
    : Files → Type 0 where
  untouched : Others w env operation expires s s
  answered :
      {t u : Files} (d : Writes) (op : Mutation) (p : Payload) (issuer : ℕ) (actor : String)
      (b : Result Bool) (now : ℕ) (r : Reply)
      → Others w env operation expires s t
      → (mutate_policy w env d op p issuer actor b now t).0 ≡ ok r
      → (mutate_policy w env d op p issuer actor b now t).1 ≡ u
      → p.operation_id ≢ operation
      → ltb now expires ≡ true
      → Others w env operation expires s u

module _ (w : World) (env : Surroundings) (op : Mutation) (p : Payload) (issuer : ℕ)
    (actor : String) (reflexive : (v : Versioned) → w.equal v v ≡ true) (d' : Writes) (now' : ℕ)
    (q : Receipt) where
  abbrev Served : Files → Type 0
  Served t = IsServed w env d' op p issuer actor (ok true) now' q t

  Served-answered :
      (d : Writes) (op2 : Mutation) (p2 : Payload) (issuer2 : ℕ) (actor2 : String) (b : Result Bool)
      (now : ℕ) (t : Files) (r : Reply)
      → Served t
      → (mutate_policy w env d op2 p2 issuer2 actor2 b now t).0 ≡ ok r
      → p2.operation_id ≢ p.operation_id
      → ltb now q.expires_at ≡ true
      → Served (mutate_policy w env d op2 p2 issuer2 actor2 b now t).1
  unfolding receipt_in
  Served-answered d op2 p2 issuer2 actor2 b now t r v h differs unexpired =
      by_receipt a.earlier a.same
    where
      a : Answered w env d op2 p2 issuer2 actor2 b now t r
      a = mutate_policy-Answered w env d op2 p2 issuer2 actor2 b now t r h

      one : a.store ≡ v.store
      one = cc (a.found, v.found)

      by_receipt :
          (o : Option Receipt)
          → mutate_policy w env d op2 p2 issuer2 actor2 b now t
            ≡ answer w env d op2 p2 issuer2 actor2 now a.store o t
          → Served (mutate_policy w env d op2 p2 issuer2 actor2 b now t).1
      by_receipt (some x) same =
          let (still, _, _, _, _) =
            answer-replay w env d op2 p2 issuer2 actor2 b now a.store x t r
              (ap (λ y. y.0) (sym same) ∙ h) in
          rw (ap (λ y. y.1) same ∙ still) v
      by_receipt none same =
          let done =
            answer-Done w env d op2 p2 issuer2 actor2 b now a.store t r
              (ap (λ y. y.0) (sym same) ∙ h) in
          let c = done.change in
          let (stored, quiet, proven) =
            commit-durable w d (current a.store) (current c.store) t (reflexive _) done.committed in
          let (requests, own, _) =
            decide-receipt w env issuer2 actor2 op2 p2 now a.store c done.decided in
          let files = ap (λ y. y.1) same ∙ done.files in
          let before : find_receipt (issuer_digest w env issuer actor)
                (actor_digest w env issuer actor) p.operation_id a.store.policy_requests
              ≡ ok (some q) =
            rw one v.receipt in
          let another : is_receipt (issuer_digest w env issuer actor)
                (actor_digest w env issuer actor) p.operation_id c.receipt
              ≡ false =
            ground (arith, own, differs) in
          rw files (record {
            store = c.store;
            found = stored;
            valid = commit-valid w d (current a.store) (current c.store) t done.committed;
            sure = quiet;
            checked = v.checked;
            receipt = rw requests (
                find_receipt-kept (issuer_digest w env issuer actor)
                  (actor_digest w env issuer actor) p.operation_id
                  (λ (x : Receipt). ltb now x.expires_at) c.receipt q a.store.policy_requests before
                  unexpired another);
            request = v.request;
            proven = proven;
          })

  Served-Others : (s t : Files) → Others w env p.operation_id q.expires_at s t → Served s → Served t
  Served-Others s t untouched v = v
  Served-Others s t
        (answered {t = x} d op2 p2 issuer2 actor2 b now r before h same differs unexpired) v =
      rw (← same) (
        Served-answered d op2 p2 issuer2 actor2 b now x r (Served-Others s x before v) h differs
          unexpired)

  -- A request that was answered with a receipt is answered with the same receipt when it comes again,
  -- authorized, before the receipt expires, whatever mutations under other operation identities were
  -- answered in between, each before that time: as a repetition, whatever the writes would do, and
  -- with no change to any file. The comparison of documents is assumed to be reflexive.
  pub mutate_policy-again :
      (d : Writes) (b : Result Bool) (now : ℕ) (s t : Files) (r : Reply)
      → (mutate_policy w env d op p issuer actor b now s).0 ≡ ok r
      → r.receipt ≡ some q
      → Others w env p.operation_id q.expires_at
          (mutate_policy w env d op p issuer actor b now s).1
          t
      → is_timestamp now' ≡ true
      → ltb now' q.expires_at ≡ true
      → (r' : Reply) × (mutate_policy w env d' op p issuer actor (ok true) now' t ≡ (ok r', t))
        × (r'.result ≡ replayed)
        × (r'.receipt ≡ some q)
  mutate_policy-again d b now s t r h k between timely e =
      mutate_policy-of_IsServed w env d' op p issuer actor (ok true) now' q t
        (Served-Others _ t between
          (IsServed-after w env op p issuer actor reflexive d b now now' s r q h k d'))
        refl timely e
