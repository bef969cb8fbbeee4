-- ===== src/Policy/Decisions.antt =====
-- The change that `mutate_policy` of pi4/lib/hioc/asset_policy.py decides on.
use hioc.Base.{
  ℕ, ◌+◌, String, ◌≡◌, ◌≢◌, refl, Bool, true, false, Option, none, some, List, [], ◌∷◌, ◌++◌, arith,
  Result, ok, err, ap, ◌∙◌, nat_key, ◌==◌, ltb, select, lookup, insert, Dict, lookup-insert_self,
  lookup-insert_ne, if◌then◌else◌,
}
use hioc.Contract.{Receipt}
use hioc.Policy.Types.{World, Store, Payload, Record, operator_ha}
use hioc.Policy.Service.{
  Surroundings, Mutation, create, update, no_policy, no_fields, is_unchanged, find_receipt,
  payload_json, Change, decide, issuer_digest, actor_digest, put_record, sort_assets, sort_insert,
  next_record, apply_patch, is_expected, is_receipt, only,
}

lookup-sort_insert {ℓ} :
    {V : Type ℓ} (k j : ℕ) (v : V) (d : Dict ℕ V)
    → lookup k (sort_insert j v d) ≡ (if k == j then some v else lookup k d)
unfolding sort_insert
lookup-sort_insert k j v [] = refl
lookup-sort_insert k j v ((i, u) ∷ d) = ground (arith, lookup-sort_insert k j v d)

lookup-sort_assets {ℓ} : {V : Type ℓ} (k : ℕ) (d : Dict ℕ V) → lookup k (sort_assets d) ≡ lookup k d
unfolding sort_assets
lookup-sort_assets k [] = refl
lookup-sort_assets k ((j, v) ∷ d) =
    lookup-sort_insert k j v (sort_assets d)
    ∙ ap (λ x. if k == j then some v else x) (lookup-sort_assets k d)

pub select-append {ℓ} :
    {A : Type ℓ} (f : A → Bool) (xs ys : List A) → select f (xs ++ ys) ≡ select f xs ++ select f ys
select-append f [] ys = refl
select-append f (x ∷ xs) ys = ground (arith, select-append f xs ys)

-- What a selection does not find, it does not find in a part.
pub select-select_nil {ℓ} :
    {A : Type ℓ} (f g : A → Bool) (xs : List A) → select f xs ≡ [] → select f (select g xs) ≡ []
select-select_nil f g [] h = refl
select-select_nil f g (x ∷ xs) h = ground (arith, select-select_nil f g xs)

only-nil : (rows : List Receipt) → only rows ≡ ok none → rows ≡ []
only-nil [] h = refl
only-nil (r ∷ []) h = cc
only-nil (r ∷ q ∷ rows) h = cc

-- A receipt that is added to a part of the store's is the one that is found.
pub find_receipt-added :
    (issuer actor operation : ℕ) (g : Receipt → Bool) (r : Receipt) (rows : List Receipt)
    → find_receipt issuer actor operation rows ≡ ok none
    → is_receipt issuer actor operation r ≡ true
    → find_receipt issuer actor operation (select g rows ++ r ∷ []) ≡ ok (some r)
unfolding find_receipt
find_receipt-added issuer actor operation g r rows h k =
    let nothing = only-nil _ h in
    rw (
      select-append (is_receipt issuer actor operation) (select g rows) (r ∷ []),
      select-select_nil (is_receipt issuer actor operation) g rows nothing,
      k,
    )

module _ (w : World) (env : Surroundings) (issuer : ℕ) (actor : String) (op : Mutation)
    (p : Payload) (now : ℕ) (s : Store) (c : Change) where
  pub decide-receipt :
      decide w env issuer actor op p now s ≡ ok c
      → (c.store.policy_requests
          ≡ select (λ (r : Receipt). ltb now r.expires_at) s.policy_requests ++ c.receipt ∷ [])
        × (is_receipt
              (issuer_digest w env issuer actor)
              (actor_digest w env issuer actor)
              p.operation_id
              c.receipt
            ≡ true)
        × (c.receipt.request_sha256 ≡ w.digest (payload_json p))
  unfolding decide put_record
  decide-receipt h = ground arith

  pub decide-revision :
      decide w env issuer actor op p now s ≡ ok c
      → (s.store_revision ≡ p.expected_store_revision)
        × (s.store_epoch ≡ p.store_epoch)
        × (c.store.store_epoch ≡ s.store_epoch)
        × (c.store.store_revision ≡ s.store_revision + 1)
        × (is_expected op p.expected_revision (lookup p.asset s.assets) ≡ true)
  unfolding decide put_record
  decide-revision h = ground arith

  pub decide-record :
      decide w env issuer actor op p now s ≡ ok c
      → (r : Record) × (next_record now p.asset p.fields (lookup p.asset s.assets)
          ≡ ok (r, c.changed))
        × (c.store.assets ≡ sort_assets (insert p.asset r s.assets))
  unfolding decide put_record
  decide-record h = next (next_record now p.asset p.fields (lookup p.asset s.assets)) refl
    where
      next :
          (x : Result (Record × Bool))
          → next_record now p.asset p.fields (lookup p.asset s.assets) ≡ x
          → (r : Record) × (next_record now p.asset p.fields (lookup p.asset s.assets)
              ≡ ok (r, c.changed))
            × (c.store.assets ≡ sort_assets (insert p.asset r s.assets))
      next (err e) q = absurd (ground (arith, q))
      next (ok (r, b)) q = (r, ground (arith, q), ground (arith, q))

-- The record that a mutation leaves of the one that was there.
pub data Asked (op : Mutation) (p : Payload) (now : ℕ) (r : Record) : Option Record → Type 0 where
  made :
      op ≡ create
      → r.policy ≡ apply_patch p.fields no_policy
      → r.fields ≡ no_fields
      → r.revision ≡ 1
      → r.stable_device_id ≡ p.asset
      → r.created_at ≡ now
      → r.updated_at ≡ now
      → Asked op p now r none
  kept :
      {o : Record}
      → op ≡ update
      → p.expected_revision ≡ some o.revision
      → is_unchanged p.fields o.policy ≡ true
      → r ≡ record o { policy = apply_patch p.fields o.policy }
      → Asked op p now r (some o)
  changed :
      {o : Record}
      → op ≡ update
      → p.expected_revision ≡ some o.revision
      → is_unchanged p.fields o.policy ≡ false
      → r ≡ record o {
        policy = apply_patch p.fields o.policy;
        revision = o.revision + 1;
        updated_at = now;
        update_source = operator_ha;
      }
      → Asked op p now r (some o)

refuted : (x : Option ℕ) → is_expected update x none ≡ false
unfolding is_expected
refuted none = refl
refuted (some n) = refl

next_record-Asked :
    (op : Mutation) (p : Payload) (now : ℕ) (old : Option Record) (r : Record) (b : Bool)
    → is_expected op p.expected_revision old ≡ true
    → next_record now p.asset p.fields old ≡ ok (r, b)
    → Asked op p now r old
unfolding next_record is_expected
next_record-Asked create p now none r b e h =
    made refl (ground arith) (ground arith) (ground arith) (ground arith) (ground arith)
      (ground arith)
next_record-Asked update p now none r b e h = absurd (ground (arith, refuted p.expected_revision))
next_record-Asked create p now (some o) r b e h = cc
next_record-Asked update p now (some o) r b e h = by_revision p.expected_revision refl
  where
    by_change :
        p.expected_revision ≡ some o.revision
        → (c : Bool) → is_unchanged p.fields o.policy ≡ c
        → Asked update p now r (some o)
    by_change q true c = kept refl q c (ground (arith, c))
    by_change q false c = changed refl q c (ground (arith, c))

    by_revision : (x : Option ℕ) → p.expected_revision ≡ x → Asked update p now r (some o)
    by_revision none q = absurd (ground (arith, q))
    by_revision (some n) q = by_change (ground (arith, q)) _ refl

-- The assets of a decided change: the record of this asset, and every other one as it was.
pub decide-assets :
    (w : World) (env : Surroundings) (issuer : ℕ) (actor : String) (op : Mutation) (p : Payload)
    (now : ℕ) (s : Store) (c : Change)
    → decide w env issuer actor op p now s ≡ ok c
    → ((r : Record) × (lookup p.asset c.store.assets ≡ some r)
        × Asked op p now r (lookup p.asset s.assets))
      × ((k : ℕ) → k ≢ p.asset → lookup k c.store.assets ≡ lookup k s.assets)
decide-assets w env issuer actor op p now s c h =
    let (r, next, stored) = decide-record w env issuer actor op p now s c h in
    let (_, _, _, _, expected) = decide-revision w env issuer actor op p now s c h in
    (
      (
        r,
        ap (lookup p.asset) stored
            ∙ lookup-sort_assets p.asset (insert p.asset r s.assets)
            ∙ lookup-insert_self p.asset r s.assets,
        next_record-Asked op p now (lookup p.asset s.assets) r c.changed expected next,
      ),
      λ k other.
          ap (lookup k) stored
          ∙ lookup-sort_assets k (insert p.asset r s.assets)
          ∙ lookup-insert_ne k p.asset r s.assets other,
    )
