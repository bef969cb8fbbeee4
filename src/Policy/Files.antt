-- ===== src/Policy/Files.antt =====
-- The files of `PolicyStore` in pi4/lib/hioc/asset_policy.py and the steps that read and write
-- them. An operation runs under the Asset lock, may raise, and leaves the files as they then are.
-- A read of a file that is there succeeds, but for that of the status after a local edit; how that and
-- each write ends is an argument.
use hioc.Base.{
  ℕ, Bool, true, false, ◌&&◌, not, Option, none, some, List, [], ◌∷◌, ◌++◌, ◌==◌, nat_key,
  if◌then◌else◌, keys_of, length, select, contains, Error, policy, exception, Result, ok, err,
  commit_unknown, store_unavailable, validation_failed,
}
use hioc.Contract.Disk.{Disk, synced, refused, torn}
use hioc.Policy.Types.{
  Files, World, Versioned, legacy, current, unsupported, AssetStatus, online, degraded,
  inventory_unavailable, Marker, prepared, confirmed,
}
use hioc.Policy.Validate.{
  validate_versioned, validate_status, validate_transaction_status, is_confirmed,
}

abbrev pub M {ℓ} : Type ℓ → Type ℓ
M A = Files → Result A × Files

abbrev pub and_then {ℓ κ} :
    {A : Type ℓ} {B : Type κ} → Result A × Files → (A → M B) → Result B × Files
and_then (err e, s) f = (err e, s)
and_then (ok a, s) f = f a s

infixl 5 ◌>>=◌ ◌>>◌
abbrev pub ◌>>=◌ {ℓ κ} : {A : Type ℓ} {B : Type κ} → M A → (A → M B) → M B
◌>>=◌ m f s = and_then (m s) f

abbrev pub ◌>>◌ {ℓ κ} : {A : Type ℓ} {B : Type κ} → M A → M B → M B
m >> k = m >>= λ _. k

-- A step that touches no file.
abbrev pub lift {ℓ} : {A : Type ℓ} → Result A → M A
lift r s = (r, s)

abbrev pub uncertain_commit : Error
uncertain_commit = policy commit_unknown true

-- `if self.store.uncertain: raise PolicyError('COMMIT_UNKNOWN', uncertain=True)`
unfoldable pub certain : M (Unit {0})
certain s = (if s.uncertain then err uncertain_commit else ok tt, s)

-- `_replace_exact`
unfoldable pub replace : Disk → Result (Unit {0}) → (Files → Files) → M (Unit {0})
replace disk (err e) put s = (err e, s)
replace synced (ok _) put s = (ok tt, put s)
replace refused (ok _) put s = (err (policy store_unavailable false), s)
replace torn (ok _) put s = (err uncertain_commit, record (put s) { uncertain = true })

abbrev pub succeeds : Result (Unit {0}) → Bool
succeeds (ok _) = true
succeeds (err _) = false

abbrev pub epoch_of : Versioned → Option ℕ
epoch_of (current s) = some s.store_epoch
epoch_of _ = none

abbrev pub revision_of : Versioned → Option ℕ
revision_of (current s) = some s.store_revision
revision_of _ = none

abbrev pub is_second : Versioned → Bool
is_second (current s) = true
is_second _ = false

abbrev pub same_number : Option ℕ → Option ℕ → Bool
same_number none none = true
same_number (some a) (some b) = a == b
same_number _ _ = false

abbrev pub same_bool : Bool → Bool → Bool
same_bool true b = b
same_bool false b = not b

abbrev pub asset_ids : Versioned → List ℕ
asset_ids (legacy s) = keys_of s.assets
asset_ids (current s) = keys_of s.assets
asset_ids unsupported = []

-- The time of the status, the end of each write of a commit, in order, and whether the status can be
-- read once more after it.
pub record Writes : Type 0 where
  pub now : ℕ
  pub backup : Disk
  pub prepare : Disk
  pub store : Disk
  pub status : Disk
  pub rewitness : Disk
  pub confirm : Disk
  pub readable : Bool

module _ (w : World) where
  -- The document is valid, and no larger than a reader accepts.
  abbrev pub acceptable : Versioned → Result (Unit {0})
  acceptable v = elim (validate_versioned w v) as (λ _. Result (Unit {0})) [
    | err e ↦ err e
    | ok _ ↦ if w.oversized v then err (policy validation_failed false) else ok tt
  ]

  -- `load_store`
  unfoldable pub load_store : M Versioned
  load_store s = elim s.store [
    | none ↦ (err (policy store_unavailable false), s)
    | some v ↦ (
      elim (validate_versioned w v) as (λ _. Result Versioned) [ err e ↦ err e | ok _ ↦ ok v ],
      s,
    )
  ]

  unfoldable pub write_store : Disk → Versioned → M (Unit {0})
  write_store disk v = replace disk (acceptable v) (λ s. record s { store = some v })

  unfoldable pub write_status : Disk → AssetStatus → M (Unit {0})
  write_status disk st = replace disk (validate_status st) (λ s. record s { status = some st })

  unfoldable pub transaction_status : Disk → Marker → M (Unit {0})
  transaction_status disk m =
      replace disk (validate_transaction_status m) (λ s. record s { marker = some m })

  -- `create_backup(prior, read_bytes(store_path))`; a backup of this name and content that is
  -- there already counts as written.
  unfoldable pub create_backup : Disk → Versioned → M (Unit {0})
  create_backup disk prior s = elim s.store [
    | none ↦ (err exception, s)
    | some v ↦
        if w.equal v prior
        then replace disk (acceptable v) (λ t. record t { backups = t.backups ++ v ∷ [] }) s
        else (err (policy validation_failed false), s)
  ]

  -- The witness, the status and the store file belong together.
  unfoldable pub is_pair : Versioned → Marker → AssetStatus → Versioned → Bool
  is_pair store m st v =
      succeeds (validate_transaction_status m)
      && succeeds (validate_status st)
      && same_bool st.second (is_second store)
      && succeeds (acceptable v)
      && w.equal v store
      && is_confirmed m.phase
      && m.store_sha256 == w.store_sha v
      && same_number m.status_sha256 (some (w.status_sha st))
      && same_number m.store_epoch (epoch_of store)
      && same_number m.store_revision (revision_of store)

  abbrev pub pair_of : Versioned → Option Marker → Option AssetStatus → Option Versioned → Bool
  pair_of store (some m) (some st) (some v) = is_pair store m st v
  pair_of store _ _ _ = false

  -- `durability_pair_confirmed`: whatever raises proves nothing.
  unfoldable pub durable : Versioned → Files → Bool
  durable store s = pair_of store s.marker s.status s.store

  -- `make_status` after `inventory_context`: the orphans are the assets that no device has.
  unfoldable pub make_status : ℕ → Versioned → Option (List ℕ) → AssetStatus
  make_status now store none = record {
    second = is_second store;
    updated = now;
    status = degraded;
    asset_count = length (asset_ids store);
    orphaned_asset_count = none;
    invalid_record_count = 0;
    error_code = some inventory_unavailable;
  }
  make_status now store (some ids) = record {
    second = is_second store;
    updated = now;
    status = online;
    asset_count = length (asset_ids store);
    orphaned_asset_count = some (length (select (λ k. not (contains k ids)) (asset_ids store)));
    invalid_record_count = 0;
    error_code = none;
  }

  -- The witness that a rewritten status must carry on: a confirmed one of the store file.
  unfoldable pub kept_marker : Option Marker → Option Versioned → Option Marker
  kept_marker (some m) (some v) =
      if succeeds (validate_transaction_status m)
        && is_confirmed m.phase
        && m.store_sha256 == w.store_sha v
      then some m
      else none
  kept_marker _ _ = none

  -- The digest of the status file; a file that is not there raises.
  abbrev pub status_digest : Files → Result ℕ
  status_digest s = elim s.status as (λ _. Result ℕ) [
    | none ↦ err exception
    | some st ↦ ok (w.status_sha st)
  ]

  abbrev pub rewitness : Disk → Option Marker → M (Unit {0})
  rewitness disk none s = (ok tt, s)
  rewitness disk (some m) s =
      and_then (status_digest s, s)
        (λ d. transaction_status disk (record m { status_sha256 = some d }))

  -- `PolicyService._write_status`
  unfoldable pub refresh_status : Writes → Versioned → M (Unit {0})
  refresh_status d store s =
      and_then (write_status d.status (make_status d.now store s.inventory) s)
        (λ _. rewitness d.rewitness (kept_marker s.marker s.store))

  abbrev pub marker_of : Versioned → Marker
  marker_of v = record {
    phase = prepared;
    store_sha256 = w.store_sha v;
    status_sha256 = none;
    store_epoch = epoch_of v;
    store_revision = revision_of v;
  }

  -- The steps inside the `try` of `_commit`.
  unfoldable pub confirm : Writes → Versioned → M (Unit {0})
  confirm d updated = refresh_status d updated >> (λ s.
      and_then (status_digest s, s)
        (λ h.
          transaction_status d.confirm
            (record (marker_of updated) { phase = confirmed; status_sha256 = some h })))

  -- Whatever it raises, the outcome is unknown.
  unfoldable pub or_unknown : Result (Unit {0}) × Files → Result (Unit {0}) × Files
  or_unknown (ok u, s) = (ok u, s)
  or_unknown (err e, s) = (err uncertain_commit, record s { uncertain = true })

  unfoldable pub require_durable : Versioned → M (Unit {0})
  require_durable prior s =
      (if is_second prior && not (durable prior s) then err uncertain_commit else ok tt, s)

  -- `_commit`
  unfoldable pub commit : Writes → Versioned → Versioned → M (Unit {0})
  commit d prior updated = do
    certain
    require_durable prior
    lift (validate_versioned w updated)
    create_backup d.backup prior
    transaction_status d.prepare (marker_of updated)
    write_store d.store updated
    λ s. or_unknown (confirm d updated s)
