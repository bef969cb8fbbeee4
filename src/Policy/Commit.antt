-- ===== src/Policy/Commit.antt =====
-- What `_commit` of pi4/lib/hioc/asset_policy.py leaves in the files, when it returns and when it
-- raises.
use hioc.Base.{
  ℕ, ◌≡◌, refl, Bool, true, false, not, Option, none, some, List, [], ◌∷◌, ◌++◌, arith, ok, err,
  Error, policy, exception, nat_key,
}
use hioc.Policy.Types.{World, Files, Versioned}
use hioc.Policy.Validate.{validate_versioned}
use hioc.Policy.Files.{
  Writes, certain, replace, write_store, write_status, transaction_status, create_backup,
  require_durable, commit, confirm, acceptable, or_unknown, refresh_status, marker_of, durable,
  is_pair, make_status, kept_marker, same_number, same_bool, succeeds, is_second, epoch_of,
  revision_of,
}

-- The error says that the change was not applied: `error_response` answers `NOT_APPLIED`.
abbrev pub denies : Error → Bool
denies (policy c uncertain) = not uncertain
denies exception = true

same_number_self : (o : Option ℕ) → same_number o o ≡ true
same_number_self none = refl
same_number_self (some n) = ground arith

same_bool_self : (b : Bool) → same_bool b b ≡ true
same_bool_self true = refl
same_bool_self false = refl

make_status-second :
    (w : World) (now : ℕ) (v : Versioned) (ids : Option (List ℕ))
    → (make_status w now v ids).second ≡ is_second v
unfolding make_status
make_status-second w now v none = refl
make_status-second w now v (some ids) = refl

module _ (w : World) (d : Writes) (prior updated : Versioned) where
  -- A commit that raises without the mark of uncertainty has not touched the store.
  pub commit-denies :
      (s : Files) (e : Error)
      → (commit w d prior updated s).0 ≡ err e
      → denies e ≡ true
      → (commit w d prior updated s).1.store ≡ s.store
  unfolding commit certain require_durable create_backup transaction_status write_store replace
      or_unknown
  commit-denies s e h k = ground arith

  -- The files when the store has been replaced and its status has not.
  abbrev replaced : Files → Files
  replaced s = record s {
    store = some updated;
    marker = some (marker_of w updated);
    backups = elim s.store as (λ _. List Versioned) [
      | none ↦ s.backups
      | some v ↦ s.backups ++ v ∷ []
    ];
  }

  commit-replaced :
      (s : Files)
      → (commit w d prior updated s).0 ≡ ok tt
      → ((confirm w d updated (replaced s)).0 ≡ ok tt)
        × (s.uncertain ≡ false)
        × (succeeds (acceptable w updated) ≡ true)
        × ((commit w d prior updated s).1 ≡ (confirm w d updated (replaced s)).1)
  unfolding commit certain require_durable create_backup transaction_status write_store replace
      or_unknown
  commit-replaced s h = ground arith

  pub commit-valid :
      (s : Files) → (commit w d prior updated s).0 ≡ ok tt → validate_versioned w updated ≡ ok tt
  unfolding commit certain require_durable create_backup transaction_status write_store replace
  commit-valid s h = ground arith

  confirm-store :
      (t : Files)
      → (confirm w d updated t).0 ≡ ok tt
      → t.uncertain ≡ false
      → ((confirm w d updated t).1.store ≡ t.store)
        × ((confirm w d updated t).1.uncertain ≡ false)
        × ((confirm w d updated t).1.inventory ≡ t.inventory)
  unfolding confirm refresh_status write_status transaction_status replace kept_marker
  confirm-store t h k = ground arith

  confirm-durable :
      (t : Files)
      → (confirm w d updated t).0 ≡ ok tt
      → t.store ≡ some updated
      → t.marker ≡ some (marker_of w updated)
      → succeeds (acceptable w updated) ≡ true
      → w.equal updated updated ≡ true
      → durable w updated (confirm w d updated t).1 ≡ true
  unfolding confirm refresh_status write_status transaction_status replace kept_marker durable
      is_pair
  confirm-durable t h k m v e = ground (
    arith,
    same_number_self (epoch_of updated),
    same_number_self (revision_of updated),
    same_bool_self (is_second updated),
    make_status-second w d.now updated t.inventory,
  )

  -- A commit that returns has put the new store in its place, with a witness that proves it.
  pub commit-durable :
      (s : Files)
      → w.equal updated updated ≡ true
      → (commit w d prior updated s).0 ≡ ok tt
      → ((commit w d prior updated s).1.store ≡ some updated)
        × ((commit w d prior updated s).1.uncertain ≡ false)
        × (durable w updated (commit w d prior updated s).1 ≡ true)
  commit-durable s e h =
      let (done, sure, good, same) = commit-replaced s h in
      let (stored, quiet, _) = confirm-store (replaced s) done sure in
      rw same (stored, quiet, confirm-durable (replaced s) done refl refl good e)
