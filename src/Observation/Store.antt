-- ===== src/Observation/Store.antt =====
-- `ObservationStore.commit` of pi4/lib/hioc/availability_observation.py: the last observation of
-- each asset and source, in the order of the keys.
use Prim.Native.Nat.{Ordering}
use Prim.Native.String.{compare}
use hioc.Base.{
  ℕ, ◌≡◌, ◌↔◌, arith, String, Bool, true, false, ◌&&◌, ◌||◌, List, [], ◌∷◌, leb, ltb, ◌==◌, Key,
  nat_key, text_key, if◌then◌else◌, Dict, insert, values, length, Result, ok, err, policy,
  store_unavailable, commit_unknown, busy, ◌>>=◌, ◌>>◌,
}
use hioc.Contract.{require_code}
use hioc.Contract.Disk.{Disk, synced, refused, torn}
use hioc.Availability.Types.{Observation}
use hioc.Availability.Validate.{validate_observation}

-- `(row['asset_id'], row['source_id'])`
pub record Slot : Type 0 where
  pub asset : ℕ
  pub source : String

abbrev pub same_slot : Slot → Slot → Bool
same_slot a b = a.asset == b.asset && a.source == b.source

pub same_slot_iff : (a b : Slot) → (same_slot a b ≡ true) ↔ (a ≡ b)
same_slot_iff a b = ground (arith, text_key.same_iff a.source b.source)

instance abbrev pub slot_key : Key Slot
slot_key = record { same = same_slot; same_iff = same_slot_iff }

abbrev pub slot_of : Observation → Slot
slot_of row = record { asset = row.asset; source = row.source_id }

-- The order of the keys: by asset, then by source.
unfoldable pub is_before : Slot → Slot → Bool
is_before a b =
    ltb a.asset b.asset
    || (a.asset == b.asset && (elim (compare a.source b.source) [ Ordering.lt ↦ true | _ ↦ false ]))

-- `current[...] = row` for each row, once it is valid.
unfoldable pub put_all : Dict Slot Observation → List Observation → Result (Dict Slot Observation)
put_all d [] = ok d
put_all d (row ∷ rest) = validate_observation row >> put_all (insert (slot_of row) row d) rest

unfoldable pub place : Slot → Observation → Dict Slot Observation → Dict Slot Observation
unfolding is_before
place k v [] = (k, v) ∷ []
place k v ((j, u) ∷ d) =
    let later = place k v d in if is_before j k then (j, u) ∷ later else (k, v) ∷ (j, u) ∷ d

-- `sorted(current)`
unfoldable pub sort_slots : Dict Slot Observation → Dict Slot Observation
unfolding place
sort_slots [] = []
sort_slots ((k, v) ∷ d) = place k v (sort_slots d)

-- The file: there is none, its reader refuses it, or it holds observations.
pub data Stored : Type 0 where
  absent unreadable : Stored
  holds : List Observation → Stored

unfoldable pub load : Stored → Result (Dict Slot Observation)
load absent = ok []
load unreadable = err (policy store_unavailable false)
load (holds rows) = put_all [] rows

-- The replacement of the file.
unfoldable pub replace : Disk → List Observation → Stored → Result (Unit {0}) × Stored
replace synced rows f = (ok tt, holds rows)
replace refused rows f = (err (policy store_unavailable false), f)
replace torn rows f = (err (policy commit_unknown true), holds rows)

-- The rows to write.
unfoldable pub merge :
    (List Observation → Bool) → Stored → List Observation → Result (List Observation)
unfolding load
merge oversized f observations = do
  old ← load f
  current ← put_all old observations
  require_code (leb (length current) 256) busy
  require_code (if oversized (values (sort_slots current)) then false else true) busy
  ok (values (sort_slots current))

abbrev write : Disk → Result (List Observation) → Stored → Result (Unit {0}) × Stored
write disk (err e) f = (err e, f)
write disk (ok rows) f = replace disk rows f

-- `commit`
unfoldable pub commit :
    (List Observation → Bool) → Disk → List Observation → Stored → Result (Unit {0}) × Stored
unfolding replace
commit oversized disk observations f = write disk (merge oversized f observations) f
