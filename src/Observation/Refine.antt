-- ===== src/Observation/Refine.antt =====
-- The file of pi4/lib/hioc/availability_observation.py as a log: what it holds for an asset and a
-- source is the last row that was ever committed for them.
use hioc.Base.{
  ◌≡◌, refl, sym, ◌∙◌, arith, Bool, Option, none, some, List, [], ◌∷◌, ◌++◌, ◌==◌, if◌then◌else◌,
  Dict, insert, values, lookup, lookup-insert_self, lookup-insert_ne, Result, ok, err, Bool-cases,
  inl, inr,
}
use text.Mathlib.TextPositions.{compare_refl}
use hioc.Contract.Disk.{Disk}
use hioc.Availability.Types.{Observation}
use hioc.Observation.Store.{
  Slot, same_slot_iff, slot_key, slot_of, is_before, put_all, place, sort_slots, Stored, absent,
  unreadable, holds, load, replace, merge, commit,
}

-- The last row of a slot.
unfoldable pub latest : Slot → List Observation → Option Observation
latest k [] = none
latest k (row ∷ rest) = elim (latest k rest) [
  | some later ↦ some later
  | none ↦ if k == slot_of row then some row else none
]

abbrev pub or_old : Option Observation → Option Observation → Option Observation
or_old none old = old
or_old (some v) old = some v

abbrev pub rows_of : Stored → List Observation
rows_of absent = []
rows_of unreadable = []
rows_of (holds rows) = rows

-- Each row stands under its own slot, once.
abbrev IsIndex : Dict Slot Observation → Type 0
IsIndex [] = Unit
IsIndex ((k, v) ∷ d) = (k ≡ slot_of v) × (lookup k d ≡ none) × IsIndex d

lookup-insert :
    (j k : Slot) (v : Observation) (d : Dict Slot Observation)
    → lookup j (insert k v d) ≡ (if j == k then some v else lookup j d)
lookup-insert j k v d = elim (Bool-cases (j == k)) [
  | inl same ↦
      rw ((same_slot_iff j k).0 same, (same_slot_iff k k).1 refl) (lookup-insert_self k v d)
  | inr other ↦
      rw other (lookup-insert_ne j k v d (λ e. ground (arith, other, same_slot_iff j k, e)))
]

insert-IsIndex :
    (v : Observation) (d : Dict Slot Observation) → IsIndex d → IsIndex (insert (slot_of v) v d)
insert-IsIndex v [] h = (refl, refl, tt)
insert-IsIndex v ((j, u) ∷ d) h = ground (
  arith,
  insert-IsIndex v d h.2,
  same_slot_iff (slot_of v) j,
  same_slot_iff j (slot_of v),
  lookup-insert j (slot_of v) v d,
)

-- The index after a list of valid rows.
put_all-latest :
    (k : Slot) (d e : Dict Slot Observation) (rows : List Observation)
    → put_all d rows ≡ ok e
    → lookup k e ≡ or_old (latest k rows) (lookup k d)
unfolding put_all latest
put_all-latest k d e [] h = ground arith
put_all-latest k d e (row ∷ rest) h = ground (
  arith,
  put_all-latest k (insert (slot_of row) row d) e rest,
  lookup-insert k (slot_of row) row d,
)

put_all-IsIndex :
    (d e : Dict Slot Observation) (rows : List Observation)
    → IsIndex d
    → put_all d rows ≡ ok e
    → IsIndex e
unfolding put_all
put_all-IsIndex d e [] i h = let same : d ≡ e = ground (arith, h) in rw (← same) i
put_all-IsIndex d e (row ∷ rest) i h =
    let after : put_all (insert (slot_of row) row d) rest ≡ ok e = ground (arith, h) in
    put_all-IsIndex (insert (slot_of row) row d) e rest (insert-IsIndex row d i) after

lookup-place :
    (j k : Slot) (v : Observation) (d : Dict Slot Observation)
    → lookup j (place k v d) ≡ (if j == k then some v else lookup j d)
unfolding place is_before
lookup-place j k v [] = ground arith
lookup-place j k v ((i, u) ∷ d) =
    ground
      (arith, lookup-place j k v d, same_slot_iff j k, same_slot_iff j i, compare_refl i.source)

lookup-sort_slots : (j : Slot) (d : Dict Slot Observation) → lookup j (sort_slots d) ≡ lookup j d
unfolding sort_slots
lookup-sort_slots j [] = refl
lookup-sort_slots j ((k, v) ∷ d) =
    ground (arith, lookup-place j k v (sort_slots d), lookup-sort_slots j d)

place-IsIndex :
    (v : Observation) (d : Dict Slot Observation)
    → IsIndex d
    → lookup (slot_of v) d ≡ none
    → IsIndex (place (slot_of v) v d)
unfolding place
place-IsIndex v [] h n = (refl, refl, tt)
place-IsIndex v ((j, u) ∷ d) h n = ground (
  arith,
  place-IsIndex v d h.2,
  lookup-place j (slot_of v) v d,
  same_slot_iff j (slot_of v),
  same_slot_iff (slot_of v) j,
)

sort_slots-IsIndex : (d : Dict Slot Observation) → IsIndex d → IsIndex (sort_slots d)
unfolding sort_slots
sort_slots-IsIndex [] h = tt
sort_slots-IsIndex ((k, v) ∷ d) h = rw h.0 (
    place-IsIndex v (sort_slots d) (sort_slots-IsIndex d h.2)
      (rw (lookup-sort_slots (slot_of v) d) (rw (← h.0) h.1)))

latest-values :
    (k : Slot) (d : Dict Slot Observation) → IsIndex d → latest k (values d) ≡ lookup k d
unfolding latest
latest-values k [] h = refl
latest-values k ((j, v) ∷ d) h = ground (arith, latest-values k d h.2, same_slot_iff k j)

latest-append :
    (k : Slot) (xs ys : List Observation) → latest k (xs ++ ys) ≡ or_old (latest k ys) (latest k xs)
unfolding latest
latest-append k [] ys = ground arith
latest-append k (x ∷ xs) ys = ground (arith, latest-append k xs ys)

or_old-none : (o : Option Observation) → or_old o none ≡ o
or_old-none none = refl
or_old-none (some v) = refl

load-latest :
    (f : Stored) (old : Dict Slot Observation) (k : Slot)
    → load f ≡ ok old
    → IsIndex old × (lookup k old ≡ latest k (rows_of f))
unfolding load latest
load-latest absent old k h =
    let same : [] ≡ old = ground (arith, h) in (rw (← same) tt, rw (← same))
load-latest unreadable old k h = cc
load-latest (holds rows) old k h =
    (put_all-IsIndex [] old rows tt h, put_all-latest k [] old rows h ∙ or_old-none (latest k rows))

-- What is written for a list of rows.
record IsMerged (f : Stored) (rows out : List Observation) : Type 0 where
  old : Dict Slot Observation
  new : Dict Slot Observation
  loaded : load f ≡ ok old
  put : put_all old rows ≡ ok new
  written : out ≡ values (sort_slots new)

merge-IsMerged :
    (oversized : List Observation → Bool) (f : Stored) (rows out : List Observation)
    → merge oversized f rows ≡ ok out
    → IsMerged f rows out
unfolding merge
merge-IsMerged oversized f rows out h = loads (load f) refl
  where
    puts :
        (old : Dict Slot Observation) (o : Result (Dict Slot Observation))
        → load f ≡ ok old
        → put_all old rows ≡ o
        → IsMerged f rows out
    puts old (err e) l q = absurd (ground (arith, h, l, q))
    puts old (ok new) l q = record {
      old = old;
      new = new;
      loaded = l;
      put = q;
      written = ground (arith, h, l, q);
    }

    loads : (o : Result (Dict Slot Observation)) → load f ≡ o → IsMerged f rows out
    loads (err e) l = absurd (ground (arith, h, l))
    loads (ok old) l = puts old (put_all old rows) l refl

IsMerged-latest :
    (f : Stored) (rows out : List Observation) (k : Slot)
    → IsMerged f rows out
    → latest k out ≡ latest k (rows_of f ++ rows)
IsMerged-latest f rows out k m =
    let (index, seen) = load-latest f m.old k m.loaded in
    rw m.written (
      latest-values k (sort_slots m.new)
        (sort_slots-IsIndex m.new (put_all-IsIndex m.old m.new rows index m.put))
      ∙ lookup-sort_slots k m.new
      ∙ put_all-latest k m.old m.new rows m.put
      ∙ rw seen (sym (latest-append k (rows_of f) rows)))

-- A commit that returns leaves for every asset and source the last row that was given for them, or
-- else what was there: the file stands for the log of all rows.
pub commit-latest :
    (oversized : List Observation → Bool) (disk : Disk) (rows : List Observation) (f f' : Stored)
    (k : Slot)
    → commit oversized disk rows f ≡ (ok tt, f')
    → latest k (rows_of f') ≡ latest k (rows_of f ++ rows)
unfolding commit replace
commit-latest oversized disk rows f f' k h = merged (merge oversized f rows) refl
  where
    merged :
        (o : Result (List Observation))
        → merge oversized f rows ≡ o
        → latest k (rows_of f') ≡ latest k (rows_of f ++ rows)
    merged (err e) q = absurd (ground (arith, h, q))
    merged (ok out) q =
        let same : f' ≡ holds out = ground (arith, h, q) in
        rw same (IsMerged-latest f rows out k (merge-IsMerged oversized f rows out q))
