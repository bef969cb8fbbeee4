-- ===== src/Availability/Evidence.antt =====
-- What the loop of `evaluate` (pi4/lib/hioc/availability.py) has checked of the rows it keeps.
use mathlib.Core.List.{Memᴰ}
use hioc.Base.{
  ℕ, ◌+◌, ◌<◌, String, ◌≡◌, refl, sym, inl, inr, Bool, true, ◌&&◌, ◌++◌, not, Option, none, some,
  List, [], ◌∷◌, arith, ok, Bool-cases, if_intro, try_else_intro, contains, length, nat_key, lookup,
  text_key, select, ◌==◌, any, min, ltb, leb,
}
use hioc.Contract.{microseconds, is_timestamp, add_seconds}
use hioc.Contract.Json.{Json}
use hioc.Availability.Types.{
  Policy, Profile, Definition, Observation, SourceState, is_success, is_complete, is_device,
}
use hioc.Availability.Evaluate.{
  Scan, Round, reset_counts, expire, with_limit, next, stopped, raised, proceed, with_definition,
  earliest, admit, track, check_row, scan_row, scan_found, scan_source, scan,
}

abbrev pub All {ℓ κ} : {A : Type ℓ} → (A → Type κ) → List A → Type κ
All P [] = Unit
All P (x ∷ xs) = P x × All P xs

All-append {ℓ κ} :
    {A : Type ℓ} (P : A → Type κ) (xs ys : List A) → All P xs → All P ys → All P (xs ++ ys)
All-append P [] ys hx hy = hy
All-append P (x ∷ xs) ys hx hy = (hx.0, All-append P xs ys hx.1 hy)

pub any-All {ℓ κ} :
    {A : Type ℓ} (P : A → Type κ) (q : A → Bool) (xs : List A)
    → any q xs ≡ true
    → All P xs
    → (x : A) × P x × (q x ≡ true)
any-All P q [] h all = cc
any-All P q (x ∷ xs) h all = elim (Bool-cases (q x)) [
  | inl here ↦ (x, all.0, here)
  | inr later ↦ any-All P q xs (rw later at h) all.1
]

cons_head {ℓ} : {A : Type ℓ} {x y : A} {xs ys : List A} → x ∷ xs ≡ y ∷ ys → x ≡ y
cons_head h = cc

select_found {ℓ} :
    {A : Type ℓ} (q : A → Bool) (xs : List A) {x : A} {rest : List A}
    → select q xs ≡ x ∷ rest
    → Memᴰ x xs × (q x ≡ true)
select_found q [] h = cc
select_found q (y ∷ xs) {x} {rest} h = elim (Bool-cases (q y)) [
  | inl here ↦ let e : y ≡ x = cons_head (rw here at h) in (Memᴰ.head (sym e), rw (← e) here)
  | inr later ↦ let (m, e) = select_found q xs (rw later at h) in (Memᴰ.tail m, e)
]

-- A row that the loop has kept: it stands among the observations, it passed every check against
-- its source's definition, its collection succeeded and it has not expired.
pub record IsEvidence (digest : Json → ℕ) (p : Policy) (f : Profile) (rows : List Observation)
    (now : ℕ) (row : Observation) (physical : Bool) : Type 0 where
  pub source : String
  pub definition : Definition
  pub defined : lookup source f.source_definitions ≡ some definition
  pub observed : Memᴰ row rows
  pub named : (row.source_id == source) ≡ true
  pub checked : check_row digest p definition now source row ≡ ok tt
  pub collected : is_success row.collection_status && is_complete row.completeness ≡ true
  pub fresh : now < min row.valid_until (row.observed_at + microseconds definition.max_age_seconds)
  pub of_device : physical ≡ (is_device row.scope && definition.physical_device_authority)

abbrev pub IsAhead : ℕ → Option ℕ → Type 0
IsAhead now none = Unit
IsAhead now (some t) = now < t

earliest-IsAhead :
    (now : ℕ) (o : Option ℕ) (t : ℕ) → IsAhead now o → now < t → IsAhead now (earliest o t)
earliest-IsAhead now none t h k = k
earliest-IsAhead now (some s) t h k = omega arith

module _ (digest : Json → ℕ) (p : Policy) (f : Profile) (rows : List Observation) (now : ℕ) where
  abbrev pub Kept : Observation × Bool → Type 0
  Kept u = IsEvidence digest p f rows now u.0 u.1

  -- The variables of the loop hold checked rows, and a deadline that lies ahead.
  pub record IsFair (s : Scan) : Type 0 where
    pub kept : All Kept s.usable
    pub ahead : IsAhead now s.deadline

  abbrev pub Fair : Round → Type 0
  Fair (next s) = IsFair s
  Fair (stopped r s) = IsFair s
  Fair (raised e) = Unit

  admit-Fair :
      (source : String) (row : Observation) (physical : Bool) (retired : List ℕ) (s : Scan)
      → Kept (row, physical)
      → IsFair s
      → Fair (admit source row physical retired s)
  unfolding admit
  admit-Fair source row physical retired s k h = record {
    kept = All-append Kept s.usable _ h.kept (k, tt);
    ahead = h.ahead;
  }

  track-Fair :
      (source : String) (row : Observation) (physical : Bool) (last : Option SourceState) (s : Scan)
      → Kept (row, physical)
      → IsFair s
      → Fair (track source row physical last s)
  unfolding track
  track-Fair source row physical none s k h = admit-Fair source row physical [] s k h
  track-Fair source row physical (some last) s k h =
      if_intro Fair (contains row.source_epoch last.retired_epochs) _ _ (λ _. h)
        (λ _.
          if_intro Fair (not (last.source_epoch == row.source_epoch)) _ _
            (λ _.
              if_intro Fair (ltb (length last.retired_epochs) 16) _ _
                (λ _.
                  admit-Fair source row physical _ (record s { machine = reset_counts s.machine }) k
                    (record { kept = h.kept; ahead = h.ahead }))
                (λ _. tt))
            (λ _.
              if_intro Fair
                (ltb last.observed_at row.observed_at && not (row.sample_id == last.sample_id)) _ _
                (λ _. admit-Fair source row physical last.retired_epochs s k h)
                (λ _.
                  if_intro Fair (ltb row.observed_at last.observed_at) _ _ (λ _. h)
                    (λ _. record {
                      kept = All-append Kept s.usable _ h.kept (k, tt);
                      ahead = h.ahead;
                    }))))

  expire-Fair :
      (d : Definition) (source : String) (row : Observation) (actual : ℕ) (s : Scan)
      → (now < actual → Kept (row, (is_device row.scope && d.physical_device_authority)))
      → IsFair s
      → Fair (expire d now source row actual s)
  unfolding expire
  expire-Fair d source row actual s k h =
      if_intro Fair (leb actual now) _ _ (λ _. record { kept = h.kept; ahead = h.ahead })
        (λ later.
          let ahead : now < actual = ground arith in
          track-Fair source row (is_device row.scope && d.physical_device_authority)
            (lookup source s.machine.sources) _ (k ahead)
            (record {
              kept = h.kept;
              ahead = earliest-IsAhead now s.deadline actual h.ahead ahead;
            }))

  with_limit-Fair :
      (t seconds : ℕ) (rest : ℕ → Round)
      → Fair (rest (t + microseconds seconds))
      → Fair (with_limit (add_seconds t seconds) rest)
  with_limit-Fair t seconds rest h = elim (Bool-cases (is_timestamp (t + microseconds seconds))) [
    | inl fits ↦ rw fits h
    | inr over ↦ rw over tt
  ]

  scan_row-Fair :
      (d : Definition) (source : String) (row : Observation) (s : Scan)
      → lookup source f.source_definitions ≡ some d
      → Memᴰ row rows
      → (row.source_id == source) ≡ true
      → IsFair s
      → Fair (scan_row digest p d now source row s)
  unfolding scan_row
  scan_row-Fair d source row s defined m named h =
      try_else_intro Fair (check_row digest p d now source row) _ _
        (λ _ checked.
          if_intro Fair (not (is_success row.collection_status && is_complete row.completeness)) _ _
            (λ _. h)
            (λ collected. with_limit-Fair row.observed_at d.max_age_seconds _ (
              expire-Fair d source row _ s
                (λ ahead. record {
                  source = source;
                  definition = d;
                  defined = defined;
                  observed = m;
                  named = named;
                  checked = checked;
                  collected = ground arith;
                  fresh = ahead;
                  of_device = refl;
                })
                h)))
        h

  scan_found-Fair :
      (d : Definition) (source : String) (found : List Observation) (s : Scan)
      → lookup source f.source_definitions ≡ some d
      → select (λ row. row.source_id == source) rows ≡ found
      → IsFair s
      → Fair (scan_found digest p d now source found s)
  unfolding scan_found
  scan_found-Fair d source [] s defined e h = h
  scan_found-Fair d source (row ∷ []) s defined e h =
      let (m, named) = select_found (λ row. row.source_id == source) rows e in
      scan_row-Fair d source row s defined m named h
  scan_found-Fair d source (row ∷ other ∷ more) s defined e h = h

  with_definition-Fair :
      (d : Option Definition) (rest : Definition → Round)
      → ((x : Definition) → d ≡ some x → Fair (rest x))
      → Fair (with_definition d rest)
  with_definition-Fair none rest h = tt
  with_definition-Fair (some x) rest h = h x refl

  proceed-Fair :
      (r : Round) (rest : Scan → Round)
      → Fair r
      → ((s : Scan) → IsFair s → Fair (rest s))
      → Fair (proceed r rest)
  proceed-Fair (next s) rest h k = k s h
  proceed-Fair (stopped r s) rest h k = h
  proceed-Fair (raised e) rest h k = tt

  pub scan-Fair :
      (sources : List String) (s : Scan) → IsFair s → Fair (scan digest p f rows now sources s)
  unfolding scan scan_source
  scan-Fair [] s h = h
  scan-Fair (source ∷ rest) s h =
      proceed-Fair (scan_source digest p f rows now source s) _
        (with_definition-Fair (lookup source f.source_definitions) _
          (λ d defined. scan_found-Fair d source _ s defined refl h))
        (λ s' h'. scan-Fair rest s' h')
