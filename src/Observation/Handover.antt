-- ===== src/Observation/Handover.antt =====
-- From a source to the file: what `collect` makes is what `ObservationProtocol` lets in, and what an
-- answer of it says of the file.
use hioc.Base.{
  ℕ, ◌≤◌, ◌≡◌, refl, arith, String, Bool, true, false, ◌&&◌, Option, none, some, List, nat_key,
  text_key, contains, lookup, min, Result, ok, err,
}
use hioc.Contract.{add_seconds}
use hioc.Contract.Json.{Json}
use hioc.Availability.Types.{
  Profile, Definition, Observation, Attachment, is_strong, is_negative, is_device,
}
use hioc.Availability.Validate.{validate_profile}
use hioc.Observation.Collect.{
  Mapping, Association, EntityState, read_state, read_report, interpret, find, is_valid, row_of,
  check_mapping, collect_one,
}
use hioc.Observation.Receive.{ObservationTrust, sources_of, fits, accept}

module _ (digest : Json → ℕ) (epoch now : ℕ)
    (states_get : String → Result (Option EntityState)) where
  report-observed :
      (d : Definition) (m : Mapping) (at : Option ℕ) (meaning : Option String)
      → (read_report digest epoch now d m at meaning).observed ≤ now
  unfolding read_report
  report-observed d m none none = omega arith
  report-observed d m none (some s) = omega arith
  report-observed d m (some t) none = omega arith
  report-observed d m (some t) (some s) = ground arith

  report-negative :
      (d : Definition) (m : Mapping) (at : Option ℕ) (meaning : Option String)
      → is_negative (read_report digest epoch now d m at meaning).kind ≡ true
      → (d.physical_device_authority && is_device m.scope) ≡ true
  unfolding read_report interpret
  report-negative d m none none h = cc
  report-negative d m none (some s) h = cc
  report-negative d m (some t) none h = cc
  report-negative d m (some t) (some s) h = ground arith

  state-observed :
      (d : Definition) (m : Mapping) (o : Result (Option EntityState))
      → (read_state digest epoch now d m o).observed ≤ now
  state-observed d m (err e) = omega arith
  state-observed d m (ok none) = omega arith
  state-observed d m (ok (some st)) = ground (arith, report-observed d m st.last_reported st.state)

  state-negative :
      (d : Definition) (m : Mapping) (o : Result (Option EntityState))
      → is_negative (read_state digest epoch now d m o).kind ≡ true
      → (d.physical_device_authority && is_device m.scope) ≡ true
  state-negative d m (err e) h = cc
  state-negative d m (ok none) h = cc
  state-negative d m (ok (some st)) h =
      ground (arith, h, report-negative d m st.last_reported st.state)

  -- What is found of a mapping was observed before now, and is negative only for a device whose
  -- source has authority over it.
  find-observed :
      (d : Definition) (m : Mapping) (safe : Bool)
      → (find digest epoch now states_get d m safe).observed ≤ now
  unfolding find
  find-observed d m false = omega arith
  find-observed d m true = state-observed d m (states_get m.entity_id)

  find-negative :
      (d : Definition) (m : Mapping) (safe : Bool)
      → is_negative (find digest epoch now states_get d m safe).kind ≡ true
      → (d.physical_device_authority && is_device m.scope) ≡ true
  unfolding find
  find-negative d m false h = cc
  find-negative d m true h = state-negative d m (states_get m.entity_id) h

module _ (digest : Json → ℕ) (epoch now : ℕ) (states_get : String → Result (Option EntityState))
    (p : Profile) (rows : List Association) (attachment : ℕ → Attachment) (deadline : ℕ) where
  record IsCollected (m : Mapping) (row : Observation) : Type 0 where
    definition : Definition
    limit : ℕ
    enabled : contains m.source_id p.enabled_sources ≡ true
    defined : lookup m.source_id p.source_definitions ≡ some definition
    checked : check_mapping digest epoch now p m definition ≡ ok tt
    made :
        row
        ≡ row_of digest epoch now definition m
            (find digest epoch now states_get definition m (is_valid attachment rows m))
            (min deadline limit)

  collect_one-IsCollected :
      (m : Mapping) (row : Observation)
      → collect_one digest epoch now states_get p rows attachment deadline m ≡ ok row
      → IsCollected m row
  unfolding collect_one
  collect_one-IsCollected m row h = defines (lookup m.source_id p.source_definitions) refl
    where
      limits :
          (d : Definition) (o : Result ℕ)
          → lookup m.source_id p.source_definitions ≡ some d
          → add_seconds
              (find digest epoch now states_get d m (is_valid attachment rows m)).observed
              d.max_age_seconds
            ≡ o
          → IsCollected m row
      limits d (err e) q l = absurd (ground (arith, h, q, l))
      limits d (ok limit) q l = record {
        definition = d;
        limit = limit;
        enabled = ground (arith, h, q, l);
        defined = q;
        checked = ground (arith, h, q, l);
        made = ground (arith, h, q, l);
      }

      defines :
          (o : Option Definition) → lookup m.source_id p.source_definitions ≡ o → IsCollected m row
      defines none q = absurd (ground (arith, h, q))
      defines (some d) q = limits d _ q refl

  -- The row of a mapping fits its definition, also at a later time.
  row-fits :
      (d : Definition) (m : Mapping) (safe : Bool) (limit later : ℕ)
      → now ≤ later
      → check_mapping digest epoch now p m d ≡ ok tt
      → fits digest
          (λ k. ok p)
          attachment
          later
          d
          (row_of digest epoch now d m (find digest epoch now states_get d m safe) limit)
        ≡ ok tt
  unfolding fits row_of check_mapping
  row-fits d m safe limit later h c = ground (
    arith,
    c,
    find-observed digest epoch now states_get d m safe,
    find-negative digest epoch now states_get d m safe,
  )

  -- A collected row is let in, at any later time, by a service that holds the same valid profile and
  -- finds the asset attached, under a trust that names the source.
  pub collect_one-accept :
      (m : Mapping) (row : Observation) (t : ObservationTrust) (later : ℕ)
      → collect_one digest epoch now states_get p rows attachment deadline m ≡ ok row
      → validate_profile p ≡ ok tt
      → is_strong (attachment m.asset) ≡ true
      → contains m.source_id (sources_of (lookup m.asset t.sources)) ≡ true
      → now ≤ later
      → accept digest (λ k. ok p) attachment t later row ≡ ok tt
  unfolding accept row_of
  collect_one-accept m row t later h v a c l =
      let x = collect_one-IsCollected m row h in
      let i = x.enabled in
      let j = x.defined in
      rw x.made (
        ground (
          arith,
          i,
          j,
          row-fits x.definition m (is_valid attachment rows m) (min deadline x.limit) later l
              x.checked,
        ))
