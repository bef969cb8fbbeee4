-- ===== src/Availability/Counters.antt =====
-- How the counters of `evaluate` (pi4/lib/hioc/availability.py) move.
use hioc.Base.{
  ℕ, String, ◌≡◌, refl, ◌⊎◌, inl, inr, Bool, true, false, not, ◌&&◌, Option, none, some, List, [],
  ◌∷◌, arith, Result, ok, err, policy, exception, >>=-eq-ok, Bool-cases, if_intro, try_else_intro,
  Result, err, lookup, text_key, select, ◌==◌, min, leb, ltb, length,
}
use hioc.Contract.{require, add_seconds}
use hioc.Contract.Json.{Json}
use hioc.Availability.Types.{
  Policy, Attachment, Profile, Definition, Observation, SourceState, Machine, Evaluation, Status,
  Reason, not_monitored, operator_disabled, unknown_identity, clock_reversed, missing_profile,
  invalid_profile, is_device, is_true, is_strong, source_unavailable, is_success, is_complete,
}
use hioc.Availability.Digests.{baseline_json}
use hioc.Availability.Validate.{validate_profile}
use hioc.Availability.Evidence.{IsAhead, IsFair, Fair, scan-Fair}
use hioc.Availability.Evaluate.{
  Call, Scan, Round, proceed, with_definition, next, stopped, raised, outcome, finish, check_row,
  expire, with_limit, earliest, admit, track, scan_row, scan_found, scan_source, scan, judge,
  judge_positive, judge_negative, count_positive, count_negative, conclude, rebind, evaluate_valid,
  checked, with_profile, evaluate_from, forget,
}

-- The counters as they were, or started again.
abbrev pub KeptOrReset : Machine → Machine → Type 0
KeptOrReset m m' =
    ((m'.negative_count ≡ m.negative_count)
      × (m'.positive_count ≡ m.positive_count)
      × (m'.negative_since ≡ m.negative_since))
    ⊎ ((m'.negative_count ≡ 0) × (m'.positive_count ≡ 0) × (m'.negative_since ≡ none))

KeptOrReset-trans : (a b c : Machine) → KeptOrReset a b → KeptOrReset b c → KeptOrReset a c
KeptOrReset-trans a b c h k = ground arith

-- What a round leaves of the counters.
abbrev pub Keeps : Machine → Round → Type 0
Keeps m (next s) = KeptOrReset m s.machine
Keeps m (stopped r s) = KeptOrReset m s.machine
Keeps m (raised e) = Unit

track-Keeps :
    (source : String) (row : Observation) (physical : Bool) (last : Option SourceState) (s : Scan)
    → Keeps s.machine (track source row physical last s)
unfolding track admit
track-Keeps source row physical none s = inl (refl, refl, refl)
track-Keeps source row physical (some last) s = ground arith

expire-Keeps :
    (d : Definition) (now : ℕ) (source : String) (row : Observation) (actual : ℕ) (s : Scan)
    → Keeps s.machine (expire d now source row actual s)
unfolding expire
expire-Keeps d now source row actual s =
    if_intro (Keeps s.machine) (leb actual now) _ _ (λ _. inl (refl, refl, refl))
      (λ _.
        track-Keeps source row (is_device row.scope && d.physical_device_authority)
          (lookup source s.machine.sources) (record s { deadline = earliest s.deadline actual }))

with_limit-Keeps :
    (m : Machine) (r : Result ℕ) (rest : ℕ → Round)
    → ((n : ℕ) → Keeps m (rest n))
    → Keeps m (with_limit r rest)
with_limit-Keeps m (ok n) rest h = h n
with_limit-Keeps m (err e) rest h = tt

with_definition-Keeps :
    (m : Machine) (d : Option Definition) (rest : Definition → Round)
    → ((d : Definition) → Keeps m (rest d))
    → Keeps m (with_definition d rest)
with_definition-Keeps m none rest h = tt
with_definition-Keeps m (some d) rest h = h d

Keeps-trans : (a b : Machine) (r : Round) → KeptOrReset a b → Keeps b r → Keeps a r
Keeps-trans a b (next s) h k = KeptOrReset-trans a b s.machine h k
Keeps-trans a b (stopped r s) h k = KeptOrReset-trans a b s.machine h k
Keeps-trans a b (raised e) h k = tt

proceed-Keeps :
    (m : Machine) (r : Round) (rest : Scan → Round)
    → Keeps m r
    → ((s : Scan) → Keeps s.machine (rest s))
    → Keeps m (proceed r rest)
proceed-Keeps m (next s) rest h k = Keeps-trans m s.machine (rest s) h (k s)
proceed-Keeps m (stopped r s) rest h k = h
proceed-Keeps m (raised e) rest h k = tt

module _ (digest : Json → ℕ) (p : Policy) where
  scan_row-Keeps :
      (d : Definition) (now : ℕ) (source : String) (row : Observation) (s : Scan)
      → Keeps s.machine (scan_row digest p d now source row s)
  unfolding scan_row
  scan_row-Keeps d now source row s =
      try_else_intro (Keeps s.machine) (check_row digest p d now source row) _ _
        (λ _ _.
          if_intro (Keeps s.machine)
            (not (is_success row.collection_status && is_complete row.completeness))
            (stopped source_unavailable s) _ (λ _. inl (refl, refl, refl))
            (λ _.
              with_limit-Keeps s.machine (add_seconds row.observed_at d.max_age_seconds) _
                (λ limit. expire-Keeps d now source row (min row.valid_until limit) s)))
        (inl (refl, refl, refl))

  scan_found-Keeps :
      (d : Definition) (now : ℕ) (source : String) (rows : List Observation) (s : Scan)
      → Keeps s.machine (scan_found digest p d now source rows s)
  unfolding scan_found
  scan_found-Keeps d now source [] s = inl (refl, refl, refl)
  scan_found-Keeps d now source (row ∷ []) s = scan_row-Keeps d now source row s
  scan_found-Keeps d now source (row ∷ other ∷ rows) s = inl (refl, refl, refl)

  scan_source-Keeps :
      (f : Profile) (rows : List Observation) (now : ℕ) (source : String) (s : Scan)
      → Keeps s.machine (scan_source digest p f rows now source s)
  unfolding scan_source
  scan_source-Keeps f rows now source s =
      with_definition-Keeps s.machine (lookup source f.source_definitions) _
        (λ d. scan_found-Keeps d now source (select (λ row. row.source_id == source) rows) s)

  scan-Keeps :
      (f : Profile) (rows : List Observation) (now : ℕ) (sources : List String) (s : Scan)
      → Keeps s.machine (scan digest p f rows now sources s)
  unfolding scan
  scan-Keeps f rows now [] s = inl (refl, refl, refl)
  scan-Keeps f rows now (source ∷ rest) s =
      proceed-Keeps s.machine (scan_source digest p f rows now source s) _
        (scan_source-Keeps f rows now source s) (λ s'. scan-Keeps f rows now rest s')

-- The outcome of a call that did not raise.
pub finish-eq-ok :
    (c : Call) (m : Machine) (deadline : Option ℕ) (status : Status) (reason : Reason)
    {r : Evaluation}
    → finish c m deadline status reason ≡ ok r
    → r ≡ outcome c m deadline status reason
unfolding finish
finish-eq-ok c m deadline status reason h = ground arith

-- One of the counters is 0, and the first negative has a time exactly while negatives count.
pub record IsCounted (m : Machine) : Type 0 where
  pub exclusive : (m.negative_count ≡ 0) ⊎ (m.positive_count ≡ 0)
  pub timed : m.negative_since ≡ none → m.negative_count ≡ 0
  pub untimed : m.negative_count ≡ 0 → m.negative_since ≡ none

pub judge-IsCounted :
    (c : Call) (f : Profile) (case_open : Bool) (s : Scan) (r : Evaluation)
    → IsCounted s.machine
    → judge c f case_open s ≡ ok r
    → IsCounted r.state
unfolding judge judge_positive judge_negative count_positive count_negative finish
judge-IsCounted c f case_open s r h e = ground arith

-- An outcome that rests on no evidence of the physical device.
abbrev pub is_pause : Status → Bool
is_pause Status.not_monitored = true
is_pause Status.unknown = true
is_pause _ = false

-- How an evaluation of the machine `m` came to its result.
pub data Evaluated (digest : Json → ℕ) (p : Policy) (a : Attachment) (profile : Option Profile)
    (rows : List Observation) (case_open : Bool) (c : Call) (m : Machine) (r : Evaluation)
    : Type 0 where
  paused :
      (m' : Machine) (deadline : Option ℕ) (status : Status) (reason : Reason)
      → KeptOrReset m m'
      → IsAhead c.now deadline
      → is_pause status ≡ true
      → r ≡ outcome c m' deadline status reason
      → Evaluated digest p a profile rows case_open c m r
  judged :
      (f : Profile) (s : Scan)
      → is_true p.expected_availability ≡ true
      → is_strong a ≡ true
      → profile ≡ some f
      → validate_profile f ≡ ok tt
      → KeptOrReset m s.machine
      → IsFair digest p f rows c.now s
      → judge c f case_open s ≡ ok r
      → Evaluated digest p a profile rows case_open c m r

rebind-KeptOrReset : (b : ℕ) (m : Machine) → KeptOrReset m (rebind b m)
unfolding rebind
rebind-KeptOrReset b m = ground arith

module _ (digest : Json → ℕ) (rows : List Observation) (p : Policy) (a : Attachment) (f : Profile)
    (case_open : Bool) (c : Call) (m : Machine) (r : Evaluation)
    (expected : is_true p.expected_availability ≡ true) (strong : is_strong a ≡ true)
    (valid : validate_profile f ≡ ok tt) where
  conclude-Evaluated :
      (round : Round)
      → Keeps m round
      → Fair digest p f rows c.now round
      → conclude c f case_open round ≡ ok r
      → Evaluated digest p a (some f) rows case_open c m r
  unfolding conclude
  conclude-Evaluated (next s) k h e = judged f s expected strong refl valid k h e
  conclude-Evaluated (stopped reason s) k h e =
      paused s.machine s.deadline Status.unknown reason k h.ahead refl
        (finish-eq-ok c s.machine s.deadline Status.unknown reason e)
  conclude-Evaluated (raised e) k h x = cc

evaluate_valid-Evaluated :
    (digest : Json → ℕ) (p : Policy) (a : Attachment) (f : Profile) (rows : List Observation)
    (case_open : Bool) (c : Call) (m : Machine) (r : Evaluation)
    → is_true p.expected_availability ≡ true
    → is_strong a ≡ true
    → validate_profile f ≡ ok tt
    → evaluate_valid digest p f rows case_open c m ≡ ok r
    → Evaluated digest p a (some f) rows case_open c m r
unfolding evaluate_valid
evaluate_valid-Evaluated digest p a f rows case_open c m r expected strong valid e =
    let (_, _, h) = >>=-eq-ok (require (leb (length rows) 256)) _ e in
    conclude-Evaluated digest rows p a f case_open c m r expected strong valid _
      (Keeps-trans m (rebind (digest (baseline_json p f)) m) _
        (rebind-KeptOrReset (digest (baseline_json p f)) m)
        (scan-Keeps digest p f rows c.now f.enabled_sources _))
      (scan-Fair digest p f rows c.now f.enabled_sources _ (record { kept = tt; ahead = tt })) h

checked-Evaluated :
    (digest : Json → ℕ) (p : Policy) (a : Attachment) (f : Profile) (rows : List Observation)
    (case_open : Bool) (c : Call) (m : Machine) (r : Evaluation)
    → is_true p.expected_availability ≡ true
    → is_strong a ≡ true
    → (v : Result Unit) → validate_profile f ≡ v
    → checked digest p f rows case_open c m v ≡ ok r
    → Evaluated digest p a (some f) rows case_open c m r
unfolding checked
checked-Evaluated digest p a f rows case_open c m r expected strong (err (policy x y)) v e =
    paused m none Status.unknown invalid_profile (inl (refl, refl, refl)) tt refl
      (finish-eq-ok c m _ _ _ e)
checked-Evaluated digest p a f rows case_open c m r expected strong (err exception) v e = cc
checked-Evaluated digest p a f rows case_open c m r expected strong (ok x) v e =
    evaluate_valid-Evaluated digest p a f rows case_open c m r expected strong v e

with_profile-Evaluated :
    (digest : Json → ℕ) (p : Policy) (a : Attachment) (profile : Option Profile)
    (rows : List Observation) (case_open : Bool) (c : Call) (m : Machine) (r : Evaluation)
    → is_true p.expected_availability ≡ true
    → is_strong a ≡ true
    → with_profile digest p profile rows case_open c m ≡ ok r
    → Evaluated digest p a profile rows case_open c m r
unfolding with_profile
with_profile-Evaluated digest p a none rows case_open c m r expected strong e =
    paused m none Status.unknown missing_profile (inl (refl, refl, refl)) tt refl
      (finish-eq-ok c m _ _ _ e)
with_profile-Evaluated digest p a (some f) rows case_open c m r expected strong e =
    checked-Evaluated digest p a f rows case_open c m r expected strong (validate_profile f) refl e

pub evaluate_from-Evaluated :
    (digest : Json → ℕ) (p : Policy) (a : Attachment) (profile : Option Profile)
    (rows : List Observation) (case_open : Bool) (c : Call) (m : Machine) (r : Evaluation)
    → evaluate_from digest p a profile rows case_open c m ≡ ok r
    → Evaluated digest p a profile rows case_open c m r
unfolding evaluate_from
evaluate_from-Evaluated digest p a profile rows case_open c m r e =
    elim (Bool-cases (is_true p.expected_availability)) [
      | inr off ↦
          paused (record (forget m) { expected = false }) none not_monitored operator_disabled
            (inr (refl, refl, refl)) tt refl (finish-eq-ok c _ _ _ _ (rw off at e))
      | inl expected ↦ elim (Bool-cases (is_strong a)) [
        | inr unsafe ↦
            paused m none Status.unknown unknown_identity (inl (refl, refl, refl)) tt refl
              (finish-eq-ok c m _ _ _ (rw (expected, unsafe) at e))
        | inl strong ↦ elim (Bool-cases (ltb c.now m.evaluated_at)) [
          | inl reversed ↦
              paused (forget m) none Status.unknown clock_reversed (inr (refl, refl, refl)) tt refl
                (finish-eq-ok c _ _ _ _ (rw (expected, strong, reversed) at e))
          | inr forward ↦
              with_profile-Evaluated digest p a profile rows case_open c m r expected strong
                (rw (expected, strong, forward) at e)
        ]
      ]
    ]
