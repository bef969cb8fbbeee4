-- ===== src/Availability/Outage.antt =====
-- What an outage, a recovery and every other result of `evaluate`
-- (pi4/lib/hioc/availability.py) rest on.
use mathlib.Core.Path.{subst}
use hioc.Base.{
  ℕ, ◌+◌, ◌≤◌, ◌≡◌, refl, inl, Bool, true, false, Option, none, some, List, ap, ◌&&◌, arith, ok,
  >>=-eq-ok,
}
use hioc.Contract.{microseconds, asset_id, uuid4, timestamp}
use hioc.Contract.Json.{Json}
use hioc.Availability.Types.{
  Policy, Attachment, EvidenceKind, Profile, Observation, Machine, Evaluation, offline, available,
  is_true, is_strong, is_positive, is_negative,
}
use hioc.Availability.Validate.{validate_profile}
use hioc.Availability.Evaluate.{
  Call, Scan, judge, judge_positive, judge_negative, count_positive, count_negative, finish,
  has_evidence, elapsed, start, initial, evaluate, integer_or_raise,
}
use hioc.Availability.Evidence.{IsAhead, IsFair, IsEvidence, Kept, any-All}
use hioc.Availability.Counters.{
  IsCounted, Evaluated, paused, judged, evaluate_from-Evaluated, judge-IsCounted,
}

-- The counters before an evaluation.
abbrev pub negatives : Option Machine → ℕ
negatives none = 0
negatives (some m) = m.negative_count

abbrev pub positives : Option Machine → ℕ
positives none = 0
positives (some m) = m.positive_count

abbrev pub IsCountedBefore : Option Machine → Type 0
IsCountedBefore none = Unit
IsCountedBefore (some m) = IsCounted m

-- The machine that an evaluation starts from.
abbrev started : ℕ → ℕ → Option Machine → Machine
started now revision none = initial now revision
started now revision (some m) = m

start-eq-ok :
    (now revision : ℕ) (prior : Option Machine) {m : Machine}
    → start now revision prior ≡ ok m
    → m ≡ started now revision prior
unfolding start
start-eq-ok now revision none h = ground arith
start-eq-ok now revision (some x) h = ground arith

counts_of_started :
    (now revision : ℕ) (prior : Option Machine) {x y : ℕ}
    → (x ≤ (started now revision prior).negative_count + 1)
      × (y ≤ (started now revision prior).positive_count + 1)
    → (x ≤ negatives prior + 1) × (y ≤ positives prior + 1)
counts_of_started now revision none h = h
counts_of_started now revision (some m) h = h

started-IsCounted :
    (now revision : ℕ) (prior : Option Machine)
    → IsCountedBefore prior
    → IsCounted (started now revision prior)
started-IsCounted now revision none h = record {
  exclusive = inl refl;
  timed = λ _. refl;
  untimed = λ _. refl;
}
started-IsCounted now revision (some m) h = h

-- Facts of the evaluations that are seen through `Evaluated`.
Evaluated-counts :
    (digest : Json → ℕ) (p : Policy) (a : Attachment) (profile : Option Profile)
    (rows : List Observation) (case_open : Bool) (c : Call) (m : Machine) (r : Evaluation)
    → Evaluated digest p a profile rows case_open c m r
    → (r.state.negative_count ≤ m.negative_count + 1)
      × (r.state.positive_count ≤ m.positive_count + 1)
unfolding judge judge_positive judge_negative count_positive count_negative finish
Evaluated-counts digest p a profile rows case_open c m r
      (paused m' deadline status reason k b s e) =
    ground arith
Evaluated-counts digest p a profile rows case_open c m r (judged f s x y z v k b e) = ground arith

Evaluated-IsCounted :
    (digest : Json → ℕ) (p : Policy) (a : Attachment) (profile : Option Profile)
    (rows : List Observation) (case_open : Bool) (c : Call) (m : Machine) (r : Evaluation)
    → Evaluated digest p a profile rows case_open c m r
    → IsCounted m
    → IsCounted r.state
Evaluated-IsCounted digest p a profile rows case_open c m r
      (paused m' deadline status reason k b s e) h =
    ground arith
Evaluated-IsCounted digest p a profile rows case_open c m r (judged f s x y z v k b e) h =
    judge-IsCounted c f case_open s r (ground arith) e

judge-offline :
    (c : Call) (f : Profile) (case_open : Bool) (s : Scan) (r : Evaluation)
    → judge c f case_open s ≡ ok r
    → r.availability_state ≡ offline
    → (f.negative_confirmations ≤ r.state.negative_count)
      × (microseconds f.grace_seconds ≤ elapsed c.now r.state.negative_since)
      × (has_evidence is_negative s.usable ≡ true)
      × (has_evidence is_positive s.usable ≡ false)
unfolding judge judge_positive judge_negative count_positive count_negative finish
judge-offline c f case_open s r e h = ground arith

judge-available :
    (c : Call) (f : Profile) (case_open : Bool) (s : Scan) (r : Evaluation)
    → judge c f case_open s ≡ ok r
    → r.availability_state ≡ available
    → (has_evidence is_positive s.usable ≡ true)
      × (has_evidence is_negative s.usable ≡ false)
      × (case_open ≡ true → f.recovery_confirmations ≤ r.state.positive_count)
unfolding judge judge_positive judge_negative count_positive count_negative finish
judge-available c f case_open s r e h = ground arith

judge-deadline :
    (c : Call) (f : Profile) (case_open : Bool) (s : Scan) (r : Evaluation)
    → judge c f case_open s ≡ ok r
    → r.valid_until ≡ s.deadline
unfolding judge judge_positive judge_negative count_positive count_negative finish
judge-deadline c f case_open s r e = ground arith

-- A row that was kept for a source under the physical authority of the device itself.
pub record Witness (digest : Json → ℕ) (p : Policy) (f : Profile) (rows : List Observation)
    (now : ℕ) (kind : EvidenceKind → Bool) : Type 0 where
  pub row : Observation
  pub kept : IsEvidence digest p f rows now row true
  pub of_kind : kind row.evidence_kind ≡ true

witness :
    (digest : Json → ℕ) (p : Policy) (f : Profile) (rows : List Observation) (now : ℕ) (s : Scan)
    (kind : EvidenceKind → Bool)
    → IsFair digest p f rows now s
    → has_evidence kind s.usable ≡ true
    → Witness digest p f rows now kind
witness digest p f rows now s kind fair h =
    let (u, k, q) =
      any-All (Kept digest p f rows now) (λ r. r.1 && kind (r.0).evidence_kind) s.usable h
        fair.kept in
    let physical : u.1 ≡ true = ground arith in
    record {
      row = u.0;
      kept = subst (λ b. IsEvidence digest p f rows now u.0 b) physical k;
      of_kind = ground arith;
    }

-- What an outage rests on.
pub record Outage (digest : Json → ℕ) (p : Policy) (a : Attachment) (profile : Option Profile)
    (rows : List Observation) (now : ℕ) (r : Evaluation) : Type 0 where
  pub of_profile : Profile
  pub has_profile : profile ≡ some of_profile
  pub valid : validate_profile of_profile ≡ ok tt
  pub expected : is_true p.expected_availability ≡ true
  pub strong : is_strong a ≡ true
  pub confirmed : of_profile.negative_confirmations ≤ r.state.negative_count
  pub waited : microseconds of_profile.grace_seconds ≤ elapsed now r.state.negative_since
  pub evidence : Witness digest p of_profile rows now is_negative

-- What the end of an open case rests on.
pub record Recovery (digest : Json → ℕ) (p : Policy) (a : Attachment) (profile : Option Profile)
    (rows : List Observation) (now : ℕ) (case_open : Bool) (r : Evaluation) : Type 0 where
  pub of_profile : Profile
  pub has_profile : profile ≡ some of_profile
  pub valid : validate_profile of_profile ≡ ok tt
  pub expected : is_true p.expected_availability ≡ true
  pub strong : is_strong a ≡ true
  pub confirmed : case_open ≡ true → of_profile.recovery_confirmations ≤ r.state.positive_count
  pub evidence : Witness digest p of_profile rows now is_positive

Evaluated-Outage :
    (digest : Json → ℕ) (p : Policy) (a : Attachment) (profile : Option Profile)
    (rows : List Observation) (case_open : Bool) (c : Call) (m : Machine) (r : Evaluation)
    → Evaluated digest p a profile rows case_open c m r
    → r.availability_state ≡ offline
    → Outage digest p a profile rows c.now r
Evaluated-Outage digest p a profile rows case_open c m r (paused m' deadline status reason k b s e)
      h =
    absurd (ground arith)
Evaluated-Outage digest p a profile rows case_open c m r
      (judged f s expected strong has valid k fair e) h =
    let (confirmed, waited, seen, _) = judge-offline c f case_open s r e h in
    record {
      of_profile = f;
      has_profile = has;
      valid = valid;
      expected = expected;
      strong = strong;
      confirmed = confirmed;
      waited = waited;
      evidence = witness digest p f rows c.now s is_negative fair seen;
    }

Evaluated-Recovery :
    (digest : Json → ℕ) (p : Policy) (a : Attachment) (profile : Option Profile)
    (rows : List Observation) (case_open : Bool) (c : Call) (m : Machine) (r : Evaluation)
    → Evaluated digest p a profile rows case_open c m r
    → r.availability_state ≡ available
    → Recovery digest p a profile rows c.now case_open r
Evaluated-Recovery digest p a profile rows case_open c m r
      (paused m' deadline status reason k b s e) h =
    absurd (ground arith)
Evaluated-Recovery digest p a profile rows case_open c m r
      (judged f s expected strong has valid k fair e) h =
    let (seen, _, confirmed) = judge-available c f case_open s r e h in
    record {
      of_profile = f;
      has_profile = has;
      valid = valid;
      expected = expected;
      strong = strong;
      confirmed = confirmed;
      evidence = witness digest p f rows c.now s is_positive fair seen;
    }

Evaluated-IsAhead :
    (digest : Json → ℕ) (p : Policy) (a : Attachment) (profile : Option Profile)
    (rows : List Observation) (case_open : Bool) (c : Call) (m : Machine) (r : Evaluation)
    → Evaluated digest p a profile rows case_open c m r
    → IsAhead c.now r.valid_until
Evaluated-IsAhead digest p a profile rows case_open c m r
      (paused m' deadline status reason k b s e) =
    rw (ap (λ (x : Evaluation). x.valid_until) e) b
Evaluated-IsAhead digest p a profile rows case_open c m r
      (judged f s expected strong has valid k fair e) =
    rw (judge-deadline c f case_open s r e) fair.ahead

module _ (digest : Json → ℕ) (p : Policy) (a : Attachment) (profile : Option Profile)
    (rows : List Observation) (prior : Option Machine) (now : ℕ) (case_open : Bool) {r : Evaluation}
    (returned : evaluate digest p a profile rows prior now case_open ≡ ok r) where
  -- An evaluation that returns took one of the ways of `Evaluated` from the machine before it.
  evaluate-Evaluated :
      (c : Call) × (revision : ℕ) × (c.now ≡ now)
      × Evaluated digest p a profile rows case_open c (started now revision prior) r
  unfolding evaluate
  evaluate-Evaluated =
      let (_, _, h1) = >>=-eq-ok (timestamp now) _ returned in
      let (_, _, h2) = >>=-eq-ok (asset_id p.asset) _ h1 in
      let (_, _, h3) = >>=-eq-ok (uuid4 p.store_epoch) _ h2 in
      let (revision, _, h4) = >>=-eq-ok (integer_or_raise p.revision) _ h3 in
      let (m, s, h5) = >>=-eq-ok (start now revision prior) _ h4 in
      (
        _,
        revision,
        refl,
        evaluate_from-Evaluated digest p a profile rows case_open _ _ r
            (rw (start-eq-ok now revision prior s) at h5),
      )

  -- If an evaluation finds the asset offline, then the asset is expected and strongly attached,
  -- the profile is valid, as many negatives as it asks for have been counted, its grace period has
  -- passed since the first of them, and one of the observations is a negative: a row that passed
  -- every check, was collected in full, has not expired and speaks for the physical device.
  pub evaluate-Outage : r.availability_state ≡ offline → Outage digest p a profile rows now r
  evaluate-Outage h =
      let (c, revision, e, way) = evaluate-Evaluated in
      subst (λ t. Outage digest p a profile rows t r) e
        (Evaluated-Outage digest p a profile rows case_open c _ r way h)

  -- If an evaluation finds the asset available, then the asset is expected and strongly attached,
  -- the profile is valid, an unexpired and fully checked observation of the physical device is
  -- positive, and, if a case is open, as many positives as the profile asks for have been counted.
  pub evaluate-Recovery :
      r.availability_state ≡ available → Recovery digest p a profile rows now case_open r
  evaluate-Recovery h =
      let (c, revision, e, way) = evaluate-Evaluated in
      subst (λ t. Recovery digest p a profile rows t case_open r) e
        (Evaluated-Recovery digest p a profile rows case_open c _ r way h)

  -- The deadline of a result, where it has one, lies after the evaluation.
  pub evaluate-IsAhead : IsAhead now r.valid_until
  evaluate-IsAhead =
      let (c, revision, e, way) = evaluate-Evaluated in
      subst (λ t. IsAhead t r.valid_until) e
        (Evaluated-IsAhead digest p a profile rows case_open c _ r way)

  -- However many sources report, one evaluation adds at most one to either counter.
  pub evaluate-counts :
      (r.state.negative_count ≤ negatives prior + 1)
      × (r.state.positive_count ≤ positives prior + 1)
  evaluate-counts =
      let (c, revision, e, way) = evaluate-Evaluated in
      counts_of_started now revision prior
        (Evaluated-counts digest p a profile rows case_open c (started now revision prior) r way)

  -- An evaluation keeps the counters consistent: one of them is 0, and the first negative has a
  -- time exactly while negatives count.
  pub evaluate-IsCounted : IsCountedBefore prior → IsCounted r.state
  evaluate-IsCounted h =
      let (c, revision, e, way) = evaluate-Evaluated in
      Evaluated-IsCounted digest p a profile rows case_open c (started now revision prior) r way
        (started-IsCounted now revision prior h)
