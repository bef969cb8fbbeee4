-- ===== src/Availability/History.antt =====
-- The evaluations of one asset over time: calls of `evaluate` (pi4/lib/hioc/availability.py), each
-- from the machine that the last one returned.
use hioc.Base.{ℕ, suc, ◌+◌, ◌≤◌, ◌≡◌, Bool, Option, none, some, List, arith, ok}
use hioc.Contract.Json.{Json}
use hioc.Availability.Types.{Policy, Attachment, Profile, Observation, Evaluation, Machine, offline}
use hioc.Availability.Evaluate.{evaluate}
use hioc.Availability.Outage.{negatives, evaluate-Outage, evaluate-counts}

-- The evaluations of one asset from its first one on, each from the machine that the one before
-- it returned; `n` is their number.
pub data Run (digest : Json → ℕ) : ℕ → Option Machine → Type 0 where
  first : Run digest 0 none
  later :
      {n : ℕ} {prior : Option Machine} (p : Policy) (a : Attachment) (profile : Option Profile)
      (rows : List Observation) (now : ℕ) (case_open : Bool) (r : Evaluation)
      → Run digest n prior
      → evaluate digest p a profile rows prior now case_open ≡ ok r
      → Run digest (suc n) (some r.state)

negatives-Run : (digest : Json → ℕ) {n : ℕ} {m : Option Machine} → Run digest n m → negatives m ≤ n
negatives-Run digest first = omega arith
negatives-Run digest (later p a profile rows now case_open r run e) =
    omega (
      arith,
      negatives-Run digest run,
      (evaluate-counts digest p a profile rows _ now case_open e).0,
    )

-- In every history of an asset, an evaluation that finds it offline comes after at least as many
-- evaluations, itself included, as the profile asks for negative confirmations.
pub offline_needs_evaluations :
    (digest : Json → ℕ) {n : ℕ} {prior : Option Machine} (p : Policy) (a : Attachment) (f : Profile)
    (rows : List Observation) (now : ℕ) (case_open : Bool) {r : Evaluation}
    → Run digest n prior
    → evaluate digest p a (some f) rows prior now case_open ≡ ok r
    → r.availability_state ≡ offline
    → f.negative_confirmations ≤ n + 1
offline_needs_evaluations digest p a f rows now case_open run e h =
    let o = evaluate-Outage digest p a (some f) rows _ now case_open e h in
    let same : f ≡ o.of_profile = cc o.has_profile in
    rw same (
      omega (
        arith,
        o.confirmed,
        negatives-Run digest run,
        (evaluate-counts digest p a (some f) rows _ now case_open e).0,
      ))
