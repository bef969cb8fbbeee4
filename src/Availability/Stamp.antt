-- ===== src/Availability/Stamp.antt =====
-- The time and the policy that an evaluation of pi4/lib/hioc/availability.py is one of.
use hioc.Base.{ℕ, ◌≡◌, ap, sym, ◌∙◌, Bool, Option, none, some, List, arith, ok, >>=-eq-ok}
use hioc.Contract.{asset_id, uuid4, timestamp}
use hioc.Contract.Json.{Json}
use hioc.Availability.Types.{Policy, Attachment, Profile, Observation, Machine, Evaluation}
use hioc.Availability.Evaluate.{
  Call, Scan, judge, judge_positive, judge_negative, count_positive, count_negative, finish, start,
  integer_or_raise, evaluate,
}
use hioc.Availability.Counters.{Evaluated, paused, judged, evaluate_from-Evaluated}

judge-stamp :
    (c : Call) (f : Profile) (case_open : Bool) (s : Scan) (r : Evaluation)
    → judge c f case_open s ≡ ok r
    → (r.evaluated_at ≡ c.now) × (r.policy_revision ≡ c.revision)
unfolding judge judge_positive judge_negative count_positive count_negative finish
judge-stamp c f case_open s r e = ground arith

Evaluated-stamp :
    (digest : Json → ℕ) (p : Policy) (a : Attachment) (profile : Option Profile)
    (rows : List Observation) (case_open : Bool) (c : Call) (m : Machine) (r : Evaluation)
    → Evaluated digest p a profile rows case_open c m r
    → (r.evaluated_at ≡ c.now) × (r.policy_revision ≡ c.revision)
Evaluated-stamp digest p a profile rows case_open c m r (paused m' deadline status reason k b s e) =
    (ap (λ (x : Evaluation). x.evaluated_at) e, ap (λ (x : Evaluation). x.policy_revision) e)
Evaluated-stamp digest p a profile rows case_open c m r (judged f s x y z v k b e) =
    judge-stamp c f case_open s r e

integer-eq-some : (o : Option ℕ) (n : ℕ) → integer_or_raise o ≡ ok n → o ≡ some n
integer-eq-some none n h = cc
integer-eq-some (some m) n h = ground arith

-- An evaluation that returns is one at the time that was given, of the policy as it stands.
pub evaluate-stamp :
    (digest : Json → ℕ) (p : Policy) (a : Attachment) (profile : Option Profile)
    (rows : List Observation) (prior : Option Machine) (now : ℕ) (case_open : Bool) (r : Evaluation)
    → evaluate digest p a profile rows prior now case_open ≡ ok r
    → (r.evaluated_at ≡ now) × (p.revision ≡ some r.policy_revision)
unfolding evaluate
evaluate-stamp digest p a profile rows prior now case_open r returned =
    let (_, _, h1) = >>=-eq-ok (timestamp now) _ returned in
    let (_, _, h2) = >>=-eq-ok (asset_id p.asset) _ h1 in
    let (_, _, h3) = >>=-eq-ok (uuid4 p.store_epoch) _ h2 in
    let (revision, known, h4) = >>=-eq-ok (integer_or_raise p.revision) _ h3 in
    let (m, _, h5) = >>=-eq-ok (start now revision prior) _ h4 in
    let (at, of_policy) =
      Evaluated-stamp digest p a profile rows case_open _ m r
        (evaluate_from-Evaluated digest p a profile rows case_open _ m r h5) in
    (at, integer-eq-some p.revision revision known ∙ ap some (sym of_policy))
