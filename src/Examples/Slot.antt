-- ===== src/Examples/Slot.antt =====
-- Runs of the legacy incident slot (pi4/bin/hioc-incident-engine-v2.py): an incident is detected, and
-- two cycles find nothing.
use hioc.Base.{ℕ, ◌≡◌, refl, arith, String, none, some, [], ◌∷◌}
use hioc.Cycle.Step.{
  Span, State, Tracked, Clock, track, supersede, open_incident, with_candidate, with_or_without,
  cycle,
}
use hioc.Cycle.Recovery.{Accounted, cycle-Accounted, quiet, quiet-resolves}
use hioc.Examples.Incident.{outage}

abbrev at : ℕ → Clock
at n = record { timestamp = "2026-01-01T00:00:00+00:00"; seconds = n }

abbrev in_seconds : Span → String
in_seconds d = "60"

abbrev empty : State
empty = record { active = none; history = []; notices = []; timeline = [] }

abbrev tracked : Tracked
tracked = track 3 (at 0) outage none

run_detected : (cycle in_seconds 10 3 2 (at 0) (some outage) empty).active ≡ some tracked
unfolding cycle with_or_without with_candidate open_incident supersede
run_detected = refl

cycle-Accounted_example :
    Accounted 10
      (at 30)
      (record empty { active = some tracked })
      (cycle in_seconds 10 3 1 (at 30) none (record empty { active = some tracked }))
cycle-Accounted_example =
    cycle-Accounted in_seconds 10 3 1 (at 30) none (record empty { active = some tracked })

quiet-resolves_example :
    (quiet in_seconds 10 3 2
      (at 30 ∷ at 60 ∷ [])
      (cycle in_seconds 10 3 2 (at 0) (some outage) empty)).active
    ≡ none
unfolding track
quiet-resolves_example =
    quiet-resolves in_seconds 10 3 2 (at 30 ∷ at 60 ∷ [])
      (cycle in_seconds 10 3 2 (at 0) (some outage) empty) tracked run_detected (omega arith)
      (omega arith)
