-- ===== src/Review/Duration.antt =====
-- What `human_duration` of pi4/lib/hioc/core/incident_review.py shows of a duration.
use hioc.Base.{
  ℕ, ◌+◌, ◌*◌, ◌≤◌, ◌<◌, Bool, true, Option, none, some, arith, ltb, ◌&&◌, nat_key, if◌then◌else◌,
  ◌≡◌,
}
use hioc.Review.Report.{Part, seconds, minutes, hours, days, Spelled, spell}

-- The seconds of a unit.
abbrev pub size : Part → ℕ
size seconds = 1
size minutes = 60
size hours = 3600
size days = 86400

-- The precision in which a duration is to be shown: a second below an hour, a minute below a day,
-- and an hour from there on.
abbrev pub precision : ℕ → ℕ
precision total = if ltb total 3600 then 1 else if ltb total 86400 then 60 else 3600

abbrev pub worth_of_rest : Option (ℕ × Part) → ℕ
worth_of_rest none = 0
worth_of_rest (some (n, u)) = n * size u

abbrev pub worth : Spelled → ℕ
worth d = d.count * size d.part + worth_of_rest d.rest

-- What is shown beside a unit is not 0, and less than the unit.
abbrev pub is_proper : Part → Option (ℕ × Part) → Bool
is_proper u none = true
is_proper u (some (n, v)) = ltb 0 n && ltb (n * size v) (size u)

-- The greatest unit that the duration reaches, but seconds for less than a minute.
abbrev pub unit_of : ℕ → ℕ
unit_of total =
    if ltb total 60
    then 1
    else if ltb total 3600
    then 60
    else if ltb total 86400
    then 3600
    else 86400

-- A duration is shown in the greatest unit that it reaches, seconds for less than a minute, with a
-- rest that is smaller than that unit and not 0, if there is one. It is rounded down, to the second
-- below an hour, to the minute below a day and to the hour from there on.
pub spell_bounds :
    (total : ℕ)
    → (size (spell total).part ≡ unit_of total)
      × (is_proper (spell total).part (spell total).rest ≡ true)
      × (worth (spell total) ≤ total)
      × (total < worth (spell total) + precision total)
unfolding spell
spell_bounds total = ground arith
