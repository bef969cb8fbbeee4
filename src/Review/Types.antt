-- ===== src/Review/Types.antt =====
-- The data of the review of an incident (pi4/lib/hioc/core/incident_review.py). An instant is written as its
-- code points, so that its order is defined here; other texts are strings. A value under a key is
-- `none` where the key is missing.
use hioc.Base.{
  ℕ, String, Bool, Option, none, some, List, [], ◌∷◌, ◌==◌, nat_key, text_key, if◌then◌else◌,
  Result,
}

abbrev pub Instant : Type 0
Instant = List ℕ

-- What `int(float(value))` comes to: a whole number, which counts as 0 when it is negative; a
-- `TypeError` or `ValueError`; or any other exception.
pub data Conversion : Type 0 where
  whole : ℕ → Conversion
  invalid overflow : Conversion

-- What the code takes from Python. `between` is the difference of two instants in whole seconds, 0
-- if it is negative; it raises where only one of them has a time zone.
pub record Python : Type 1 where
  pub Time : Type 0
  pub fromisoformat : Instant → Option Time
  pub between : Time → Time → Result ℕ
  pub convert : String → Conversion
  pub decimal : ℕ → String
  pub lower : String → String
  pub strip : String → String
  pub title : String → String
  pub split_commas : String → List String
  pub occurs : String → String → Bool

-- A value that `as_list` reads.
pub data Value : Type 0 where
  items : List String → Value
  word : String → Value
  other : Value

pub record Signal : Type 0 where
  pub source : Option String
  pub system : Option String

pub record Incident : Type 0 where
  pub id : Option String
  pub incident_id : Option String
  pub status : Option String
  pub phase : Option String
  pub recovery_type : Option String
  pub started : Option Instant
  pub updated : Option Instant
  pub resolved : Option Instant
  pub end_time : Option Instant
  pub duration_seconds : Option String
  pub title : Option String
  pub severity : Option String
  pub root_cause : Option String
  pub system : Option String
  pub reason : Option String
  pub impact : Option String
  pub recommendation : Option String
  pub confidence_percent : Option ℕ
  pub affected : Value
  pub evidence : Value
  pub signals : List Signal

-- An entry of the timeline that is saved.
pub record Entry : Type 0 where
  pub incident_id : Option String
  pub timestamp : Option Instant
  pub message : Option String
  pub title : Option String

-- An entry of the timeline that is shown.
pub record Line : Type 0 where
  pub timestamp : Instant
  pub message : String

-- `value or …`: an empty text counts as a missing one.
abbrev pub truthy : Option String → Option String
truthy none = none
truthy (some s) = if s == "" then none else some s

abbrev pub or_else {ℓ} : {A : Type ℓ} → Option A → Option A → Option A
or_else none b = b
or_else (some a) b = some a

abbrev pub truthy_instant : Option Instant → Option Instant
truthy_instant none = none
truthy_instant (some []) = none
truthy_instant (some (c ∷ cs)) = some (c ∷ cs)

abbrev pub or_instant : Option Instant → Instant → Instant
or_instant none t = t
or_instant (some s) t = s
