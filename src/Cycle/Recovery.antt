-- ===== src/Cycle/Recovery.antt =====
-- How incidents enter and leave the slot of pi4/bin/hioc-incident-engine-v2.py.
use hioc.Base.{
  ℕ, ◌+◌, ◌≤◌, ◌≡◌, ◌≢◌, refl, ◌==◌, take, arith, String, true, false, Option, none, some, List, [],
  ◌∷◌, leb, text_key, length, Bool-cases, ◌⊎◌, inl, inr,
}
use hioc.Correlation.Types.{Incident}
use hioc.Cycle.Step.{
  Tracked, Span, State, Clock, supersede, open_incident, continue_incident, with_candidate, resolve,
  recovering, without_candidate, cycle, with_or_without, Closed, span, close, track,
}

-- The incident of the slot goes on: the same key, from the same start.
abbrev pub Follows : Option Tracked → Option Tracked → Type 0
Follows none o = Unit {0}
Follows (some t) o =
    (t' : Tracked) × (o ≡ some t')
    × ((t'.incident).key ≡ (t.incident).key)
    × (t'.started ≡ t.started)
    × (t'.started_epoch ≡ t.started_epoch)

-- The slot holds nothing, or an incident of another key.
abbrev pub Differs : Tracked → Option Tracked → Type 0
Differs t none = Unit {0}
Differs t (some t') = (t'.incident).key ≢ (t.incident).key

-- An entry of the history for the incident that was in the slot.
pub record IsClosed (c : Clock) (t : Tracked) (x : Closed) : Type 0 where
  pub id : ((x.tracked).incident).id ≡ (t.incident).id
  pub key : ((x.tracked).incident).key ≡ (t.incident).key
  pub root_cause : ((x.tracked).incident).root_cause ≡ (t.incident).root_cause
  pub started : (x.tracked).started ≡ t.started
  pub occurrences : (x.tracked).occurrences ≡ t.occurrences
  pub resolved : x.resolved ≡ c.timestamp
  pub duration : x.duration_seconds ≡ span t.started_epoch c.seconds

-- What a cycle does with the incident in the slot: it goes on, and the history stays; or it leaves
-- the slot, and stands first in the history. The history is cut to its limit.
pub data Accounted (limit : ℕ) (c : Clock) (s s' : State) : Type 0 where
  goes_on : s'.history ≡ take limit s.history → Follows s.active s'.active → Accounted limit c s s'
  leaves :
      (t : Tracked) (x : Closed)
      → s.active ≡ some t
      → IsClosed c t x
      → s'.history ≡ take limit (x ∷ s.history)
      → Differs t s'.active
      → Accounted limit c s s'

follows :
    (t t' : Tracked) (o o' : Option Tracked)
    → o ≡ some t
    → o' ≡ some t'
    → (t'.incident).key ≡ (t.incident).key
    → t'.started ≡ t.started
    → t'.started_epoch ≡ t.started_epoch
    → Follows o o'
follows t t' o o' e f k s n = rw e (t', f, k, s, n)

Differs-none : (t : Tracked) (o : Option Tracked) → o ≡ none → Differs t o
Differs-none t o e = rw e tt

Differs-some :
    (t t' : Tracked) (o : Option Tracked)
    → o ≡ some t'
    → (t'.incident).key ≢ (t.incident).key
    → Differs t o
Differs-some t t' o e h = rw e h

close-IsClosed :
    (c : Clock) (status phase : String) (t : Tracked) → IsClosed c t (close c status phase t)
unfolding close
close-IsClosed c status phase t = record {
  id = refl;
  key = refl;
  root_cause = refl;
  started = refl;
  occurrences = refl;
  resolved = refl;
  duration = refl;
}

recovering-IsClosed :
    (decimal : Span → String) (c : Clock) (status phase : String) (t : Tracked)
    → IsClosed c t (close c status phase (recovering decimal c t))
unfolding close
recovering-IsClosed decimal c status phase t = record {
  id = refl;
  key = refl;
  root_cause = refl;
  started = refl;
  occurrences = refl;
  resolved = refl;
  duration = refl;
}

module _ (decimal : Span → String) (limit confirm_cycles recovery_cycles : ℕ) where
  apart : (k j : String) → (j == k) ≡ false → k ≢ j
  apart k j h e = ground (arith, h, e, text_key.same_iff j k)

  with-Accounted :
      (c : Clock) (i : Incident) (o : Option Tracked) (s : State)
      → s.active ≡ o
      → Accounted limit c s (cycle decimal limit confirm_cycles recovery_cycles c (some i) s)
  unfolding cycle with_or_without with_candidate open_incident continue_incident supersede track
  with-Accounted c i none s e = goes_on (ground (arith, e)) (rw e tt)
  with-Accounted c i (some t) s e = elim (Bool-cases ((t.incident).key == i.key)) [
    | inl same ↦ goes_on (ground (arith, e, same)) (
        follows t (track confirm_cycles c i (some t)) s.active _ e (ground (arith, e, same))
          (ground (arith, same, text_key.same_iff (t.incident).key i.key)) refl refl)
    | inr other ↦
        leaves t (close c "superseded" "archived" t) e (close-IsClosed c "superseded" "archived" t)
          (ground (arith, e, other))
          (Differs-some t (track confirm_cycles c i none) _ (ground (arith, e, other))
            (apart i.key (t.incident).key other))
  ]

  without-Accounted :
      (c : Clock) (o : Option Tracked) (s : State)
      → s.active ≡ o
      → Accounted limit c s (cycle decimal limit confirm_cycles recovery_cycles c none s)
  unfolding cycle with_or_without without_candidate resolve
  without-Accounted c none s e = goes_on (ground (arith, e)) (rw e tt)
  without-Accounted c (some t) s e =
      elim (Bool-cases (leb recovery_cycles (t.recovery_confirmations + 1))) [
        | inl done ↦
            leaves t (close c "resolved" "resolved" (recovering decimal c t)) e
              (recovering-IsClosed decimal c "resolved" "resolved" t) (ground (arith, e, done))
              (Differs-none t _ (ground (arith, e, done)))
        | inr more ↦ goes_on (ground (arith, e, more)) (
            follows t (recovering decimal c t) s.active _ e (ground (arith, e, more)) refl refl
              refl)
      ]

  -- A cycle keeps account of the incident in the slot: it goes on under its key, from its start, and
  -- the history stays; or it leaves the slot, and the history starts with its entry, which has its
  -- identity, key, cause, start and occurrences, the time of the cycle and the seconds since its
  -- start. In either case the history is cut to its limit, and keeps its order.
  pub cycle-Accounted :
      (c : Clock) (o : Option Incident) (s : State)
      → Accounted limit c s (cycle decimal limit confirm_cycles recovery_cycles c o s)
  cycle-Accounted c none s = without-Accounted c s.active s refl
  cycle-Accounted c (some i) s = with-Accounted c i s.active s refl

  -- Cycles without a candidate.
  unfoldable pub quiet : List Clock → State → State
  quiet [] s = s
  quiet (c ∷ rest) s = quiet rest (cycle decimal limit confirm_cycles recovery_cycles c none s)

  quiet-empty : (cs : List Clock) (s : State) → s.active ≡ none → (quiet cs s).active ≡ none
  unfolding quiet cycle with_or_without without_candidate
  quiet-empty [] s h = h
  quiet-empty (c ∷ rest) s h =
      quiet-empty rest (cycle decimal limit confirm_cycles recovery_cycles c none s)
        (ground (arith, h))

  quiet_cycle :
      (c : Clock) (s : State) (t : Tracked)
      → s.active ≡ some t
      → ((leb recovery_cycles (t.recovery_confirmations + 1) ≡ true)
          × ((cycle decimal limit confirm_cycles recovery_cycles c none s).active ≡ none))
        ⊎ ((leb recovery_cycles (t.recovery_confirmations + 1) ≡ false)
            × ((cycle decimal limit confirm_cycles recovery_cycles c none s).active
                ≡ some (recovering decimal c t)))
  unfolding cycle with_or_without without_candidate resolve
  quiet_cycle c s t h = elim (Bool-cases (leb recovery_cycles (t.recovery_confirmations + 1))) [
    | inl e ↦ inl (e, ground (arith, h, e))
    | inr e ↦ inr (e, ground (arith, h, e))
  ]

  -- An incident that is in the slot leaves it when its recovery was confirmed: after at least one
  -- cycle with no candidate, and as many as its confirmations lack of the number that is asked for.
  pub quiet-resolves :
      (cs : List Clock) (s : State) (t : Tracked)
      → s.active ≡ some t
      → 1 ≤ length cs
      → recovery_cycles ≤ t.recovery_confirmations + length cs
      → (quiet cs s).active ≡ none
  unfolding quiet
  quiet-resolves [] s t h some_cycle le = absurd (omega arith)
  quiet-resolves (c ∷ rest) s t h some_cycle le = elim (quiet_cycle c s t h) [
    | inl x ↦ quiet-empty rest (cycle decimal limit confirm_cycles recovery_cycles c none s) x.1
    | inr x ↦
        quiet-resolves rest (cycle decimal limit confirm_cycles recovery_cycles c none s)
          (recovering decimal c t) x.1 (ground (arith, x.0)) (ground arith)
  ]
