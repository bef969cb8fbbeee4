-- ===== src/Review/Timeline.antt =====
-- What `timeline_for_incident` of pi4/lib/hioc/core/incident_review.py returns.
use hioc.Base.{
  ◌≡◌, ◌≢◌, ◌⊎◌, Option, none, some, String, ◌++◌, map, select, is_empty, if◌then◌else◌, refl, ap,
  ◌∙◌, Bool, true, false, ◌||◌, List, [], ◌∷◌, arith, nat_key, text_key,
}
use hioc.Review.Report.{as_list}
use hioc.Review.Types.{
  Instant, Python, Incident, Entry, Line, truthy, or_else, truthy_instant, or_instant,
}
use hioc.Review.Order.{has_line, sort_lines, drop_seen}
use hioc.Review.Gather.{
  belongs, identity_of, line_of, detection, resolution, gather, timeline_for_incident,
}
use hioc.Review.Lines.{
  is_ascending, is_unique, sort_lines-is_ascending, drop_seen-is_ascending, drop_seen-is_unique,
  drop_seen-members, has_line-sort_lines, same_line_refl,
}

-- The lines that are shown are those that were gathered.
has_line-shown :
    (py : Python) (i : Incident) (timeline : List Entry) (x : Line)
    → has_line x (timeline_for_incident py i timeline) ≡ has_line x (gather py i timeline)
unfolding timeline_for_incident has_line
has_line-shown py i timeline x =
    let ls = sort_lines (gather py i timeline) in
    let shown : has_line x (drop_seen [] ls) ≡ has_line x ls =
      ground (arith, drop_seen-members x [] ls) in
    shown ∙ has_line-sort_lines x (gather py i timeline)

has_line-append :
    (x : Line) (ls ms : List Line) → has_line x (ls ++ ms) ≡ (has_line x ls || has_line x ms)
unfolding has_line
has_line-append x [] ms = refl
has_line-append x (a ∷ ls) ms = ground (arith, has_line-append x ls ms)

abbrev is_own : Incident → Entry → Bool
is_own i e = belongs (identity_of i) e.incident_id

abbrev entries_of : Incident → List Entry → List Line
entries_of i timeline = map (line_of i) (select (is_own i) timeline)

has_line-entries :
    (i : Incident) (before after : List Entry) (e : Entry)
    → is_own i e ≡ true
    → has_line (line_of i e) (entries_of i (before ++ e ∷ after)) ≡ true
unfolding has_line
has_line-entries i [] after e h = ground (arith, h, same_line_refl (line_of i e))
has_line-entries i (b ∷ before) after e h = ground (arith, has_line-entries i before after e h)

-- The lines before the end is added.
abbrev told_of : Python → Incident → List Entry → List Line
told_of py i timeline =
    (if is_empty (entries_of i timeline)
      then detection i (truthy_instant i.started)
      else entries_of i timeline)
    ++ map (λ s. record { timestamp = or_instant i.started []; message = s })
        (as_list py i.evidence)

abbrev end_of : Incident → Option Instant
end_of i = or_else (truthy_instant i.resolved) (truthy_instant i.end_time)

gather-told :
    (py : Python) (i : Incident) (timeline : List Entry)
    → gather py i timeline
      ≡ told_of py i timeline ++ resolution py (told_of py i timeline) (end_of i)
unfolding gather
gather-told py i timeline = refl

has_line-told :
    (py : Python) (i : Incident) (timeline : List Entry) (x : Line)
    → has_line x (told_of py i timeline) ≡ true
    → has_line x (gather py i timeline) ≡ true
has_line-told py i timeline x h =
    let told = told_of py i timeline in
    ap (has_line x) (gather-told py i timeline)
    ∙ has_line-append x told (resolution py told (end_of i))
    ∙ ap (λ (b : Bool). b || has_line x (resolution py told (end_of i))) h

has_line-gather :
    (py : Python) (i : Incident) (timeline : List Entry) (x : Line)
    → has_line x (entries_of i timeline) ≡ true
    → has_line x (gather py i timeline) ≡ true
has_line-gather py i timeline x h =
    has_line-told py i timeline x (by_entries (entries_of i timeline) h)
  where
    evidence : List Line
    evidence =
        map (λ s. record { timestamp = or_instant i.started []; message = s })
          (as_list py i.evidence)

    by_entries :
        (ls : List Line)
        → has_line x ls ≡ true
        → has_line x
            ((if is_empty ls then detection i (truthy_instant i.started) else ls) ++ evidence)
          ≡ true
    by_entries [] g = absurd (unfold has_line in (ground (arith, g)))
    by_entries (l ∷ ls) g =
        has_line-append x (l ∷ ls) evidence ∙ ap (λ (b : Bool). b || has_line x evidence) g

-- An entry of no incident or of this one, or of any where this one has no identity.
abbrev pub Belongs : Option String → Option String → Type 0
Belongs own entry = (own ≡ none) ⊎ (entry ≡ none) ⊎ (entry ≡ own)

is_own-Belongs : (a b : Option String) → Belongs a b → belongs a b ≡ true
unfolding belongs
is_own-Belongs none b h = refl
is_own-Belongs (some x) none h = refl
is_own-Belongs (some x) (some y) h = ground (arith, h, text_key.same_iff x y)

-- The lines of an incident come in the order of their instants, and no line comes twice. An entry of
-- the saved timeline that belongs to the incident, since one of the two has no identity or both have
-- the same, is among them with its instant and its message, where it has both.
pub timeline_for_incident-lines :
    (py : Python) (i : Incident) (before after : List Entry) (e : Entry) (t : Instant) (m : String)
    → Belongs (identity_of i) e.incident_id
    → e.timestamp ≡ some t
    → truthy e.message ≡ some m
    → let lines = timeline_for_incident py i (before ++ e ∷ after) in
      (is_ascending lines ≡ true)
      × (is_unique lines ≡ true)
      × (has_line (record { timestamp = t; message = m }) lines ≡ true)
unfolding timeline_for_incident line_of
timeline_for_incident-lines py i before after e t m own at says =
    let timeline = before ++ e ∷ after in
    let ls = gather py i timeline in
    let line : line_of i e ≡ record { timestamp = t; message = m } = ground (arith, at, says) in
    (
      drop_seen-is_ascending [] (sort_lines ls) (sort_lines-is_ascending ls),
      drop_seen-is_unique [] (sort_lines ls),
      rw (← line) (
          has_line-shown py i timeline (line_of i e)
          ∙ has_line-gather py i timeline (line_of i e) (
              has_line-entries i before after e
                (is_own-Belongs (identity_of i) e.incident_id own))),
    )

select-foreign :
    (f : Entry → Bool) (before after : List Entry) (e : Entry)
    → f e ≡ false
    → select f (before ++ e ∷ after) ≡ select f (before ++ after)
select-foreign f [] after e h = ground (arith, h)
select-foreign f (b ∷ before) after e h = ground (arith, select-foreign f before after e h)

belongs-foreign :
    (a b : Option String) (j k : String)
    → a ≡ some j
    → b ≡ some k
    → k ≢ j
    → k ≢ ""
    → belongs a b ≡ false
unfolding belongs
belongs-foreign a b j k p q other named =
    ground (arith, p, q, other, named, text_key.same_iff j k, text_key.same_iff k "")

-- An entry of another incident changes nothing, wherever it stands in the saved timeline.
pub timeline_for_incident-foreign :
    (py : Python) (i : Incident) (before after : List Entry) (e : Entry) (j k : String)
    → identity_of i ≡ some j
    → e.incident_id ≡ some k
    → k ≢ j
    → k ≢ ""
    → timeline_for_incident py i (before ++ e ∷ after)
      ≡ timeline_for_incident py i (before ++ after)
unfolding timeline_for_incident gather
timeline_for_incident-foreign py i before after e j k own of_other other named = rw (
    select-foreign (is_own i) before after e
      (belongs-foreign (identity_of i) e.incident_id j k own of_other other named))

-- A line that tells of the end.
tells : Python → Line → Bool
tells py l = py.occurs "resolved" (py.lower l.message)
