-- ===== src/Review/Lines.antt =====
-- The laws of the order and the identity of the lines of a review
-- (pi4/lib/hioc/core/incident_review.py): they are sorted, and what was seen is dropped.
use hioc.Base.{
  ◌≡◌, refl, ap, Bool, true, false, not, ◌&&◌, ◌||◌, List, [], ◌∷◌, arith, nat_key, text_key,
  Bool-cases, inl, inr,
}
use mathlib.Core.Path.{subst}
use hioc.Review.Types.{Instant, Line}
use hioc.Review.Order.{at_most, same_line, has_line, insert_line, sort_lines, drop_seen}

at_most-total : (s t : Instant) → at_most s t ≡ false → at_most t s ≡ true
unfolding at_most
at_most-total [] t h = cc
at_most-total (c ∷ s) [] h = refl
at_most-total (c ∷ s) (d ∷ t) h = ground (arith, h, at_most-total s t)

at_most_trans : (s t u : Instant) → at_most s t ≡ true → at_most t u ≡ true → at_most s u ≡ true
unfolding at_most
at_most_trans [] t u h k = refl
at_most_trans (c ∷ s) [] u h k = cc
at_most_trans (c ∷ s) (d ∷ t) [] h k = cc
at_most_trans (c ∷ s) (d ∷ t) (e ∷ u) h k = ground (arith, h, k, at_most_trans s t u)

at_most_refl : (s : Instant) → at_most s s ≡ true
unfolding at_most
at_most_refl [] = refl
at_most_refl (c ∷ s) = ground (arith, at_most_refl s)

at_most-antisym : (s t : Instant) → at_most s t ≡ true → at_most t s ≡ true → s ≡ t
unfolding at_most
at_most-antisym [] [] h k = refl
at_most-antisym [] (d ∷ t) h k = cc
at_most-antisym (c ∷ s) [] h k = cc
at_most-antisym (c ∷ s) (d ∷ t) h k = ground (arith, h, k, at_most-antisym s t)

same_line-eq : (a b : Line) → same_line a b ≡ true → a ≡ b
unfolding same_line
same_line-eq a b h =
    ground
      (arith, h, at_most-antisym a.timestamp b.timestamp, text_key.same_iff a.message b.message)

pub same_line_refl : (a : Line) → same_line a a ≡ true
unfolding same_line
same_line_refl a = ground (arith, at_most_refl a.timestamp, text_key.same_iff a.message a.message)

-- Every line comes at this instant or later.
abbrev pub are_after : Instant → List Line → Bool
are_after t [] = true
are_after t (a ∷ ls) = at_most t a.timestamp && are_after t ls

abbrev pub is_ascending : List Line → Bool
is_ascending [] = true
is_ascending (a ∷ ls) = are_after a.timestamp ls && is_ascending ls

abbrev pub is_unique : List Line → Bool
is_unique [] = true
is_unique (a ∷ ls) = not (has_line a ls) && is_unique ls

are_after_trans :
    (s t : Instant) (ls : List Line)
    → at_most s t ≡ true
    → are_after t ls ≡ true
    → are_after s ls ≡ true
are_after_trans s t [] h k = refl
are_after_trans s t (a ∷ ls) h k =
    ground (arith, h, k, at_most_trans s t a.timestamp, are_after_trans s t ls)

are_after-insert_line :
    (t : Instant) (a : Line) (ls : List Line)
    → at_most t a.timestamp ≡ true
    → are_after t ls ≡ true
    → are_after t (insert_line a ls) ≡ true
unfolding insert_line
are_after-insert_line t a [] h k = ground (arith, h)
are_after-insert_line t a (b ∷ ls) h k = ground (arith, h, k, are_after-insert_line t a ls)

insert_line-is_ascending :
    (a : Line) (ls : List Line) → is_ascending ls ≡ true → is_ascending (insert_line a ls) ≡ true
unfolding insert_line
insert_line-is_ascending a [] h = refl
insert_line-is_ascending a (b ∷ ls) h = ground (
  arith,
  h,
  insert_line-is_ascending a ls,
  at_most-total a.timestamp b.timestamp,
  are_after_trans a.timestamp b.timestamp ls,
  are_after-insert_line b.timestamp a ls,
)

pub sort_lines-is_ascending : (ls : List Line) → is_ascending (sort_lines ls) ≡ true
unfolding sort_lines
sort_lines-is_ascending [] = refl
sort_lines-is_ascending (a ∷ ls) =
    insert_line-is_ascending a (sort_lines ls) (sort_lines-is_ascending ls)

has_line-insert_line :
    (x a : Line) (ls : List Line) → has_line x (insert_line a ls) ≡ (same_line x a || has_line x ls)
unfolding insert_line has_line
has_line-insert_line x a [] = refl
has_line-insert_line x a (b ∷ ls) = ground (arith, has_line-insert_line x a ls)

pub has_line-sort_lines : (x : Line) (ls : List Line) → has_line x (sort_lines ls) ≡ has_line x ls
unfolding sort_lines has_line
has_line-sort_lines x [] = refl
has_line-sort_lines x (a ∷ ls) =
    ground (arith, has_line-insert_line x a (sort_lines ls), has_line-sort_lines x ls)

are_after-drop_seen :
    (t : Instant) (seen ls : List Line)
    → are_after t ls ≡ true
    → are_after t (drop_seen seen ls) ≡ true
unfolding drop_seen
are_after-drop_seen t seen [] h = refl
are_after-drop_seen t seen (a ∷ ls) h =
    ground (arith, h, are_after-drop_seen t seen ls, are_after-drop_seen t (a ∷ seen) ls)

pub drop_seen-is_ascending :
    (seen ls : List Line) → is_ascending ls ≡ true → is_ascending (drop_seen seen ls) ≡ true
unfolding drop_seen
drop_seen-is_ascending seen [] h = refl
drop_seen-is_ascending seen (a ∷ ls) h = ground (
  arith,
  h,
  drop_seen-is_ascending seen ls,
  drop_seen-is_ascending (a ∷ seen) ls,
  are_after-drop_seen a.timestamp (a ∷ seen) ls,
)

-- What was seen is not in the result.
has_line-drop_seen :
    (x : Line) (seen ls : List Line)
    → has_line x seen ≡ true
    → has_line x (drop_seen seen ls) ≡ false
unfolding drop_seen has_line
has_line-drop_seen x seen [] h = refl
has_line-drop_seen x seen (a ∷ ls) h = elim (Bool-cases (same_line x a)) [
  | inl e ↦
      let known : has_line a seen ≡ true =
        subst (λ (y : Line). has_line y seen ≡ true) (same_line-eq x a e) h in
      ground (arith, known, h, has_line-drop_seen x seen ls)
  | inr ne ↦ ground (arith, ne, h, has_line-drop_seen x seen ls, has_line-drop_seen x (a ∷ seen) ls)
]

pub drop_seen-is_unique : (seen ls : List Line) → is_unique (drop_seen seen ls) ≡ true
unfolding drop_seen has_line
drop_seen-is_unique seen [] = refl
drop_seen-is_unique seen (a ∷ ls) = ground (
  arith,
  drop_seen-is_unique seen ls,
  drop_seen-is_unique (a ∷ seen) ls,
  same_line_refl a,
  has_line-drop_seen a (a ∷ seen) ls,
)

-- Only what was seen, or comes again, is dropped.
pub drop_seen-members :
    (x : Line) (seen ls : List Line)
    → (has_line x seen || has_line x (drop_seen seen ls)) ≡ (has_line x seen || has_line x ls)
unfolding drop_seen has_line
drop_seen-members x seen [] = refl
drop_seen-members x seen (a ∷ ls) = elim (Bool-cases (same_line x a)) [
  | inl e ↦
      let known : has_line x seen ≡ has_line a seen =
        ap (λ (y : Line). has_line y seen) (same_line-eq x a e) in
      ground (arith, e, known, drop_seen-members x seen ls)
  | inr ne ↦ ground (arith, ne, drop_seen-members x seen ls, drop_seen-members x (a ∷ seen) ls)
]
