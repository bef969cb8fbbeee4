-- ===== src/Review/Order.antt =====
-- The order and the identity of the lines of a review
-- (pi4/lib/hioc/core/incident_review.py).
use hioc.Base.{
  Bool, true, false, ◌&&◌, ◌||◌, List, [], ◌∷◌, ltb, ◌==◌, nat_key, text_key, if◌then◌else◌,
}
use hioc.Review.Types.{Instant, Line}

-- The order of two texts by their code points.
unfoldable pub at_most : Instant → Instant → Bool
at_most [] t = true
at_most (c ∷ s) [] = false
at_most (c ∷ s) (d ∷ t) = if c == d then at_most s t else ltb c d

same_instant : Instant → Instant → Bool
same_instant s t = at_most s t && at_most t s

-- `(timestamp, message)`
unfoldable pub same_line : Line → Line → Bool
unfolding same_instant
same_line a b = same_instant a.timestamp b.timestamp && a.message == b.message

unfoldable pub has_line : Line → List Line → Bool
has_line a [] = false
has_line a (b ∷ ls) = same_line a b || has_line a ls

-- `sorted(events, key=timestamp)`, which keeps the order of equal keys.
unfoldable pub insert_line : Line → List Line → List Line
insert_line a [] = a ∷ []
insert_line a (b ∷ ls) =
    let rest = insert_line a ls in if at_most a.timestamp b.timestamp then a ∷ b ∷ ls else b ∷ rest

unfoldable pub sort_lines : List Line → List Line
unfolding insert_line
sort_lines [] = []
sort_lines (a ∷ ls) = insert_line a (sort_lines ls)

-- The loop that drops what was seen.
unfoldable pub drop_seen : List Line → List Line → List Line
drop_seen seen [] = []
drop_seen seen (a ∷ ls) =
    let known = has_line a seen in
    let rest = drop_seen (if known then seen else a ∷ seen) ls in if known then rest else a ∷ rest
