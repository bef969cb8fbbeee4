-- ===== src/Correlation/Texts.antt =====
-- Texts as pi4/lib/hioc/core/correlation.py orders and joins them.
use Prim.Native.Nat.{Ordering}
use Prim.Native.String.{compare}
use hioc.Base.{String, Bool, true, false, Option, none, some, List, [], ◌∷◌, ◌==◌, text_key}
use hioc.Correlation.Types.{◌⧺◌}

unfoldable pub insert_text : String → List String → List String
insert_text s [] = s ∷ []
insert_text s (t ∷ rest) = elim (compare s t) [
  | Ordering.lt ↦ s ∷ t ∷ rest
  | Ordering.eq ↦ t ∷ rest
  | Ordering.gt ↦ t ∷ insert_text s rest
]

-- `sorted(set(texts))`
unfoldable pub sorted_set : List String → List String
unfolding insert_text
sorted_set [] = []
sorted_set (s ∷ rest) = insert_text s (sorted_set rest)

unfoldable pub join_with : String → List String → String
join_with sep [] = ""
join_with sep (s ∷ []) = s
join_with sep (s ∷ t ∷ rest) = s ⧺ sep ⧺ join_with sep (t ∷ rest)

abbrev pub join_commas : List String → String
join_commas = join_with ", "

abbrev pub same_text : Option String → Option String → Bool
same_text none none = true
same_text (some s) (some t) = s == t
same_text _ _ = false
