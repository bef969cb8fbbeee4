-- ===== src/Policy/Normalize.antt =====
-- `normalize_field` of pi4/lib/hioc/assets.py. What Python knows of characters is a parameter:
-- the form NFC, white space, and the categories that begin with C.
use hioc.Base.{
  ℕ, Bool, true, false, ◌&&◌, ◌||◌, not, Option, none, some, List, [], ◌∷◌, ◌++◌, map, leb, ◌==◌,
  nat_key, if◌then◌else◌, length, all, any, is_empty, contains, Result, ok, err, exception,
}
use hioc.Policy.Types.{Text, Field, World, friendly_name, physical_location, purpose, notes}

abbrev newline : ℕ
newline = 10

-- `FIELD_LIMITS`
abbrev pub limit_of : Field → ℕ
limit_of friendly_name = 128
limit_of physical_location = 128
limit_of purpose = 256
limit_of notes = 1024

abbrev pub is_notes : Field → Bool
is_notes notes = true
is_notes _ = false

-- `\r\n` and `\r` become `\n`.
unfoldable pub unify_lines : Text → Text
unify_lines [] = []
unify_lines (c ∷ []) = (if c == 13 then newline else c) ∷ []
unify_lines (c ∷ d ∷ rest) =
    let kept = unify_lines (d ∷ rest) in
    if c == 13 then (if d == newline then kept else newline ∷ kept) else c ∷ kept

-- The first line grows by a character.
abbrev onto_first : ℕ → List Text → List Text
onto_first c [] = (c ∷ []) ∷ []
onto_first c (line ∷ lines) = (c ∷ line) ∷ lines

-- `text.split('\n')`
unfoldable pub split_lines : Text → List Text
split_lines [] = [] ∷ []
split_lines (c ∷ rest) =
    let lines = split_lines rest in if c == newline then [] ∷ lines else onto_first c lines

unfoldable pub join_lines : List Text → Text
join_lines [] = []
join_lines (line ∷ []) = line
join_lines (line ∷ next ∷ lines) = line ++ newline ∷ join_lines (next ∷ lines)

-- Elements are taken off the front, or off the end, while they pass the test.
unfoldable pub drop_front {ℓ} : {A : Type ℓ} → (A → Bool) → List A → List A
drop_front p [] = []
drop_front p (x ∷ xs) = let rest = drop_front p xs in if p x then rest else x ∷ xs

unfoldable pub drop_back {ℓ} : {A : Type ℓ} → (A → Bool) → List A → List A
drop_back p [] = []
drop_back p (x ∷ xs) = let rest = drop_back p xs in if p x && is_empty rest then [] else x ∷ rest

abbrev breaks : List ℕ
breaks = 13 ∷ 10 ∷ 9 ∷ 11 ∷ 12 ∷ 8232 ∷ 8233 ∷ []

module _ (w : World) where
  -- `_is_forbidden_control`
  unfoldable pub is_forbidden : Bool → ℕ → Bool
  is_forbidden allow_newline c =
      if allow_newline && c == newline then false else w.is_other c || contains c breaks

  unfoldable pub strip : Text → Text
  unfolding drop_front drop_back
  strip t = drop_back w.is_space (drop_front w.is_space t)

  abbrev is_blank : Text → Bool
  is_blank line = all w.is_space line

  -- The lines of the notes, without blank ones at either end and without space at their ends.
  unfoldable pub tidy : Text → Text
  unfolding strip drop_front drop_back unify_lines split_lines join_lines
  tidy t = strip (
      join_lines (
        drop_back is_blank
          (drop_front is_blank (map (drop_back w.is_space) (split_lines (unify_lines t))))))

  -- The text before its length is tested.
  unfoldable pub canonical_text : Field → Text → Text
  unfolding strip tidy
  canonical_text f t = if is_notes f then tidy (w.nfc t) else strip (w.nfc t)

  -- The refusals are `AssetValidationError`.
  unfoldable pub accept : Field → Text → Result (Option Text)
  unfolding is_forbidden
  accept f t =
      if any (is_forbidden (is_notes f)) t || is_notes f && not (leb (length (split_lines t)) 8)
      then err exception
      else if is_empty t
      then ok none
      else if leb (length t) (limit_of f)
      then ok (some t)
      else err exception

  unfoldable pub normalize_field : Field → Option Text → Result (Option Text)
  normalize_field f none = ok none
  normalize_field f (some t) = accept f (canonical_text f t)
