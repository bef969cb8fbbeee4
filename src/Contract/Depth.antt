-- ===== src/Contract/Depth.antt =====
-- The depth bound of `strict_json` in pi4/lib/hioc/availability_contract.py.
use hioc.Base.{ℕ, ◌+◌, Bool, true, ◌&&◌, leb}
use hioc.Contract.Json.{
  Json, Items, Fields, null, bool, num, text, array, object, nil, cons, end, field,
}

-- `walk(item, level)`, as a test: every value stands at most `depth` levels deep.
unfoldable mutual
  pub walk : ℕ → ℕ → Json → Bool
  walk depth level null = leb level depth
  walk depth level (bool b) = leb level depth
  walk depth level (num n) = leb level depth
  walk depth level (text s) = leb level depth
  walk depth level (array xs) = leb level depth && walk_items depth (level + 1) xs
  walk depth level (object fs) = leb level depth && walk_fields depth (level + 1) fs

  pub walk_items : ℕ → ℕ → Items → Bool
  walk_items depth level nil = true
  walk_items depth level (cons x xs) = walk depth level x && walk_items depth level xs

  pub walk_fields : ℕ → ℕ → Fields → Bool
  walk_fields depth level end = true
  walk_fields depth level (field k x fs) = walk depth level x && walk_fields depth level fs
