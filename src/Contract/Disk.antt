-- ===== src/Contract/Disk.antt =====
-- The replacement of a file by a temporary one, as `_replace_exact` of
-- pi4/lib/hioc/asset_policy.py and `EngineState.write` of pi4/lib/hioc/availability_incidents.py
-- do it: done and synced, refused before the file was replaced, or failed after it.
pub data Disk : Type 0 where
  synced refused torn : Disk
