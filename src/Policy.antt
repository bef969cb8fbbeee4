-- ===== src/Policy.antt =====
-- The Asset store and its policies: pi4/lib/hioc/asset_policy.py, with the parts of
-- pi4/lib/hioc/assets.py that it builds on.
pub mod Types
pub mod Normalize
pub mod Validate
pub mod Files
pub mod Service
pub mod Operations
pub mod Edits
pub mod Local
pub mod Commit
pub mod Replay
pub mod Decisions
pub mod Mutations
pub mod Repeats
pub mod Edited
