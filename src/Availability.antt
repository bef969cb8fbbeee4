-- ===== src/Availability.antt =====
-- The evidence-qualified evaluation of availability: pi4/lib/hioc/availability.py.
pub mod Types
pub mod Validate
pub mod Digests
pub mod Evaluate
pub mod Evidence
pub mod Snapshot
pub mod StatusRead
pub mod Counters
pub mod Outage
pub mod Stamp
pub mod History
