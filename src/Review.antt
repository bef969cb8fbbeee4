-- ===== src/Review.antt =====
-- The review of an incident: pi4/lib/hioc/core/incident_review.py.
pub mod Types
pub mod Order
pub mod Report
pub mod Gather
pub mod Build
pub mod Duration
pub mod Lines
pub mod Timeline
