-- ===== src/Cycle.antt =====
-- The cycles of pi4/bin/hioc-incident-engine-v2.py: what `main` does with the legacy incident of a
-- cycle, and `run_availability_cycle`.
pub mod Step
pub mod Recovery
pub mod Evaluation
pub mod Notify
pub mod Availability
