-- ===== src/Incidents.antt =====
-- Cases, outbox and guarded dispatch: pi4/lib/hioc/availability_incidents.py.
pub mod Types
pub mod Validate
pub mod Cases
pub mod Lifecycle
pub mod Transitions
pub mod Outbox
pub mod Reports
pub mod Dispatch
pub mod Submit
pub mod Authorize
pub mod Attempt
pub mod Restart
