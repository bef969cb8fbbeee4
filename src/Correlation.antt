-- ===== src/Correlation.antt =====
-- From telemetry, inventory and events to one incident: pi4/lib/hioc/core/correlation.py and
-- pi4/lib/hioc/core/monitoring.py.
pub mod Types
pub mod Monitoring
pub mod Texts
pub mod Signals
pub mod Correlate
pub mod Incident
