-- ===== src/Observation.antt =====
-- The observations of sources: pi4/lib/hioc/availability_observation.py and `ObservationProtocol`
-- of pi4/lib/hioc/availability_protocol.py.
pub mod Collect
pub mod Store
pub mod Refine
pub mod Receive
pub mod Handover
pub mod Safety
