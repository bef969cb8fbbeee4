-- ===== src/Protocol.antt =====
-- The signed federation protocol: pi4/lib/hioc/availability_protocol.py.
pub mod Gate
pub mod Replay
pub mod Bounds
pub mod Trust
pub mod Envelope
pub mod Handle
pub mod Authorized
pub mod Effects
