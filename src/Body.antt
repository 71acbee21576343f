-- ===== src/Body.antt =====
-- Message bodies, wreq-proto/src/body.
pub mod Length
pub mod Watch
pub mod Incoming
