-- ===== src/Tests.antt =====
-- The development on concrete inputs.
mod Crate
mod Decoding
mod Encoding
mod Writing
mod Connection
mod Heads
mod Maps
mod Roles
mod Dispatching
mod Rounds
mod Requesting
mod Bodies
mod Flushing
mod Pings
