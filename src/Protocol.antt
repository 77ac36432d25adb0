-- ===== src/Protocol.antt =====
-- crates/protocol: what client and server share.
pub mod Plan
pub mod Messages
pub mod Handshake
pub mod Framing
