-- ===== src/Wire.antt =====
-- The package peer_wire: what is sent between peers.
pub mod BitField
pub mod Reserved
pub mod Message
pub mod Handshake
