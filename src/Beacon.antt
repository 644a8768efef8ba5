-- ===== src/Beacon.antt =====
-- internal/beacon: the payload, its signature, and the packet that carries both.
pub mod Payload
pub mod Hmac
pub mod Packet
pub mod Loop
