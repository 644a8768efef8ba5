-- ===== src/Network.antt =====
-- The program on a network that is not to be trusted: senders, receivers with their stores, and
-- whoever else puts datagrams on the wire.
pub mod Lan
pub mod Traced
pub mod Origin
pub mod Arrivals
pub mod Stations
pub mod Replay
pub mod Lasting
pub mod Listed
