-- ===== src/Receive.antt =====
-- The receiving side: internal/listener/listener.go and internal/discovery/discovery.go.
pub mod Stamp
pub mod Listener
pub mod Discovery
pub mod Node
pub mod Reaches
pub mod Discovered
pub mod Resolved
pub mod Server
pub mod Starting
pub mod Accept
pub mod Effects
