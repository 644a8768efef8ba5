-- ===== src/Push.antt =====
-- internal/sshpush: pushing the public key to a host, and the check of the key that the host shows.
pub mod HostKeys
pub mod Run
pub mod Trust
pub mod FirstUse
pub mod Grows
pub mod Session
pub mod Exact
pub mod Remote
pub mod Authorized
pub mod Once
