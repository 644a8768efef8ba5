-- ===== src/Hosts.antt =====
-- internal/hosts/hosts.go: the managed section of /etc/hosts.
pub mod Sync
pub mod Lines
pub mod Rewrite
pub mod Faults
pub mod Race
pub mod Loses
pub mod Races
