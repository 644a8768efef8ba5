-- ===== src/Store.antt =====
-- internal/store/store.go: host records in a BoltDB bucket, keyed by MAC address.
pub mod Record
pub mod Bolt
pub mod Ops
pub mod Open
pub mod Write
pub mod Sorted
pub mod Upsert
pub mod Expiry
pub mod Invariant
pub mod History
pub mod Rests
pub mod Silence
pub mod Alive
pub mod Progress
pub mod Commute
pub mod Heard
pub mod Shuffle
pub mod Changes
pub mod Registry
pub mod Shown
pub mod Described
pub mod Excused
pub mod Refines
pub mod Listing
