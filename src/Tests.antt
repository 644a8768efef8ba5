-- ===== src/Tests.antt =====
-- The theorems at concrete inputs, and concrete functions for the parameters of the model.
mod Codec
mod Store
mod Receive
mod Nodes
mod Networks
mod Registries
mod Expiry
mod Beacons
mod Rpc
mod Remote
mod Hosts
mod Races
mod Config
mod Cli
mod Main
mod Push
mod Connect
mod Sysinfo
mod Startup
