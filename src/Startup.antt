-- ===== src/Startup.antt =====
-- cmd/node, cmd/server and cmd/agent: the order in which the commands start their parts.
pub mod Steps
pub mod Run
pub mod Order
pub mod Ready
pub mod Edit
