-- ===== src/Config.antt =====
-- pkg/config/config.go: the settings, their defaults, and the expansion of paths.
pub mod Settings
pub mod Load
pub mod Complete
