-- ===== src/Cli.antt =====
-- main.go and cmd/: the command line and the commands behind it.
pub mod Args
pub mod Scan
pub mod Dispatch
pub mod Main
pub mod Exits
