-- ===== src/Daemon/Process.antt =====
-- The daemon as a process: crates/tabstride-cli/src/daemon/start.rs and info.rs.
pub mod Info
pub mod Stop
pub mod Start
pub mod Idle
pub mod Child
