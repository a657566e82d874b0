-- ===== src/Daemon/Flow.antt =====
-- crates/tabstride-cli/src/daemon/flow_runtime.rs.
pub mod Timeout
pub mod Units
pub mod Steps
pub mod Run
pub mod Template
pub mod Tree
pub mod Begin
pub mod Rendered
