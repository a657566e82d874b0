-- ===== src/Daemon.antt =====
-- crates/tabstride-cli/src/daemon: the registries of the daemon and what its handlers do to them.
pub mod Abort
pub mod Inflight
pub mod Interrupts
pub mod Browsers
pub mod Sessions
pub mod Queue
pub mod State
pub mod Forward
pub mod Tools
pub mod Lifecycle
pub mod Events
pub mod Flow
pub mod Answers
pub mod Agent
pub mod Envelope
pub mod Origin
pub mod Process
pub mod Connection
pub mod Greeting
