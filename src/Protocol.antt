-- ===== src/Protocol.antt =====
-- crates/tabstride-protocol/src: the types that the daemon shares with the CLI and the extension.
pub mod Error
pub mod Method
pub mod Frame
pub mod Handshake
pub mod Locator
pub mod Assertion
pub mod Flow
