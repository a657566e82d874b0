-- ===== src/Cli.antt =====
-- crates/tabstride-cli/src/cli: what the commands compute from their arguments and replies.
pub mod Base64
pub mod Durations
pub mod Modifiers
pub mod Target
pub mod Percentile
pub mod Variable
pub mod HelpTarget
pub mod BrowserWait
pub mod StartArgs
pub mod SessionStart
pub mod SessionStop
pub mod IdleDuration
pub mod RenderError
pub mod Reasons
pub mod Update
pub mod Doctor
pub mod Skills
