-- ===== src/Tests.antt =====
-- The theorems at concrete inputs.
mod Samples
mod Wire
mod Registries
mod Runs
mod Calls
mod Flows
mod Commands
mod Answers
mod Agents
mod Arguments
mod Processes
mod Updates
mod Greetings
