-- ===== src/Lib.antt =====
-- TabStride, crates/tabstride-protocol and crates/tabstride-cli: the daemon between command-line
-- clients, which call it over a local socket, and browser extensions, which hold a WebSocket.
--
-- A client's call enters in `full_handler` (Protocol/Method for the routes, Daemon/Tools). A tool
-- call is registered as inflight (Daemon/Inflight), takes the one slot of its session's queue
-- (Daemon/Queue), and is forwarded by the session's worker (Daemon/Forward) to the extension that
-- owns the session, where it waits in that extension's table of pending calls. Cancellations
-- come from clients (Daemon/State) and from the user in the browser (Daemon/Events).
--
-- Files and the code they model, under crates/tabstride-protocol/src:
--   Protocol/Error      error.rs, and the response body of frame.rs
--   Protocol/Frame      frame.rs: frames; Codec: the codec that tells them apart
--   Protocol/Method     method.rs: names, `is_mutating`; ipc.rs: the routes of `full_handler`
--   Protocol/Handshake  system.rs: version parsing and `evaluate_handshake_compat`
--   Protocol/Locator    tools/interaction.rs: `Locator`; Strategy: how it finds its element
--   Protocol/Assertion  tools/assertion.rs: `AssertionSpec`
--   Protocol/Flow       flow.rs: the steps of a flow, and their validation (Validate, Accepted)
-- and under crates/tabstride-cli/src:
--   Timing              timing.rs: durations, and the field that carries a trace (Timing/Carrier)
--   Daemon/Abort        daemon/abort.rs
--   Daemon/Inflight     daemon/inflight.rs; Races: with the worker and cancellers as steps
--   Daemon/Interrupts   daemon/session_interrupt.rs
--   Daemon/Browsers     daemon/browsers.rs; Pending, Select: its parts of these names
--   Daemon/Sessions     daemon/sessions.rs: the registry and `validate_start_result`
--   Daemon/Queue        daemon/queue.rs: the registry, `dispatch_with_sender`, `run_worker`
--   Daemon/Forward      daemon/queue.rs: `forward_one`
--   Daemon/State        daemon/state.rs, daemon/cancel_forward.rs, `cancel_rpc` of daemon/ipc.rs
--   Daemon/Tools        daemon/ipc.rs: `handle_tool_dispatch`, `handle_wait_ms`
--   Daemon/Answers      daemon/ipc.rs: the answers to `session.start` and `session.stop`
--   Daemon/Envelope     daemon/ipc.rs: the timing of an answer
--   Daemon/Lifecycle    daemon/sessions.rs: `start_session`, `stop_session`; Abandoned: a start that
--                       is dropped while it waits
--   Daemon/Events       daemon/ws.rs: inbound frames (Inbound), events, and the cleanup of a
--                       connection
--   Daemon/Agent        daemon/agent_ws.rs; Running: its tasks in every order of steps
--   Daemon/Flow         daemon/flow_runtime.rs: variables (Template, Rendered, Tree), the timeout
--                       (Timeout, Units), how a run begins and ends (Begin), its steps (Steps,
--                       Run)
--   Daemon/Origin       daemon/ws.rs: which origins may connect
--   Daemon/Greeting     daemon/ws.rs: the upgrade and the handshake (Registered, Trusted)
--   Daemon/Connection   daemon/ipc.rs, ipc_client.rs: the lines of an IPC connection and a call
--   Daemon/Process      daemon/start.rs, daemon/info.rs: Start (with Ready, Launched), Stop, Idle
--                       (with Exits, and Clients: the IPC connections of daemon/ipc.rs), Child (the
--                       command line of the child), Info (daemon.json)
--   Files               the files of a directory, and replacing one by a rename
--   Cli/Update          cli/update.rs: the offer, Install (Safe, Stages, Offered), Cache (Throttle)
--   Cli/BrowserWait     cli/browser_wait.rs; Cli/SessionStart (Reported), Cli/SessionStop:
--                       the commands of cli/session.rs
--   Cli/Doctor          cli/doctor.rs: the states of the daemon and the verdicts (Healthy)
--   Cli/Skills          skill_install: sync.rs (Synced), and the installation and the selection of
--                       mod.rs (Selected)
--   Cli                 cli/: Durations (navigate.rs, waits.rs), IdleDuration (daemon.rs), Modifiers
--                       and Target (interaction.rs), HelpTarget (human_loop.rs), Variable (flow.rs),
--                       StartArgs (session.rs), Base64 (screenshot.rs), Percentile (metrics.rs),
--                       RenderError and Reasons (render_error.rs: messages and exit codes)
-- Prelude, Map, Text and Json hold what these share. Tests runs the theorems at concrete inputs.
--
-- How the code is rendered. A struct is a record, an enum a data type. What `Arc` shares (tokens,
-- entries, clients, queues, mailboxes) lives at an address of a heap, a list that only grows, and
-- a `HashMap` is an association list, whose order stands for the unspecified order of iteration. A
-- function under one lock is one function here, which returns the new state. Async code is cut
-- where it waits: the part before, and the part after with the outcome of the wait as an argument;
-- where an order of steps matters, steps are a relation and the theorem holds for all orders
-- (Daemon/Inflight/Races, Daemon/Queue/Outstanding, Daemon/Agent/Running) or for all lists of operations
-- (Daemon/Queue/Closing). The part of `forward_one` before its wait is taken as one step; its race
-- with cancellers is in Races. A step of a flow meets what the clock, its token and its dispatch do
-- as a `Round`; the loop is total over any function from indices to rounds.
--
-- Bounds. `reserve_id` tries as often as its argument says, as in the source. The wait for a
-- browser runs over a list of rounds, each with the time at its start. Generation counters and
-- times are natural numbers: a `u64` counter that wraps is out of reach. The numbers that are
-- parsed keep their bounds (`u64`, 2^53 - 1, `u32` milliseconds). The loop of `expand_string` runs
-- on the length of its text and one more, and each round shortens the text. The accumulator of
-- `decode_base64` is a `u32` that drops what is shifted out, and the products of `parse_duration`
-- wrap around at 64 bits.
--
-- Texts whose characters matter are lists of scalar values (flows, locators, durations) or of bytes
-- (versions, Base64); the rest are strings that are only compared.
--
-- Parameters: `serde_json` (Json: its value type, and that encoding a trace and decoding it gives
-- it back, and which value is null), random ids, the clock, what serde makes of a payload, and
-- `to_lowercase`.
--
-- Not modelled: texts of errors (but those of RenderError) and logs, the tokio scheduler, sockets
-- and framing, the encoding of a step's parameters, status and list answers, the lock file and the
-- order of start-up in run_foreground, metrics files, archives and downloads of an update, the
-- detection of agent harnesses, the rest of the command line, and the extension.
pub mod Prelude
pub mod Map
pub mod Text
pub mod Files
pub mod Json
pub mod Timing
pub mod Protocol
pub mod Daemon
pub mod Cli
pub mod Tests
