-- ===== src/Cli/RenderError.antt =====
-- crates/tabstride-cli/src/cli/render_error.rs: what the CLI prints for an error of the daemon, and
-- the code it exits with.
use tab_stride.Protocol.Error.{
  ErrorCode, unknown_method, unsupported, invalid_params, not_found, ambiguous_target,
  permission_denied, timeout, cdp_failed, protocol_error, cancelled, user_aborted, version_too_old,
  multiple_browsers_online, no_browser_connected,
}
use tab_stride.Prelude.{ℕ, String, Option, some, ◌<◌, arith}

pub record RenderInfo : Type 0 where
  pub summary : String
  pub hint : Option String
  pub exit_code : ℕ

abbrev told : String → String → ℕ → RenderInfo
told summary hint exit_code = record { summary = summary; hint = some hint; exit_code = exit_code }

unfoldable pub info_for : ErrorCode → RenderInfo
info_for unknown_method =
    told "daemon does not recognise this RPC method"
      "upgrade both tabstride CLI and the tabstride extension; CLI and daemon may be on mismatched protocol versions"
      5
info_for unsupported =
    told "this operation is not supported by the current build"
      "check `tabstride --version` and the tabstride changelog to confirm whether the feature is available"
      1
info_for invalid_params =
    told "invalid command parameters"
      "check your command arguments; run `tabstride <cmd> --help` to see the expected format" 1
info_for not_found =
    told "requested resource does not exist"
      "the session, tab, or browser may have stopped; run `tabstride sessions` / `tabstride browsers` to see current state"
      1
info_for ambiguous_target =
    told "locator matched more than one element"
      "make the locator more specific or pass `--exact`; strict matching never selects the first match silently"
      1
info_for permission_denied =
    told "operation denied by the Agent Window sandbox"
      "tabs outside an Agent Window must first be borrowed via `tabstride tab borrow <tab-id> --session <id>`"
      1
info_for timeout =
    told "operation timed out"
      "retry the command; if timeouts persist, check `tabstride logs` and confirm the browser is still responding"
      4
info_for cdp_failed =
    told "browser rejected the underlying CDP call"
      "confirm the tab is still in a loaded state and retry; reloading the tab usually resets a stuck DevTools session"
      3
info_for protocol_error =
    told "protocol error communicating with tabstride daemon"
      "ensure CLI and daemon protocol versions match — check `protocol version` in `tabstride status`"
      2
info_for cancelled =
    told "operation cancelled"
      "the previous command was interrupted (Ctrl-C or a remote `cancel` request)" 2
info_for user_aborted =
    told "operation interrupted by user"
      "the user requested an interrupt (e.g. via the agent window's stop button); rerun if this was unintended"
      2
info_for version_too_old =
    told "peer version is too old to communicate with this build"
      "upgrade both tabstride CLI and the tabstride extension so both sides satisfy `min_compatible_protocol`"
      5
info_for multiple_browsers_online =
    told "multiple browsers are online"
      "choose a candidate from the connected browser list and retry with `--browser <instance_id-or-label>`"
      1
info_for no_browser_connected =
    told "no browser is connected to the daemon"
      "open the tabstride extension in your browser and wait for the popup to show \"connected\"" 1

-- The buckets of the documented exit codes; zero, which is success, is none of them.
pub info_for-failure :
    (code : ErrorCode) → (0 < (info_for code).exit_code) × ((info_for code).exit_code < 6)
unfolding info_for
info_for-failure unknown_method = (omega arith, omega arith)
info_for-failure unsupported = (omega arith, omega arith)
info_for-failure invalid_params = (omega arith, omega arith)
info_for-failure not_found = (omega arith, omega arith)
info_for-failure ambiguous_target = (omega arith, omega arith)
info_for-failure permission_denied = (omega arith, omega arith)
info_for-failure timeout = (omega arith, omega arith)
info_for-failure cdp_failed = (omega arith, omega arith)
info_for-failure protocol_error = (omega arith, omega arith)
info_for-failure cancelled = (omega arith, omega arith)
info_for-failure user_aborted = (omega arith, omega arith)
info_for-failure version_too_old = (omega arith, omega arith)
info_for-failure multiple_browsers_online = (omega arith, omega arith)
info_for-failure no_browser_connected = (omega arith, omega arith)
