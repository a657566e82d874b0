-- ===== src/Cli/Reasons.antt =====
-- `info_for_error` of crates/tabstride-cli/src/cli/render_error.rs: what the reason in the data of an
-- error makes of the message for its code.
use tab_stride.Protocol.Error.{
  ErrorCode, unknown_method, unsupported, invalid_params, not_found, ambiguous_target,
  permission_denied, timeout, cdp_failed, protocol_error, cancelled, user_aborted, version_too_old,
  multiple_browsers_online, no_browser_connected,
}
use tab_stride.Protocol.Locator.{Text}
use tab_stride.Json.{Json, get}
use tab_stride.Cli.RenderError.{RenderInfo, info_for}
use tab_stride.Text.{bytes_eq, codes, is_empty}
use tab_stride.Prelude.{
  String, Option, none, some, List, [], ◌∷◌, ◌≡◌, refl, ◌>>=◌, if◌then◌else◌, arith, Option-cases,
  inl, inr,
}

-- One arm of the match: the reason, the summary and the hint.
pub record Override : Type 0 where
  pub reason : String
  pub summary : String
  pub hint : String

abbrev arm : String → String → String → Override
arm reason summary hint = record { reason = reason; summary = summary; hint = hint }

-- The arms for a code. An arm with several reasons is one of each.
unfoldable pub overrides : ErrorCode → List Override
overrides unknown_method = []
overrides unsupported = []
overrides invalid_params =
    arm "target_not_fillable" "target element is not fillable"
      "choose an input, textarea, or contenteditable element from the latest snapshot"
    ∷ arm "element_not_editable" "target element is not editable"
        "choose an enabled input, textarea, or contenteditable element from the latest snapshot"
    ∷ arm "element_not_focusable" "target element cannot receive keyboard input"
        "choose a visible, enabled, focusable control or omit the press target to use the current focus"
    ∷ arm "target_not_select" "target element is not a <select>"
        "choose a native <select> ref or selector from the latest snapshot, or use `tabstride click` / `tabstride fill` for other controls"
    ∷ arm "option_not_found" "option value not found in <select>"
        "rerun `tabstride snapshot` or `tabstride get-html` to list valid option values, then pass them via `--value`"
    ∷ arm "single_select_value_count" "single-select requires exactly one option value"
        "pass exactly one `--value` for a regular <select>; repeat `--value` only for <select multiple>"
    ∷ arm "tab_not_active" "screenshot requires the visible active tab"
        "select the tab with `tabstride tab select <tab-id> --session <id>` or omit `--tab-id` to capture the Agent Window's active tab"
    ∷ []
overrides not_found =
    arm "ref_not_found" "snapshot ref was not found for this tab"
      "rerun `tabstride snapshot` for the current tab and use one of the returned refs"
    ∷ arm "selector_not_found" "selector did not match any element"
        "verify the CSS selector or wait for the element to appear before retrying"
    ∷ arm "locator_not_found" "locator did not match any element"
        "verify the locator, rerun snapshot, or wait for the element to appear before retrying"
    ∷ []
overrides ambiguous_target =
    arm "ambiguous_target" "locator matched more than one element"
      "add a more specific accessible name, use `--exact`, or choose a unique CSS/ref locator"
    ∷ []
overrides permission_denied =
    arm "element_not_visible" "target element has no visible geometry"
      "rerun snapshot and choose a visible child ref, or wait/scroll/reload before retrying"
    ∷ arm "borrow_conflict" "tab is borrowed by another session"
        "return the tab from the borrowing session via `tabstride tab return <tab-id> --session <id>` or stop that session"
    ∷ []
overrides timeout =
    arm "session_busy" "previous session command is still running"
      "wait for the current command to finish, cancel it with Ctrl-C, or stop/restart the session"
    ∷ arm "assertion_failed" "assertion did not pass before timeout"
        "rerun with `--json` and inspect error.data.expected, actual, and evidence; verify the locator, expected value, and timeout"
    ∷ arm "element_detached" "target did not become actionable before timeout"
        "rerun with `--json` and inspect error.data.evidence; verify the element is visible, stable, enabled, and unobscured"
    ∷ arm "element_not_visible" "target did not become actionable before timeout"
        "rerun with `--json` and inspect error.data.evidence; verify the element is visible, stable, enabled, and unobscured"
    ∷ arm "element_not_stable" "target did not become actionable before timeout"
        "rerun with `--json` and inspect error.data.evidence; verify the element is visible, stable, enabled, and unobscured"
    ∷ arm "element_disabled" "target did not become actionable before timeout"
        "rerun with `--json` and inspect error.data.evidence; verify the element is visible, stable, enabled, and unobscured"
    ∷ arm "element_not_editable" "target did not become actionable before timeout"
        "rerun with `--json` and inspect error.data.evidence; verify the element is visible, stable, enabled, and unobscured"
    ∷ arm "element_obscured" "target did not become actionable before timeout"
        "rerun with `--json` and inspect error.data.evidence; verify the element is visible, stable, enabled, and unobscured"
    ∷ arm "element_not_focusable" "target did not become actionable before timeout"
        "rerun with `--json` and inspect error.data.evidence; verify the element is visible, stable, enabled, and unobscured"
    ∷ arm "target_not_select" "target did not become actionable before timeout"
        "rerun with `--json` and inspect error.data.evidence; verify the element is visible, stable, enabled, and unobscured"
    ∷ arm "ref_not_found" "target did not appear before timeout"
        "verify the Locator and timeout; rerun snapshot if using a ref, or confirm the page creates the expected element"
    ∷ arm "selector_not_found" "target did not appear before timeout"
        "verify the Locator and timeout; rerun snapshot if using a ref, or confirm the page creates the expected element"
    ∷ arm "locator_not_found" "target did not appear before timeout"
        "verify the Locator and timeout; rerun snapshot if using a ref, or confirm the page creates the expected element"
    ∷ []
overrides cdp_failed = []
overrides protocol_error = []
overrides cancelled = []
overrides user_aborted = []
overrides version_too_old = []
overrides multiple_browsers_online = []
overrides no_browser_connected = []

unfoldable pub override_with : RenderInfo → Text → List Override → RenderInfo
override_with base reason [] = base
override_with base reason (o ∷ os) =
    let later = override_with base reason os in
    if bytes_eq reason (codes o.reason)
    then record { summary = o.summary; hint = some o.hint; exit_code = base.exit_code }
    else later

module _ (j : Json) where
  open j use {Value, as_str}

  -- `filter(|s| !s.is_empty())`
  abbrev present : String → Option Text
  present s = if is_empty (codes s) then none else some (codes s)

  unfoldable pub reason_for_data : Option Value → Option Text
  reason_for_data details = do v ← details; r ← get j "reason" v; s ← as_str r; present s

  unfoldable pub info_for_error : ErrorCode → Option Value → RenderInfo
  unfolding override_with reason_for_data
  info_for_error code details = elim (reason_for_data details) [
    | none ↦ info_for code
    | some r ↦ override_with (info_for code) r (overrides code)
  ]

exit_code-override_with :
    (base : RenderInfo) (r : Text) (os : List Override)
    → (override_with base r os).exit_code ≡ base.exit_code
unfolding override_with
exit_code-override_with base r [] = refl
exit_code-override_with base r (o ∷ os) = ground (arith, exit_code-override_with base r os)

-- A reason changes what is printed, never the exit code.
pub exit_code-info_for_error :
    (j : Json) (code : ErrorCode) (details : Option j.Value)
    → (info_for_error j code details).exit_code ≡ (info_for code).exit_code
unfolding info_for_error
exit_code-info_for_error j code details = elim (Option-cases (reason_for_data j details)) [
  | inl e ↦ ground arith
  | inr (r, e) ↦ ground (arith, exit_code-override_with (info_for code) r (overrides code))
]
