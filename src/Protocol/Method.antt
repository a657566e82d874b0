-- ===== src/Protocol/Method.antt =====
-- crates/tabstride-protocol/src/method.rs, and how `full_handler` of
-- crates/tabstride-cli/src/daemon/ipc.rs routes each method.
use tab_stride.Prelude.{
  Bool, true, false, Option, some, String, [], ◌∷◌, ◌≡◌, refl, ◌⊎◌, arith, All, eq_iff,
}
use tab_stride.Map.{Map, lookup}

pub data Method : Type 0 where
  system_handshake system_ping system_status : Method
  session_start session_stop session_stop_all session_list browser_list flow_run : Method
  tool_session_start tool_session_stop : Method
  tool_tab_list tool_tab_create tool_tab_close tool_tab_borrow tool_tab_return : Method
  tool_tab_select tool_navigate tool_navigate_back tool_navigate_forward tool_reload : Method
  tool_click tool_fill tool_press tool_select tool_assert tool_snapshot tool_get_html : Method
  tool_screenshot tool_console tool_evaluate tool_wait_for_navigation tool_wait_ms : Method
  tool_request_help cancel : Method

-- `Method::as_str`.
unfoldable pub as_str : Method → String
as_str system_handshake = "system.handshake"
as_str system_ping = "system.ping"
as_str system_status = "system.status"
as_str session_start = "session.start"
as_str session_stop = "session.stop"
as_str session_stop_all = "session.stop_all"
as_str session_list = "session.list"
as_str browser_list = "browser.list"
as_str flow_run = "flow.run"
as_str tool_session_start = "tool.session_start"
as_str tool_session_stop = "tool.session_stop"
as_str tool_tab_list = "tool.tab_list"
as_str tool_tab_create = "tool.tab_create"
as_str tool_tab_close = "tool.tab_close"
as_str tool_tab_borrow = "tool.tab_borrow"
as_str tool_tab_return = "tool.tab_return"
as_str tool_tab_select = "tool.tab_select"
as_str tool_navigate = "tool.navigate"
as_str tool_navigate_back = "tool.navigate_back"
as_str tool_navigate_forward = "tool.navigate_forward"
as_str tool_reload = "tool.reload"
as_str tool_click = "tool.click"
as_str tool_fill = "tool.fill"
as_str tool_press = "tool.press"
as_str tool_select = "tool.select"
as_str tool_assert = "tool.assert"
as_str tool_snapshot = "tool.snapshot"
as_str tool_get_html = "tool.get_html"
as_str tool_screenshot = "tool.screenshot"
as_str tool_console = "tool.console"
as_str tool_evaluate = "tool.evaluate"
as_str tool_wait_for_navigation = "tool.wait_for_navigation"
as_str tool_wait_ms = "tool.wait_ms"
as_str tool_request_help = "tool.request_help"
as_str cancel = "cancel"

-- The `serde(rename)` attribute of each variant.
abbrev pub wire_names : Map Method
wire_names =
    ("system.handshake", system_handshake)
    ∷ ("system.ping", system_ping)
    ∷ ("system.status", system_status)
    ∷ ("session.start", session_start)
    ∷ ("session.stop", session_stop)
    ∷ ("session.stop_all", session_stop_all)
    ∷ ("session.list", session_list)
    ∷ ("browser.list", browser_list)
    ∷ ("flow.run", flow_run)
    ∷ ("tool.session_start", tool_session_start)
    ∷ ("tool.session_stop", tool_session_stop)
    ∷ ("tool.tab_list", tool_tab_list)
    ∷ ("tool.tab_create", tool_tab_create)
    ∷ ("tool.tab_close", tool_tab_close)
    ∷ ("tool.tab_borrow", tool_tab_borrow)
    ∷ ("tool.tab_return", tool_tab_return)
    ∷ ("tool.tab_select", tool_tab_select)
    ∷ ("tool.navigate", tool_navigate)
    ∷ ("tool.navigate_back", tool_navigate_back)
    ∷ ("tool.navigate_forward", tool_navigate_forward)
    ∷ ("tool.reload", tool_reload)
    ∷ ("tool.click", tool_click)
    ∷ ("tool.fill", tool_fill)
    ∷ ("tool.press", tool_press)
    ∷ ("tool.select", tool_select)
    ∷ ("tool.assert", tool_assert)
    ∷ ("tool.snapshot", tool_snapshot)
    ∷ ("tool.get_html", tool_get_html)
    ∷ ("tool.screenshot", tool_screenshot)
    ∷ ("tool.console", tool_console)
    ∷ ("tool.evaluate", tool_evaluate)
    ∷ ("tool.wait_for_navigation", tool_wait_for_navigation)
    ∷ ("tool.wait_ms", tool_wait_ms)
    ∷ ("tool.request_help", tool_request_help)
    ∷ ("cancel", cancel)
    ∷ []

-- The decoder that serde derives from the attributes.
unfoldable pub from_wire : String → Option Method
unfolding lookup
from_wire s = lookup s wire_names

-- `Method::is_mutating`.
unfoldable pub is_mutating : Method → Bool
is_mutating tool_tab_create = true
is_mutating tool_tab_close = true
is_mutating tool_tab_borrow = true
is_mutating tool_tab_return = true
is_mutating tool_tab_select = true
is_mutating tool_navigate = true
is_mutating tool_navigate_back = true
is_mutating tool_navigate_forward = true
is_mutating tool_reload = true
is_mutating tool_click = true
is_mutating tool_fill = true
is_mutating tool_press = true
is_mutating tool_select = true
is_mutating tool_evaluate = true
is_mutating flow_run = true
is_mutating _ = false

-- Where the `match method` of `full_handler` sends a request.
pub data Route : Type 0 where
  ping status start stop stop_all list_sessions list_browsers run_flow : Route
  dispatch_tool wait_locally cancel_call not_implemented : Route

unfoldable pub route : Method → Route
route system_ping = ping
route system_status = status
route session_start = start
route session_stop = stop
route session_stop_all = stop_all
route session_list = list_sessions
route browser_list = list_browsers
route flow_run = run_flow
route tool_tab_list = dispatch_tool
route tool_tab_create = dispatch_tool
route tool_tab_close = dispatch_tool
route tool_tab_select = dispatch_tool
route tool_tab_borrow = dispatch_tool
route tool_tab_return = dispatch_tool
route tool_screenshot = dispatch_tool
route tool_console = dispatch_tool
route tool_snapshot = dispatch_tool
route tool_get_html = dispatch_tool
route tool_navigate = dispatch_tool
route tool_navigate_back = dispatch_tool
route tool_navigate_forward = dispatch_tool
route tool_reload = dispatch_tool
route tool_click = dispatch_tool
route tool_fill = dispatch_tool
route tool_press = dispatch_tool
route tool_select = dispatch_tool
route tool_assert = dispatch_tool
route tool_evaluate = dispatch_tool
route tool_wait_for_navigation = dispatch_tool
route tool_request_help = dispatch_tool
route tool_wait_ms = wait_locally
route cancel = cancel_call
route _ = not_implemented

-- Decoding the name that `as_str` gives a method yields that method: the two tables of names,
-- which the source writes separately, agree, and no two methods share a name.
pub from_wire-as_str : (m : Method) → from_wire (as_str m) ≡ some m
unfolding from_wire as_str
from_wire-as_str system_handshake = refl
from_wire-as_str _ = refl

named :
    (t : Map Method) (s : String) (m : Method)
    → All (λ e. as_str e.1 ≡ e.0) t
    → lookup s t ≡ some m
    → as_str m ≡ s
unfolding lookup
named [] s m a h = cc
named ((k, n) ∷ t) s m a h = ground (arith, eq_iff k s, named t s m a.1)

-- A name that decodes is the name which `as_str` gives the method that it decodes to.
pub as_str-from_wire : (s : String) {m : Method} → from_wire s ≡ some m → as_str m ≡ s
unfolding as_str
as_str-from_wire s {m} h = named wire_names s m (assumption refl) (unfold from_wire in h)

-- Each method that may change the browser goes through `handle_tool_dispatch`, where a pending
-- interrupt is consulted, or is `flow.run`, whose steps go there one by one.
pub is_mutating-route :
    (m : Method)
    → is_mutating m ≡ true
    → (route m ≡ dispatch_tool) ⊎ ((route m ≡ run_flow) × (m ≡ flow_run))
unfolding is_mutating route
is_mutating-route m h = ground arith
