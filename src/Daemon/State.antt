-- ===== src/Daemon/State.antt =====
-- crates/tabstride-cli/src/daemon/state.rs: the registries of the daemon together, and what several
-- handlers do on them (ipc.rs, cancel_forward.rs, sessions.rs).
use tab_stride.Daemon.Browsers.{empty as no_browsers}
use tab_stride.Daemon.Queue.{empty as no_queues}
use tab_stride.Daemon.Inflight.{empty as no_entries, cancel as cancel_call}
use tab_stride.Daemon.Abort.{empty as no_tokens, cancel as cancel_token}
use tab_stride.Prelude.{
  ℕ, if◌then◌else◌, set, String, str_append, Bool, true, false, none, some, [], ◌∷◌,
}
use tab_stride.Protocol.Method.{cancel}
use tab_stride.Daemon.Browsers.{Browsers, BrowserClient, get, client_at, send}
use tab_stride.Protocol.Frame.{RequestFrame}
use tab_stride.Daemon.Queue.{remove_queue, ToolQueues}
use tab_stride.Map.{contains_key, Map, remove}
use tab_stride.Json.{Json}
use tab_stride.Daemon.Interrupts.{drop_session, Interrupts}
use tab_stride.Daemon.Inflight.{InflightSnapshot, InflightRegistry}
use tab_stride.Daemon.Sessions.{Session}
use tab_stride.Daemon.Abort.{AbortRegistry}

pub record DaemonState (V : Type 0) : Type 0 where
  pub browsers : Browsers V
  pub sessions : Map (Session V)
  pub tool_queues : ToolQueues V
  pub tool_inflight : InflightRegistry
  pub abort_registry : AbortRegistry
  pub session_interrupts : Interrupts

module _ {V : Type 0} where
  -- `DaemonState::new`
  abbrev pub new_state : DaemonState V
  new_state = record {
    browsers = no_browsers;
    sessions = [];
    tool_queues = no_queues;
    tool_inflight = no_entries;
    abort_registry = no_tokens;
    session_interrupts = [];
  }

  -- A client is changed in place.
  abbrev pub set_client : DaemonState V → ℕ → BrowserClient V → DaemonState V
  set_client st a c = record st {
    browsers = record st.browsers { clients = set st.browsers.clients a c };
  }

  -- A frame is pushed to a connected browser's sink; false if it is gone or its sink is closed.
  unfoldable pub push_frame : DaemonState V → String → RequestFrame V → DaemonState V × Bool
  push_frame st browser_id frame = elim (get st.browsers browser_id) [
    | none ↦ (st, false)
    | some a ↦ elim (client_at st.browsers a) [
      | none ↦ (st, false)
      | some c ↦
          let (sink, sent) = send frame c.sink in (set_client st a (record c { sink = sink }), sent)
    ]
  ]

  unfoldable pub drop_session_local : DaemonState V → String → DaemonState V
  drop_session_local st sid = record st {
    tool_queues = (remove_queue st.tool_queues sid).0;
    session_interrupts = drop_session st.session_interrupts sid;
  }

  unfoldable pub forget_session : DaemonState V → String → DaemonState V × Bool
  unfolding drop_session_local
  forget_session st sid =
      if contains_key sid st.sessions
      then (drop_session_local (record st { sessions = remove sid st.sessions }) sid, true)
      else (st, false)

module _ (j : Json) where
  open j use {Value, object, text}

  unfoldable pub cancel_frame : String → RequestFrame Value
  cancel_frame ws_rpc_id = record {
    id = str_append "cancel-" ws_rpc_id;
    method = cancel;
    params = some (object (("rpc_id", text ws_rpc_id) ∷ []));
    timing = none;
  }

  unfoldable pub forward_cancel_to_browser :
      DaemonState Value → String → String → DaemonState Value × Bool
  unfolding push_frame cancel_frame
  forward_cancel_to_browser st browser_id ws_rpc_id =
      push_frame st browser_id (cancel_frame ws_rpc_id)

  -- A cancel frame follows only a request that was forwarded; a failure is logged.
  unfoldable pub forward_snapshot : DaemonState Value → InflightSnapshot → DaemonState Value
  unfolding forward_cancel_to_browser
  forward_snapshot st snap = elim snap.browser_id [
    | none ↦ st
    | some b ↦ elim snap.ws_rpc_id [ none ↦ st | some ws ↦ (forward_cancel_to_browser st b ws).0 ]
  ]

  -- The inflight part of `cancel_rpc`.
  abbrev pub cancel_tool : DaemonState Value → String → DaemonState Value × Bool
  cancel_tool st rpc_id =
      let (inflight, found) = cancel_call st.tool_inflight rpc_id in
      let st' = record st { tool_inflight = inflight } in
      elim found [ none ↦ (st', false) | some snap ↦ (forward_snapshot st' snap, true) ]

  unfoldable pub cancel_rpc : DaemonState Value → String → DaemonState Value × Bool
  unfolding forward_snapshot cancel_call cancel_token
  cancel_rpc st rpc_id =
      let (aborts, local) = cancel_token st.abort_registry rpc_id in
      let st' = record st { abort_registry = aborts } in
      if local then (st', true) else cancel_tool st' rpc_id
