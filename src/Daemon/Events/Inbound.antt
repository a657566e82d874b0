-- ===== src/Daemon/Events/Inbound.antt =====
-- `handle_inbound_text` and `stamp_extension_response_received` of
-- crates/tabstride-cli/src/daemon/ws.rs: what one frame of an extension does.
use tab_stride.Json.{Json, get}
use tab_stride.Timing.Carrier.{timing_field, put_trace, trace_from}
use tab_stride.Protocol.Error.{ok, err}
use tab_stride.Protocol.Frame.{ResponseFrame}
use tab_stride.Protocol.Frame.Codec.{
  Frame, Member, request, response, event, decode_frame, session_window_closed,
  session_user_interrupt, EventKind,
}
use tab_stride.Daemon.State.{DaemonState, set_client}
use tab_stride.Daemon.Browsers.{client_at, get as get_client}
use tab_stride.Daemon.Browsers.Pending.{resolve}
use tab_stride.Daemon.Events.{window_closed, user_interrupt}
use tab_stride.Prelude.{if◌then◌else◌, is_some, ℕ, String, ◌≡◌, Option, none, some, List, []}
use tab_stride.Map.{lookup}
use tab_stride.Protocol.Frame.Codec.{EventKind}

module _ (j : Json) where
  open j use {Value, is_null, as_str, object}

  abbrev pub stamp_value : ℕ → Value → Value
  stamp_value now v =
      if is_some (get j timing_field v)
      then put_trace j v (record (trace_from j v) { serve_extension_received_at = some now })
      else v

  -- `stamp_extension_response_received`
  unfoldable pub stamp_received : ℕ → ResponseFrame Value → ResponseFrame Value
  unfolding get put_trace trace_from
  stamp_received now r = elim r.body [
    | ok v ↦ record r { body = ok (stamp_value now v) }
    | err e ↦ elim e.details [
      | none ↦ r
      | some d ↦ record r { body = err (record e { details = some (stamp_value now d) }) }
    ]
  ]

  -- The response goes to the waiter of the client at an address.
  unfoldable pub deliver : DaemonState Value → ℕ → ResponseFrame Value → DaemonState Value
  unfolding resolve
  deliver st a r = elim (client_at st.browsers a) [
    | none ↦ st
    | some c ↦ set_client st a (record c { pending = (resolve c.pending r).0 })
  ]

  -- The frame of the client at an address, whose id is `sender`; `none` is a text that is no frame.
  unfoldable pub handle_inbound :
      DaemonState Value → ℕ → String → ℕ → Option (Frame Value) → DaemonState Value
  unfolding deliver stamp_received window_closed user_interrupt
  handle_inbound st a sender now none = st
  handle_inbound st a sender now (some (response r)) = deliver st a (stamp_received now r)
  handle_inbound st a sender now (some (event e)) = elim e.event [
    | session_window_closed ↦ window_closed j st sender e.payload
    | session_user_interrupt ↦ user_interrupt j st sender e.payload
    | _ ↦ st
  ]
  handle_inbound st a sender now (some (request r)) = st

  unfoldable pub handle_inbound_text :
      DaemonState Value → ℕ → String → ℕ → List (Member Value) → DaemonState Value
  unfolding handle_inbound decode_frame
  handle_inbound_text st a sender now text =
      handle_inbound st a sender now (decode_frame is_null (object []) text)

  -- The sessions and their queues are the same in both states.
  abbrev Kept : DaemonState Value → DaemonState Value → Type 0
  Kept st st' = (st'.sessions ≡ st.sessions) × (st'.tool_queues ≡ st.tool_queues)

  -- A session of another browser, its queue and both.
  abbrev pub SameSession : String → DaemonState Value → DaemonState Value → Type 0
  SameSession sid st st' =
      (lookup sid st'.sessions ≡ lookup sid st.sessions)
      × (lookup sid st'.tool_queues.table ≡ lookup sid st.tool_queues.table)
