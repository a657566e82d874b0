-- ===== src/Daemon/Events.antt =====
-- crates/tabstride-cli/src/daemon/ws.rs: what an extension's events and its disconnect do.
pub mod Ownership
pub mod Interrupt
pub mod Disconnect
pub mod Inbound
use tab_stride.Prelude.{
  ℕ, if◌then◌else◌, ◌>>=◌, String, Bool, false, not, Option, none, some, List, [], ◌∷◌, str_eq,
}
use tab_stride.Json.{Json, get}
use tab_stride.Map.{Map, lookup}
use tab_stride.Daemon.State.{drop_session_local, forget_session, forward_snapshot, DaemonState}
use tab_stride.Daemon.Sessions.{purge_browser, Session}
use tab_stride.Daemon.Inflight.{cancel_session, InflightSnapshot}
use tab_stride.Daemon.Browsers.{remove_if_generation_matches}
use tab_stride.Daemon.Interrupts.{mark}

module _ {V : Type 0} where
  -- Whether the session is there and belongs to another browser than the sender.
  unfoldable pub is_foreign : Map (Session V) → String → String → Bool
  is_foreign sessions sid sender = elim (lookup sid sessions) [
    | none ↦ false
    | some s ↦ not (str_eq s.browser_id sender)
  ]

  -- The loop over the purged sessions.
  unfoldable pub drop_each : DaemonState V → List (Session V) → DaemonState V
  unfolding drop_session_local
  drop_each st [] = st
  drop_each st (s ∷ rest) = drop_each (drop_session_local st s.id) rest

  -- The cleanup at the end of `drive_connection`, for the connection's browser and generation.
  unfoldable pub disconnect : DaemonState V → String → ℕ → DaemonState V
  unfolding drop_each purge_browser remove_if_generation_matches
  disconnect st browser_id generation =
      let (browsers, removed) = remove_if_generation_matches st.browsers browser_id generation in
      let (sessions, drained) = purge_browser st.sessions browser_id in
      if removed
      then drop_each (record st { browsers = browsers; sessions = sessions }) drained
      else st

module _ (j : Json) where
  open j use {Value, as_str}

  -- `handle_session_window_closed`
  unfoldable pub window_closed : DaemonState Value → String → Value → DaemonState Value
  unfolding is_foreign forget_session
  window_closed st sender payload = elim (get j "session_id" payload >>= as_str) [
    | none ↦ st
    | some sid ↦ if is_foreign st.sessions sid sender then st else (forget_session st sid).0
  ]

  abbrev pub non_empty : String → Option String
  non_empty s = if str_eq s "" then none else some s

  unfoldable pub extract_session_id : Value → Option String
  extract_session_id payload = get j "session_id" payload >>= as_str >>= non_empty

  unfoldable pub forward_each : DaemonState Value → List InflightSnapshot → DaemonState Value
  unfolding forward_snapshot
  forward_each st [] = st
  forward_each st (snap ∷ rest) = forward_each (forward_snapshot j st snap) rest

  -- What `handle_session_user_interrupt` does once the sender is accepted.
  unfoldable pub interrupt_session : DaemonState Value → String → DaemonState Value
  unfolding cancel_session forward_each mark
  interrupt_session st sid =
      let (inflight, snaps) = cancel_session st.tool_inflight sid in
      let st' = forward_each (record st { tool_inflight = inflight }) snaps in
      record st' { session_interrupts = mark st'.session_interrupts sid }

  -- `handle_session_user_interrupt`
  unfoldable pub user_interrupt : DaemonState Value → String → Value → DaemonState Value
  unfolding is_foreign interrupt_session extract_session_id
  user_interrupt st sender payload = elim (extract_session_id payload) [
    | none ↦ st
    | some sid ↦ if is_foreign st.sessions sid sender then st else interrupt_session st sid
  ]
