-- ===== src/Daemon/Lifecycle.antt =====
-- `start_session` and `stop_session` of crates/tabstride-cli/src/daemon/sessions.rs, cut where they
-- wait for the extension. What serde makes of a payload is a parameter.
pub mod Start
pub mod Stop
pub mod Abandoned
use tab_stride.Prelude.{
  ℕ, if◌then◌else◌, is_some, ℤ, String, ◌⊎◌, inl, inr, Bool, true, false, Option, none, some, List,
  [], ◌∷◌, not, ◌&&◌,
}
use tab_stride.Protocol.Error.{
  plain, timeout, protocol_error, not_found, ok, err, RpcError, ErrorCode, Body,
}
use tab_stride.Protocol.Method.{tool_session_start, tool_session_stop}
use tab_stride.Daemon.Browsers.{
  send, client_at, get, failed, found, ambiguous_label, no_browser_connected,
  multiple_browsers_online, SelectError, Selected, BrowserClient,
}
use tab_stride.Daemon.Browsers
use tab_stride.Daemon.Queue.{
  session_not_found, session_stopping, session_busy, timed_out, queue_closed, queue_full, rpc,
  dispatch_after_closing, reopen, spawn, Slot, DispatchError,
}
use tab_stride.Daemon.Browsers.Pending.{register}
use tab_stride.Daemon.Browsers.Pending.{cancel as cancel_waiter}
use tab_stride.Daemon.State.{DaemonState, set_client, drop_session_local}
use tab_stride.Daemon.Sessions.{
  reserve_id, commit_reservation, validate_start_result, cancel_reservation, SessionStartResult,
  SessionMode, CommittedSessionData, Session,
}
use tab_stride.Timing.{TimingTrace}
use tab_stride.Map.{lookup, remove}
use tab_stride.Protocol.Frame.{RequestFrame}

-- `SESSION_ID_MAX_RESERVE_ATTEMPTS`
abbrev pub max_reserve_attempts : ℕ
max_reserve_attempts = 64

-- `StartSessionError`
pub data StartError (V : Type 0) : Type 0 where
  no_browser multiple_browsers browser_not_found id_exhausted start_timeout start_closed :
      StartError V
  ambiguous_browser : String → List String → StartError V
  start_refused : RpcError V → StartError V

-- `SessionStopResult`: the tabs given back, and those that could not be, with their error.
pub record SessionStopResult : Type 0 where
  pub returned_tab_ids : List ℤ
  pub return_failures : List (ℤ × ErrorCode)

-- `StopSessionError`
pub data StopError (V : Type 0) : Type 0 where
  unknown stopping busy browser_gone stop_timeout stop_closed : StopError V
  stop_refused : RpcError V → StopError V
  returned_badly : SessionStopResult → StopError V

-- How the wait for a response of the extension ends.
pub data Answer (V : Type 0) : Type 0 where
  got : Body V → Answer V
  gone elapsed : Answer V

-- The request that was sent for a new session, or the error.
pub data Begun (V : Type 0) : Type 0 where
  fails : StartError V → Begun V
  starts : String → ℕ → ℕ → Begun V

abbrev pub is_not_found : ErrorCode → Bool
is_not_found not_found = true
is_not_found _ = false

module _ {V : Type 0} where
  abbrev pub select_error : SelectError → StartError V
  select_error no_browser_connected = no_browser
  select_error multiple_browsers_online = multiple_browsers
  select_error Browsers.not_found = browser_not_found
  select_error (ambiguous_label l ids) = ambiguous_browser l ids

  abbrev pub cancel_at_client : DaemonState V → ℕ → String → DaemonState V
  cancel_at_client st a rpc_id = elim (client_at st.browsers a) [
    | none ↦ st
    | some c ↦ set_client st a (record c { pending = cancel_waiter c.pending rpc_id })
  ]

  abbrev pub give_up : DaemonState V → String → DaemonState V
  give_up st sid = record st { sessions = cancel_reservation st.sessions sid }

  -- From the reservation to the request: `a` is the selected client `c`.
  unfoldable pub start_at :
      DaemonState V
      → ℕ
      → BrowserClient V
      → SessionMode
      → (ℕ → String)
      → ℕ
      → String
      → (String → RequestFrame V)
      → DaemonState V × Begun V
  unfolding reserve_id register cancel_reservation cancel_waiter
  start_at st a c mode draw now rpc_id request =
      let (sessions, reserved) = reserve_id st.sessions c.id mode max_reserve_attempts draw now in
      elim reserved [
        | none ↦ (record st { sessions = sessions }, fails id_exhausted)
        | some sid ↦
            let st' = record st { sessions = sessions } in
            let (pending, m) = register c.pending rpc_id in
            let (sink, sent) = send (request sid) c.sink in
            if sent
            then (set_client st' a (record c { pending = pending; sink = sink }), starts sid a m)
            else (
              set_client (give_up st' sid) a (record c { pending = cancel_waiter pending rpc_id }),
              fails start_closed,
            )
      ]

  -- `start_session` up to its wait; `chosen` is what `select_with_connect_wait` gave.
  unfoldable pub start_begin :
      DaemonState V
      → Selected
      → SessionMode
      → (ℕ → String)
      → ℕ
      → String
      → (String → RequestFrame V)
      → DaemonState V × Begun V
  unfolding start_at
  start_begin st (failed e) mode draw now rpc_id request = (st, fails (select_error e))
  start_begin st (found a) mode draw now rpc_id request = elim (client_at st.browsers a) [
    | none ↦ (st, fails no_browser)
    | some c ↦ start_at st a c mode draw now rpc_id request
  ]

  -- The session is committed, and its queue is spawned.
  unfoldable pub commit_session :
      DaemonState V → String → CommittedSessionData V → DaemonState V × (StartError V ⊎ Session V)
  unfolding commit_reservation spawn
  commit_session st sid d =
      let (sessions, done) = commit_reservation st.sessions sid d in
      elim done [
        | none ↦ (record st { sessions = sessions }, inl (start_refused (plain protocol_error)))
        | some s ↦
            (record st { sessions = sessions; tool_queues = spawn st.tool_queues sid }, inr s)
      ]

  -- `rollback_extension_session` on client `a`; a response, if one comes, is resolved by the task
  -- that reads the connection.
  unfoldable pub rollback_extension_session :
      DaemonState V → ℕ → RequestFrame V → Bool → DaemonState V
  unfolding register cancel_waiter
  rollback_extension_session st a request is_late = elim (client_at st.browsers a) [
    | none ↦ st
    | some c ↦
        let (pending, m) = register c.pending request.id in
        let (sink, sent) = send request c.sink in
        set_client st a (record c {
          pending = if sent && not is_late then pending else cancel_waiter pending request.id;
          sink = sink;
        })
  ]

  -- `start_session` after its wait. `parse` is what serde makes of the payload, with its trace;
  -- `rollback` is the request that a rollback sends and whether its own wait is too long.
  unfoldable pub start_finish :
      (V → Option (SessionStartResult V) × Option TimingTrace)
      → RequestFrame V × Bool
      → DaemonState V
      → String
      → ℕ
      → String
      → SessionMode
      → Answer V
      → DaemonState V × (StartError V ⊎ Session V)
  unfolding commit_session validate_start_result rollback_extension_session cancel_reservation
      cancel_waiter
  start_finish parse rollback st sid a rpc_id mode gone =
      (cancel_at_client (give_up st sid) a rpc_id, inl start_closed)
  start_finish parse rollback st sid a rpc_id mode elapsed =
      (cancel_at_client (give_up st sid) a rpc_id, inl start_timeout)
  start_finish parse rollback st sid a rpc_id mode (got (err e)) =
      (give_up st sid, inl (start_refused e))
  start_finish parse rollback st sid a rpc_id mode (got (ok v)) =
      let (parsed, timing) = parse v in
      elim parsed [
        | none ↦ (give_up st sid, inl (start_refused (plain protocol_error)))
        | some r ↦ elim (validate_start_result mode r timing) [
          | none ↦ (
            give_up (rollback_extension_session st a rollback.0 rollback.1) sid,
            inl (start_refused (plain protocol_error)),
          )
          | some d ↦ commit_session st sid d
        ]
      ]

  -- `stop_session` up to its wait.
  unfoldable pub stop_begin : DaemonState V → String → DaemonState V × (StopError V ⊎ Slot V)
  unfolding dispatch_after_closing
  stop_begin st sid = elim (lookup sid st.sessions) [
    | none ↦ (st, inl unknown)
    | some s ↦
        if is_some (get st.browsers s.browser_id)
        then (
          record st { tool_queues = (dispatch_after_closing st.tool_queues sid).0 },
          inr (dispatch_after_closing st.tool_queues sid).1,
        )
        else (st, inl browser_gone)
  ]

  abbrev pub reopen_session : DaemonState V → String → DaemonState V
  reopen_session st sid = record st { tool_queues = (reopen st.tool_queues sid).0 }

  abbrev pub end_session : DaemonState V → String → DaemonState V
  end_session st sid = drop_session_local (record st { sessions = remove sid st.sessions }) sid

  -- What `dispatch_after_closing` gave to `stop_session`.
  unfoldable pub stop_finish :
      (V → Option SessionStopResult)
      → DaemonState V
      → String
      → V ⊎ DispatchError V
      → DaemonState V × (StopError V ⊎ SessionStopResult)
  unfolding reopen drop_session_local
  stop_finish parse st sid (inl v) = elim (parse v) [
    | none ↦ (st, inl (stop_refused (plain protocol_error)))
    | some r ↦ elim r.return_failures [
      | [] ↦ (end_session st sid, inr r)
      | _ ∷ _ ↦ (reopen_session st sid, inl (returned_badly r))
    ]
  ]
  stop_finish parse st sid (inr (rpc e)) =
      if is_not_found e.code
      then (end_session st sid, inr (record { returned_tab_ids = []; return_failures = [] }))
      else (reopen_session st sid, inl (stop_refused e))
  stop_finish parse st sid (inr session_not_found) = (st, inl unknown)
  stop_finish parse st sid (inr session_stopping) = (st, inl stopping)
  stop_finish parse st sid (inr session_busy) = (st, inl busy)
  stop_finish parse st sid (inr timed_out) = (reopen_session st sid, inl stop_timeout)
  stop_finish parse st sid (inr queue_closed) = (reopen_session st sid, inl stop_closed)
  stop_finish parse st sid (inr queue_full) = (reopen_session st sid, inl stop_closed)
