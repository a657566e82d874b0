-- ===== src/Daemon/Lifecycle/Stop.antt =====
-- How a session stands after an attempt to stop it.
use tab_stride.Prelude.{
  ℕ, Bool-cases, Option-cases, is_some, ℤ, String, ◌≡◌, refl, ◌⊎◌, inl, inr, Bool, true, false, not,
  ◌&&◌, Option, none, some, List, [], ◌∷◌, arith,
}
use tab_stride.Daemon.Queue.{
  session_not_found, session_stopping, session_busy, timed_out, queue_closed, queue_full, rpc,
  reopen, DispatchError, remove_queue, is_accepting, dispatch_after_closing, ToolQueues, holds,
  dispatch, rejects,
}
use tab_stride.Daemon.Lifecycle.{
  SessionStopResult, stop_finish, StopError, reopen_session, stop_closed, end_session,
  returned_badly, stop_timeout, is_not_found, stop_refused,
}
use tab_stride.Daemon.State.{DaemonState, drop_session_local}
use tab_stride.Map.{contains_key, lookup}
use tab_stride.Daemon.Interrupts.{is_pending, drop_session}
use tab_stride.Protocol.Error.{ErrorCode}
use tab_stride.Map.Laws.{lookup-remove_self, lookup-insert_self}
use tab_stride.Daemon.Queue.Closing.{refuses_until_reopened}

module _ {V : Type 0} where
  -- The replies to a stop request that was queued, with a payload that can be read.
  abbrev pub is_reply : (V → Option SessionStopResult) → V ⊎ DispatchError V → Bool
  is_reply parse (inl v) = is_some (parse v)
  is_reply parse (inr session_not_found) = false
  is_reply parse (inr session_stopping) = false
  is_reply parse (inr session_busy) = false
  is_reply parse (inr queue_full) = true
  is_reply parse (inr queue_closed) = true
  is_reply parse (inr timed_out) = true
  is_reply parse (inr (rpc e)) = true

  abbrev pub is_gone : DaemonState V → String → Bool
  is_gone st sid =
      not (contains_key sid st.sessions)
      && not (contains_key sid st.tool_queues.table)
      && not (is_pending st.session_interrupts sid)

  -- Stopped for good, or open for calls again if it still has its queue.
  abbrev pub Settled :
      DaemonState V → String → DaemonState V × (StopError V ⊎ SessionStopResult) → Type 0
  Settled st sid (st', inr r) = is_gone st' sid ≡ true
  Settled st sid (st', inl e) =
      (st'.sessions ≡ st.sessions)
      × (is_accepting st'.tool_queues sid ≡ contains_key sid st.tool_queues.table)

  end_session_gone : (st : DaemonState V) (sid : String) → is_gone (end_session st sid) sid ≡ true
  unfolding drop_session_local remove_queue drop_session is_pending
  end_session_gone st sid =
      rw
        (
          lookup-remove_self sid st.sessions,
          lookup-remove_self sid st.tool_queues.table,
          lookup-remove_self sid st.session_interrupts,
        )
        refl

  reopen_accepts :
      (r : ToolQueues V) (sid : String)
      → is_accepting (reopen r sid).0 sid ≡ contains_key sid r.table
  unfolding reopen is_accepting
  reopen_accepts r sid = elim (Option-cases (lookup sid r.table)) [
    | inl n ↦ rw (n, reopen, is_accepting) (rw n refl)
    | inr (e, l) ↦
        rw (l, reopen, is_accepting, lookup-insert_self sid (record e { accepting = true }) r.table)
          refl
  ]

  stop_reopens :
      (st : DaemonState V) (sid : String) (e : StopError V)
      → Settled st sid (reopen_session st sid, inl e)
  stop_reopens st sid e = (refl, reopen_accepts st.tool_queues sid)

  stop_answered :
      (parse : V → Option SessionStopResult) (st : DaemonState V) (sid : String) (v : V)
      (r : SessionStopResult)
      → parse v ≡ some r
      → Settled st sid (stop_finish parse st sid (inl v))
  unfolding stop_finish
  stop_answered parse st sid v r h = go r.return_failures refl
    where
      go :
          (fs : List (ℤ × ErrorCode))
          → r.return_failures ≡ fs
          → Settled st sid (stop_finish parse st sid (inl v))
      go [] e = rw (stop_finish, h, e) (end_session_gone st sid)
      go (f ∷ fs) e = rw (stop_finish, h, e) (stop_reopens st sid (returned_badly r))

  -- A stop whose request was queued and whose reply, if it is a value, can be read, leaves the
  -- session gone with its queue and its interrupt marker if it reports success, and otherwise
  -- leaves all sessions there and the session's queue accepting again, unless that queue was removed
  -- while the stop waited.
  pub stop_finish-Settled :
      (parse : V → Option SessionStopResult) (st : DaemonState V) (sid : String)
      (reply : V ⊎ DispatchError V)
      → is_reply parse reply ≡ true
      → Settled st sid (stop_finish parse st sid reply)
  unfolding stop_finish
  stop_finish-Settled parse st sid (inl v) h = elim (Option-cases (parse v)) [
    | inl n ↦ absurd (ground arith)
    | inr (r, e) ↦ stop_answered parse st sid v r e
  ]
  stop_finish-Settled parse st sid (inr session_not_found) h = absurd (cc)
  stop_finish-Settled parse st sid (inr session_stopping) h = absurd (cc)
  stop_finish-Settled parse st sid (inr session_busy) h = absurd (cc)
  stop_finish-Settled parse st sid (inr queue_full) h = stop_reopens st sid stop_closed
  stop_finish-Settled parse st sid (inr queue_closed) h = stop_reopens st sid stop_closed
  stop_finish-Settled parse st sid (inr timed_out) h = stop_reopens st sid stop_timeout
  stop_finish-Settled parse st sid (inr (rpc e)) h = elim (Bool-cases (is_not_found e.code)) [
    | inl y ↦ rw (y, stop_finish) (end_session_gone st sid)
    | inr n ↦ rw (n, stop_finish) (stop_reopens st sid (stop_refused e))
  ]

  -- A stop that took the session's slot and whose reply is a value that cannot be read leaves the
  -- session there with its queue closed: the next stop is refused as one that is under way.
  pub unreadable_reply_sticks :
      (parse : V → Option SessionStopResult) (st : DaemonState V) (sid : String) (a : ℕ) (v : V)
      → (dispatch_after_closing st.tool_queues sid).1 ≡ holds a
      → parse v ≡ none
      → let st' = record st { tool_queues = (dispatch_after_closing st.tool_queues sid).0 } in
        let st'' = (stop_finish parse st' sid (inl v)).0 in
        (st''.sessions ≡ st.sessions)
        × ((dispatch st''.tool_queues sid).1 ≡ rejects session_stopping)
        × ((dispatch_after_closing st''.tool_queues sid).1 ≡ rejects session_stopping)
  unfolding stop_finish
  unreadable_reply_sticks parse st sid a v h n =
      let (x, y) = refuses_until_reopened st.tool_queues sid a [] h tt in
      rw (stop_finish, n) (refl, rw x refl, rw y refl)
