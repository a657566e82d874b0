-- ===== src/Daemon/Tools.antt =====
-- crates/tabstride-cli/src/daemon/ipc.rs: how a tool call and a wait enter the daemon.
pub mod Timeout
pub mod Refused
pub mod Interrupted
use tab_stride.Prelude.{
  ℕ, ltb, leb, ◌==◌, if◌then◌else◌, ◌>>=◌, ◌+◌, ◌^◌, String, ◌⊎◌, inl, inr, Bool, ◌&&◌, Option,
  none, some, str_eq,
}
use tab_stride.Protocol.Error.{
  plain, invalid_params, user_aborted, protocol_error, cancelled, ok, err, RpcError, Body,
}
use tab_stride.Daemon.Inflight.{register, unregister, InflightGuard}
use tab_stride.Daemon.Abort.{
  register as register_token, unregister as unregister_token, AbortRegistry, AbortGuard,
}
use tab_stride.Daemon.Queue.{rejects, holds, DispatchError}
use tab_stride.Json.{Json, get}
use tab_stride.Daemon.Queue.{dispatch, into_rpc}
use tab_stride.Daemon.Interrupts.{try_consume}
use tab_stride.Protocol.Method.{is_mutating, Method}
use tab_stride.Daemon.State.{DaemonState}

-- `DEFAULT_TOOL_TIMEOUT`, `FAILURE_EVIDENCE_GRACE`, `MAX_WAIT_MS` and `MAX_BROWSER_WAIT`, in ms.
abbrev pub default_tool_timeout_ms : ℕ
default_tool_timeout_ms = 30000

abbrev pub failure_evidence_grace_ms : ℕ
failure_evidence_grace_ms = 2000

abbrev pub max_wait_ms : ℕ
max_wait_ms = 300000

abbrev pub max_browser_wait_ms : ℕ
max_browser_wait_ms = 60000

-- `clamp_browser_wait`
unfoldable pub clamp_browser_wait : Option ℕ → Option ℕ
clamp_browser_wait none = none
clamp_browser_wait (some ms) =
    if ms == 0
    then none
    else if leb ms max_browser_wait_ms
    then some ms
    else some max_browser_wait_ms

-- A tool call that holds a slot: its guard and the address of its queue, or its error.
pub data Accepted (V : Type 0) : Type 0 where
  fails : RpcError V → Accepted V
  enters : InflightGuard → ℕ → ℕ → Accepted V

-- How `handle_wait_ms` goes on: it answers at once, or it sleeps with a guard.
pub data Waiting (V : Type 0) : Type 0 where
  answers : Body V → Waiting V
  sleeps : AbortGuard → ℕ → Waiting V

module _ (j : Json) where
  open j use {Value, as_str, as_u64}

  -- `inl` is the duration in milliseconds.
  unfoldable pub tool_dispatch_timeout : Value → ℕ ⊎ RpcError Value
  tool_dispatch_timeout params = elim (get j "timeout_ms" params) [
    | none ↦ inl (default_tool_timeout_ms + failure_evidence_grace_ms)
    | some raw ↦ elim (as_u64 raw) [
      | none ↦ inr (plain invalid_params)
      | some ms ↦
          if ms == 0
          then inr (plain invalid_params)
          else if ltb ms (2 ^ 32)
          then inl (ms + failure_evidence_grace_ms)
          else inr (plain invalid_params)
    ]
  ]

  -- The non-empty `session_id` of the parameters.
  abbrev pub session_of : Value → Option String
  session_of params = elim (get j "session_id" params >>= as_str) [
    | none ↦ none
    | some s ↦ if str_eq s "" then none else some s
  ]

  -- The call is registered, and then tries to take the slot of its session; the guard is dropped
  -- if it cannot.
  unfoldable pub register_and_dispatch :
      DaemonState Value → String → String → ℕ → DaemonState Value × Accepted Value
  unfolding register dispatch unregister into_rpc
  register_and_dispatch st cli_rpc_id sid timeout_ms =
      let (inflight, registered) = register st.tool_inflight cli_rpc_id sid in
      elim registered [
        | none ↦ (st, fails (plain protocol_error))
        | some guard ↦
            let (queues, slot) = dispatch st.tool_queues sid in
            elim slot [
              | rejects e ↦ (
                record st { tool_inflight = unregister inflight guard; tool_queues = queues },
                fails (into_rpc j e),
              )
              | holds a ↦ (
                record st { tool_inflight = inflight; tool_queues = queues },
                enters guard a timeout_ms,
              )
            ]
      ]

  unfoldable pub timed_dispatch :
      DaemonState Value → String → String → ℕ ⊎ RpcError Value → DaemonState Value × Accepted Value
  unfolding register_and_dispatch
  timed_dispatch st cli_rpc_id sid (inr e) = (st, fails e)
  timed_dispatch st cli_rpc_id sid (inl ms) = register_and_dispatch st cli_rpc_id sid ms

  -- `handle_tool_dispatch`, up to the send.
  unfoldable pub handle_tool_dispatch :
      DaemonState Value → String → Method → Value → DaemonState Value × Accepted Value
  unfolding try_consume tool_dispatch_timeout timed_dispatch is_mutating
  handle_tool_dispatch st cli_rpc_id method params = elim (session_of params) [
    | none ↦ (st, fails (plain invalid_params))
    | some sid ↦
        let (interrupts, pending) = try_consume st.session_interrupts sid in
        let probed =
          if is_mutating method then record st { session_interrupts = interrupts } else st in
        if is_mutating method && pending
        then (probed, fails (plain user_aborted))
        else timed_dispatch probed cli_rpc_id sid (tool_dispatch_timeout params)
  ]

  -- The end of `handle_tool_dispatch`: the guard is dropped, and the outcome is the answer.
  unfoldable pub finish_call :
      DaemonState Value
      → InflightGuard
      → Value ⊎ DispatchError Value
      → DaemonState Value × Body Value
  unfolding unregister into_rpc
  finish_call st guard outcome = (
    record st { tool_inflight = unregister st.tool_inflight guard },
    elim outcome [ inl v ↦ ok v | inr e ↦ err (into_rpc j e) ],
  )

  abbrev pub sleep_with : ℕ → AbortRegistry × Option AbortGuard → AbortRegistry × Waiting Value
  sleep_with duration_ms (r, none) = (r, answers (err (plain protocol_error)))
  sleep_with duration_ms (r, some guard) = (r, sleeps guard duration_ms)

  -- `handle_wait_ms` up to its wait; `duration_ms` is what serde reads, if it can, and `answer`
  -- encodes a `WaitMsResult`.
  unfoldable pub handle_wait_ms :
      (ℕ → Value) → AbortRegistry → String → Option ℕ → AbortRegistry × Waiting Value
  unfolding register_token
  handle_wait_ms answer r rpc_id none = (r, answers (err (plain invalid_params)))
  handle_wait_ms answer r rpc_id (some duration_ms) =
      if ltb max_wait_ms duration_ms
      then (r, answers (err (plain invalid_params)))
      else if duration_ms == 0
      then (r, answers (ok (answer 0)))
      else sleep_with duration_ms (register_token r rpc_id)

  -- The end of the sleep, in full or by the token; the guard is dropped.
  unfoldable pub wait_finish :
      (ℕ → Value) → AbortRegistry → AbortGuard → ℕ → Bool → AbortRegistry × Body Value
  unfolding unregister_token
  wait_finish answer r guard duration_ms slept =
      (unregister_token r guard, if slept then ok (answer duration_ms) else err (plain cancelled))
