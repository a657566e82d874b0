-- ===== src/Daemon/Forward.antt =====
-- `forward_one` of crates/tabstride-cli/src/daemon/queue.rs, cut at its one wait: what happens
-- before the request is on its way, and what happens with the outcome of the wait.
pub mod Aborted
use tab_stride.Prelude.{ℕ, if◌then◌else◌, ◌>>=◌, set, String, Bool, true, false, Option, none, some}
use tab_stride.Protocol.Error.{
  plain, timeout, not_found, protocol_error, cancelled, RpcError, Body, err,
}
use tab_stride.Protocol.Error
use tab_stride.Daemon.Inflight
use tab_stride.Daemon.Inflight.{
  user_aborted, promoted, refused, send_failed, CancelReason, InflightEntry,
  promote_to_forwarded_with, entry_at,
}
use tab_stride.Daemon.Browsers.{get, send, client_at, BrowserClient}
use tab_stride.Daemon.Browsers.Pending.{waiting, closed, delivered, register, Mailbox}
use tab_stride.Daemon.Browsers.Pending.{cancel as cancel_waiter}
use tab_stride.Protocol.Frame.{ResponseFrame, RequestFrame}
use tab_stride.Daemon.State.{DaemonState, set_client}
use tab_stride.Json.{Json}
use tab_stride.Daemon.Queue.{ToolJob}
use tab_stride.Map.{remove, lookup}
use tab_stride.Timing.Carrier.{trace_from, timing_field, put_trace}

pub data WaitOutcome (V : Type 0) : Type 0 where
  response : ResponseFrame V → WaitOutcome V
  stopped waiter_closed late : WaitOutcome V

-- How `forward_one` gets to its wait: an early error, or a waiting mailbox of a client.
pub data Begun (V : Type 0) : Type 0 where
  fails : RpcError V → Begun V
  waits_for : ℕ → ℕ → Begun V

-- `ToolInflightEntry::is_cancelled`
abbrev pub is_tripped : Option InflightEntry → Bool
is_tripped none = false
is_tripped (some e) = e.tripped

module _ {V : Type 0} where
  -- One look at the waiter and then at the clock, as `tokio::time::timeout` takes it.
  unfoldable pub await_response : Mailbox V → Bool → Option (WaitOutcome V)
  await_response (delivered r) is_late = some (response r)
  await_response closed is_late = some waiter_closed
  await_response waiting true = some late
  await_response waiting false = none

  -- One look of `await_with_optional_cancel`, with the flag of the token if there is one.
  unfoldable pub await_with_optional_cancel :
      Option Bool → Mailbox V → Bool → Option (WaitOutcome V)
  unfolding await_response
  await_with_optional_cancel (some true) m is_late = some stopped
  await_with_optional_cancel (some false) m is_late = await_response m is_late
  await_with_optional_cancel none m is_late = await_response m is_late

  -- `cancelled_error`, by the reason of the entry.
  unfoldable pub cancelled_error : Option CancelReason → RpcError V
  cancelled_error (some user_aborted) = plain Error.user_aborted
  cancelled_error (some Inflight.cancelled) = plain Error.cancelled
  cancelled_error none = plain Error.cancelled

  -- The entry of a job, if it has one.
  abbrev pub entry_of : DaemonState V → ToolJob V → Option InflightEntry
  entry_of st job = job.inflight >>= entry_at st.tool_inflight

  abbrev pub reason_of : DaemonState V → ToolJob V → Option CancelReason
  reason_of st job = do e ← entry_of st job; e.cancel_reason

  abbrev pub set_entry : DaemonState V → Option ℕ → InflightEntry → DaemonState V
  set_entry st none e = st
  set_entry st (some i) e = record st {
    tool_inflight = record st.tool_inflight { entries = set st.tool_inflight.entries i e };
  }

  -- The offer of the request to the sink of client `c` at `a`, under the lock of the entry if
  -- there is one. `c` has the waiter `m` registered already.
  unfoldable pub offer_request :
      DaemonState V
      → ToolJob V
      → ℕ
      → BrowserClient V
      → String
      → RequestFrame V
      → ℕ
      → DaemonState V × Begun V
  unfolding promote_to_forwarded_with cancelled_error cancel_waiter
  offer_request st job a c browser_id request m =
      let dropped = record c { pending = cancel_waiter c.pending request.id } in
      elim (entry_of st job) [
        | none ↦
            let (sink, sent) = send request c.sink in
            if sent
            then (set_client st a (record c { sink = sink }), waits_for a m)
            else (set_client st a dropped, fails (plain protocol_error))
        | some e ↦
            let r = promote_to_forwarded_with e browser_id request.id (send request) c.sink in
            elim r.outcome [
              | promoted ↦ (
                set_entry (set_client st a (record c { sink = r.world })) job.inflight r.entry,
                waits_for a m,
              )
              | refused ↦ (set_client st a dropped, fails (cancelled_error (reason_of st job)))
              | send_failed ↦ (
                set_entry (set_client st a dropped) job.inflight r.entry,
                fails (plain protocol_error),
              )
            ]
      ]

  -- The waiter is dropped, so that a late response finds nobody.
  abbrev pub drop_waiter : DaemonState V → ℕ → String → DaemonState V
  drop_waiter st a rpc_id = elim (client_at st.browsers a) [
    | none ↦ st
    | some c ↦ set_client st a (record c { pending = cancel_waiter c.pending rpc_id })
  ]

  -- What follows the wait.
  unfoldable pub forward_finish :
      DaemonState V → ToolJob V → ℕ → String → WaitOutcome V → DaemonState V × Body V
  unfolding cancelled_error cancel_waiter
  forward_finish st job a rpc_id (response r) = (st, r.body)
  forward_finish st job a rpc_id stopped =
      (drop_waiter st a rpc_id, err (cancelled_error (reason_of st job)))
  forward_finish st job a rpc_id waiter_closed =
      (drop_waiter st a rpc_id, err (plain protocol_error))
  forward_finish st job a rpc_id late = (drop_waiter st a rpc_id, err (plain timeout))

  -- `cancel_token`: the flag of the token of the job's entry, if it has one.
  abbrev pub token_of : DaemonState V → ToolJob V → Option Bool
  token_of st job = do e ← entry_of st job; some e.tripped

  -- One look of the wait, and what follows if it ends: `none` is that the job waits on.
  unfoldable pub forward_wait :
      DaemonState V → ToolJob V → ℕ → String → Mailbox V → Bool → Option (DaemonState V × Body V)
  unfolding await_with_optional_cancel forward_finish
  forward_wait st job a rpc_id mailbox is_late = do
    outcome ← await_with_optional_cancel (token_of st job) mailbox is_late
    some (forward_finish st job a rpc_id outcome)

module _ (j : Json) where
  open j use {Value, object, as_object}

  -- The parameters without the timing field, and what stood in it.
  unfoldable pub split_timing : Value → Value × Option Value
  split_timing v = elim (as_object v) [
    | none ↦ (v, none)
    | some m ↦ (object (remove timing_field m), lookup timing_field m)
  ]

  -- The frame of a job, under the id `rpc_id`, at `now`.
  unfoldable pub tool_request : ToolJob Value → String → ℕ → RequestFrame Value
  unfolding split_timing trace_from put_trace
  tool_request job rpc_id now =
      let timing = trace_from j job.params in
      let stamped =
        put_trace j job.params
          (record timing { serve_queue_started_at = some now; extension_sent_at = some now }) in
      let (params, wire_timing) = split_timing stamped in
      record { id = rpc_id; method = job.method; params = some params; timing = wire_timing }

  unfoldable pub forward_begin :
      DaemonState Value → String → ToolJob Value → String → ℕ → DaemonState Value × Begun Value
  unfolding offer_request tool_request cancelled_error register
  forward_begin st sid job rpc_id now =
      if is_tripped (entry_of st job)
      then (st, fails (cancelled_error (reason_of st job)))
      else elim (lookup sid st.sessions) [
        | none ↦ (st, fails (plain not_found))
        | some session ↦ elim (get st.browsers session.browser_id) [
          | none ↦ (st, fails (plain not_found))
          | some a ↦ elim (client_at st.browsers a) [
            | none ↦ (st, fails (plain not_found))
            | some c ↦
                let (pending, m) = register c.pending rpc_id in
                offer_request st job a (record c { pending = pending }) session.browser_id
                  (tool_request job rpc_id now) m
          ]
        ]
      ]
