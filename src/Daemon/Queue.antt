-- ===== src/Daemon/Queue.antt =====
-- crates/tabstride-cli/src/daemon/queue.rs: one queue for each session, with one worker. A queue
-- is shared by the registry, its worker and the callers, so it lives at an address of a heap. A
-- dispatch is cut where other tasks can run: take the slot, send, wait for the reply.
pub mod Refusal
pub mod Outstanding
pub mod Closing
use tab_stride.Prelude.{
  ◌==◌, ltb, if◌then◌else◌, ◌>>=◌, length, get_elem?, set, ℕ, String, ◌⊎◌, inl, inr, Bool, true,
  false, not, Option, none, some, List, [], ◌∷◌, ◌++◌,
}
use tab_stride.Protocol.Error.{RpcError, Body, ok, err, plain, timeout, not_found, protocol_error}
use tab_stride.Protocol.Method.{Method}
use tab_stride.Map.{Map, lookup, insert, remove, contains_key}
use tab_stride.Json.{Json}
use tab_stride.Timing.Carrier.{trace_from, put_trace}

-- `QUEUE_CAPACITY`
abbrev pub queue_capacity : ℕ
queue_capacity = 64

-- `ToolJob`; `respond` is the caller that waits for the answer.
pub record ToolJob (V : Type 0) : Type 0 where
  pub method : Method
  pub params : V
  pub timeout_ms : ℕ
  pub respond : ℕ
  pub inflight : Option ℕ
  pub session_id : String

-- One channel with its `QueueState`, and the job that its worker has taken. `is_open` is false
-- once the worker has exited and dropped the receiver.
pub record Queue (V : Type 0) : Type 0 where
  pub busy : Bool
  pub jobs : List (ToolJob V)
  pub running : Option (ToolJob V)
  pub is_open : Bool

pub record QueueEntry : Type 0 where
  pub queue : ℕ
  pub accepting : Bool

-- `ToolQueueRegistry`, and the queues that exist.
pub record ToolQueues (V : Type 0) : Type 0 where
  pub table : Map QueueEntry
  pub queues : List (Queue V)

-- `DispatchError`
pub data DispatchError (V : Type 0) : Type 0 where
  session_not_found session_stopping session_busy queue_full queue_closed timed_out :
      DispatchError V
  rpc : RpcError V → DispatchError V

-- What the first part of a dispatch gives: a queue whose slot the caller now holds, or an error.
pub data Slot (V : Type 0) : Type 0 where
  holds : ℕ → Slot V
  rejects : DispatchError V → Slot V

-- What one attempt to send gives.
pub data Sending (V : Type 0) : Type 0 where
  sent waits : Sending V
  fails : DispatchError V → Sending V

-- How the wait for the reply ends: an answer, a dropped sender, or the time is over.
pub data Reply (V : Type 0) : Type 0 where
  answered : Body V → Reply V
  dropped elapsed : Reply V

module _ {V : Type 0} where
  abbrev pub empty : ToolQueues V
  empty = record { table = []; queues = [] }

  abbrev pub new_queue : Queue V
  new_queue = record { busy = false; jobs = []; running = none; is_open = true }

  abbrev pub queue_at : ToolQueues V → ℕ → Option (Queue V)
  queue_at r a = get_elem? r.queues a

  unfoldable pub is_accepting : ToolQueues V → String → Bool
  is_accepting r sid = elim (lookup sid r.table) [ none ↦ false | some e ↦ e.accepting ]

  unfoldable pub spawn : ToolQueues V → String → ToolQueues V
  spawn r sid = record {
    table = insert sid (record { queue = length r.queues; accepting = true }) r.table;
    queues = r.queues ++ new_queue ∷ [];
  }

  unfoldable pub remove_queue : ToolQueues V → String → ToolQueues V × Bool
  remove_queue r sid = (record r { table = remove sid r.table }, contains_key sid r.table)

  unfoldable pub reopen : ToolQueues V → String → ToolQueues V × Bool
  reopen r sid = elim (lookup sid r.table) [
    | none ↦ (r, false)
    | some e ↦ (record r { table = insert sid (record e { accepting = true }) r.table }, true)
  ]

  -- The `busy` flag under its lock; `none` if it is already set.
  unfoldable pub take_slot : Queue V → Option (Queue V)
  take_slot q = if q.busy then none else some (record q { busy = true })

  unfoldable pub clear_busy : Queue V → Queue V
  clear_busy q = record q { busy = false }

  -- The slot of the queue at an address, which the registry has found to accept.
  unfoldable pub hold : ToolQueues V → ℕ → ToolQueues V × Slot V
  unfolding take_slot
  hold r a = elim (queue_at r a >>= take_slot) [
    | none ↦ (r, rejects session_busy)
    | some q ↦ (record r { queues = set r.queues a q }, holds a)
  ]

  -- The locked part of `dispatch`.
  unfoldable pub dispatch : ToolQueues V → String → ToolQueues V × Slot V
  unfolding hold
  dispatch r sid = elim (lookup sid r.table) [
    | none ↦ (r, rejects session_not_found)
    | some e ↦ if e.accepting then hold r e.queue else (r, rejects session_stopping)
  ]

  -- `accepting` is cleared if the slot was taken.
  abbrev pub stop_accepting : String → QueueEntry → ToolQueues V × Slot V → ToolQueues V × Slot V
  stop_accepting sid e (r, holds a) =
      (record r { table = insert sid (record e { accepting = false }) r.table }, holds a)
  stop_accepting sid e (r, rejects reason) = (r, rejects reason)

  -- The locked part of `dispatch_after_closing`.
  unfoldable pub dispatch_after_closing : ToolQueues V → String → ToolQueues V × Slot V
  unfolding hold
  dispatch_after_closing r sid = elim (lookup sid r.table) [
    | none ↦ (r, rejects session_not_found)
    | some e ↦
        if e.accepting then stop_accepting sid e (hold r e.queue) else (r, rejects session_stopping)
  ]

  abbrev pub push : Queue V → ToolJob V → Queue V
  push q job = record q { jobs = q.jobs ++ job ∷ [] }

  -- `dispatch_with_sender` without `wait_for_capacity`: `try_send`.
  unfoldable pub try_send : Queue V → ToolJob V → Queue V × Sending V
  unfolding clear_busy
  try_send q job =
      if not q.is_open
      then (clear_busy q, fails queue_closed)
      else if ltb (length q.jobs) queue_capacity
      then (push q job, sent)
      else (clear_busy q, fails queue_full)

  -- With `wait_for_capacity`: `send` under a timeout, one look at the channel.
  unfoldable pub send_or_wait : Bool → Queue V → ToolJob V → Queue V × Sending V
  unfolding clear_busy
  send_or_wait is_late q job =
      if not q.is_open
      then (clear_busy q, fails queue_closed)
      else if ltb (length q.jobs) queue_capacity
      then (push q job, sent)
      else if is_late
      then (clear_busy q, fails timed_out)
      else (q, waits)

  -- `rx.recv()`, when the worker is idle.
  unfoldable pub recv : Queue V → Queue V
  recv q = elim q.running [
    | some job ↦ q
    | none ↦ elim q.jobs [ [] ↦ q | job ∷ rest ↦ record q { jobs = rest; running = some job } ]
  ]

  -- The end of a turn of `run_worker`: the slot is free, and the answer is sent to its caller.
  unfoldable pub finish : Queue V → Body V → Queue V × Option (ℕ × Body V)
  unfolding clear_busy
  finish q result = elim q.running [
    | none ↦ (q, none)
    | some job ↦ (record (clear_busy q) { running = none }, some (job.respond, result))
  ]

  -- The end of `dispatch_with_sender`; `inl` is the value.
  unfoldable pub await_reply : Reply V → V ⊎ DispatchError V
  await_reply (answered (ok v)) = inl v
  await_reply (answered (err e)) = inr (rpc e)
  await_reply dropped = inr queue_closed
  await_reply elapsed = inr timed_out

module _ (j : Json) where
  open j use {Value, object, text}

  -- The job that `dispatch_with_sender` builds; `now` is `epoch_us()`.
  unfoldable pub make_job : Method → Value → ℕ → ℕ → Option ℕ → String → ℕ → ToolJob Value
  unfolding trace_from put_trace
  make_job method params timeout_ms respond inflight session_id now = record {
    method = method;
    params =
        put_trace j params (record (trace_from j params) { serve_queue_entered_at = some now });
    timeout_ms = timeout_ms;
    respond = respond;
    inflight = inflight;
    session_id = session_id;
  }

  unfoldable pub session_busy_rpc : RpcError Value
  session_busy_rpc = record {
    code = timeout;
    details = some (object (("reason", text "session_busy") ∷ []));
  }

  unfoldable pub into_rpc : DispatchError Value → RpcError Value
  unfolding session_busy_rpc
  into_rpc session_not_found = plain not_found
  into_rpc session_stopping = plain timeout
  into_rpc session_busy = session_busy_rpc
  into_rpc queue_full = plain protocol_error
  into_rpc queue_closed = plain protocol_error
  into_rpc timed_out = plain timeout
  into_rpc (rpc e) = e
