-- ===== src/Daemon/Queue/Closing.antt =====
-- A session that is being stopped takes no more calls.
use tab_stride.Prelude.{
  ℕ, String, ◌≡◌, refl, Bool, true, false, not, some, List, [], ◌∷◌, arith, str_eq, Bool-cases,
  Option-cases, ◌>>=◌, ◌∙◌, inl, inr, length, sym, none, eq_iff, All,
}
use tab_stride.Daemon.Queue.{
  Queue, ToolQueues, hold, dispatch, dispatch_after_closing, spawn, QueueEntry, holds, rejects,
  remove_queue, session_stopping, reopen, queue_at, Slot, take_slot, stop_accepting,
  session_not_found,
}
use tab_stride.Map.{lookup, insert}
use tab_stride.Map.Laws.{lookup-insert, lookup-insert_self, lookup-remove}

-- What the rest of the daemon does to the registry. `work_on` is any step of the callers and of the
-- worker on the channels, which leaves the table alone.
pub data Op (V : Type 0) : Type 0 where
  op_dispatch op_close op_spawn op_remove op_reopen : String → Op V
  work_on : List (Queue V) → Op V

module _ {V : Type 0} where
  abbrev pub run_op : ToolQueues V → Op V → ToolQueues V
  run_op r (op_dispatch sid) = (dispatch r sid).0
  run_op r (op_close sid) = (dispatch_after_closing r sid).0
  run_op r (op_spawn sid) = spawn r sid
  run_op r (op_remove sid) = (remove_queue r sid).0
  run_op r (op_reopen sid) = (reopen r sid).0
  run_op r (work_on queues) = record r { queues = queues }

  abbrev pub run_ops : ToolQueues V → List (Op V) → ToolQueues V
  run_ops r [] = r
  run_ops r (o ∷ os) = run_ops (run_op r o) os

  -- The operations that give the session a queue that accepts, or take its queue away.
  abbrev pub leaves : String → Op V → Bool
  leaves sid (op_spawn k) = not (str_eq k sid)
  leaves sid (op_remove k) = not (str_eq k sid)
  leaves sid (op_reopen k) = not (str_eq k sid)
  leaves sid (op_dispatch k) = true
  leaves sid (op_close k) = true
  leaves sid (work_on queues) = true

  abbrev pub IsClosing : String → ToolQueues V → Type 0
  IsClosing sid r = (e : QueueEntry) × (lookup sid r.table ≡ some e) × (e.accepting ≡ false)

  hold_table : (r : ToolQueues V) (a : ℕ) → (hold r a).0.table ≡ r.table
  unfolding hold
  hold_table r a = elim (Option-cases (queue_at r a >>= take_slot)) [
    | inl e ↦ rw (e, hold) refl
    | inr (q, e) ↦ rw (e, hold) refl
  ]

  dispatch_table : (r : ToolQueues V) (k : String) → (dispatch r k).0.table ≡ r.table
  unfolding dispatch
  dispatch_table r k = elim (Option-cases (lookup k r.table)) [
    | inl h ↦ rw (h, dispatch) refl
    | inr (e, h) ↦ elim (Bool-cases e.accepting) [
      | inl y ↦ rw (h, dispatch, y) (hold_table r e.queue)
      | inr n ↦ rw (h, dispatch, n) refl
    ]
  ]

  stop_accepting_other :
      (k j : String) (e : QueueEntry) (p : ToolQueues V × Slot V)
      → str_eq k j ≡ false
      → lookup j (stop_accepting k e p).0.table ≡ lookup j p.0.table
  stop_accepting_other k j e (r, holds a) n =
      rw (lookup-insert k j (record e { accepting = false }) r.table, n) refl
  stop_accepting_other k j e (r, rejects reason) n = refl

  close_other :
      (r : ToolQueues V) (k j : String)
      → str_eq k j ≡ false
      → lookup j (dispatch_after_closing r k).0.table ≡ lookup j r.table
  unfolding dispatch_after_closing
  close_other r k j n = elim (Option-cases (lookup k r.table)) [
    | inl h ↦ rw (h, dispatch_after_closing) refl
    | inr (e, h) ↦ elim (Bool-cases e.accepting) [
      | inl y ↦
          rw (h, dispatch_after_closing, y)
            (stop_accepting_other k j e (hold r e.queue) n ∙ rw (hold_table r e.queue) refl)
      | inr off ↦ rw (h, dispatch_after_closing, off) refl
    ]
  ]

  stop_accepting-IsClosing :
      (sid : String) (e : QueueEntry) (p : ToolQueues V × Slot V) (a : ℕ)
      → (stop_accepting sid e p).1 ≡ holds a
      → IsClosing sid (stop_accepting sid e p).0
  stop_accepting-IsClosing sid e (r, holds b) a h = (
    record e { accepting = false },
    lookup-insert_self sid (record e { accepting = false }) r.table,
    refl,
  )
  stop_accepting-IsClosing sid e (r, rejects reason) a h = absurd (cc)

  close_missing :
      (r : ToolQueues V) (sid : String)
      → lookup sid r.table ≡ none
      → dispatch_after_closing r sid ≡ (r, rejects session_not_found)
  unfolding dispatch_after_closing
  close_missing r sid h = rw (h, dispatch_after_closing) refl

  close_accepting :
      (r : ToolQueues V) (sid : String) (e : QueueEntry)
      → lookup sid r.table ≡ some e
      → e.accepting ≡ true
      → dispatch_after_closing r sid ≡ stop_accepting sid e (hold r e.queue)
  unfolding dispatch_after_closing
  close_accepting r sid e h y = rw (h, dispatch_after_closing, y) refl

  refused :
      (r : ToolQueues V) (sid : String)
      → IsClosing sid r
      → (dispatch r sid ≡ (r, rejects session_stopping))
        × (dispatch_after_closing r sid ≡ (r, rejects session_stopping))
  unfolding dispatch dispatch_after_closing
  refused r sid (e, h, n) = (rw (h, dispatch, n) refl, rw (h, dispatch_after_closing, n) refl)

  closed_IsClosing :
      (r : ToolQueues V) (sid : String) (a : ℕ)
      → (dispatch_after_closing r sid).1 ≡ holds a
      → IsClosing sid (dispatch_after_closing r sid).0
  closed_IsClosing r sid a h = elim (Option-cases (lookup sid r.table)) [
    | inl n ↦ absurd (ground (arith, close_missing r sid n))
    | inr (e, l) ↦ elim (Bool-cases e.accepting) [
      | inl y ↦ rw (close_accepting r sid e l y) (
          stop_accepting-IsClosing sid e (hold r e.queue) a
            (rw (sym (close_accepting r sid e l y)) h))
      | inr off ↦ absurd (ground (arith, (refused r sid (e, l, off)).1))
    ]
  ]

  reopen_missing : (r : ToolQueues V) (k : String) → lookup k r.table ≡ none → (reopen r k).0 ≡ r
  unfolding reopen
  reopen_missing r k h = rw (h, reopen) refl

  reopen_found :
      (r : ToolQueues V) (k : String) (f : QueueEntry)
      → lookup k r.table ≡ some f
      → (reopen r k).0.table ≡ insert k (record f { accepting = true }) r.table
  unfolding reopen
  reopen_found r k f h = rw (h, reopen) refl

  run_op-IsClosing :
      (r : ToolQueues V) (sid : String) (o : Op V)
      → leaves sid o ≡ true
      → IsClosing sid r
      → IsClosing sid (run_op r o)
  unfolding spawn remove_queue reopen
  run_op-IsClosing r sid (op_dispatch k) l (e, h, n) = (e, rw (dispatch_table r k) h, n)
  run_op-IsClosing r sid (op_close k) l (e, h, n) = elim (Bool-cases (str_eq k sid)) [
    | inl y ↦ (e, rw ((eq_iff k sid).0 y, run_op, (refused r sid (e, h, n)).1) h, n)
    | inr d ↦ (e, rw (close_other r k sid d) h, n)
  ]
  run_op-IsClosing r sid (op_spawn k) l (e, h, n) = (
    e,
    ground
        (arith, lookup-insert k sid (record { queue = length r.queues; accepting = true }) r.table),
    n,
  )
  run_op-IsClosing r sid (op_remove k) l (e, h, n) =
      (e, ground (arith, lookup-remove k sid r.table), n)
  run_op-IsClosing r sid (op_reopen k) l (e, h, n) = elim (Option-cases (lookup k r.table)) [
    | inl m ↦ (e, rw (run_op, reopen_missing r k m) h, n)
    | inr (f, m) ↦ (
      e,
      rw (run_op, reopen_found r k f m)
          (ground (arith, lookup-insert k sid (record f { accepting = true }) r.table)),
      n,
    )
  ]
  run_op-IsClosing r sid (work_on queues) l c = c

  run_ops-IsClosing :
      (r : ToolQueues V) (sid : String) (os : List (Op V))
      → All (λ o. leaves sid o ≡ true) os
      → IsClosing sid r
      → IsClosing sid (run_ops r os)
  run_ops-IsClosing r sid [] l c = c
  run_ops-IsClosing r sid (o ∷ os) l c =
      run_ops-IsClosing (run_op r o) sid os l.1 (run_op-IsClosing r sid o l.0 c)

  -- Once `dispatch_after_closing` has taken the slot of a session, then whatever happens to the
  -- registry and to the channels short of spawning, removing or reopening that session's queue,
  -- each further dispatch to the session, by either way, is refused as stopping.
  pub refuses_until_reopened :
      (r : ToolQueues V) (sid : String) (a : ℕ) (os : List (Op V))
      → (dispatch_after_closing r sid).1 ≡ holds a
      → All (λ o. leaves sid o ≡ true) os
      → let t = run_ops (dispatch_after_closing r sid).0 os in
        (dispatch t sid ≡ (t, rejects session_stopping))
        × (dispatch_after_closing t sid ≡ (t, rejects session_stopping))
  refuses_until_reopened r sid a os h l =
      refused (run_ops (dispatch_after_closing r sid).0 os) sid
        (run_ops-IsClosing (dispatch_after_closing r sid).0 sid os l (closed_IsClosing r sid a h))
