-- ===== src/Daemon/Tools/Refused.antt =====
-- What a tool call that is refused leaves behind.
use tab_stride.Prelude.{
  ℕ, if◌then◌else◌, Bool-cases, Option-cases, length, String, ◌≡◌, refl, inl, inr, false, some,
  arith, eq_iff, str_eq, ◌⊎◌, none,
}
use tab_stride.Daemon.Inflight.{unregister, InflightGuard}
use tab_stride.Protocol.Error.{RpcError}
use tab_stride.Daemon.Queue.{rejects, holds, ToolQueues, dispatch, Slot, DispatchError}
use tab_stride.Daemon.Tools.{
  fails, enters, handle_tool_dispatch, session_of, tool_dispatch_timeout, timed_dispatch,
  finish_call,
}
use tab_stride.Json.{Json}
use tab_stride.Daemon.State.{DaemonState}
use tab_stride.Daemon.Tools.{register_and_dispatch, Accepted}
use tab_stride.Map.{lookup, contains_key}
use tab_stride.Map.Laws.{lookup-insert_self, lookup-remove, lookup-insert}
use tab_stride.Daemon.Interrupts.{try_consume, Interrupts}
use tab_stride.Protocol.Method.{Method, is_mutating}
use tab_stride.Daemon.Inflight.Registration.{register_duplicate, register-fresh, unregister-fresh}
use tab_stride.Daemon.Queue.Refusal.{same_queues}

module _ (j : Json) where
  open j use {Value}

  -- A call that is refused leaves the queues and, at each id `k`, the inflight table as they were;
  -- one that enters is registered under its id with a fresh entry.
  abbrev pub Entered :
      DaemonState Value → String → String → DaemonState Value × Accepted Value → Type 0
  Entered st id k (st', fails e) =
      (st'.tool_queues ≡ st.tool_queues)
      × (lookup k st'.tool_inflight.table ≡ lookup k st.tool_inflight.table)
  Entered st id k (st', enters guard a ms) =
      (lookup id st.tool_inflight.table ≡ none)
      × (guard.cli_rpc_id ≡ id)
      × (lookup id st'.tool_inflight.table ≡ some guard.entry)
      × (lookup k st'.tool_inflight.table
          ≡ (if str_eq id k then some guard.entry else lookup k st.tool_inflight.table))

  after_slot :
      (st : DaemonState Value) (id sid k : String) (ms : ℕ) (p : ToolQueues Value × Slot Value)
      → dispatch st.tool_queues sid ≡ p
      → contains_key id st.tool_inflight.table ≡ false
      → Entered st id k (register_and_dispatch j st id sid ms)
  unfolding register_and_dispatch
  after_slot st id sid k ms (r', rejects e) h n =
      rw (register_and_dispatch, register-fresh st.tool_inflight id sid n, h)
        (
          rw h (same_queues st.tool_queues r' sid e h),
          rw (register-fresh st.tool_inflight id sid n)
              (unregister-fresh st.tool_inflight id sid k n),
        )
  after_slot st id sid k ms (r', holds a) h n =
      rw (register_and_dispatch, register-fresh st.tool_inflight id sid n, h)
        (
          ground arith,
          refl,
          rw (register-fresh st.tool_inflight id sid n)
              (lookup-insert_self id (length st.tool_inflight.entries) st.tool_inflight.table),
          rw (register-fresh st.tool_inflight id sid n)
              (lookup-insert id k (length st.tool_inflight.entries) st.tool_inflight.table),
        )

  register_and_dispatch-Entered :
      (st : DaemonState Value) (id sid k : String) (ms : ℕ)
      → Entered st id k (register_and_dispatch j st id sid ms)
  unfolding register_and_dispatch
  register_and_dispatch-Entered st id sid k ms =
      elim (Bool-cases (contains_key id st.tool_inflight.table)) [
        | inl dup ↦
            rw (register_and_dispatch, register_duplicate st.tool_inflight id sid dup) (refl, refl)
        | inr new ↦ after_slot st id sid k ms (dispatch st.tool_queues sid) refl new
      ]

  Entered-before :
      (st : DaemonState Value) (id k : String) (i : Interrupts)
      (p : DaemonState Value × Accepted Value)
      → Entered (record st { session_interrupts = i }) id k p
      → Entered st id k p
  Entered-before st id k i (st', fails e) h = h
  Entered-before st id k i (st', enters guard a ms) h = h

  timed :
      (st : DaemonState Value) (id sid k : String) (i : Interrupts) (t : ℕ ⊎ RpcError Value)
      → Entered st id k (timed_dispatch j (record st { session_interrupts = i }) id sid t)
  unfolding timed_dispatch
  timed st id sid k i (inr e) = (refl, refl)
  timed st id sid k i (inl ms) =
      Entered-before st id k i
        (register_and_dispatch j (record st { session_interrupts = i }) id sid ms)
        (register_and_dispatch-Entered (record st { session_interrupts = i }) id sid k ms)

  -- A tool call that is refused, for whatever reason, leaves the queues as they were and no entry
  -- of its own in the inflight registry; one that gets the slot of its session is registered under
  -- its id, which was free. Either way the registrations under other ids stay.
  pub handle_tool_dispatch-Entered :
      (st : DaemonState Value) (id k : String) (method : Method) (params : Value)
      → Entered st id k (handle_tool_dispatch j st id method params)
  unfolding handle_tool_dispatch
  handle_tool_dispatch-Entered st id k method params = elim (Option-cases (session_of j params)) [
    | inl e ↦ rw (handle_tool_dispatch, e) (refl, refl)
    | inr (sid, e) ↦
        let consumed = (try_consume st.session_interrupts sid).0 in
        let t = tool_dispatch_timeout j params in
        elim (Bool-cases (is_mutating method)) [
          | inr n ↦ rw (handle_tool_dispatch, e, n) (timed st id sid k st.session_interrupts t)
          | inl y ↦ elim (Bool-cases (try_consume st.session_interrupts sid).1) [
            | inl p ↦ rw (handle_tool_dispatch, e, y, p) (refl, refl)
            | inr f ↦ rw (handle_tool_dispatch, e, y, f) (timed st id sid k consumed t)
          ]
        ]
  ]

  Entered-at :
      (st : DaemonState Value) (id k : String) (q p : DaemonState Value × Accepted Value)
      → q ≡ p
      → Entered st id k q
      → Entered st id k p
  Entered-at st id k q p h e = rw (← h) e

  -- A tool call that entered and then ends, with whatever outcome, has left no entry behind: if
  -- nothing else happened meanwhile, each id is registered as it was before the call.
  pub finish_call_restores :
      (st st' : DaemonState Value) (id k : String) (method : Method) (params : Value)
      (guard : InflightGuard) (a ms : ℕ) (outcome : Value ⊎ DispatchError Value)
      → handle_tool_dispatch j st id method params ≡ (st', enters guard a ms)
      → lookup k (finish_call j st' guard outcome).0.tool_inflight.table
        ≡ lookup k st.tool_inflight.table
  unfolding finish_call unregister
  finish_call_restores st st' id k method params guard a ms outcome h =
      let (free, own, here, there) =
        Entered-at st id k (handle_tool_dispatch j st id method params) (st', enters guard a ms) h
          (handle_tool_dispatch-Entered st id k method params) in
      rw (own, here) (ground (arith, lookup-remove id k st'.tool_inflight.table, eq_iff id k))
