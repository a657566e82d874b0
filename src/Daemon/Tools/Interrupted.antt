-- ===== src/Daemon/Tools/Interrupted.antt =====
-- How often a pending interrupt refuses a tool call.
use tab_stride.Prelude.{
  ℕ, ◌+◌, if◌then◌else◌, Bool, true, false, ◌&&◌, ◌||◌, not, Bool-cases, Option, Option-cases, none,
  some, List, [], ◌∷◌, String, str_eq, eq_iff, ◌≡◌, refl, ap, inl, inr, ◌⊎◌, arith, ◌>>=◌, ltb,
  ◌==◌, ◌^◌,
}
use tab_stride.Json.{Json, get}
use tab_stride.Map.{lookup, contains_key}
use tab_stride.Protocol.Error.{ErrorCode, user_aborted, RpcError}
use tab_stride.Protocol.Method.{Method, is_mutating}
use tab_stride.Daemon.Inflight.Registration.{register_duplicate, register-fresh}
use tab_stride.Daemon.Interrupts.{Interrupts, is_pending, try_consume}
use tab_stride.Daemon.Queue.{
  ToolQueues, Slot, rejects, holds, dispatch, hold, into_rpc, queue_at, take_slot, session_busy_rpc,
}
use tab_stride.Daemon.State.{DaemonState}
use tab_stride.Daemon.Tools.{
  Accepted, fails, enters, session_of, tool_dispatch_timeout, timed_dispatch, register_and_dispatch,
  handle_tool_dispatch,
}
use tab_stride.Map.Laws.{lookup-remove}

abbrev pub is_user_aborted : ErrorCode → Bool
is_user_aborted code = elim code [ user_aborted ↦ true | _ ↦ false ]

module _ (j : Json) where
  open j use {Value, as_str, as_u64}

  -- The call is refused as aborted by the user.
  abbrev pub is_aborted : Accepted Value → Bool
  is_aborted (fails e) = is_user_aborted e.code
  is_aborted (enters guard a ms) = false

  -- A result that spends no marker and is no abort.
  abbrev Calm : DaemonState Value → DaemonState Value × Accepted Value → Type 0
  Calm st (st', result) =
      (st'.session_interrupts ≡ st.session_interrupts) × (is_aborted result ≡ false)

  abbrev Mild : ToolQueues Value × Slot Value → Type 0
  Mild (r, rejects e) = is_user_aborted (into_rpc j e).code ≡ false
  Mild (r, holds a) = Unit

  hold-Mild : (r : ToolQueues Value) (a : ℕ) → Mild (hold r a)
  unfolding hold into_rpc session_busy_rpc
  hold-Mild r a = elim (Option-cases (queue_at r a >>= take_slot)) [
    | inl e ↦ rw (e, hold) refl
    | inr (q, e) ↦ rw (e, hold) tt
  ]

  dispatch-Mild : (r : ToolQueues Value) (sid : String) → Mild (dispatch r sid)
  unfolding dispatch into_rpc
  dispatch-Mild r sid = elim (Option-cases (lookup sid r.table)) [
    | inl h ↦ rw (h, dispatch) refl
    | inr (e, h) ↦ elim (Bool-cases e.accepting) [
      | inl y ↦ rw (h, dispatch, y) (hold-Mild r e.queue)
      | inr n ↦ rw (h, dispatch, n) refl
    ]
  ]

  slot-Calm :
      (st : DaemonState Value) (id sid : String) (ms : ℕ) (p : ToolQueues Value × Slot Value)
      → dispatch st.tool_queues sid ≡ p
      → contains_key id st.tool_inflight.table ≡ false
      → Mild p
      → Calm st (register_and_dispatch j st id sid ms)
  unfolding register_and_dispatch
  slot-Calm st id sid ms (r', rejects e) h n m =
      rw (register_and_dispatch, register-fresh st.tool_inflight id sid n, h) (refl, m)
  slot-Calm st id sid ms (r', holds a) h n m =
      rw (register_and_dispatch, register-fresh st.tool_inflight id sid n, h) (refl, refl)

  register_and_dispatch-Calm :
      (st : DaemonState Value) (id sid : String) (ms : ℕ)
      → Calm st (register_and_dispatch j st id sid ms)
  unfolding register_and_dispatch
  register_and_dispatch-Calm st id sid ms =
      elim (Bool-cases (contains_key id st.tool_inflight.table)) [
        | inl dup ↦
            rw (register_and_dispatch, register_duplicate st.tool_inflight id sid dup) (refl, refl)
        | inr new ↦
            slot-Calm st id sid ms (dispatch st.tool_queues sid) refl new
              (dispatch-Mild st.tool_queues sid)
      ]

  abbrev Tame : ℕ ⊎ RpcError Value → Type 0
  Tame (inl ms) = Unit
  Tame (inr e) = is_user_aborted e.code ≡ false

  tool_dispatch_timeout-Tame : (params : Value) → Tame (tool_dispatch_timeout j params)
  unfolding tool_dispatch_timeout
  tool_dispatch_timeout-Tame params = elim (Option-cases (get j "timeout_ms" params)) [
    | inl e ↦ rw (e, tool_dispatch_timeout) tt
    | inr (raw, e) ↦ elim (Option-cases (as_u64 raw)) [
      | inl n ↦ rw (e, tool_dispatch_timeout, n) refl
      | inr (ms, n) ↦ elim (Bool-cases (ms == 0)) [
        | inl z ↦ rw (e, tool_dispatch_timeout, n, z) refl
        | inr p ↦ elim (Bool-cases (ltb ms (2 ^ 32))) [
          | inl s ↦ rw (e, tool_dispatch_timeout, n, p, s) tt
          | inr l ↦ rw (e, tool_dispatch_timeout, n, p, l) refl
        ]
      ]
    ]
  ]

  timed_dispatch-Calm :
      (st : DaemonState Value) (id sid : String) (t : ℕ ⊎ RpcError Value)
      → Tame t
      → Calm st (timed_dispatch j st id sid t)
  unfolding timed_dispatch
  timed_dispatch-Calm st id sid (inl ms) h = register_and_dispatch-Calm st id sid ms
  timed_dispatch-Calm st id sid (inr e) h = (refl, h)

  abbrev pub names : String → Option String → Bool
  names sid none = false
  names sid (some s) = str_eq s sid

  -- The call is one of the session that changes the page.
  abbrev pub mutates : String → Method → Value → Bool
  mutates sid method params = is_mutating method && names sid (session_of j params)

  is_pending-try_consume :
      (r : Interrupts) (sid k : String)
      → is_pending (try_consume r sid).0 k ≡ (if str_eq sid k then false else is_pending r k)
  unfolding try_consume is_pending
  is_pending-try_consume r sid k = ground (arith, lookup-remove sid k r)

  consumed-is_pending : (r : Interrupts) (sid : String) → (try_consume r sid).1 ≡ is_pending r sid
  unfolding try_consume is_pending
  consumed-is_pending r sid = refl

  marked_same :
      (r : Interrupts) (s sid : String)
      → (str_eq s sid && is_pending r s) ≡ (str_eq s sid && is_pending r sid)
  marked_same r s sid = elim (Bool-cases (str_eq s sid)) [
    | inr n ↦ rw n refl
    | inl y ↦ rw y (ap (is_pending r) ((eq_iff s sid).0 y))
  ]

  -- A call of the session is refused as aborted exactly if it changes the page and the session is
  -- marked, and such a call spends the marker.
  abbrev Probed :
      DaemonState Value
      → String
      → Bool
      → Option String
      → DaemonState Value × Accepted Value
      → Type 0
  Probed st sid changes named p =
      (is_pending (p.0).session_interrupts sid
        ≡ (is_pending st.session_interrupts sid && not (changes && names sid named)))
      × ((names sid named && is_aborted p.1)
          ≡ (is_pending st.session_interrupts sid && (changes && names sid named)))

  unmarked :
      (st : DaemonState Value) (sid : String) (changes : Bool) (named : Option String)
      (i : Interrupts) (p : DaemonState Value × Accepted Value)
      → Calm (record st { session_interrupts = i }) p
      → is_pending i sid
        ≡ (is_pending st.session_interrupts sid && not (changes && names sid named))
      → (is_pending st.session_interrupts sid && (changes && names sid named)) ≡ false
      → Probed st sid changes named p
  unmarked st sid changes named i (st', r) (same, calm) m n =
      (rw same m, rw calm (rw n (ground arith)))

  handle_tool_dispatch-Probed :
      (st : DaemonState Value) (id sid : String) (method : Method) (params : Value)
      → Probed st sid
          (is_mutating method)
          (session_of j params)
          (handle_tool_dispatch j st id method params)
  unfolding handle_tool_dispatch
  handle_tool_dispatch-Probed st id sid method params = elim (Option-cases (session_of j params)) [
    | inl e ↦ rw (handle_tool_dispatch, e) (ground arith, ground arith)
    | inr (s, e) ↦
        let spent = is_pending-try_consume st.session_interrupts s sid in
        let probe = consumed-is_pending st.session_interrupts s in
        let same = marked_same st.session_interrupts s sid in
        let i = (try_consume st.session_interrupts s).0 in
        let t = tool_dispatch_timeout j params in
        let tame = tool_dispatch_timeout-Tame params in
        elim (Bool-cases (is_mutating method)) [
          | inr n ↦
              rw (handle_tool_dispatch, e, n)
                (unmarked st sid false (some s) st.session_interrupts (timed_dispatch j st id s t)
                  (timed_dispatch-Calm st id s t tame) (ground arith) (ground arith))
          | inl y ↦ elim (Bool-cases (try_consume st.session_interrupts s).1) [
            | inl p ↦
                rw (handle_tool_dispatch, e, y, p)
                  (rw spent (ground arith), ground (arith, same, probe, p))
            | inr f ↦
                rw (handle_tool_dispatch, e, y, f)
                  (unmarked st sid true (some s) i
                    (timed_dispatch j (record st { session_interrupts = i }) id s t)
                    (timed_dispatch-Calm (record st { session_interrupts = i }) id s t tame)
                    (rw spent (ground arith)) (ground (arith, same, probe, f)))
          ]
        ]
  ]

  -- A tool call, or whatever else leaves the markers as they are.
  pub data Doing : Type 0 where
    calls : String → Method → Value → Doing
    meanwhile : DaemonState Value → Doing

  abbrev pub after : DaemonState Value → Doing → DaemonState Value
  after st (calls id method params) = (handle_tool_dispatch j st id method params).0
  after st (meanwhile st') = record st' { session_interrupts = st.session_interrupts }

  -- Whether it is a call of the session that is refused as aborted by the user.
  abbrev pub aborts : String → DaemonState Value → Doing → Bool
  aborts sid st (calls id method params) =
      names sid (session_of j params) && is_aborted (handle_tool_dispatch j st id method params).1
  aborts sid st (meanwhile st') = false

  abbrev pub changes_page : String → Doing → Bool
  changes_page sid (calls id method params) = mutates sid method params
  changes_page sid (meanwhile st') = false

  abbrev pub aborted : String → DaemonState Value → List Doing → ℕ
  aborted sid st [] = 0
  aborted sid st (d ∷ ds) = (if aborts sid st d then 1 else 0) + aborted sid (after st d) ds

  abbrev pub any_changes : String → List Doing → Bool
  any_changes sid [] = false
  any_changes sid (d ∷ ds) = changes_page sid d || any_changes sid ds

  after-Probed :
      (st : DaemonState Value) (sid : String) (d : Doing)
      → (is_pending (after st d).session_interrupts sid
          ≡ (is_pending st.session_interrupts sid && not (changes_page sid d)))
        × (aborts sid st d ≡ (is_pending st.session_interrupts sid && changes_page sid d))
  after-Probed st sid (calls id method params) = handle_tool_dispatch-Probed st id sid method params
  after-Probed st sid (meanwhile st') = (ground arith, ground arith)

  -- Over any sequence of tool calls, of any sessions and with anything between them that touches no
  -- marker, a session's marker refuses one call of that session as aborted by the user if one of them
  -- changes the page, and none otherwise; without a marker none is refused so.
  pub aborts_once :
      (st : DaemonState Value) (sid : String) (ds : List Doing)
      → aborted sid st ds
        ≡ (if is_pending st.session_interrupts sid && any_changes sid ds then 1 else 0)
  aborts_once st sid [] = ground arith
  aborts_once st sid (d ∷ ds) =
      let (kept, hit) = after-Probed st sid d in
      rw hit (rw (aborts_once (after st d) sid ds) (rw kept (ground arith)))
