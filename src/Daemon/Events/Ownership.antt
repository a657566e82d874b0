-- ===== src/Daemon/Events/Ownership.antt =====
-- An extension ends its own sessions only.
use tab_stride.Prelude.{
  if◌then◌else◌, Bool-cases, ◌>>=◌, String, ◌≡◌, refl, inl, inr, false, not, ◌&&◌, none, some,
  arith, str_eq,
}
use tab_stride.Json.{Json, get}
use tab_stride.Daemon.State.{forget_session, DaemonState, drop_session_local}
use tab_stride.Daemon.Events.{window_closed, is_foreign}
use tab_stride.Daemon.Queue.{remove_queue}
use tab_stride.Map.{contains_key, lookup}
use tab_stride.Daemon.Interrupts.{drop_session, is_pending}
use tab_stride.Map.Laws.{lookup-remove}

module _ {V : Type 0} where
  -- The browsers, the calls and the tokens are the same in both states.
  abbrev pub SameCalls : DaemonState V → DaemonState V → Type 0
  SameCalls st st' =
      (st'.browsers ≡ st.browsers)
      × (st'.tool_inflight ≡ st.tool_inflight)
      × (st'.abort_registry ≡ st.abort_registry)

  -- Besides the tables, the heap of queues.
  forget_keeps :
      (st : DaemonState V) (sid : String)
      → let st' = (forget_session st sid).0 in
        SameCalls st st'
        × (st'.tool_queues.queues ≡ st.tool_queues.queues)
        × (st' ≡ (if contains_key sid st.sessions then st' else st))
  unfolding forget_session drop_session_local remove_queue
  forget_keeps st sid = elim (Bool-cases (contains_key sid st.sessions)) [
    | inl y ↦ rw (y, forget_session) ((refl, refl, refl), refl, refl)
    | inr n ↦ rw (n, forget_session) ((refl, refl, refl), refl, refl)
  ]

  forget_scope :
      (st : DaemonState V) (sid k : String)
      → let st' = (forget_session st sid).0 in
        let goes = contains_key sid st.sessions && str_eq sid k in
        (lookup k st'.sessions ≡ (if goes then none else lookup k st.sessions))
        × (lookup k st'.tool_queues.table ≡ (if goes then none else lookup k st.tool_queues.table))
        × (is_pending st'.session_interrupts k
            ≡ (if goes then false else is_pending st.session_interrupts k))
  unfolding forget_session drop_session_local remove_queue drop_session is_pending
  forget_scope st sid k = elim (Bool-cases (contains_key sid st.sessions)) [
    | inl y ↦
        rw (y, forget_session)
          (
            lookup-remove sid k st.sessions,
            lookup-remove sid k st.tool_queues.table,
            ground (arith, lookup-remove sid k st.session_interrupts),
          )
    | inr n ↦ rw (n, forget_session) (refl, refl, refl)
  ]

module _ (j : Json) where
  open j use {Value, as_str}

  closed_eq :
      (st : DaemonState Value) (sender sid : String) (payload : Value)
      → (get j "session_id" payload >>= as_str) ≡ some sid
      → window_closed j st sender payload
        ≡ (if is_foreign st.sessions sid sender then st else (forget_session st sid).0)
  unfolding window_closed
  closed_eq st sender sid payload h = rw (h, window_closed) refl

  -- A `session.window_closed` that names a session ends that session, with its queue and its
  -- interrupt marker, if the session is there and the sender owns it; otherwise the state of the
  -- daemon stays as it is. In either case every other session, table entry and marker stays, and so
  -- do the queues themselves, the browsers with their frames, the calls and the tokens.
  pub window_closed_scope :
      (st : DaemonState Value) (sender sid k : String) (payload : Value)
      → (get j "session_id" payload >>= as_str) ≡ some sid
      → let st' = window_closed j st sender payload in
        let goes =
          not (is_foreign st.sessions sid sender)
          && (contains_key sid st.sessions && str_eq sid k) in
        (lookup k st'.sessions ≡ (if goes then none else lookup k st.sessions))
        × (lookup k st'.tool_queues.table ≡ (if goes then none else lookup k st.tool_queues.table))
        × (is_pending st'.session_interrupts k
            ≡ (if goes then false else is_pending st.session_interrupts k))
        × SameCalls st st'
        × (st'.tool_queues.queues ≡ st.tool_queues.queues)
        × (st' ≡ (
            if not (is_foreign st.sessions sid sender) && contains_key sid st.sessions
            then st'
            else st))
  window_closed_scope st sender sid k payload h =
      elim (Bool-cases (is_foreign st.sessions sid sender)) [
        | inl y ↦
            rw (closed_eq st sender sid payload h, y)
              (refl, refl, refl, (refl, refl, refl), refl, refl)
        | inr n ↦
            let (s, q, m) = forget_scope st sid k in
            let (same, kept, none_left) = forget_keeps st sid in
            rw (closed_eq st sender sid payload h, n) (s, q, m, same, kept, none_left)
      ]
