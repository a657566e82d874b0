-- ===== src/Daemon/Lifecycle/Start.antt =====
-- How the registries stand after an attempt to start a session.
use tab_stride.Prelude.{
  ℕ, if◌then◌else◌, Option-cases, length, String, ◌≡◌, refl, ap, ◌∙◌, ◌⊎◌, inl, inr, Bool, true,
  Option, none, some, arith, eq_iff, str_eq,
}
use tab_stride.Protocol.Error.{plain, protocol_error, ok, err}
use tab_stride.Daemon.State.{DaemonState}
use tab_stride.Daemon.Sessions.{
  cancel_reservation, commit_reservation, SessionStartResult, Session, SessionMode,
  CommittedSessionData, validate_start_result,
}
use tab_stride.Daemon.Lifecycle.{
  got, gone, elapsed, rollback_extension_session, commit_session, start_finish, StartError,
  cancel_at_client, Answer, give_up, start_closed, start_timeout, start_refused,
}
use tab_stride.Protocol.Frame.{RequestFrame}
use tab_stride.Map.{lookup, Map, insert}
use tab_stride.Daemon.Browsers.{client_at}
use tab_stride.Daemon.Queue.{spawn, is_accepting, ToolQueues}
use tab_stride.Timing.{TimingTrace}
use tab_stride.Map.Laws.{lookup-remove, lookup-insert, lookup-insert_self}

module _ {V : Type 0} where
  -- The outcome for the reserved id `sid`, seen at `k`: a session that is started is the one
  -- registered, and takes calls; otherwise the reservation is gone and no queue was touched.
  abbrev pub Outcome :
      DaemonState V → String → String → DaemonState V × (StartError V ⊎ Session V) → Type 0
  Outcome st sid k (st', inl e) =
      (lookup k st'.sessions ≡ (if str_eq sid k then none else lookup k st.sessions))
      × (st'.tool_queues ≡ st.tool_queues)
  Outcome st sid k (st', inr s) =
      (lookup k st'.sessions ≡ (if str_eq sid k then some s else lookup k st.sessions))
      × (is_accepting st'.tool_queues sid ≡ true)

  given_up :
      (st st1 : DaemonState V) (sid k : String) (e : StartError V)
      → st1.sessions ≡ cancel_reservation st.sessions sid
      → st1.tool_queues ≡ st.tool_queues
      → Outcome st sid k (st1, inl e)
  unfolding cancel_reservation
  given_up st st1 sid k e h q = (ap (lookup k) h ∙ lookup-remove sid k st.sessions, q)

  cancel_at_client_keeps :
      (st : DaemonState V) (a : ℕ) (rpc_id : String)
      → ((cancel_at_client st a rpc_id).sessions ≡ st.sessions)
        × ((cancel_at_client st a rpc_id).tool_queues ≡ st.tool_queues)
  cancel_at_client_keeps st a rpc_id = elim (Option-cases (client_at st.browsers a)) [
    | inl e ↦ rw (e, cancel_at_client) (refl, refl)
    | inr (c, e) ↦ rw (e, cancel_at_client) (refl, refl)
  ]

  rollback_keeps :
      (st : DaemonState V) (a : ℕ) (request : RequestFrame V) (is_late : Bool)
      → ((rollback_extension_session st a request is_late).sessions ≡ st.sessions)
        × ((rollback_extension_session st a request is_late).tool_queues ≡ st.tool_queues)
  unfolding rollback_extension_session
  rollback_keeps st a request is_late = elim (Option-cases (client_at st.browsers a)) [
    | inl e ↦ rw (e, rollback_extension_session) (refl, refl)
    | inr (c, e) ↦ rw (e, rollback_extension_session) (refl, refl)
  ]

  commit_missing :
      (m : Map (Session V)) (sid : String) (d : CommittedSessionData V)
      → lookup sid m ≡ none
      → commit_reservation m sid d ≡ (m, none)
  unfolding commit_reservation
  commit_missing m sid d h = rw (h, commit_reservation) refl

  commit_found :
      (m : Map (Session V)) (sid : String) (d : CommittedSessionData V) (s : Session V)
      → lookup sid m ≡ some s
      → commit_reservation m sid d
        ≡ (insert sid (record s { committed = d }) m, some (record s { committed = d }))
  unfolding commit_reservation
  commit_found m sid d s h = rw (h, commit_reservation) refl

  spawn_accepts : (r : ToolQueues V) (sid : String) → is_accepting (spawn r sid) sid ≡ true
  unfolding spawn is_accepting
  spawn_accepts r sid =
      rw
        (
          is_accepting,
          lookup-insert_self sid (record { queue = length r.queues; accepting = true }) r.table,
        )
        refl

  commit_session-Outcome :
      (st : DaemonState V) (sid k : String) (d : CommittedSessionData V)
      → Outcome st sid k (commit_session st sid d)
  unfolding commit_session
  commit_session-Outcome st sid k d = elim (Option-cases (lookup sid st.sessions)) [
    | inl n ↦
        rw (commit_session, commit_missing st.sessions sid d n) (ground (arith, eq_iff sid k), refl)
    | inr (s, e) ↦
        rw (commit_session, commit_found st.sessions sid d s e)
          (
            rw (commit_found st.sessions sid d s e)
                (lookup-insert sid k (record s { committed = d }) st.sessions),
            spawn_accepts st.tool_queues sid,
          )
  ]

  -- However the wait of `start_session` ends, for a reserved id: either the session that it
  -- returns is registered under the id with a queue that takes calls, or the reservation is gone
  -- and no queue was touched; in both cases the sessions under other ids stay.
  pub start_finish-Outcome :
      (parse : V → Option (SessionStartResult V) × Option TimingTrace)
      (rollback : RequestFrame V × Bool) (st : DaemonState V) (sid : String) (a : ℕ)
      (rpc_id : String) (mode : SessionMode) (answer : Answer V) (k : String)
      → Outcome st sid k (start_finish parse rollback st sid a rpc_id mode answer)
  unfolding start_finish
  start_finish-Outcome parse rollback st sid a rpc_id mode gone k =
      let (x, y) = cancel_at_client_keeps (give_up st sid) a rpc_id in
      given_up st (cancel_at_client (give_up st sid) a rpc_id) sid k start_closed x y
  start_finish-Outcome parse rollback st sid a rpc_id mode elapsed k =
      let (x, y) = cancel_at_client_keeps (give_up st sid) a rpc_id in
      given_up st (cancel_at_client (give_up st sid) a rpc_id) sid k start_timeout x y
  start_finish-Outcome parse rollback st sid a rpc_id mode (got (err e)) k =
      given_up st (give_up st sid) sid k (start_refused e) refl refl
  start_finish-Outcome parse rollback st sid a rpc_id mode (got (ok v)) k =
      elim (Option-cases (parse v).0) [
        | inl n ↦
            rw (start_finish, n)
              (given_up st (give_up st sid) sid k (start_refused (plain protocol_error)) refl refl)
        | inr (r, e) ↦ elim (Option-cases (validate_start_result mode r (parse v).1)) [
          | inl n ↦
              let (x, y) = rollback_keeps st a rollback.0 rollback.1 in
              rw (start_finish, e, n)
                (given_up st (give_up (rollback_extension_session st a rollback.0 rollback.1) sid)
                  sid k (start_refused (plain protocol_error))
                  (ap (λ m. cancel_reservation m sid) x) y)
          | inr (d, f) ↦ rw (start_finish, e, f) (commit_session-Outcome st sid k d)
        ]
      ]
