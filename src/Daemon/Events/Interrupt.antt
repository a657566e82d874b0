-- ===== src/Daemon/Events/Interrupt.antt =====
-- What an interrupt by the user reaches.
use tab_stride.Prelude.{
  ℕ, if◌then◌else◌, Option-cases, String, ◌≡◌, refl, ◌∙◌, inl, inr, some, List, [], ◌∷◌, str_eq,
  Bool-cases, not, ◌&&◌, ◌||◌, arith,
}
use tab_stride.Json.{Json}
use tab_stride.Daemon.Inflight.{
  user_aborted, InflightSnapshot, InflightEntry, entry_at, cancel_and_snapshot, cancel_session,
}
use tab_stride.Daemon.State.{
  push_frame, forward_snapshot, DaemonState, forward_cancel_to_browser, cancel_frame,
}
use tab_stride.Daemon.Events.{
  forward_each, user_interrupt, interrupt_session, extract_session_id, is_foreign,
}
use tab_stride.Protocol.Frame.{RequestFrame}
use tab_stride.Daemon.Interrupts.{is_pending, mark}
use tab_stride.Daemon.Browsers.{client_at, get}
use tab_stride.Map.{lookup}
use tab_stride.Map.Laws.{lookup-insert}
use tab_stride.Daemon.Inflight.Sweep.{entry_at-cancel_session}

module _ (j : Json) where
  open j use {Value, as_str}

  pub push_frame_inflight :
      (st : DaemonState Value) (b : String) (f : RequestFrame Value)
      → ((push_frame st b f).0.tool_inflight ≡ st.tool_inflight)
        × ((push_frame st b f).0.session_interrupts ≡ st.session_interrupts)
  unfolding push_frame
  push_frame_inflight st b f = elim (Option-cases (get st.browsers b)) [
    | inl e ↦ rw (e, push_frame) (refl, refl)
    | inr (a, e) ↦ elim (Option-cases (client_at st.browsers a)) [
      | inl e' ↦ rw (e, push_frame, e') (refl, refl)
      | inr (c, e') ↦ rw (e, push_frame, e') (refl, refl)
    ]
  ]

  pub forward_snapshot_inflight :
      (st : DaemonState Value) (snap : InflightSnapshot)
      → ((forward_snapshot j st snap).tool_inflight ≡ st.tool_inflight)
        × ((forward_snapshot j st snap).session_interrupts ≡ st.session_interrupts)
  unfolding forward_snapshot forward_cancel_to_browser
  forward_snapshot_inflight st snap = elim (Option-cases snap.browser_id) [
    | inl e ↦ rw (e, forward_snapshot) (refl, refl)
    | inr (b, e) ↦ elim (Option-cases snap.ws_rpc_id) [
      | inl e' ↦ rw (e, forward_snapshot, e') (refl, refl)
      | inr (w, e') ↦ rw (e, forward_snapshot, e') (push_frame_inflight st b (cancel_frame j w))
    ]
  ]

  forward_each_inflight :
      (st : DaemonState Value) (snaps : List InflightSnapshot)
      → ((forward_each j st snaps).tool_inflight ≡ st.tool_inflight)
        × ((forward_each j st snaps).session_interrupts ≡ st.session_interrupts)
  unfolding forward_each
  forward_each_inflight st [] = (refl, refl)
  forward_each_inflight st (s ∷ snaps) =
      let (a, b) = forward_snapshot_inflight st s in
      let (c, d) = forward_each_inflight (forward_snapshot j st s) snaps in (c ∙ a, d ∙ b)

  -- The sessions, the queues, the tokens and the table of clients are the same in both states.
  abbrev pub SameSetup : DaemonState Value → DaemonState Value → Type 0
  SameSetup st st' =
      (st'.sessions ≡ st.sessions)
      × (st'.tool_queues ≡ st.tool_queues)
      × (st'.abort_registry ≡ st.abort_registry)
      × (st'.browsers.table ≡ st.browsers.table)

  push_frame-SameSetup :
      (st : DaemonState Value) (b : String) (f : RequestFrame Value)
      → SameSetup st (push_frame st b f).0
  unfolding push_frame
  push_frame-SameSetup st b f = elim (Option-cases (get st.browsers b)) [
    | inl e ↦ rw (e, push_frame) (refl, refl, refl, refl)
    | inr (a, e) ↦ elim (Option-cases (client_at st.browsers a)) [
      | inl e' ↦ rw (e, push_frame, e') (refl, refl, refl, refl)
      | inr (c, e') ↦ rw (e, push_frame, e') (refl, refl, refl, refl)
    ]
  ]

  forward_snapshot-SameSetup :
      (st : DaemonState Value) (snap : InflightSnapshot) → SameSetup st (forward_snapshot j st snap)
  unfolding forward_snapshot forward_cancel_to_browser
  forward_snapshot-SameSetup st snap = elim (Option-cases snap.browser_id) [
    | inl e ↦ rw (e, forward_snapshot) (refl, refl, refl, refl)
    | inr (b, e) ↦ elim (Option-cases snap.ws_rpc_id) [
      | inl e' ↦ rw (e, forward_snapshot, e') (refl, refl, refl, refl)
      | inr (w, e') ↦ rw (e, forward_snapshot, e') (push_frame-SameSetup st b (cancel_frame j w))
    ]
  ]

  forward_each-SameSetup :
      (st : DaemonState Value) (snaps : List InflightSnapshot)
      → SameSetup st (forward_each j st snaps)
  unfolding forward_each
  forward_each-SameSetup st [] = (refl, refl, refl, refl)
  forward_each-SameSetup st (s ∷ snaps) =
      let (a, b, c, d) = forward_snapshot-SameSetup st s in
      let (a', b', c', d') = forward_each-SameSetup (forward_snapshot j st s) snaps in
      (a' ∙ a, b' ∙ b, c' ∙ c, d' ∙ d)

  interrupt_session-SameSetup :
      (st : DaemonState Value) (sid : String) → SameSetup st (interrupt_session j st sid)
  unfolding interrupt_session
  interrupt_session-SameSetup st sid =
      let (inflight, snaps) = cancel_session st.tool_inflight sid in
      forward_each-SameSetup (record st { tool_inflight = inflight }) snaps

  interrupt_reaches :
      (st : DaemonState Value) (sid k q : String) (a : ℕ) (e : InflightEntry)
      → lookup k st.tool_inflight.table ≡ some a
      → entry_at st.tool_inflight a ≡ some e
      → let st' = interrupt_session j st sid in
        (is_pending st'.session_interrupts q ≡ (str_eq sid q || is_pending st.session_interrupts q))
        × (entry_at st'.tool_inflight a ≡ (
            if str_eq e.session_id sid
            then some (cancel_and_snapshot e user_aborted).0
            else some e))
  unfolding interrupt_session is_pending mark
  interrupt_reaches st sid k q a e l he =
      let st' = record st { tool_inflight = (cancel_session st.tool_inflight sid).0 } in
      let snaps = (cancel_session st.tool_inflight sid).1 in
      (
        rw ((forward_each_inflight st' snaps).1)
            (ground (arith, lookup-insert sid q tt st.session_interrupts)),
        rw ((forward_each_inflight st' snaps).0)
            (entry_at-cancel_session st.tool_inflight sid k a e l he),
      )

  -- A `session.user_interrupt` for a session, unless the session belongs to another browser than
  -- the sender, cancels every call that is registered for the session, as aborted by the user if
  -- it was not cancelled before, and marks the session; the registered calls and the markers of
  -- other sessions stay as they are, and so do the sessions, the queues, the tokens and the table of
  -- browsers. From a browser that does not own the session, it leaves the state of the daemon as it is.
  pub user_interrupt_reaches :
      (st : DaemonState Value) (sender sid k q : String) (payload : Value) (a : ℕ)
      (e : InflightEntry)
      → extract_session_id j payload ≡ some sid
      → lookup k st.tool_inflight.table ≡ some a
      → entry_at st.tool_inflight a ≡ some e
      → let st' = user_interrupt j st sender payload in
        let heard = not (is_foreign st.sessions sid sender) in
        (is_pending st'.session_interrupts q
          ≡ (heard && str_eq sid q || is_pending st.session_interrupts q))
        × (entry_at st'.tool_inflight a ≡ (
            if heard && str_eq e.session_id sid
            then some (cancel_and_snapshot e user_aborted).0
            else some e))
        × SameSetup st st'
        × (st' ≡ (if heard then st' else st))
  unfolding user_interrupt
  user_interrupt_reaches st sender sid k q payload a e h l he =
      elim (Bool-cases (is_foreign st.sessions sid sender)) [
        | inl y ↦ rw (h, user_interrupt, y) (refl, he, (refl, refl, refl, refl), refl)
        | inr n ↦
            let (marked, hit) = interrupt_reaches st sid k q a e l he in
            rw (h, user_interrupt, n) (marked, hit, interrupt_session-SameSetup st sid, refl)
      ]
