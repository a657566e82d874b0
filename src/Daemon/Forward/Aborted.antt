-- ===== src/Daemon/Forward/Aborted.antt =====
-- What a cancellation means for a job that waits in the queue, and for one whose request is out.
use tab_stride.Daemon.Browsers.Pending.{Mailbox}
use tab_stride.Prelude.{Bool, ℕ, String, ◌≡◌, refl, ◌∙◌, true, false, none, some, eq_iff, arith}
use tab_stride.Protocol.Error
use tab_stride.Daemon.Inflight
use tab_stride.Daemon.Abort
use tab_stride.Daemon.Inflight.{
  user_aborted, cancel_and_snapshot, InflightEntry, entry_at, InflightRegistry, snapshot, cancel_at,
}
use tab_stride.Json.{Json}
use tab_stride.Daemon.Forward.{
  forward_begin, forward_wait, drop_waiter, await_with_optional_cancel, forward_finish,
  cancelled_error, entry_of, fails,
}
use tab_stride.Daemon.State.{DaemonState, cancel_rpc, cancel_tool}
use tab_stride.Daemon.Queue.{ToolJob}
use tab_stride.Daemon.Events.{extract_session_id, is_foreign, user_interrupt}
use tab_stride.Protocol.Error.{err, plain}
use tab_stride.Map.{lookup}
use tab_stride.Daemon.Events.Interrupt.{user_interrupt_reaches, forward_snapshot_inflight}
use tab_stride.Daemon.Inflight.Sweep.{entry_at-cancel_at}
use tab_stride.Daemon.Abort.{AbortRegistry}

module _ (j : Json) where
  open j use {Value}

  begin_tripped :
      (st : DaemonState Value) (sid : String) (job : ToolJob Value) (rpc_id : String) (now : ℕ)
      (e : InflightEntry)
      → entry_of st job ≡ some e
      → e.tripped ≡ true
      → forward_begin j st sid job rpc_id now ≡ (st, fails (cancelled_error e.cancel_reason))
  unfolding forward_begin
  begin_tripped st sid job rpc_id now e h t = rw (h, forward_begin, t) refl

  -- A tripped token ends the wait, whatever has arrived and however late it is.
  wait_tripped :
      (st : DaemonState Value) (job : ToolJob Value) (c : ℕ) (rpc_id : String) (m : Mailbox Value)
      (is_late : Bool) (e : InflightEntry)
      → entry_of st job ≡ some e
      → e.tripped ≡ true
      → forward_wait st job c rpc_id m is_late
        ≡ some (drop_waiter st c rpc_id, err (cancelled_error e.cancel_reason))
  unfolding forward_wait await_with_optional_cancel forward_finish
  wait_tripped st job c rpc_id m is_late e h t = rw (h, forward_wait, t, forward_finish, h) refl

  entry_of_job :
      (st : DaemonState Value) (job : ToolJob Value) (a : ℕ) (e : InflightEntry)
      → job.inflight ≡ some a
      → entry_at st.tool_inflight a ≡ some e
      → entry_of st job ≡ some e
  entry_of_job st job a e h he = rw h he

  -- After an interrupt by the user that the daemon heard, a registered call of the session that
  -- was not cancelled before ends as aborted by the user: if its job is still queued, nothing of
  -- the state changes and so nothing is sent for it; if its request is out, the next look of the wait
  -- ends it, whether or not a response has come or the time is over, and its waiter is dropped.
  pub interrupt_aborts :
      (st : DaemonState Value) (sender sid k : String) (payload : Value) (a : ℕ) (e : InflightEntry)
      (job : ToolJob Value) (rpc_id : String) (now c : ℕ) (m : Mailbox Value) (is_late : Bool)
      → extract_session_id j payload ≡ some sid
      → is_foreign st.sessions sid sender ≡ false
      → lookup k st.tool_inflight.table ≡ some a
      → entry_at st.tool_inflight a ≡ some e
      → e.session_id ≡ sid
      → e.cancel_reason ≡ none
      → job.inflight ≡ some a
      → let st' = user_interrupt j st sender payload in
        (forward_begin j st' sid job rpc_id now ≡ (st', fails (plain Error.user_aborted)))
        × (forward_wait st' job c rpc_id m is_late
            ≡ some (drop_waiter st' c rpc_id, err (plain Error.user_aborted)))
  unfolding cancelled_error cancel_and_snapshot
  interrupt_aborts st sender sid k payload a e job rpc_id now c m is_late h own l he s n i =
      let st' = user_interrupt j st sender payload in
      let e' = (cancel_and_snapshot e user_aborted).0 in
      let hit : entry_at st'.tool_inflight a ≡ some e' =
        (user_interrupt_reaches j st sender sid k sid payload a e h l he).1
        ∙ rw (own, (eq_iff e.session_id sid).1 s) refl in
      let o = entry_of_job st' job a e' i hit in
      let user : e'.cancel_reason ≡ some user_aborted = rw n refl in
      (
        begin_tripped st' sid job rpc_id now e' o refl ∙ rw (user, cancelled_error) refl,
        wait_tripped st' job c rpc_id m is_late e' o refl ∙ rw (user, cancelled_error) refl,
      )

  inflight_cancel :
      (r : InflightRegistry) (k : String) (a : ℕ) (e : InflightEntry)
      → lookup k r.table ≡ some a
      → entry_at r a ≡ some e
      → ((Inflight.cancel r k).1 ≡ some (snapshot e))
        × (entry_at (Inflight.cancel r k).0 a ≡ some (cancel_and_snapshot e Inflight.cancelled).0)
  unfolding Inflight.cancel
  inflight_cancel r k a e h he = (
    rw (h, Inflight.cancel, he, cancel_at) refl,
    rw (h, Inflight.cancel) (entry_at-cancel_at r a a Inflight.cancelled ∙ rw (he) (ground arith)),
  )

  cancel_token_missing :
      (r : AbortRegistry) (k : String) → lookup k r.tokens ≡ none → Abort.cancel r k ≡ (r, false)
  unfolding Abort.cancel
  cancel_token_missing r k h = rw (h, Abort.cancel) refl

  cancel_rpc_tool :
      (st : DaemonState Value) (k : String)
      → lookup k st.abort_registry.tokens ≡ none
      → cancel_rpc j st k ≡ cancel_tool j st k
  unfolding cancel_rpc
  cancel_rpc_tool st k f = rw (cancel_rpc, cancel_token_missing st.abort_registry k f) refl

  cancel_tool_reaches :
      (st : DaemonState Value) (k : String) (a : ℕ) (e : InflightEntry)
      → lookup k st.tool_inflight.table ≡ some a
      → entry_at st.tool_inflight a ≡ some e
      → ((cancel_tool j st k).1 ≡ true)
        × (entry_at (cancel_tool j st k).0.tool_inflight a
            ≡ some (cancel_and_snapshot e Inflight.cancelled).0)
  cancel_tool_reaches st k a e h he =
      let (found, hit) = inflight_cancel st.tool_inflight k a e h he in
      rw (cancel_tool, found)
        (
          refl,
          rw
              ((forward_snapshot_inflight j
                (record st { tool_inflight = (Inflight.cancel st.tool_inflight k).0 })
                (snapshot e)).0)
              hit,
        )

  cancel_rpc_reaches :
      (st : DaemonState Value) (k : String) (a : ℕ) (e : InflightEntry)
      → lookup k st.abort_registry.tokens ≡ none
      → lookup k st.tool_inflight.table ≡ some a
      → entry_at st.tool_inflight a ≡ some e
      → ((cancel_rpc j st k).1 ≡ true)
        × (entry_at (cancel_rpc j st k).0.tool_inflight a
            ≡ some (cancel_and_snapshot e Inflight.cancelled).0)
  cancel_rpc_reaches st k a e f h he =
      rw (cancel_rpc_tool st k f) (cancel_tool_reaches st k a e h he)

  -- A `cancel` for a registered call that was not cancelled before says so, and the call ends as
  -- cancelled: if its job is still queued, nothing more of the state changes and so nothing is
  -- sent for it; if its request is out, the next look of the wait ends it and drops its waiter.
  pub cancel_rpc_stops :
      (st : DaemonState Value) (k sid : String) (a : ℕ) (e : InflightEntry) (job : ToolJob Value)
      (rpc_id : String) (now c : ℕ) (m : Mailbox Value) (is_late : Bool)
      → lookup k st.abort_registry.tokens ≡ none
      → lookup k st.tool_inflight.table ≡ some a
      → entry_at st.tool_inflight a ≡ some e
      → e.cancel_reason ≡ none
      → job.inflight ≡ some a
      → let (st', done) = cancel_rpc j st k in
        (done ≡ true)
        × (forward_begin j st' sid job rpc_id now ≡ (st', fails (plain Error.cancelled)))
        × (forward_wait st' job c rpc_id m is_late
            ≡ some (drop_waiter st' c rpc_id, err (plain Error.cancelled)))
  unfolding cancelled_error cancel_and_snapshot
  cancel_rpc_stops st k sid a e job rpc_id now c m is_late f l he n i =
      let st' = (cancel_rpc j st k).0 in
      let e' = (cancel_and_snapshot e Inflight.cancelled).0 in
      let (done, hit) = cancel_rpc_reaches st k a e f l he in
      let o = entry_of_job st' job a e' i hit in
      let why : e'.cancel_reason ≡ some Inflight.cancelled = rw n refl in
      (
        done,
        begin_tripped st' sid job rpc_id now e' o refl ∙ rw (why, cancelled_error) refl,
        wait_tripped st' job c rpc_id m is_late e' o refl ∙ rw (why, cancelled_error) refl,
      )
