-- ===== src/Tests/Calls.antt =====
-- The theorems on the life of sessions and of tool calls at concrete inputs.
use tab_stride.Prelude.{
  pos, ◌≤◌, ◌≡◌, refl, ◌↔◌, inl, Bool, true, false, Option, none, some, [], ◌∷◌,
}
use tab_stride.Json.{get}
use tab_stride.Protocol.Error
use tab_stride.Daemon.Queue.Outstanding
use tab_stride.Daemon.Inflight.{InflightGuard}
use tab_stride.Protocol.Method.{tool_click, tool_session_stop}
use tab_stride.Protocol.Error.{plain, err}
use tab_stride.Daemon.Tools
use tab_stride.Daemon.Queue.{
  dispatch, sent, rejects, holds, Queue, take_slot, try_send, dispatch_after_closing, new_queue,
  hold, push, send_or_wait, session_stopping,
}
use tab_stride.Map.{lookup, contains_key}
use tab_stride.Daemon.State.{DaemonState}
use tab_stride.Daemon.Tools.Refused.{finish_call_restores}
use tab_stride.Daemon.Tools.{
  handle_tool_dispatch, tool_dispatch_timeout, failure_evidence_grace_ms, session_of,
  default_tool_timeout_ms, finish_call,
}
use tab_stride.Tests.Samples.{Doc, daemon, docs, call_job, queues, payload, word}
use tab_stride.Daemon.Queue.Outstanding.{
  Sys, outstanding, with_slot, spawned, at_most_one, takes, sends_at_once,
}
use tab_stride.Daemon.Queue.Closing.{run_ops, op_dispatch, op_spawn, refuses_until_reopened}
use tab_stride.Daemon.Lifecycle.Stop.{Settled, stop_finish-Settled, unreadable_reply_sticks}
use tab_stride.Protocol.Frame.{RequestFrame}
use tab_stride.Daemon.Lifecycle.Start.{Outcome, start_finish-Outcome}
use tab_stride.Daemon.Lifecycle.{SessionStopResult, stop_finish, start_finish, got}
use tab_stride.Daemon.Sessions.{SessionStartResult, isolated}
use tab_stride.Timing.{TimingTrace}

-- The slot is taken, and the call has not been sent.
abbrev busy_queue : Queue Doc
busy_queue = record new_queue { busy = true }

abbrev holding : Sys Doc
holding = with_slot spawned busy_queue

one_call : Outstanding.Reach spawned holding
unfolding take_slot
one_call = Outstanding.next spawned (Outstanding.here spawned) (takes spawned busy_queue refl refl)

at_most_one_example :
    (outstanding holding ≤ 1) × ((take_slot holding.queue ≡ none) ↔ (outstanding holding ≡ 1))
at_most_one_example = at_most_one one_call

sends_at_once_example :
    (try_send busy_queue call_job ≡ (push busy_queue call_job, sent))
    × (send_or_wait false busy_queue call_job ≡ (push busy_queue call_job, sent))
sends_at_once_example = sends_at_once {s = holding} 0 call_job false one_call refl

taken : (dispatch_after_closing queues "s1").1 ≡ holds 0
unfolding dispatch_after_closing hold take_slot lookup
taken = refl

refuses_until_reopened_example :
    let t =
      run_ops (dispatch_after_closing queues "s1").0 (op_dispatch "s1" ∷ op_spawn "s2" ∷ []) in
    (dispatch t "s1" ≡ (t, rejects session_stopping))
    × (dispatch_after_closing t "s1" ≡ (t, rejects session_stopping))
refuses_until_reopened_example =
    refuses_until_reopened queues "s1" 0 (op_dispatch "s1" ∷ op_spawn "s2" ∷ []) taken
      (refl, (refl, tt))

abbrev unreadable : Doc → Option SessionStopResult
unreadable v = none

unreadable_reply_sticks_example :
    let st' = record daemon { tool_queues = (dispatch_after_closing queues "s1").0 } in
    let st'' = (stop_finish unreadable st' "s1" (inl (word "?"))).0 in
    (st''.sessions ≡ daemon.sessions)
    × ((dispatch st''.tool_queues "s1").1 ≡ rejects session_stopping)
    × ((dispatch_after_closing st''.tool_queues "s1").1 ≡ rejects session_stopping)
unreadable_reply_sticks_example =
    unreadable_reply_sticks unreadable daemon "s1" 0 (word "?") taken refl

abbrev all_returned : Doc → Option SessionStopResult
all_returned v = some (record { returned_tab_ids = []; return_failures = [] })

has_queue : contains_key "s1" daemon.tool_queues.table ≡ true
unfolding lookup
has_queue = refl

stop_finish-Settled_example :
    Settled daemon "s1" (stop_finish all_returned daemon "s1" (inl (word "ok")))
stop_finish-Settled_example = stop_finish-Settled all_returned daemon "s1" (inl (word "ok")) refl

abbrev started : Doc → Option (SessionStartResult Doc) × Option TimingTrace
started v = (
  some (record {
    agent_window_id = some (pos 4);
    attached_tab_id = none;
    url = none;
    title = none;
    document_version = none;
    snapshot_text = none;
    snapshot_ref_count = 0;
    snapshot_truncated = false;
    snapshot_available = none;
    snapshot_error = none;
  }),
  none,
)

abbrev rollback : RequestFrame Doc × Bool
rollback = (
  record { id = "sess-start-rollback-1"; method = tool_session_stop; params = none; timing = none },
  false,
)

start_finish-Outcome_example : Outcome daemon "s1" "s1" (
    start_finish started rollback daemon "s1" 0 "sess-start-1" isolated (got (Error.ok (word "v"))))
start_finish-Outcome_example =
    start_finish-Outcome started rollback daemon "s1" 0 "sess-start-1" isolated
      (got (Error.ok (word "v"))) "s1"

abbrev quiet : DaemonState Doc
quiet = record daemon { session_interrupts = [] }

abbrev entered : DaemonState Doc
entered = (handle_tool_dispatch docs quiet "rpc2" tool_click payload).0

abbrev call_guard : InflightGuard
call_guard = record { cli_rpc_id = "rpc2"; entry = 1 }

call_enters :
    handle_tool_dispatch docs quiet "rpc2" tool_click payload
    ≡ (entered, Tools.enters call_guard 0 32000)
unfolding handle_tool_dispatch get lookup
call_enters = refl

finish_call_restores_example :
    lookup "rpc2" (finish_call docs entered call_guard (inl (word "clicked"))).0.tool_inflight.table
    ≡ lookup "rpc2" quiet.tool_inflight.table
finish_call_restores_example =
    finish_call_restores docs quiet entered "rpc2" "rpc2" tool_click payload call_guard 0 32000
      (inl (word "clicked")) call_enters
