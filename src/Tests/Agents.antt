-- ===== src/Tests/Agents.antt =====
-- The theorems on agent connections at concrete inputs.
use tab_stride.Map.{lookup, insert}
use tab_stride.Protocol.Frame.{RequestFrame}
use tab_stride.Protocol.Frame.Codec.{Frame, request}
use tab_stride.Protocol.Method.{session_start, tool_session_start}
use tab_stride.Daemon.Agent.{new_agent, dispatch_text}
use tab_stride.Daemon.Agent.Running.{Sys, Matches, Step, here, then_step, arrives, one_task_per_id}
use tab_stride.Daemon.Browsers.{found, send}
use tab_stride.Daemon.Browsers.Pending.{register as register_waiter}
use tab_stride.Daemon.Sessions.{isolated, placeholder, reserve_id, reserve_from}
use tab_stride.Daemon.State.{DaemonState}
use tab_stride.Daemon.Lifecycle.{start_begin, start_at, stop_begin, starts}
use tab_stride.Daemon.Lifecycle.Abandoned.{is_refused, abandoned_start_sticks}
use tab_stride.Tests.Samples.{Doc, docs, daemon, chrome, word}
use tab_stride.Prelude.{ℕ, String, ◌≡◌, refl, true, none, some, List, [], ◌∷◌}

abbrev no_texts : Doc → List String
no_texts d = []

abbrev start_frame : Frame Doc
start_frame = request (record { id = "a1"; method = session_start; params = none; timing = none })

abbrev fresh : Sys
fresh = record { agent = new_agent; running = [] }

abbrev one_running : Sys
one_running = record {
  agent = record { active_ids = ("a1", tt) ∷ []; owned_sessions = [] };
  running = "a1" ∷ [];
}

start_arrives : Step docs no_texts (word "null") fresh one_running
unfolding dispatch_text insert lookup
start_arrives = arrives fresh (some start_frame)

one_task_per_id_example : Matches docs no_texts (word "null") one_running "a1"
one_task_per_id_example =
    one_task_per_id docs no_texts (word "null") one_running "a1"
      (then_step fresh fresh one_running (here fresh) start_arrives)

abbrev draw_id : ℕ → String
draw_id n = "s9"

abbrev start_request : String → RequestFrame Doc
start_request sid = record {
  id = "start-1";
  method = tool_session_start;
  params = some (word sid);
  timing = none;
}

abbrev waiting_daemon : DaemonState Doc
waiting_daemon = (start_begin daemon (found 0) isolated draw_id 11 "start-1" start_request).0

start_waits :
    start_begin daemon (found 0) isolated draw_id 11 "start-1" start_request
    ≡ (waiting_daemon, starts "s9" 0 0)
unfolding start_begin start_at reserve_id reserve_from send register_waiter lookup insert
start_waits = refl

has_no_queue : lookup "s9" daemon.tool_queues.table ≡ none
unfolding lookup
has_no_queue = refl

abandoned_start_sticks_example :
    (lookup "s9" daemon.sessions ≡ none)
    × (lookup "s9" waiting_daemon.sessions ≡ some (placeholder "s9" "b1" isolated 11))
    × ((stop_begin waiting_daemon "s9").0 ≡ waiting_daemon)
    × (is_refused (stop_begin waiting_daemon "s9").1 ≡ true)
abandoned_start_sticks_example =
    abandoned_start_sticks daemon waiting_daemon 0 (record chrome { generation = 1 }) isolated
      draw_id 11 "start-1" start_request "s9" 0 0 refl start_waits has_no_queue
