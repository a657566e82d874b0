-- ===== src/Daemon/Process/Start.antt =====
-- `run_start` of crates/tabstride-cli/src/daemon/start.rs with the checks and the wait that it makes,
-- and the configurations of cli/daemon.rs. A time is a number of milliseconds.
pub mod Ready
pub mod Launched
use tab_stride.Daemon.Process.Info.{Read, unreadable, missing, present, DaemonInfo}
use tab_stride.Prelude.{
  ℕ, zero, suc, ltb, leb, ◌+◌, ◌*◌, ◌<◌, ◌≤◌, ◌==◌, if◌then◌else◌, Bool, true, false, not, ◌&&◌,
  ◌||◌, Option, none, some, is_some, get_or, List, [], ◌∷◌, ◌≡◌, refl, arith, ◌>>=◌,
}

pub record StartArgs : Type 0 where
  pub port : Option ℕ
  pub foreground : Bool
  pub session_idle : Option ℕ
  pub daemon_idle : Option ℕ

pub record ServeArgs : Type 0 where
  pub port : Option ℕ
  pub session_idle : Option ℕ

abbrev pub default_ws_port : ℕ
default_ws_port = 52800

abbrev pub default_daemon_idle : ℕ
default_daemon_idle = 600000

abbrev pub default_session_idle : ℕ
default_session_idle = 300000

-- `EXTENSION_CONNECT_WAIT`
abbrev pub extension_connect_wait : ℕ
extension_connect_wait = 5000

pub record DaemonConfig : Type 0 where
  pub ws_port : ℕ
  pub session_idle : ℕ
  pub daemon_idle : Option ℕ
  pub allow_any_origin : Bool
  pub connect_wait : ℕ

-- `From<&StartArgs>`
unfoldable pub start_config : StartArgs → DaemonConfig
start_config args = record {
  ws_port = get_or args.port default_ws_port;
  session_idle = get_or args.session_idle default_session_idle;
  daemon_idle = some (get_or args.daemon_idle default_daemon_idle);
  allow_any_origin = false;
  connect_wait = extension_connect_wait;
}

-- `From<&ServeArgs>`
unfoldable pub serve_config : ServeArgs → DaemonConfig
serve_config args = record {
  ws_port = get_or args.port default_ws_port;
  session_idle = get_or args.session_idle default_session_idle;
  daemon_idle = none;
  allow_any_origin = false;
  connect_wait = extension_connect_wait;
}

-- What the start reads of a `StatusResult`.
pub record DaemonStatus : Type 0 where
  pub pid : ℕ
  pub ws_port : ℕ

pub data StartError : Type 0 where
  unreadable_info : StartError
  other_port : ℕ → StartError
  idle_change : StartError
  detach_failed : StartError
  spawn_failed : StartError
  started_on : ℕ → StartError
  not_ready : StartError

-- What `read_valid` returns, and what the IPC daemon answers, if it does.
pub record Probe : Type 0 where
  pub info : Read
  pub answer : Option DaemonStatus

abbrev pub same_pid : DaemonInfo → DaemonStatus → Option DaemonStatus
same_pid info status = if status.pid == info.pid then some status else none

-- A daemon that is named by daemon.json, alive, and answers with that very id.
unfoldable pub confirmed : Read → Option DaemonStatus → Option DaemonStatus
confirmed (present info) answer = answer >>= same_pid info
confirmed missing answer = none
confirmed unreadable answer = none

-- `none` if the arguments ask nothing of a daemon that runs already but what it is.
unfoldable pub validate_existing_start : StartArgs → DaemonStatus → Option StartError
validate_existing_start args status =
    let other : Bool = elim args.port [ none ↦ false | some p ↦ not (status.ws_port == p) ] in
    if other
    then some (other_port status.ws_port)
    else if is_some args.session_idle || is_some args.daemon_idle
    then some idle_change
    else none

-- One round of the wait for the child, with the time of its deadline test.
pub record Poll : Type 0 where
  pub probe : Probe
  pub now : ℕ

pub data Waited : Type 0 where
  ready : DaemonStatus → Waited
  waited_for_nothing : StartError → Waited

-- A port is checked if one is expected.
unfoldable pub on_port : Option ℕ → DaemonStatus → Waited
on_port none status = ready status
on_port (some p) status =
    if status.ws_port == p then ready status else waited_for_nothing (started_on status.ws_port)

abbrev pub is_unreadable : Read → Bool
is_unreadable unreadable = true
is_unreadable missing = false
is_unreadable (present info) = false

-- What a round decides, if it does not go on to the next.
unfoldable pub decide : Option ℕ → ℕ → Poll → Option Waited
unfolding confirmed on_port
decide expected deadline p =
    if is_unreadable p.probe.info
    then some (waited_for_nothing unreadable_info)
    else elim (confirmed p.probe.info p.probe.answer) [
      | some status ↦ some (on_port expected status)
      | none ↦ if leb deadline p.now then some (waited_for_nothing not_ready) else none
    ]

-- `none`: the rounds given have run out and the deadline has not passed.
unfoldable pub wait_for_ready : Option ℕ → ℕ → List Poll → Option Waited
unfolding decide
wait_for_ready expected deadline [] = none
wait_for_ready expected deadline (p ∷ ps) =
    let later = wait_for_ready expected deadline ps in
    elim (decide expected deadline p) [ some w ↦ some w | none ↦ later ]

-- `args.port.filter(|port| *port != 0)`
abbrev pub expected_port : StartArgs → Option ℕ
expected_port args = do p ← args.port; if p == 0 then none else some p

pub data StartAction : Type 0 where
  detach_stdio : StartAction
  serve : DaemonConfig → StartAction
  spawn : StartArgs → StartAction

pub data Started : Type 0 where
  served : Started
  already_running : DaemonStatus → Started
  launched : DaemonStatus → Started
  failed : StartError → Started

-- What the command meets: whether it is the detached child, the daemon that may run already, whether
-- streams can be detached and the child spawned, and the rounds of the wait.
pub record Scene : Type 0 where
  pub is_child : Bool
  pub can_detach : Bool
  pub existing : Probe
  pub can_spawn : Bool
  pub deadline : ℕ
  pub polls : List Poll

abbrev pub conclude : StartArgs → Option Waited → Option (List StartAction × Started)
conclude args none = none
conclude args (some (ready status)) = some (spawn args ∷ [], launched status)
conclude args (some (waited_for_nothing e)) = some (spawn args ∷ [], failed e)

abbrev pub on_existing : StartArgs → DaemonStatus → Option StartError → List StartAction × Started
on_existing args status none = ([], already_running status)
on_existing args status (some e) = ([], failed e)

-- The rest of the command, where a daemon runs already and where none does.
abbrev pub start_beside :
    StartArgs → Scene → Option DaemonStatus → Option (List StartAction × Started)
start_beside args s (some status) =
    some (on_existing args status (validate_existing_start args status))
start_beside args s none =
    if s.can_spawn
    then conclude args (wait_for_ready (expected_port args) s.deadline s.polls)
    else some ([], failed spawn_failed)

unfoldable pub run_start : StartArgs → Scene → Option (List StartAction × Started)
unfolding start_config confirmed validate_existing_start wait_for_ready
run_start args s =
    if args.foreground
    then some (serve (start_config args) ∷ [], served)
    else if s.is_child
    then if s.can_detach
      then some (detach_stdio ∷ serve (start_config args) ∷ [], served)
      else some ([], failed detach_failed)
    else if is_unreadable s.existing.info
    then some ([], failed unreadable_info)
    else start_beside args s (confirmed s.existing.info s.existing.answer)
