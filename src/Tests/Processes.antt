-- ===== src/Tests/Processes.antt =====
-- The theorems on the daemon process at concrete inputs.
use tab_stride.Files.{Directory}
use tab_stride.Text.{codes, bytes_eq, parse_u64, parse_digits}
use tab_stride.Text.Trim.{trim, trim_start, trim_end, is_whitespace}
use tab_stride.Cli.IdleDuration.{parse_duration, parse_trimmed, split_letter, in_unit}
use tab_stride.Daemon.Process.Info.{
  DaemonInfo, present, missing, write_to_path, read_from_path, info_name, owner_only,
  read_from_path-write_to_path,
}
use tab_stride.Daemon.Process.Stop.{
  Look, Action, send_term, send_kill, remove_info, Verdict, ok, run_stop, await_exit,
}
use tab_stride.Daemon.Process.Stop.Verified.{Settles, run_stop-Settles}
use tab_stride.Daemon.Process.Start.{
  StartArgs, DaemonStatus, Probe, Poll, Waited, ready, wait_for_ready, decide, confirmed, on_port,
  run_start, spawn, launched, validate_existing_start, start_config,
}
use tab_stride.Daemon.Process.Start.Ready.{wait_for_ready-Finds}
use tab_stride.Daemon.Process.Start.Launched.{Accounts, run_start-Accounts}
use tab_stride.Daemon.Process.Idle.{Tick, ipc_open, ipc_close, idle_task, idle_ticks}
use tab_stride.Daemon.Process.Idle.Exits.{idle_ticks-Ends}
use tab_stride.Daemon.Process.Idle.Clients.{
  Server, new_server, Reaches, here, then_step, opens, closes, passes, idle_task-alone,
}
use tab_stride.Daemon.Process.Child.{format_duration, parse_duration-format_duration}
use tab_stride.Daemon.Process.Stop as Stop
use tab_stride.Daemon.Process.Start as Start
use tab_stride.Prelude.{
  ℕ, ◌-◌, ◌≤◌, true, false, Option, none, some, List, [], ◌∷◌, ◌≡◌, ◌⊎◌, refl, arith, All,
}

abbrev running : DaemonInfo
running = record {
  pid = 42;
  sock_path = "/run/tabstride.sock";
  ws_port = 52800;
  version = "0.1.0";
  agent_token = "token";
  started_at_epoch_secs = 1000;
}

abbrev encode : DaemonInfo → List ℕ
encode info = info.pid ∷ []

abbrev decode : List ℕ → Option DaemonInfo
decode bytes = some running

abbrev empty_directory : Directory
empty_directory name = none

-- The process ends in the fourth step, with one byte of the payload written.
read_from_path-write_to_path_example :
    let r = write_to_path encode decode (codes "42") 420 0 running 3 1 empty_directory in
    ((r.1 ≡ false)
      × (read_from_path encode decode r.0 ≡ read_from_path encode decode empty_directory))
    ⊎ ((r.1 ≡ true)
        × (read_from_path encode decode r.0 ≡ present running)
        × (r.0 info_name ≡ some (record { content = encode running; mode = owner_only })))
read_from_path-write_to_path_example =
    read_from_path-write_to_path encode decode running refl (codes "42") 420 0 3 1 empty_directory

abbrev stubborn : Stop.Scene
stubborn = record {
  info = present running;
  alive = true;
  answer = some 42;
  term_sent = true;
  deadline = 5000;
  looks = record { now = 0; alive = true } ∷ record { now = 5010; alive = true } ∷ [];
}

stubborn_is_killed : run_stop stubborn ≡ some (send_term 42 ∷ send_kill 42 ∷ remove_info ∷ [], ok)
unfolding run_stop
stubborn_is_killed = refl

run_stop-Settles_example : Settles stubborn (send_term 42 ∷ send_kill 42 ∷ remove_info ∷ []) ok
run_stop-Settles_example =
    run_stop-Settles stubborn (send_term 42 ∷ send_kill 42 ∷ remove_info ∷ []) ok stubborn_is_killed

abbrev answering : DaemonStatus
answering = record { pid = 42; ws_port = 52800 }

abbrev nothing_yet : Poll
nothing_yet = record { probe = record { info = missing; answer = none }; now = 0 }

abbrev answers_now : Poll
answers_now = record {
  probe = record { info = present running; answer = some answering };
  now = 50;
}

wait_for_ready-Finds_example :
    wait_for_ready (some 52800) 3000 (nothing_yet ∷ answers_now ∷ []) ≡ some (ready answering)
unfolding confirmed on_port
wait_for_ready-Finds_example =
    wait_for_ready-Finds (some 52800) 3000 (nothing_yet ∷ []) answers_now [] answering
      ((refl, refl, omega arith), tt) (refl, refl)

abbrev on_a_port : StartArgs
on_a_port = record {
  port = some 52800;
  foreground = false;
  session_idle = none;
  daemon_idle = none;
}

abbrev from_cold : Start.Scene
from_cold = record {
  is_child = false;
  can_detach = true;
  existing = record { info = missing; answer = none };
  can_spawn = true;
  deadline = 3000;
  polls = nothing_yet ∷ answers_now ∷ [];
}

launches : run_start on_a_port from_cold ≡ some (spawn on_a_port ∷ [], launched answering)
unfolding run_start
launches = refl

run_start-Accounts_example :
    Accounts on_a_port from_cold (spawn on_a_port ∷ []) (launched answering)
run_start-Accounts_example =
    run_start-Accounts on_a_port from_cold (spawn on_a_port ∷ []) (launched answering) launches

abbrev after_client : Server
after_client = record {
  open_connections = [];
  activity = record { active = 0; last = 30 };
  clock = 30;
  seen = 30 ∷ 10 ∷ [];
}

abbrev with_client : ℕ → Server
with_client now = record {
  open_connections = 7 ∷ [];
  activity = record { active = 1; last = 10 };
  clock = now;
  seen = 10 ∷ [];
}

came_and_went : Reaches (new_server 10) after_client
unfolding ipc_open ipc_close
came_and_went =
    then_step (new_server 10) (with_client 30) after_client
      (then_step (new_server 10) (with_client 10) (with_client 30)
        (then_step (new_server 10) (new_server 10) (with_client 10) (here (new_server 10))
          (opens (new_server 10) 7))
        (passes (with_client 10) 20))
      (closes [] [] 7 (record { active = 1; last = 10 }) 30 (10 ∷ []))

abbrev quiet_tick : ℕ → Tick
quiet_tick t = record {
  now = t;
  activity = record { active = 0; last = 30 };
  no_browsers = true;
  no_sessions = true;
}

ends_at_1100 :
    idle_task (some 1000) (quiet_tick 600 ∷ quiet_tick 1100 ∷ []) ≡ some (quiet_tick 1100)
unfolding idle_task
ends_at_1100 = refl

idle_task-alone_example :
    (after_client.open_connections ≡ [])
    × All (λ e. 1000 ≤ 1100 - e) (30 ∷ 10 ∷ [])
    × ((quiet_tick 1100).no_browsers ≡ true)
    × ((quiet_tick 1100).no_sessions ≡ true)
idle_task-alone_example =
    idle_task-alone 10 1000 after_client (quiet_tick 600 ∷ quiet_tick 1100 ∷ []) (quiet_tick 1100)
      came_and_went refl (omega arith) ends_at_1100

idle_ticks-Ends_example :
    (t : Tick) × (idle_ticks 1000 (quiet_tick 600 ∷ quiet_tick 1100 ∷ []) ≡ some t)
    × (1030 ≤ t.now)
    × (t.now ≤ 1530)
idle_ticks-Ends_example =
    idle_ticks-Ends 1000 30 100 500 (quiet_tick 600 ∷ quiet_tick 1100 ∷ [])
      ((refl, refl, refl, refl), ((refl, refl, refl, refl), tt))
      ((omega arith, omega arith, (omega arith, omega arith, tt))) (omega arith) (omega arith) refl

ninety_seconds : parse_duration (codes "90s") ≡ some 90000
unfolding parse_duration parse_trimmed split_letter in_unit trim trim_start trim_end is_whitespace
    parse_u64 parse_digits bytes_eq
ninety_seconds = refl

parse_duration-format_duration_example : parse_duration (format_duration 90000) ≡ some 90000
parse_duration-format_duration_example =
    parse_duration-format_duration (codes "90s") 90000 ninety_seconds
