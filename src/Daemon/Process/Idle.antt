-- ===== src/Daemon/Process/Idle.antt =====
-- When the daemon exits by itself: the activity that `run_foreground` of
-- crates/tabstride-cli/src/daemon/start.rs records around `serve` of daemon/ipc.rs, and its idle task.
-- Times are milliseconds.
pub mod Exits
pub mod Clients
use tab_stride.Prelude.{
  ℕ, leb, ltb, ◌+◌, ◌-◌, ◌/◌, ◌%◌, ◌^◌, ◌<◌, ◌≤◌, if◌then◌else◌, Bool, true, false, not, ◌&&◌, ◌||◌,
  Option, none, some, List, [], ◌∷◌,
}

-- `active_ipc_connections`, a `usize`, and `activity`.
pub record Activity : Type 0 where
  pub active : ℕ
  pub last : ℕ

abbrev pub new_activity : ℕ → Activity
new_activity now = record { active = 0; last = now }

-- `record_activity`
abbrev pub record_activity : ℕ → Activity → Activity
record_activity now a = record a { last = now }

-- `ipc_open` and `ipc_close`: `fetch_add` and `fetch_sub` wrap around.
unfoldable pub ipc_open : ℕ → Activity → Activity
ipc_open now a = record_activity now (record a { active = (a.active + 1) % 2 ^ 64 })

unfoldable pub ipc_close : ℕ → Activity → Activity
ipc_close now a = record_activity now (record a { active = (a.active + (2 ^ 64 - 1)) % 2 ^ 64 })

-- `ipc_activity`, on each line of a connection.
unfoldable pub ipc_activity : ℕ → Activity → Activity
ipc_activity now a = record_activity now a

-- The interval of the ticks, a quarter of the timeout but 250 ms at least.
abbrev pub tick_interval : ℕ → ℕ
tick_interval idle = if leb (idle / 4) 250 then 250 else idle / 4

-- What the idle task sees at a tick: the time, the activity, and the two registries.
pub record Tick : Type 0 where
  pub now : ℕ
  pub activity : Activity
  pub no_browsers : Bool
  pub no_sessions : Bool

-- Whether the task goes on after a tick.
unfoldable pub stays : ℕ → Tick → Bool
stays idle t =
    ltb (t.now - t.activity.last) idle
    || ltb 0 t.activity.active
    || not t.no_browsers
    || not t.no_sessions

-- The tick at which the task ends the daemon. `none`: it does not in the ticks given.
unfoldable pub idle_ticks : ℕ → List Tick → Option Tick
unfolding stays
idle_ticks idle [] = none
idle_ticks idle (t ∷ ts) = let later = idle_ticks idle ts in if stays idle t then later else some t

-- A service without a timeout waits for a signal only.
unfoldable pub idle_task : Option ℕ → List Tick → Option Tick
unfolding idle_ticks
idle_task none ts = none
idle_task (some idle) ts = idle_ticks idle ts
