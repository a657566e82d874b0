-- ===== src/Daemon/Process/Idle/Clients.antt =====
-- The clients of the IPC server in every order of steps: `serve` and `handle_connection` of
-- crates/tabstride-cli/src/daemon/ipc.rs, as far as the idle task sees them.
use tab_stride.Daemon.Process.Idle.{
  Activity, Tick, new_activity, ipc_open, ipc_close, ipc_activity, idle_task,
}
use tab_stride.Daemon.Process.Idle.Exits.{idle_ticks-IsIdle}
use tab_stride.Prelude.{
  ℕ, ◌+◌, ◌-◌, ◌%◌, ◌^◌, ◌<◌, ◌≤◌, some, List, [], ◌∷◌, ◌++◌, ◌≡◌, refl, arith, All, length,
  length-append, true,
}

-- The connections that are open, the activity, the clock, and the times at which some client opened
-- a connection, wrote a line or closed it.
pub record Server : Type 0 where
  pub open_connections : List ℕ
  pub activity : Activity
  pub clock : ℕ
  pub seen : List ℕ

abbrev pub new_server : ℕ → Server
new_server now = record {
  open_connections = [];
  activity = new_activity now;
  clock = now;
  seen = [];
}

pub data Step : Server → Server → Type 0 where
  opens :
      (s : Server) (c : ℕ)
      → Step s (record s {
        open_connections = c ∷ s.open_connections;
        activity = ipc_open s.clock s.activity;
        seen = s.clock ∷ s.seen;
      })
  writes :
      (s : Server)
      → Step s (record s { activity = ipc_activity s.clock s.activity; seen = s.clock ∷ s.seen })
  closes :
      (before after : List ℕ) (c : ℕ) (a : Activity) (clock : ℕ) (seen : List ℕ)
      → Step
          (record {
            open_connections = before ++ c ∷ after;
            activity = a;
            clock = clock;
            seen = seen;
          })
          (record {
            open_connections = before ++ after;
            activity = ipc_close clock a;
            clock = clock;
            seen = clock ∷ seen;
          })
  passes : (s : Server) (n : ℕ) → Step s (record s { clock = s.clock + n })

pub data Reaches : Server → Server → Type 0 where
  here : (s : Server) → Reaches s s
  then_step : (s t u : Server) → Reaches s t → Step t u → Reaches s u

-- The counter counts the open connections, and `last` is not before anything a client did.
pub record IsCounted (s : Server) : Type 0 where
  pub counted : s.activity.active ≡ length s.open_connections % 2 ^ 64
  pub recent : All (λ t. t ≤ s.activity.last) s.seen
  pub past : s.activity.last ≤ s.clock

All-le : (l m : ℕ) → l ≤ m → (ts : List ℕ) → All (λ t. t ≤ l) ts → All (λ t. t ≤ m) ts
All-le l m h [] a = tt
All-le l m h (t ∷ ts) a = (omega arith, All-le l m h ts a.1)

Step-IsCounted : (s t : Server) → Step s t → IsCounted s → IsCounted t
unfolding ipc_open ipc_close ipc_activity
Step-IsCounted _ _ (opens s c) v = record {
  counted = omega (arith, v.counted);
  recent = (omega arith, All-le s.activity.last s.clock v.past s.seen v.recent);
  past = omega arith;
}
Step-IsCounted _ _ (writes s) v = record {
  counted = v.counted;
  recent = (omega arith, All-le s.activity.last s.clock v.past s.seen v.recent);
  past = omega arith;
}
Step-IsCounted _ _ (closes before after c a clock seen) v = record {
  counted = omega (arith, v.counted, length-append before (c ∷ after), length-append before after);
  recent = (omega arith, All-le a.last clock v.past seen v.recent);
  past = omega arith;
}
Step-IsCounted _ _ (passes s n) v = record {
  counted = v.counted;
  recent = v.recent;
  past = omega (arith, v.past);
}

pub Reaches-IsCounted : (s t : Server) → Reaches s t → IsCounted s → IsCounted t
Reaches-IsCounted _ _ (here s) v = v
Reaches-IsCounted _ _ (then_step s t u r step) v =
    Step-IsCounted t u step (Reaches-IsCounted s t r v)

new_server-IsCounted : (now : ℕ) → IsCounted (new_server now)
new_server-IsCounted now = record { counted = refl; recent = tt; past = omega arith }

All-before :
    (idle l now : ℕ)
    → idle ≤ now - l
    → (ts : List ℕ) → All (λ t. t ≤ l) ts
    → All (λ t. idle ≤ now - t) ts
All-before idle l now h [] a = tt
All-before idle l now h (t ∷ ts) a = (omega arith, All-before idle l now h ts a.1)

length-eq-zero : (xs : List ℕ) → length xs ≡ 0 → xs ≡ []
length-eq-zero [] h = refl
length-eq-zero (x ∷ xs) h = absurd (omega arith)

-- In every order of connections, lines and ends, and with fewer than 2^64 connections open at a time,
-- the daemon ends by idleness only at a tick at which no client is connected, each thing that a client
-- did lies the timeout back, no browser is paired and no session is live.
pub idle_task-alone :
    (start idle : ℕ) (s : Server) (ts : List Tick) (t : Tick)
    → Reaches (new_server start) s
    → t.activity ≡ s.activity
    → length s.open_connections < 2 ^ 64
    → idle_task (some idle) ts ≡ some t
    → (s.open_connections ≡ [])
      × All (λ e. idle ≤ t.now - e) s.seen
      × (t.no_browsers ≡ true)
      × (t.no_sessions ≡ true)
unfolding idle_task
idle_task-alone start idle s ts t r e few h =
    let v = Reaches-IsCounted (new_server start) s r (new_server-IsCounted start) in
    let i = idle_ticks-IsIdle idle ts t h in
    let active : s.activity.active ≡ 0 = ground arith in
    let back : idle ≤ t.now - s.activity.last = ground arith in
    (
      length-eq-zero s.open_connections (omega (arith, v.counted)),
      All-before idle s.activity.last t.now back s.seen v.recent,
      i.2,
      i.3,
    )
