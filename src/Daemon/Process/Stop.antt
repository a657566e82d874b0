-- ===== src/Daemon/Process/Stop.antt =====
-- `run_stop` of crates/tabstride-cli/src/daemon/start.rs, on Unix.
pub mod Verified
use tab_stride.Daemon.Process.Info.{Read, unreadable, missing, present, DaemonInfo}
use tab_stride.Prelude.{
  false, ◌++◌, ◌<◌, ◌≤◌, All, ℕ, ltb, ◌==◌, if◌then◌else◌, Bool, true, Option, none, some, List, [],
  ◌∷◌, ◌≡◌,
}

-- What the command does to the rest of the system, in order. The kill and the removal of daemon.json
-- are attempts: whether they succeed is not looked at.
pub data Action : Type 0 where
  send_term : ℕ → Action
  send_kill : ℕ → Action
  remove_info : Action

pub data StopError : Type 0 where
  unreadable_info : StopError
  other_daemon : ℕ → StopError
  unverified : StopError
  term_failed : StopError

pub data Verdict : Type 0 where
  ok : Verdict
  failed : StopError → Verdict

-- One round of the wait: the time of the test, and whether the process is alive.
pub record Look : Type 0 where
  pub now : ℕ
  pub alive : Bool

-- What the command meets: daemon.json, whether its process is alive when the command looks at it
-- first, the process id that the IPC daemon answers with, if it does, whether SIGTERM can be sent,
-- the deadline, and the rounds. Nothing is looked at between a look and the signal after it.
pub record Scene : Type 0 where
  pub info : Read
  pub alive : Bool
  pub answer : Option ℕ
  pub term_sent : Bool
  pub deadline : ℕ
  pub looks : List Look

-- The loop, and what follows it. `none`: the rounds given have run out.
unfoldable pub await_exit : ℕ → ℕ → List Look → Option (List Action)
await_exit pid deadline [] = none
await_exit pid deadline (l ∷ ls) =
    let later = await_exit pid deadline ls in
    if ltb l.now deadline
    then (if l.alive then later else some (remove_info ∷ []))
    else some (send_kill pid ∷ remove_info ∷ [])

abbrev pub after_term : ℕ → Option (List Action) → Option (List Action × Verdict)
after_term pid none = none
after_term pid (some acts) = some (send_term pid ∷ acts, ok)

unfoldable pub stop_verified : Scene → ℕ → Option (List Action × Verdict)
unfolding await_exit
stop_verified s pid =
    if s.term_sent
    then after_term pid (await_exit pid s.deadline s.looks)
    else some ([], failed term_failed)

abbrev pub confirm : Scene → ℕ → Option ℕ → Option (List Action × Verdict)
confirm s pid none = some ([], failed unverified)
confirm s pid (some p) =
    if p == pid then stop_verified s pid else some ([], failed (other_daemon p))

abbrev pub stop_present : Scene → DaemonInfo → Option (List Action × Verdict)
stop_present s info = if s.alive then confirm s info.pid s.answer else some (remove_info ∷ [], ok)

abbrev pub stop_on : Scene → Read → Option (List Action × Verdict)
stop_on s unreadable = some ([], failed unreadable_info)
stop_on s missing = some ([], ok)
stop_on s (present info) = stop_present s info

unfoldable pub run_stop : Scene → Option (List Action × Verdict)
unfolding stop_verified
run_stop s = stop_on s s.info

abbrev pub is_missing : Read → Bool
is_missing missing = true
is_missing unreadable = false
is_missing (present info) = false

-- Whether the removal of daemon.json is tried.
abbrev pub removes : List Action → Bool
removes [] = false
removes (remove_info ∷ acts) = true
removes (send_term p ∷ acts) = removes acts
removes (send_kill p ∷ acts) = removes acts

-- The process of daemon.json was alive at the first look and answered as the daemon with that very id.
abbrev pub Confirmed : Scene → ℕ → Type 0
Confirmed s p =
    (info : DaemonInfo) × (s.info ≡ present info)
    × (p ≡ info.pid)
    × (s.alive ≡ true)
    × (s.answer ≡ some info.pid)

-- The clock was read at or past the deadline, and each look before that came in time and found the
-- process alive.
abbrev pub Outlives : ℕ → List Look → Type 0
Outlives deadline looks =
    (before : List Look) × (l : Look) × (after : List Look) × (looks ≡ before ++ l ∷ after)
    × All (λ x. (x.now < deadline) × (x.alive ≡ true)) before
    × (deadline ≤ l.now)

-- An action is no signal, or one to a confirmed process, and a kill only if it outlives the deadline.
abbrev pub IsVerified : Scene → Action → Type 0
IsVerified s remove_info = Unit
IsVerified s (send_term p) = Confirmed s p
IsVerified s (send_kill p) = Confirmed s p × Outlives s.deadline s.looks
