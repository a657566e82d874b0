-- ===== src/Cli/Doctor.antt =====
-- crates/tabstride-cli/src/cli/doctor.rs: the checks and their verdicts. Details and hints are left
-- out; the outcomes of the checks of the home directory and of the skills are parameters.
pub mod Healthy
use tab_stride.Daemon.Process.Info.{Read, unreadable, missing, present, DaemonInfo}
use tab_stride.Prelude.{
  ℕ, ◌==◌, if◌then◌else◌, String, str_eq, Bool, true, false, not, ◌&&◌, Option, none, some, List,
  [], ◌∷◌,
}

pub data CheckStatus : Type 0 where
  passed failed not_applicable : CheckStatus

-- `ok` is false only for a failure.
pub record CheckResult : Type 0 where
  pub name : String
  pub ok : Bool
  pub status : CheckStatus

abbrev pub pass : String → CheckResult
pass name = record { name = name; ok = true; status = passed }

abbrev pub fail : String → CheckResult
fail name = record { name = name; ok = false; status = failed }

abbrev pub na : String → CheckResult
na name = record { name = name; ok = true; status = not_applicable }

-- What the checks read of a `StatusResult`: the ids of the browsers and of those with drift.
pub record Snapshot : Type 0 where
  pub pid : ℕ
  pub protocol_version : String
  pub browsers : List String
  pub version_skew_browsers : List String

pub data DoctorState : Type 0 where
  no_info read_error : DoctorState
  stale_dead ipc_unreachable : DaemonInfo → DoctorState
  pid_mismatch : DaemonInfo → Snapshot → DoctorState
  verified : Snapshot → DoctorState

abbrev pub no_browsers : Snapshot → Bool
no_browsers s = elim s.browsers [ [] ↦ true | _ ∷ _ ↦ false ]

abbrev pub on_answer : DaemonInfo → Option Snapshot → DoctorState
on_answer info none = ipc_unreachable info
on_answer info (some s) = if s.pid == info.pid then verified s else pid_mismatch info s

-- daemon.json, whether its process is alive, and what the daemon answers.
unfoldable pub current_state : Read → (ℕ → Bool) → Option Snapshot → DoctorState
current_state unreadable alive answer = read_error
current_state missing alive answer = no_info
current_state (present info) alive answer =
    if alive info.pid then on_answer info answer else stale_dead info

unfoldable pub needs_browser_wait : DoctorState → Bool
needs_browser_wait (verified s) = no_browsers s
needs_browser_wait (pid_mismatch info s) = false
needs_browser_wait no_info = false
needs_browser_wait read_error = false
needs_browser_wait (stale_dead info) = false
needs_browser_wait (ipc_unreachable info) = false

-- A second look, which waits for a browser, replaces the first where it is needed and `wait` is not 0.
unfoldable pub resolve_daemon_state : DoctorState → ℕ → DoctorState → DoctorState
unfolding needs_browser_wait
resolve_daemon_state first wait second =
    if needs_browser_wait first && not (wait == 0) then second else first

unfoldable pub status_of : DoctorState → Option Snapshot
status_of (verified s) = some s
status_of (pid_mismatch info s) = some s
status_of no_info = none
status_of read_error = none
status_of (stale_dead info) = none
status_of (ipc_unreachable info) = none

unfoldable pub check_daemon_running : DoctorState → CheckResult
check_daemon_running (verified s) = pass "daemon running"
check_daemon_running (pid_mismatch info s) = fail "daemon running"
check_daemon_running no_info = fail "daemon running"
check_daemon_running read_error = fail "daemon running"
check_daemon_running (stale_dead info) = fail "daemon running"
check_daemon_running (ipc_unreachable info) = fail "daemon running"

unfoldable pub check_version_compatible : Option Snapshot → CheckResult
check_version_compatible none = fail "protocol compatible"
check_version_compatible (some s) =
    if str_eq s.protocol_version "1.0"
    then pass "protocol compatible"
    else fail "protocol compatible"

abbrev pub compare_browsers : Snapshot → List String → CheckResult
compare_browsers s [] = pass "browser protocol compatible"
compare_browsers s (b ∷ bs) = fail "browser protocol compatible"

unfoldable pub check_browsers_protocol_compatible : Option Snapshot → CheckResult
check_browsers_protocol_compatible none = fail "browser protocol compatible"
check_browsers_protocol_compatible (some s) =
    if no_browsers s
    then na "browser protocol compatible"
    else compare_browsers s s.version_skew_browsers

unfoldable pub check_extension_connected : Option Snapshot → CheckResult
check_extension_connected none = fail "extension connected"
check_extension_connected (some s) =
    if no_browsers s then fail "extension connected" else pass "extension connected"

unfoldable pub collect_checks : CheckResult → CheckResult → DoctorState → List CheckResult
unfolding check_daemon_running check_version_compatible check_extension_connected
    check_browsers_protocol_compatible status_of
collect_checks home_writable skill_up_to_date state =
    home_writable
    ∷ skill_up_to_date
    ∷ check_daemon_running state
    ∷ check_version_compatible (status_of state)
    ∷ check_extension_connected (status_of state)
    ∷ check_browsers_protocol_compatible (status_of state)
    ∷ []
