-- ===== src/Cli/Doctor/Healthy.antt =====
-- What it means that no check fails.
use tab_stride.Cli.Doctor.{
  CheckResult, Snapshot, DoctorState, no_info, read_error, stale_dead, ipc_unreachable,
  pid_mismatch, verified, collect_checks,
}
use tab_stride.Prelude.{eq_iff, Bool, true, ◌&&◌, List, [], ◌∷◌, ◌≡◌, ◌≢◌, refl, arith}

abbrev pub all_ok : List CheckResult → Bool
all_ok [] = true
all_ok (c ∷ cs) = c.ok && all_ok cs

-- The daemon that daemon.json names is alive and answered with its id, speaks the protocol of the
-- command, and has browsers, none of them with drift.
abbrev pub IsHealthy : DoctorState → Type 0
IsHealthy state =
    (s : Snapshot) × (state ≡ verified s)
    × (s.protocol_version ≡ "1.0")
    × (s.browsers ≢ [])
    × (s.version_skew_browsers ≡ [])

-- Where no check fails, the home directory and the skills are fine and the daemon is healthy.
pub all_ok-IsHealthy :
    (home skill : CheckResult) (state : DoctorState)
    → all_ok (collect_checks home skill state) ≡ true
    → (home.ok ≡ true) × (skill.ok ≡ true) × IsHealthy state
unfolding collect_checks
all_ok-IsHealthy home skill (verified s) h = (
  ground arith,
  ground arith,
  (s, refl, ground (arith, eq_iff s.protocol_version "1.0"), λ e. ground arith, ground arith),
)
all_ok-IsHealthy home skill (pid_mismatch info s) h = absurd (ground arith)
all_ok-IsHealthy home skill no_info h = absurd (ground arith)
all_ok-IsHealthy home skill read_error h = absurd (ground arith)
all_ok-IsHealthy home skill (stale_dead info) h = absurd (ground arith)
all_ok-IsHealthy home skill (ipc_unreachable info) h = absurd (ground arith)

-- And no check fails where they are.
pub IsHealthy-all_ok :
    (home skill : CheckResult) (s : Snapshot)
    → home.ok ≡ true
    → skill.ok ≡ true
    → s.protocol_version ≡ "1.0"
    → s.browsers ≢ []
    → s.version_skew_browsers ≡ []
    → all_ok (collect_checks home skill (verified s)) ≡ true
unfolding collect_checks
IsHealthy-all_ok home skill s a b c d e = ground (arith, eq_iff s.protocol_version "1.0")
