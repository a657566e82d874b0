-- ===== src/Cli/BrowserWait.antt =====
-- crates/tabstride-cli/src/cli/browser_wait.rs. A duration is its number of nanoseconds; what a
-- variable of the environment parses to is an argument.
use tab_stride.Daemon.Tools.{clamp_browser_wait}
use tab_stride.Prelude.{
  ℕ, ◌==◌, leb, if◌then◌else◌, ◌+◌, ◌*◌, ◌/◌, ◌≤◌, ◌≡◌, ◌⊎◌, refl, inl, inr, Bool-cases, Option,
  none, some, arith, ◌≡◌, ◌⊎◌,
}

-- `Duration::from_millis`
abbrev pub millis : ℕ → ℕ
millis ms = ms * 1000000

abbrev pub default_browser_connect_wait : ℕ
default_browser_connect_wait = millis 5000

abbrev pub max_browser_connect_wait : ℕ
max_browser_connect_wait = millis 60000

unfoldable pub clamp_wait : ℕ → ℕ
clamp_wait wait = if leb wait max_browser_connect_wait then wait else max_browser_connect_wait

unfoldable pub wait_from_env : Option ℕ → Option ℕ
unfolding clamp_wait
wait_from_env none = none
wait_from_env (some ms) = some (clamp_wait (millis ms))

abbrev pub or_default : Option ℕ → ℕ → ℕ
or_default none d = d
or_default (some wait) d = wait

unfoldable pub browser_connect_wait : Option ℕ → ℕ
unfolding wait_from_env
browser_connect_wait env = or_default (wait_from_env env) default_browser_connect_wait

-- The doctor's own variable, and the one of the other commands.
unfoldable pub doctor_browser_connect_wait : Option ℕ → Option ℕ → ℕ
unfolding wait_from_env browser_connect_wait
doctor_browser_connect_wait doctor env =
    or_default (wait_from_env doctor) (browser_connect_wait env)

unfoldable pub wait_for_browser_ms : ℕ → Option ℕ
unfolding clamp_wait
wait_for_browser_ms wait = if clamp_wait wait == 0 then none else some (clamp_wait wait / 1000000)

unfoldable pub browser_query_ipc_timeout : ℕ → ℕ → ℕ
unfolding clamp_wait
browser_query_ipc_timeout wait default_timeout =
    if clamp_wait wait == 0 then default_timeout else clamp_wait wait + millis 2000

-- How long the daemon waits for a browser where it is asked to, in milliseconds.
abbrev pub waits_for : Option ℕ → ℕ
waits_for none = 0
waits_for (some ms) = ms

waits_for-clamp_browser_wait : (ms : ℕ) → ms ≤ 60000 → waits_for (clamp_browser_wait (some ms)) ≡ ms
unfolding clamp_browser_wait
waits_for-clamp_browser_wait ms h = ground arith

clamp_wait-max : (wait : ℕ) → clamp_wait wait ≤ max_browser_connect_wait
unfolding clamp_wait
clamp_wait-max wait = ground arith

to_millis : (c : ℕ) → c ≤ 60000000000 → (c / 1000000 ≤ 60000) × (c / 1000000 * 1000000 ≤ c)
to_millis c h = (omega arith, omega arith)

-- The daemon waits as long as it is asked to, and the client waits for two seconds longer.
pub browser_query_ipc_timeout-outlasts :
    (wait default_timeout : ℕ)
    → let asked = wait_for_browser_ms wait in
      (waits_for (clamp_browser_wait asked) ≡ waits_for asked)
      × ((millis (waits_for asked) + millis 2000 ≤ browser_query_ipc_timeout wait default_timeout)
          ⊎ ((asked ≡ none) × (browser_query_ipc_timeout wait default_timeout ≡ default_timeout)))
unfolding wait_for_browser_ms browser_query_ipc_timeout clamp_browser_wait
browser_query_ipc_timeout-outlasts wait default_timeout =
    let (few, below) = to_millis (clamp_wait wait) (clamp_wait-max wait) in
    elim (Bool-cases (clamp_wait wait == 0)) [
      | inl y ↦ rw y (refl, inr (refl, refl))
      | inr n ↦
          rw n (waits_for-clamp_browser_wait (clamp_wait wait / 1000000) few, inl (omega arith))
    ]
