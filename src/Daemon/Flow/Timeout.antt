-- ===== src/Daemon/Flow/Timeout.antt =====
-- `parse_flow_timeout` of crates/tabstride-cli/src/daemon/flow_runtime.rs, in milliseconds.
use tab_stride.Protocol.Locator.{Text}
use tab_stride.Text.{parse_u64, u64_max, codes}
use tab_stride.Text.Suffix.{strip_suffix}
use tab_stride.Prelude.{
  ltb, leb, ◌==◌, if◌then◌else◌, ℕ, ◌*◌, ◌≤◌, ◌≡◌, ◌||◌, Option, none, some, arith, ◌>>=◌,
}

abbrev pub default_flow_timeout : ℕ
default_flow_timeout = 30 * 1000

abbrev pub max_flow_timeout : ℕ
max_flow_timeout = 10 * 60 * 1000

-- `u64::checked_mul`
abbrev pub checked_mul : ℕ → ℕ → Option ℕ
checked_mul a b = if leb (a * b) u64_max then some (a * b) else none

-- The number and its multiplier.
unfoldable pub split_unit : Text → Text × ℕ
unfolding strip_suffix
split_unit raw = elim (strip_suffix (codes "ms") raw) [
  | some value ↦ (value, 1)
  | none ↦ elim (strip_suffix (codes "s") raw) [
    | some value ↦ (value, 1000)
    | none ↦ elim (strip_suffix (codes "m") raw) [ some value ↦ (value, 60000) | none ↦ (raw, 1) ]
  ]
]

abbrev pub read_millis : Text × ℕ → Option ℕ
read_millis (number, multiplier) = do
  value ← parse_u64 number
  millis ← checked_mul value multiplier
  if millis == 0 || ltb max_flow_timeout millis then none else some millis

-- `none` is the error, which is `invalid_params` in each case.
unfoldable pub parse_flow_timeout : Option Text → Option ℕ
unfolding split_unit parse_u64
parse_flow_timeout none = some default_flow_timeout
parse_flow_timeout (some raw) = read_millis (split_unit raw)

-- A timeout that is accepted is between one millisecond and ten minutes.
pub parse_flow_timeout-bounds :
    (raw : Option Text) (ms : ℕ) → parse_flow_timeout raw ≡ some ms → (1 ≤ ms) × (ms ≤ 600000)
unfolding parse_flow_timeout
parse_flow_timeout-bounds none ms h = (ground arith, ground arith)
parse_flow_timeout-bounds (some raw) ms h = ground arith
