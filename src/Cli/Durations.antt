-- ===== src/Cli/Durations.antt =====
-- The durations of command lines: `parse_timeout_ms` of crates/tabstride-cli/src/cli/navigate.rs and
-- `parse_duration_ms` of cli/waits.rs, over the scalar values of a text. Both split the unit off as
-- `parse_flow_timeout` does.
use tab_stride.Protocol.Locator.{Text}
use tab_stride.Text.{parse_u64, u64_max, codes, is_empty, bytes_eq, bytes_eq_iff}
use tab_stride.Text.Trim.{is_whitespace, trim}
use tab_stride.Text.Suffix.{strip_suffix}
use tab_stride.Daemon.Flow.Timeout.{split_unit, parse_flow_timeout, parse_flow_timeout-bounds}
use tab_stride.Prelude.{
  ltb, leb, ◌==◌, if◌then◌else◌, Bool-cases, Option-cases, ℕ, ◌*◌, ◌^◌, ◌≡◌, refl, ap, ◌∙◌, inl,
  inr, true, Option, none, some, [], ◌∷◌, arith, ◌>>=◌,
}
use tab_stride.Text.Solid.{solid, solid-parse_u64, trim-solid}

-- `u64::saturating_mul`
abbrev pub saturating_mul : ℕ → ℕ → ℕ
saturating_mul a b = if leb (a * b) u64_max then a * b else u64_max

-- `none` is the error.
unfoldable pub parse_duration_ms : Text → Option ℕ
unfolding trim split_unit parse_u64
parse_duration_ms raw =
    let arg = trim raw in
    let (number, factor) = split_unit arg in
    if is_empty arg then none else do n ← parse_u64 (trim number); some (saturating_mul n factor)

-- A timeout is above zero and a `u32`.
abbrev pub checked_timeout : ℕ → Option ℕ
checked_timeout ms = if ms == 0 then none else if ltb ms (2 ^ 32) then some ms else none

unfoldable pub parse_timeout_ms : Text → Option ℕ
unfolding trim split_unit parse_u64
parse_timeout_ms raw =
    let arg = trim raw in
    let (number, factor) = split_unit arg in
    if is_empty arg
    then none
    else do n ← parse_u64 (trim number); checked_timeout (saturating_mul n factor)

solid-strip_suffix :
    (suffix s t : Text)
    → strip_suffix suffix s ≡ some t
    → solid suffix ≡ true
    → solid t ≡ true
    → solid s ≡ true
unfolding strip_suffix
solid-strip_suffix suffix [] t h k l = refl
solid-strip_suffix suffix (c ∷ s) t h k l = elim (Bool-cases (bytes_eq (c ∷ s) suffix)) [
  | inl y ↦ ground (arith, bytes_eq_iff (c ∷ s) suffix)
  | inr n ↦ elim (Option-cases (strip_suffix suffix s)) [
    | inl e ↦ absurd (ground arith)
    | inr (r, e) ↦ ground (arith, solid-strip_suffix suffix s r e k)
  ]
]

solid-split_unit : (raw : Text) → solid (split_unit raw).0 ≡ true → solid raw ≡ true
unfolding split_unit is_whitespace
solid-split_unit raw h = elim (Option-cases (strip_suffix (codes "ms") raw)) [
  | inr (t, e) ↦ solid-strip_suffix (codes "ms") raw t e refl (ground arith)
  | inl n ↦ elim (Option-cases (strip_suffix (codes "s") raw)) [
    | inr (t, e) ↦ solid-strip_suffix (codes "s") raw t e refl (ground arith)
    | inl k ↦ elim (Option-cases (strip_suffix (codes "m") raw)) [
      | inr (t, e) ↦ solid-strip_suffix (codes "m") raw t e refl (ground arith)
      | inl m ↦ ground arith
    ]
  ]
]

-- A timeout of a command line is a duration above zero that fits a `u32`.
pub parse_timeout_ms-checked :
    (raw : Text) → parse_timeout_ms raw ≡ (parse_duration_ms raw >>= checked_timeout)
unfolding parse_timeout_ms parse_duration_ms
parse_timeout_ms-checked raw = ground arith

-- The total timeout that the daemon accepts for a flow is read to the same time by the other two.
pub parse_flow_timeout-agrees :
    (raw : Text) (ms : ℕ)
    → parse_flow_timeout (some raw) ≡ some ms
    → (parse_duration_ms raw ≡ some ms) × (parse_timeout_ms raw ≡ some ms)
unfolding parse_flow_timeout parse_timeout_ms parse_duration_ms
parse_flow_timeout-agrees raw ms h = elim (Option-cases (parse_u64 (split_unit raw).0)) [
  | inl e ↦ absurd (ground arith)
  | inr (n, e) ↦
      let num = solid-parse_u64 (split_unit raw).0 n e in
      let all = solid-split_unit raw num in
      let bounds = parse_flow_timeout-bounds (some raw) ms h in
      let same : parse_duration_ms raw ≡ some ms =
        ground (arith, trim-solid raw all, trim-solid (split_unit raw).0 num) in
      (same, parse_timeout_ms-checked raw ∙ ap (λ o. o >>= checked_timeout) same ∙ ground arith)
]
