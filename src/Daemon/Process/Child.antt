-- ===== src/Daemon/Process/Child.antt =====
-- How a start hands its arguments to the child: `apply_start_args` and `format_duration` of
-- crates/tabstride-cli/src/daemon/start.rs.
use mathlib.Core.Option.{map as map_option}
use tab_stride.Protocol.Locator.{Text}
use tab_stride.Text.{codes, u64_max, parse_u64, parse_digits, bytes_eq}
use tab_stride.Text.Decimal.{decimal, parse_u64-decimal}
use tab_stride.Text.Solid.{solid, trim-solid, solid-parse_u64, solid-append}
use tab_stride.Text.Trim.{trim, is_whitespace}
use tab_stride.Cli.IdleDuration.{
  parse_duration, parse_trimmed, in_unit, parse_trimmed-written, split_letter, is_letter,
}
use tab_stride.Daemon.Process.Start.{StartArgs}
use tab_stride.Prelude.{
  ℕ, leb, ◌==◌, ◌+◌, ◌-◌, ◌*◌, ◌/◌, ◌%◌, ◌≤◌, if◌then◌else◌, true, Option, none, some, List, [],
  ◌∷◌, ◌++◌, ◌≡◌, refl, arith, Bool-cases, Option-cases, inl, inr, ◌∙◌, ap, ◌&&◌, ◌||◌,
}

-- A duration of whole milliseconds, as all durations of the command line are.
unfoldable pub format_duration : ℕ → Text
unfolding decimal
format_duration ms =
    if ms % 1000 == 0 then decimal (ms / 1000) ++ codes "s" else decimal ms ++ codes "ms"

-- `cmd.arg(flag).arg(text)`, if there is a value.
abbrev pub with_flag : Text → Option Text → List Text
with_flag flag none = []
with_flag flag (some t) = flag ∷ t ∷ []

unfoldable pub apply_start_args : StartArgs → List Text
unfolding format_duration
apply_start_args args =
    codes "daemon"
    ∷ codes "start"
    ∷ (with_flag (codes "--port") (map_option decimal args.port)
        ++ (with_flag (codes "--session-idle") (map_option format_duration args.session_idle)
            ++ with_flag (codes "--daemon-idle") (map_option format_duration args.daemon_idle)))

le-parse_digits :
    (acc : ℕ) (s : Text) (n : ℕ) → acc ≤ u64_max → parse_digits acc s ≡ some n → n ≤ u64_max
unfolding parse_digits
le-parse_digits acc [] n h e = ground arith
le-parse_digits acc (c ∷ s) n h e = ground (arith, le-parse_digits (acc * 10 + (c - b'0')) s n)

le-parse_u64 : (s : Text) (n : ℕ) → parse_u64 s ≡ some n → n ≤ u64_max
unfolding parse_u64
le-parse_u64 [] n e = absurd (cc)
le-parse_u64 (c ∷ s) n e = ground (arith, le-parse_digits 0 s n, le-parse_digits 0 (c ∷ s) n)

-- A number of milliseconds that fits, or of seconds that does.
abbrev IsPrintable : ℕ → Type 0
IsPrintable ms = (leb ms u64_max || (ms % 1000 == 0 && leb (ms / 1000) u64_max)) ≡ true

in_unit-IsPrintable : (u : Text) (n ms : ℕ) → n ≤ u64_max → in_unit u n ≡ some ms → IsPrintable ms
unfolding in_unit
in_unit-IsPrintable u n ms h e = ground arith

parse_trimmed-IsPrintable : (s : Text) (ms : ℕ) → parse_trimmed s ≡ some ms → IsPrintable ms
unfolding parse_trimmed
parse_trimmed-IsPrintable s ms e = elim (Option-cases (parse_u64 (split_letter s).0)) [
  | inl n ↦ absurd (ground arith)
  | inr (n, p) ↦
      in_unit-IsPrintable (split_letter s).1 n ms (le-parse_u64 (split_letter s).0 n p)
        (ground arith)
]

parse_duration-IsPrintable : (raw : Text) (ms : ℕ) → parse_duration raw ≡ some ms → IsPrintable ms
unfolding parse_duration
parse_duration-IsPrintable raw ms e = parse_trimmed-IsPrintable (trim raw) ms e

-- A printed number with a unit behind it is read as that number in that unit.
parse_duration-decimal :
    (n c : ℕ) (t : Text)
    → n ≤ u64_max
    → is_letter c ≡ true
    → solid (c ∷ t) ≡ true
    → parse_duration (decimal n ++ c ∷ t) ≡ in_unit (c ∷ t) n
unfolding parse_duration
parse_duration-decimal n c t h l k =
    let p = parse_u64-decimal n h in
    ap parse_trimmed (
      trim-solid (decimal n ++ c ∷ t)
        (solid-append (decimal n) (c ∷ t) (solid-parse_u64 (decimal n) n p) k))
    ∙ parse_trimmed-written (decimal n) n c t p l

in_unit-s : (n : ℕ) → in_unit (codes "s") n ≡ some (n * 1000)
unfolding in_unit bytes_eq
in_unit-s n = refl

in_unit-ms : (n : ℕ) → in_unit (codes "ms") n ≡ some n
unfolding in_unit bytes_eq
in_unit-ms n = refl

-- The child reads the timeout that the parent read: a duration that was parsed and is printed for the
-- child's command line parses to itself.
pub parse_duration-format_duration :
    (raw : Text) (ms : ℕ)
    → parse_duration raw ≡ some ms
    → parse_duration (format_duration ms) ≡ some ms
unfolding format_duration is_whitespace
parse_duration-format_duration raw ms e = elim (Bool-cases (ms % 1000 == 0)) [
  | inl y ↦ rw y (
      parse_duration-decimal (ms / 1000) b's' []
        (ground (arith, parse_duration-IsPrintable raw ms e)) refl refl
      ∙ in_unit-s (ms / 1000)
      ∙ ap some (ground arith))
  | inr n ↦ rw n (
      parse_duration-decimal ms b'm' (codes "s")
        (ground (arith, parse_duration-IsPrintable raw ms e)) refl refl
      ∙ in_unit-ms ms)
]
