-- ===== src/Daemon/Flow/Units.antt =====
-- What a flow timeout denotes: digits, and a unit behind them.
use tab_stride.Protocol.Locator.{Text}
use tab_stride.Text.{codes, is_digit, all_digits, bytes_eq, bytes_eq_iff, u64_max}
use tab_stride.Text.Digits.{value_from, parse_u64-value}
use tab_stride.Text.Suffix.{strip_suffix}
use tab_stride.Daemon.Flow.Timeout.{parse_flow_timeout, split_unit, read_millis}
use tab_stride.Prelude.{
  leb, if◌then◌else◌, ℕ, ◌*◌, ◌≡◌, true, false, ◌&&◌, Option, none, some, [], ◌∷◌, ◌++◌, arith,
  refl, Bool-cases, ◌≤◌, ◌<◌, ap, ◌∙◌, inl, inr, append_nil,
}

pub data TimeUnit : Type 0 where
  unmarked millisecond second minute : TimeUnit

abbrev pub mark : TimeUnit → Text
mark unmarked = []
mark millisecond = codes "ms"
mark second = codes "s"
mark minute = codes "m"

abbrev pub factor : TimeUnit → ℕ
factor unmarked = 1
factor millisecond = 1
factor second = 1000
factor minute = 60000

-- From one millisecond to ten minutes.
abbrev pub within_limits : ℕ → Option ℕ
within_limits ms = if leb 1 ms && leb ms 600000 then some ms else none

module _ (k : ℕ) (suffix : Text) (not_digit : is_digit k ≡ false) where
  strip_suffix-append :
      (t : Text) → all_digits t ≡ true → strip_suffix (k ∷ suffix) (t ++ k ∷ suffix) ≡ some t
  unfolding strip_suffix all_digits bytes_eq
  strip_suffix-append [] h = ground (arith, bytes_eq_iff (k ∷ suffix) (k ∷ suffix))
  strip_suffix-append (c ∷ t) h = ground (arith, strip_suffix-append t)

  strip_suffix-none :
      (t r : Text)
      → all_digits t ≡ true
      → strip_suffix (k ∷ suffix) r ≡ none
      → strip_suffix (k ∷ suffix) (t ++ r) ≡ none
  unfolding strip_suffix all_digits bytes_eq
  strip_suffix-none [] r h e = e
  strip_suffix-none (c ∷ t) r h e = ground (arith, strip_suffix-none t r)

read_millis-digits :
    (c : ℕ) (s : Text) (f : ℕ)
    → all_digits (c ∷ s) ≡ true
    → 1 ≤ f
    → read_millis (c ∷ s, f) ≡ within_limits (value_from 0 (c ∷ s) * f)
read_millis-digits c s f h p = elim (Bool-cases (leb (value_from 0 (c ∷ s)) u64_max)) [
  | inl y ↦ ground (arith, parse_u64-value c s h)
  | inr n ↦
      let big : u64_max < value_from 0 (c ∷ s) * f = grind arith in
      ground (arith, parse_u64-value c s h, big)
]

module _ (t : Text) (digits : all_digits t ≡ true) where
  abbrev no_ms :
      (r : Text) → strip_suffix (codes "ms") r ≡ none → strip_suffix (codes "ms") (t ++ r) ≡ none
  no_ms r e = strip_suffix-none b'm' (codes "s") refl t r digits e

  abbrev no_s :
      (r : Text) → strip_suffix (codes "s") r ≡ none → strip_suffix (codes "s") (t ++ r) ≡ none
  no_s r e = strip_suffix-none b's' [] refl t r digits e

  abbrev no_m :
      (r : Text) → strip_suffix (codes "m") r ≡ none → strip_suffix (codes "m") (t ++ r) ≡ none
  no_m r e = strip_suffix-none b'm' [] refl t r digits e

  split_unit-append : (u : TimeUnit) → split_unit (t ++ mark u) ≡ (t, factor u)
  unfolding split_unit strip_suffix bytes_eq
  split_unit-append unmarked =
      ground (arith, no_ms [] refl, no_s [] refl, no_m [] refl, append_nil t)
  split_unit-append millisecond = ground (arith, strip_suffix-append b'm' (codes "s") refl t digits)
  split_unit-append second =
      ground (arith, no_ms (codes "s") refl, strip_suffix-append b's' [] refl t digits)
  split_unit-append minute = ground (
    arith,
    no_ms (codes "m") refl,
    no_s (codes "m") refl,
    strip_suffix-append b'm' [] refl t digits,
  )

-- Digits with a unit are accepted exactly if they denote at least one millisecond and at most ten
-- minutes, as the number of milliseconds that they denote; without a unit they are milliseconds.
pub parse_flow_timeout-mark :
    (u : TimeUnit) (c : ℕ) (s : Text)
    → all_digits (c ∷ s) ≡ true
    → parse_flow_timeout (some ((c ∷ s) ++ mark u))
      ≡ within_limits (value_from 0 (c ∷ s) * factor u)
unfolding parse_flow_timeout
parse_flow_timeout-mark u c s h =
    ap read_millis (split_unit-append (c ∷ s) h u)
    ∙ read_millis-digits c s (factor u) h (grind arith)
