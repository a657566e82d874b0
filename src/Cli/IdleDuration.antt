-- ===== src/Cli/IdleDuration.antt =====
-- `parse_duration` of crates/tabstride-cli/src/cli/daemon.rs, in milliseconds. Its products are
-- those of a release build, which wrap around.
use tab_stride.Protocol.Locator.{Text}
use tab_stride.Text.{parse_u64, parse_digits, codes, is_empty, bytes_eq}
use tab_stride.Text.Trim.{trim}
use tab_stride.Prelude.{
  leb, ◌==◌, if◌then◌else◌, ℕ, ◌+◌, ◌-◌, ◌*◌, ◌%◌, ◌^◌, ◌<◌, ◌≡◌, Bool, true, not, ◌&&◌, ◌||◌,
  Option, none, some, [], ◌∷◌, ◌++◌, arith, ◌>>=◌, refl, ap, Bool-cases, inl, inr,
}

-- `char::is_ascii_alphabetic`
abbrev pub is_letter : ℕ → Bool
is_letter c = (leb b'A' c && leb c b'Z') || (leb b'a' c && leb c b'z')

-- The text before its first letter, and the text from there on.
unfoldable pub split_letter : Text → Text × Text
split_letter [] = ([], [])
split_letter (c ∷ s) =
    let later = split_letter s in if is_letter c then ([], c ∷ s) else (c ∷ later.0, later.1)

-- `num * factor` on `u64`, without overflow checks.
abbrev pub wrapping_mul : ℕ → ℕ → ℕ
wrapping_mul a b = a * b % 2 ^ 64

unfoldable pub in_unit : Text → ℕ → Option ℕ
unfolding bytes_eq
in_unit unit num =
    if is_empty unit || bytes_eq unit (codes "s")
    then some (num * 1000)
    else if bytes_eq unit (codes "ms")
    then some num
    else if bytes_eq unit (codes "m")
    then some (wrapping_mul num 60 * 1000)
    else if bytes_eq unit (codes "h")
    then some (wrapping_mul (wrapping_mul num 60) 60 * 1000)
    else none

unfoldable pub parse_trimmed : Text → Option ℕ
unfolding split_letter parse_u64 in_unit
parse_trimmed s =
    if is_empty s then none else do n ← parse_u64 (split_letter s).0; in_unit (split_letter s).1 n

-- `none` is the error.
unfoldable pub parse_duration : Text → Option ℕ
unfolding trim parse_trimmed
parse_duration s = parse_trimmed (trim s)

abbrev letterless : Text → Bool
letterless [] = true
letterless (c ∷ s) = not (is_letter c) && letterless s

letterless-parse_digits :
    (acc : ℕ) (s : Text) (n : ℕ) → parse_digits acc s ≡ some n → letterless s ≡ true
unfolding parse_digits
letterless-parse_digits acc [] n h = refl
letterless-parse_digits acc (c ∷ s) n h =
    ground (arith, letterless-parse_digits (acc * 10 + (c - b'0')) s n)

letterless-parse_u64 : (s : Text) (n : ℕ) → parse_u64 s ≡ some n → letterless s ≡ true
unfolding parse_u64
letterless-parse_u64 [] n h = refl
letterless-parse_u64 (c ∷ s) n h = elim (Bool-cases (c == b'+')) [
  | inl y ↦ ground (arith, letterless-parse_digits 0 s n)
  | inr k ↦ ground (arith, letterless-parse_digits 0 (c ∷ s) n)
]

-- The number ends at the first letter.
split_letter-append :
    (s : Text) (c : ℕ) (t : Text)
    → letterless s ≡ true
    → is_letter c ≡ true
    → split_letter (s ++ c ∷ t) ≡ (s, c ∷ t)
unfolding split_letter
split_letter-append [] c t h k = ground arith
split_letter-append (d ∷ s) c t h k = ground (arith, split_letter-append s c t)

-- A number and a unit that starts with a letter are read as that number in that unit.
pub parse_trimmed-written :
    (num : Text) (n c : ℕ) (t : Text)
    → parse_u64 num ≡ some n
    → is_letter c ≡ true
    → parse_trimmed (num ++ c ∷ t) ≡ in_unit (c ∷ t) n
unfolding parse_trimmed
parse_trimmed-written [] n c t h k = absurd (ground arith)
parse_trimmed-written (d ∷ s) n c t h k =
    ground (arith, split_letter-append (d ∷ s) c t (letterless-parse_u64 (d ∷ s) n h) k)

-- Minutes are sixty seconds as long as the seconds fit 64 bits.
pub in_unit-minutes : (n : ℕ) → n * 60 < 2 ^ 64 → in_unit (codes "m") n ≡ some (n * 60 * 1000)
unfolding in_unit bytes_eq
in_unit-minutes n h = ap (λ s. some (s * 1000)) (omega arith)
