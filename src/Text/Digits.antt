-- ===== src/Text/Digits.antt =====
-- The overflow check of `u64::from_str` against the number that a run of digits denotes.
use tab_stride.Prelude.{
  ℕ, ◌+◌, ◌-◌, ◌*◌, ◌≤◌, none, some, List, [], ◌∷◌, ◌≡◌, arith, true, leb, if◌then◌else◌,
}
use tab_stride.Text.{u64_max, all_digits, parse_digits, parse_u64}

-- The number that the digits denote behind `acc`, with no bound.
unfoldable pub value_from : ℕ → List ℕ → ℕ
value_from acc [] = acc
value_from acc (c ∷ s) = value_from (acc * 10 + (c - b'0')) s

pub le-value_from : (acc : ℕ) (s : List ℕ) → acc ≤ value_from acc s
unfolding value_from
le-value_from acc [] = omega arith
le-value_from acc (c ∷ s) = omega (arith, le-value_from (acc * 10 + (c - b'0')) s)

-- On digits the checked parse returns the number that they denote, if that fits, and fails if not.
pub parse_digits-value :
    (acc : ℕ) (s : List ℕ)
    → acc ≤ u64_max
    → all_digits s ≡ true
    → parse_digits acc s
      ≡ (if leb (value_from acc s) u64_max then some (value_from acc s) else none)
unfolding parse_digits value_from all_digits
parse_digits-value acc [] h d = ground arith
parse_digits-value acc (c ∷ s) h d =
    ground
      (arith, parse_digits-value (acc * 10 + (c - b'0')) s, le-value_from (acc * 10 + (c - b'0')) s)

pub parse_u64-value :
    (c : ℕ) (s : List ℕ)
    → all_digits (c ∷ s) ≡ true
    → parse_u64 (c ∷ s)
      ≡ (if leb (value_from 0 (c ∷ s)) u64_max then some (value_from 0 (c ∷ s)) else none)
unfolding parse_u64 all_digits
parse_u64-value c s d = ground (arith, parse_digits-value 0 (c ∷ s))
