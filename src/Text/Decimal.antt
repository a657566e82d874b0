-- ===== src/Text/Decimal.antt =====
-- `u64::to_string`, and that `parse` reads it back.
use tab_stride.Text.{all_digits, parse_u64, u64_max, is_empty}
use tab_stride.Text.Digits.{value_from, parse_u64-value}
use tab_stride.Prelude.{
  ℕ, zero, suc, ltb, leb, ◌+◌, ◌-◌, ◌*◌, ◌/◌, ◌%◌, ◌<◌, ◌≤◌, if◌then◌else◌, true, false, List, [],
  ◌∷◌, ◌++◌, ◌≡◌, some, refl, arith, Bool-cases, inl, inr, ◌∙◌, none,
}

-- The fuel is more than the number.
unfoldable pub decimal_from : ℕ → ℕ → List ℕ
decimal_from zero n = []
decimal_from (suc f) n =
    let front = decimal_from f (n / 10) in
    if ltb n 10 then (n + b'0') ∷ [] else front ++ (n % 10 + b'0') ∷ []

unfoldable pub decimal : ℕ → List ℕ
unfolding decimal_from
decimal n = decimal_from (suc n) n

value_from-append :
    (acc : ℕ) (s : List ℕ) (c : ℕ)
    → value_from acc (s ++ c ∷ []) ≡ value_from acc s * 10 + (c - b'0')
unfolding value_from
value_from-append acc [] c = refl
value_from-append acc (d ∷ s) c = value_from-append (acc * 10 + (d - b'0')) s c

all_digits-append :
    (s t : List ℕ) → all_digits s ≡ true → all_digits t ≡ true → all_digits (s ++ t) ≡ true
unfolding all_digits
all_digits-append [] t h k = k
all_digits-append (c ∷ s) t h k = ground (arith, all_digits-append s t)

value_from-decimal : (f n : ℕ) → n < f → value_from 0 (decimal_from f n) ≡ n
unfolding decimal_from value_from
value_from-decimal zero n h = absurd (omega arith)
value_from-decimal (suc f) n h = elim (Bool-cases (ltb n 10)) [
  | inl y ↦ rw y (omega arith)
  | inr k ↦ rw k (
      value_from-append 0 (decimal_from f (n / 10)) (n % 10 + b'0')
      ∙ omega (arith, value_from-decimal f (n / 10) (ground arith)))
]

decimal-all_digits : (f n : ℕ) → all_digits (decimal_from f n) ≡ true
unfolding decimal_from all_digits
decimal-all_digits zero n = refl
decimal-all_digits (suc f) n = elim (Bool-cases (ltb n 10)) [
  | inl y ↦ rw y (ground arith)
  | inr k ↦ rw k (
      all_digits-append (decimal_from f (n / 10)) ((n % 10 + b'0') ∷ [])
        (decimal-all_digits f (n / 10)) (ground arith))
]

is_empty-append : (s : List ℕ) (c : ℕ) → is_empty (s ++ c ∷ []) ≡ false
is_empty-append [] c = refl
is_empty-append (d ∷ s) c = refl

pub is_empty-decimal : (n : ℕ) → is_empty (decimal n) ≡ false
unfolding decimal
is_empty-decimal n = ground (arith, is_empty-append (decimal_from n (n / 10)) (n % 10 + b'0'))

parse_u64-nonempty :
    (s : List ℕ)
    → is_empty s ≡ false
    → all_digits s ≡ true
    → parse_u64 s ≡ (if leb (value_from 0 s) u64_max then some (value_from 0 s) else none)
parse_u64-nonempty [] e h = absurd (cc)
parse_u64-nonempty (c ∷ s) e h = parse_u64-value c s h

-- A number that fits is read back from its decimal text.
pub parse_u64-decimal : (n : ℕ) → n ≤ u64_max → parse_u64 (decimal n) ≡ some n
unfolding decimal
parse_u64-decimal n h = ground (
  arith,
  parse_u64-nonempty (decimal n) (is_empty-decimal n) (decimal-all_digits (suc n) n),
  value_from-decimal (suc n) n,
)
