-- ===== src/Text.antt =====
-- What the program uses of Rust's `str`, over the bytes of a UTF-8 text: `split('.')`,
-- `parse::<u64>`, `trim`, and equality. Bytes of ASCII characters stand for nothing else in UTF-8.
pub mod Digits
pub mod Decimal
pub mod Trim
pub mod Solid
pub mod Pairs
pub mod Suffix
use Prim.Native.Char.{code}
use tab_stride.Prelude.{
  String, ℕ, ◌+◌, ◌-◌, ◌*◌, ◌^◌, Option, none, some, List, [], ◌∷◌, Bool, true, false, ◌&&◌, ◌||◌,
  ◌≡◌, ◌↔◌, refl, arith, leb, ◌==◌, if◌then◌else◌, ◌>>=◌,
}

abbrev pub u64_max : ℕ
u64_max = 18446744073709551615

abbrev pub is_digit : ℕ → Bool
is_digit c = leb b'0' c && leb c b'9'

-- `bytes().all(|b| b.is_ascii_digit())`
unfoldable pub all_digits : List ℕ → Bool
all_digits [] = true
all_digits (c ∷ s) = is_digit c && all_digits s

abbrev pub is_empty : List ℕ → Bool
is_empty [] = true
is_empty (c ∷ s) = false

-- The loop of `u64::from_str`: each step multiplies, adds a digit, and fails on overflow.
unfoldable pub parse_digits : ℕ → List ℕ → Option ℕ
parse_digits acc [] = some acc
parse_digits acc (c ∷ s) =
    let rest = parse_digits (acc * 10 + (c - b'0')) s in
    if is_digit c && leb (acc * 10 + (c - b'0')) u64_max then rest else none

-- `str::parse::<u64>`: a leading `+` is allowed, and an empty text is an error.
unfoldable pub parse_u64 : List ℕ → Option ℕ
parse_u64 [] = none
parse_u64 (c ∷ s) =
    if c == b'+' then (if is_empty s then none else parse_digits 0 s) else parse_digits 0 (c ∷ s)

-- `split('.').next()`
unfoldable pub first_segment : List ℕ → List ℕ
first_segment [] = []
first_segment (c ∷ s) = if c == b'.' then [] else c ∷ first_segment s

-- What stands behind the first dot.
unfoldable pub after_dot : List ℕ → Option (List ℕ)
after_dot [] = none
after_dot (c ∷ s) = if c == b'.' then some s else after_dot s

-- `split('.').nth(1)`
unfoldable pub second_segment : List ℕ → Option (List ℕ)
unfolding first_segment after_dot
second_segment s = do rest ← after_dot s; some (first_segment rest)

-- Equality of texts.
unfoldable pub bytes_eq : List ℕ → List ℕ → Bool
bytes_eq [] [] = true
bytes_eq (c ∷ s) (d ∷ t) = c == d && bytes_eq s t
bytes_eq _ _ = false

pub bytes_eq_iff : (s t : List ℕ) → (bytes_eq s t ≡ true) ↔ (s ≡ t)
unfolding bytes_eq
bytes_eq_iff [] [] = ground arith
bytes_eq_iff [] (d ∷ t) = ground arith
bytes_eq_iff (c ∷ s) [] = ground arith
bytes_eq_iff (c ∷ s) (d ∷ t) = ground (arith, bytes_eq_iff s t)

pub bytes_eq_comm : (s t : List ℕ) → bytes_eq s t ≡ bytes_eq t s
unfolding bytes_eq
bytes_eq_comm [] [] = refl
bytes_eq_comm [] (d ∷ t) = refl
bytes_eq_comm (c ∷ s) [] = refl
bytes_eq_comm (c ∷ s) (d ∷ t) = ground (arith, bytes_eq_comm s t)

-- The scalar values of a literal.
abbrev pub codes : String → List ℕ
codes String.[] = []
codes (String.◌∷◌ c s) = code c ∷ codes s
