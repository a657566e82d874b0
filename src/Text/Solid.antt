-- ===== src/Text/Solid.antt =====
-- Texts without white space, which trimming leaves alone.
use tab_stride.Text.{parse_u64, parse_digits}
use tab_stride.Text.Trim.{is_whitespace, trim, trim_start, trim_end}
use tab_stride.Prelude.{
  ℕ, leb, ◌==◌, ◌+◌, ◌-◌, ◌*◌, Bool, true, false, not, ◌&&◌, List, [], ◌∷◌, ◌++◌, ◌≡◌, some, refl,
  arith, Bool-cases, inl, inr, ◌∙◌, ap,
}

-- No character is white space.
abbrev pub solid : List ℕ → Bool
solid [] = true
solid (c ∷ s) = not (is_whitespace c) && solid s

trim_start-solid : (s : List ℕ) → solid s ≡ true → trim_start s ≡ s
unfolding trim_start
trim_start-solid [] h = refl
trim_start-solid (c ∷ s) h = ground arith

trim_end-solid : (s : List ℕ) → solid s ≡ true → trim_end s ≡ s
unfolding trim_end
trim_end-solid [] h = refl
trim_end-solid (c ∷ s) h = ground (arith, trim_end-solid s)

pub trim-solid : (s : List ℕ) → solid s ≡ true → trim s ≡ s
unfolding trim
trim-solid s h = ap trim_end (trim_start-solid s h) ∙ trim_end-solid s h

digit_solid : (c : ℕ) → leb b'0' c ≡ true → leb c b'9' ≡ true → is_whitespace c ≡ false
unfolding is_whitespace
digit_solid c h k = ground arith

solid-parse_digits : (acc : ℕ) (s : List ℕ) (n : ℕ) → parse_digits acc s ≡ some n → solid s ≡ true
unfolding parse_digits
solid-parse_digits acc [] n h = refl
solid-parse_digits acc (c ∷ s) n h =
    ground (arith, solid-parse_digits (acc * 10 + (c - b'0')) s n, digit_solid c)

pub solid-parse_u64 : (s : List ℕ) (n : ℕ) → parse_u64 s ≡ some n → solid s ≡ true
unfolding parse_u64 is_whitespace
solid-parse_u64 [] n h = refl
solid-parse_u64 (c ∷ s) n h = elim (Bool-cases (c == b'+')) [
  | inl y ↦ ground (arith, solid-parse_digits 0 s n)
  | inr k ↦ ground (arith, solid-parse_digits 0 (c ∷ s) n)
]

pub solid-append : (s t : List ℕ) → solid s ≡ true → solid t ≡ true → solid (s ++ t) ≡ true
solid-append [] t h k = k
solid-append (c ∷ s) t h k = ground (arith, solid-append s t)
