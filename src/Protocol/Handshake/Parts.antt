-- ===== src/Protocol/Handshake/Parts.antt =====
-- What the parsers of the version fields accept, and the order on parsed versions.
use Prim.Native.Nat.{Ordering, lt, eq, gt}
use tab_stride.Prelude.{
  ℕ, Option, none, some, List, [], ◌∷◌, ◌&&◌, not, ◌≡◌, refl, arith, leb, if◌then◌else◌, Bool-cases,
  inl, inr,
}
use tab_stride.Text.{all_digits, is_empty, first_segment}
use tab_stride.Text.Digits.{value_from, parse_u64-value}
use tab_stride.Protocol.Handshake.{max_protocol_major, parse_field, parse_major, compare_protocol}

-- A field is accepted exactly if it is a non-empty run of digits whose value is at most
-- 2 ^ 53 - 1, and then its value is returned: overflow of `u64` rejects nothing else.
pub parse_field-value :
    (seg : List ℕ)
    → parse_field seg ≡ (
        if not (is_empty seg) && all_digits seg && leb (value_from 0 seg) max_protocol_major
        then some (value_from 0 seg)
        else none)
unfolding parse_field
parse_field-value [] = refl
parse_field-value (c ∷ s) = elim (Bool-cases (all_digits (c ∷ s))) [
  | inl d ↦ ground (arith, parse_u64-value c s d)
  | inr d ↦ rw (d, parse_field) refl
]

-- The major version is the value of the digits before the first dot; anything but 1 or more
-- digits there, or a value above 2 ^ 53 - 1, is refused.
pub parse_major-value :
    (s : List ℕ)
    → let head = first_segment s in
      parse_major s ≡ (
        if not (is_empty head) && all_digits head && leb (value_from 0 head) max_protocol_major
        then some (value_from 0 head)
        else none)
unfolding parse_major
parse_major-value s = parse_field-value (first_segment s)

abbrev pub reverse_order : Ordering → Ordering
reverse_order lt = gt
reverse_order eq = eq
reverse_order gt = lt

abbrev pub map_order : (Ordering → Ordering) → Option Ordering → Option Ordering
map_order f none = none
map_order f (some o) = some (f o)

-- Comparing two versions the other way round reverses the outcome, and fails for the same pairs.
pub compare_protocol_swap :
    (a b : List ℕ) → compare_protocol b a ≡ map_order reverse_order (compare_protocol a b)
unfolding compare_protocol
compare_protocol_swap a b = ground arith
