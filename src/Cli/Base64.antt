-- ===== src/Cli/Base64.antt =====
-- `decode_base64` of crates/tabstride-cli/src/cli/screenshot.rs, with an encoder to compare it to.
use mathlib.Core.List.{append_assoc}
use tab_stride.Prelude.{
  ℕ, ltb, leb, ◌==◌, if◌then◌else◌, ◌+◌, ◌-◌, ◌*◌, ◌/◌, ◌%◌, ◌^◌, ◌<◌, ◌≡◌, Bool, true, ◌&&◌, ◌||◌,
  Option, none, some, List, [], ◌∷◌, ◌++◌, arith, ◌≤◌, ◌∙◌, append_nil, sym, ap,
}

-- The value of a character of the alphabet.
abbrev pub sextet : ℕ → Option ℕ
sextet b =
    if leb b'A' b && leb b b'Z'
    then some (b - b'A')
    else if leb b'a' b && leb b b'z'
    then some (b - b'a' + 26)
    else if leb b'0' b && leb b b'9'
    then some (b - b'0' + 52)
    else if b == b'+'
    then some 62
    else if b == b'/'
    then some 63
    else none

-- `=`, newline, carriage return, space and tab are passed over.
abbrev pub is_skipped : ℕ → Bool
is_skipped b = b == b'=' || b == 10 || b == 13 || b == 32 || b == 9

-- `(bits << 6) | v` on `u32`, which drops what is shifted out.
abbrev pub shift_in : ℕ → ℕ → ℕ
shift_in bits v = bits * 64 % 2 ^ 32 + v

-- The loop over the bytes, with `bits`, `nbits` and `out`. `none` is the error.
unfoldable pub decode_from : ℕ → ℕ → List ℕ → List ℕ → Option (List ℕ)
decode_from bits nbits out [] = some out
decode_from bits nbits out (b ∷ input) = elim (sextet b) [
  | none ↦ let rest = decode_from bits nbits out input in if is_skipped b then rest else none
  | some v ↦
      let bits' = shift_in bits v in
      let full =
        decode_from bits' (nbits + 6 - 8) (out ++ bits' / 2 ^ (nbits + 6 - 8) % 256 ∷ []) input in
      let more = decode_from bits' (nbits + 6) out input in if leb 8 (nbits + 6) then full else more
]

unfoldable pub decode_base64 : List ℕ → Option (List ℕ)
unfolding decode_from
decode_base64 input = decode_from 0 0 [] input

-- The character of the alphabet that has a value below 64.
abbrev pub symbol : ℕ → ℕ
symbol v =
    if ltb v 26
    then v + b'A'
    else if ltb v 52
    then v - 26 + b'a'
    else if ltb v 62
    then v - 52 + b'0'
    else if v == 62
    then b'+'
    else b'/'

-- Base64 of a list of bytes, padded to groups of four characters.
unfoldable pub encode_base64 : List ℕ → List ℕ
encode_base64 [] = []
encode_base64 (a ∷ []) = symbol (a / 4) ∷ symbol (a % 4 * 16) ∷ b'=' ∷ b'=' ∷ []
encode_base64 (a ∷ b ∷ []) =
    symbol (a / 4) ∷ symbol (a % 4 * 16 + b / 16) ∷ symbol (b % 16 * 4) ∷ b'=' ∷ []
encode_base64 (a ∷ b ∷ c ∷ bs) =
    symbol (a / 4)
    ∷ symbol (a % 4 * 16 + b / 16)
    ∷ symbol (b % 16 * 4 + c / 64)
    ∷ symbol (c % 64)
    ∷ encode_base64 bs

abbrev pub all_bytes : List ℕ → Bool
all_bytes [] = true
all_bytes (b ∷ bs) = ltb b 256 && all_bytes bs

sextet-symbol : (v : ℕ) → v < 64 → sextet (symbol v) ≡ some v
sextet-symbol v h = ground arith

module _ (bits nbits : ℕ) (out input : List ℕ) (s v : ℕ) (e : sextet s ≡ some v) where
  decode_from-keep :
      nbits + 6 < 8
      → decode_from bits nbits out (s ∷ input) ≡ decode_from (shift_in bits v) (nbits + 6) out input
  unfolding decode_from
  decode_from-keep k = rw (e, decode_from) (ground arith)

  decode_from-full :
      8 ≤ nbits + 6
      → decode_from bits nbits out (s ∷ input)
        ≡ decode_from
            (shift_in bits v)
            (nbits + 6 - 8)
            (out ++ shift_in bits v / 2 ^ (nbits + 6 - 8) % 256 ∷ [])
            input
  unfolding decode_from
  decode_from-full k = rw (e, decode_from) (ground arith)

module _ (bits a b c : ℕ) where
  first_byte :
      a < 256 → b < 256 → shift_in (shift_in bits (a / 4)) (a % 4 * 16 + b / 16) / 16 % 256 ≡ a
  first_byte h k = omega arith

  second_byte :
      b < 256
      → c < 256
      → shift_in (shift_in bits (a % 4 * 16 + b / 16)) (b % 16 * 4 + c / 64) / 4 % 256 ≡ b
  second_byte h k = omega arith

  third_byte : c < 256 → shift_in (shift_in bits (b % 16 * 4 + c / 64)) (c % 64) / 1 % 256 ≡ c
  third_byte h = omega arith

-- The accumulator behind the first two symbols of a group.
abbrev bits2 : ℕ → ℕ → ℕ → ℕ
bits2 bits a low = shift_in (shift_in bits (a / 4)) (a % 4 * 16 + low)

decode_from-one :
    (bits : ℕ) (out rest : List ℕ) (a low : ℕ)
    → a < 256
    → low < 16
    → decode_from bits 0 out (symbol (a / 4) ∷ symbol (a % 4 * 16 + low) ∷ rest)
      ≡ decode_from (bits2 bits a low) 4 (out ++ bits2 bits a low / 16 % 256 ∷ []) rest
decode_from-one bits out rest a low h k =
    decode_from-keep bits 0 out (symbol (a % 4 * 16 + low) ∷ rest) (symbol (a / 4)) (a / 4)
      (sextet-symbol (a / 4) (omega arith)) (omega arith)
    ∙ decode_from-full (shift_in bits (a / 4)) 6 out rest (symbol (a % 4 * 16 + low))
        (a % 4 * 16 + low) (sextet-symbol (a % 4 * 16 + low) (omega arith)) (omega arith)

two_behind :
    (out : List ℕ) (a b x y : ℕ) → x ≡ a → y ≡ b → out ++ x ∷ [] ++ y ∷ [] ≡ out ++ a ∷ b ∷ []
two_behind out a b x y p q = ground (arith, append_assoc out (x ∷ []) (y ∷ []))

three_behind :
    (out bs : List ℕ) (a b c x y z : ℕ)
    → x ≡ a
    → y ≡ b
    → z ≡ c
    → out ++ x ∷ [] ++ y ∷ [] ++ z ∷ [] ++ bs ≡ out ++ a ∷ b ∷ c ∷ bs
three_behind out bs a b c x y z p q r = ground (
  arith,
  append_assoc (out ++ x ∷ [] ++ y ∷ []) (z ∷ []) bs,
  append_assoc (out ++ x ∷ []) (y ∷ []) (z ∷ bs),
  append_assoc out (x ∷ []) (y ∷ z ∷ bs),
)

-- Decoding what was encoded gives the bytes back behind those that were there.
decode_from-encode :
    (bits : ℕ) (out bs : List ℕ)
    → all_bytes bs ≡ true
    → decode_from bits 0 out (encode_base64 bs) ≡ some (out ++ bs)
unfolding encode_base64 decode_from
decode_from-encode bits out [] h = ap some (sym (append_nil out))
decode_from-encode bits out (a ∷ []) h =
    let ha : a < 256 = ground arith in
    let low : a % 4 * 16 ≡ a % 4 * 16 + 0 = omega arith in
    let byte : bits2 bits a 0 / 16 % 256 ≡ a = omega arith in
    ap (λ w. decode_from bits 0 out (symbol (a / 4) ∷ symbol w ∷ b'=' ∷ b'=' ∷ [])) low
    ∙ decode_from-one bits out (b'=' ∷ b'=' ∷ []) a 0 ha (omega arith)
    ∙ ap (λ x. some (out ++ x ∷ [])) byte
decode_from-encode bits out (a ∷ b ∷ []) h =
    let ha : a < 256 = ground arith in
    let hb : b < 256 = ground arith in
    let w = b % 16 * 4 in
    let d2 = bits2 bits a (b / 16) in
    let x = d2 / 16 % 256 in
    let d3 = shift_in d2 w in
    decode_from-one bits out (symbol w ∷ b'=' ∷ []) a (b / 16) ha (omega arith)
    ∙ decode_from-full d2 4 (out ++ x ∷ []) (b'=' ∷ []) (symbol w) w (sextet-symbol w (omega arith))
        (omega arith)
    ∙ ap some (two_behind out a b x (d3 / 4 % 256) (first_byte bits a b 0 ha hb) (omega arith))
decode_from-encode bits out (a ∷ b ∷ c ∷ bs) h =
    let ha : a < 256 = ground arith in
    let hb : b < 256 = ground arith in
    let hc : c < 256 = ground arith in
    let w = b % 16 * 4 + c / 64 in
    let d2 = bits2 bits a (b / 16) in
    let x = d2 / 16 % 256 in
    let d3 = shift_in d2 w in
    let y = d3 / 4 % 256 in
    let d4 = shift_in d3 (c % 64) in
    let z = d4 / 1 % 256 in
    decode_from-one bits out (symbol w ∷ symbol (c % 64) ∷ encode_base64 bs) a (b / 16) ha
      (omega arith)
    ∙ decode_from-full d2 4 (out ++ x ∷ []) (symbol (c % 64) ∷ encode_base64 bs) (symbol w) w
        (sextet-symbol w (omega arith)) (omega arith)
    ∙ decode_from-full d3 2 (out ++ x ∷ [] ++ y ∷ []) (encode_base64 bs) (symbol (c % 64)) (c % 64)
        (sextet-symbol (c % 64) (omega arith)) (omega arith)
    ∙ decode_from-encode d4 (out ++ x ∷ [] ++ y ∷ [] ++ z ∷ []) bs (ground arith)
    ∙ ap some (
        three_behind out bs a b c x y z (first_byte bits a b c ha hb)
          (second_byte (shift_in bits (a / 4)) a b c hb hc) (third_byte d2 a b c hc))

-- Every list of bytes is what its Base64 text decodes to.
pub decode_base64-encode :
    (bs : List ℕ) → all_bytes bs ≡ true → decode_base64 (encode_base64 bs) ≡ some bs
unfolding decode_base64
decode_base64-encode bs h = decode_from-encode 0 [] bs h
