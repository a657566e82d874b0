-- ===== src/Daemon/Flow/Rendered.antt =====
-- Templates in their parts, as they are written and as they are meant.
use mathlib.Core.List.{append_assoc}
use tab_stride.Protocol.Locator.{Text}
use tab_stride.Text.Pairs.{is_clean, split_pair-clean, split_pair-none}
use tab_stride.Daemon.Flow.Template.{
  variable, Expansion, expanded, missing, unterminated, out_of_fuel, expand_on, expand_string,
}
use tab_stride.Prelude.{
  Option-cases, length, ℕ, zero, suc, ◌<◌, ◌≡◌, refl, ap, inl, inr, Bool, true, ◌&&◌, none, some,
  List, [], ◌∷◌, ◌++◌, arith, length-append, ◌≤◌, ◌∙◌,
}
use tab_stride.Text.Trim.{trim}

-- A text in front of each variable, and one at the end.
abbrev pub rendered : List (Text × Text) → Text → Text
rendered [] tail = tail
rendered ((t, key) ∷ ps) tail = t ++ b'{' ∷ b'{' ∷ (key ++ b'}' ∷ b'}' ∷ rendered ps tail)

-- No text opens a variable, and no name closes one.
abbrev pub is_readable : List (Text × Text) → Text → Bool
is_readable [] tail = is_clean b'{' tail
is_readable ((t, key) ∷ ps) tail = is_clean b'{' t && is_clean b'}' key && is_readable ps tail

abbrev pub behind : Text → Expansion → Expansion
behind t (expanded u) = expanded (t ++ u)
behind t r = r

-- Each variable stands for its value, and the first that has none is missed.
abbrev pub meaning : List (Text × Text) → List (Text × Text) → Text → Expansion
meaning vars [] tail = expanded tail
meaning vars ((t, key) ∷ ps) tail = elim (variable (trim key) vars) [
  | none ↦ missing (trim key)
  | some v ↦ behind (t ++ v) (meaning vars ps tail)
]

behind-append : (s t : Text) (r : Expansion) → behind (s ++ t) r ≡ behind s (behind t r)
behind-append s t (expanded u) = ap expanded (append_assoc s t u)
behind-append s t (missing u) = refl
behind-append s t unterminated = refl
behind-append s t out_of_fuel = refl

expand_on-rendered :
    (n : ℕ) (vars : List (Text × Text)) (output : Text) (ps : List (Text × Text)) (tail : Text)
    → is_readable ps tail ≡ true
    → length ps < n
    → expand_on n vars output (rendered ps tail) ≡ behind output (meaning vars ps tail)
unfolding expand_on
expand_on-rendered zero vars output ps tail h k = absurd (omega (arith, k))
expand_on-rendered (suc n) vars output [] tail h k = ground (arith, split_pair-none b'{' tail h)
expand_on-rendered (suc n) vars output ((t, key) ∷ ps) tail h k =
    let later = rendered ps tail in
    let opens = split_pair-clean b'{' t (key ++ b'}' ∷ b'}' ∷ later) (ground arith) in
    let closes = split_pair-clean b'}' key later (ground arith) in
    elim (Option-cases (variable (trim key) vars)) [
      | inl e ↦ ground (arith, opens, closes)
      | inr (v, e) ↦ ground (
        arith,
        opens,
        closes,
        append_assoc output t v,
        behind-append output (t ++ v) (meaning vars ps tail),
        expand_on-rendered n vars (output ++ t ++ v) ps tail (ground arith) (omega (arith, k)),
      )
    ]

length-rendered : (ps : List (Text × Text)) (tail : Text) → length ps ≤ length (rendered ps tail)
length-rendered [] tail = omega arith
length-rendered ((t, key) ∷ ps) tail = omega (
  arith,
  length-append t (b'{' ∷ b'{' ∷ (key ++ b'}' ∷ b'}' ∷ rendered ps tail)),
  length-append key (b'}' ∷ b'}' ∷ rendered ps tail),
  length-rendered ps tail,
)

behind-empty : (r : Expansion) → behind [] r ≡ r
behind-empty (expanded u) = refl
behind-empty (missing u) = refl
behind-empty unterminated = refl
behind-empty out_of_fuel = refl

-- A template whose texts do not open a variable and whose names do not close one expands to its
-- texts and the values of its names, or misses the first name that has no value.
pub expand_string-rendered :
    (ps : List (Text × Text)) (tail : Text) (vars : List (Text × Text))
    → is_readable ps tail ≡ true
    → expand_string (rendered ps tail) vars ≡ meaning vars ps tail
unfolding expand_string
expand_string-rendered ps tail vars h =
    expand_on-rendered (suc (length (rendered ps tail))) vars [] ps tail h
      (omega (arith, length-rendered ps tail))
    ∙ behind-empty (meaning vars ps tail)
