-- ===== src/Text/Pairs.antt =====
-- `find` of a doubled character, with what stands before and behind it.
use tab_stride.Prelude.{
  ℕ, ◌==◌, if◌then◌else◌, length, ◌+◌, ◌≤◌, ◌≡◌, Bool, true, not, ◌&&◌, Option, none, some, List,
  [], ◌∷◌, ◌++◌, arith, ◌>>=◌, Bool-cases, Option-cases, inl, inr, refl,
}

unfoldable pub split_pair : ℕ → List ℕ → Option (List ℕ × List ℕ)
split_pair q [] = none
split_pair q (c ∷ []) = none
split_pair q (c ∷ d ∷ s) =
    let later = split_pair q (d ∷ s) in
    if c == q && d == q then some ([], s) else do p ← later; some (c ∷ p.0, p.1)

-- The text neither holds the pair nor ends in half of it.
abbrev pub is_clean : ℕ → List ℕ → Bool
is_clean q [] = true
is_clean q (c ∷ []) = not (c == q)
is_clean q (c ∷ d ∷ s) = not (c == q && d == q) && is_clean q (d ∷ s)

pub length-split_pair :
    (q : ℕ) (s : List ℕ) (p : List ℕ × List ℕ) → split_pair q s ≡ some p → length p.1 + 2 ≤ length s
unfolding split_pair
length-split_pair q [] p h = absurd (cc)
length-split_pair q (c ∷ []) p h = absurd (cc)
length-split_pair q (c ∷ d ∷ s) p h = elim (Bool-cases (c == q && d == q)) [
  | inl y ↦ ground arith
  | inr n ↦ elim (Option-cases (split_pair q (d ∷ s))) [
    | inl e ↦ absurd (ground arith)
    | inr (r, e) ↦ ground (arith, length-split_pair q (d ∷ s) r e)
  ]
]

pub split_pair-clean :
    (q : ℕ) (t s : List ℕ) → is_clean q t ≡ true → split_pair q (t ++ q ∷ q ∷ s) ≡ some (t, s)
unfolding split_pair
split_pair-clean q [] s h = ground arith
split_pair-clean q (c ∷ []) s h = ground (arith, split_pair-clean q [] s)
split_pair-clean q (c ∷ d ∷ t) s h = ground (arith, split_pair-clean q (d ∷ t) s)

pub split_pair-none : (q : ℕ) (s : List ℕ) → is_clean q s ≡ true → split_pair q s ≡ none
unfolding split_pair
split_pair-none q [] h = refl
split_pair-none q (c ∷ []) h = refl
split_pair-none q (c ∷ d ∷ s) h = ground (arith, split_pair-none q (d ∷ s))
