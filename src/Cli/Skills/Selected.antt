-- ===== src/Cli/Skills/Selected.antt =====
-- Which harnesses a selection of the picker installs to.
use tab_stride.Cli.Percentile.{sort, insert_sorted}
use tab_stride.Cli.Skills.{HarnessReport, dedup, selected_ids, in_order, harness_ids_from_indices}
use tab_stride.Prelude.{
  ℕ, ◌==◌, ltb, leb, Bool, true, false, ◌&&◌, ◌||◌, some, List, [], ◌∷◌, ◌≡◌, refl, arith,
  Bool-cases, ◌∙◌, ap, inl, inr, ◌>>=◌,
}

abbrev pub has : ℕ → List ℕ → Bool
has k [] = false
has k (x ∷ xs) = k == x || has k xs

-- Each number is below the next.
abbrev pub ascends : List ℕ → Bool
ascends [] = true
ascends (a ∷ []) = true
ascends (a ∷ b ∷ rest) = ltb a b && ascends (b ∷ rest)

-- Each number is at most the next.
abbrev pub climbs : List ℕ → Bool
climbs [] = true
climbs (a ∷ []) = true
climbs (a ∷ b ∷ rest) = leb a b && climbs (b ∷ rest)

climbs-insert_sorted_from :
    (a x : ℕ) (xs : List ℕ)
    → leb x a ≡ true
    → climbs (x ∷ xs) ≡ true
    → climbs (x ∷ insert_sorted a xs) ≡ true
unfolding insert_sorted
climbs-insert_sorted_from a x [] h c = ground arith
climbs-insert_sorted_from a x (y ∷ ys) h c = elim (Bool-cases (leb a y)) [
  | inl t ↦ rw t (ground arith)
  | inr n ↦ rw n (ground (arith, climbs-insert_sorted_from a y ys))
]

climbs-insert_sorted : (a : ℕ) (xs : List ℕ) → climbs xs ≡ true → climbs (insert_sorted a xs) ≡ true
unfolding insert_sorted
climbs-insert_sorted a [] c = refl
climbs-insert_sorted a (x ∷ xs) c = elim (Bool-cases (leb a x)) [
  | inl t ↦ rw t (ground arith)
  | inr n ↦ rw n (climbs-insert_sorted_from a x xs (ground arith) c)
]

climbs-sort : (xs : List ℕ) → climbs (sort xs) ≡ true
unfolding sort
climbs-sort [] = refl
climbs-sort (x ∷ xs) = climbs-insert_sorted x (sort xs) (climbs-sort xs)

above-dedup :
    (c a : ℕ) (xs : List ℕ)
    → ltb c a ≡ true
    → climbs (a ∷ xs) ≡ true
    → ascends (c ∷ dedup (a ∷ xs)) ≡ true
unfolding dedup
above-dedup c a [] h k = ground arith
above-dedup c a (b ∷ rest) h k = elim (Bool-cases (a == b)) [
  | inl t ↦ rw t (above-dedup c b rest (ground arith) (ground arith))
  | inr n ↦ rw n (ground (arith, above-dedup a b rest))
]

ascends-dedup : (xs : List ℕ) → climbs xs ≡ true → ascends (dedup xs) ≡ true
unfolding dedup
ascends-dedup [] k = refl
ascends-dedup (a ∷ []) k = refl
ascends-dedup (a ∷ b ∷ rest) k = elim (Bool-cases (a == b)) [
  | inl t ↦ rw t (ascends-dedup (b ∷ rest) (ground arith))
  | inr n ↦ rw n (above-dedup a b rest (ground arith) (ground arith))
]

swap_or : (p q r : Bool) → (q || (p || r)) ≡ (p || (q || r))
swap_or true true r = refl
swap_or true false r = refl
swap_or false q r = refl

has-insert_sorted : (k a : ℕ) (xs : List ℕ) → has k (insert_sorted a xs) ≡ (k == a || has k xs)
unfolding insert_sorted
has-insert_sorted k a [] = refl
has-insert_sorted k a (x ∷ xs) = elim (Bool-cases (leb a x)) [
  | inl t ↦ rw t refl
  | inr n ↦
      rw n (ap (λ c. k == x || c) (has-insert_sorted k a xs) ∙ swap_or (k == a) (k == x) (has k xs))
]

has-sort : (k : ℕ) (xs : List ℕ) → has k (sort xs) ≡ has k xs
unfolding sort
has-sort k [] = refl
has-sort k (x ∷ xs) = has-insert_sorted k x (sort xs) ∙ ap (λ b. k == x || b) (has-sort k xs)

has-dedup : (k : ℕ) (xs : List ℕ) → has k (dedup xs) ≡ has k xs
unfolding dedup
has-dedup k [] = refl
has-dedup k (a ∷ []) = refl
has-dedup k (a ∷ b ∷ rest) = elim (Bool-cases (a == b)) [
  | inl t ↦ rw t (ground (arith, has-dedup k (b ∷ rest)))
  | inr n ↦ rw n (ap (λ c. k == a || c) (has-dedup k (b ∷ rest)))
]

-- The ids of a selection are in order and without repetition, and are the selected ones.
pub harness_ids_from_indices-lem :
    (reports : List HarnessReport) (i : ℕ) (is ids : List ℕ)
    → selected_ids reports (i ∷ is) ≡ some ids
    → (harness_ids_from_indices reports (i ∷ is) ≡ some (dedup (sort ids)))
      × (ascends (dedup (sort ids)) ≡ true)
      × ((k : ℕ) → has k (dedup (sort ids)) ≡ has k ids)
unfolding harness_ids_from_indices
harness_ids_from_indices-lem reports i is ids e = (
  ap (λ o. o >>= in_order) e,
  ascends-dedup (sort ids) (climbs-sort ids),
  λ k. has-dedup k (sort ids) ∙ has-sort k ids,
)
