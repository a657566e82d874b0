-- ===== src/Cli/Percentile.antt =====
-- `percentile` and `phase_percentile` of crates/tabstride-cli/src/cli/metrics.rs.
use tab_stride.Prelude.{
  ℕ, ltb, leb, if◌then◌else◌, length, get_elem?, ◌+◌, ◌-◌, ◌*◌, ◌/◌, Bool, true, false, ◌&&◌,
  Option, none, some, List, [], ◌∷◌,
}

unfoldable pub insert_sorted : ℕ → List ℕ → List ℕ
insert_sorted a [] = a ∷ []
insert_sorted a (x ∷ xs) = if leb a x then a ∷ x ∷ xs else x ∷ insert_sorted a xs

-- `sort_unstable`: on numbers every sort has the same result.
unfoldable pub sort : List ℕ → List ℕ
unfolding insert_sorted
sort [] = []
sort (x ∷ xs) = insert_sorted x (sort xs)

-- `((sorted.len() - 1) * percentile).div_ceil(100)`
abbrev pub rank_index : ℕ → ℕ → ℕ
rank_index len p = ((len - 1) * p + 99) / 100

-- `none` is a panic.
unfoldable pub percentile : List ℕ → ℕ → Option ℕ
unfolding sort
percentile values p = get_elem? (sort values) (rank_index (length values) p)

-- `filter_map(value)`
unfoldable pub known : List (Option ℕ) → List ℕ
known [] = []
known (none ∷ os) = known os
known (some n ∷ os) = n ∷ known os

abbrev has_nothing : List ℕ → Bool
has_nothing [] = true
has_nothing (x ∷ xs) = false

unfoldable pub phase_percentile : List (Option ℕ) → Option ℕ
unfolding known percentile
phase_percentile records =
    if has_nothing (known records) then none else percentile (known records) 95

-- How many values are at most `v`, and below `v`.
abbrev pub count_le : ℕ → List ℕ → ℕ
count_le v [] = 0
count_le v (x ∷ xs) = (if leb x v then 1 else 0) + count_le v xs

abbrev pub count_lt : ℕ → List ℕ → ℕ
count_lt v [] = 0
count_lt v (x ∷ xs) = (if ltb x v then 1 else 0) + count_lt v xs

abbrev bounds_all : ℕ → List ℕ → Bool
bounds_all a [] = true
bounds_all a (x ∷ xs) = leb a x && bounds_all a xs

abbrev is_sorted : List ℕ → Bool
is_sorted [] = true
is_sorted (x ∷ xs) = bounds_all x xs && is_sorted xs
