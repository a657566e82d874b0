-- ===== src/Map/Laws.antt =====
-- The laws of the map that the components use in place of its clauses.
use tab_stride.Prelude.{
  true, String, none, some, [], ◌∷◌, ◌≡◌, refl, str_eq, if◌then◌else◌, arith, eq_iff,
}
use tab_stride.Map.{Map, lookup, insert, remove, Distinct}

-- A key equals itself.
pub str_eq_refl : (k : String) → str_eq k k ≡ true
str_eq_refl k = (eq_iff k k).1 refl

module _ {ℓ} {V : Type ℓ} where
  pub lookup-nil : (k : String) → lookup {V = V} k [] ≡ none
  unfolding lookup
  lookup-nil k = refl

  pub lookup-remove :
      (k j : String) (m : Map V) → lookup j (remove k m) ≡ (if str_eq k j then none else lookup j m)
  unfolding lookup remove
  lookup-remove k j [] = ground arith
  lookup-remove k j ((i, w) ∷ m) =
      ground (arith, eq_iff k j, eq_iff i k, eq_iff i j, lookup-remove k j m)

  pub lookup-insert :
      (key other : String) (new : V) (map : Map V)
      → lookup other (insert key new map)
        ≡ (if str_eq key other then some new else lookup other map)
  unfolding insert lookup
  lookup-insert key other new [] = refl
  lookup-insert key other new ((at, old) ∷ rest) =
      ground
        (arith, lookup-insert key other new rest, eq_iff at other, eq_iff at key, eq_iff key other)

  pub lookup-insert_self : (k : String) (v : V) (m : Map V) → lookup k (insert k v m) ≡ some v
  lookup-insert_self k v m = simp (lookup-insert, str_eq_refl)

  pub lookup-remove_self : (k : String) (m : Map V) → lookup k (remove k m) ≡ none
  lookup-remove_self k m = simp (lookup-remove, str_eq_refl)

  pub remove_absent : (k : String) (m : Map V) → lookup k m ≡ none → remove k m ≡ m
  unfolding lookup remove
  remove_absent k [] h = refl
  remove_absent k ((j, w) ∷ m) h = ground (arith, remove_absent k m)

  pub insert-Distinct : (k : String) (v : V) (m : Map V) → Distinct m → Distinct (insert k v m)
  unfolding lookup insert
  insert-Distinct k v [] d = (refl, tt)
  insert-Distinct k v ((j, w) ∷ m) d =
      ground (arith, insert-Distinct k v m d.1, lookup-insert k j v m, eq_iff j k, eq_iff k j)

  pub remove-Distinct : (k : String) (m : Map V) → Distinct m → Distinct (remove k m)
  unfolding lookup remove
  remove-Distinct k [] d = tt
  remove-Distinct k ((j, w) ∷ m) d = ground (arith, remove-Distinct k m d.1, lookup-remove k j m)

pub ruleset map_laws = (lookup-nil, lookup-insert, lookup-remove, str_eq_refl)
