-- ===== src/Map/Table.antt =====
-- A map from ids to addresses on a heap of `n` objects: `HashMap<String, Arc<T>>`.
use tab_stride.Prelude.{ℕ, suc, ◌<◌, String, ◌≡◌, some, [], arith, eq_iff}
use tab_stride.Map.{Map, lookup, insert, remove}
use tab_stride.Map.Laws.{lookup-nil, lookup-insert, lookup-remove}

-- Every registered address is allocated, and no two ids share one.
pub record Owns (n : ℕ) (t : Map ℕ) : Type 0 where
  pub allocated : (k : String) (a : ℕ) → lookup k t ≡ some a → a < n
  pub owned : (j k : String) (a : ℕ) → lookup j t ≡ some a → lookup k t ≡ some a → j ≡ k

pub nil-Owns : (n : ℕ) → Owns n []
nil-Owns n = record {
  allocated = λ k a h. absurd (grind (arith, lookup-nil, h));
  owned = λ j k a h. absurd (grind (arith, lookup-nil, h));
}

-- Registering a fresh object.
pub insert-Owns : (n : ℕ) (k : String) (t : Map ℕ) → Owns n t → Owns (suc n) (insert k n t)
insert-Owns n k t v = record {
  allocated = λ j a h. ground (arith, lookup-insert k j n t, v.allocated j a, eq_iff k j);
  owned = λ i j a hi hj. ground (
    arith,
    lookup-insert k i n t,
    lookup-insert k j n t,
    v.owned i j a,
    v.allocated i a,
    v.allocated j a,
    eq_iff k i,
    eq_iff k j,
  );
}

pub remove-Owns : (n : ℕ) (k : String) (t : Map ℕ) → Owns n t → Owns n (remove k t)
remove-Owns n k t v = record {
  allocated = λ j a h. ground (arith, lookup-remove k j t, v.allocated j a);
  owned = λ i j a hi hj. ground (arith, lookup-remove k i t, lookup-remove k j t, v.owned i j a);
}
