-- ===== src/Map/Values.antt =====
-- The addresses among the values of a table.
use tab_stride.Prelude.{
  ◌==◌, select, ℕ, String, ◌≡◌, refl, Bool, true, false, ◌&&◌, ◌||◌, some, List, [], ◌∷◌, arith,
}
use tab_stride.Map.{lookup, Map, values}

abbrev pub mem_addr : ℕ → List ℕ → Bool
mem_addr b [] = false
mem_addr b (a ∷ rest) = a == b || mem_addr b rest

pub mem-select :
    (p : ℕ → Bool) (l : List ℕ) (b : ℕ) → mem_addr b (select p l) ≡ (mem_addr b l && p b)
mem-select p [] b = refl
mem-select p (a ∷ l) b = ground (arith, mem-select p l b)

pub mem-values :
    (t : Map ℕ) (k : String) (b : ℕ) → lookup k t ≡ some b → mem_addr b (values t) ≡ true
unfolding lookup
mem-values [] k b h = cc
mem-values ((j, a) ∷ t) k b h = ground (arith, mem-values t k b)
