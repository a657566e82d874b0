-- ===== src/Map.antt =====
-- `HashMap<String, V>` (also under the newtypes `SessionId` and `BrowserId`) and
-- `HashSet<String>`, as association lists. A key stands at most once (`Distinct`); the order of
-- the entries stands for the unspecified iteration order of the hash map.
pub mod Laws
pub mod Table
pub mod Values
use tab_stride.Prelude.{
  String, Option, none, some, List, [], ◌∷◌, Bool, false, ◌≡◌, str_eq, is_some, if◌then◌else◌, map,
  ◌==◌, ℕ,
}

abbrev pub Map {ℓ} : Type ℓ → Type ℓ
Map V = List (String × V)

module _ {ℓ} {V : Type ℓ} where
  -- `get`
  unfoldable pub lookup : String → Map V → Option V
  lookup k [] = none
  lookup k ((j, v) ∷ m) = if str_eq j k then some v else lookup k m

  -- `contains_key`
  abbrev pub contains_key : String → Map V → Bool
  contains_key k m = is_some (lookup k m)

  -- `insert`, which replaces the value of a key that is there
  unfoldable pub insert : String → V → Map V → Map V
  insert key new [] = (key, new) ∷ []
  insert key new ((at, old) ∷ rest) =
      let kept = insert key new rest in if str_eq at key then (at, new) ∷ rest else (at, old) ∷ kept

  -- `remove`
  unfoldable pub remove : String → Map V → Map V
  remove k [] = []
  remove k ((j, v) ∷ m) = if str_eq j k then remove k m else (j, v) ∷ remove k m

  -- `values`
  abbrev pub values : Map V → List V
  values = map (λ e. e.1)

  -- No entry is hidden behind another with its key.
  abbrev pub Distinct : Map V → Type 0
  Distinct [] = Unit
  Distinct ((k, v) ∷ m) = (contains_key k m ≡ false) × Distinct m

-- `Arc::ptr_eq` of what is registered under an id with the object at an address.
abbrev pub points_to : Option ℕ → ℕ → Bool
points_to none a = false
points_to (some b) a = b == a
