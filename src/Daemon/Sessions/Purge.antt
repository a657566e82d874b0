-- ===== src/Daemon/Sessions/Purge.antt =====
-- Which sessions go when a browser disconnects.
use tab_stride.Prelude.{
  if◌then◌else◌, length, select, String, ◌≡◌, refl, Bool, false, ◌||◌, Option, none, some, List, [],
  ◌∷◌, arith, eq_iff, str_eq,
}
use tab_stride.Map.{Map, lookup, contains_key, remove, values}
use tab_stride.Daemon.Sessions.{Session, remove_each, purge_browser, count_for_browser, is_owned_by}
use tab_stride.Map.Laws.{lookup-remove}

module _ {V : Type 0} where
  -- Every session stands under its own id, and no id twice.
  abbrev pub Named : Map (Session V) → Type 0
  Named [] = Unit
  Named ((k, s) ∷ m) = (s.id ≡ k) × (contains_key k m ≡ false) × Named m

  abbrev pub mem_id : String → List (Session V) → Bool
  mem_id j [] = false
  mem_id j (s ∷ rest) = str_eq s.id j || mem_id j rest

  abbrev pub passes : (Session V → Bool) → Option (Session V) → Bool
  passes p none = false
  passes p (some s) = p s

  lookup-remove_each :
      (m : Map (Session V)) (l : List (Session V)) (j : String)
      → lookup j (remove_each m l) ≡ (if mem_id j l then none else lookup j m)
  unfolding remove_each
  lookup-remove_each m [] j = refl
  lookup-remove_each m (s ∷ rest) j =
      ground (arith, lookup-remove_each (remove s.id m) rest j, lookup-remove s.id j m)

  mem_id-select :
      (p : Session V → Bool) (m : Map (Session V)) (j : String)
      → Named m
      → mem_id j (select p (values m)) ≡ passes p (lookup j m)
  unfolding lookup
  mem_id-select p [] j n = refl
  mem_id-select p ((k, s) ∷ m) j (e, d, n) = ground (arith, mem_id-select p m j n, eq_iff k j)

  pub mem_id-drained :
      (m : Map (Session V)) (browser j : String)
      → Named m
      → mem_id j (purge_browser m browser).1 ≡ passes (is_owned_by browser) (lookup j m)
  unfolding purge_browser
  mem_id-drained m browser j n = mem_id-select (is_owned_by browser) m j n

  -- A disconnect removes exactly the sessions of that browser, and hands back as many as were
  -- counted for it.
  pub lookup-purge_browser :
      (m : Map (Session V)) (browser j : String)
      → Named m
      → let (m', drained) = purge_browser m browser in
        (lookup j m' ≡ (if passes (is_owned_by browser) (lookup j m) then none else lookup j m))
        × (length drained ≡ count_for_browser m browser)
  unfolding purge_browser count_for_browser
  lookup-purge_browser m browser j n = (
    rw
        (
          lookup-remove_each m (select (is_owned_by browser) (values m)) j,
          mem_id-select (is_owned_by browser) m j n,
        )
        refl,
    refl,
  )
