-- ===== src/Daemon/Browsers/Generations.antt =====
-- A connection that ends cleans up after itself only, also when the extension has reconnected
-- under the same id. The counter of generations is taken to be unbounded.
use tab_stride.Prelude.{
  ◌==◌, if◌then◌else◌, Option-cases, length, length-alloc, get_elem?-alloc, ℕ, ◌<◌, String, ◌≡◌,
  refl, inl, inr, false, ◌&&◌, none, some, arith, eq_iff, str_eq, get_elem?, [], ◌∷◌, ◌++◌,
}
use tab_stride.Daemon.Browsers.{
  Browsers, connect, has_generation, remove_if_generation_matches, BrowserClient, client_at,
}
use tab_stride.Map.Table.{Owns, insert-Owns}
use tab_stride.Map.{lookup, points_to}
use tab_stride.Map.Laws.{lookup-insert, lookup-remove, lookup-insert_self}

module _ {V : Type 0} where
  -- Registered clients stand under their ids, and a generation names one client.
  pub record IsValid (r : Browsers V) : Type 0 where
    pub owns : Owns (length r.clients) r.table
    pub named :
        (k : String) (a : ℕ) (c : BrowserClient V)
        → lookup k r.table ≡ some a
        → client_at r a ≡ some c
        → c.id ≡ k
    pub stamped :
        (a : ℕ) (c : BrowserClient V) → client_at r a ≡ some c → c.generation < r.next_generation
    pub distinct :
        (a b : ℕ) (c d : BrowserClient V)
        → client_at r a ≡ some c
        → client_at r b ≡ some d
        → c.generation ≡ d.generation
        → a ≡ b

  pub connect-IsValid : (r : Browsers V) (c : BrowserClient V) → IsValid r → IsValid (connect r c).0
  unfolding connect
  connect-IsValid r c v = record {
    owns =
        rw (length-alloc r.clients (record c { generation = r.next_generation }))
          (insert-Owns (length r.clients) c.id r.table v.owns);
    named = λ k a d h e. ground (
      arith,
      lookup-insert c.id k (length r.clients) r.table,
      get_elem?-alloc r.clients (record c { generation = r.next_generation }) a,
      v.named k a d,
      v.owns.allocated k a,
      eq_iff c.id k,
    );
    stamped = λ a d e. ground (
      arith,
      get_elem?-alloc r.clients (record c { generation = r.next_generation }) a,
      v.stamped a d,
    );
    distinct = λ a b d e ha hb g. ground (
      arith,
      get_elem?-alloc r.clients (record c { generation = r.next_generation }) a,
      get_elem?-alloc r.clients (record c { generation = r.next_generation }) b,
      v.stamped a d,
      v.stamped b e,
      v.distinct a b d e,
    );
  }

  has_generation_own :
      (r : Browsers V) (a b : ℕ) (c : BrowserClient V)
      → IsValid r
      → client_at r a ≡ some c
      → has_generation r c.generation b ≡ (b == a)
  unfolding has_generation
  has_generation_own r a b c v h = elim (Option-cases (client_at r b)) [
    | inl e ↦ rw (e, has_generation) (ground arith)
    | inr (d, e) ↦ rw (e, has_generation) (ground (arith, v.distinct a b c d))
  ]

  -- The cleanup of the connection at address `a`: it removes its own registration, and nothing
  -- else; if its id is no longer its own, nothing changes.
  pub cleanup_own :
      (r : Browsers V) (a : ℕ) (c : BrowserClient V) (j : String)
      → IsValid r
      → client_at r a ≡ some c
      → let (r', removed) = remove_if_generation_matches r c.id c.generation in
        (removed ≡ points_to (lookup c.id r.table) a)
        × (lookup j r'.table ≡ (if str_eq c.id j && removed then none else lookup j r.table))
  unfolding remove_if_generation_matches
  cleanup_own r a c j v h = elim (Option-cases (lookup c.id r.table)) [
    | inl e ↦ rw (e, remove_if_generation_matches) (refl, ground arith)
    | inr (b, e) ↦
        rw (e, remove_if_generation_matches, has_generation_own r a b c v h)
          (ground arith, ground (arith, lookup-remove c.id j r.table))
  ]

  has_generation_new :
      (r : Browsers V) (new : BrowserClient V) (g : ℕ)
      → g < r.next_generation
      → has_generation (connect r new).0 g (length r.clients) ≡ false
  unfolding has_generation connect
  has_generation_new r new g h =
      let c : BrowserClient V = record new { generation = r.next_generation } in
      let stands : get_elem? (r.clients ++ c ∷ []) (length r.clients) ≡ some c =
        ground (arith, get_elem?-alloc r.clients c (length r.clients)) in
      rw (stands, has_generation) (ground arith)

  -- After a reconnection under the same id, the end of the old connection changes nothing.
  pub cleanup_after_reconnect :
      (r : Browsers V) (a : ℕ) (old new : BrowserClient V)
      → IsValid r
      → client_at r a ≡ some old
      → new.id ≡ old.id
      → let r' = (connect r new).0 in
        remove_if_generation_matches r' old.id old.generation ≡ (r', false)
  unfolding remove_if_generation_matches connect
  cleanup_after_reconnect r a old new v h e =
      rw
        (
          ← e,
          lookup-insert_self new.id (length r.clients) r.table,
          remove_if_generation_matches,
          has_generation_new r new old.generation (v.stamped a old h),
        )
        refl
