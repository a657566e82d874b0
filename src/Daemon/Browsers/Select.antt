-- ===== src/Daemon/Browsers/Select.antt =====
-- Which client `select` picks, and how long `select_with_connect_wait` waits for one.
use tab_stride.Prelude.{
  leb, if◌then◌else◌, is_some, length, select, ℕ, ◌+◌, ◌*◌, ◌≤◌, ◌<◌, String, ◌≡◌, ◌↔◌, ◌⊎◌, Bool,
  true, false, Option, none, some, List, [], ◌∷◌, arith, str_eq, Option-cases, inl, inr, ◌==◌, sym,
  ◌∙◌, ◌&&◌,
}
use tab_stride.Daemon.Browsers.{
  failed, no_browser_connected, not_found, Browsers, choose, is_empty, Selected, found, has_label,
  by_label,
}
use tab_stride.Map.Values.{mem_addr, mem-select}
use tab_stride.Map.{values, lookup}

module _ {V : Type 0} where
  by_label_one :
      (r : Browsers V) (needle : String) (l : List ℕ) (a : ℕ)
      → by_label r needle l ≡ found a
      → l ≡ a ∷ []
  unfolding by_label
  by_label_one r needle [] a h = absurd (cc)
  by_label_one r needle (b ∷ []) a h = ground arith
  by_label_one r needle (b ∷ c ∷ l) a h = absurd (cc)

  -- A client chosen by an id is the one registered under it; one chosen by a label is registered,
  -- carries the label, and is the only registered client that does.
  pub choose_named :
      (r : Browsers V) (needle : String) (a b : ℕ)
      → str_eq needle "" ≡ false
      → choose r (some needle) ≡ found a
      → (lookup needle r.table ≡ some a)
        ⊎ ((mem_addr b (values r.table) && has_label r needle b) ≡ (a == b))
  unfolding choose
  choose_named r needle a b n h = elim (Option-cases (lookup needle r.table)) [
    | inr (c, e) ↦ inl (ground arith)
    | inl e ↦
        let l = select (has_label r needle) (values r.table) in
        let one : l ≡ a ∷ [] = by_label_one r needle l a (rw (n, e, choose) at h) in
        inr (sym (mem-select (has_label r needle) (values r.table) b) ∙ rw one (ground arith))
  ]

  -- With no selector, a client is chosen exactly if it is the only one that is registered.
  pub choose_only : (r : Browsers V) (a : ℕ) → (choose r none ≡ found a) ↔ (values r.table ≡ a ∷ [])
  unfolding choose
  choose_only r a = ground arith

-- One round of the loop: the registry as the first `select` sees it, as `is_empty` sees it, as the
-- last `select` sees it, and the time of the deadline test.
pub record Poll (V : Type 0) : Type 0 where
  pub first : Browsers V
  pub second : Browsers V
  pub third : Browsers V
  pub now : ℕ

module _ {V : Type 0} where
  -- Whether the loop goes on waiting after what it saw.
  unfoldable pub keeps_waiting : Poll V → Option String → Bool
  unfolding is_empty
  keeps_waiting p requested = elim (choose p.first requested) [
    | found a ↦ false
    | failed no_browser_connected ↦ true
    | failed not_found ↦ is_empty p.second
    | failed _ ↦ false
  ]

  -- `none`: the rounds given have run out and the deadline has not passed.
  unfoldable pub select_with_connect_wait : List (Poll V) → Option String → ℕ → Option Selected
  unfolding keeps_waiting
  select_with_connect_wait [] requested deadline = none
  select_with_connect_wait (p ∷ rest) requested deadline =
      let later = select_with_connect_wait rest requested deadline in
      if keeps_waiting p requested
      then (if leb deadline p.now then some (choose p.third requested) else later)
      else some (choose p.first requested)

  -- Each round comes at least 50 ms (`EXTENSION_CONNECT_POLL`) after the one before.
  abbrev pub Spaced : ℕ → List (Poll V) → Type 0
  Spaced t [] = Unit
  Spaced t (p ∷ rest) = (t ≤ p.now) × Spaced (p.now + 50) rest

  -- The loop ends: rounds that are spaced so and cover the wait give a result.
  pub wait_ends :
      (ps : List (Poll V)) (requested : Option String) (start deadline : ℕ)
      → Spaced start ps
      → start ≤ deadline + 50
      → deadline + 50 < start + 50 * length ps
      → is_some (select_with_connect_wait ps requested deadline) ≡ true
  unfolding select_with_connect_wait
  wait_ends [] requested start deadline s b h = absurd (omega arith)
  wait_ends (p ∷ rest) requested start deadline s b h =
      ground (arith, wait_ends rest requested (p.now + 50) deadline s.1)
