-- ===== src/Daemon/Sessions/Reservation.antt =====
-- A reserved id is fresh, and a reservation that is given up leaves no trace.
use tab_stride.Prelude.{
  Bool-cases, Option-cases, ℕ, zero, suc, String, ◌≡◌, refl, inl, inr, true, false, Option, none,
  some, arith, eq_iff,
}
use tab_stride.Map.{Map, contains_key, lookup, insert}
use tab_stride.Daemon.Sessions.{
  reserve_from, reserve_id, cancel_reservation, Session, SessionMode, placeholder,
}
use tab_stride.Map.Laws.{lookup-remove, lookup-insert}

module _ {V : Type 0} where
  -- The ids drawn from `i` on, in `n` attempts, are all in use.
  abbrev pub AllTaken : Map (Session V) → (ℕ → String) → ℕ → ℕ → Type 0
  AllTaken m draw i zero = Unit
  AllTaken m draw i (suc n) = (contains_key (draw i) m ≡ true) × AllTaken m draw (suc i) n

  -- What a call of `reserve_id` has done, given the registry before it.
  abbrev pub Reserved :
      Map (Session V)
      → String
      → SessionMode
      → (ℕ → String)
      → ℕ
      → ℕ
      → ℕ
      → Map (Session V) × Option String
      → Type 0
  Reserved m browser mode draw now i n (m', none) = (m' ≡ m) × AllTaken m draw i n
  Reserved m browser mode draw now i n (m', some id) =
      (lookup id m ≡ none) × (m' ≡ insert id (placeholder id browser mode now) m)

  lookup-free : (id : String) (m : Map (Session V)) → contains_key id m ≡ false → lookup id m ≡ none
  lookup-free id m h = elim (Option-cases (lookup id m)) [
    | inl e ↦ e
    | inr (s, e) ↦ absurd (ground arith)
  ]

  Reserved-retry :
      (m : Map (Session V)) (browser : String) (mode : SessionMode) (draw : ℕ → String)
      (now i n : ℕ) (r : Map (Session V) × Option String)
      → contains_key (draw i) m ≡ true
      → Reserved m browser mode draw now (suc i) n r
      → Reserved m browser mode draw now i (suc n) r
  Reserved-retry m browser mode draw now i n (m', none) h (e, all) = (e, (h, all))
  Reserved-retry m browser mode draw now i n (m', some id) h done = done

  reserve_from-Reserved :
      (m : Map (Session V)) (browser : String) (mode : SessionMode) (draw : ℕ → String)
      (now i n : ℕ)
      → Reserved m browser mode draw now i n (reserve_from m browser mode draw now i n)
  unfolding reserve_from
  reserve_from-Reserved m browser mode draw now i zero = (refl, tt)
  reserve_from-Reserved m browser mode draw now i (suc n) =
      elim (Bool-cases (contains_key (draw i) m)) [
        | inl taken ↦ rw taken (
            Reserved-retry m browser mode draw now i n
              (reserve_from m browser mode draw now (suc i) n) taken
              (reserve_from-Reserved m browser mode draw now (suc i) n))
        | inr free ↦ rw free (lookup-free (draw i) m free, refl)
      ]

  -- `reserve_id` either takes an id that was free, adding a placeholder for the browser under it
  -- and changing nothing else, or fails, and then every id drawn was in use and nothing changed.
  pub reserve_id-Reserved :
      (m : Map (Session V)) (browser : String) (mode : SessionMode) (attempts : ℕ)
      (draw : ℕ → String) (now : ℕ)
      → Reserved m browser mode draw now 0 attempts (reserve_id m browser mode attempts draw now)
  unfolding reserve_id
  reserve_id-Reserved m browser mode attempts draw now =
      reserve_from-Reserved m browser mode draw now 0 attempts

  -- A reservation that is cancelled, on an id that was free, restores the registry.
  pub cancel_reservation_restores :
      (m : Map (Session V)) (id : String) (s : Session V) (k : String)
      → lookup id m ≡ none
      → lookup k (cancel_reservation (insert id s m) id) ≡ lookup k m
  unfolding cancel_reservation
  cancel_reservation_restores m id s k h =
      ground (arith, lookup-remove id k (insert id s m), lookup-insert id k s m, eq_iff id k)
