-- ===== src/Daemon/Process/Start/Ready.antt =====
-- When `wait_for_ready` finds the daemon, and that it ends.
use tab_stride.Daemon.Process.Start.{
  Poll, ready, DaemonStatus, confirmed, on_port, is_unreadable, decide, wait_for_ready,
}
use tab_stride.Prelude.{
  ℕ, suc, ◌+◌, ◌*◌, ◌<◌, ◌≤◌, true, false, Option, none, some, is_some, List, [], ◌∷◌, ◌++◌, length,
  ◌≡◌, refl, arith, All, Option-cases, get_elem?, inl, inr,
}

-- A round before the deadline that reads no daemon which answers.
abbrev pub IsEarly : ℕ → Poll → Type 0
IsEarly deadline p =
    (is_unreadable p.probe.info ≡ false)
    × (confirmed p.probe.info p.probe.answer ≡ none)
    × (p.now < deadline)

-- A round that finds a daemon which answers, on the port that is expected if one is.
abbrev pub Finds : Option ℕ → DaemonStatus → Poll → Type 0
Finds expected status p =
    (confirmed p.probe.info p.probe.answer ≡ some status) × (on_port expected status ≡ ready status)

module _ (expected : Option ℕ) (deadline : ℕ) where
  decide-IsEarly : (p : Poll) → IsEarly deadline p → decide expected deadline p ≡ none
  unfolding decide
  decide-IsEarly p h = ground arith

  decide-Finds :
      (p : Poll) (status : DaemonStatus)
      → Finds expected status p
      → decide expected deadline p ≡ some (ready status)
  unfolding decide confirmed
  decide-Finds p status h = ground arith

  -- Once the daemon answers, the wait is over: a round that finds it ends the wait with it, if the
  -- rounds before came before the deadline and none of them could not read daemon.json.
  pub wait_for_ready-Finds :
      (before : List Poll) (p : Poll) (after : List Poll) (status : DaemonStatus)
      → All (IsEarly deadline) before
      → Finds expected status p
      → wait_for_ready expected deadline (before ++ p ∷ after) ≡ some (ready status)
  unfolding wait_for_ready
  wait_for_ready-Finds [] p after status early f = ground (arith, decide-Finds p status f)
  wait_for_ready-Finds (q ∷ before) p after status early f =
      ground (arith, decide-IsEarly q early.0, wait_for_ready-Finds before p after status early.1 f)

  Finds-decide :
      (p : Poll) (status : DaemonStatus)
      → decide expected deadline p ≡ some (ready status)
      → Finds expected status p
  unfolding decide on_port
  Finds-decide p status h = ground arith

  -- A daemon that the wait returns was found in one of its rounds.
  pub Finds-wait_for_ready :
      (ps : List Poll) (status : DaemonStatus)
      → wait_for_ready expected deadline ps ≡ some (ready status)
      → (i : ℕ) × (p : Poll) × (get_elem? ps i ≡ some p) × Finds expected status p
  unfolding wait_for_ready
  Finds-wait_for_ready [] status h = absurd (cc)
  Finds-wait_for_ready (p ∷ ps) status h = elim (Option-cases (decide expected deadline p)) [
    | inr (w, e) ↦ (0, p, refl, Finds-decide p status (ground arith))
    | inl e ↦ let (i, q, at, f) = Finds-wait_for_ready ps status (ground arith) in (suc i, q, at, f)
  ]

  late_decides : (p : Poll) → deadline ≤ p.now → is_some (decide expected deadline p) ≡ true
  unfolding decide
  late_decides p h = ground arith

  -- Each round comes at least 50 ms after the one before.
  abbrev pub Spaced : ℕ → List Poll → Type 0
  Spaced t [] = Unit
  Spaced t (p ∷ ps) = (t ≤ p.now) × Spaced (p.now + 50) ps

  -- Rounds that are spaced so and cover the wait end it.
  pub wait_for_ready-Ends :
      (ps : List Poll) (start : ℕ)
      → Spaced start ps
      → start ≤ deadline + 50
      → deadline + 50 < start + 50 * length ps
      → is_some (wait_for_ready expected deadline ps) ≡ true
  unfolding wait_for_ready
  wait_for_ready-Ends [] start s b h = absurd (omega arith)
  wait_for_ready-Ends (p ∷ ps) start s b h =
      ground (arith, late_decides p, wait_for_ready-Ends ps (p.now + 50) s.1)
