-- ===== src/Daemon/Process/Idle/Exits.antt =====
-- When the idle task ends the daemon, and that it does so in time.
use mathlib.Core.Path.{subst}
use tab_stride.Daemon.Process.Idle.{Tick, stays, idle_ticks}
use tab_stride.Prelude.{
  ℕ, leb, ltb, ◌+◌, ◌-◌, ◌≤◌, Bool, true, false, ◌||◌, some, List, [], ◌∷◌, ◌≡◌, arith, Bool-cases,
  inl, inr, All,
}

-- Nothing has happened for the timeout, no client of the CLI is connected, no browser is paired, and
-- no session is live.
abbrev pub IsIdle : ℕ → Tick → Type 0
IsIdle idle t =
    (idle ≤ t.now - t.activity.last)
    × (t.activity.active ≡ 0)
    × (t.no_browsers ≡ true)
    × (t.no_sessions ≡ true)

IsIdle-stays : (idle : ℕ) (t : Tick) → stays idle t ≡ false → IsIdle idle t
unfolding stays
IsIdle-stays idle t h = ground arith

-- The daemon ends at a tick at which it is idle.
pub idle_ticks-IsIdle :
    (idle : ℕ) (ts : List Tick) (t : Tick) → idle_ticks idle ts ≡ some t → IsIdle idle t
unfolding idle_ticks
idle_ticks-IsIdle idle [] t h = absurd (cc)
idle_ticks-IsIdle idle (u ∷ ts) t h = elim (Bool-cases (stays idle u)) [
  | inl y ↦ idle_ticks-IsIdle idle ts t (ground arith)
  | inr n ↦ let e : u ≡ t = ground arith in subst (IsIdle idle) e (IsIdle-stays idle u n)
]

-- A tick with nothing in the registries and no client, and nothing since `last`.
abbrev pub IsQuiet : ℕ → Tick → Type 0
IsQuiet last t =
    (t.activity.last ≡ last)
    × (t.activity.active ≡ 0)
    × (t.no_browsers ≡ true)
    × (t.no_sessions ≡ true)

-- Each tick comes after the one before, by `gap` at most.
abbrev pub Regular : ℕ → ℕ → List Tick → Type 0
Regular gap t [] = Unit
Regular gap t (u ∷ ts) = (t ≤ u.now) × (u.now ≤ t + gap) × Regular gap u.now ts

-- Whether some tick comes at or after a time.
abbrev pub reaches : ℕ → List Tick → Bool
reaches t [] = false
reaches t (u ∷ ts) = leb t u.now || reaches t ts

quiet_stays : (idle last : ℕ) (t : Tick) → IsQuiet last t → stays idle t ≡ ltb (t.now - last) idle
unfolding stays
quiet_stays idle last t h = ground arith

-- An idle daemon ends: if nothing happens from `last` on and the ticks come as the interval says, it
-- ends no sooner than the timeout and at most one interval after it.
pub idle_ticks-Ends :
    (idle last start gap : ℕ) (ts : List Tick)
    → All (IsQuiet last) ts
    → Regular gap start ts
    → last ≤ start
    → start ≤ last + idle
    → reaches (last + idle) ts ≡ true
    → (t : Tick) × (idle_ticks idle ts ≡ some t)
      × (last + idle ≤ t.now)
      × (t.now ≤ last + idle + gap)
unfolding idle_ticks
idle_ticks-Ends idle last start gap [] q r b s h = absurd (cc)
idle_ticks-Ends idle last start gap (t ∷ ts) q r b s h =
    elim (Bool-cases (ltb (t.now - last) idle)) [
      | inr n ↦ (t, ground (arith, quiet_stays idle last t q.0), ground arith, ground arith)
      | inl y ↦
          let (u, e, a, b) =
            idle_ticks-Ends idle last t.now gap ts q.1 r.2 (ground arith) (ground arith)
              (ground arith) in
          (u, ground (arith, quiet_stays idle last t q.0), a, b)
    ]
