-- ===== src/Daemon/Process/Start/Launched.antt =====
-- What `tabstride daemon start` has done when it returns.
use mathlib.Core.Path.{subst}
use tab_stride.Daemon.Process.Start.{
  StartArgs, Scene, Poll, Waited, ready, waited_for_nothing, DaemonStatus, Started, served,
  already_running, launched, failed, StartAction, spawn, serve, detach_stdio, StartError, confirmed,
  expected_port, wait_for_ready, start_config, validate_existing_start, on_existing, conclude,
  is_unreadable, run_start, start_beside,
}
use tab_stride.Daemon.Process.Start.Ready.{Finds, Finds-wait_for_ready}
use tab_stride.Prelude.{
  ℕ, if◌then◌else◌, Bool, true, false, Option, none, some, List, [], ◌∷◌, ◌≡◌, ◌⊎◌, refl, arith,
  get_elem?, inl, inr,
}

-- The daemon is what the arguments ask for: on the port, with no other timeouts.
abbrev pub Suits : StartArgs → DaemonStatus → Type 0
Suits args status =
    ((p : ℕ) → args.port ≡ some p → status.ws_port ≡ p)
    × (args.session_idle ≡ none)
    × (args.daemon_idle ≡ none)

-- What each outcome of the command comes with.
abbrev pub Accounts : StartArgs → Scene → List StartAction → Started → Type 0
Accounts args s acts served =
    ((args.foreground ≡ true) × (acts ≡ serve (start_config args) ∷ []))
    ⊎ ((s.is_child ≡ true) × (acts ≡ detach_stdio ∷ serve (start_config args) ∷ []))
Accounts args s acts (already_running status) =
    (acts ≡ []) × (confirmed s.existing.info s.existing.answer ≡ some status) × Suits args status
Accounts args s acts (launched status) =
    (acts ≡ spawn args ∷ [])
    × (confirmed s.existing.info s.existing.answer ≡ none)
    × (i : ℕ) × (p : Poll) × (get_elem? s.polls i ≡ some p)
    × Finds (expected_port args) status p
Accounts args s acts (failed e) =
    (acts ≡ []) ⊎ ((acts ≡ spawn args ∷ []) × (confirmed s.existing.info s.existing.answer ≡ none))

abbrev Every : (List StartAction → Started → Type 0) → Option (List StartAction × Started) → Type 0
Every P none = Unit
Every P (some (acts, r)) = P acts r

Every-if :
    (P : List StartAction → Started → Type 0) (b : Bool) (x y : Option (List StartAction × Started))
    → (b ≡ true → Every P x)
    → (b ≡ false → Every P y)
    → Every P (if b then x else y)
Every-if P true x y f g = f refl
Every-if P false x y f g = g refl

Suits-validate :
    (args : StartArgs) (status : DaemonStatus)
    → validate_existing_start args status ≡ none
    → Suits args status
unfolding validate_existing_start
Suits-validate args status h = (λ p e. ground arith, ground arith, ground arith)

module _ (args : StartArgs) (s : Scene) where
  conclude-Accounts :
      confirmed s.existing.info s.existing.answer ≡ none
      → (w : Option Waited) → wait_for_ready (expected_port args) s.deadline s.polls ≡ w
      → Every (Accounts args s) (conclude args w)
  conclude-Accounts n none e = tt
  conclude-Accounts n (some (ready status)) e =
      let (i, p, at, f) = Finds-wait_for_ready (expected_port args) s.deadline s.polls status e in
      (refl, n, i, p, at, f)
  conclude-Accounts n (some (waited_for_nothing x)) e = inr (refl, n)

  on_existing-Accounts :
      (status : DaemonStatus)
      → confirmed s.existing.info s.existing.answer ≡ some status
      → (o : Option StartError) → validate_existing_start args status ≡ o
      → Accounts args s (on_existing args status o).0 (on_existing args status o).1
  on_existing-Accounts status c none e = (refl, c, Suits-validate args status e)
  on_existing-Accounts status c (some x) e = inl refl

  start_beside-Accounts :
      (o : Option DaemonStatus)
      → confirmed s.existing.info s.existing.answer ≡ o
      → Every (Accounts args s) (start_beside args s o)
  start_beside-Accounts (some status) c =
      on_existing-Accounts status c (validate_existing_start args status) refl
  start_beside-Accounts none c =
      Every-if (Accounts args s) s.can_spawn _ _
        (λ y. conclude-Accounts c (wait_for_ready (expected_port args) s.deadline s.polls) refl)
        (λ n. inl refl)

  Every-Accounts : Every (Accounts args s) (run_start args s)
  unfolding run_start
  Every-Accounts =
      Every-if (Accounts args s) args.foreground _ _ (λ y. inl (y, refl))
        (λ n.
          Every-if (Accounts args s) s.is_child _ _
            (λ c. Every-if (Accounts args s) s.can_detach _ _ (λ d. inr (c, refl)) (λ d. inl refl))
            (λ c.
              Every-if (Accounts args s) (is_unreadable s.existing.info) _ _ (λ u. inl refl)
                (λ u. start_beside-Accounts (confirmed s.existing.info s.existing.answer) refl)))

-- A successful start serves here, found a daemon that is confirmed and suits, or spawned exactly one
-- child and found a confirmed daemon on the port asked for; a failed one spawned no child, or one
-- where no daemon was confirmed.
pub run_start-Accounts :
    (args : StartArgs) (s : Scene) (acts : List StartAction) (r : Started)
    → run_start args s ≡ some (acts, r)
    → Accounts args s acts r
run_start-Accounts args s acts r h = subst (Every (Accounts args s)) h (Every-Accounts args s)
