-- ===== src/Daemon/Process/Stop/Verified.antt =====
-- Whom `run_stop` signals, when it forces, and that it ends.
use mathlib.Core.Path.{subst}
use tab_stride.Daemon.Process.Info.{Read, unreadable, missing, present, DaemonInfo}
use tab_stride.Daemon.Process.Stop.{
  Action, send_kill, remove_info, Verdict, ok, failed, Look, Scene, Confirmed, Outlives, is_missing,
  removes, await_exit, stop_verified, run_stop, IsVerified, StopError, term_failed, confirm,
  stop_on, unverified, other_daemon,
}
use tab_stride.Prelude.{
  ap, ◌||◌, ℕ, ltb, ◌+◌, ◌*◌, ◌<◌, ◌≤◌, ◌==◌, if◌then◌else◌, Bool, true, false, Option, none, some,
  is_some, List, [], ◌∷◌, length, ◌≡◌, ◌⊎◌, ◌↔◌, inl, inr, refl, arith, All, Option-cases,
  Bool-cases,
}

Outlives-cons :
    (deadline : ℕ) (l : Look) (ls : List Look)
    → l.now < deadline
    → l.alive ≡ true
    → Outlives deadline ls
    → Outlives deadline (l ∷ ls)
Outlives-cons deadline l ls t a (before, m, after, e, every, d) =
    (l ∷ before, m, after, ap (λ xs. l ∷ xs) e, ((t, a), every), d)

-- What the loop ends with: the process was found dead in time, or the deadline passed.
pub await_exit-Ended :
    (pid deadline : ℕ) (ls : List Look) (acts : List Action)
    → await_exit pid deadline ls ≡ some acts
    → (acts ≡ remove_info ∷ []) ⊎ ((acts ≡ send_kill pid ∷ remove_info ∷ []) × Outlives deadline ls)
unfolding await_exit
await_exit-Ended pid deadline [] acts h = absurd (cc)
await_exit-Ended pid deadline (l ∷ ls) acts h = elim (Bool-cases (ltb l.now deadline)) [
  | inr n ↦ inr (ground arith, ([], l, ls, refl, tt, ground arith))
  | inl y ↦ elim (Bool-cases l.alive) [
    | inr d ↦ inl (ground arith)
    | inl a ↦ elim (await_exit-Ended pid deadline ls acts (rw (y, a, await_exit) at h)) [
      | inl e ↦ inl e
      | inr (e, o) ↦ inr (e, Outlives-cons deadline l ls (ground arith) a o)
    ]
  ]
]

-- The signals are justified, and a success is that daemon.json is missing or its removal was tried.
abbrev pub Settles : Scene → List Action → Verdict → Type 0
Settles s acts v =
    All (IsVerified s) acts × ((v ≡ ok) ↔ ((is_missing s.info || removes acts) ≡ true))

abbrev Every : (List Action → Verdict → Type 0) → Option (List Action × Verdict) → Type 0
Every P none = Unit
Every P (some (acts, v)) = P acts v

module _ (s : Scene) (info : DaemonInfo) (there : s.info ≡ present info) where
  -- A refusal leaves the file, and does nothing.
  refused-Settles : (e : StopError) → Settles s [] (failed e)
  refused-Settles e =
      (tt, (λ h. absurd (cc), λ h. let no : false ≡ true = rw there at h in absurd (cc)))

  stop_verified-Settles :
      s.alive ≡ true → s.answer ≡ some info.pid → Every (Settles s) (stop_verified s info.pid)
  unfolding stop_verified
  stop_verified-Settles a c =
      let known : Confirmed s info.pid = (info, there, refl, a, c) in
      elim (Bool-cases s.term_sent) [
        | inr n ↦ rw n (refused-Settles term_failed)
        | inl t ↦ elim (Option-cases (await_exit info.pid s.deadline s.looks)) [
          | inl e ↦ rw (t, e) tt
          | inr (rest, e) ↦ elim (await_exit-Ended info.pid s.deadline s.looks rest e) [
            | inl d ↦ rw (t, e, d) ((known, (tt, tt)), (λ h. rw there refl, λ h. refl))
            | inr (k, o) ↦
                rw (t, e, k) ((known, ((known, o), (tt, tt))), (λ h. rw there refl, λ h. refl))
          ]
        ]
      ]

  confirm-Settles :
      s.alive ≡ true → (o : Option ℕ) → s.answer ≡ o → Every (Settles s) (confirm s info.pid o)
  confirm-Settles a none c = refused-Settles unverified
  confirm-Settles a (some p) c = elim (Bool-cases (p == info.pid)) [
    | inl y ↦ rw y (stop_verified-Settles a (ground arith))
    | inr n ↦ rw n (refused-Settles (other_daemon p))
  ]

  stop_present-Settles :
      (a : Bool)
      → s.alive ≡ a
      → Every (Settles s) (if a then confirm s info.pid s.answer else some (remove_info ∷ [], ok))
  stop_present-Settles true a = confirm-Settles a s.answer refl
  stop_present-Settles false a = ((tt, tt), (λ h. rw there refl, λ h. refl))

stop_on-Settles : (s : Scene) (r : Read) → s.info ≡ r → Every (Settles s) (stop_on s r)
stop_on-Settles s unreadable e =
    (tt, (λ h. absurd (cc), λ h. let no : false ≡ true = rw e at h in absurd (cc)))
stop_on-Settles s missing e = (tt, (λ h. rw e refl, λ h. refl))
stop_on-Settles s (present info) e = stop_present-Settles s info e s.alive refl

-- `tabstride daemon stop` signals nothing but the process that daemon.json names, after it was found
-- alive and has answered with its id as the daemon; it kills that process only once the deadline has
-- passed and each look before the deadline found it alive, without a further look; and it succeeds
-- exactly if there is no daemon.json or it has tried to remove it.
pub run_stop-Settles :
    (s : Scene) (acts : List Action) (v : Verdict) → run_stop s ≡ some (acts, v) → Settles s acts v
unfolding run_stop
run_stop-Settles s acts v h = subst (Every (Settles s)) h (stop_on-Settles s s.info refl)

-- Each look comes at least 50 ms after the one before.
abbrev pub Spaced : ℕ → List Look → Type 0
Spaced t [] = Unit
Spaced t (l ∷ ls) = (t ≤ l.now) × Spaced (l.now + 50) ls

-- Looks that are spaced so and cover the wait end it.
pub await_exit-Ends :
    (pid start deadline : ℕ) (ls : List Look)
    → Spaced start ls
    → start ≤ deadline + 50
    → deadline + 50 < start + 50 * length ls
    → is_some (await_exit pid deadline ls) ≡ true
unfolding await_exit
await_exit-Ends pid start deadline [] s b h = absurd (omega arith)
await_exit-Ends pid start deadline (l ∷ ls) s b h =
    ground (arith, await_exit-Ends pid (l.now + 50) deadline ls s.1)
