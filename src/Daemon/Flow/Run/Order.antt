-- ===== src/Daemon/Flow/Run/Order.antt =====
-- The order in which a flow dispatches and completes its steps.
use mathlib.Core.List.{append_assoc}
use tab_stride.Json.{Json}
use tab_stride.Protocol.Error.{Body-cases}
use tab_stride.Protocol.Method.{Method}
use tab_stride.Protocol.Flow.{FlowStep}
use tab_stride.Daemon.Flow.Steps.{HelpOutcome, method_of, normalize_step_body}
use tab_stride.Daemon.Flow.Run.{
  Round, Ending, Outcome, Effect, dispatches, cancels, FlowStepResult, answered, stopped, expired,
  succeeded, failed, run_steps, await_step, step_result, failed_result, early_failure, late_failure,
  FlowFailure, cancelled, timeout,
}
use tab_stride.Prelude.{
  if◌then◌else◌, is_some, length, ℕ, suc, ◌+◌, ◌≡◌, refl, ap, ◌∙◌, List, [], ◌∷◌, ◌++◌, map, arith,
  ltb, Bool-cases, inl, inr, Bool, Option, append_nil, sym, get_or,
}

abbrev pub label : {V : Type 0} → FlowStepResult V → ℕ × Method
label r = (r.index, r.method)

-- The steps with their numbers, from the one behind `i`.
abbrev pub labels : ℕ → List FlowStep → List (ℕ × Method)
labels i [] = []
labels i (s ∷ ss) = (suc i, method_of s) ∷ labels (suc i) ss

abbrev pub dispatched : List Effect → List (ℕ × Method)
dispatched [] = []
dispatched (dispatches n m ∷ es) = (n, m) ∷ dispatched es
dispatched (cancels n ∷ es) = dispatched es

dispatched-append : (es fs : List Effect) → dispatched (es ++ fs) ≡ dispatched es ++ dispatched fs
dispatched-append [] fs = refl
dispatched-append (dispatches n m ∷ es) fs = ap (λ xs. (n, m) ∷ xs) (dispatched-append es fs)
dispatched-append (cancels n ∷ es) fs = dispatched-append es fs

map_label-alloc :
    {V : Type 0} (rs : List (FlowStepResult V)) (r : FlowStepResult V)
    → map label (rs ++ r ∷ []) ≡ map label rs ++ label r ∷ []
map_label-alloc [] r = refl
map_label-alloc (t ∷ rs) r = ap (λ xs. label t ∷ xs) (map_label-alloc rs r)

-- A success has all steps completed, each one dispatched once and in order. A failure at a step has
-- exactly the steps before it completed, and has dispatched them in order, itself at most once, and
-- nothing behind it.
abbrev pub InOrder :
    {V : Type 0} → ℕ → List FlowStep → List (ℕ × Method) → Outcome V × List Effect → Type 0
InOrder i ss done (succeeded rs, es) =
    (map label rs ≡ done ++ labels i ss) × (dispatched es ≡ labels i ss)
InOrder i ss done (failed f, es) =
    (before : List FlowStep) × (s : FlowStep) × (after : List FlowStep) × (ss ≡ before ++ s ∷ after)
    × (f.failed_step ≡ i + suc (length before))
    × (f.failed_method ≡ method_of s)
    × (map label f.completed_steps ≡ done ++ labels i before)
    × (dispatched es
        ≡ labels i before
          ++ (if is_some f.failed_step_result then (f.failed_step, f.failed_method) ∷ [] else []))

-- A step that is done in front of the others.
InOrder-step :
    {V : Type 0} (i : ℕ) (s : FlowStep) (ss : List FlowStep) (done : List (ℕ × Method))
    (o : Outcome V) (sent es : List Effect)
    → dispatched sent ≡ (suc i, method_of s) ∷ []
    → InOrder (suc i) ss (done ++ (suc i, method_of s) ∷ []) (o, es)
    → InOrder i (s ∷ ss) done (o, sent ++ es)
InOrder-step i s ss done (succeeded rs) sent es h (p, q) = (
  p ∙ append_assoc done ((suc i, method_of s) ∷ []) (labels (suc i) ss),
  dispatched-append sent es ∙ rw (h, q) refl,
)
InOrder-step i s ss done (failed f) sent es h (before, t, after, p, q, r, u, w) = (
  s ∷ before,
  t,
  after,
  ap (λ xs. s ∷ xs) p,
  omega (arith, q),
  r,
  u ∙ append_assoc done ((suc i, method_of s) ∷ []) (labels (suc i) before),
  dispatched-append sent es ∙ rw (h, w) refl,
)

-- A failure at the first step.
InOrder-stop :
    {V : Type 0} (i : ℕ) (s : FlowStep) (ss : List FlowStep) (done : List (ℕ × Method))
    (f : FlowFailure V) (es : List Effect)
    → f.failed_step ≡ suc i
    → f.failed_method ≡ method_of s
    → map label f.completed_steps ≡ done
    → dispatched es
      ≡ (if is_some f.failed_step_result then (f.failed_step, f.failed_method) ∷ [] else [])
    → InOrder i (s ∷ ss) done (failed f, es)
InOrder-stop i s ss done f es p q r u =
    ([], s, ss, refl, omega (arith, p), q, r ∙ sym (append_nil done), u)

module _ (j : Json) (null : j.Value) (is_null : j.Value → Bool)
    (outcome_of : j.Value → Option HelpOutcome) where
  open j use {Value}

  -- A step is dispatched once, whatever ends it.
  dispatched-await_step :
      (n : ℕ) (m : Method) (e : Ending Value)
      → dispatched (await_step j null is_null outcome_of n m e).1 ≡ (n, m) ∷ []
  unfolding await_step
  dispatched-await_step n m (answered body) = refl
  dispatched-await_step n m (stopped o) = refl
  dispatched-await_step n m (expired o) = refl

  abbrev run :
      ℕ
      → (ℕ → Round Value)
      → ℕ
      → List FlowStep
      → List (FlowStepResult Value)
      → Outcome Value × List Effect
  run = run_steps j null is_null outcome_of

  abbrev done_step : (ℕ → Round Value) → ℕ → FlowStep → Value → FlowStepResult Value
  done_step rounds i s v = step_result j null is_null outcome_of (suc i) (method_of s) (rounds i) v

  InOrder-head :
      (limit : ℕ) (rounds : ℕ → Round Value) (i : ℕ) (s : FlowStep) (ss : List FlowStep)
      (done : List (FlowStepResult Value))
      → ((v : Value)
          → InOrder
              (suc i)
              ss
              (map label done ++ (suc i, method_of s) ∷ [])
              (run limit rounds (suc i) ss (done ++ done_step rounds i s v ∷ [])))
      → InOrder i (s ∷ ss) (map label done) (run limit rounds i (s ∷ ss) done)
  unfolding run_steps await_step failed_result
  InOrder-head limit rounds i s ss done ih =
      let m = method_of s in
      let r = rounds i in
      let (body, sent) = await_step j null is_null outcome_of (suc i) m r.ending in
      elim (Bool-cases r.is_cancelled) [
        | inl y ↦ rw y (
            InOrder-stop i s ss (map label done)
              (early_failure j null is_null outcome_of (suc i) m done cancelled) [] refl refl refl
              refl)
        | inr n ↦ elim (Bool-cases (ltb limit r.elapsed)) [
          | inl y ↦
              rw (n, y)
                (InOrder-stop i s ss (map label done)
                  (early_failure j null is_null outcome_of (suc i) m done timeout) [] refl refl refl
                  refl)
          | inr k ↦ elim (Body-cases (normalize_step_body j outcome_of m body)) [
            | inl (v, e) ↦
                rw (n, k, e)
                  (InOrder-step i s ss (map label done) _ sent _
                    (dispatched-await_step (suc i) m r.ending) (ih v))
            | inr (c, e) ↦
                rw (n, k, e)
                  (InOrder-stop i s ss (map label done)
                    (late_failure j null is_null outcome_of (suc i) m done
                      (failed_result j null is_null outcome_of (suc i) m r (get_or c.details null))
                      c.code)
                    sent refl refl refl (dispatched-await_step (suc i) m r.ending))
          ]
        ]
      ]

  InOrder-of_done :
      (i : ℕ) (ss : List FlowStep) (a b : List (ℕ × Method)) (o : Outcome Value × List Effect)
      → a ≡ b
      → InOrder i ss a o
      → InOrder i ss b o
  InOrder-of_done i ss a b o e h = rw (sym e) h

  label-done_step :
      (rounds : ℕ → Round Value) (i : ℕ) (s : FlowStep) (v : Value)
      → label (done_step rounds i s v) ≡ (suc i, method_of s)
  unfolding step_result
  label-done_step rounds i s v = refl

  -- Whatever the rounds bring: a flow that succeeds has each step dispatched once, in order, and its
  -- results stand in that order; a flow that fails names the step it ended at, has the results of
  -- exactly the steps before it, and has dispatched those in order, then at most the failed step,
  -- and nothing behind it.
  pub run_steps-InOrder :
      (limit : ℕ) (rounds : ℕ → Round Value) (i : ℕ) (ss : List FlowStep)
      (done : List (FlowStepResult Value))
      → InOrder i ss (map label done) (run limit rounds i ss done)
  unfolding run_steps
  run_steps-InOrder limit rounds i [] done = (sym (append_nil (map label done)), refl)
  run_steps-InOrder limit rounds i (s ∷ ss) done = InOrder-head limit rounds i s ss done (λ v.
      InOrder-of_done (suc i) ss _ _ _
        (map_label-alloc done (done_step rounds i s v)
          ∙ ap (λ x. map label done ++ x ∷ []) (label-done_step rounds i s v))
        (run_steps-InOrder limit rounds (suc i) ss (done ++ done_step rounds i s v ∷ [])))
