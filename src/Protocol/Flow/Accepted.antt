-- ===== src/Protocol/Flow/Accepted.antt =====
-- Which flows `validate` accepts, and which step it blames for a refusal.
use tab_stride.Protocol.Locator.{Locator, validate as validate_locator, count_true}
use tab_stride.Protocol.Assertion.{
  no_assertion, is_zero, zero_timeout, bad_target, validate as validate_assertion, AssertionSpec,
}
use tab_stride.Protocol.Flow.{
  FlowStep, FlowWaitForStep, FlowWaitForState, expect, into_assertion, attached, detached, visible,
  hidden, enabled, disabled, editable, checked, unchecked, populated, FlowDefinition, check,
}
use tab_stride.Protocol.Flow.Validate.{
  StepError, validate_step, validate_steps, bad_step, validate_finals, has_none,
}
use tab_stride.Prelude.{
  if◌then◌else◌, Option-cases, is_some, map_error, length, ℕ, suc, ◌+◌, ◌≡◌, refl, ap, inl, inr,
  Bool, true, not, ◌&&◌, some, List, [], ◌∷◌, ◌++◌, arith, ℤ, Option, false, none, map,
}
use tab_stride.Protocol.Flow.Validate.{validate}

validate-expect :
    (st : FlowWaitForState) (l : Locator) (tab : Option ℤ) (t : Option ℕ)
    → validate_assertion
        (expect st (record no_assertion { target = some l; tab_id = tab; timeout_ms = t }))
      ≡ (if is_zero t then some zero_timeout else map_error bad_target (validate_locator l))
unfolding validate_assertion count_true
validate-expect attached l tab t = refl
validate-expect detached l tab t = refl
validate-expect visible l tab t = refl
validate-expect hidden l tab t = refl
validate-expect enabled l tab t = refl
validate-expect disabled l tab t = refl
validate-expect editable l tab t = refl
validate-expect checked l tab t = refl
validate-expect unchecked l tab t = refl
validate-expect populated l tab t = refl

-- The assertion of a wait has one expectation, so it validates exactly if its timeout is not 0 and
-- its target validates.
pub validate-into_assertion :
    (w : FlowWaitForStep)
    → validate_assertion (into_assertion w) ≡ (
        if is_zero w.timeout_ms
        then some zero_timeout
        else map_error bad_target (validate_locator w.target))
unfolding into_assertion
validate-into_assertion w = validate-expect w.state w.target w.tab_id w.timeout_ms

abbrev pub is_sound : FlowStep → Bool
is_sound s = not (is_some (validate_step s))

abbrev pub all_sound : List FlowStep → Bool
all_sound [] = true
all_sound (s ∷ ss) = is_sound s && all_sound ss

-- A refusal of the steps blames the first one that is not sound, with its number counted from 1
-- and its own error.
pub first_bad-validate_steps :
    (i : ℕ) (ss : List FlowStep) (n : ℕ) (e : StepError)
    → validate_steps i ss ≡ some (bad_step n e)
    → (before : List FlowStep) × (s : FlowStep) × (after : List FlowStep) × (ss
        ≡ before ++ s ∷ after)
      × (n ≡ i + suc (length before))
      × (validate_step s ≡ some e)
      × (all_sound before ≡ true)
unfolding validate_steps
first_bad-validate_steps i [] n e h = absurd (cc)
first_bad-validate_steps i (s ∷ ss) n e h = elim (Option-cases (validate_step s)) [
  | inr (d, y) ↦ ([], s, ss, refl, (ground arith), (ground arith), refl)
  | inl fine ↦
      let (before, t, after, p, q, r, u) = first_bad-validate_steps (suc i) ss n e (ground arith) in
      (s ∷ before, t, after, ap (λ xs. s ∷ xs) p, omega arith, r, (ground arith))
]

all_sound-append : (xs ys : List FlowStep) → all_sound (xs ++ ys) ≡ (all_sound xs && all_sound ys)
all_sound-append [] ys = refl
all_sound-append (x ∷ xs) ys = ground (arith, all_sound-append xs ys)

all_sound-validate_steps :
    (i : ℕ) (ss : List FlowStep) → validate_steps i ss ≡ none → all_sound ss ≡ true
unfolding validate_steps
all_sound-validate_steps i [] h = refl
all_sound-validate_steps i (s ∷ ss) h = elim (Option-cases (validate_step s)) [
  | inl e ↦ ground (arith, all_sound-validate_steps (suc i) ss)
  | inr (d, e) ↦ absurd (ground arith)
]

all_sound-validate_finals :
    (i : ℕ) (cs : List AssertionSpec)
    → validate_finals i cs ≡ none
    → all_sound (map check cs) ≡ true
unfolding validate_finals validate_step
all_sound-validate_finals i [] h = refl
all_sound-validate_finals i (a ∷ cs) h = elim (Option-cases (validate_assertion a)) [
  | inl e ↦ ground (arith, all_sound-validate_finals (suc i) cs)
  | inr (d, e) ↦ absurd (ground arith)
]

-- The steps that the daemon runs for a flow: its own, and a check for each final assertion.
abbrev pub steps_of : FlowDefinition → List FlowStep
steps_of f = f.steps ++ map check f.assertions

-- A flow that validates has a step, and every step that is run for it is sound by itself.
pub all_sound-validate :
    (f : FlowDefinition)
    → validate f ≡ none
    → (has_none f.steps ≡ false) × (all_sound (steps_of f) ≡ true)
unfolding validate
all_sound-validate f h = elim (Option-cases (validate_steps 0 f.steps)) [
  | inr (d, e) ↦ absurd (ground arith)
  | inl e ↦ (
    ground arith,
    ground (
      arith,
      all_sound-append f.steps (map check f.assertions),
      all_sound-validate_steps 0 f.steps e,
      all_sound-validate_finals 0 f.assertions,
    ),
  )
]
