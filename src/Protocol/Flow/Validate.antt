-- ===== src/Protocol/Flow/Validate.antt =====
-- `FlowDefinition::validate` and `validate_request_help` of crates/tabstride-protocol/src/flow.rs.
use tab_stride.Protocol.Locator.{Locator, LocatorError, is_given, validate as validate_locator}
use tab_stride.Protocol.Assertion.{
  AssertionSpec, AssertionError, is_zero, validate as validate_assertion,
}
use tab_stride.Protocol.Flow.{FlowStep, FlowDefinition, FlowRequestHelpStep, HelpTarget}
use tab_stride.Prelude.{
  if◌then◌else◌, get_or, map_error, ℕ, suc, Bool, true, false, not, ◌&&◌, ◌||◌, Option, none, some,
  List, [], ◌∷◌,
}
use tab_stride.Text.Trim.{is_blank}
use tab_stride.Protocol.Flow.{click, fill, press, choose, wait_for, check, request_help}

pub data HelpError : Type 0 where
  needs_prompt zero_help_timeout needs_ref_or_selector : HelpError

pub data StepError : Type 0 where
  bad_assertion : AssertionError → StepError
  bad_locator : LocatorError → StepError
  bad_help : HelpError → StepError

-- The reasons that `validate` gives; steps and final assertions are counted from 1.
pub data FlowError : Type 0 where
  blank_name no_steps : FlowError
  bad_step : ℕ → StepError → FlowError
  bad_final_assertion : ℕ → AssertionError → FlowError

-- `refs == selectors`
abbrev pub is_ambiguous : HelpTarget → Bool
is_ambiguous t =
    is_given t.ref && is_given t.selector || not (is_given t.ref) && not (is_given t.selector)

unfoldable pub check_help_targets : List HelpTarget → Option HelpError
check_help_targets [] = none
check_help_targets (t ∷ ts) =
    let rest = check_help_targets ts in if is_ambiguous t then some needs_ref_or_selector else rest

-- `validate_request_help`; `none` is `Ok`.
unfoldable pub validate_request_help : FlowRequestHelpStep → Option HelpError
validate_request_help s =
    if is_blank s.prompt
    then some needs_prompt
    else if is_zero s.timeout_ms
    then some zero_help_timeout
    else check_help_targets (get_or s.targets [])

-- The target that a step names itself.
abbrev pub target_of : FlowStep → Option Locator
target_of (click s) = some s.target
target_of (fill s) = some s.target
target_of (press s) = s.target
target_of (choose s) = some s.target
target_of (wait_for s) = some s.target
target_of _ = none

abbrev pub check_own_target : Option Locator → Option StepError
check_own_target none = none
check_own_target (some l) = map_error bad_locator (validate_locator l)

-- The body of the loop over the steps.
unfoldable pub validate_step : FlowStep → Option StepError
validate_step (check a) = map_error bad_assertion (validate_assertion a)
validate_step (request_help s) = map_error bad_help (validate_request_help s)
validate_step s = check_own_target (target_of s)

-- `for (index, step) in self.steps.iter().enumerate()`
unfoldable pub validate_steps : ℕ → List FlowStep → Option FlowError
validate_steps i [] = none
validate_steps i (s ∷ ss) =
    let rest = validate_steps (suc i) ss in
    elim (validate_step s) [ some e ↦ some (bad_step (suc i) e) | none ↦ rest ]

unfoldable pub validate_finals : ℕ → List AssertionSpec → Option FlowError
validate_finals i [] = none
validate_finals i (a ∷ bs) =
    let rest = validate_finals (suc i) bs in
    elim (validate_assertion a) [ some e ↦ some (bad_final_assertion (suc i) e) | none ↦ rest ]

abbrev pub has_none : List FlowStep → Bool
has_none [] = true
has_none (s ∷ ss) = false

-- `FlowDefinition::validate`; `none` is `Ok`.
unfoldable pub validate : FlowDefinition → Option FlowError
validate f =
    if is_blank f.name
    then some blank_name
    else if has_none f.steps
    then some no_steps
    else elim (validate_steps 0 f.steps) [ some e ↦ some e | none ↦ validate_finals 0 f.assertions ]
