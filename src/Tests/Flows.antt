-- ===== src/Tests/Flows.antt =====
-- The theorems on flows at concrete inputs.
use tab_stride.Text.{codes, all_digits, parse_u64, parse_digits, bytes_eq}
use tab_stride.Text.Trim.{trim, trim_start, trim_end, is_blank, is_whitespace}
use tab_stride.Text.Pairs.{split_pair}
use tab_stride.Text.Suffix.{strip_suffix}
use tab_stride.Protocol.Error.{ok}
use tab_stride.Protocol.Locator.{
  Text, Locator, count_true, validate as validate_locator, needs_one_strategy,
}
use tab_stride.Protocol.Flow.{FlowStep, FlowDefinition, click, request_help, wait_ms}
use tab_stride.Protocol.Flow.Validate.{
  validate, validate_step, validate_steps, validate_finals, validate_request_help,
  check_help_targets, bad_step, bad_locator,
}
use tab_stride.Daemon.Abort.{AbortRegistry, empty, register, is_cancelled}
use tab_stride.Daemon.Flow.Steps.{HelpOutcome, continued, called_off}
use tab_stride.Daemon.Flow.Timeout.{parse_flow_timeout, split_unit}
use tab_stride.Daemon.Flow.Template.{
  expand_string, expand_on, variable, out_of_fuel, expand_string-Ends,
}
use tab_stride.Daemon.Flow.Rendered.{meaning, expand_string-rendered}
use tab_stride.Daemon.Flow.Tree.{Tree, text, array, stop, element, expand_value}
use tab_stride.Daemon.Flow.Begin.{
  FlowRunParams, flow_begin, accept_flow, accept_expanded, expand_variables, IsReady,
  flow_begin-IsReady, starts,
}
use tab_stride.Daemon.Flow.Run.{Round, answered, run_steps}
use tab_stride.Daemon.Flow.Run.Order.{InOrder, run_steps-InOrder}
use tab_stride.Daemon.Flow.Run.Verdict.{code_of, verdict, code_of-run_steps}
use tab_stride.Tests.Samples.{Doc, docs, word, word_of}
use tab_stride.Prelude.{
  ◌==◌, if◌then◌else◌, ℕ, ◌*◌, ◌≡◌, refl, ◌≢◌, Bool, true, false, Option, none, some, List, [], ◌∷◌,
  str_eq,
}
use tab_stride.Map.{contains_key, insert, lookup}

abbrev by_selector : Text → Locator
by_selector t = record {
  ref = none;
  css = some t;
  role = none;
  name = none;
  label = none;
  placeholder = none;
  text = none;
  test_id = none;
  exact = none;
}

abbrev click_on : Text → FlowStep
click_on t =
    click (record { target = by_selector t; tab_id = none; timeout_ms = none; page_update = none })

abbrev ask : FlowStep
ask =
    request_help (record {
      prompt = codes "?";
      title = none;
      targets = none;
      tab_id = none;
      timeout_ms = none;
    })

abbrev pause : FlowStep
pause = wait_ms (record { duration_ms = 5 })

abbrev flow_steps : List FlowStep
flow_steps = click_on (codes "a") ∷ ask ∷ pause ∷ []

-- A help request answers with the word of its outcome.
abbrev outcome_word : Doc → Option HelpOutcome
outcome_word d = elim (word_of d) [
  | none ↦ none
  | some w ↦ if str_eq w "continued" then some continued else some called_off
]

abbrev is_null_word : Doc → Bool
is_null_word d = elim (word_of d) [ none ↦ false | some w ↦ str_eq w "null" ]

-- The second step is called off by the user.
abbrev flow_rounds : ℕ → Round Doc
flow_rounds i = record {
  is_cancelled = false;
  elapsed = i * 100;
  ending = answered (ok (word (if i == 1 then "cancelled" else "done")));
  duration_us = 7;
  duration_ms = 1;
  now = 50;
}

run_steps-InOrder_example :
    InOrder 0 flow_steps []
      (run_steps docs (word "null") is_null_word outcome_word 30000 flow_rounds 0 flow_steps [])
run_steps-InOrder_example =
    run_steps-InOrder docs (word "null") is_null_word outcome_word 30000 flow_rounds 0 flow_steps []

code_of-run_steps_example :
    code_of
      (run_steps docs (word "null") is_null_word outcome_word 30000 flow_rounds 0 flow_steps []).0
    ≡ verdict docs (word "null") is_null_word outcome_word 30000 flow_rounds 0 flow_steps
code_of-run_steps_example =
    code_of-run_steps docs (word "null") is_null_word outcome_word 30000 flow_rounds 0 flow_steps []

abbrev demo_flow : FlowDefinition
demo_flow = record {
  name = codes "demo";
  timeout = some (codes "2s");
  steps = flow_steps;
  assertions = [];
}

-- A codec that carries the name of the flow.
abbrev write_flow : FlowDefinition → Tree
write_flow f = text f.name

abbrev read_flow : Tree → Option FlowDefinition
read_flow (text t) = some (record demo_flow { name = t })
read_flow _ = none

abbrev demo_params : FlowRunParams
demo_params = record { session_id = codes "s1"; flow = demo_flow; variables = [] }

abbrev demo_tokens : AbortRegistry
demo_tokens = record { tokens = ("r1", 0) ∷ []; flags = false ∷ [] }

demo_begins :
    flow_begin write_flow read_flow empty "r1" (some demo_params)
    ≡ (demo_tokens, starts (record { rpc_id = "r1"; token = 0 }) 2000 flow_steps)
unfolding flow_begin accept_flow accept_expanded expand_variables expand_value expand_string
    expand_on split_pair validate validate_step validate_steps validate_finals validate_request_help
    check_help_targets validate_locator count_true is_blank trim trim_start trim_end is_whitespace
    parse_flow_timeout split_unit strip_suffix parse_u64 parse_digits bytes_eq register insert
    lookup
demo_begins = refl

flow_begin-IsReady_example :
    IsReady 2000 flow_steps
    × (contains_key "r1" empty.tokens ≡ false)
    × (lookup "r1" demo_tokens.tokens ≡ some 0)
    × (is_cancelled demo_tokens 0 ≡ false)
flow_begin-IsReady_example =
    flow_begin-IsReady write_flow read_flow empty demo_tokens "r1" (some demo_params)
      (record { rpc_id = "r1"; token = 0 }) 2000 flow_steps demo_begins

abbrev greeting : List (Text × Text)
greeting = (codes "hi ", codes " who ") ∷ []

abbrev people : List (Text × Text)
people = (codes "who", codes "ann") ∷ []

expand_string-rendered_example :
    expand_string (codes "hi {{ who }}!") people ≡ meaning people greeting (codes "!")
expand_string-rendered_example = expand_string-rendered greeting (codes "!") people refl

expand_string-Ends_example : expand_string (codes "hi {{ who }}!") people ≢ out_of_fuel
expand_string-Ends_example = expand_string-Ends (codes "hi {{ who }}!") people

array_expands :
    expand_value people (array (element (text (codes "{{who}}")) stop))
    ≡ some (array (element (text (codes "ann")) stop))
unfolding expand_value expand_string expand_on split_pair variable trim trim_start trim_end
    is_whitespace bytes_eq
array_expands = refl

two_digits : all_digits (codes "2") ≡ true
unfolding all_digits
two_digits = refl

abbrev one_bad : List FlowStep
one_bad = pause ∷ click_on (codes " ") ∷ []

one_is_bad : validate_steps 0 one_bad ≡ some (bad_step 2 (bad_locator needs_one_strategy))
unfolding validate_steps validate_step validate_locator count_true is_blank trim trim_start trim_end
    is_whitespace
one_is_bad = refl
