-- ===== src/Daemon/Flow/Steps.antt =====
-- How the answer to one step is read: `normalize_step_body`, `terminal_error_with_observed_data`
-- and `take_step_timing` of crates/tabstride-cli/src/daemon/flow_runtime.rs, with the result types
-- of crates/tabstride-protocol/src/flow.rs.
use tab_stride.Json.{Json}
use tab_stride.Protocol.Error.{
  Body, ErrorCode, protocol_error, user_aborted, timeout, cancelled, err,
}
use tab_stride.Protocol.Error.{ok, err}
use tab_stride.Protocol.Method.{
  Method, tool_navigate, tool_click, tool_fill, tool_press, tool_select, tool_assert,
  tool_request_help, tool_snapshot, tool_wait_ms,
}
use tab_stride.Protocol.Flow.{
  FlowStep, navigate, click, fill, press, choose, wait_for, request_help, check, snapshot, wait_ms,
}
use tab_stride.Timing.{
  TimingTrace, queue_wait_us, websocket_us, websocket_roundtrip_us, extension_dispatch_us,
  extension_non_cdp_us, cdp_total_us, cdp_span_us,
}
use tab_stride.Timing.Carrier.{take_trace}
use tab_stride.Prelude.{if◌then◌else◌, is_some, ℕ, Bool, true, false, not, ◌||◌, Option, none, some}

-- `FlowStepExt::method`
unfoldable pub method_of : FlowStep → Method
method_of (navigate s) = tool_navigate
method_of (click s) = tool_click
method_of (fill s) = tool_fill
method_of (press s) = tool_press
method_of (choose s) = tool_select
method_of (wait_for s) = tool_assert
method_of (request_help s) = tool_request_help
method_of (check a) = tool_assert
method_of (snapshot s) = tool_snapshot
method_of (wait_ms s) = tool_wait_ms

abbrev pub is_request_help : Method → Bool
is_request_help tool_request_help = true
is_request_help _ = false

-- `method == Method::ToolWaitMs`
abbrev pub is_local : Method → Bool
is_local tool_wait_ms = true
is_local _ = false

-- (`HelpOutcome::Cancelled` is `called_off`.)
pub data HelpOutcome : Type 0 where
  continued called_off timed_out navigated : HelpOutcome

pub record StepTiming : Type 0 where
  pub local_us : Option ℕ
  pub queue_us : Option ℕ
  pub websocket_us : Option ℕ
  pub websocket_roundtrip_us : Option ℕ
  pub extension_us : Option ℕ
  pub extension_non_cdp_us : Option ℕ
  pub cdp_us : Option ℕ
  pub cdp_span_us : Option ℕ

-- `StepTiming::default()`
abbrev pub no_step_timing : StepTiming
no_step_timing = record {
  local_us = none;
  queue_us = none;
  websocket_us = none;
  websocket_roundtrip_us = none;
  extension_us = none;
  extension_non_cdp_us = none;
  cdp_us = none;
  cdp_span_us = none;
}

-- `StepTiming::is_empty`
abbrev pub is_untimed : StepTiming → Bool
is_untimed t = not (
    is_some t.local_us
    || is_some t.queue_us
    || is_some t.websocket_us
    || is_some t.websocket_roundtrip_us
    || is_some t.extension_us
    || is_some t.extension_non_cdp_us
    || is_some t.cdp_us
    || is_some t.cdp_span_us)

-- `filter(|t| !t.is_empty())`
abbrev pub keep_timed : Option StepTiming → Option StepTiming
keep_timed none = none
keep_timed (some t) = if is_untimed t then none else some t

-- What `take_step_timing` reads from a trace.
unfoldable pub step_timing : TimingTrace → StepTiming
step_timing t = record no_step_timing {
  queue_us = queue_wait_us t;
  websocket_us = websocket_us t;
  websocket_roundtrip_us = websocket_roundtrip_us t;
  extension_us = extension_dispatch_us t;
  extension_non_cdp_us = extension_non_cdp_us t;
  cdp_us = cdp_total_us t;
  cdp_span_us = cdp_span_us t;
}

module _ (j : Json) where
  open j use {Value}

  -- `outcome_of` reads a `RequestHelpResult`, if the value is one.
  unfoldable pub normalize_step_body :
      (Value → Option HelpOutcome) → Method → Body Value → Body Value
  normalize_step_body outcome_of method (err e) = err e
  normalize_step_body outcome_of method (ok output) =
      if is_request_help method
      then elim (outcome_of output) [
        | none ↦ err (record { code = protocol_error; details = some output })
        | some continued ↦ ok output
        | some called_off ↦ err (record { code = user_aborted; details = some output })
        | some timed_out ↦ err (record { code = timeout; details = some output })
        | some navigated ↦ err (record { code = cancelled; details = some output })
      ]
      else ok output

  -- The data of a late answer, whether it is a result or an error.
  abbrev pub observed_data : Option (Body Value) → Option Value
  observed_data none = none
  observed_data (some (ok v)) = some v
  observed_data (some (err e)) = e.details

  unfoldable pub terminal_error_with_observed_data : ErrorCode → Option (Body Value) → Body Value
  terminal_error_with_observed_data code observed =
      err (record { code = code; details = observed_data observed })

  abbrev pub local_timing : ℕ → StepTiming
  local_timing duration_us = record no_step_timing { local_us = some duration_us }

  -- The trace is stamped at `now` before it is read.
  abbrev pub read_trace :
      ℕ → ℕ → Value × Option TimingTrace → Value × Option StepTiming × Option TimingTrace
  read_trace duration_us now (rest, none) = (rest, some (local_timing duration_us), none)
  read_trace duration_us now (rest, some t) =
      let stamped = record t { serve_replied_at = some now } in
      (rest, keep_timed (some (step_timing stamped)), some stamped)

  -- The output without its trace, the timing of the step, and the trace.
  unfoldable pub take_step_timing :
      Value → Bool → ℕ → ℕ → Value × Option StepTiming × Option TimingTrace
  unfolding take_trace step_timing
  take_step_timing output local duration_us now =
      if local
      then (output, some (local_timing duration_us), none)
      else read_trace duration_us now (take_trace j output)
