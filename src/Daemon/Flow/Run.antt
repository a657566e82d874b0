-- ===== src/Daemon/Flow/Run.antt =====
-- The loop of `handle_flow_run` in crates/tabstride-cli/src/daemon/flow_runtime.rs. What the clock,
-- the cancellation token and the step's dispatch do is given to each step as a `Round`.
pub mod Order
pub mod Verdict
use tab_stride.Json.{Json}
use tab_stride.Protocol.Error.{Body, RpcError, ErrorCode, timeout, cancelled, plain, ok, err}
use tab_stride.Protocol.Method.{Method}
use tab_stride.Protocol.Flow.{FlowStep}
use tab_stride.Daemon.Flow.Steps.{
  HelpOutcome, StepTiming, method_of, is_local, keep_timed, normalize_step_body,
  terminal_error_with_observed_data, take_step_timing,
}
use tab_stride.Prelude.{
  ltb, if◌then◌else◌, get_or, ℕ, suc, Bool, Option, none, some, List, [], ◌∷◌, ◌++◌,
}

-- Which branch of `select!` ends a step. The token or the total timeout stops the wait for the
-- answer, which may still be observed in the two seconds after.
pub data Ending (V : Type 0) : Type 0 where
  answered : Body V → Ending V
  stopped expired : Option (Body V) → Ending V

-- What one step meets: the token and the elapsed time when it begins, its end, and the times that
-- are read for its result.
pub record Round (V : Type 0) : Type 0 where
  pub is_cancelled : Bool
  pub elapsed : ℕ
  pub ending : Ending V
  pub duration_us : ℕ
  pub duration_ms : ℕ
  pub now : ℕ

pub record FlowStepResult (V : Type 0) : Type 0 where
  pub index : ℕ
  pub method : Method
  pub duration_ms : ℕ
  pub timing : Option StepTiming
  pub output : V

-- `FlowFailureData` without the name and the duration of the flow, which the answer adds.
pub record FlowFailure (V : Type 0) : Type 0 where
  pub failed_step : ℕ
  pub failed_method : Method
  pub completed_steps : List (FlowStepResult V)
  pub failed_step_result : Option (FlowStepResult V)
  pub cause : RpcError V

pub data Outcome (V : Type 0) : Type 0 where
  succeeded : List (FlowStepResult V) → Outcome V
  failed : FlowFailure V → Outcome V

-- What the loop does to the daemon: it dispatches a step under its child id, or cancels that id.
pub data Effect : Type 0 where
  dispatches : ℕ → Method → Effect
  cancels : ℕ → Effect

-- `null` is `Value::Null`.
module _ (j : Json) (null : j.Value) (is_null : j.Value → Bool)
    (outcome_of : j.Value → Option HelpOutcome) where
  open j use {Value}

  -- The `select!` of a step, and what it sends.
  unfoldable pub await_step : ℕ → Method → Ending Value → Body Value × List Effect
  unfolding terminal_error_with_observed_data
  await_step n m (answered body) = (body, dispatches n m ∷ [])
  await_step n m (stopped observed) =
      (terminal_error_with_observed_data j cancelled observed, dispatches n m ∷ cancels n ∷ [])
  await_step n m (expired observed) =
      (terminal_error_with_observed_data j timeout observed, dispatches n m ∷ cancels n ∷ [])

  -- The result of a step that succeeded.
  unfoldable pub step_result : ℕ → Method → Round Value → Value → FlowStepResult Value
  unfolding take_step_timing
  step_result n m r v =
      let (output, t, trace) = take_step_timing j v (is_local m) r.duration_us r.now in
      record {
        index = n;
        method = m;
        duration_ms = r.duration_ms;
        timing = keep_timed t;
        output = output;
      }

  -- The result of a step that failed, over the data of its error.
  unfoldable pub failed_result : ℕ → Method → Round Value → Value → FlowStepResult Value
  unfolding take_step_timing
  failed_result n m r v =
      let (output, t, trace) = take_step_timing j v (is_local m) r.duration_us r.now in
      record { index = n; method = m; duration_ms = r.duration_ms; timing = t; output = output }

  -- The cause of a failure loses its data where nothing but a trace was there.
  abbrev pub cause_with : ErrorCode → Value → RpcError Value
  cause_with c output = record { code = c; details = if is_null output then none else some output }

  abbrev pub early_failure :
      ℕ → Method → List (FlowStepResult Value) → ErrorCode → FlowFailure Value
  early_failure n m done c = record {
    failed_step = n;
    failed_method = m;
    completed_steps = done;
    failed_step_result = none;
    cause = plain c;
  }

  abbrev pub late_failure :
      ℕ
      → Method
      → List (FlowStepResult Value)
      → FlowStepResult Value
      → ErrorCode
      → FlowFailure Value
  late_failure n m done result c = record {
    failed_step = n;
    failed_method = m;
    completed_steps = done;
    failed_step_result = some result;
    cause = cause_with c result.output;
  }

  -- `for (index, step) in steps.into_iter().enumerate()`, with the steps that are done so far.
  unfoldable pub run_steps :
      ℕ
      → (ℕ → Round Value)
      → ℕ
      → List FlowStep
      → List (FlowStepResult Value)
      → Outcome Value × List Effect
  unfolding await_step step_result failed_result normalize_step_body method_of
  run_steps limit rounds i [] done = (succeeded done, [])
  run_steps limit rounds i (s ∷ ss) done =
      let r = rounds i in
      let m = method_of s in
      let n = suc i in
      let (body, sent) = await_step n m r.ending in
      if r.is_cancelled
      then (failed (early_failure n m done cancelled), [])
      else if ltb limit r.elapsed
      then (failed (early_failure n m done timeout), [])
      else elim (normalize_step_body j outcome_of m body) [
        | err cause ↦ (
          failed
              (late_failure n m done (failed_result n m r (get_or cause.details null)) cause.code),
          sent,
        )
        | ok v ↦
            let (outcome, later) = run_steps limit rounds n ss (done ++ step_result n m r v ∷ []) in
            (outcome, sent ++ later)
      ]
