-- ===== src/Daemon/Flow/Run/Verdict.antt =====
-- Which code a flow ends with, read off the rounds.
use tab_stride.Json.{Json}
use tab_stride.Protocol.Error.{
  Body, ErrorCode, timeout, cancelled, user_aborted, protocol_error, ok, err, Body-cases,
}
use tab_stride.Protocol.Method.{Method}
use tab_stride.Protocol.Flow.{FlowStep}
use tab_stride.Daemon.Flow.Steps.{
  HelpOutcome, continued, called_off, timed_out, navigated, method_of, is_request_help,
  normalize_step_body, terminal_error_with_observed_data,
}
use tab_stride.Daemon.Flow.Run.{
  Round, Ending, Outcome, answered, stopped, expired, succeeded, failed, run_steps, await_step,
  step_result,
}
use tab_stride.Prelude.{
  ltb, if◌then◌else◌, ℕ, suc, ◌≡◌, refl, Bool, Option, none, some, List, [], ◌∷◌, inl, inr, ◌++◌,
  arith,
}

abbrev pub help_code : Option HelpOutcome → Option ErrorCode
help_code none = some protocol_error
help_code (some continued) = none
help_code (some called_off) = some user_aborted
help_code (some timed_out) = some timeout
help_code (some navigated) = some cancelled

abbrev pub code_of : {V : Type 0} → Outcome V → Option ErrorCode
code_of (succeeded rs) = none
code_of (failed f) = some f.cause.code

module _ (j : Json) (null : j.Value) (is_null : j.Value → Bool)
    (outcome_of : j.Value → Option HelpOutcome) where
  open j use {Value}

  -- What the end of a step is to be blamed for.
  abbrev pub blame_of : Method → Ending Value → Option ErrorCode
  blame_of m (answered (ok v)) = if is_request_help m then help_code (outcome_of v) else none
  blame_of m (answered (err e)) = some e.code
  blame_of m (stopped o) = some cancelled
  blame_of m (expired o) = some timeout

  abbrev pub blame : ℕ → Method → Round Value → Option ErrorCode
  blame limit m r =
      if r.is_cancelled
      then some cancelled
      else if ltb limit r.elapsed
      then some timeout
      else blame_of m r.ending

  -- The blame of the first step that has one.
  abbrev pub verdict : ℕ → (ℕ → Round Value) → ℕ → List FlowStep → Option ErrorCode
  verdict limit rounds i [] = none
  verdict limit rounds i (s ∷ ss) =
      let rest = verdict limit rounds (suc i) ss in
      elim (blame limit (method_of s) (rounds i)) [ some c ↦ some c | none ↦ rest ]

  abbrev body_code : Body Value → Option ErrorCode
  body_code (ok v) = none
  body_code (err e) = some e.code

  body_code-normalize :
      (n : ℕ) (m : Method) (e : Ending Value)
      → body_code
          (normalize_step_body j outcome_of m (await_step j null is_null outcome_of n m e).0)
        ≡ blame_of m e
  unfolding normalize_step_body await_step terminal_error_with_observed_data
  body_code-normalize n m (answered (ok v)) = ground arith
  body_code-normalize n m (answered (err e)) = refl
  body_code-normalize n m (stopped o) = refl
  body_code-normalize n m (expired o) = refl

  -- A flow succeeds exactly if no step is to blame, and fails with the code of the first that is.
  pub code_of-run_steps :
      (limit : ℕ) (rounds : ℕ → Round Value) (i : ℕ) (ss : List FlowStep) (done : List _)
      → code_of (run_steps j null is_null outcome_of limit rounds i ss done).0
        ≡ verdict limit rounds i ss
  unfolding run_steps
  code_of-run_steps limit rounds i [] done = refl
  code_of-run_steps limit rounds i (s ∷ ss) done =
      let m = method_of s in
      let r = rounds i in
      let body =
        normalize_step_body j outcome_of m
          (await_step j null is_null outcome_of (suc i) m r.ending).0 in
      elim (Body-cases body) [
        | inl (v, e) ↦ ground (
          arith,
          body_code-normalize (suc i) m r.ending,
          code_of-run_steps limit rounds (suc i) ss
              (done ++ step_result j null is_null outcome_of (suc i) m r v ∷ []),
        )
        | inr (c, e) ↦ ground (arith, body_code-normalize (suc i) m r.ending)
      ]
