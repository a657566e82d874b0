-- ===== src/Daemon/Flow/Begin.antt =====
-- `handle_flow_run` of crates/tabstride-cli/src/daemon/flow_runtime.rs up to its loop, and its end.
use tab_stride.Protocol.Error.{ErrorCode, invalid_params, protocol_error, Body}
use tab_stride.Protocol.Locator.{Text}
use tab_stride.Text.Trim.{is_blank}
use tab_stride.Protocol.Flow.{FlowDefinition, FlowStep, check}
use tab_stride.Protocol.Flow.Validate.{validate, has_none}
use tab_stride.Protocol.Flow.Accepted.{all_sound, steps_of, all_sound-validate}
use tab_stride.Protocol.Error.{ok, err}
use tab_stride.Daemon.Flow.Run.{succeeded, failed, FlowStepResult, FlowFailure, Outcome}
use tab_stride.Daemon.Abort.{unregister}
use tab_stride.Daemon.Abort.{AbortRegistry, AbortGuard, register, is_cancelled}
use tab_stride.Daemon.Flow.Timeout.{parse_flow_timeout, parse_flow_timeout-bounds}
use tab_stride.Daemon.Flow.Tree.{Tree, expand_value}
use tab_stride.Prelude.{
  if◌then◌else◌, Option-cases, ◌>>=◌, is_some, ℕ, ◌≤◌, String, ◌≡◌, inl, inr, true, false, Option,
  none, some, List, arith, Bool-cases, refl, [], ◌∷◌, ◌++◌, map,
}
use tab_stride.Map.{contains_key, lookup}
use tab_stride.Daemon.Abort.Tokens.{Registered-register}

pub record FlowRunParams : Type 0 where
  pub session_id : Text
  pub flow : FlowDefinition
  pub variables : List (Text × Text)

-- A flow is refused before its first step, or its loop starts with a guard and a total timeout.
pub data Prepared : Type 0 where
  refuses : ErrorCode → Prepared
  starts : AbortGuard → ℕ → List FlowStep → Prepared

abbrev pub start_with :
    ℕ → List FlowStep → AbortRegistry × Option AbortGuard → AbortRegistry × Prepared
start_with limit steps (r, none) = (r, refuses protocol_error)
start_with limit steps (r, some guard) = (r, starts guard limit steps)

-- The checks of an expanded flow, with its timeout and the steps that are run.
unfoldable pub accept_expanded : FlowDefinition → Option (ℕ × List FlowStep)
unfolding validate parse_flow_timeout
accept_expanded flow =
    if is_some (validate flow) then none else elim (parse_flow_timeout flow.timeout) [
      | none ↦ none
      | some limit ↦ some (limit, steps_of flow)
    ]

has_none-append : (xs ys : List FlowStep) → has_none xs ≡ false → has_none (xs ++ ys) ≡ false
has_none-append [] ys h = absurd (ground arith)
has_none-append (x ∷ xs) ys h = refl

abbrev pub IsReady : ℕ → List FlowStep → Type 0
IsReady limit steps =
    (has_none steps ≡ false) × (all_sound steps ≡ true) × (1 ≤ limit) × (limit ≤ 600000)

accept_expanded-IsReady :
    (f : FlowDefinition) (limit : ℕ) (steps : List FlowStep)
    → accept_expanded f ≡ some (limit, steps)
    → IsReady limit steps
unfolding accept_expanded
accept_expanded-IsReady f limit steps h = elim (Option-cases (validate f)) [
  | inr (d, k) ↦ absurd (ground arith)
  | inl k ↦ elim (Option-cases (parse_flow_timeout f.timeout)) [
    | inl t ↦ absurd (ground arith)
    | inr (ms, t) ↦
        let (some_step, sound) = all_sound-validate f k in
        let (low, high) = parse_flow_timeout-bounds f.timeout ms t in
        let more = has_none-append f.steps (map check f.assertions) some_step in
        (ground arith, ground arith, ground arith, ground arith)
  ]
]

-- The codec of `FlowDefinition` is derived.
module _ (encode_flow : FlowDefinition → Tree) (decode_flow : Tree → Option FlowDefinition) where
  unfoldable pub expand_variables : FlowDefinition → List (Text × Text) → Option FlowDefinition
  unfolding expand_value
  expand_variables flow variables = do
    value ← expand_value variables (encode_flow flow)
    decode_flow value

  -- The flow that is run with its total timeout, if it is accepted.
  unfoldable pub accept_flow : FlowRunParams → Option (ℕ × List FlowStep)
  unfolding accept_expanded
  accept_flow p =
      if is_blank p.session_id
      then none
      else (expand_variables p.flow p.variables >>= accept_expanded)

  -- `none` are parameters that serde cannot read.
  unfoldable pub flow_begin :
      AbortRegistry → String → Option FlowRunParams → AbortRegistry × Prepared
  unfolding accept_flow register
  flow_begin r rpc_id params = elim (params >>= accept_flow) [
    | none ↦ (r, refuses invalid_params)
    | some (limit, steps) ↦ start_with limit steps (register r rpc_id)
  ]

  accept_flow-IsReady :
      (p : Option FlowRunParams) (limit : ℕ) (steps : List FlowStep)
      → (p >>= accept_flow) ≡ some (limit, steps)
      → IsReady limit steps
  unfolding accept_flow
  accept_flow-IsReady none limit steps h = absurd (ground arith)
  accept_flow-IsReady (some p) limit steps h =
      elim (Option-cases (expand_variables p.flow p.variables)) [
        | inl e ↦ absurd (ground arith)
        | inr (f, e) ↦ accept_expanded-IsReady f limit steps (ground arith)
      ]

  -- A flow whose loop starts has at least one step, only sound ones, a total timeout between one
  -- millisecond and ten minutes, and a token of its own: the id was free, is registered now, and
  -- the token is not tripped.
  pub flow_begin-IsReady :
      (r r' : AbortRegistry) (rpc_id : String) (p : Option FlowRunParams) (g : AbortGuard)
      (limit : ℕ) (steps : List FlowStep)
      → flow_begin r rpc_id p ≡ (r', starts g limit steps)
      → IsReady limit steps
        × (contains_key rpc_id r.tokens ≡ false)
        × (lookup rpc_id r'.tokens ≡ some g.token)
        × (is_cancelled r' g.token ≡ false)
  unfolding flow_begin
  flow_begin-IsReady r r' rpc_id p g limit steps h = elim (Option-cases (p >>= accept_flow)) [
    | inl e ↦ absurd (ground arith)
    | inr (a, e) ↦ elim (Option-cases (register r rpc_id).1) [
      | inl n ↦ absurd (ground arith)
      | inr (k, n) ↦
          let fresh = Registered-register r (register r rpc_id).0 rpc_id k (ground arith) in
          (
            accept_flow-IsReady p limit steps (ground arith),
            ground arith,
            ground arith,
            ground arith,
          )
    ]
  ]

  -- A refusal leaves the tokens as they were; it is `protocol_error` exactly for an acceptable flow
  -- whose id is taken, and `invalid_params` for one that is not acceptable.
  pub flow_begin-Unchanged :
      (r r' : AbortRegistry) (rpc_id : String) (p : Option FlowRunParams) (c : ErrorCode)
      → flow_begin r rpc_id p ≡ (r', refuses c)
      → (r' ≡ r) × (c ≡ (if is_some (p >>= accept_flow) then protocol_error else invalid_params))
  unfolding flow_begin register
  flow_begin-Unchanged r r' rpc_id p c h = elim (Option-cases (p >>= accept_flow)) [
    | inl e ↦ (ground arith, ground arith)
    | inr (a, e) ↦ elim (Bool-cases (contains_key rpc_id r.tokens)) [
      | inl y ↦ (ground arith, ground arith)
      | inr n ↦ absurd (ground arith)
    ]
  ]

-- The end of `handle_flow_run`: the guard is dropped, and the answer has the code of the cause. The
-- name and the duration of the flow come in with the derived codecs.
module _ {V : Type 0} (encode_result : List (FlowStepResult V) → V)
    (encode_failure : FlowFailure V → Option V) where
  abbrev pub answer_of : Outcome V → Body V
  answer_of (succeeded done) = ok (encode_result done)
  answer_of (failed f) = err (record { code = f.cause.code; details = encode_failure f })

  unfoldable pub flow_finish : AbortRegistry → AbortGuard → Outcome V → AbortRegistry × Body V
  unfolding unregister
  flow_finish r guard outcome = (unregister r guard, answer_of outcome)
