-- ===== src/Cli/SessionStop.antt =====
-- `session stop` of crates/tabstride-cli/src/cli/session.rs: `run_stop`. The printed texts are
-- left out: what is printed is the reply.
use tab_stride.Protocol.Error.{ErrorCode}
use tab_stride.Cli.SessionStart.{CliError, local_error, rendered}
use tab_stride.Prelude.{
  ℤ, ℤ, String, ◌⊎◌, inl, inr, if◌then◌else◌, Bool, not, ◌&&◌, Option, none, some, List, [], ◌∷◌,
  is_some, ◌≡◌, refl, Bool-cases,
}

pub record SessionStopArgs : Type 0 where
  pub session_id : Option String
  pub all : Bool

pub record StopParams : Type 0 where
  pub session_id : Option String
  pub all : Bool

pub record StopFailure : Type 0 where
  pub session_id : String
  pub code : ErrorCode

pub record ReturnFailure : Type 0 where
  pub tab_id : ℤ
  pub code : ErrorCode

pub record StopReply : Type 0 where
  pub stopped : List String
  pub failed : List StopFailure
  pub returned_tab_ids : List ℤ
  pub return_failures : List ReturnFailure

-- What was asked of the daemon, what was printed, and the error of the command.
pub record Stopped (V : Type 0) : Type 0 where
  pub asked : Option StopParams
  pub shown : Option StopReply
  pub error : Option (CliError V)

abbrev pub stop_params : SessionStopArgs → StopParams
stop_params args = record { session_id = args.session_id; all = args.all }

module _ {V : Type 0} where
  abbrev pub failure_of : List StopFailure → Option (CliError V)
  failure_of [] = none
  failure_of (first ∷ rest) = some (rendered first.code)

  abbrev pub on_reply : StopParams → StopReply ⊎ CliError V → Stopped V
  on_reply params (inl reply) = record {
    asked = some params;
    shown = some reply;
    error = failure_of reply.failed;
  }
  on_reply params (inr e) = record { asked = some params; shown = none; error = some e }

  -- `daemon` is what the call of `session.stop` gives.
  unfoldable pub run_stop : (StopParams → StopReply ⊎ CliError V) → SessionStopArgs → Stopped V
  run_stop daemon args =
      if not args.all && not (is_some args.session_id)
      then record { asked = none; shown = none; error = some local_error }
      else on_reply (stop_params args) (daemon (stop_params args))

  nothing_failed : (fs : List StopFailure) → failure_of fs ≡ none → fs ≡ []
  nothing_failed [] e = refl
  nothing_failed (f ∷ fs) e = absurd (cc)

  -- What a success comes with.
  abbrev pub IsDone : (StopParams → StopReply ⊎ CliError V) → StopParams → Stopped V → Type 0
  IsDone daemon params out =
      (reply : StopReply) × (out.asked ≡ some params)
      × (daemon params ≡ inl reply)
      × (reply.failed ≡ [])
      × (out.shown ≡ some reply)

  on_reply-IsDone :
      (daemon : StopParams → StopReply ⊎ CliError V) (params : StopParams)
      (answer : StopReply ⊎ CliError V)
      → daemon params ≡ answer
      → (on_reply params answer).error ≡ none
      → IsDone daemon params (on_reply params answer)
  on_reply-IsDone daemon params (inl reply) d e =
      (reply, refl, d, nothing_failed reply.failed e, refl)
  on_reply-IsDone daemon params (inr err) d e = absurd (cc)

  -- A command that succeeds has asked the daemon for what its arguments say, and printed a reply with
  -- no failure.
  pub run_stop-IsDone :
      (daemon : StopParams → StopReply ⊎ CliError V) (args : SessionStopArgs)
      → (run_stop daemon args).error ≡ none
      → IsDone daemon (stop_params args) (run_stop daemon args)
  unfolding run_stop
  run_stop-IsDone daemon args e =
      elim (Bool-cases (not args.all && not (is_some args.session_id))) [
        | inl y ↦
            let no : (run_stop daemon args).error ≡ some local_error = rw y refl in absurd (cc)
        | inr n ↦
            rw n (
              on_reply-IsDone daemon (stop_params args) (daemon (stop_params args)) refl
                (rw n at e))
      ]
