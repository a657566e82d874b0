-- ===== src/Cli/SessionStart.antt =====
-- `session start` of crates/tabstride-cli/src/cli/session.rs: `run_start` and its output. Texts of
-- errors are left out, and the output for people is the list of what its lines show.
pub mod Reported
use tab_stride.Protocol.Error.{ErrorCode, unsupported, RpcError, plain}
use tab_stride.Daemon.Sessions.{SessionMode, isolated, attach}
use tab_stride.Cli.StartArgs.{
  CliSessionMode, CliTabTarget, SessionStartArgs, StartArgs, accepted, needs_attach, needs_tab,
  validate_start_args,
}
use tab_stride.Protocol.Locator.{Text}
use tab_stride.Prelude.{
  ℕ, ℤ, ◌⊎◌, inl, inr, String, if◌then◌else◌, Bool, true, not, ◌&&◌, Option, none, some, List, [],
  ◌∷◌, is_some, ◌++◌,
}

-- `SessionMode::from`
abbrev pub mode_of : CliSessionMode → SessionMode
mode_of CliSessionMode.isolated = SessionMode.isolated
mode_of CliSessionMode.attach = SessionMode.attach

pub data Format : Type 0 where
  human json : Format

pub record StartParams : Type 0 where
  pub browser_instance_id : Option Text
  pub mode : SessionMode
  pub tab : Option String
  pub tab_id : Option ℤ
  pub snapshot : Bool

pub record StartReply (V : Type 0) : Type 0 where
  pub session_id : String
  pub browser_instance_id : String
  pub agent_window_id : Option ℤ
  pub attached_tab_id : Option ℤ
  pub url : Option String
  pub title : Option String
  pub document_version : Option ℕ
  pub snapshot_text : Option String
  pub snapshot_ref_count : ℕ
  pub snapshot_truncated : Bool
  pub snapshot_available : Option Bool
  pub snapshot_error : Option (RpcError V)

-- A member of the JSON output.
pub data Field (V : Type 0) : Type 0 where
  null : Field V
  text : String → Field V
  int : ℤ → Field V
  nat : ℕ → Field V
  flag : Bool → Field V
  mode : SessionMode → Field V
  failure : RpcError V → Field V

-- What a line of the output for people shows.
pub data Line (V : Type 0) : Type 0 where
  session_line url_line title_line snapshot_lines : String → Line V
  snapshot_heading unavailable_line : Line V
  error_line : RpcError V → Line V
  retry_hint : String → Line V

pub data CliError (V : Type 0) : Type 0 where
  local_error : CliError V
  rpc : RpcError V → CliError V
  rendered : ErrorCode → CliError V

pub data Output (V : Type 0) : Type 0 where
  as_json : List (String × Field V) → Output V
  as_text : List (Line V) → Output V

module _ {V : Type 0} where
  unfoldable pub start_reply_matches_mode : SessionMode → StartReply V → Bool
  start_reply_matches_mode isolated reply =
      is_some reply.agent_window_id && not (is_some reply.attached_tab_id)
  start_reply_matches_mode attach reply =
      not (is_some reply.agent_window_id) && is_some reply.attached_tab_id

  unfoldable pub snapshot_is_available : StartReply V → Bool
  snapshot_is_available reply = elim reply.snapshot_available [
    | none ↦ is_some reply.snapshot_text
    | some b ↦ b
  ]

  abbrev pub or_unsupported : Option (RpcError V) → RpcError V
  or_unsupported none = plain unsupported
  or_unsupported (some e) = e

  unfoldable pub snapshot_failure : StartReply V → Option (RpcError V)
  unfolding snapshot_is_available
  snapshot_failure reply =
      if snapshot_is_available reply then none else some (or_unsupported reply.snapshot_error)

  -- An optional member, which is null or left out where there is nothing.
  abbrev pub nullable : {A : Type 0} → (A → Field V) → Option A → Field V
  nullable f none = null
  nullable f (some a) = f a

  abbrev pub member : {A : Type 0} → String → (A → Field V) → Option A → List (String × Field V)
  member key f none = []
  member key f (some a) = (key, f a) ∷ []

  -- The members that follow the text of the snapshot.
  abbrev pub counts : StartReply V → List (String × Field V)
  counts reply =
      ("snapshot_ref_count", nat reply.snapshot_ref_count)
      ∷ ("snapshot_truncated", flag reply.snapshot_truncated)
      ∷ member "snapshot_error" failure (snapshot_failure reply)

  abbrev pub from_version : StartReply V → List (String × Field V)
  from_version reply =
      member "document_version" nat reply.document_version
      ++ (member "snapshot_text" text reply.snapshot_text ++ counts reply)

  abbrev pub snapshot_members : StartReply V → List (String × Field V)
  snapshot_members reply =
      ("snapshot_requested", flag true)
      ∷ ("snapshot_available", flag (snapshot_is_available reply))
      ∷ (member "url" text reply.url ++ (member "title" text reply.title ++ from_version reply))

  unfoldable pub start_json : StartReply V → SessionMode → Bool → List (String × Field V)
  unfolding snapshot_is_available snapshot_failure
  start_json reply m snapshot_requested =
      ("session_id", text reply.session_id)
      ∷ ("browser_instance_id", text reply.browser_instance_id)
      ∷ ("agent_window_id", nullable int reply.agent_window_id)
      ∷ ("attached_tab_id", nullable int reply.attached_tab_id)
      ∷ ("mode", mode m)
      ∷ (if snapshot_requested then snapshot_members reply else [])

  abbrev pub line : (String → Line V) → Option String → List (Line V)
  line f none = []
  line f (some s) = f s ∷ []

  abbrev pub failure_lines : StartReply V → Option (RpcError V) → List (Line V)
  failure_lines reply none = []
  failure_lines reply (some e) = unavailable_line ∷ error_line e ∷ retry_hint reply.session_id ∷ []

  abbrev pub snapshot_part : StartReply V → List (Line V)
  snapshot_part reply =
      line url_line reply.url
      ++ line title_line reply.title
      ++ (if snapshot_is_available reply
          then snapshot_heading ∷ line snapshot_lines reply.snapshot_text
          else failure_lines reply (snapshot_failure reply))

  unfoldable pub render_start_human : StartReply V → Bool → List (Line V)
  unfolding snapshot_is_available snapshot_failure
  render_start_human reply snapshot_requested =
      session_line reply.session_id ∷ (if snapshot_requested then snapshot_part reply else [])

  abbrev pub shown : Format → StartReply V → SessionMode → Bool → Output V
  shown json reply m snapshot_requested = as_json (start_json reply m snapshot_requested)
  shown human reply m snapshot_requested = as_text (render_start_human reply snapshot_requested)

  -- An error that the daemon answered is printed at once for people.
  abbrev pub handle_start_error : CliError V → Format → CliError V
  handle_start_error err json = err
  handle_start_error (rpc e) human = rendered e.code
  handle_start_error local_error human = local_error
  handle_start_error (rendered c) human = rendered c

-- A request to the daemon.
pub data Call : Type 0 where
  start_call : StartParams → Call
  stop_call : String → Call

pub data End (V : Type 0) : Type 0 where
  printed : Output V → End V
  ends_with : CliError V → End V

abbrev pub tab_word : Option CliTabTarget → Option String
tab_word none = none
tab_word (some target) = some "active"

abbrev pub params_of : SessionStartArgs → StartParams
params_of args = record {
  browser_instance_id = args.browser;
  mode = mode_of args.mode;
  tab = tab_word args.tab;
  tab_id = args.tab_id;
  snapshot = args.snapshot;
}

module _ {V : Type 0} where
  abbrev pub on_start : SessionStartArgs → Format → StartReply V ⊎ CliError V → List Call × End V
  on_start args format (inr err) =
      (start_call (params_of args) ∷ [], ends_with (handle_start_error err format))
  on_start args format (inl reply) =
      if start_reply_matches_mode (mode_of args.mode) reply
      then (
        start_call (params_of args) ∷ [],
        printed (shown format reply (mode_of args.mode) args.snapshot),
      )
      else (start_call (params_of args) ∷ stop_call reply.session_id ∷ [], ends_with local_error)

  -- The calls in order, and how the command ends; what the daemon replies to a start is an argument,
  -- and its reply to a stop is not looked at.
  unfoldable pub run_start :
      (StartParams → StartReply V ⊎ CliError V) → SessionStartArgs → Format → List Call × End V
  unfolding validate_start_args start_reply_matches_mode start_json render_start_human
  run_start daemon args format = elim (validate_start_args args) [
    | accepted ↦ on_start args format (daemon (params_of args))
    | needs_attach ↦ ([], ends_with local_error)
    | needs_tab ↦ ([], ends_with local_error)
  ]
