-- ===== src/Cli/SessionStart/Reported.antt =====
-- What becomes of a session that the daemon started, and what is said of its snapshot.
use tab_stride.Cli.StartArgs.{SessionStartArgs, accepted, validate_start_args}
use tab_stride.Prelude.{
  String, str_eq, Bool, true, false, not, ◌&&◌, ◌||◌, Option, none, some, List, [], ◌∷◌, ◌++◌, ◌≡◌,
  ◌⊎◌, inl, inr, refl, Bool-cases, ◌∙◌,
}
use tab_stride.Cli.SessionStart.{
  from_version, counts, text, nat, start_reply_matches_mode, mode_of, run_start, start_call,
  stop_call, printed, ends_with, local_error, shown, params_of, StartParams, CliError, Format,
  StartReply, Field, start_json, member, failure, snapshot_failure, snapshot_is_available,
}
use tab_stride.Daemon.Sessions.{SessionMode}

abbrev pub names : {V : Type 0} → String → List (String × Field V) → Bool
names key [] = false
names key ((k, f) ∷ rest) = str_eq key k || names key rest

abbrev error_key : String
error_key = "snapshot_error"

module _ {V : Type 0} where
  past :
      {A : Type 0} (key k : String) (f : A → Field V) (o : Option A)
      (rest : List (String × Field V))
      → str_eq key k ≡ false
      → names key (member k f o ++ rest) ≡ names key rest
  past key k f none rest e = refl
  past key k f (some a) rest e = rw e refl

  names-failure :
      (reply : StartReply V)
      → names "snapshot_error" (member "snapshot_error" failure (snapshot_failure reply))
        ≡ not (snapshot_is_available reply)
  unfolding snapshot_failure
  names-failure reply = elim (Bool-cases (snapshot_is_available reply)) [
    | inl y ↦ rw y refl
    | inr n ↦ rw n refl
  ]

  -- The JSON output has a snapshot error exactly if a snapshot was asked for and there is none.
  pub start_json-snapshot_error :
      (reply : StartReply V) (m : SessionMode) (requested : Bool)
      → names "snapshot_error" (start_json reply m requested)
        ≡ (requested && not (snapshot_is_available reply))
  unfolding start_json
  start_json-snapshot_error reply m false = refl
  start_json-snapshot_error reply m true =
      past error_key "url" text reply.url (member "title" text reply.title ++ from_version reply)
        refl
      ∙ past error_key "title" text reply.title (from_version reply) refl
      ∙ past error_key "document_version" nat reply.document_version
          (member "snapshot_text" text reply.snapshot_text ++ counts reply) refl
      ∙ past error_key "snapshot_text" text reply.snapshot_text (counts reply) refl
      ∙ names-failure reply

  -- A session that the daemon started is printed and of the mode asked for, or is stopped.
  pub run_start-Keeps :
      (daemon : StartParams → StartReply V ⊎ CliError V) (args : SessionStartArgs) (format : Format)
      (reply : StartReply V)
      → validate_start_args args ≡ accepted
      → daemon (params_of args) ≡ inl reply
      → ((start_reply_matches_mode (mode_of args.mode) reply ≡ true)
          × (run_start daemon args format ≡ (
            start_call (params_of args) ∷ [],
            printed (shown format reply (mode_of args.mode) args.snapshot),
          )))
        ⊎ ((start_reply_matches_mode (mode_of args.mode) reply ≡ false)
            × (run_start daemon args format ≡ (
              start_call (params_of args) ∷ stop_call reply.session_id ∷ [],
              ends_with local_error,
            )))
  unfolding run_start
  run_start-Keeps daemon args format reply a r =
      elim (Bool-cases (start_reply_matches_mode (mode_of args.mode) reply)) [
        | inl y ↦ inl (y, rw (a, r, y, run_start) refl)
        | inr n ↦ inr (n, rw (a, r, n, run_start) refl)
      ]
