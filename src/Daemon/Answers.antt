-- ===== src/Daemon/Answers.antt =====
-- How crates/tabstride-cli/src/daemon/ipc.rs answers `session.start` and `session.stop`.
use tab_stride.Protocol.Error.{
  ErrorCode, RpcError, plain, unsupported, no_browser_connected, multiple_browsers_online,
  not_found, invalid_params, protocol_error, timeout, cdp_failed,
}
use tab_stride.Daemon.Lifecycle.{
  StartError, StopError, SessionStopResult, no_browser, multiple_browsers, browser_not_found,
  id_exhausted, start_timeout, start_closed, ambiguous_browser, start_refused, unknown, stopping,
  busy, browser_gone, stop_timeout, stop_closed, stop_refused, returned_badly,
}
use mathlib.Core.List.{append_assoc}
use tab_stride.Prelude.{
  if◌then◌else◌, is_some, get_or, ℤ, String, ◌≡◌, refl, ◌⊎◌, inl, inr, Bool, true, false, ◌&&◌,
  Option, none, some, List, [], ◌∷◌, ◌++◌, append_nil, sym, ap, ◌∙◌, not, ◌||◌, arith,
}

-- Whether an initial snapshot was asked for, whether it is there, and the error if it is not.
pub record SnapshotStatus (V : Type 0) : Type 0 where
  pub requested : Option Bool
  pub available : Option Bool
  pub error : Option (RpcError V)

unfoldable pub initial_snapshot_status :
    {V : Type 0} → Bool → Option Bool → Option String → Option (RpcError V) → SnapshotStatus V
initial_snapshot_status requested explicit_available snapshot_text explicit_error =
    let available = get_or explicit_available (is_some snapshot_text) && is_some snapshot_text in
    if requested
    then record {
      requested = some true;
      available = some available;
      error = if available then none else some (get_or explicit_error (plain unsupported));
    }
    else record { requested = none; available = none; error = none }

-- The code that `map_start_error` gives.
unfoldable pub start_code : {V : Type 0} → StartError V → ErrorCode
start_code no_browser = no_browser_connected
start_code multiple_browsers = multiple_browsers_online
start_code browser_not_found = not_found
start_code (ambiguous_browser label ids) = invalid_params
start_code id_exhausted = protocol_error
start_code start_timeout = timeout
start_code start_closed = protocol_error
start_code (start_refused e) = e.code

-- The code that `map_stop_error` gives; `SessionBusy` answers as `session_busy_rpc` does.
unfoldable pub stop_code : {V : Type 0} → StopError V → ErrorCode
stop_code unknown = not_found
stop_code stopping = timeout
stop_code busy = timeout
stop_code browser_gone = not_found
stop_code stop_timeout = timeout
stop_code stop_closed = protocol_error
stop_code (stop_refused e) = e.code
stop_code (returned_badly r) = cdp_failed

-- `CliSessionStopResult`
pub record StopSummary : Type 0 where
  pub stopped : List String
  pub failed : List (String × ErrorCode)
  pub returned_tab_ids : List ℤ
  pub return_failures : List (ℤ × ErrorCode)

-- The answer of `handle_session_stop` to one named session; `inr` is the code of its error.
unfoldable pub stop_one :
    {V : Type 0} → String → StopError V ⊎ SessionStopResult → StopSummary ⊎ ErrorCode
unfolding stop_code
stop_one id (inr stop) = inl (record {
  stopped = id ∷ [];
  failed = [];
  returned_tab_ids = stop.returned_tab_ids;
  return_failures = stop.return_failures;
})
stop_one id (inl (returned_badly stop)) = inl (record {
  stopped = [];
  failed = (id, cdp_failed) ∷ [];
  returned_tab_ids = stop.returned_tab_ids;
  return_failures = stop.return_failures;
})
stop_one id (inl e) = inr (stop_code e)

-- The body of the loop of `handle_session_stop_all`.
unfoldable pub add_outcome :
    {V : Type 0} → StopSummary → String → StopError V ⊎ SessionStopResult → StopSummary
unfolding stop_code
add_outcome s id (inr stop) = record s {
  stopped = s.stopped ++ id ∷ [];
  returned_tab_ids = s.returned_tab_ids ++ stop.returned_tab_ids;
  return_failures = s.return_failures ++ stop.return_failures;
}
add_outcome s id (inl (returned_badly stop)) = record s {
  failed = s.failed ++ (id, cdp_failed) ∷ [];
  returned_tab_ids = s.returned_tab_ids ++ stop.returned_tab_ids;
  return_failures = s.return_failures ++ stop.return_failures;
}
add_outcome s id (inl e) = record s { failed = s.failed ++ (id, stop_code e) ∷ [] }

-- The loop, over the sessions and how the stop of each ended.
unfoldable pub add_outcomes :
    {V : Type 0} → StopSummary → List (String × (StopError V ⊎ SessionStopResult)) → StopSummary
unfolding add_outcome
add_outcomes s [] = s
add_outcomes s ((id, o) ∷ os) = add_outcomes (add_outcome s id o) os

unfoldable pub stop_all :
    {V : Type 0} → List (String × (StopError V ⊎ SessionStopResult)) → StopSummary
unfolding add_outcomes
stop_all os =
    add_outcomes (record { stopped = []; failed = []; returned_tab_ids = []; return_failures = [] })
      os

-- The summary of one session that could not be stopped.
abbrev pub only_failed : String → ErrorCode → StopSummary
only_failed id c = record {
  stopped = [];
  failed = (id, c) ∷ [];
  returned_tab_ids = [];
  return_failures = [];
}

abbrev pub summary_of : String → StopSummary ⊎ ErrorCode → StopSummary
summary_of id (inl s) = s
summary_of id (inr c) = only_failed id c

-- Stopping all sessions when there is one sums up what stopping it by its name answers.
pub stop_all-stop_one :
    {V : Type 0} (id : String) (o : StopError V ⊎ SessionStopResult)
    → stop_all ((id, o) ∷ []) ≡ summary_of id (stop_one id o)
unfolding stop_all stop_one
stop_all-stop_one id (inr stop) = refl
stop_all-stop_one id (inl unknown) = refl
stop_all-stop_one id (inl stopping) = refl
stop_all-stop_one id (inl busy) = refl
stop_all-stop_one id (inl browser_gone) = refl
stop_all-stop_one id (inl stop_timeout) = refl
stop_all-stop_one id (inl stop_closed) = refl
stop_all-stop_one id (inl (stop_refused e)) = refl
stop_all-stop_one id (inl (returned_badly stop)) = refl

-- One stop, and what it adds to each list of the summary.
module _ {V : Type 0} where
  abbrev pub stopped_by : String → StopError V ⊎ SessionStopResult → List String
  stopped_by id (inr stop) = id ∷ []
  stopped_by id (inl e) = []

  abbrev pub failed_by : String → StopError V ⊎ SessionStopResult → List (String × ErrorCode)
  failed_by id (inr stop) = []
  failed_by id (inl e) = (id, stop_code e) ∷ []

  -- What a stop gave back, whether it succeeded or not.
  abbrev pub tabs_of : StopError V ⊎ SessionStopResult → List ℤ
  tabs_of (inr stop) = stop.returned_tab_ids
  tabs_of (inl (returned_badly stop)) = stop.returned_tab_ids
  tabs_of (inl e) = []

  abbrev pub stopped_ids : List (String × (StopError V ⊎ SessionStopResult)) → List String
  stopped_ids [] = []
  stopped_ids ((id, o) ∷ os) = stopped_by id o ++ stopped_ids os

  abbrev pub failed_ids :
      List (String × (StopError V ⊎ SessionStopResult)) → List (String × ErrorCode)
  failed_ids [] = []
  failed_ids ((id, o) ∷ os) = failed_by id o ++ failed_ids os

  abbrev pub returned_tabs : List (String × (StopError V ⊎ SessionStopResult)) → List ℤ
  returned_tabs [] = []
  returned_tabs ((id, o) ∷ os) = tabs_of o ++ returned_tabs os

  outcome_sums :
      (s : StopSummary) (id : String) (o : StopError V ⊎ SessionStopResult)
      → ((add_outcome s id o).stopped ≡ s.stopped ++ stopped_by id o)
        × ((add_outcome s id o).failed ≡ s.failed ++ failed_by id o)
        × ((add_outcome s id o).returned_tab_ids ≡ s.returned_tab_ids ++ tabs_of o)
  unfolding add_outcome stop_code
  outcome_sums s id (inr stop) = (refl, sym (append_nil s.failed), refl)
  outcome_sums s id (inl (returned_badly stop)) = (sym (append_nil s.stopped), refl, refl)
  outcome_sums s id (inl unknown) =
      (sym (append_nil s.stopped), refl, sym (append_nil s.returned_tab_ids))
  outcome_sums s id (inl stopping) =
      (sym (append_nil s.stopped), refl, sym (append_nil s.returned_tab_ids))
  outcome_sums s id (inl busy) =
      (sym (append_nil s.stopped), refl, sym (append_nil s.returned_tab_ids))
  outcome_sums s id (inl browser_gone) =
      (sym (append_nil s.stopped), refl, sym (append_nil s.returned_tab_ids))
  outcome_sums s id (inl stop_timeout) =
      (sym (append_nil s.stopped), refl, sym (append_nil s.returned_tab_ids))
  outcome_sums s id (inl stop_closed) =
      (sym (append_nil s.stopped), refl, sym (append_nil s.returned_tab_ids))
  outcome_sums s id (inl (stop_refused e)) =
      (sym (append_nil s.stopped), refl, sym (append_nil s.returned_tab_ids))

  outcomes_sum :
      (s : StopSummary) (os : List (String × (StopError V ⊎ SessionStopResult)))
      → ((add_outcomes s os).stopped ≡ s.stopped ++ stopped_ids os)
        × ((add_outcomes s os).failed ≡ s.failed ++ failed_ids os)
        × ((add_outcomes s os).returned_tab_ids ≡ s.returned_tab_ids ++ returned_tabs os)
  unfolding add_outcomes
  outcomes_sum s [] =
      (sym (append_nil s.stopped), sym (append_nil s.failed), sym (append_nil s.returned_tab_ids))
  outcomes_sum s ((id, o) ∷ os) =
      let (a, b, c) = outcome_sums s id o in
      let (p, q, r) = outcomes_sum (add_outcome s id o) os in
      (
        p
            ∙ ap (λ x. x ++ stopped_ids os) a
            ∙ append_assoc s.stopped (stopped_by id o) (stopped_ids os),
        q ∙ ap (λ x. x ++ failed_ids os) b ∙ append_assoc s.failed (failed_by id o) (failed_ids os),
        r
            ∙ ap (λ x. x ++ returned_tabs os) c
            ∙ append_assoc s.returned_tab_ids (tabs_of o) (returned_tabs os),
      )

  -- Stopping all sessions accounts for each of them in order, as stopped or as failed with its code,
  -- and reports every tab that any of the stops gave back.
  pub stop_all-accounts :
      (os : List (String × (StopError V ⊎ SessionStopResult)))
      → ((stop_all os).stopped ≡ stopped_ids os)
        × ((stop_all os).failed ≡ failed_ids os)
        × ((stop_all os).returned_tab_ids ≡ returned_tabs os)
  unfolding stop_all
  stop_all-accounts os =
      outcomes_sum
        (record { stopped = []; failed = []; returned_tab_ids = []; return_failures = [] }) os

-- An initial snapshot that is asked for is there or has an error, never both and never neither, and
-- it is there only with its text; one that is not asked for has nothing to report.
pub initial_snapshot_status_consistent :
    {V : Type 0} (requested : Bool) (flag : Option Bool) (text : Option String)
    (e : Option (RpcError V))
    → let s = initial_snapshot_status requested flag text e in
      (is_some s.requested ≡ requested)
      × ((get_or s.available false && is_some s.error) ≡ false)
      × ((get_or s.available false || is_some s.error) ≡ requested)
      × ((not (get_or s.available false) || is_some text) ≡ true)
unfolding initial_snapshot_status
initial_snapshot_status_consistent requested flag text e =
    (ground arith, ground arith, ground arith, ground arith)
