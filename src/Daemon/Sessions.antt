-- ===== src/Daemon/Sessions.antt =====
-- crates/tabstride-cli/src/daemon/sessions.rs: the session registry. Random ids are a parameter.
pub mod Reservation
pub mod Purge
use tab_stride.Prelude.{
  if◌then◌else◌, is_some, length, select, ℤ, ℕ, zero, suc, ◌*◌, String, Bool, false, not, ◌&&◌,
  Option, none, some, List, [], ◌∷◌, str_eq,
}
use tab_stride.Protocol.Error.{RpcError}
use tab_stride.Map.{Map, contains_key, lookup, remove, values, insert}
use tab_stride.Timing.{TimingTrace}

pub data SessionMode : Type 0 where
  isolated attach : SessionMode

-- `CommittedSessionData`: the fields of a session that the extension supplies.
pub record CommittedSessionData (V : Type 0) : Type 0 where
  pub agent_window_id : Option ℤ
  pub attached_tab_id : Option ℤ
  pub initial_url : Option String
  pub initial_title : Option String
  pub initial_document_version : Option ℕ
  pub initial_snapshot_text : Option String
  pub initial_snapshot_ref_count : ℕ
  pub initial_snapshot_truncated : Bool
  pub initial_snapshot_available : Option Bool
  pub initial_snapshot_error : Option (RpcError V)
  pub initial_timing : Option TimingTrace

pub record Session (V : Type 0) : Type 0 where
  pub id : String
  pub browser_id : String
  pub mode : SessionMode
  pub created_at_ms : ℕ
  pub committed : CommittedSessionData V
  pub open committed use *

-- `SessionStartResult`, as the extension sends it.
pub record SessionStartResult (V : Type 0) : Type 0 where
  pub agent_window_id : Option ℤ
  pub attached_tab_id : Option ℤ
  pub url : Option String
  pub title : Option String
  pub document_version : Option ℕ
  pub snapshot_text : Option String
  pub snapshot_ref_count : ℕ
  pub snapshot_truncated : Bool
  pub snapshot_available : Option Bool
  pub snapshot_error : Option (RpcError V)

module _ {V : Type 0} where
  -- What a placeholder holds until the extension has answered.
  abbrev pub no_data : CommittedSessionData V
  no_data = record {
    agent_window_id = none;
    attached_tab_id = none;
    initial_url = none;
    initial_title = none;
    initial_document_version = none;
    initial_snapshot_text = none;
    initial_snapshot_ref_count = 0;
    initial_snapshot_truncated = false;
    initial_snapshot_available = none;
    initial_snapshot_error = none;
    initial_timing = none;
  }

  abbrev pub placeholder : String → String → SessionMode → ℕ → Session V
  placeholder id browser_id mode now = record {
    id = id;
    browser_id = browser_id;
    mode = mode;
    created_at_ms = now;
    committed = no_data;
  }

  -- `draw i` is the id that the `i`-th call of `SessionId::random` gives.
  unfoldable pub reserve_from :
      Map (Session V)
      → String
      → SessionMode
      → (ℕ → String)
      → ℕ
      → ℕ
      → ℕ
      → Map (Session V) × Option String
  reserve_from m browser_id mode draw now i zero = (m, none)
  reserve_from m browser_id mode draw now i (suc attempts) =
      let retry = reserve_from m browser_id mode draw now (suc i) attempts in
      if contains_key (draw i) m
      then retry
      else (insert (draw i) (placeholder (draw i) browser_id mode now) m, some (draw i))

  unfoldable pub reserve_id :
      Map (Session V)
      → String
      → SessionMode
      → ℕ
      → (ℕ → String)
      → ℕ
      → Map (Session V) × Option String
  unfolding reserve_from
  reserve_id m browser_id mode max_attempts draw now =
      reserve_from m browser_id mode draw now 0 max_attempts

  unfoldable pub commit_reservation :
      Map (Session V) → String → CommittedSessionData V → Map (Session V) × Option (Session V)
  commit_reservation m session_id d = elim (lookup session_id m) [
    | none ↦ (m, none)
    | some s ↦ (insert session_id (record s { committed = d }) m, some (record s { committed = d }))
  ]

  unfoldable pub cancel_reservation : Map (Session V) → String → Map (Session V)
  cancel_reservation m session_id = remove session_id m

  abbrev pub is_owned_by : String → Session V → Bool
  is_owned_by browser_id s = str_eq s.browser_id browser_id

  unfoldable pub count_for_browser : Map (Session V) → String → ℕ
  count_for_browser m browser_id = length (select (is_owned_by browser_id) (values m))

  -- The loop of `purge_browser` over the sessions that it drains.
  unfoldable pub remove_each : Map (Session V) → List (Session V) → Map (Session V)
  remove_each m [] = m
  remove_each m (s ∷ rest) = remove_each (remove s.id m) rest

  unfoldable pub purge_browser : Map (Session V) → String → Map (Session V) × List (Session V)
  unfolding remove_each
  purge_browser m browser_id =
      let drained = select (is_owned_by browser_id) (values m) in (remove_each m drained, drained)

  -- The targets that an extension may return for each mode.
  abbrev pub is_target : SessionMode → SessionStartResult V → Bool
  is_target isolated r = is_some r.agent_window_id && not (is_some r.attached_tab_id)
  is_target attach r = not (is_some r.agent_window_id) && is_some r.attached_tab_id

  -- `none` is the `ProtocolError` of an invalid target.
  unfoldable pub validate_start_result :
      SessionMode → SessionStartResult V → Option TimingTrace → Option (CommittedSessionData V)
  validate_start_result mode r timing =
      if is_target mode r
      then some (record {
        agent_window_id = r.agent_window_id;
        attached_tab_id = r.attached_tab_id;
        initial_url = r.url;
        initial_title = r.title;
        initial_document_version = r.document_version;
        initial_snapshot_text = r.snapshot_text;
        initial_snapshot_ref_count = r.snapshot_ref_count;
        initial_snapshot_truncated = r.snapshot_truncated;
        initial_snapshot_available = r.snapshot_available;
        initial_snapshot_error = r.snapshot_error;
        initial_timing = timing;
      })
      else none
