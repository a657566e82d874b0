-- ===== src/Protocol/Error.antt =====
-- crates/tabstride-protocol/src/error.rs and the response body of frame.rs. `V` is the type of
-- JSON values. The text of an error is for people and is not modelled; its code and data are.
use tab_stride.Prelude.{Option, none, String, ◌≡◌, refl, ◌⊎◌, inl, inr}

pub data ErrorCode : Type 0 where
  unknown_method unsupported invalid_params not_found ambiguous_target : ErrorCode
  permission_denied timeout cdp_failed protocol_error cancelled : ErrorCode
  user_aborted version_too_old multiple_browsers_online no_browser_connected : ErrorCode

pub record RpcError (V : Type 0) : Type 0 where
  pub code : ErrorCode
  pub details : Option V

-- `ResponseBody`, and `Result<Value, RpcError>`.
pub data Body (V : Type 0) : Type 0 where
  ok : V → Body V
  err : RpcError V → Body V

-- An error with no data.
abbrev pub plain : {V : Type 0} → ErrorCode → RpcError V
plain c = record { code = c; details = none }

-- `ErrorCode::as_str`.
unfoldable pub as_str : ErrorCode → String
as_str unknown_method = "unknown_method"
as_str unsupported = "unsupported"
as_str invalid_params = "invalid_params"
as_str not_found = "not_found"
as_str ambiguous_target = "ambiguous_target"
as_str permission_denied = "permission_denied"
as_str timeout = "timeout"
as_str cdp_failed = "cdp_failed"
as_str protocol_error = "protocol_error"
as_str cancelled = "cancelled"
as_str user_aborted = "user_aborted"
as_str version_too_old = "version_too_old"
as_str multiple_browsers_online = "multiple_browsers_online"
as_str no_browser_connected = "no_browser_connected"

pub Body-cases :
    {V : Type 0} (b : Body V) → ((v : V) × (b ≡ ok v)) ⊎ ((e : RpcError V) × (b ≡ err e))
Body-cases (ok v) = inl (v, refl)
Body-cases (err e) = inr (e, refl)
