-- ===== src/Daemon/Tools/Timeout.antt =====
-- The time that a tool call is given.
use tab_stride.Prelude.{ℕ, ◌>>=◌, get_or, ◌+◌, ◌^◌, ◌<◌, ◌≡◌, inl, arith}
use tab_stride.Json.{Json, get}
use tab_stride.Daemon.Tools.{
  tool_dispatch_timeout, failure_evidence_grace_ms, default_tool_timeout_ms,
}

module _ (j : Json) where
  open j use {Value, as_u64}

  -- A call that gets a duration has more than the grace for failure evidence and less than 2^32 ms
  -- besides it; if it asked for a time, it gets that time and the grace, and if not, 32 seconds.
  pub tool_dispatch_timeout_bounds :
      (params : Value) (ms : ℕ)
      → tool_dispatch_timeout j params ≡ inl ms
      → (failure_evidence_grace_ms < ms)
        × (ms < 2 ^ 32 + failure_evidence_grace_ms)
        × (get_or (get j "timeout_ms" params >>= as_u64) default_tool_timeout_ms
              + failure_evidence_grace_ms
            ≡ ms)
  unfolding tool_dispatch_timeout
  tool_dispatch_timeout_bounds params ms h = ground arith
