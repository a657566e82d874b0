-- ===== src/Timing.antt =====
-- crates/tabstride-cli/src/timing.rs: the trace of one request, the durations read from it, and
-- the field of the payload that carries it. Times are `u64` microseconds; they are only compared
-- and subtracted, so nothing wraps.
pub mod Durations
pub mod Carrier
use tab_stride.Prelude.{
  ℕ, Option, none, checked_sub, String, false, Bool, ◌==◌, if◌then◌else◌, is_some, ◌-◌, not, ◌&&◌,
  some, ◌>>=◌,
}

pub record RuntimeCounters : Type 0 where
  pub cdp_calls : ℕ
  pub full_ax_tree_calls : ℕ
  pub locator_cache_hits : ℕ
  pub locator_cache_misses : ℕ
  pub snapshot_cache_hits : ℕ
  pub snapshot_cache_misses : ℕ
  pub overlay_cache_hits : ℕ
  pub overlay_cache_misses : ℕ

pub record TimingTrace : Type 0 where
  pub run_id : Option String
  pub flow_name : Option String
  pub flow_step_index : Option ℕ
  pub local_us : Option ℕ
  pub skip_metric : Bool
  pub agent_received_at : Option ℕ
  pub serve_queue_entered_at : Option ℕ
  pub serve_queue_started_at : Option ℕ
  pub extension_sent_at : Option ℕ
  pub extension_received_at : Option ℕ
  pub cdp_started_at : Option ℕ
  pub cdp_finished_at : Option ℕ
  pub extension_replied_at : Option ℕ
  pub extension_response_sent_at : Option ℕ
  pub serve_extension_received_at : Option ℕ
  pub cdp_us : Option ℕ
  pub serve_replied_at : Option ℕ
  pub counters : RuntimeCounters

-- `TimingTrace::default`
abbrev pub no_counters : RuntimeCounters
no_counters = record {
  cdp_calls = 0;
  full_ax_tree_calls = 0;
  locator_cache_hits = 0;
  locator_cache_misses = 0;
  snapshot_cache_hits = 0;
  snapshot_cache_misses = 0;
  overlay_cache_hits = 0;
  overlay_cache_misses = 0;
}

abbrev pub no_trace : TimingTrace
no_trace = record {
  run_id = none;
  flow_name = none;
  flow_step_index = none;
  local_us = none;
  skip_metric = false;
  agent_received_at = none;
  serve_queue_entered_at = none;
  serve_queue_started_at = none;
  extension_sent_at = none;
  extension_received_at = none;
  cdp_started_at = none;
  cdp_finished_at = none;
  extension_replied_at = none;
  extension_response_sent_at = none;
  serve_extension_received_at = none;
  cdp_us = none;
  serve_replied_at = none;
  counters = no_counters;
}

-- `end?.checked_sub(start?)`
abbrev pub span : Option ℕ → Option ℕ → Option ℕ
span end start = do e ← end; s ← start; checked_sub e s

unfoldable pub queue_wait_us : TimingTrace → Option ℕ
queue_wait_us t = span t.serve_queue_started_at t.serve_queue_entered_at

unfoldable pub websocket_roundtrip_us : TimingTrace → Option ℕ
websocket_roundtrip_us t = span t.serve_extension_received_at t.extension_sent_at

unfoldable pub websocket_us : TimingTrace → Option ℕ
unfolding websocket_roundtrip_us
websocket_us t = do
  extension_span ← span t.extension_response_sent_at t.extension_received_at
  roundtrip ← websocket_roundtrip_us t
  checked_sub roundtrip extension_span

unfoldable pub extension_dispatch_us : TimingTrace → Option ℕ
extension_dispatch_us t = span t.extension_replied_at t.extension_received_at

unfoldable pub cdp_span_us : TimingTrace → Option ℕ
cdp_span_us t = span t.cdp_finished_at t.cdp_started_at

-- The method `cdp_us`, which falls back to the span for older extensions.
unfoldable pub cdp_total_us : TimingTrace → Option ℕ
unfolding cdp_span_us
cdp_total_us t = elim t.cdp_us [ some v ↦ some v | none ↦ cdp_span_us t ]

-- What `extension_non_cdp_us` takes off the extension's time.
unfoldable pub cdp_share : TimingTrace → Option ℕ
cdp_share t = elim t.cdp_us [
  | some v ↦ some v
  | none ↦
      if t.counters.cdp_calls == 0
        && not (is_some t.cdp_started_at)
        && not (is_some t.cdp_finished_at)
      then some 0
      else none
]

-- `saturating_sub` is the subtraction of ℕ.
unfoldable pub extension_non_cdp_us : TimingTrace → Option ℕ
unfolding cdp_share extension_dispatch_us
extension_non_cdp_us t = do cdp ← cdp_share t; whole ← extension_dispatch_us t; some (whole - cdp)

unfoldable pub total_runtime_us : TimingTrace → Option ℕ
total_runtime_us t = span t.serve_replied_at t.agent_received_at
