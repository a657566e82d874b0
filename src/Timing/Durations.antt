-- ===== src/Timing/Durations.antt =====
-- What the durations add up to, and that they do not depend on how the extension's clock is set.
use tab_stride.Timing.{
  websocket_us, extension_non_cdp_us, TimingTrace, extension_dispatch_us, websocket_roundtrip_us,
  cdp_total_us, span,
}
use tab_stride.Prelude.{ℕ, Option, ◌≡◌, some, ◌+◌, none, arith, is_some, true}

-- The trace as it would be had the extension's clock run `d` ahead.
abbrev pub later : ℕ → Option ℕ → Option ℕ
later d none = none
later d (some t) = some (t + d)

unfoldable pub shift_extension : ℕ → TimingTrace → TimingTrace
shift_extension d t = record t {
  extension_received_at = later d t.extension_received_at;
  cdp_started_at = later d t.cdp_started_at;
  cdp_finished_at = later d t.cdp_finished_at;
  extension_replied_at = later d t.extension_replied_at;
  extension_response_sent_at = later d t.extension_response_sent_at;
}

span-later : (d : ℕ) (a b : Option ℕ) → span (later d a) (later d b) ≡ span a b
span-later d a b = ground arith

-- Each duration is the same if all times of the extension's clock are moved by one offset.
pub durations_of_shift :
    (d : ℕ) (t : TimingTrace)
    → let s = shift_extension d t in
      (websocket_us s ≡ websocket_us t)
      × (extension_dispatch_us s ≡ extension_dispatch_us t)
      × (cdp_total_us s ≡ cdp_total_us t)
      × (extension_non_cdp_us s ≡ extension_non_cdp_us t)
unfolding shift_extension websocket_us extension_dispatch_us cdp_total_us extension_non_cdp_us
durations_of_shift d t = (ground arith, ground arith, ground arith, ground arith)

-- If the transport time is known, then so are the round trip and the extension's own span, and
-- the round trip is the sum of the two.
pub websocket_us-add :
    (t : TimingTrace) (w : ℕ)
    → websocket_us t ≡ some w
    → let inside = span t.extension_response_sent_at t.extension_received_at in
      (is_some inside ≡ true) × (websocket_roundtrip_us t ≡ later w inside)
unfolding websocket_us
websocket_us-add t w h = ground arith
