-- ===== src/Tests/Wire.antt =====
-- The protocol and the timing theorems at concrete inputs.
use tab_stride.Prelude.{ℕ, ◌==◌, if◌then◌else◌, ◌≡◌, refl, ◌&&◌, none, some, List, [], ◌∷◌}
use tab_stride.Text.{first_segment, all_digits, parse_u64, parse_digits, second_segment}
use tab_stride.Protocol.Error.{ok}
use tab_stride.Protocol.Handshake.Verdict.{
  verdict, le_parts, accepted, flagged, refused, verdict_of_parts,
}
use tab_stride.Protocol.Handshake.{ProtocolParts, parse_protocol_parts, evaluate_handshake_compat}
use tab_stride.Protocol.Frame.{ResponseFrame, Flat}
use tab_stride.Timing.{TimingTrace, websocket_us, no_trace}
use tab_stride.Tests.Samples.{Doc, word}
use tab_stride.Text.{bytes_eq, first_segment, all_digits}

-- "1.2", "1.10" and "1.0" as bytes.
abbrev v1_2 : List ℕ
v1_2 = 49 ∷ 46 ∷ 50 ∷ []

abbrev v1_10 : List ℕ
v1_10 = 49 ∷ 46 ∷ 49 ∷ 48 ∷ []

abbrev v1_0 : List ℕ
v1_0 = 49 ∷ 46 ∷ 48 ∷ []

abbrev parts_of : ℕ → ProtocolParts
parts_of n = record { major = 1; minor = n }

parsed_2 : parse_protocol_parts v1_2 ≡ some (parts_of 2)
unfolding parse_protocol_parts first_segment all_digits parse_u64 parse_digits second_segment
parsed_2 = refl

parsed_10 : parse_protocol_parts v1_10 ≡ some (parts_of 10)
unfolding parse_protocol_parts first_segment all_digits parse_u64 parse_digits second_segment
parsed_10 = refl

parsed_0 : parse_protocol_parts v1_0 ≡ some (parts_of 0)
unfolding parse_protocol_parts first_segment all_digits parse_u64 parse_digits second_segment
parsed_0 = refl

verdict_of_parts_example : verdict (evaluate_handshake_compat v1_2 (some v1_0) v1_10 v1_0) ≡ (
    if 1 == 1 && le_parts (parts_of 0) (parts_of 2) && le_parts (parts_of 0) (parts_of 10)
    then (if bytes_eq v1_2 v1_10 then accepted else flagged)
    else refused)
verdict_of_parts_example =
    verdict_of_parts v1_2 v1_10 v1_0 v1_0 (parts_of 2) (parts_of 10) (parts_of 0) (parts_of 0)
      parsed_2 parsed_10 parsed_0 parsed_0

abbrev reply : ResponseFrame Doc
reply = record { id = "tool-1"; body = ok (word "done") }

abbrev flat_reply : Flat Doc
flat_reply = record { id = "tool-1"; result = some (word "done"); error = none }

abbrev traced_call : TimingTrace
traced_call = record no_trace {
  extension_sent_at = some 10;
  extension_received_at = some 100;
  extension_response_sent_at = some 130;
  serve_extension_received_at = some 60;
}

known : websocket_us traced_call ≡ some 20
unfolding websocket_us
known = refl
