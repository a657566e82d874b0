-- ===== src/Tests/Answers.antt =====
-- The theorems on frames and answers at concrete inputs.
use tab_stride.Protocol.Method.{tool_tab_list}
use tab_stride.Map.{lookup, Map}
use tab_stride.Protocol.Error.{ok, Body, err, timeout}
use tab_stride.Protocol.Method.{Method}
use tab_stride.Protocol.Frame.Codec.{
  Frame, Member, request, event_member, payload_member, session_window_closed, decode_frame,
  encode_frame, decode_frame-encode_frame, read_back, read_body, response,
}
use tab_stride.Daemon.Lifecycle.{StopError, SessionStopResult, unknown, returned_badly}
use tab_stride.Daemon.Envelope.{
  answer_with_timing, stamp, kept, metric_of, answer_is_stamped, trace_of,
}
use tab_stride.Timing.{TimingTrace, no_trace}
use tab_stride.Tests.Samples.{null, Doc, docs, payload, word}
use tab_stride.Prelude.{pos, String, ◌≡◌, refl, ◌⊎◌, inl, inr, some, List, [], ◌∷◌, ℕ, ◌+◌}
use tab_stride.Daemon.Connection.{handle_connection, members, request_of, decode_response, reply_of}
use tab_stride.Daemon.Connection.Call.{decode_response-handle_connection}

-- The browser "b2" tries to close a session of "b1".
abbrev close_text : List (Member Doc)
close_text = event_member (some session_window_closed) ∷ payload_member payload ∷ []

-- An error with null data, which are lost.
abbrev error_frame : Frame Doc
error_frame =
    response (record { id = "r1"; body = err (record { code = timeout; details = some null }) })

decode_frame-encode_frame_example :
    decode_frame docs.is_null (word "{}") (encode_frame error_frame)
    ≡ some (read_back docs.is_null error_frame)
decode_frame-encode_frame_example = decode_frame-encode_frame docs.is_null (word "{}") error_frame

abbrev measured : TimingTrace
measured = record no_trace { agent_received_at = some 3 }

answer_is_stamped_example :
    let t = stamp docs 8 (kept docs measured payload) in
    (trace_of docs (answer_with_timing docs measured 8 (ok payload)).0 ≡ t)
    × ((answer_with_timing docs measured 8 (ok payload)).1 ≡ metric_of docs t)
answer_is_stamped_example =
    answer_is_stamped docs measured 8 (ok payload) (("session_id", word "s1") ∷ []) refl refl

abbrev given_back : SessionStopResult
given_back = record { returned_tab_ids = pos 4 ∷ []; return_failures = [] }

abbrev stops : List (String × (StopError Doc ⊎ SessionStopResult))
stops = ("s1", inr given_back) ∷ ("s2", inl unknown) ∷ ("s3", inl (returned_badly given_back)) ∷ []

-- A handler that counts its calls and answers with what it was asked.
abbrev echo : ℕ → String → Method → Doc → ℕ × Body Doc
echo n id method params = (n + 1, ok params)

decode_response-handle_connection_example :
    (m' : Map Doc) × ((k : String) → lookup k m' ≡ lookup k (("x", word "y") ∷ []))
    × (let done = echo 0 "r1" tool_tab_list (docs.object m') in
        (handle_connection docs echo 0 (
            members (
              encode_frame
                (request (request_of docs "r1" tool_tab_list (docs.object (("x", word "y") ∷ [])))))
            ∷ [])
          ≡ (done.0, record { id = "r1"; body = done.1 } ∷ []))
        × (decode_response docs (encode_frame (response (record { id = "r1"; body = done.1 }))) "r1"
            ≡ reply_of docs (read_body docs.is_null done.1)))
decode_response-handle_connection_example =
    decode_response-handle_connection docs echo 0 "r1" tool_tab_list (("x", word "y") ∷ [])
