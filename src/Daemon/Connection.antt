-- ===== src/Daemon/Connection.antt =====
-- One connection of the IPC server, `handle_connection` of crates/tabstride-cli/src/daemon/ipc.rs, and
-- the client of crates/tabstride-cli/src/ipc_client.rs. The handler of requests is a parameter.
pub mod Call
use tab_stride.Json.{Json}
use tab_stride.Map.{lookup, remove, Map}
use tab_stride.Timing.Carrier.{timing_field}
use tab_stride.Protocol.Method.{Method}
use tab_stride.Protocol.Error.{Body, ok, err, RpcError, plain, protocol_error}
use tab_stride.Protocol.Frame.{RequestFrame, ResponseFrame}
use tab_stride.Protocol.Frame.Codec.{
  Frame, Member, request, response, event, decode_frame, encode_frame,
}
use tab_stride.Daemon.Envelope.{params_with_timing}
use tab_stride.Prelude.{String, if◌then◌else◌, str_eq, Option, none, some, List, [], ◌∷◌, ◌++◌}

-- A line without its end: empty, the members of a JSON object, or no such.
pub data Line (V : Type 0) : Type 0 where
  blank : Line V
  garbage : Line V
  members : List (Member V) → Line V

-- `RpcOutcome<R>` of a `Result`: what the client makes of the line that it reads. The value is read
-- into the caller's type afterwards.
pub data Reply (V : Type 0) : Type 0 where
  value : V → Reply V
  refused : RpcError V → Reply V
  id_mismatch : String → Reply V
  unexpected_frame : Reply V
  undecodable : Reply V

module _ (j : Json) where
  open j use {Value, is_null, object, as_object}

  module _ {S : Type 0} (handler : S → String → Method → Value → S × Body Value) where
    -- `invalid frame`
    abbrev pub invalid_frame : ResponseFrame Value
    invalid_frame = record { id = "0"; body = err (plain protocol_error) }

    abbrev pub answer_request : S → RequestFrame Value → S × List (ResponseFrame Value)
    answer_request s r =
        let done = handler s r.id r.method (params_with_timing j r.params r.timing) in
        (done.0, record { id = r.id; body = done.1 } ∷ [])

    abbrev pub answer_frame : S → Option (Frame Value) → S × List (ResponseFrame Value)
    answer_frame s none = (s, invalid_frame ∷ [])
    answer_frame s (some (request r)) = answer_request s r
    answer_frame s (some (response r)) = (s, [])
    answer_frame s (some (event e)) = (s, [])

    -- One turn of the loop.
    unfoldable pub answer_line : S → Line Value → S × List (ResponseFrame Value)
    unfolding decode_frame params_with_timing
    answer_line s blank = (s, [])
    answer_line s garbage = (s, invalid_frame ∷ [])
    answer_line s (members ms) = answer_frame s (decode_frame is_null (object []) ms)

    -- The loop, over the lines up to the end of the stream, if no write fails.
    unfoldable pub handle_connection : S → List (Line Value) → S × List (ResponseFrame Value)
    unfolding answer_line
    handle_connection s [] = (s, [])
    handle_connection s (line ∷ lines) =
        let (s', answers) = answer_line s line in
        let (last, later) = handle_connection s' lines in (last, answers ++ later)

  -- The request that `call_with_id` writes: the timing moves out of the parameters.
  abbrev pub request_with : String → Method → Value → Option (Map Value) → RequestFrame Value
  request_with id method params none = record {
    id = id;
    method = method;
    params = some params;
    timing = none;
  }
  request_with id method params (some m) = record {
    id = id;
    method = method;
    params = some (object (remove timing_field m));
    timing = lookup timing_field m;
  }

  unfoldable pub request_of : String → Method → Value → RequestFrame Value
  request_of id method params = request_with id method params (as_object params)

  abbrev pub reply_of : Body Value → Reply Value
  reply_of (ok v) = value v
  reply_of (err e) = refused e

  abbrev pub reply_to : String → Option (Frame Value) → Reply Value
  reply_to id none = undecodable
  reply_to id (some (response r)) = if str_eq r.id id then reply_of r.body else id_mismatch r.id
  reply_to id (some (request r)) = unexpected_frame
  reply_to id (some (event e)) = unexpected_frame

  unfoldable pub decode_response : List (Member Value) → String → Reply Value
  unfolding decode_frame
  decode_response text id = reply_to id (decode_frame is_null (object []) text)
