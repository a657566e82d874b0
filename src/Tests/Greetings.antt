-- ===== src/Tests/Greetings.antt =====
-- The theorems on the beginning of a connection at concrete inputs.
use tab_stride.Text.{
  parse_u64, parse_digits, all_digits, first_segment, second_segment, after_dot, bytes_eq,
}
use tab_stride.Protocol.Method.{system_handshake, as_str}
use tab_stride.Protocol.Handshake.{
  evaluate_handshake_compat, parse_major, parse_protocol_parts, parse_field, parse_minor,
  compare_protocol, check_peer_floor, check_drift,
}
use tab_stride.Daemon.State.{DaemonState, new_state}
use tab_stride.Daemon.Browsers.{connect}
use tab_stride.Daemon.Greeting.{
  HandshakeParams, FirstMessage, text, greet, reply, registered, register,
}
use tab_stride.Daemon.Greeting.Registered.{Accounts, greet-Accounts, IsStuck, unsent_reply_sticks}
use tab_stride.Tests.Samples.{Doc, word}
use tab_stride.Prelude.{Option, none, some, ◌≡◌, refl, false}

abbrev hello : HandshakeParams
hello = record {
  version = "1.0.0";
  protocol_version = "1.0";
  instance_id = "b1";
  browser_name = "Chrome";
  browser_version = "120";
  label = "work";
  min_compatible_protocol = none;
}

abbrev read_hello : Doc → Option HandshakeParams
read_hello v = some hello

abbrev no_details : HandshakeParams → Doc
no_details p = word "details"

abbrev handshake : FirstMessage Doc
handshake = text (
    some (record {
      id = "h1";
      method = system_handshake;
      params = some (word "hello");
      timing = none;
    }))

greet-Accounts_example :
    Accounts read_hello no_details new_state handshake 5
      (greet read_hello no_details new_state handshake 5)
greet-Accounts_example = greet-Accounts read_hello no_details new_state handshake 5

abbrev greeted : DaemonState Doc
greeted = (register new_state hello 5 false).0

is_greeted : greet read_hello no_details new_state handshake 5 ≡ (greeted, registered 0 "b1" 1)
unfolding greet register as_str evaluate_handshake_compat parse_major parse_protocol_parts
    parse_field parse_minor compare_protocol check_peer_floor check_drift parse_u64 parse_digits
    all_digits first_segment second_segment after_dot connect bytes_eq
is_greeted = refl

unsent_reply_sticks_example : IsStuck read_hello no_details (reply greeted 0 false).browsers "b1" 0
unsent_reply_sticks_example =
    unsent_reply_sticks read_hello no_details new_state greeted handshake 5 0 1 "b1" is_greeted
