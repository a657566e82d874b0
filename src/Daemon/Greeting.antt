-- ===== src/Daemon/Greeting.antt =====
-- How a connection of an extension begins: the upgrade in `handle_connection` and the first frame in
-- `drive_connection` of crates/tabstride-cli/src/daemon/ws.rs, cut where they wait.
pub mod Registered
pub mod Trusted
use tab_stride.Text.{codes, bytes_eq, is_empty}
use tab_stride.Protocol.Method.{Method, system_handshake, as_str}
use tab_stride.Protocol.Error.{Body, err, plain, RpcError, protocol_error, version_too_old}
use tab_stride.Protocol.Frame.{RequestFrame, ResponseFrame}
use tab_stride.Protocol.Handshake.{HandshakeCompat, evaluate_handshake_compat, ok, skew, reject}
use tab_stride.Daemon.Origin.{origin_allowed}
use tab_stride.Daemon.Browsers.{Browsers, BrowserClient, BrowserSink, connect, client_at}
use tab_stride.Daemon.Browsers.Pending.{empty as no_waiters}
use tab_stride.Daemon.State.{DaemonState}
use tab_stride.Daemon.Events.{disconnect}
use tab_stride.Prelude.{
  ℕ, String, set, if◌then◌else◌, str_eq, Bool, true, false, not, ◌&&◌, ◌||◌, Option, none, some,
  List, [], ◌∷◌,
}

-- What becomes of an upgrade request.
pub data Upgrade : Type 0 where
  to_extension to_agent not_found forbidden : Upgrade

-- The callback of the upgrade, on the path and the `Origin` header, empty if it is missing.
unfoldable pub decide_upgrade : List ℕ → List ℕ → Bool → Upgrade
unfolding origin_allowed bytes_eq
decide_upgrade path origin allow_any =
    if bytes_eq path (codes "/agent")
    then if not (is_empty origin) && not allow_any then forbidden else to_agent
    else if not (bytes_eq path (codes "/"))
    then not_found
    else if origin_allowed origin allow_any
    then to_extension
    else forbidden

-- `PROTOCOL_VERSION` and `MIN_COMPATIBLE_PROTOCOL` of daemon/state.rs.
abbrev pub protocol_version : List ℕ
protocol_version = codes "1.0"

abbrev pub min_compatible_protocol : List ℕ
min_compatible_protocol = codes "1.0"

-- What the handshake reads of `HandshakeParams`.
pub record HandshakeParams : Type 0 where
  pub version : String
  pub protocol_version : String
  pub instance_id : String
  pub browser_name : String
  pub browser_version : String
  pub label : String
  pub min_compatible_protocol : Option String

-- The first message within five seconds: none, a broken or closed stream, a message that is no text,
-- or a text, which may not be a request.
pub data FirstMessage (V : Type 0) : Type 0 where
  silence stream_error closed not_text : FirstMessage V
  text : Option (RequestFrame V) → FirstMessage V

-- The connection ends, perhaps with a last response, or goes on with a registered client: its
-- address, id and generation.
pub data Greeted (V : Type 0) : Type 0 where
  ended : Option (ResponseFrame V) → Greeted V
  registered : ℕ → String → ℕ → Greeted V

abbrev pub codes_of : Option String → Option (List ℕ)
codes_of none = none
codes_of (some s) = some (codes s)

abbrev pub verdict_on : HandshakeParams → HandshakeCompat
verdict_on p =
    evaluate_handshake_compat (codes p.protocol_version) (codes_of p.min_compatible_protocol)
      protocol_version min_compatible_protocol

module _ {V : Type 0} where
  abbrev pub refusal : RequestFrame V → RpcError V → Greeted V
  refusal r e = ended (some (record { id = r.id; body = err e }))

  -- The client, which gets its generation as it is registered.
  abbrev pub client_of : HandshakeParams → ℕ → Bool → BrowserClient V
  client_of p now version_skew = record {
    id = p.instance_id;
    browser_name = p.browser_name;
    browser_version = p.browser_version;
    extension_version = p.version;
    extension_protocol_version = p.protocol_version;
    label = p.label;
    sink = record { is_open = true; sent = [] };
    pending = no_waiters;
    generation = 0;
    connected_at_ms = now;
    version_skew = version_skew;
  }

  unfoldable pub register : DaemonState V → HandshakeParams → ℕ → Bool → DaemonState V × Greeted V
  unfolding connect
  register st p now version_skew =
      let (browsers, a) = connect st.browsers (client_of p now version_skew) in
      (record st { browsers = browsers }, registered a p.instance_id st.browsers.next_generation)

  -- `details` is the data of the refusal.
  abbrev pub admit :
      DaemonState V
      → RequestFrame V
      → HandshakeParams
      → ℕ
      → V
      → HandshakeCompat
      → DaemonState V × Greeted V
  admit st r p now details (reject reason) =
      (st, refusal r (record { code = version_too_old; details = some details }))
  admit st r p now details skew = register st p now true
  admit st r p now details ok = register st p now false

module _ {V : Type 0} (read_params : V → Option HandshakeParams) where
  abbrev pub params_of : Option V → Option HandshakeParams
  params_of none = none
  params_of (some v) = read_params v

module _ {V : Type 0} (read_params : V → Option HandshakeParams)
    (details : HandshakeParams → V) where
  abbrev pub greet_params :
      DaemonState V → RequestFrame V → ℕ → Option HandshakeParams → DaemonState V × Greeted V
  greet_params st r now none = (st, ended none)
  greet_params st r now (some p) = admit st r p now (details p) (verdict_on p)

  abbrev pub greet_request : DaemonState V → RequestFrame V → ℕ → DaemonState V × Greeted V
  greet_request st r now =
      if str_eq (as_str r.method) (as_str system_handshake)
      then greet_params st r now (params_of read_params r.params)
      else (st, refusal r (plain protocol_error))

  -- Up to the registration.
  unfoldable pub greet : DaemonState V → FirstMessage V → ℕ → DaemonState V × Greeted V
  unfolding register evaluate_handshake_compat
  greet st (text (some r)) now = greet_request st r now
  greet st (text none) now = (st, ended none)
  greet st silence now = (st, ended none)
  greet st stream_error now = (st, ended none)
  greet st closed now = (st, ended none)
  greet st not_text now = (st, ended none)

module _ {V : Type 0} where
  -- The receiver of the outbound frames is dropped with the connection's task.
  abbrev pub closed_sink : BrowserClient V → BrowserClient V
  closed_sink c = record c { sink = record { is_open = false; sent = c.sink.sent } }

  abbrev pub close_at : DaemonState V → ℕ → Option (BrowserClient V) → DaemonState V
  close_at st a none = st
  close_at st a (some c) = record st {
    browsers = record {
      table = st.browsers.table;
      clients = set st.browsers.clients a (closed_sink c);
      next_generation = st.browsers.next_generation;
    };
  }

  unfoldable pub drop_receiver : DaemonState V → ℕ → DaemonState V
  drop_receiver st a = close_at st a (client_at st.browsers a)

  -- The reply to the handshake: if it cannot be written, `?` leaves the function.
  unfoldable pub reply : DaemonState V → ℕ → Bool → DaemonState V
  unfolding drop_receiver
  reply st a sent = if sent then st else drop_receiver st a

  -- The end of the pump loop, and the cleanup.
  unfoldable pub hang_up : DaemonState V → ℕ → String → ℕ → DaemonState V
  unfolding drop_receiver disconnect
  hang_up st a id generation = drop_receiver (disconnect st id generation) a
