-- ===== src/Tests/Samples.antt =====
-- A JSON value type, and a daemon with one browser and one session, to run the model on.
use tab_stride.Prelude.{ℕ, String, ◌≡◌, refl, ap, Bool, true, false, Option, none, some, [], ◌∷◌}
use tab_stride.Daemon.Browsers.Pending.{empty as no_waiters}
use tab_stride.Timing.{TimingTrace}
use tab_stride.Map.{Map}
use tab_stride.Json.{Json}
use tab_stride.Daemon.Browsers.{BrowserClient, Browsers}
use tab_stride.Daemon.Sessions.{Session, isolated, no_data}
use tab_stride.Daemon.Inflight.{InflightEntry, new_entry}
use tab_stride.Daemon.Queue.{ToolJob, Queue, ToolQueues}
use tab_stride.Daemon.State.{DaemonState}
use tab_stride.Protocol.Method.{tool_click}

mutual
  pub data Doc : Type 0 where
    word : String → Doc
    number : ℕ → Doc
    traced : TimingTrace → Doc
    dict : Fields → Doc
    null : Doc

  pub data Fields : Type 0 where
    done : Fields
    field : String → Doc → Fields → Fields

abbrev pub to_fields : Map Doc → Fields
to_fields [] = done
to_fields ((k, v) ∷ m) = field k v (to_fields m)

abbrev pub from_fields : Fields → Map Doc
from_fields done = []
from_fields (field k v fs) = (k, v) ∷ from_fields fs

pub from-to_fields : (m : Map Doc) → from_fields (to_fields m) ≡ m
from-to_fields [] = refl
from-to_fields ((k, v) ∷ m) = ap (λ fs. (k, v) ∷ fs) (from-to_fields m)

abbrev pub dict_of : Doc → Option (Map Doc)
dict_of (dict fs) = some (from_fields fs)
dict_of (word s) = none
dict_of (number n) = none
dict_of (traced t) = none
dict_of null = none

abbrev pub word_of : Doc → Option String
word_of (word s) = some s
word_of (dict fs) = none
word_of (number n) = none
word_of (traced t) = none
word_of null = none

abbrev pub number_of : Doc → Option ℕ
number_of (number n) = some n
number_of (dict fs) = none
number_of (word s) = none
number_of (traced t) = none
number_of null = none

abbrev pub trace_of : Doc → Option TimingTrace
trace_of (traced t) = some t
trace_of (dict fs) = none
trace_of (word s) = none
trace_of (number n) = none
trace_of null = none

abbrev pub null_of : Doc → Bool
null_of null = true
null_of (word s) = false
null_of (number n) = false
null_of (traced t) = false
null_of (dict fs) = false

abbrev pub docs : Json
docs = record {
  Value = Doc;
  object = λ m. dict (to_fields m);
  as_object = dict_of;
  text = word;
  as_str = word_of;
  as_u64 = number_of;
  is_null = null_of;
  encode_trace = traced;
  decode_trace = trace_of;
  as_object-object = λ m. ap some (from-to_fields m);
  decode-encode = λ t. refl;
}

abbrev pub chrome : BrowserClient Doc
chrome = record {
  id = "b1";
  browser_name = "Chrome";
  browser_version = "120";
  extension_version = "1.0.0";
  extension_protocol_version = "1.2";
  label = "work";
  sink = record { is_open = true; sent = [] };
  pending = no_waiters;
  generation = 0;
  connected_at_ms = 5;
  version_skew = false;
}

abbrev pub online : Browsers Doc
online = record {
  table = ("b1", 0) ∷ [];
  clients = record chrome { generation = 1 } ∷ [];
  next_generation = 2;
}

abbrev pub first_session : Session Doc
first_session = record {
  id = "s1";
  browser_id = "b1";
  mode = isolated;
  created_at_ms = 7;
  committed = no_data;
}

abbrev pub call_entry : InflightEntry
call_entry = new_entry "s1"

abbrev pub call_job : ToolJob Doc
call_job = record {
  method = tool_click;
  params = dict done;
  timeout_ms = 32000;
  respond = 0;
  inflight = some 0;
  session_id = "s1";
}

abbrev pub idle_queue : Queue Doc
idle_queue = record { busy = false; jobs = []; running = none; is_open = true }

abbrev pub queues : ToolQueues Doc
queues = record {
  table = ("s1", record { queue = 0; accepting = true }) ∷ [];
  queues = idle_queue ∷ [];
}

abbrev pub daemon : DaemonState Doc
daemon = record {
  browsers = online;
  sessions = ("s1", first_session) ∷ [];
  tool_queues = queues;
  tool_inflight = record { table = ("rpc1", 0) ∷ []; entries = call_entry ∷ [] };
  abort_registry = record { tokens = []; flags = [] };
  session_interrupts = ("s1", tt) ∷ [];
}

-- An event's payload, and the parameters of a call, for the session.
abbrev pub payload : Doc
payload = dict (field "session_id" (word "s1") done)
