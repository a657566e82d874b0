-- ===== src/Daemon/Agent.antt =====
-- crates/tabstride-cli/src/daemon/agent_ws.rs behind its handshake: the requests and the sessions of
-- one agent connection. Sets of ids are maps to `Unit`.
pub mod Running
use tab_stride.Json.{Json, get}
use tab_stride.Map.{Map, insert, remove, contains_key, lookup}
use tab_stride.Protocol.Error.{Body, ok, err}
use tab_stride.Protocol.Method.{
  Method, system_handshake, session_start, session_stop, session_stop_all,
}
use tab_stride.Protocol.Frame.Codec.{Frame, request, response, event}
use tab_stride.Protocol.Frame.{RequestFrame}
use tab_stride.Prelude.{
  if◌then◌else◌, ◌>>=◌, get_or, String, Bool, true, false, Option, none, some, List, [], ◌∷◌, ◌++◌,
  map,
}

pub record Agent : Type 0 where
  pub active_ids : Map (Unit {0})
  pub owned_sessions : Map (Unit {0})

abbrev pub new_agent : Agent
new_agent = record { active_ids = []; owned_sessions = [] }

-- A text is refused under an id, or its request is spawned as a task.
pub data Dispatched (V : Type 0) : Type 0 where
  refuses : String → Dispatched V
  spawns : String → Method → V → Dispatched V

abbrev pub is_handshake : Method → Bool
is_handshake system_handshake = true
is_handshake _ = false

-- `dispatch_text`; `none` is a text that is no frame.
unfoldable pub dispatch_text : {V : Type 0} → V → Agent → Option (Frame V) → Agent × Dispatched V
dispatch_text null a none = (a, refuses "-")
dispatch_text null a (some (response r)) = (a, refuses "-")
dispatch_text null a (some (event e)) = (a, refuses "-")
dispatch_text null a (some (request r)) =
    if is_handshake r.method
    then (a, refuses r.id)
    else if contains_key r.id a.active_ids
    then (a, refuses r.id)
    else (
      record a { active_ids = insert r.id tt a.active_ids },
      spawns r.id r.method (get_or r.params null),
    )

unfoldable pub remove_all : List String → Map (Unit {0}) → Map (Unit {0})
remove_all [] owned = owned
remove_all (id ∷ ids) owned = remove_all ids (remove id owned)

-- `texts_of` reads the strings of an array, and nothing from another value.
module _ (j : Json) (texts_of : j.Value → List String) where
  open j use {Value, as_str}

  abbrev pub own : Map (Unit {0}) → Option String → Map (Unit {0})
  own owned none = owned
  own owned (some id) = insert id tt owned

  abbrev pub disown : Map (Unit {0}) → Option Value → Map (Unit {0})
  disown owned none = owned
  disown owned (some v) = remove_all (texts_of v) owned

  -- `update_owned_sessions`
  unfoldable pub update_owned_sessions : Map (Unit {0}) → Method → Body Value → Map (Unit {0})
  unfolding remove_all get
  update_owned_sessions owned method (err e) = owned
  update_owned_sessions owned session_start (ok v) = own owned (get j "session_id" v >>= as_str)
  update_owned_sessions owned session_stop (ok v) = disown owned (get j "stopped" v)
  update_owned_sessions owned session_stop_all (ok v) = disown owned (get j "stopped" v)
  update_owned_sessions owned method (ok v) = owned

  -- The end of a task, with the answer of the handler.
  unfoldable pub finish_task : Agent → String → Method → Body Value → Agent
  unfolding update_owned_sessions
  finish_task a id method body = record {
    active_ids = remove id a.active_ids;
    owned_sessions = update_owned_sessions a.owned_sessions method body;
  }

-- What the end of a connection asks the handler for.
pub data Cleanup : Type 0 where
  cancels stops : String → Cleanup

abbrev pub keys_of : Map (Unit {0}) → List String
keys_of [] = []
keys_of ((k, u) ∷ m) = k ∷ keys_of m

-- The cancels come before the stops.
unfoldable pub disconnect_agent : Agent → List Cleanup
disconnect_agent a = map cancels (keys_of a.active_ids) ++ map stops (keys_of a.owned_sessions)
