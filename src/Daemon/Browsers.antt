-- ===== src/Daemon/Browsers.antt =====
-- crates/tabstride-cli/src/daemon/browsers.rs: the connected extensions. A client is shared by the
-- registry, its connection and the workers that write to it, so it lives at an address of a heap.
pub mod Pending
pub mod Select
pub mod Generations
use tab_stride.Prelude.{
  ◌==◌, if◌then◌else◌, length, get_elem?, select, ℕ, suc, String, Bool, true, false, not, ◌&&◌,
  Option, none, some, List, [], ◌∷◌, ◌++◌, map, str_eq,
}
use tab_stride.Protocol.Frame.{RequestFrame}
use tab_stride.Map.{Map, insert, lookup, values, remove}

-- `BrowserSink`: the frames pushed so far, oldest first. `is_open` is false once the connection
-- has dropped the receiver of the unbounded channel.
pub record BrowserSink (V : Type 0) : Type 0 where
  pub is_open : Bool
  pub sent : List (RequestFrame V)

pub record BrowserClient (V : Type 0) : Type 0 where
  pub id : String
  pub browser_name : String
  pub browser_version : String
  pub extension_version : String
  pub extension_protocol_version : String
  pub label : String
  pub sink : BrowserSink V
  pub pending : Pending.Pending V
  pub generation : ℕ
  pub connected_at_ms : ℕ
  pub version_skew : Bool

-- `BrowserRegistry`, the clients that exist, and the process-wide generation counter.
pub record Browsers (V : Type 0) : Type 0 where
  pub table : Map ℕ
  pub clients : List (BrowserClient V)
  pub next_generation : ℕ

pub data SelectError : Type 0 where
  no_browser_connected multiple_browsers_online not_found : SelectError
  ambiguous_label : String → List String → SelectError

pub data Selected : Type 0 where
  found : ℕ → Selected
  failed : SelectError → Selected

-- The only connected client.
unfoldable pub only : List ℕ → Selected
only [] = failed no_browser_connected
only (a ∷ []) = found a
only (a ∷ b ∷ rest) = failed multiple_browsers_online

module _ {V : Type 0} where
  -- `BrowserSink::send`
  unfoldable pub send : RequestFrame V → BrowserSink V → BrowserSink V × Bool
  send f s = if s.is_open then (record s { sent = s.sent ++ f ∷ [] }, true) else (s, false)

  -- `BrowserRegistry::new`; the counter starts at 1.
  abbrev pub empty : Browsers V
  empty = record { table = []; clients = []; next_generation = 1 }

  abbrev pub client_at : Browsers V → ℕ → Option (BrowserClient V)
  client_at r a = get_elem? r.clients a

  -- What `drive_connection` does once the handshake is accepted: the client gets a fresh
  -- generation and is registered under its id, in place of an earlier connection.
  unfoldable pub connect : Browsers V → BrowserClient V → Browsers V × ℕ
  connect r c = (
    record {
      table = insert c.id (length r.clients) r.table;
      clients = r.clients ++ record c { generation = r.next_generation } ∷ [];
      next_generation = suc r.next_generation;
    },
    length r.clients,
  )

  -- `get`
  unfoldable pub get : Browsers V → String → Option ℕ
  get r id = lookup id r.table

  unfoldable pub is_empty : Browsers V → Bool
  is_empty r = elim r.table [ [] ↦ true | _ ∷ _ ↦ false ]

  -- Whether the client at an address has the generation.
  unfoldable pub has_generation : Browsers V → ℕ → ℕ → Bool
  has_generation r generation a = elim (client_at r a) [
    | none ↦ false
    | some c ↦ c.generation == generation
  ]

  -- The registry, and whether an entry was removed.
  unfoldable pub remove_if_generation_matches : Browsers V → String → ℕ → Browsers V × Bool
  unfolding has_generation
  remove_if_generation_matches r id generation = elim (lookup id r.table) [
    | none ↦ (r, false)
    | some a ↦
        if has_generation r generation a
        then (record r { table = remove id r.table }, true)
        else (r, false)
  ]

  -- `!c.label.is_empty() && c.label == needle`
  unfoldable pub has_label : Browsers V → String → ℕ → Bool
  has_label r needle a = elim (client_at r a) [
    | none ↦ false
    | some c ↦ not (str_eq c.label "") && str_eq c.label needle
  ]

  abbrev pub id_at : Browsers V → ℕ → String
  id_at r a = elim (client_at r a) [ none ↦ "" | some c ↦ c.id ]

  -- The match on the clients that carry the label.
  unfoldable pub by_label : Browsers V → String → List ℕ → Selected
  by_label r needle [] = failed not_found
  by_label r needle (a ∷ []) = found a
  by_label r needle (a ∷ b ∷ rest) = failed (ambiguous_label needle (map (id_at r) (a ∷ b ∷ rest)))

  unfoldable pub choose : Browsers V → Option String → Selected
  unfolding has_label by_label only
  choose r none = only (values r.table)
  choose r (some needle) =
      if str_eq needle "" then only (values r.table) else elim (lookup needle r.table) [
        | some a ↦ found a
        | none ↦ by_label r needle (select (has_label r needle) (values r.table))
      ]
