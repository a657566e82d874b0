-- ===== src/Daemon/Inflight.antt =====
-- crates/tabstride-cli/src/daemon/inflight.rs. An entry is shared by the registry, its guard, the
-- queued job and the worker, so it lives at an address of a heap; what the source does under one
-- lock of the entry is one step here.
pub mod Registration
pub mod Entry
pub mod Sweep
pub mod Races
use tab_stride.Prelude.{
  ◌==◌, if◌then◌else◌, length, get_elem?, set, select, ℕ, String, Bool, true, false, Option, none,
  some, List, [], ◌∷◌, ◌++◌, str_eq,
}
use tab_stride.Map.{Map, contains_key, lookup, values, points_to, insert, remove}

pub data CancelReason : Type 0 where
  cancelled user_aborted : CancelReason

-- `ToolInflightEntry`: `tripped` is the flag of its abort token, the rest is `InflightInner`.
pub record InflightEntry : Type 0 where
  pub tripped : Bool
  pub browser_id : Option String
  pub ws_rpc_id : Option String
  pub is_dead : Bool  -- `InflightInner::cancelled`
  pub cancel_reason : Option CancelReason
  pub session_id : String

pub record InflightSnapshot : Type 0 where
  pub browser_id : Option String
  pub ws_rpc_id : Option String

pub data PromoteOutcome : Type 0 where
  promoted refused send_failed : PromoteOutcome

-- `ToolInflightEntry::new`
abbrev pub new_entry : String → InflightEntry
new_entry sid = record {
  tripped = false;
  browser_id = none;
  ws_rpc_id = none;
  is_dead = false;
  cancel_reason = none;
  session_id = sid;
}

-- `promote_to_forwarded_with`: the closure acts on the world `W` and says whether it succeeded.
-- (`refused` is `PromoteOutcome::Cancelled`.)
unfoldable pub promote_to_forwarded_with {ℓ} :
    {W : Type ℓ}
    → InflightEntry
    → String
    → String
    → (W → W × Bool)
    → W
    → record { entry : InflightEntry; outcome : PromoteOutcome; world : W }
promote_to_forwarded_with e browser_id ws_rpc_id dispatch w =
    if e.is_dead
    then record { entry = e; outcome = refused; world = w }
    else let (w', sent) = dispatch w in
      if sent
      then record {
        entry = record e { browser_id = some browser_id; ws_rpc_id = some ws_rpc_id };
        outcome = promoted;
        world = w';
      }
      else record {
        entry = record e { browser_id = none; ws_rpc_id = none };
        outcome = send_failed;
        world = w';
      }

-- `Option::get_or_insert`
abbrev pub get_or_insert {ℓ} : {A : Type ℓ} → Option A → A → Option A
get_or_insert none a = some a
get_or_insert (some b) a = some b

abbrev pub snapshot : InflightEntry → InflightSnapshot
snapshot e = record { browser_id = e.browser_id; ws_rpc_id = e.ws_rpc_id }

unfoldable pub cancel_and_snapshot : InflightEntry → CancelReason → InflightEntry × InflightSnapshot
cancel_and_snapshot e reason = (
  record e { is_dead = true; cancel_reason = get_or_insert e.cancel_reason reason; tripped = true },
  snapshot e,
)

pub record InflightRegistry : Type 0 where
  pub table : Map ℕ
  pub entries : List InflightEntry

pub record InflightGuard : Type 0 where
  pub cli_rpc_id : String
  pub entry : ℕ

abbrev pub empty : InflightRegistry
empty = record { table = []; entries = [] }

-- `none` is `DuplicateRpcId`.
unfoldable pub register :
    InflightRegistry → String → String → InflightRegistry × Option InflightGuard
register r cli_rpc_id session_id = if contains_key cli_rpc_id r.table then (r, none) else (
  record {
    table = insert cli_rpc_id (length r.entries) r.table;
    entries = r.entries ++ new_entry session_id ∷ [];
  },
  some (record { cli_rpc_id = cli_rpc_id; entry = length r.entries }),
)

-- The entry at an address; an address that is handed out always holds one.
abbrev pub entry_at : InflightRegistry → ℕ → Option InflightEntry
entry_at r a = get_elem? r.entries a

-- One entry is cancelled in place.
unfoldable pub cancel_at :
    InflightRegistry → ℕ → CancelReason → InflightRegistry × Option InflightSnapshot
unfolding cancel_and_snapshot
cancel_at r a reason = elim (entry_at r a) [
  | none ↦ (r, none)
  | some e ↦
      let (e', snap) = cancel_and_snapshot e reason in
      (record r { entries = set r.entries a e' }, some snap)
]

unfoldable pub cancel : InflightRegistry → String → InflightRegistry × Option InflightSnapshot
unfolding cancel_at
cancel r cli_rpc_id = elim (lookup cli_rpc_id r.table) [
  | none ↦ (r, none)
  | some a ↦ cancel_at r a cancelled
]

-- Whether the entry at an address belongs to the session.
unfoldable pub is_of_session : List InflightEntry → String → ℕ → Bool
is_of_session entries sid a = elim (get_elem? entries a) [
  | none ↦ false
  | some e ↦ str_eq e.session_id sid
]

-- The loop of `cancel_session` over the entries collected.
unfoldable pub cancel_each : InflightRegistry → List ℕ → InflightRegistry × List InflightSnapshot
unfolding cancel_at
cancel_each r [] = (r, [])
cancel_each r (a ∷ rest) =
    let (r', snap) = cancel_at r a user_aborted in
    let (r'', snaps) = cancel_each r' rest in (r'', elim snap [ none ↦ snaps | some s ↦ s ∷ snaps ])

unfoldable pub cancel_session : InflightRegistry → String → InflightRegistry × List InflightSnapshot
unfolding cancel_each is_of_session
cancel_session r sid = cancel_each r (select (is_of_session r.entries sid) (values r.table))

-- `unregister`, the `Drop` of a guard.
unfoldable pub unregister : InflightRegistry → InflightGuard → InflightRegistry
unregister r g =
    if points_to (lookup g.cli_rpc_id r.table) g.entry
    then record r { table = remove g.cli_rpc_id r.table }
    else r
