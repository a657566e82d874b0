-- ===== src/Daemon/Abort.antt =====
-- crates/tabstride-cli/src/daemon/abort.rs. A token is shared by its registry, its guard and its
-- handler, so it lives at an address of a heap; a mutex makes each operation one step.
pub mod Tokens
use tab_stride.Prelude.{
  ◌==◌, if◌then◌else◌, get_or, length, get_elem?, set, ℕ, String, Bool, true, false, Option, none,
  some, List, [], ◌∷◌, ◌++◌,
}
use tab_stride.Map.{Map, contains_key, lookup, insert, remove, points_to}

pub record AbortRegistry : Type 0 where
  pub tokens : Map ℕ  -- the address of the token registered under an rpc id
  pub flags : List Bool  -- `AbortInner::cancelled` of each token

-- The guard that `register` returns: what its `Drop` needs.
pub record AbortGuard : Type 0 where
  pub rpc_id : String
  pub token : ℕ

-- `AbortRegistry::new`
abbrev pub empty : AbortRegistry
empty = record { tokens = []; flags = [] }

-- `none` is `DuplicateRpcId`.
unfoldable pub register : AbortRegistry → String → AbortRegistry × Option AbortGuard
register r rpc_id = if contains_key rpc_id r.tokens then (r, none) else (
  record r { tokens = insert rpc_id (length r.flags) r.tokens; flags = r.flags ++ false ∷ [] },
  some (record { rpc_id = rpc_id; token = length r.flags }),
)

-- `AbortToken::cancel`
abbrev pub trip : List Bool → ℕ → List Bool
trip flags a = set flags a true

-- `AbortToken::is_cancelled`
unfoldable pub is_cancelled : AbortRegistry → ℕ → Bool
is_cancelled r a = get_or (get_elem? r.flags a) false

unfoldable pub cancel : AbortRegistry → String → AbortRegistry × Bool
cancel r rpc_id = elim (lookup rpc_id r.tokens) [
  | some a ↦ (record r { flags = trip r.flags a }, true)
  | none ↦ (r, false)
]

-- `unregister`, the `Drop` of a guard.
unfoldable pub unregister : AbortRegistry → AbortGuard → AbortRegistry
unregister r g =
    if points_to (lookup g.rpc_id r.tokens) g.token
    then record r { tokens = remove g.rpc_id r.tokens }
    else r
