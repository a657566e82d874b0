-- ===== src/Daemon/Inflight/Registration.antt =====
-- A registration and the guard that undoes it.
use tab_stride.Prelude.{
  length, String, ◌≡◌, refl, true, false, none, some, [], ◌∷◌, ◌++◌, arith, eq_iff,
}
use tab_stride.Daemon.Inflight.{register, unregister, InflightRegistry, InflightGuard, new_entry}
use tab_stride.Map.{insert, contains_key, lookup}
use tab_stride.Map.Laws.{lookup-insert_self, lookup-remove, lookup-insert}

abbrev pub fresh : InflightRegistry → String → String → InflightRegistry
fresh r id sid = record {
  table = insert id (length r.entries) r.table;
  entries = r.entries ++ new_entry sid ∷ [];
}

abbrev pub guard_of : InflightRegistry → String → InflightGuard
guard_of r id = record { cli_rpc_id = id; entry = length r.entries }

pub unregister-fresh :
    (r : InflightRegistry) (id sid k : String)
    → contains_key id r.table ≡ false
    → lookup k (unregister (fresh r id sid) (guard_of r id)).table ≡ lookup k r.table
unfolding unregister
unregister-fresh r id sid k h = ground (
  arith,
  lookup-insert_self id (length r.entries) r.table,
  lookup-remove id k (insert id (length r.entries) r.table),
  lookup-insert id k (length r.entries) r.table,
  eq_iff id k,
)

pub register-fresh :
    (r : InflightRegistry) (id sid : String)
    → contains_key id r.table ≡ false
    → register r id sid ≡ (fresh r id sid, some (guard_of r id))
unfolding register
register-fresh r id sid h = rw (register, h) refl

pub register_duplicate :
    (r : InflightRegistry) (id sid : String)
    → contains_key id r.table ≡ true
    → register r id sid ≡ (r, none)
unfolding register
register_duplicate r id sid h = rw (register, h) refl
