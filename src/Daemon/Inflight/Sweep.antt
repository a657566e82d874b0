-- ===== src/Daemon/Inflight/Sweep.antt =====
-- The registry: which entries a cancellation reaches. `cancel_session` reads the table under the
-- registry's lock and then walks the entries; entries registered meanwhile are not in the walk.
use tab_stride.Prelude.{
  ◌==◌, if◌then◌else◌, Bool-cases, Option-cases, length, select, length-alloc, get_elem?-set,
  lt-length_of_get, ℕ, String, ◌≡◌, inl, inr, Bool, true, false, ◌||◌, Option, none, some, List, [],
  ◌∷◌, arith, str_eq, get_elem?, ◌&&◌,
}
use tab_stride.Daemon.Inflight.{
  InflightRegistry, register, unregister, CancelReason, cancel_at, cancel_and_snapshot, cancel_each,
  cancel_session, InflightGuard, InflightEntry, entry_at, new_entry, user_aborted, is_of_session,
}
use tab_stride.Map.{lookup, contains_key, points_to, values}
use tab_stride.Map.Table.{Owns, insert-Owns, remove-Owns}
use tab_stride.Map.Values.{mem_addr, mem-select, mem-values}

abbrev pub IsValid : InflightRegistry → Type 0
IsValid r = Owns (length r.entries) r.table

pub register-IsValid :
    (r : InflightRegistry) (k sid : String) → IsValid r → IsValid (register r k sid).0
unfolding register
register-IsValid r k sid v = elim (Bool-cases (contains_key k r.table)) [
  | inl dup ↦ rw dup v
  | inr new ↦
      rw (new, length-alloc r.entries (new_entry sid)) (insert-Owns (length r.entries) k r.table v)
]

pub unregister-IsValid :
    (r : InflightRegistry) (g : InflightGuard) → IsValid r → IsValid (unregister r g)
unfolding unregister
unregister-IsValid r g v = elim (Bool-cases (points_to (lookup g.cli_rpc_id r.table) g.entry)) [
  | inl e ↦ rw e (remove-Owns (length r.entries) g.cli_rpc_id r.table v)
  | inr e ↦ rw e v
]

-- An entry after a cancellation, if it is one of those that are reached.
abbrev pub cancelled_if : Bool → CancelReason → Option InflightEntry → Option InflightEntry
cancelled_if b reason none = none
cancelled_if false reason (some e) = some e
cancelled_if true reason (some e) = some (cancel_and_snapshot e reason).0

pub entry_at-cancel_at :
    (r : InflightRegistry) (a b : ℕ) (reason : CancelReason)
    → entry_at (cancel_at r a reason).0 b ≡ cancelled_if (a == b) reason (entry_at r b)
unfolding cancel_at
entry_at-cancel_at r a b reason = elim (Option-cases (entry_at r a)) [
  | inl e ↦ rw (e, cancel_at) (ground arith)
  | inr (x, e) ↦
      rw (e, cancel_at)
        (ground (
          arith,
          get_elem?-set r.entries a b (cancel_and_snapshot x reason).0
              (lt-length_of_get r.entries a e),
        ))
]

table-cancel_at :
    (r : InflightRegistry) (a : ℕ) (reason : CancelReason)
    → (cancel_at r a reason).0.table ≡ r.table
unfolding cancel_at
table-cancel_at r a reason = ground arith

cancel_twice :
    (o : Option InflightEntry) (b c : Bool) (reason : CancelReason)
    → cancelled_if b reason (cancelled_if c reason o) ≡ cancelled_if (c || b) reason o
unfolding cancel_and_snapshot
cancel_twice o b c reason = ground arith

entry_at-cancel_each :
    (r : InflightRegistry) (rest : List ℕ) (b : ℕ)
    → entry_at (cancel_each r rest).0 b ≡ cancelled_if (mem_addr b rest) user_aborted (entry_at r b)
unfolding cancel_each
entry_at-cancel_each r [] b = ground arith
entry_at-cancel_each r (a ∷ rest) b =
    rw
      (
        entry_at-cancel_each (cancel_at r a user_aborted).0 rest b,
        entry_at-cancel_at r a b user_aborted,
      )
      (cancel_twice (entry_at r b) (mem_addr b rest) (a == b) user_aborted)

-- A session sweep cancels each registered entry of the session, with the reason `user_aborted`
-- unless it had one, and leaves each entry of another session as it was.
pub entry_at-cancel_session :
    (r : InflightRegistry) (sid k : String) (a : ℕ) (e : InflightEntry)
    → lookup k r.table ≡ some a
    → entry_at r a ≡ some e
    → entry_at (cancel_session r sid).0 a
      ≡ (if str_eq e.session_id sid then some (cancel_and_snapshot e user_aborted).0 else some e)
unfolding cancel_session is_of_session
entry_at-cancel_session r sid k a e h he =
    rw
      (
        entry_at-cancel_each r (select (is_of_session r.entries sid) (values r.table)) a,
        mem-select (is_of_session r.entries sid) (values r.table) a,
        mem-values r.table k a h,
      )
      (session_case r.entries he)
  where
    session_case :
        (es : List InflightEntry)
        → get_elem? es a ≡ some e
        → cancelled_if (true && is_of_session es sid a) user_aborted (get_elem? es a) ≡ (
            if str_eq e.session_id sid then some (cancel_and_snapshot e user_aborted).0 else some e)
    session_case es h' = rw (h', is_of_session) (ground arith)
