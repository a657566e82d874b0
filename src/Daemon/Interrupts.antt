-- ===== src/Daemon/Interrupts.antt =====
-- crates/tabstride-cli/src/daemon/session_interrupt.rs: the sessions with a pending interrupt, a
-- `HashSet` as a map to `Unit`.
use tab_stride.Prelude.{String, ◌≡◌, Bool, true, false, str_eq, if◌then◌else◌, Bool-cases, inl, inr}
use tab_stride.Map.{Map, insert, contains_key, remove}
use tab_stride.Map.Laws.{map_laws}

abbrev pub Interrupts : Type 0
Interrupts = Map (Unit {0})

unfoldable pub mark : Interrupts → String → Interrupts
mark r sid = insert sid tt r

unfoldable pub is_pending : Interrupts → String → Bool
is_pending r sid = contains_key sid r

unfoldable pub try_consume : Interrupts → String → Interrupts × Bool
try_consume r sid = (remove sid r, contains_key sid r)

unfoldable pub drop_session : Interrupts → String → Interrupts
drop_session r sid = remove sid r

-- A marker is seen by the next probe of its session and by no later one, however often it was
-- set; the markers of other sessions stay.
pub try_consume_once :
    (r : Interrupts) (sid other : String)
    → let marked = mark (mark r sid) sid in
      let (r', first) = try_consume marked sid in
      (first ≡ true)
      × ((try_consume r' sid).1 ≡ false)
      × (is_pending r' other ≡ (if str_eq sid other then false else is_pending r other))
unfolding mark try_consume is_pending
try_consume_once r sid other = (
  simp map_laws,
  simp map_laws,
  elim (Bool-cases (str_eq sid other)) [ inl y ↦ simp (map_laws, y) | inr n ↦ simp (map_laws, n) ],
)
