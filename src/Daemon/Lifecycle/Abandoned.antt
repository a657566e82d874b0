-- ===== src/Daemon/Lifecycle/Abandoned.antt =====
-- A `start_session` that is dropped while it waits, as `tasks.abort_all()` of
-- crates/tabstride-cli/src/daemon/agent_ws.rs drops it when its agent disconnects: what stands after
-- its first part stays.
use tab_stride.Map.{lookup, Map, insert}
use tab_stride.Daemon.Browsers.{get, BrowserClient, client_at, found, send}
use tab_stride.Daemon.Queue.{rejects, holds, Slot, dispatch_after_closing}
use tab_stride.Daemon.State.{DaemonState}
use tab_stride.Daemon.Lifecycle.{
  stop_begin, StopError, start_at, start_begin, starts, max_reserve_attempts,
}
use tab_stride.Prelude.{
  Bool-cases, Option-cases, is_some, String, ◌≡◌, refl, ◌⊎◌, inl, inr, Bool, true, false, none, ℕ,
  sym, ap, ◌∙◌, Option, some, arith,
}
use tab_stride.Daemon.Sessions.{Session, SessionMode, placeholder, reserve_id}
use tab_stride.Daemon.Sessions.Reservation.{Reserved, reserve_id-Reserved}
use tab_stride.Protocol.Frame.{RequestFrame}
use tab_stride.Map.Laws.{lookup-insert_self}

module _ {V : Type 0} where
  abbrev pub is_refused : StopError V ⊎ Slot V → Bool
  is_refused (inl e) = true
  is_refused (inr (rejects r)) = true
  is_refused (inr (holds a)) = false

  stop_refused_without_queue :
      (st : DaemonState V) (sid : String)
      → lookup sid st.tool_queues.table ≡ none
      → ((stop_begin st sid).0 ≡ st) × (is_refused (stop_begin st sid).1 ≡ true)
  unfolding stop_begin dispatch_after_closing
  stop_refused_without_queue st sid h = elim (Option-cases (lookup sid st.sessions)) [
    | inl e ↦ rw (e, stop_begin) (refl, refl)
    | inr (s, e) ↦ elim (Bool-cases (is_some (get st.browsers s.browser_id))) [
      | inl y ↦
          rw (e, stop_begin) (rw (y, stop_begin) (rw (h, dispatch_after_closing) (refl, refl)))
      | inr n ↦ rw (e, stop_begin) (rw (n, stop_begin) (refl, refl))
    ]
  ]

  of_Reserved :
      (m : Map (Session V)) (browser : String) (mode : SessionMode) (draw : ℕ → String)
      (now i n : ℕ) (r : Map (Session V) × Option String) (k : String)
      → Reserved m browser mode draw now i n r
      → r.1 ≡ some k
      → (lookup k m ≡ none) × (r.0 ≡ insert k (placeholder k browser mode now) m)
  of_Reserved m browser mode draw now i n (m', none) k h e = absurd (cc)
  of_Reserved m browser mode draw now i n (m', some id) k (free, made) e =
      let same : id ≡ k = ground arith in rw (sym same) (free, made)

  reserved_by_start :
      (st st' : DaemonState V) (a : ℕ) (c : BrowserClient V) (mode : SessionMode)
      (draw : ℕ → String) (now : ℕ) (rpc_id : String) (request : String → RequestFrame V)
      (sid : String) (b m : ℕ)
      → start_at st a c mode draw now rpc_id request ≡ (st', starts sid b m)
      → (lookup sid st.sessions ≡ none)
        × (st'.sessions ≡ insert sid (placeholder sid c.id mode now) st.sessions)
        × (st'.tool_queues ≡ st.tool_queues)
  unfolding start_at
  reserved_by_start st st' a c mode draw now rpc_id request sid b m h =
      let r = reserve_id st.sessions c.id mode max_reserve_attempts draw now in
      let done = reserve_id-Reserved st.sessions c.id mode max_reserve_attempts draw now in
      elim (Option-cases r.1) [
        | inl e ↦ absurd (ground arith)
        | inr (k, e) ↦
            let (free, made) =
              of_Reserved st.sessions c.id mode draw now 0 max_reserve_attempts r k done e in
            elim (Bool-cases (send (request k) c.sink).1) [
              | inr n ↦ absurd (ground arith)
              | inl y ↦ (ground arith, ground arith, ground arith)
            ]
      ]

  -- A start that is dropped while it waits leaves its id registered as a session of the browser, with
  -- no queue: every stop of that session is refused and changes nothing.
  pub abandoned_start_sticks :
      (st st' : DaemonState V) (a : ℕ) (c : BrowserClient V) (mode : SessionMode)
      (draw : ℕ → String) (now : ℕ) (rpc_id : String) (request : String → RequestFrame V)
      (sid : String) (b m : ℕ)
      → client_at st.browsers a ≡ some c
      → start_begin st (found a) mode draw now rpc_id request ≡ (st', starts sid b m)
      → lookup sid st.tool_queues.table ≡ none
      → (lookup sid st.sessions ≡ none)
        × (lookup sid st'.sessions ≡ some (placeholder sid c.id mode now))
        × ((stop_begin st' sid).0 ≡ st')
        × (is_refused (stop_begin st' sid).1 ≡ true)
  unfolding start_begin
  abandoned_start_sticks st st' a c mode draw now rpc_id request sid b m k h q =
      let (free, made, same) =
        reserved_by_start st st' a c mode draw now rpc_id request sid b m (ground arith) in
      let (x, y) = stop_refused_without_queue st' sid (ap (λ t. lookup sid t.table) same ∙ q) in
      (
        free,
        ap (lookup sid) made ∙ lookup-insert_self sid (placeholder sid c.id mode now) st.sessions,
        x,
        y,
      )
