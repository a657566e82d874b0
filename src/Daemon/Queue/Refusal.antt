-- ===== src/Daemon/Queue/Refusal.antt =====
-- A dispatch that is refused changes nothing.
use tab_stride.Prelude.{
  ℕ, Bool-cases, Option-cases, ◌>>=◌, String, ◌≡◌, refl, sym, ap, ◌∙◌, inl, inr, arith,
}
use tab_stride.Daemon.Queue.{
  rejects, holds, dispatch, ToolQueues, hold, Slot, queue_at, DispatchError, take_slot,
}
use tab_stride.Map.{lookup}

module _ {V : Type 0} where
  -- A refusal leaves the registry as it was.
  abbrev pub Unchanged : ToolQueues V → ToolQueues V × Slot V → Type 0
  Unchanged r (r', rejects e) = r' ≡ r
  Unchanged r (r', holds a) = Unit

  hold-Unchanged : (r : ToolQueues V) (a : ℕ) → Unchanged r (hold r a)
  unfolding hold
  hold-Unchanged r a = elim (Option-cases (queue_at r a >>= take_slot)) [
    | inl e ↦ rw (e, hold) refl
    | inr (q, e) ↦ rw (e, hold) tt
  ]

  dispatch-Unchanged : (r : ToolQueues V) (sid : String) → Unchanged r (dispatch r sid)
  unfolding dispatch
  dispatch-Unchanged r sid = elim (Option-cases (lookup sid r.table)) [
    | inl h ↦ rw (h, dispatch) refl
    | inr (e, h) ↦ elim (Bool-cases e.accepting) [
      | inl y ↦ rw (h, dispatch, y) (hold-Unchanged r e.queue)
      | inr n ↦ rw (h, dispatch, n) refl
    ]
  ]

  Unchanged-of :
      (r : ToolQueues V) (p : ToolQueues V × Slot V) (r' : ToolQueues V) (e : DispatchError V)
      → p ≡ (r', rejects e)
      → Unchanged r p
      → r' ≡ r
  Unchanged-of r (q, rejects f) r' e h u = sym (ap (λ p. p.0) h) ∙ u
  Unchanged-of r (q, holds a) r' e h u = absurd (ground arith)

  pub same_queues :
      (r r' : ToolQueues V) (sid : String) (e : DispatchError V)
      → dispatch r sid ≡ (r', rejects e)
      → r' ≡ r
  same_queues r r' sid e h = Unchanged-of r (dispatch r sid) r' e h (dispatch-Unchanged r sid)
