-- ===== src/Daemon/Inflight/Races.antt =====
-- A worker that promotes an entry, callers that cancel it, and the sink that they write to, in any
-- order. Each step is one critical section of the entry's lock.
use tab_stride.Prelude.{
  if◌then◌else◌, All, String, ◌≡◌, refl, Bool, true, false, none, some, List, [], ◌∷◌, ◌++◌,
  Bool-cases, ◌⊎◌, inl, inr, arith,
}
use tab_stride.Daemon.Inflight.{
  InflightEntry, promote_to_forwarded_with, InflightSnapshot, CancelReason, cancel_and_snapshot,
}

-- What stands on the wire to the extension, oldest first.
pub data WireFrame : Type 0 where
  request cancel_of : String → WireFrame

-- `BrowserSink::send`: the channel is unbounded, so it fails only if the receiver is gone.
pub record Sink : Type 0 where
  pub is_open : Bool
  pub wire : List WireFrame

unfoldable pub send : WireFrame → Sink → Sink × Bool
send f s = if s.is_open then (record s { wire = s.wire ++ f ∷ [] }, true) else (s, false)

pub record Race : Type 0 where
  pub entry : InflightEntry
  pub sink : Sink
  pub offered : Bool  -- whether the worker has made its one attempt

-- `forward_one` offers the entry once, under a fresh WS id.
unfoldable pub offer : String → String → Race → Race
unfolding send
offer browser ws s =
    let r = promote_to_forwarded_with s.entry browser ws (send (request ws)) s.sink in
    record { entry = r.entry; sink = r.world; offered = true }

-- The canceller forwards a cancel frame if the snapshot shows a forwarded entry.
unfoldable pub forward : InflightSnapshot → Sink → Sink
unfolding send
forward snap s = elim snap.browser_id [
  | none ↦ s
  | some b ↦ elim snap.ws_rpc_id [ none ↦ s | some ws ↦ (send (cancel_of ws) s).0 ]
]

unfoldable pub cancel_race : CancelReason → Race → Race
unfolding forward
cancel_race reason s =
    let (e, snap) = cancel_and_snapshot s.entry reason in
    record s { entry = e; sink = forward snap s.sink }

module _ (browser ws : String) where
  pub data Step : Race → Race → Type 0 where
    offers : (s : Race) → s.offered ≡ false → Step s (offer browser ws s)
    cancels : (s : Race) (reason : CancelReason) → Step s (cancel_race reason s)
    closes : (s : Race) → Step s (record s { sink = record s.sink { is_open = false } })

  pub data Reach (s : Race) : Race → Type 0 where
    here : Reach s s
    next : {t u : Race} → Reach s t → Step t u → Reach s u

  abbrev pub IsCancel : WireFrame → Type 0
  IsCancel f = f ≡ cancel_of ws

  -- The entry looks queued and nothing was sent.
  abbrev pub Queued : Race → Type 0
  Queued s = (s.entry.ws_rpc_id ≡ none) × (s.entry.browser_id ≡ none) × (s.sink.wire ≡ [])

  -- The entry shows where the request went, and the request was sent before all cancellations.
  abbrev pub Forwarded : Race → Type 0
  Forwarded s =
      (cs : List WireFrame) × (s.entry.ws_rpc_id ≡ some ws)
      × (s.entry.browser_id ≡ some browser)
      × (s.offered ≡ true)
      × (s.sink.wire ≡ request ws ∷ cs)
      × All IsCancel cs

  append-IsCancel : (fs : List WireFrame) → All IsCancel fs → All IsCancel (fs ++ cancel_of ws ∷ [])
  append-IsCancel [] h = (refl, tt)
  append-IsCancel (f ∷ fs) h = (h.0, append-IsCancel fs h.1)

  offer-Queued :
      (s : Race) → Queued s → Queued (offer browser ws s) ⊎ Forwarded (offer browser ws s)
  unfolding offer promote_to_forwarded_with
  offer-Queued s (w, b, e) = elim (Bool-cases s.entry.is_dead) [
    | inl dead ↦ inl (ground arith, ground arith, ground arith)
    | inr live ↦ elim (Bool-cases s.sink.is_open) [
      | inl up ↦ inr ([], ground arith, ground arith, refl, ground arith, tt)
      | inr down ↦ inl (ground arith, ground arith, ground arith)
    ]
  ]

  cancel-Forwarded :
      (s : Race) (reason : CancelReason) → Forwarded s → Forwarded (cancel_race reason s)
  unfolding cancel_race cancel_and_snapshot
  cancel-Forwarded s reason (cs, w, b, o, e, a) = elim (Bool-cases s.sink.is_open) [
    | inl up ↦ (cs ++ cancel_of ws ∷ [], w, b, o, ground arith, append-IsCancel cs a)
    | inr down ↦ (cs, w, b, o, ground arith, a)
  ]

  cancel-Queued : (s : Race) (reason : CancelReason) → Queued s → Queued (cancel_race reason s)
  unfolding cancel_race cancel_and_snapshot
  cancel-Queued s reason (w, b, e) = (w, b, ground arith)

  Step-Inv : {s t : Race} → Step s t → Queued s ⊎ Forwarded s → Queued t ⊎ Forwarded t
  Step-Inv (offers s o) (inl q) = offer-Queued s q
  Step-Inv (offers s o) (inr (cs, w, b, o', e, a)) = absurd (cc)
  Step-Inv (cancels s r) (inl q) = inl (cancel-Queued s r q)
  Step-Inv (cancels s r) (inr f) = inr (cancel-Forwarded s r f)
  Step-Inv (closes s) (inl q) = inl q
  Step-Inv (closes s) (inr f) = inr f

  -- Whatever the order of promotion, cancellations and the closing of the sink: from a fresh entry
  -- and an empty wire, either the entry looks queued and nothing was sent, or it shows where the
  -- request went, and the request was sent once, with only its cancellations behind it.
  pub request_first : {s t : Race} → Queued s → Reach s t → Queued t ⊎ Forwarded t
  request_first q here = inl q
  request_first q (next r st) = Step-Inv st (request_first q r)

  dead-Step :
      {s t : Race}
      → Step s t
      → s.entry.is_dead ≡ true
      → Queued s
      → (t.entry.is_dead ≡ true) × Queued t
  unfolding offer promote_to_forwarded_with cancel_race cancel_and_snapshot
  dead-Step (offers s o) d (w, b, e) = ground arith
  dead-Step (cancels s r) d (w, b, e) = (refl, (w, b, ground arith))
  dead-Step (closes s) d q = (d, q)

  -- Once a cancellation has landed on a queued entry, no frame for it ever leaves the daemon.
  pub cancelled_stays_silent :
      {s t : Race}
      → s.entry.is_dead ≡ true
      → Queued s
      → Reach s t
      → (t.entry.is_dead ≡ true) × (t.sink.wire ≡ [])
  cancelled_stays_silent {s} {t} d q r = let (d', q') = go d q r in (d', q'.2)
    where
      go :
          {t : Race}
          → s.entry.is_dead ≡ true
          → Queued s
          → Reach s t
          → (t.entry.is_dead ≡ true) × Queued t
      go d q here = (d, q)
      go d q (next r st) = let (d', q') = go d q r in dead-Step st d' q'
