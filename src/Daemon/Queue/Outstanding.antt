-- ===== src/Daemon/Queue/Outstanding.antt =====
-- One channel, its worker and any number of callers, in any order of their steps.
use tab_stride.Prelude.{
  ℕ, if◌then◌else◌, length, suc, ◌+◌, ◌≡◌, Bool, true, false, none, some, [], arith, length-append,
  ◌≤◌, refl, ◌↔◌, ◌∷◌,
}
use tab_stride.Daemon.Queue.{
  fails, waits, sent, Queue, take_slot, Sending, ToolJob, try_send, send_or_wait, recv, finish,
  new_queue, push, clear_busy,
}
use tab_stride.Protocol.Error.{Body}

-- A channel with the callers that hold its slot and have not sent yet, and whether the registry
-- still holds a sender.
pub record Sys (V : Type 0) : Type 0 where
  pub queue : Queue V
  pub holders : ℕ
  pub registered : Bool

module _ {V : Type 0} where
  abbrev pub is_idle : Queue V → Bool
  is_idle q = elim q.running [ none ↦ true | some _ ↦ false ]

  abbrev pub running_count : Queue V → ℕ
  running_count q = elim q.running [ none ↦ 0 | some _ ↦ 1 ]

  abbrev pub busy_count : Queue V → ℕ
  busy_count q = if q.busy then 1 else 0

  -- The calls that have the slot: those that have not sent, those queued, and the one at work.
  abbrev pub outstanding : Sys V → ℕ
  outstanding s = s.holders + length s.queue.jobs + running_count s.queue

  abbrev pub with_slot : Sys V → Queue V → Sys V
  with_slot s q = record s { queue = q; holders = suc s.holders }

  -- A caller sends, by either way to send; one that has to wait keeps its slot.
  abbrev pub after_send : Sys V → ℕ → Queue V × Sending V → Sys V
  after_send s n (q, waits) = record s { queue = q }
  after_send s n (q, sent) = record s { queue = q; holders = n }
  after_send s n (q, fails e) = record s { queue = q; holders = n }

  pub data Step : Sys V → Sys V → Type 0 where
    takes :
        (s : Sys V) (q : Queue V)
        → s.registered ≡ true
        → take_slot s.queue ≡ some q
        → Step s (with_slot s q)
    sends :
        (s : Sys V) (n : ℕ) (job : ToolJob V)
        → s.holders ≡ suc n
        → Step s (after_send s n (try_send s.queue job))
    sends_last :
        (s : Sys V) (n : ℕ) (job : ToolJob V) (is_late : Bool)
        → s.holders ≡ suc n
        → Step s (after_send s n (send_or_wait is_late s.queue job))
    receives : (s : Sys V) → s.queue.is_open ≡ true → Step s (record s { queue = recv s.queue })
    finishes :
        (s : Sys V) (result : Body V) → Step s (record s { queue = (finish s.queue result).0 })
    drops : (s : Sys V) → Step s (record s { registered = false })
    -- The worker exits when no sender is left and the channel is empty.
    exits :
        (s : Sys V)
        → s.registered ≡ false
        → s.holders ≡ 0
        → s.queue.jobs ≡ []
        → s.queue.running ≡ none
        → Step s (record s { queue = record s.queue { is_open = false } })

  pub data Reach : Sys V → Sys V → Type 0 where
    here : (s : Sys V) → Reach s s
    next : (s : Sys V) {t u : Sys V} → Reach s t → Step t u → Reach s u

  -- A registry entry with a fresh queue.
  abbrev pub spawned : Sys V
  spawned = record { queue = new_queue; holders = 0; registered = true }

  pub record IsValid (s : Sys V) : Type 0 where
    pub counted : outstanding s ≡ busy_count s.queue
    pub served : s.queue.is_open ≡ false → (s.registered ≡ false) × (s.holders ≡ 0)

  takes-IsValid :
      (s : Sys V) (q : Queue V)
      → s.registered ≡ true
      → take_slot s.queue ≡ some q
      → IsValid s
      → IsValid (with_slot s q)
  unfolding take_slot
  takes-IsValid s q r h v = record {
    counted = ground (arith, v.counted);
    served = λ c. ground (arith, v.served);
  }

  holder_state :
      (s : Sys V) (n : ℕ)
      → s.holders ≡ suc n
      → IsValid s
      → (n ≡ 0)
        × (length s.queue.jobs ≡ 0)
        × (running_count s.queue ≡ 0)
        × (s.queue.busy ≡ true)
        × (s.queue.is_open ≡ true)
  holder_state s n h v = ground (arith, v.counted, v.served)

  sending :
      (s : Sys V) (n : ℕ) (job : ToolJob V) (is_late : Bool)
      → s.holders ≡ suc n
      → IsValid s
      → (try_send s.queue job ≡ (push s.queue job, sent))
        × (send_or_wait is_late s.queue job ≡ (push s.queue job, sent))
  unfolding try_send send_or_wait
  sending s n job is_late h v = let (z, l, r, b, o) = holder_state s n h v in rw (o, l) (refl, refl)

  sent-IsValid :
      (s : Sys V) (n : ℕ) (job : ToolJob V)
      → s.holders ≡ suc n
      → IsValid s
      → IsValid (after_send s n (push s.queue job, sent))
  sent-IsValid s n job h v = record {
    counted =
        let (z, l, r, b, o) = holder_state s n h v in
        ground (arith, length-append s.queue.jobs (job ∷ []));
    served = λ c. let (z, l, r, b, o) = holder_state s n h v in ground (arith, v.served);
  }

  recv-IsValid : (s : Sys V) → IsValid s → IsValid (record s { queue = recv s.queue })
  unfolding recv
  recv-IsValid s v = record {
    counted = ground (arith, v.counted);
    served = λ c. ground (arith, v.served);
  }

  finish-IsValid :
      (s : Sys V) (result : Body V)
      → IsValid s
      → IsValid (record s { queue = (finish s.queue result).0 })
  unfolding finish clear_busy
  finish-IsValid s result v = record {
    counted = ground (arith, v.counted);
    served = λ c. ground (arith, v.served);
  }

  Step-IsValid : {s t : Sys V} → Step s t → IsValid s → IsValid t
  Step-IsValid (takes s q r h) v = takes-IsValid s q r h v
  Step-IsValid (sends s n job h) v = rw ((sending s n job false h v).0) (sent-IsValid s n job h v)
  Step-IsValid (sends_last s n job is_late h) v =
      rw ((sending s n job is_late h v).1) (sent-IsValid s n job h v)
  Step-IsValid (receives s o) v = recv-IsValid s v
  Step-IsValid (finishes s result) v = finish-IsValid s result v
  Step-IsValid (drops s) v = record { counted = v.counted; served = λ c. (refl, (v.served c).1) }
  Step-IsValid (exits s g h e r) v = record { counted = v.counted; served = λ c. (g, h) }

  Reach-IsValid : {s t : Sys V} → Reach s t → IsValid s → IsValid t
  Reach-IsValid (here s) v = v
  Reach-IsValid (next s r st) v = Step-IsValid st (Reach-IsValid r v)

  spawned-IsValid : IsValid spawned
  spawned-IsValid = record { counted = refl; served = λ c. ground arith }

  -- In every order of steps from a fresh queue, at most one call has the slot, whether it still
  -- has to send, stands in the channel or is at work, and the slot is refused exactly while one
  -- has it.
  pub at_most_one :
      {s : Sys V}
      → Reach spawned s
      → (outstanding s ≤ 1) × ((take_slot s.queue ≡ none) ↔ (outstanding s ≡ 1))
  unfolding take_slot
  at_most_one {s} r = let v = Reach-IsValid r spawned-IsValid in ground (arith, v.counted)

  -- In every order of steps from a fresh queue, a caller that has the slot finds the channel open
  -- and with room: it sends at the first attempt, by either way to send, and so neither a full nor
  -- a closed queue nor a wait for capacity is ever met.
  pub sends_at_once :
      {s : Sys V} (n : ℕ) (job : ToolJob V) (is_late : Bool)
      → Reach spawned s
      → s.holders ≡ suc n
      → (try_send s.queue job ≡ (push s.queue job, sent))
        × (send_or_wait is_late s.queue job ≡ (push s.queue job, sent))
  sends_at_once {s} n job is_late r h = sending s n job is_late h (Reach-IsValid r spawned-IsValid)
