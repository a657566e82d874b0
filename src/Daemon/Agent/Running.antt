-- ===== src/Daemon/Agent/Running.antt =====
-- The tasks of one agent connection in every order of steps.
use tab_stride.Json.{Json}
use tab_stride.Map.{contains_key, lookup}
use tab_stride.Map.Laws.{lookup-insert, lookup-remove}
use tab_stride.Protocol.Error.{Body}
use tab_stride.Protocol.Method.{Method}
use tab_stride.Protocol.Frame.Codec.{Frame, request, response, event}
use tab_stride.Daemon.Agent.{
  Agent, new_agent, Dispatched, refuses, spawns, dispatch_text, finish_task, is_handshake,
}
use tab_stride.Prelude.{
  if◌then◌else◌, ℕ, ◌+◌, String, ◌≡◌, Option, List, [], ◌∷◌, ◌++◌, arith, eq_iff, str_eq,
  Bool-cases, refl, inl, inr, none, some,
}

-- The connection, and the ids of the tasks that run.
pub record Sys : Type 0 where
  pub agent : Agent
  pub running : List String

abbrev pub count : String → List String → ℕ
count k [] = 0
count k (id ∷ ids) = (if str_eq id k then 1 else 0) + count k ids

count-append : (k : String) (xs ys : List String) → count k (xs ++ ys) ≡ count k xs + count k ys
count-append k [] ys = omega arith
count-append k (x ∷ xs) ys = omega (arith, count-append k xs ys)

module _ (j : Json) (texts_of : j.Value → List String) (null : j.Value) where
  open j use {Value}

  abbrev pub after_dispatch : List String → Agent × Dispatched Value → Sys
  after_dispatch ids (a, refuses id) = record { agent = a; running = ids }
  after_dispatch ids (a, spawns id m p) = record { agent = a; running = id ∷ ids }

  -- A text arrives, or a running task ends with some answer.
  pub data Step : Sys → Sys → Type 0 where
    arrives :
        (s : Sys) (f : Option (Frame Value))
        → Step s (after_dispatch s.running (dispatch_text null s.agent f))
    ends :
        (a : Agent) (before after : List String) (id : String) (m : Method) (b : Body Value)
        → Step
            (record { agent = a; running = before ++ id ∷ after })
            (record { agent = finish_task j texts_of a id m b; running = before ++ after })

  pub data Reaches : Sys → Sys → Type 0 where
    here : (s : Sys) → Reaches s s
    then_step : (s t u : Sys) → Reaches s t → Step t u → Reaches s u

  -- Each active id has one task, and every other id none.
  abbrev pub Matches : Sys → String → Type 0
  Matches s k = count k s.running ≡ (if contains_key k s.agent.active_ids then 1 else 0)

  arrives-Matches :
      (s : Sys) (f : Option (Frame Value)) (k : String)
      → Matches s k
      → Matches (after_dispatch s.running (dispatch_text null s.agent f)) k
  unfolding dispatch_text
  arrives-Matches s none k h = h
  arrives-Matches s (some (response r)) k h = h
  arrives-Matches s (some (event e)) k h = h
  arrives-Matches s (some (request r)) k h = elim (Bool-cases (is_handshake r.method)) [
    | inl y ↦ rw (y, dispatch_text) h
    | inr n ↦ elim (Bool-cases (contains_key r.id s.agent.active_ids)) [
      | inl y ↦ rw (n, dispatch_text) (rw (y, dispatch_text) h)
      | inr z ↦
          rw (n, dispatch_text)
            (rw (z, dispatch_text)
              (ground (arith, h, lookup-insert r.id k tt s.agent.active_ids, eq_iff r.id k)))
    ]
  ]

  ends-Matches :
      (a : Agent) (before after : List String) (id : String) (m : Method) (b : Body Value)
      (k : String)
      → ((x : String) → Matches (record { agent = a; running = before ++ id ∷ after }) x)
      → Matches (record { agent = finish_task j texts_of a id m b; running = before ++ after }) k
  unfolding finish_task
  ends-Matches a before after id m b k h = ground (
    arith,
    h k,
    h id,
    count-append k before (id ∷ after),
    count-append k before after,
    count-append id before (id ∷ after),
    lookup-remove id k a.active_ids,
    eq_iff id k,
  )

  Step-Matches : (s t : Sys) → Step s t → ((x : String) → Matches s x) → (k : String) → Matches t k
  Step-Matches _ _ (arrives s f) h k = arrives-Matches s f k (h k)
  Step-Matches _ _ (ends a before after id m b) h k = ends-Matches a before after id m b k h

  Matches-from :
      (s t : Sys) → Reaches s t → ((x : String) → Matches s x) → (k : String) → Matches t k
  Matches-from _ _ (here s) h k = h k
  Matches-from _ _ (then_step s u t r step) h k =
      Step-Matches u t step (λ x. Matches-from s u r h x) k

  -- From a fresh connection on, in every order of arrivals and ends, the active ids are the ids of the
  -- running tasks, and no two tasks run under one id.
  pub one_task_per_id :
      (s : Sys) (k : String) → Reaches (record { agent = new_agent; running = [] }) s → Matches s k
  unfolding lookup
  one_task_per_id s k r =
      Matches-from (record { agent = new_agent; running = [] }) s r (λ x. refl) k
