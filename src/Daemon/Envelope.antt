-- ===== src/Daemon/Envelope.antt =====
-- The timing of an answer in crates/tabstride-cli/src/daemon/ipc.rs: `params_with_timing`, the end of
-- `full_handler` and `finalize_timing`. `now` is the time at which the answer is stamped.
use tab_stride.Json.{Json}
use tab_stride.Map.{Map, insert}
use tab_stride.Protocol.Error.{Body, ok, err}
use tab_stride.Protocol.Method.{
  Method, system_handshake, system_ping, system_status, session_list, browser_list,
}
use tab_stride.Timing.{TimingTrace, no_trace}
use tab_stride.Timing.Carrier.{timing_field, put_trace, trace_from, take-put}
use tab_stride.Prelude.{
  if◌then◌else◌, is_some, get_or, ℕ, ◌≡◌, Bool, true, false, Option, none, some, [], Bool-cases,
  refl, ap, ◌∙◌, inl, inr,
}

-- `should_log_request`
unfoldable pub should_log_request : Method → Bool
should_log_request system_handshake = false
should_log_request system_ping = false
should_log_request system_status = false
should_log_request session_list = false
should_log_request browser_list = false
should_log_request m = true

module _ (j : Json) where
  open j use {Value, object, as_object, encode_trace, as_object-object}

  -- The parameters of a tool call, with the trace in its field where they are an object.
  unfoldable pub params_with_timing : Option Value → Option Value → Value
  params_with_timing params none = get_or params (object [])
  params_with_timing params (some timing) =
      let v = get_or params (object []) in
      elim (as_object v) [ none ↦ v | some m ↦ object (insert timing_field timing m) ]

  -- The incoming trace goes with a value that has none of its own.
  abbrev pub with_trace : TimingTrace → Value → Value
  with_trace incoming v =
      if is_some (trace_from j v).agent_received_at then v else put_trace j v incoming

  unfoldable pub attach_trace : TimingTrace → Body Value → Body Value
  unfolding trace_from put_trace
  attach_trace incoming (ok v) =
      if is_some incoming.agent_received_at then ok (with_trace incoming v) else ok v
  attach_trace incoming (err e) =
      if is_some incoming.agent_received_at
      then err (record e { details = some (with_trace incoming (get_or e.details (object []))) })
      else err e

  -- The value that carries the trace of an answer.
  abbrev pub carrier : Body Value → Option Value
  carrier (ok v) = some v
  carrier (err e) = e.details

  abbrev pub trace_of : Body Value → TimingTrace
  trace_of b = elim (carrier b) [ none ↦ no_trace | some v ↦ trace_from j v ]

  abbrev pub put_in : Body Value → TimingTrace → Body Value
  put_in (ok v) t = ok (put_trace j v t)
  put_in (err e) t =
      err (record e { details = some (put_trace j (get_or e.details (object [])) t) })

  -- `finalize_timing`: the answer, and the trace of the metric that is written, if one is.
  unfoldable pub finalize_timing : ℕ → Body Value → Body Value × Option TimingTrace
  unfolding trace_from put_trace
  finalize_timing now b =
      let t = record (trace_of b) { serve_replied_at = some now } in
      if is_some (trace_of b).agent_received_at
      then (put_in b t, if t.skip_metric then none else some t)
      else (b, none)

  -- The end of `full_handler`.
  unfoldable pub answer_with_timing : TimingTrace → ℕ → Body Value → Body Value × Option TimingTrace
  unfolding attach_trace finalize_timing
  answer_with_timing incoming now b = finalize_timing now (attach_trace incoming b)

  attach_untimed :
      (incoming : TimingTrace) (b : Body Value)
      → is_some incoming.agent_received_at ≡ false
      → attach_trace incoming b ≡ b
  unfolding attach_trace
  attach_untimed incoming (ok v) h = rw (h, attach_trace) refl
  attach_untimed incoming (err e) h = rw (h, attach_trace) refl

  finalize_untimed :
      (now : ℕ) (b : Body Value)
      → is_some (trace_of b).agent_received_at ≡ false
      → finalize_timing now b ≡ (b, none)
  unfolding finalize_timing
  finalize_untimed now b h = rw (h, finalize_timing) refl

  -- Without a trace of the caller or of the answer nothing is stamped and no metric is written.
  pub untimed_unchanged :
      (incoming : TimingTrace) (now : ℕ) (b : Body Value)
      → is_some incoming.agent_received_at ≡ false
      → is_some (trace_of b).agent_received_at ≡ false
      → answer_with_timing incoming now b ≡ (b, none)
  unfolding answer_with_timing
  untimed_unchanged incoming now b h k =
      ap (finalize_timing now) (attach_untimed incoming b h) ∙ finalize_untimed now b k

  -- The value that a trace is put in.
  abbrev pub place_of : Body Value → Value
  place_of (ok v) = v
  place_of (err e) = get_or e.details (object [])

  -- The trace that an answer keeps: its own if it has one, and that of the caller if not.
  abbrev pub kept : TimingTrace → Value → TimingTrace
  kept incoming v = if is_some (trace_from j v).agent_received_at then trace_from j v else incoming

  trace_from-put :
      (v : Value) (t : TimingTrace) (m : Map Value)
      → as_object v ≡ some m
      → trace_from j (put_trace j v t) ≡ t
  trace_from-put v t m h = (take-put j v t m "" h).0

  trace_from-with_trace :
      (incoming : TimingTrace) (v : Value) (m : Map Value)
      → as_object v ≡ some m
      → trace_from j (with_trace incoming v) ≡ kept incoming v
  trace_from-with_trace incoming v m h =
      elim (Bool-cases (is_some (trace_from j v).agent_received_at)) [
        | inl y ↦ rw y refl
        | inr n ↦ rw n (trace_from-put v incoming m h)
      ]

  as_object-with_trace :
      (incoming : TimingTrace) (v : Value) (m : Map Value)
      → as_object v ≡ some m
      → (n : Map Value) × (as_object (with_trace incoming v) ≡ some n)
  unfolding put_trace
  as_object-with_trace incoming v m h =
      elim (Bool-cases (is_some (trace_from j v).agent_received_at)) [
        | inl y ↦ rw y (m, h)
        | inr n ↦ rw n (
            rw (h, put_trace)
              (
                insert timing_field (encode_trace incoming) m,
                as_object-object (insert timing_field (encode_trace incoming) m),
              ))
      ]

  kept_timed :
      (incoming : TimingTrace) (v : Value)
      → is_some incoming.agent_received_at ≡ true
      → is_some (kept incoming v).agent_received_at ≡ true
  kept_timed incoming v h = elim (Bool-cases (is_some (trace_from j v).agent_received_at)) [
    | inl y ↦ rw y y
    | inr n ↦ rw n h
  ]

  abbrev pub stamp : ℕ → TimingTrace → TimingTrace
  stamp now t = record t { serve_replied_at = some now }

  abbrev pub metric_of : TimingTrace → Option TimingTrace
  metric_of t = if t.skip_metric then none else some t

  trace_of-put_in :
      (b : Body Value) (t : TimingTrace) (m : Map Value)
      → as_object (place_of b) ≡ some m
      → trace_of (put_in b t) ≡ t
  trace_of-put_in (ok v) t m h = trace_from-put v t m h
  trace_of-put_in (err e) t m h = trace_from-put (get_or e.details (object [])) t m h

  finalize_timed :
      (now : ℕ) (b : Body Value) (t : TimingTrace) (m : Map Value)
      → as_object (place_of b) ≡ some m
      → trace_of b ≡ t
      → is_some t.agent_received_at ≡ true
      → (trace_of (finalize_timing now b).0 ≡ stamp now t)
        × ((finalize_timing now b).1 ≡ metric_of (stamp now t))
  unfolding finalize_timing
  finalize_timed now b t m h e k =
      rw (e, finalize_timing) (rw (k, finalize_timing) (trace_of-put_in b (stamp now t) m h, refl))

  -- An answer to a caller that measures, with a payload that is an object or with no data, is stamped
  -- once: it carries its own trace, or else the one of the caller, with the time at which it was
  -- stamped. A metric with this trace is written unless the trace asks for none.
  pub answer_is_stamped :
      (incoming : TimingTrace) (now : ℕ) (b : Body Value) (m : Map Value)
      → as_object (place_of b) ≡ some m
      → is_some incoming.agent_received_at ≡ true
      → let t = stamp now (kept incoming (place_of b)) in
        (trace_of (answer_with_timing incoming now b).0 ≡ t)
        × ((answer_with_timing incoming now b).1 ≡ metric_of t)
  unfolding answer_with_timing attach_trace
  answer_is_stamped incoming now (ok v) m h k =
      let (n, e) = as_object-with_trace incoming v m h in
      rw (k, attach_trace)
        (finalize_timed now (ok (with_trace incoming v)) (kept incoming v) n e
          (trace_from-with_trace incoming v m h) (kept_timed incoming v k))
  answer_is_stamped incoming now (err r) m h k =
      let v = get_or r.details (object []) in
      let (n, e) = as_object-with_trace incoming v m h in
      rw (k, attach_trace)
        (finalize_timed now (err (record r { details = some (with_trace incoming v) }))
          (kept incoming v) n e (trace_from-with_trace incoming v m h) (kept_timed incoming v k))
