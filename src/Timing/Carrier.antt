-- ===== src/Timing/Carrier.antt =====
-- The trace travels in a field of the request's parameters: `trace_from`, `put_trace`, `take_trace`.
use tab_stride.Prelude.{
  String, Option, get_or, ◌>>=◌, ◌≡◌, some, str_eq, none, if◌then◌else◌, Bool-cases, inl, inr,
}
use tab_stride.Json.{Json, get}
use tab_stride.Timing.{TimingTrace, no_trace}
use tab_stride.Map.{Map, insert, remove, lookup}
use tab_stride.Map.Laws.{map_laws}

abbrev pub timing_field : String
timing_field = "__tabstride_timing"

module _ (j : Json) where
  open j use {Value, object, as_object, encode_trace, decode_trace, as_object-object, decode-encode}

  unfoldable pub trace_from : Value → TimingTrace
  unfolding get
  trace_from v = get_or (get j timing_field v >>= decode_trace) no_trace

  -- A value that is no object is left as it is.
  unfoldable pub put_trace : Value → TimingTrace → Value
  put_trace v t = elim (as_object v) [
    | none ↦ v
    | some m ↦ object (insert timing_field (encode_trace t) m)
  ]

  -- The value without the field, and the trace that was there.
  unfoldable pub take_trace : Value → Value × Option TimingTrace
  take_trace v = elim (as_object v) [
    | none ↦ (v, none)
    | some m ↦ (object (remove timing_field m), lookup timing_field m >>= decode_trace)
  ]

  get_object : (k : String) (m : Map Value) → get j k (object m) ≡ lookup k m
  unfolding get
  get_object k m = rw as_object-object

  put_object :
      (v : Value) (t : TimingTrace) (m : Map Value)
      → as_object v ≡ some m
      → put_trace v t ≡ object (insert timing_field (encode_trace t) m)
  unfolding put_trace
  put_object v t m h = rw (h, put_trace)

  take_object :
      (m : Map Value)
      → take_trace (object m)
        ≡ (object (remove timing_field m), lookup timing_field m >>= decode_trace)
  unfolding take_trace
  take_object m = rw (as_object-object m, take_trace)

  get_object_of :
      (k : String) (v : Value) (m : Map Value) → as_object v ≡ some m → get j k v ≡ lookup k m
  unfolding get
  get_object_of k v m h = rw h

  -- On an object, a trace that was put is the one that is read and taken; taking it leaves no
  -- trace behind, and no other field is added, changed or lost.
  pub take-put :
      (v : Value) (t : TimingTrace) (m : Map Value) (k : String)
      → as_object v ≡ some m
      → let w = put_trace v t in
        (trace_from w ≡ t)
        × ((take_trace w).1 ≡ some t)
        × (trace_from (take_trace w).0 ≡ no_trace)
        × (get j k (take_trace w).0 ≡ (if str_eq timing_field k then none else get j k v))
  unfolding trace_from
  take-put v t m k h =
      rw (put_object v t m h, take_object)
        (
          simp (get_object, map_laws, decode-encode),
          simp (map_laws, decode-encode),
          simp (get_object, map_laws),
          elim (Bool-cases (str_eq timing_field k)) [
            | inl y ↦ simp (get_object, map_laws, y)
            | inr n ↦ simp (get_object, get_object_of k v m h, map_laws, n)
          ],
        )
