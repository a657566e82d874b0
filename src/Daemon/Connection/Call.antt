-- ===== src/Daemon/Connection/Call.antt =====
-- What a call over a connection comes to, and what the connection writes.
use tab_stride.Json.{Json}
use tab_stride.Map.{Map, lookup, remove, insert}
use tab_stride.Map.Laws.{lookup-insert, lookup-remove}
use tab_stride.Timing.Carrier.{timing_field}
use tab_stride.Protocol.Method.{Method}
use tab_stride.Protocol.Error.{Body}
use tab_stride.Protocol.Frame.{RequestFrame, ResponseFrame}
use tab_stride.Protocol.Frame.Codec.{
  request, response, encode_frame, decode_frame-encode_frame, read_body, Frame, decode_frame, event,
}
use tab_stride.Daemon.Envelope.{params_with_timing}
use tab_stride.Daemon.Connection.{
  Line, members, handle_connection, answer_line, answer_frame, request_of, request_with, reply_of,
  reply_to, decode_response, blank, garbage,
}
use tab_stride.Prelude.{
  String, none, some, List, [], ◌∷◌, ◌≡◌, arith, ap, ◌∙◌, Option-cases, inl, inr, eq_iff,
  append_nil, refl, Option, ◌++◌,
}

module _ (j : Json) where
  open j use {Value, is_null, object, as_object, as_object-object}

  module _ (m : Map Value) (k : String) where
    absent : lookup timing_field m ≡ none → lookup k (remove timing_field m) ≡ lookup k m
    absent e = ground (arith, lookup-remove timing_field k m, eq_iff timing_field k)

    present :
        (t : Value)
        → lookup timing_field m ≡ some t
        → lookup k (insert timing_field t (remove timing_field m)) ≡ lookup k m
    present t e = ground (
      arith,
      lookup-insert timing_field k t (remove timing_field m),
      lookup-remove timing_field k m,
      eq_iff timing_field k,
    )

  -- The members that the handler sees are those that the caller gave.
  restored :
      (m : Map Value)
      → (m' : Map Value) × (params_with_timing j
            (some (object (remove timing_field m)))
            (lookup timing_field m)
          ≡ object m')
        × ((k : String) → lookup k m' ≡ lookup k m)
  unfolding params_with_timing
  restored m = elim (Option-cases (lookup timing_field m)) [
    | inl e ↦ (remove timing_field m, rw (e, params_with_timing), λ k. absent m k e)
    | inr (t, e) ↦ (
      insert timing_field t (remove timing_field m),
      rw (e, params_with_timing, as_object-object),
      λ k. present m k t e,
    )
  ]

  module _ {S : Type 0} (handler : S → String → Method → Value → S × Body Value) where
    -- The answer of one request line.
    answer_line-request :
        (s : S) (r : RequestFrame Value)
        → answer_line j handler s (members (encode_frame (request r))) ≡ (
          (handler s r.id r.method (params_with_timing j r.params r.timing)).0,
          record {
            id = r.id;
            body = (handler s r.id r.method (params_with_timing j r.params r.timing)).1;
          }
              ∷ [],
        )
    unfolding answer_line
    answer_line-request s r =
        ap (answer_frame j handler s) (decode_frame-encode_frame is_null (object []) (request r))

    handle_connection-one :
        (s : S) (l : Line Value)
        → handle_connection j handler s (l ∷ []) ≡ answer_line j handler s l
    unfolding handle_connection
    handle_connection-one s l =
        ap (λ answers. ((answer_line j handler s l).0, answers))
          (append_nil (answer_line j handler s l).1)

    -- The request that the client writes for members, and the frame that answers it.
    abbrev carried : String → Method → Map Value → RequestFrame Value
    carried id method m = record {
      id = id;
      method = method;
      params = some (object (remove timing_field m));
      timing = lookup timing_field m;
    }

    request_of-object :
        (id : String) (method : Method) (m : Map Value)
        → request_of j id method (object m) ≡ carried id method m
    unfolding request_of
    request_of-object id method m = ap (request_with j id method (object m)) (as_object-object m)

    abbrev answered : String → S × Body Value → S × List (ResponseFrame Value)
    answered id done = (done.0, record { id = id; body = done.1 } ∷ [])

    decode_response-own :
        (id : String) (b : Body Value)
        → decode_response j (encode_frame (response (record { id = id; body = b }))) id
          ≡ reply_of j (read_body is_null b)
    unfolding decode_response
    decode_response-own id b =
        ap (reply_to j id)
          (decode_frame-encode_frame is_null (object []) (response (record { id = id; body = b })))
        ∙ ground (arith, eq_iff id id)

    -- A call over a connection comes to the handler once, with its id and method and the members that
    -- the caller gave, and the caller gets what the handler returns, a result or an error, but that an
    -- error's data, where they are null, are lost.
    pub decode_response-handle_connection :
        (s : S) (id : String) (method : Method) (m : Map Value)
        → (m' : Map Value) × ((k : String) → lookup k m' ≡ lookup k m)
          × (let done = handler s id method (object m') in
              (handle_connection j handler s
                  (members (encode_frame (request (request_of j id method (object m)))) ∷ [])
                ≡ (done.0, record { id = id; body = done.1 } ∷ []))
              × (decode_response j (encode_frame (response (record { id = id; body = done.1 }))) id
                  ≡ reply_of j (read_body is_null done.1)))
    decode_response-handle_connection s id method m =
        let (m', e, same) = restored m in
        (
          m',
          same,
          (
            handle_connection-one s
                  (members (encode_frame (request (request_of j id method (object m)))))
                ∙ ap (λ r. answer_line j handler s (members (encode_frame (request r))))
                    (request_of-object id method m)
                ∙ answer_line-request s (carried id method m)
                ∙ ap (λ v. answered id (handler s id method v)) e,
            decode_response-own id (handler s id method (object m')).1,
          ),
        )

  -- The ids under which a line is to be answered: its own if it is a request, "0" if it is no frame.
  abbrev due_frame : Option (Frame Value) → List String
  due_frame none = "0" ∷ []
  due_frame (some (request r)) = r.id ∷ []
  due_frame (some (response r)) = []
  due_frame (some (event e)) = []

  abbrev due : Line Value → List String
  due blank = []
  due garbage = "0" ∷ []
  due (members ms) = due_frame (decode_frame is_null (object []) ms)

  abbrev ids_of : List (ResponseFrame Value) → List String
  ids_of [] = []
  ids_of (r ∷ rs) = r.id ∷ ids_of rs

  abbrev all_due : List (Line Value) → List String
  all_due [] = []
  all_due (l ∷ ls) = due l ++ all_due ls

  ids_of-append : (xs ys : List (ResponseFrame Value)) → ids_of (xs ++ ys) ≡ ids_of xs ++ ids_of ys
  ids_of-append [] ys = refl
  ids_of-append (x ∷ xs) ys = ap (λ ids. x.id ∷ ids) (ids_of-append xs ys)

  module _ {S : Type 0} (handler : S → String → Method → Value → S × Body Value) where
    ids_of-answer_frame :
        (s : S) (f : Option (Frame Value)) → ids_of (answer_frame j handler s f).1 ≡ due_frame f
    ids_of-answer_frame s none = refl
    ids_of-answer_frame s (some (request r)) = refl
    ids_of-answer_frame s (some (response r)) = refl
    ids_of-answer_frame s (some (event e)) = refl

    ids_of-answer_line : (s : S) (l : Line Value) → ids_of (answer_line j handler s l).1 ≡ due l
    unfolding answer_line
    ids_of-answer_line s blank = refl
    ids_of-answer_line s garbage = refl
    ids_of-answer_line s (members ms) = ids_of-answer_frame s (decode_frame is_null (object []) ms)

    -- Each line of a connection is answered once and in order, or not at all if it needs no answer.
    pub ids_of-handle_connection :
        (s : S) (ls : List (Line Value)) → ids_of (handle_connection j handler s ls).1 ≡ all_due ls
    unfolding handle_connection
    ids_of-handle_connection s [] = refl
    ids_of-handle_connection s (l ∷ ls) =
        ids_of-append (answer_line j handler s l).1
          (handle_connection j handler (answer_line j handler s l).0 ls).1
        ∙ rw (ids_of-answer_line s l, ids_of-handle_connection (answer_line j handler s l).0 ls)
