-- ===== src/Protocol/Frame/Codec.antt =====
-- The codec of `Frame` in crates/tabstride-protocol/src/frame.rs, which tells requests, responses and
-- events apart. A text is the list of its members, in the order in which they stand.
use tab_stride.Protocol.Method.{Method}
use tab_stride.Protocol.Error.{ErrorCode, Body, RpcError, ok, err, Body-cases}
use tab_stride.Protocol.Frame.{RequestFrame, ResponseFrame}
use tab_stride.Prelude.{
  Bool, if◌then◌else◌, ◌>>=◌, get_or, String, ◌≡◌, refl, Option, none, some, List, [], ◌∷◌, ◌++◌,
  Option-cases, inl, inr, arith, sym, ap, ◌∙◌,
}

pub data EventKind : Type 0 where
  session_activity session_window_closed session_user_interrupt : EventKind
  browser_disconnected browser_connected : EventKind

pub record EventFrame (V : Type 0) : Type 0 where
  pub event : EventKind
  pub payload : V

pub data Frame (V : Type 0) : Type 0 where
  request : RequestFrame V → Frame V
  response : ResponseFrame V → Frame V
  event : EventFrame V → Frame V

-- The object of an error as it is written: its code, and the value of its member `data` if that
-- stands there.
pub record ErrorObject (V : Type 0) : Type 0 where
  pub code : ErrorCode
  pub data_member : Option V

-- A member by its key, with what serde reads from its value; `none` is a value of the wrong type.
pub data Member (V : Type 0) : Type 0 where
  id_member : Option String → Member V
  method_member : Option Method → Member V
  params_member timing_member result_member payload_member : V → Member V
  error_member : Option (ErrorObject V) → Member V
  event_member : Option EventKind → Member V
  other_member : String → Member V

-- The local variables of `visit_map`.
pub record Seen (V : Type 0) : Type 0 where
  pub id : Option String
  pub method : Option Method
  pub params : Option V
  pub timing : Option V
  pub result : Option V
  pub error : Option (RpcError V)
  pub event : Option EventKind
  pub payload : Option V

-- A value for a place that is still free; a second one is `duplicate_field`.
abbrev pub fill : {A : Type 0} → Option A → Option A → Option (Option A)
fill (some old) new = none
fill none none = none
fill none (some a) = some (some a)

bind_assoc :
    {A B C : Type 0} (o : Option A) (f : A → Option B) (g : B → Option C)
    → (o >>= f >>= g) ≡ (o >>= (λ a. f a >>= g))
bind_assoc none f g = refl
bind_assoc (some a) f g = refl

module _ {V : Type 0} where
  abbrev pub nothing_seen : Seen V
  nothing_seen = record {
    id = none;
    method = none;
    params = none;
    timing = none;
    result = none;
    error = none;
    event = none;
    payload = none;
  }

  -- `Serialize for RpcError`: no data, no member.
  unfoldable pub write_error : RpcError V → ErrorObject V
  write_error e = record { code = e.code; data_member = e.details }

  -- An `Option` is read from a value: null is nothing.
  unfoldable pub read_option : (V → Bool) → Option V → Option V
  read_option is_null none = none
  read_option is_null (some v) = if is_null v then none else some v

  -- `Deserialize for RpcError`
  unfoldable pub read_error : (V → Bool) → ErrorObject V → RpcError V
  unfolding read_option
  read_error is_null o = record { code = o.code; details = read_option is_null o.data_member }

  abbrev pub read_found : (V → Bool) → Option (ErrorObject V) → Option (RpcError V)
  read_found is_null none = none
  read_found is_null (some o) = some (read_error is_null o)

  -- One turn of the loop; `none` is its error.
  unfoldable pub read_member : (V → Bool) → Seen V → Member V → Option (Seen V)
  unfolding read_error
  read_member is_null s (id_member v) = do x ← fill s.id v; some (record s { id = x })
  read_member is_null s (method_member v) = do x ← fill s.method v; some (record s { method = x })
  read_member is_null s (params_member v) = do
    x ← fill s.params (some v)
    some (record s { params = x })
  read_member is_null s (timing_member v) = do
    x ← fill s.timing (some v)
    some (record s { timing = x })
  read_member is_null s (result_member v) = do
    x ← fill s.result (some v)
    some (record s { result = x })
  read_member is_null s (error_member v) = do
    x ← fill s.error (read_found is_null v)
    some (record s { error = x })
  read_member is_null s (event_member v) = do x ← fill s.event v; some (record s { event = x })
  read_member is_null s (payload_member v) = do
    x ← fill s.payload (some v)
    some (record s { payload = x })
  read_member is_null s (other_member k) = some s

  unfoldable pub read_members : (V → Bool) → Seen V → List (Member V) → Option (Seen V)
  unfolding read_member
  read_members is_null s [] = some s
  read_members is_null s (m ∷ ms) = read_member is_null s m >>= (λ t. read_members is_null t ms)

  -- `(result, error)`; both or neither is an error.
  abbrev pub body_of : Option V → Option (RpcError V) → Option (Body V)
  body_of (some v) none = some (ok v)
  body_of none (some e) = some (err e)
  body_of _ _ = none

  -- The end of `visit_map`: an event first, then a request, then a response.
  unfoldable pub assemble : V → Seen V → Option (Frame V)
  assemble empty_object s = elim s.event [
    | some k ↦ some (event (record { event = k; payload = get_or s.payload empty_object }))
    | none ↦ elim s.method [
      | some m ↦ do
        i ← s.id
        some (request (record { id = i; method = m; params = s.params; timing = s.timing }))
      | none ↦ do
        i ← s.id
        b ← body_of s.result s.error
        some (response (record { id = i; body = b }))
    ]
  ]

  -- `Deserialize for Frame`; `none` is an error, and `empty_object` stands for a missing payload.
  unfoldable pub decode_frame : (V → Bool) → V → List (Member V) → Option (Frame V)
  unfolding read_members assemble
  decode_frame is_null empty_object ms = do
    s ← read_members is_null nothing_seen ms
    assemble empty_object s

  -- `skip_serializing_if = "Option::is_none"`
  abbrev pub member_if : (V → Member V) → Option V → List (Member V)
  member_if c none = []
  member_if c (some v) = c v ∷ []

  abbrev pub body_member : Body V → Member V
  body_member (ok v) = result_member v
  body_member (err e) = error_member (some (write_error e))

  -- `Serialize for Frame`
  unfoldable pub encode_frame : Frame V → List (Member V)
  unfolding write_error
  encode_frame (request r) =
      id_member (some r.id)
      ∷ method_member (some r.method)
      ∷ (member_if params_member r.params ++ member_if timing_member r.timing)
  encode_frame (response r) = id_member (some r.id) ∷ body_member r.body ∷ []
  encode_frame (event e) = event_member (some e.event) ∷ payload_member e.payload ∷ []

  -- What is left of a frame: of an error, data that are null are no data.
  abbrev pub read_body : (V → Bool) → Body V → Body V
  read_body is_null (ok v) = ok v
  read_body is_null (err e) =
      err (record { code = e.code; details = read_option is_null e.details })

  abbrev pub read_back : (V → Bool) → Frame V → Frame V
  read_back is_null (request r) = request r
  read_back is_null (response r) = response (record { id = r.id; body = read_body is_null r.body })
  read_back is_null (event e) = event e

  -- Every frame is decoded back to itself, except that the data of an error, where they are null,
  -- come back as no data.
  pub decode_frame-encode_frame :
      (is_null : V → Bool) (empty_object : V) (f : Frame V)
      → decode_frame is_null empty_object (encode_frame f) ≡ some (read_back is_null f)
  unfolding decode_frame encode_frame read_members read_member assemble read_error write_error
  decode_frame-encode_frame is_null empty_object (request r) = elim (Option-cases r.params) [
    | inl p ↦ elim (Option-cases r.timing) [ inl t ↦ ground arith | inr (v, t) ↦ ground arith ]
    | inr (w, p) ↦ elim (Option-cases r.timing) [ inl t ↦ ground arith | inr (v, t) ↦ ground arith ]
  ]
  decode_frame-encode_frame is_null empty_object (response r) = elim (Body-cases r.body) [
    | inl (v, e) ↦ rw e refl
    | inr (d, e) ↦ rw e refl
  ]
  decode_frame-encode_frame is_null empty_object (event e) = refl

  read_member_swap :
      (is_null : V → Bool) (s : Seen V) (a b : Member V)
      → (read_member is_null s a >>= (λ t. read_member is_null t b))
        ≡ (read_member is_null s b >>= (λ t. read_member is_null t a))
  unfolding read_member
  read_member_swap is_null s a b = ground arith

  read_members_swap :
      (is_null : V → Bool) (s : Seen V) (xs ys : List (Member V)) (a b : Member V)
      → read_members is_null s (xs ++ a ∷ b ∷ ys) ≡ read_members is_null s (xs ++ b ∷ a ∷ ys)
  unfolding read_members
  read_members_swap is_null s [] ys a b =
      sym (
        bind_assoc (read_member is_null s a) (λ t. read_member is_null t b)
          (λ t. read_members is_null t ys))
      ∙ ap (λ o. o >>= (λ t. read_members is_null t ys)) (read_member_swap is_null s a b)
      ∙ bind_assoc (read_member is_null s b) (λ t. read_member is_null t a)
          (λ t. read_members is_null t ys)
  read_members_swap is_null s (x ∷ xs) ys a b = elim (Option-cases (read_member is_null s x)) [
    | inl e ↦ rw (e, read_members) refl
    | inr (t, e) ↦ rw (e, read_members) (read_members_swap is_null t xs ys a b)
  ]

  -- The order of the members does not matter: two neighbours can change places.
  pub decode_frame_swap :
      (is_null : V → Bool) (empty_object : V) (xs ys : List (Member V)) (a b : Member V)
      → decode_frame is_null empty_object (xs ++ a ∷ b ∷ ys)
        ≡ decode_frame is_null empty_object (xs ++ b ∷ a ∷ ys)
  unfolding decode_frame
  decode_frame_swap is_null empty_object xs ys a b =
      ap (λ o. o >>= assemble empty_object) (read_members_swap is_null nothing_seen xs ys a b)
