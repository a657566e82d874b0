-- ===== src/Protocol/Frame.antt =====
-- crates/tabstride-protocol/src/frame.rs: the frames that the daemon and the extension exchange.
-- `V` is the type of JSON values.
pub mod Codec
use tab_stride.Prelude.{String, ◌≡◌, ◌↔◌, Option, none, some, arith}
use tab_stride.Protocol.Method.{Method}
use tab_stride.Protocol.Error.{Body, RpcError, ok, err}

pub record RequestFrame (V : Type 0) : Type 0 where
  pub id : String
  pub method : Method
  pub params : Option V
  pub timing : Option V

pub record ResponseFrame (V : Type 0) : Type 0 where
  pub id : String
  pub body : Body V

-- The `Flat` shape that a response is decoded from, with its two optional members.
pub record Flat (V : Type 0) : Type 0 where
  pub id : String
  pub result : Option V
  pub error : Option (RpcError V)

-- `Serialize for ResponseFrame`
unfoldable pub flatten : {V : Type 0} → ResponseFrame V → Flat V
flatten f = elim f.body [
  | ok v ↦ record { id = f.id; result = some v; error = none }
  | err e ↦ record { id = f.id; result = none; error = some e }
]

-- `Deserialize for ResponseFrame`; `none` is `AmbiguousResponse`.
unfoldable pub decode_flat : {V : Type 0} → Flat V → Option (ResponseFrame V)
decode_flat {V} f = elim f.result [
  | some v ↦ elim f.error [ none ↦ some (record { id = f.id; body = ok v }) | some e ↦ none ]
  | none ↦ elim f.error [ none ↦ none | some e ↦ some (record { id = f.id; body = err e }) ]
]

-- A flat frame decodes exactly to the response that is written that way, and otherwise, with both
-- members or with neither, to nothing.
pub decode_flat_iff :
    {V : Type 0} (f : Flat V) (r : ResponseFrame V) → (decode_flat f ≡ some r) ↔ (f ≡ flatten r)
unfolding decode_flat flatten
decode_flat_iff f r = ground arith
