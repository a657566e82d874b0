-- ===== src/Json.antt =====
-- What the daemon uses of `serde_json`: its value type is a parameter, with the accessors of
-- `Value` and the two directions of the derived codec of `TimingTrace`.
use tab_stride.Map.{Map, lookup}
use tab_stride.Prelude.{String, Bool, Option, ℕ, ◌≡◌, some, ◌>>=◌}
use tab_stride.Timing.{TimingTrace}

pub record Json : Type 1 where
  pub Value : Type 0
  pub object : Map Value → Value
  pub as_object : Value → Option (Map Value)
  pub text : String → Value
  pub as_str : Value → Option String
  pub as_u64 : Value → Option ℕ
  pub is_null : Value → Bool
  pub encode_trace : TimingTrace → Value
  pub decode_trace : Value → Option TimingTrace
  pub as_object-object : (m : Map Value) → as_object (object m) ≡ some m
  pub decode-encode : (t : TimingTrace) → decode_trace (encode_trace t) ≡ some t

module _ (j : Json) where
  open j use {Value, as_object}

  -- `Value::get`
  unfoldable pub get : String → Value → Option Value
  get k v = do m ← as_object v; lookup k m
