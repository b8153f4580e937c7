-- ===== src/Lang/Value.antt =====
-- Values of `interface{}`: the types that the repository's type switches name, and the types `U` of
-- the application, whose methods are known only through `Methods`.
use cckit.Base.{ℕ, Bool, Option, List, Text, Bytes}
use cckit.Lang.Result.{Result}

-- int, as a sign and a magnitude: `negsuc n` is -(n + 1).
pub data ℤ : Type 0 where
  pos : ℕ → ℤ
  negsuc : ℕ → ℤ

pub data Value (U : Type 0) : Type 0 where
  nil : Value U
  str : Text → Value U
  -- state.Key
  state_key : List Text → Value U
  -- []string
  strs : List Text → Value U
  bytes : Bytes → Value U
  int : ℤ → Value U
  bool : Bool → Value U
  -- a value of a type of the application
  obj : U → Value U

-- reflect.Kind, as far as convert tells kinds apart.
pub data Kind : Type 0 where
  ptr struct array map slice string_kind other_kind : Kind

-- The methods of the application's types, `none` for a type that has no such method, and the
-- libraries that work by reflection on them (encoding/json, golang/protobuf).
pub record Methods (U : Type 0) : Type 0 where
  -- reflect.TypeOf(v).String()
  pub type_name : Value U → Text
  pub kind : U → Kind
  -- reflect.ValueOf(v).String() of a type whose kind is string
  pub text : U → Text
  -- Keyer and StringsKeyer
  pub keyer : U → Option (Result (List Text))
  -- Namer
  pub namer : U → Option (Result Text)
  pub to_byter : U → Option (Result Bytes)
  pub from_byter : U → Option (Bytes → Result (Value U))
  -- proto.Marshal of a proto.Message, and proto.Unmarshal into a clone of it
  pub proto_marshal : U → Option (Result Bytes)
  -- ptypes.MarshalAny of a proto.Message
  pub marshal_any : U → Result Bytes
  pub proto_unmarshal : U → Option (Bytes → Result (Value U))
  -- json.Marshal, and json.Unmarshal into a new value of the type of a target
  pub json_marshal : Value U → Result Bytes
  pub json_unmarshal : Value U → Bytes → Result (Value U)
