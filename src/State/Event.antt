-- ===== src/State/Event.antt =====
-- state/event.go: the event that a transaction sets.
use cckit.Base.{List, [], ◌∷◌, Text, Option, none, some}
use cckit.Lang.Error.{base, unable_to_create_event_name, allow_only_one_value}
use cckit.Lang.Exec.{Exec, lift, ◌>>=◌}
use cckit.Lang.Result.{Result, ok, err}
use cckit.Lang.Result.{◌>>=◌ as bind}
use cckit.Lang.Value.{Value, str, obj, Methods}
use cckit.State.Stub.{Stub}
use cckit.State.Transformer.{ToBytesTransformer, StringTransformer, name_as_is, convert_to_bytes}

pub record EventImpl (S U : Type 0) : Type 0 where
  pub stub : Stub S
  pub name_transformer : StringTransformer
  pub set_transformer : ToBytesTransformer U

module _ {S U : Type 0} (m : Methods U) where
  unfoldable pub new_event : Stub S → EventImpl S U
  new_event stub = record {
    stub = stub;
    name_transformer = name_as_is;
    set_transformer = convert_to_bytes m;
  }

  abbrev pub use_set_transformer : EventImpl S U → ToBytesTransformer U → EventImpl S U
  use_set_transformer e tb = record e { set_transformer = tb }

  abbrev pub use_name_transformer : EventImpl S U → StringTransformer → EventImpl S U
  use_name_transformer e nt = record e { name_transformer = nt }

abbrev name_of_namer : Option (Result Text) → Result Text
name_of_namer (some r) = r
name_of_namer none = err (base unable_to_create_event_name)

module _ {U : Type 0} (m : Methods U) where
  unfoldable pub normalize_event_name : Value U → Result Text
  normalize_event_name (obj u) = name_of_namer (m.namer u)
  normalize_event_name (str n) = ok n
  normalize_event_name _ = err (base unable_to_create_event_name)

  unfoldable pub arg_name_value : Value U → List (Value U) → Result (Text × Value U)
  arg_name_value arg [] = bind (normalize_event_name arg) λ name. ok (name, arg)
  arg_name_value arg (v ∷ []) = bind (normalize_event_name arg) λ name. ok (name, v)
  arg_name_value arg (v ∷ w ∷ _) =
      bind (normalize_event_name arg) λ _. err (base allow_only_one_value)

  -- EventImpl.Set
  unfoldable pub set : {S : Type 0} → EventImpl S U → Value U → List (Value U) → Exec S (Unit {0})
  set e entry values = do
    (name, value) ← lift (arg_name_value entry values)
    name_str ← lift (e.name_transformer name)
    bb ← lift (e.set_transformer value [])
    e.stub.set_event name_str bb
