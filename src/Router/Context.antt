-- ===== src/Router/Context.antt =====
-- router/context.go: what a handler is given. The handler that is set is kept by its type only,
-- which is all that is read of it. The state of the stub is a part of the context, since handlers
-- change it.
use cckit.Base.{Option, none, some, List, [], ◌∷◌, Text, Bytes, Map, find, store, codes}
use cckit.Lang.Value.{Value, nil, str, bytes, int, ℤ, pos, Methods}
use cckit.State.Event.{EventImpl, new_event}
use cckit.State.Impl.{Impl, new_state}
use cckit.State.Stub.{Stub}

-- MethodType
pub data MethodType : Type 0 where
  invoke query : MethodType

pub record Context (S U : Type 0) : Type 0 where
  pub stub : S
  pub handler : Option MethodType
  pub state : Option (Impl S U)
  pub event : Option (EventImpl S U)
  pub args : Option (List Bytes)
  pub params : Map (Value U)
  pub kept : Map (Value U)

-- DefaultParam
abbrev pub default_param : Text
default_param = codes "default"

abbrev or_nil : {U : Type 0} → Option (Value U) → Value U
or_nil none = nil
or_nil (some v) = v

abbrev as_string : {U : Type 0} → Value U → Text
as_string (str s) = s
as_string _ = []

abbrev as_bytes : {U : Type 0} → Value U → Bytes
as_bytes (bytes b) = b
as_bytes _ = []

abbrev as_int : {U : Type 0} → Value U → ℤ
as_int (int z) = z
as_int _ = pos 0

module _ {S U : Type 0} where
  unfoldable pub new_context : S → Context S U
  new_context s = record {
    stub = s;
    handler = none;
    state = none;
    event = none;
    args = none;
    params = [];
    kept = [];
  }

  abbrev pub set_handler : MethodType → Context S U → Context S U
  set_handler t c = record c { handler = some t }

  abbrev pub use_state : Impl S U → Context S U → Context S U
  use_state i c = record c { state = some i }

  abbrev pub use_event : EventImpl S U → Context S U → Context S U
  use_event e c = record c { event = some e }

  abbrev pub replace_args : List Bytes → Context S U → Context S U
  replace_args args c = record c { args = some args }

  unfoldable pub set_param : Text → Value U → Context S U → Context S U
  set_param name value c = record c { params = store name value c.params }

  -- A missing name is the default parameter; a missing key of the map is nil.
  unfoldable pub param : List Text → Context S U → Value U
  param [] c = or_nil (find default_param c.params)
  param (name ∷ _) c = or_nil (find name c.params)

  unfoldable pub param_string : Text → Context S U → Text
  param_string name c = as_string (param (name ∷ []) c)

  unfoldable pub param_bytes : Text → Context S U → Bytes
  param_bytes name c = as_bytes (param (name ∷ []) c)

  unfoldable pub param_int : Text → Context S U → ℤ
  param_int name c = as_int (param (name ∷ []) c)

  -- Set and Get of the context's store.
  unfoldable pub set : Text → Value U → Context S U → Context S U
  set key val c = record c { kept = store key val c.kept }

  unfoldable pub get : Text → Context S U → Value U
  get key c = or_nil (find key c.kept)

module _ {S U : Type 0} (m : Methods U) (stub : Stub S) where
  abbrev or_stub_args : Option (List Bytes) → S → List Bytes
  or_stub_args (some a) s = a
  or_stub_args none s = stub.get_args s

  unfoldable pub get_args : Context S U → List Bytes
  get_args c = or_stub_args c.args c.stub

  abbrev first_arg : List Bytes → Text
  first_arg [] = []
  first_arg (a ∷ _) = a

  unfoldable pub path : Context S U → Text
  unfolding get_args
  path c = first_arg (get_args c)

  abbrev or_new_state : Option (Impl S U) → Impl S U
  or_new_state (some i) = i
  or_new_state none = new_state m stub

  -- State creates the state at its first call and keeps it.
  unfoldable pub state_of : Context S U → Impl S U × Context S U
  state_of c = let i = or_new_state c.state in (i, use_state i c)

  abbrev or_new_event : Option (EventImpl S U) → EventImpl S U
  or_new_event (some e) = e
  or_new_event none = new_event m stub

  unfoldable pub event_of : Context S U → EventImpl S U × Context S U
  event_of c = let e = or_new_event c.event in (e, use_event e c)
