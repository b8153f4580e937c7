-- ===== src/Tests/Memory.antt =====
-- A stub in memory for the tests: reads see what was committed, as on a peer, and composite keys are
-- written as shim writes them.
pub mod Cached
pub mod Composite
use Composite.{create, split_key, split_key-create, contains-create, prefix_of}
use cckit.Base.{
  ◌≡◌, ◌≢◌, refl, ℕ, Bool, true, false, ◌&&◌, ◌==◌, if◌then◌else◌, Option, none, some, List, [],
  ◌∷◌, ◌++◌, Text, Bytes, Map, find, store,
}
use cckit.Lang.Error.{external}
use cckit.Lang.Exec.{Exec}
use cckit.Lang.Result.{Result, ok, err}
use cckit.Lang.Value.{Value, Methods, struct}
use cckit.Response.{shim_success}
use cckit.State.Stub.{Stub, Kv, CompositeKeys}

pub record Memory : Type 0 where
  pub committed : Map Bytes
  pub writes : List (Text × Bytes)
  pub private_data : Map Bytes
  pub events : List (Text × Bytes)
  pub transient : Map Bytes

abbrev pub empty : Memory
empty = record { committed = []; writes = []; private_data = []; events = []; transient = [] }

abbrev or_empty : Option Bytes → Bytes
or_empty none = []
or_empty (some b) = b

is_prefix : Text → Text → Bool
is_prefix [] s = true
is_prefix (a ∷ p) [] = false
is_prefix (a ∷ p) (b ∷ s) = a == b && is_prefix p s

-- The records whose keys begin with the prefix.
unfoldable pub rows : Text → Map Bytes → List (Result Kv)
unfolding is_prefix
rows p [] = []
rows p ((k, b) ∷ m) =
    let rest = rows p m in if is_prefix p k then ok (record { key = k; value = b }) ∷ rest else rest

abbrev pub memory_stub : Stub Memory
memory_stub = record {
  create_composite_key = create;
  split_composite_key = split_key;
  get_state = λ k s. ok (or_empty (find k s.committed));
  put_state = λ k b s. (ok tt, record s { writes = s.writes ++ (k, b) ∷ [] });
  del_state = λ k s. (ok tt, record s { writes = s.writes ++ (k, []) ∷ [] });
  get_history_for_key = λ k s. ok [];
  get_state_by_range = λ a b s. ok (rows [] s.committed);
  get_state_by_partial_composite_key = λ o a s. ok (rows (prefix_of o a) s.committed);
  get_private_data = λ c k s. ok (or_empty (find k s.private_data));
  put_private_data = λ c k b s. (ok tt, record s { private_data = store k b s.private_data });
  del_private_data = λ c k s. (ok tt, s);
  get_private_data_by_partial_composite_key = λ c o a s. ok [];
  set_event = λ n b s. (ok tt, record s { events = (n, b) ∷ [] });
  invoke_chaincode = λ n a c s. (ok (shim_success []), s);
  get_args = λ s. [];
  get_transient = λ s. ok s.transient;
  get_creator = λ s. ok [];
}

pub memory_stub-CompositeKeys : CompositeKeys memory_stub
memory_stub-CompositeKeys = record {
  split-create = split_key-create;
  contains-create = contains-create;
}

-- An application whose types have no methods.
abbrev pub no_methods : Methods ℕ
no_methods = record {
  type_name = λ v. [];
  kind = λ u. struct;
  text = λ u. [];
  keyer = λ u. none;
  namer = λ u. none;
  to_byter = λ u. none;
  from_byter = λ u. none;
  proto_marshal = λ u. none;
  marshal_any = λ u. err (external 0);
  proto_unmarshal = λ u. none;
  json_marshal = λ v. err (external 0);
  json_unmarshal = λ v b. err (external 0);
}
