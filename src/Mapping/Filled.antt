-- ===== src/Mapping/Filled.antt =====
-- state/mapping/mapping.go, state/state.go: the state that WrapState is given, state.State as Impl of
-- state/state.go keeps it on a stub. Impl takes an entry by its methods: the key of ProtoStateMapped is
-- that of its mapping, and its bytes are those of its message (Key and ToBytes of state_mapped.go).
pub mod Views
pub mod Writing
pub mod Reading
pub mod Changes
pub mod Promises
use cckit.Base.{◌≡◌, Bool, Option, none, some, List, [], ◌∷◌, Text, Bytes, codes, if◌then◌else◌}
use cckit.Lang.Error.{Error, noted, caused, errorf, key_already_exists}
use cckit.Lang.Exec.{Exec, lift, reads, ◌>>=◌}
use cckit.Lang.Result.{Result, ok, err, panic, on_err}
use cckit.Lang.Result.{◌>>=◌ as bind}
use cckit.Lang.Value.{obj, bytes, state_key, Methods}
use cckit.Mapping.Interface.{State, Arg, as_is, mapped}
use cckit.Mapping.KeyRefs.{mapped_key}
use cckit.Mapping.Schema.{Entity, Schema, Field}
use cckit.Mapping.StateMappings.{ProtoStateMapped}
use cckit.State.Impl as Impl
use cckit.State.Impl.{Impl, new_state, HistoryEntry}
use cckit.State.Impl.Listing.{list_state}
use cckit.State.Impl.Private as Private
use cckit.State.Key.{Key, key_string}
use cckit.State.Stub.{Stub}

module _ {S U : Type 0} (m : Methods (Entity U)) (show : Error → Text)
    (reflect : U → Option (List Field)) (stub : Stub S) where
  abbrev pub impl : Impl S (Entity U)
  impl = new_state m stub

  -- What NormalizeKey of the entry is, as Impl.Key notes its errors.
  unfoldable pub noted_key : ProtoStateMapped U → Result Key
  noted_key pm = on_err (noted (codes "key normalizing")) (mapped_key m show reflect pm)

  abbrev pub asserted : Option (Result Bytes) → Result Bytes
  asserted (some r) = r
  asserted none = panic

  -- ProtoStateMapped.ToBytes; the assertion fails on what is no message.
  unfoldable pub mapped_bytes : Schema U → Result Bytes
  mapped_bytes (obj x) = asserted (m.proto_marshal x)
  mapped_bytes _ = panic

  -- Impl.Get
  unfoldable pub filled_get : Arg U → List (Schema U) → S → Result (Schema U)
  filled_get (as_is v) config s = Impl.get m impl v config s
  filled_get (mapped pm) config s = bind (noted_key pm) λ k. Impl.get m impl (state_key k) config s

  abbrev by_key : {A : Type 0} → (Schema U → S → Result A) → Arg U → S → Result A
  by_key f (as_is v) s = f v s
  by_key f (mapped pm) s = bind (noted_key pm) λ k. f (state_key k) s

  -- Impl.Put: without a value, the entry is its own.
  unfoldable pub filled_put : Arg U → List (Schema U) → Exec S (Unit {0})
  filled_put (as_is v) values = Impl.put m impl v values
  filled_put (mapped pm) [] = do
    k ← lift (mapped_key m show reflect pm)
    bb ← lift (mapped_bytes pm.instance_)
    Impl.put m impl (state_key k) (bytes bb ∷ [])
  filled_put (mapped pm) (v ∷ values) = do
    k ← lift (mapped_key m show reflect pm)
    Impl.put m impl (state_key k) (v ∷ values)

  -- Impl.Insert
  unfoldable pub filled_insert : Arg U → List (Schema U) → Exec S (Unit {0})
  unfolding filled_put
  filled_insert (as_is v) values = Impl.insert m impl v values
  filled_insert (mapped pm) values = do
    k ← lift (noted_key pm)
    found ← reads (Impl.exists m impl (state_key k))
    if found
        then lift (err (caused key_already_exists (key_string k)))
        else filled_put (mapped pm) values

  -- Impl.Delete
  unfoldable pub filled_delete : Arg U → Exec S (Unit {0})
  filled_delete (as_is v) = Impl.delete m impl v
  filled_delete (mapped pm) = do
    k ← lift (on_err (noted (codes "deleting from state")) (noted_key pm))
    Impl.delete m impl (state_key k)

  unfoldable pub filled_put_private : Text → Arg U → List (Schema U) → Exec S (Unit {0})
  filled_put_private c (as_is v) values = Private.put_private m impl c v values
  filled_put_private c (mapped pm) [] = do
    k ← lift (mapped_key m show reflect pm)
    bb ← lift (mapped_bytes pm.instance_)
    Private.put_private m impl c (state_key k) (bytes bb ∷ [])
  filled_put_private c (mapped pm) (v ∷ values) = do
    k ← lift (mapped_key m show reflect pm)
    Private.put_private m impl c (state_key k) (v ∷ values)

  unfoldable pub filled_insert_private : Text → Arg U → List (Schema U) → Exec S (Unit {0})
  unfolding filled_put_private
  filled_insert_private c (as_is v) values = Private.insert_private m impl c v values
  filled_insert_private c (mapped pm) values = do
    k ← lift (noted_key pm)
    found ← reads (Private.exists_private m impl c (state_key k))
    if found
        then lift (err (errorf key_already_exists (key_string k)))
        else filled_put_private c (mapped pm) values

  unfoldable pub filled_delete_private : Text → Arg U → Exec S (Unit {0})
  filled_delete_private c (as_is v) = Private.delete_private m impl c v
  filled_delete_private c (mapped pm) = do
    k ← lift (on_err (noted (codes "deleting from private state")) (noted_key pm))
    Private.delete_private m impl c (state_key k)

  abbrev pub filled : State S U
  filled = record {
    get = filled_get;
    get_history = λ a target s. by_key (λ v t. Impl.get_history m impl v target t) a s;
    exists = by_key (Impl.exists m impl);
    put = filled_put;
    insert = filled_insert;
    list = list_state m impl;
    delete = filled_delete;
    get_private = λ c a config s. by_key (λ v t. Private.get_private m impl c v config t) a s;
    exists_private = λ c. by_key (Private.exists_private m impl c);
    put_private = filled_put_private;
    insert_private = filled_insert_private;
    list_private = λ c. Private.list_private m impl c;
    delete_private = filled_delete_private;
  }
