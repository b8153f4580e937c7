-- ===== src/State/Cached.antt =====
-- state/state_cached.go: a cache of the writes of a transaction in front of the stub. The cache is
-- captured by the two closures that replace PutState and GetState, so it is a part of the state.
pub mod Laws
use cckit.Base.{Option, none, some, Text, Bytes, Map, find, store, [], List}
use cckit.Lang.Exec.{Exec}
use cckit.Lang.Result.{Result, ok}
use cckit.State.Impl.{Impl}
use cckit.State.Stub.{Stub}

-- The state of the stub and Cached.TxCache.
abbrev pub WithTxCache : Type 0 → Type 0
WithTxCache S = S × Map Bytes

-- A call of the stub leaves the cache alone.
abbrev pub on_stub : {S A : Type 0} → Exec S A → Exec (WithTxCache S) A
on_stub m (s, c) = let (r, s') = m s in (r, (s', c))

abbrev from_stub : {S A : Type 0} → (S → A) → WithTxCache S → A
from_stub f (s, c) = f s

-- `if bb, ok := cached.TxCache[key]; ok { return bb, nil }`
abbrev pub cached_or : Option Bytes → Result Bytes → Result Bytes
cached_or (some bb) r = ok bb
cached_or none r = r

module _ {S : Type 0} where
  unfoldable pub stub_of : Stub S → Stub (WithTxCache S)
  stub_of stub = record {
    create_composite_key = stub.create_composite_key;
    split_composite_key = stub.split_composite_key;
    get_state = λ k. from_stub (stub.get_state k);
    put_state = λ k b. on_stub (stub.put_state k b);
    del_state = λ k. on_stub (stub.del_state k);
    get_history_for_key = λ k. from_stub (stub.get_history_for_key k);
    get_state_by_range = λ a b. from_stub (stub.get_state_by_range a b);
    get_state_by_partial_composite_key =
        λ o a. from_stub (stub.get_state_by_partial_composite_key o a);
    get_private_data = λ c k. from_stub (stub.get_private_data c k);
    put_private_data = λ c k b. on_stub (stub.put_private_data c k b);
    del_private_data = λ c k. on_stub (stub.del_private_data c k);
    get_private_data_by_partial_composite_key =
        λ c o a. from_stub (stub.get_private_data_by_partial_composite_key c o a);
    set_event = λ n b. on_stub (stub.set_event n b);
    invoke_chaincode = λ n a c. on_stub (stub.invoke_chaincode n a c);
    get_args = from_stub stub.get_args;
    get_transient = from_stub stub.get_transient;
    get_creator = from_stub stub.get_creator;
  }

  -- The closure for PutState: the cache first, then the stub.
  unfoldable pub cached_put : Stub S → Text → Bytes → Exec (WithTxCache S) (Unit {0})
  cached_put stub key bb (s, c) = on_stub (stub.put_state key bb) (s, store key bb c)

  -- The closure for GetState: a key of the cache is not read from the stub.
  unfoldable pub cached_get : Stub S → Text → WithTxCache S → Result Bytes
  cached_get stub key (s, c) = cached_or (find key c) (stub.get_state key s)

  unfoldable pub with_cache : {U : Type 0} → Impl S U → Impl (WithTxCache S) U
  with_cache i = record {
    stub = stub_of i.stub;
    put_state = cached_put i.stub;
    get_state = cached_get i.stub;
    key_transformer = i.key_transformer;
    key_reverse_transformer = i.key_reverse_transformer;
    get_transformer = i.get_transformer;
    put_transformer = i.put_transformer;
  }
